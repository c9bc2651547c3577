-- ===== src/Policy/Contract.antt =====
-- The constants of the required workflow's contract, in the order in which `sorted` gives the sets.
use project_charybdis.Base.{List, [], ◌∷◌, Text, codes, String, Dict}
use project_charybdis.Policy.Triggers.{Events}

abbrev pub texts : List String → List Text
texts [] = []
texts (s ∷ ss) = codes s ∷ texts ss

-- EXPECTED_REQUIRED_JOB_IDS
abbrev pub expected_required_job_ids : List Text
expected_required_job_ids = texts (
    "deps-version-sync" ∷ "forbid-suppressions" ∷ "install" ∷ "lockfile-integrity" ∷ "release"
    ∷ "schema-validation" ∷ "security-dependency-scan" ∷ "security-secrets-scan" ∷ "typecheck"
    ∷ "uv-lock-check" ∷ [])

-- The name of a job's validator step, and the commands that it runs.
pub record Validator : Type 0 where
  pub step : Text
  pub commands : List Text

abbrev pub validator : String → List String → Validator
validator step commands = record { step = codes step; commands = texts commands }

-- EXPECTED_REQUIRED_VALIDATORS
abbrev pub expected_required_validators : Dict Validator
expected_required_validators =
    (
      codes "deps-version-sync",
      validator "deps-version-sync (in container)"
          ("bash scripts/run_ci_local.sh deps-version-sync" ∷ []),
    )
    ∷ (
      codes "forbid-suppressions",
      validator "forbid-suppressions (in container)"
          ("bash scripts/run_ci_local.sh forbid-suppressions" ∷ []),
    )
    ∷ (
      codes "install",
      validator "Install to staging prefix"
          ("uv run cmake --install build/release --prefix \"${RUNNER_TEMP}/install-prefix\"" ∷ []),
    )
    ∷ (
      codes "lockfile-integrity",
      validator "Regenerate lockfile" (
          "conan lock create . -s compiler=gcc -s compiler.version=14 -s compiler.libcxx=libstdc++11 -s compiler.cppstd=20 -s build_type=Debug -s os=Linux -s arch=x86_64"
          ∷ []),
    )
    ∷ (
      codes "release",
      validator "Dry-run changelog generation"
          ("FRAGMENT=$(bash scripts/generate-changelog.sh \"${PREV_TAG}\" \"HEAD\")" ∷ []),
    )
    ∷ (
      codes "schema-validation",
      validator "schema-validation (in container)"
          ("bash scripts/run_ci_local.sh schema-validation" ∷ []),
    )
    ∷ (
      codes "security-dependency-scan",
      validator "security-dependency-scan (in container)"
          ("bash scripts/run_ci_local.sh security-dependency-scan" ∷ []),
    )
    ∷ (
      codes "security-secrets-scan",
      validator "Run Gitleaks" (
          "podman run --rm --userns=keep-id:uid=1000,gid=1000 -v \"$PWD:/workspace:Z\" -w /workspace charybdis-ci:local gitleaks detect --source /workspace --config .gitleaks.toml --report-format sarif --report-path gitleaks.sarif --redact"
          ∷ "podman run --rm --userns=keep-id:uid=1000,gid=1000 -v \"$PWD:/workspace:Z\" -w /workspace charybdis-ci:local gitleaks detect --source /workspace --report-format sarif --report-path gitleaks.sarif --redact"
          ∷ []),
    )
    ∷ (
      codes "typecheck",
      validator "typecheck (in container)" ("bash scripts/run_ci_local.sh typecheck" ∷ []),
    )
    ∷ (
      codes "uv-lock-check",
      validator "uv-lock-check (in container)" ("bash scripts/run_ci_local.sh uv-lock-check" ∷ []),
    )
    ∷ []

-- ALLOWED_REQUIRED_STEP_CONDITIONS: the job, the step, and its condition.
pub record Allowed : Type 0 where
  pub job : Text
  pub step : Text
  pub condition : Text

abbrev pub allowed_required_step_conditions : List Allowed
allowed_required_step_conditions =
    record {
      job = codes "security-secrets-scan";
      step = codes "Upload Gitleaks SARIF";
      condition =
          codes
            "always() && hashFiles('gitleaks.sarif') != '' && github.event_name != 'merge_group'";
    }
    ∷ []

-- EXPECTED_REQUIRED_TRIGGERS
abbrev pub expected_required_triggers : Events
expected_required_triggers =
    (codes "pull_request", (codes "branches", texts ("main" ∷ [])) ∷ [])
    ∷ (codes "push", (codes "branches", texts ("main" ∷ [])) ∷ [])
    ∷ (codes "merge_group", (codes "types", texts ("checks_requested" ∷ [])) ∷ [])
    ∷ []
