-- ===== src/Policy/Fixtures/Cases.antt =====
-- The texts and the fixtures of `test_required_workflow_rejects_fail_open_topologies`.
use project_charybdis.Base.{
  ◌==◌, Bool, not, List, [], ◌∷◌, ◌++◌, Text, codes, contains_text, Result, ok,
}
use project_charybdis.Base.Errors.{◌>>=◌, ◌>>◌, check}
use project_charybdis.Policy.Triggers.{Events}
use project_charybdis.Policy.Fixtures.{
  replace_once, occurrences, remove_job, add_job_setting, replace_job, Fixture, check_fixtures,
}

abbrev pub validator_name_line : Text
validator_name_line = codes "      - name: schema-validation (in container)\n"

abbrev pub validator_run_line : Text
validator_run_line = codes "        run: bash scripts/run_ci_local.sh schema-validation"

abbrev pub validator_step : Text
validator_step = validator_name_line ++ validator_run_line

abbrev pub build_run_line : Text
build_run_line =
    codes
      "        run: podman build --ignorefile ci/.dockerignore -f ci/Containerfile -t charybdis-ci:local ."

abbrev pub build_step : Text
build_step = codes "      - name: Build CI image (podman)\n" ++ build_run_line

abbrev pub default_gitleaks_command : Text
default_gitleaks_command = codes "              gitleaks detect --source /workspace \\\n"

abbrev pub configured_gitleaks_command : Text
configured_gitleaks_command =
    codes "              gitleaks detect --source /workspace --config .gitleaks.toml \\\n"

abbrev pub gitleaks_report_command : Text
gitleaks_report_command =
    codes "                --report-format sarif --report-path gitleaks.sarif --redact"

abbrev pub configured_gitleaks_branch : Text
configured_gitleaks_branch = configured_gitleaks_command ++ gitleaks_report_command

abbrev pub default_gitleaks_branch : Text
default_gitleaks_branch = default_gitleaks_command ++ gitleaks_report_command

abbrev pub gitleaks_container : Text
gitleaks_container =
    codes "            podman run --rm --userns=keep-id:uid=1000,gid=1000 \\\n"
    ++ codes "              -v \"$PWD:/workspace:Z\" -w /workspace charybdis-ci:local \\\n"

abbrev pub configured_gitleaks_invocation : Text
configured_gitleaks_invocation = gitleaks_container ++ configured_gitleaks_branch

abbrev pub default_gitleaks_invocation : Text
default_gitleaks_invocation = gitleaks_container ++ default_gitleaks_branch

abbrev pub hollow_proxy : Text
hollow_proxy =
    codes "\n  hollow-proxy:\n"
    ++ codes "    runs-on: ubuntu-24.04\n"
    ++ codes "    steps:\n"
    ++ codes "      - run: echo pass\n"

abbrev pub hollow_validator : Text
hollow_validator =
    codes "  schema-validation:\n"
    ++ codes "    name: schema-validation\n"
    ++ codes "    runs-on: ubuntu-24.04\n"
    ++ codes "    steps:\n"
    ++ codes "      - uses: actions/checkout@3d3c42e5aac5ba805825da76410c181273ba90b1\n"
    ++ codes "      - run: echo pass\n"

-- The default branch only echoes its command.
abbrev pub hollow_default_gitleaks : Text → Text
hollow_default_gitleaks valid =
    replace_once default_gitleaks_command
      (codes "              echo 'gitleaks detect --source /workspace' \\\n") valid

-- The command of the default branch stands in the configured one.
abbrev pub moved_default_gitleaks : Text → Text
moved_default_gitleaks valid =
    replace_once configured_gitleaks_invocation
      (configured_gitleaks_invocation ++ (codes "\n" ++ default_gitleaks_invocation))
      (replace_once default_gitleaks_invocation
        (codes "            echo 'default Gitleaks branch hollow'") valid)

-- What the fixtures are made of is there.
unfoldable pub check_parts : Text → Bool → Result (Unit {0})
check_parts valid has_gitleaks_config = do
  check (contains_text valid validator_step)
  check (contains_text valid build_step)
  check (contains_text valid default_gitleaks_command)
  check (contains_text valid configured_gitleaks_branch)
  check (contains_text valid default_gitleaks_branch)
  check (contains_text valid configured_gitleaks_invocation)
  check (contains_text valid default_gitleaks_invocation)
  check (not has_gitleaks_config)
  check (not (contains_text (hollow_default_gitleaks valid) default_gitleaks_command))
  check (contains_text (hollow_default_gitleaks valid) configured_gitleaks_command)
  check (occurrences default_gitleaks_invocation 0 (moved_default_gitleaks valid) == 1)
  check (contains_text (moved_default_gitleaks valid) (codes "default Gitleaks branch hollow"))

abbrev pub workflow_names : List Text
workflow_names = codes "Required Checks" ∷ []

-- An edited workflow, with the names of `workflow_names`.
abbrev pub case : Text → Text → Fixture
case workflow expected = record { workflow = workflow; names = workflow_names; expected = expected }

-- The validator's step, replaced.
abbrev pub with_step : Text → Text → Text
with_step valid step = replace_once validator_step step valid

-- A setting of the job schema-validation.
abbrev pub with_setting : Text → Text → Text
with_setting valid setting = add_job_setting valid (codes "schema-validation") setting

unfoldable pub fixtures : Text → Result (List Fixture)
fixtures valid = do
  removed ← remove_job valid (codes "schema-validation")
  hollow ← replace_job valid (codes "schema-validation") hollow_validator
  ok (
      -- missing validator
      case removed (codes "missing validators")
      -- hollow proxy
      ∷ case (valid ++ hollow_proxy) (codes "hollow or duplicate jobs")
      -- hollow expected validator
      ∷ case hollow (codes "validator command missing")
      -- event-gated validator step
      ∷ case
          (with_step valid (
            validator_name_line
            ++ (codes "        if: github.event_name == 'pull_request'\n" ++ validator_run_line)))
          (codes "validator step condition not allowlisted")
      -- job continue-on-error
      ∷ case (with_setting valid (codes "    continue-on-error: true\n"))
          (codes "job continue-on-error forbidden")
      -- step continue-on-error
      ∷ case
          (with_step valid (
            validator_name_line
            ++ (codes "        continue-on-error: true\n" ++ validator_run_line)))
          (codes "step continue-on-error forbidden")
      -- event-gated setup step with condition first
      ∷ case
          (replace_once build_step
            (codes "      - if: github.event_name == 'pull_request'\n"
              ++ (codes "        name: Build CI image (podman)\n" ++ build_run_line))
            valid)
          (codes "step condition not allowlisted")
      -- echoed validator command
      ∷ case
          (with_step valid (
            validator_name_line
            ++ (codes "        run: |\n"
                ++ codes "          echo 'bash scripts/run_ci_local.sh schema-validation'")))
          (codes "validator command missing")
      -- commented validator command
      ∷ case
          (with_step valid (
            validator_name_line
            ++ (codes "        run: |\n"
                ++ (codes "          # bash scripts/run_ci_local.sh schema-validation\n"
                    ++ codes "          echo pass"))))
          (codes "validator command missing")
      -- validator command in a different step
      ∷ case
          (with_step valid (
            validator_name_line
            ++ (codes "        run: echo pass\n"
                ++ (codes "      - name: decoy schema validator\n" ++ validator_run_line))))
          (codes "validator command missing")
      -- hollow live default Gitleaks branch
      ∷ case (hollow_default_gitleaks valid) (codes "validator command missing")
      -- default Gitleaks command moved into configured branch
      ∷ case (moved_default_gitleaks valid) (codes "validator command missing")
      -- configured Gitleaks branch suppresses failure
      ∷ case
          (replace_once configured_gitleaks_branch (configured_gitleaks_branch ++ codes " || true")
            valid)
          (codes "validator command missing")
      -- default Gitleaks branch suppresses failure
      ∷ case
          (replace_once default_gitleaks_branch (default_gitleaks_branch ++ codes " || true") valid)
          (codes "validator command missing")
      -- bare dependency
      ∷ case (with_setting valid (codes "    needs: [upstream]\n"))
          (codes "independent validator declares needs")
      -- cancelled dependency pass-through
      ∷ case (with_setting valid (codes "    needs: [upstream]\n    if: always()\n"))
          (codes "conditional job can mask a result")
      -- unexpected skipped dependency
      ∷ case
          (with_setting valid (
            codes "    needs: [upstream]\n"
            ++ codes "    if: needs.upstream.result == 'success'\n"))
          (codes "conditional job can mask a result")
      -- duplicate execution path
      ∷ record {
        workflow = valid;
        names = codes "Required Checks" ∷ codes "Required Checks" ∷ [];
        expected = codes "duplicate workflow entry point";
      }
      ∷ [])

-- The test on the text of the required workflow; the Boolean is whether the repository has a file
-- .gitleaks.toml.
unfoldable pub fail_open_test :
    (Events → Text) → (List Text → Text) → Text → Bool → Result (Unit {0})
fail_open_test repr_events repr_texts valid has_gitleaks_config = do
  check_parts valid has_gitleaks_config
  cases ← fixtures valid
  check_fixtures repr_events repr_texts cases
