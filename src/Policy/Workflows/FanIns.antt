-- ===== src/Policy/Workflows/FanIns.antt =====
-- The test methods on the jobs that gather results, and on the permissions of jobs that write.
pub mod Results
use project_charybdis.Base.{
  Bool, true, false, not, ◌&&◌, ◌||◌, Option, none, some, List, [], ◌∷◌, ◌++◌, map, Text, codes,
  text_eq, starts_with, contains_text, split_on, has_key, all, any, Dict, Result, ok, raised,
  if◌then◌else◌, String,
}
use project_charybdis.Base.Errors.{◌>>=◌, ◌>>◌, check, value_error}
use project_charybdis.Policy.Triggers.{Events, triggers_from_text}
use project_charybdis.Policy.Jobs.{context_emitters, emitter}
use project_charybdis.Policy.Shell.{texts_eq}
use project_charybdis.Policy.Contract.{texts}
use project_charybdis.Policy.Violations.{has_text, has_line}
use project_charybdis.Policy.Workflows.{
  Workflows, read_text, set_eq, triggers_of, job_section, job_names, check_event, when_requested,
}

-- A context with the workflow and the job that emit it.
pub record FanIn : Type 0 where
  pub context : Text
  pub workflow : Text
  pub job : Text

abbrev pub fan_in : String → String → String → FanIn
fan_in context workflow job = record {
  context = codes context;
  workflow = codes workflow;
  job = codes job;
}

-- EXPECTED_FAN_IN_EMITTERS
abbrev pub expected_fan_in_emitters : List FanIn
expected_fan_in_emitters =
    fan_in "build" "build-test.yml" "build"
    ∷ fan_in "unit-tests" "build-test.yml" "unit-tests"
    ∷ fan_in "lint" "static-analysis.yml" "lint"
    ∷ fan_in "package" "container.yml" "package"
    ∷ []

-- `re.search(r"(?m)^<line>$", section)`
unfoldable pub has_whole_line : Text → Text → Bool
has_whole_line line section = any (text_eq line) (split_on 10 section)

-- `assertEqual(_context_emitters(context), [f"{workflow_name}:{job_id}"])`
unfoldable pub check_emitter : FanIn → Workflows → Result (Unit {0})
check_emitter f ws = do
  emitters ← context_emitters f.context ws
  check (texts_eq emitters (emitter f.workflow f.job ∷ []))

-- One round of `test_required_fan_ins_run_after_real_upstream_results`.
unfoldable pub check_fan_in : FanIn → Workflows → Result (Unit {0})
check_fan_in f ws = do
  section ← job_section f.workflow f.job ws
  check_emitter f ws
  triggers ← triggers_of f.workflow ws
  check (has_key (codes "merge_group") triggers)
  check_event triggers (codes "merge_group") when_requested
  check (has_line (codes "    needs:") section)
  check (has_whole_line (codes "    if: always()") section)
  check (contains_text section (codes "needs."))
  check (contains_text section (codes "result"))
  check (not (has_line (codes "    if: >") section))
  check (not (contains_text section (codes "Skip")))

unfoldable pub fan_ins_test : List FanIn → Workflows → Result (Unit {0})
fan_ins_test [] ws = ok tt
fan_ins_test (f ∷ fs) ws = do check_fan_in f ws; fan_ins_test fs ws

-- The jobs that gather several results, with the list of jobs that each of them needs.
abbrev pub expected_aggregates : List (FanIn × Text)
expected_aggregates =
    (
      fan_in "lint" "static-analysis.yml" "lint",
      codes "[clang-format, clang-tidy, action-pins, markdown-lint]",
    )
    ∷ (fan_in "package" "container.yml" "package", codes "[docker]")
    ∷ []

-- One round of `test_aggregate_fan_ins_have_explicit_result_backed_contracts`.
unfoldable pub check_aggregate : FanIn → Text → Workflows → Result (Unit {0})
check_aggregate f needs ws = do
  section ← job_section f.workflow f.job ws
  check_emitter f ws
  check (contains_text section (codes "needs: " ++ needs))
  check (contains_text section (codes "if: always()"))
  check (contains_text section (codes "needs."))
  check (contains_text section (codes "result"))
  check (not (contains_text section (codes "Skip")))

unfoldable pub aggregates_test : List (FanIn × Text) → Workflows → Result (Unit {0})
aggregates_test [] ws = ok tt
aggregates_test ((f, needs) ∷ rest) ws = do check_aggregate f needs ws; aggregates_test rest ws

-- `test_required_proxy_workflow_does_not_emit_fan_in_contexts`
unfoldable pub proxy_test : Workflows → Result (Unit {0})
proxy_test ws = do
  required ← read_text (codes "_required.yml") ws
  names ← job_names required
  check (all (λ f. not (has_text f.context names)) expected_fan_in_emitters)

-- `text[: text.index(mark)]`
unfoldable pub text_before : Text → Text → Result Text
text_before mark [] = if starts_with [] mark then ok [] else raised value_error
text_before mark (c ∷ s) =
    let rest = (do front ← text_before mark s; ok (c ∷ front)) in
    if starts_with (c ∷ s) mark then ok [] else rest

-- The lines begin with this block of lines.
abbrev pub begins_with : List Text → List Text → Bool
begins_with [] lines = true
begins_with (l ∷ block) [] = false
begins_with (l ∷ block) (m ∷ lines) = text_eq l m && begins_with block lines

unfoldable pub has_lines : List Text → List Text → Bool
has_lines block [] = begins_with block []
has_lines block (l ∷ lines) = begins_with block (l ∷ lines) || has_lines block lines

-- `r"(?ms)^    permissions:\n      contents: read\n      <grant>$"`
unfoldable pub grants : Text → Text → Bool
grants grant section =
    has_lines
      (codes "    permissions:" ∷ codes "      contents: read" ∷ (codes "      " ++ grant) ∷ [])
      (split_on 10 section)

-- `test_container_publish_permission_is_not_granted_to_merge_groups`
unfoldable pub publish_test : Workflows → Result (Unit {0})
publish_test ws = do
  text ← read_text (codes "container.yml") ws
  docker ← job_section (codes "container.yml") (codes "docker") ws
  publish ← job_section (codes "container.yml") (codes "publish") ws
  front ← text_before (codes "jobs:") text
  check (not (contains_text front (codes "packages: write")))
  check (not (contains_text docker (codes "packages: write")))
  check (
      contains_text publish
        (codes "if: github.event_name == 'push' && github.ref == 'refs/heads/main'"))
  check (grants (codes "packages: write") publish)

-- `test_required_secret_scan_keeps_scoped_sarif_permissions`
unfoldable pub sarif_scope_test : Workflows → Result (Unit {0})
sarif_scope_test ws = do
  text ← read_text (codes "_required.yml") ws
  scan ← job_section (codes "_required.yml") (codes "security-secrets-scan") ws
  front ← text_before (codes "jobs:") text
  check (not (contains_text front (codes "security-events: write")))
  check (grants (codes "security-events: write") scan)
  check (
      contains_text scan (
        codes
          "if: always() && hashFiles('gitleaks.sarif') != '' && github.event_name != 'merge_group'"))

-- `test_secrets_scan_job_grants_security_events_write_for_sarif_upload`
unfoldable pub sarif_upload_test : Workflows → Result (Unit {0})
sarif_upload_test ws = do
  text ← read_text (codes "_required.yml") ws
  front ← text_before (codes "jobs:") text
  check (not (contains_text front (codes "security-events: write")))
  scan ← job_section (codes "_required.yml") (codes "security-secrets-scan") ws
  check (contains_text scan (codes "Upload Gitleaks SARIF"))
  check (grants (codes "security-events: write") scan)

-- `test_release_publisher_remains_tag_and_manual_only`
unfoldable pub publisher_test : Workflows → Result (Unit {0})
publisher_test ws = do
  triggers ← triggers_of (codes "release.yml") ws
  check (set_eq (map (λ e. e.0) triggers) (texts ("push" ∷ "workflow_dispatch" ∷ [])))
  check_event triggers (codes "push") ((codes "tags", texts ("v*.*.*" ∷ [])) ∷ [])
