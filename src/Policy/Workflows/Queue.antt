-- ===== src/Policy/Workflows/Queue.antt =====
-- The test methods on what runs in the merge queue: which workflows handle `merge_group`, the two
-- contexts of the test suites, and the required workflow's own graph.
pub mod Entry
pub mod Parity
pub mod Covered
use project_charybdis.Base.{
  Bool, true, false, not, ◌&&◌, ◌||◌, Option, none, some, List, [], ◌∷◌, map, Text, codes, text_eq,
  contains_text, has_key, Result, ok, if◌then◌else◌,
}
use project_charybdis.Base.Errors.{◌>>=◌, ◌>>◌, check}
use project_charybdis.Policy.Triggers.{Events, triggers_from_text}
use project_charybdis.Policy.Jobs.{context_emitters, workflow_display_name}
use project_charybdis.Policy.Shell.{texts_eq}
use project_charybdis.Policy.Contract.{texts, expected_required_triggers}
use project_charybdis.Policy.Violations.{
  Violation, events_eq, has_text, has_line, required_graph_violations,
}
use project_charybdis.Policy.Workflows.{
  Workflows, read_text, set_eq, triggers_of, job_section, job_names, check_event, when_requested,
  expected_required_workflows, expected_test_emitters,
}

-- EXPECTED_MERGE_GROUP_WORKFLOWS
abbrev pub expected_merge_group_workflows : List Text
expected_merge_group_workflows = texts (
    "_required.yml" ∷ "build-test.yml" ∷ "code-coverage.yml" ∷ "codeql.yml" ∷ "container.yml"
    ∷ "integration-tests.yml" ∷ "lock-check.yml" ∷ "sanitizers.yml" ∷ "static-analysis.yml" ∷ [])

-- The names of the workflows with a `merge_group` event.
unfoldable pub merge_group_workflows : Workflows → Result (List Text)
merge_group_workflows [] = ok []
merge_group_workflows ((name, text) ∷ ws) = do
  triggers ← triggers_from_text text
  names ← merge_group_workflows ws
  ok (if has_key (codes "merge_group") triggers then name ∷ names else names)

-- `test_expected_workflows_handle_merge_groups`
unfoldable pub merge_groups_test : Workflows → Result (Unit {0})
merge_groups_test ws = do
  names ← merge_group_workflows ws
  check (set_eq names expected_merge_group_workflows)

-- A workflow that handles pull requests and is one of those that the parity is asked of.
unfoldable pub needs_parity : Text → Events → Bool
needs_parity name triggers =
    has_key (codes "pull_request") triggers
    && not (text_eq name (codes "release.yml"))
    && not (text_eq name (codes "ruleset-audit.yml"))
    && (has_text name expected_merge_group_workflows || has_text name expected_required_workflows)

unfoldable pub parity_from : Workflows → Result (Unit {0})
parity_from [] = ok tt
parity_from ((name, text) ∷ ws) = do
  triggers ← triggers_from_text text
  check (not (needs_parity name triggers) || has_key (codes "merge_group") triggers)
  parity_from ws

-- `test_merge_queue_parity_no_dedicated_smoke_workflow`
unfoldable pub parity_test : Workflows → Result (Unit {0})
parity_test ws = do check (not (has_key (codes "merge-queue-smoke.yml") ws)); parity_from ws

-- `test_integration_context_waits_for_actual_suite`
unfoldable pub integration_test : Workflows → Result (Unit {0})
integration_test ws = do
  emitters ← context_emitters (codes "integration-tests") ws
  check (texts_eq emitters (texts ("integration-tests.yml:integration" ∷ [])))
  triggers ← triggers_of (codes "integration-tests.yml") ws
  check (has_key (codes "merge_group") triggers)
  check_event triggers (codes "merge_group") when_requested
  required ← read_text (codes "_required.yml") ws
  names ← job_names required
  check (not (has_text (codes "integration-tests") names))
  section ← job_section (codes "integration-tests.yml") (codes "integration") ws
  check (not (has_line (codes "    if:") section))

-- `test_test_context_has_one_authoritative_build_test_producer`
unfoldable pub test_context_test : Workflows → Result (Unit {0})
test_context_test ws = do
  build_test ← job_section (codes "build-test.yml") (codes "test") ws
  emitters ← context_emitters (codes "test") ws
  check (texts_eq emitters expected_test_emitters)
  triggers ← triggers_of (codes "build-test.yml") ws
  check (events_eq triggers expected_required_triggers)
  check (contains_text build_test (codes "needs: [build-test]"))
  check (contains_text build_test (codes "if: always()"))
  check (not (contains_text build_test (codes "github.event_name")))
  check (contains_text build_test (codes "RESULT: ${{ needs.build-test.result }}"))
  check (contains_text build_test (codes "if [ \"${RESULT}\" != \"success\" ]"))
  check (not (contains_text build_test (codes "Skip")))

-- The names that the workflows show, where they have one.
unfoldable pub display_names : Workflows → List Text
display_names [] = []
display_names ((name, text) ∷ ws) = elim (workflow_display_name text) [
  | none ↦ display_names ws
  | some shown ↦ shown ∷ display_names ws
]

abbrev pub is_empty : List Violation → Bool
is_empty [] = true
is_empty (v ∷ vs) = false

-- `test_required_workflow_has_one_authoritative_direct_graph`
unfoldable pub direct_graph_test : Workflows → Result (Unit {0})
direct_graph_test ws = do
  text ← read_text (codes "_required.yml") ws
  violations ← required_graph_violations text (display_names ws)
  check (is_empty violations)
