-- ===== src/Policy/Tests.antt =====
-- The checks at the workflow of the repository and at workflows that break its contract, and the
-- theorems at inputs that meet their hypotheses.
mod RequiredYml
mod FailOpen
mod Edits
mod Wiring
use RequiredYml.{required_yml}
use project_charybdis.Base.{
  String, map, raised, if◌then◌else◌, ℕ, ◌≡◌, ◌↔◌, refl, true, false, Option, none, some, List, [],
  ◌∷◌, ◌++◌, Text, codes, text_eq, starts_with, ends_with, contains_text, rstrip, lstrip, strip,
  is_space, split_on, join, lookup, has_key, insert, ok,
}
use project_charybdis.Base.Errors.{stop_iteration, assertion_error}
use project_charybdis.Policy.Accepted.{IsAccepted}
use project_charybdis.Policy.Accepted.Complete.{required_graph_violations_iff}
use project_charybdis.Policy.Fixtures.{add_job_setting}
use project_charybdis.Policy.Workflows.{Workflows}
use project_charybdis.Policy.Workflows.Queue.{direct_graph_test, display_names}
use project_charybdis.Policy.Workflows.Queue.Parity.{IsDirect, direct_graph_test_iff}
use project_charybdis.Policy.Violations.{step_continue_on_error}
use project_charybdis.Policy.Lines.{
  is_break, split_lines, splitlines, lines_behind, is_top_level, block_lines, behind_prefix,
  run_then_colon, unquote, trim, last_only, some_value,
}
use project_charybdis.Policy.Triggers.{
  without_last, bracketed, inline_list, is_event_char, event_match, list_setting, setting_match,
  set_setting, read_setting, read_events, triggers_from_text,
}
use project_charybdis.Policy.Jobs.{
  is_job_char, job_match, value_behind, read_jobs, job_contexts_from_text, until_job, section_lines,
  job_section_from_text, top_level_block, display_name_of, workflow_display_name,
}
use project_charybdis.Policy.Shell.{
  is_continued, fragment_of, is_skipped, read_line, commands_from, logical_shell_commands,
  has_command, has_all_executable_shell_commands, texts_eq, has_bound_gitleaks_branches,
}
use project_charybdis.Policy.Steps.{
  group_steps, job_step_sections, field_value, field_from, field_of_lines, step_field, step_name,
  step_identity, step_condition, is_block_mark, scalar_lines, step_run_command,
}
use project_charybdis.Policy.Violations.{
  dict_eq, events_eq, has_text, text_lt, insert_sorted, sorted_set, difference, trigger_violations,
  inventory_violations, has_line, job_violations, allowed_condition, condition_violations,
  step_violations, all_step_violations, validator_steps, commands_valid, command_violations,
  validator_violations, jobs_violations, count_text, entry_violations, required_graph_violations,
}
use project_charybdis.Policy.Violations.{
  missing_validators, hollow_or_duplicate_jobs, validator_command_missing, conditional_job,
  declares_needs, duplicate_entry_point,
}

-- All that the readers and the checks compute with.
unfoldable pub reads : Unit {0}
unfolding text_eq starts_with ends_with contains_text rstrip lstrip strip is_space split_on join
    lookup has_key insert is_break split_lines splitlines lines_behind is_top_level block_lines
    behind_prefix run_then_colon unquote trim last_only some_value without_last bracketed
    inline_list is_event_char event_match list_setting setting_match set_setting read_setting
    read_events triggers_from_text is_job_char job_match value_behind read_jobs
    job_contexts_from_text until_job section_lines job_section_from_text top_level_block
    display_name_of workflow_display_name is_continued fragment_of is_skipped read_line
    commands_from logical_shell_commands has_command has_all_executable_shell_commands texts_eq
    has_bound_gitleaks_branches group_steps job_step_sections field_value field_from field_of_lines
    step_field step_name step_identity step_condition is_block_mark scalar_lines step_run_command
    dict_eq events_eq has_text text_lt insert_sorted sorted_set difference trigger_violations
    inventory_violations has_line job_violations allowed_condition condition_violations
    step_violations all_step_violations validator_steps commands_valid command_violations
    validator_violations jobs_violations count_text entry_violations required_graph_violations
reads = tt

abbrev one_entry : List Text
one_entry = codes "Required Checks" ∷ []

-- The workflow of the repository has no violation.
live : required_graph_violations required_yml one_entry ≡ ok []
unfolding reads required_yml
live = refl

-- The text with more lines behind the first line that equals the mark.
abbrev with_behind : Text → List Text → List Text → List Text
with_behind mark more [] = []
with_behind mark more (l ∷ ls) =
    let rest = with_behind mark more ls in if text_eq l mark then l ∷ (more ++ ls) else l ∷ rest

abbrev edited : String → String → Text
edited mark more =
    join (codes "\n") (with_behind (codes mark) (codes more ∷ []) (splitlines required_yml))

-- The fixtures of `test_required_workflow_rejects_fail_open_topologies` that add lines.
broken :
    (required_graph_violations (edited "  schema-validation:" "    needs: [upstream]") one_entry
      ≡ ok (declares_needs (codes "schema-validation") ∷ []))
    × (required_graph_violations (edited "  schema-validation:" "    if: always()") one_entry
        ≡ ok (conditional_job (codes "schema-validation") ∷ []))
    × (required_graph_violations
          (edited "      - name: schema-validation (in container)"
            "        continue-on-error: true")
          one_entry
        ≡ ok (
            step_continue_on_error
              (codes "schema-validation")
              (codes "schema-validation (in container)")
            ∷ []))
    × (required_graph_violations required_yml (codes "Required Checks" ∷ one_entry)
        ≡ ok (duplicate_entry_point ∷ []))
    × (required_graph_violations (required_yml ++ codes "\n  hollow-proxy:\n    steps:\n") one_entry
        ≡ ok (hollow_or_duplicate_jobs (codes "hollow-proxy" ∷ []) ∷ []))
unfolding reads required_yml
broken = (refl, refl, refl, refl, refl)

-- A header with a blank behind it is read as a job whose section is then not found.
blank_behind_header :
    required_graph_violations
      (join (codes "\n") (
        map
          (λ l. if text_eq l (codes "  install:") then codes "  install: " else l)
          (splitlines required_yml)))
      one_entry
    ≡ raised stop_iteration
unfolding reads required_yml
blank_behind_header = refl

abbrev echoed : Text
echoed = codes "# bash check\necho 'bash check'\n  bash \\\n    check \\\n\n    --all\nmake \\"

shell_runs :
    (logical_shell_commands echoed ≡ codes "echo 'bash check'" ∷ codes "bash check --all" ∷ [])
    × (has_all_executable_shell_commands (some echoed) (codes "bash check" ∷ []) ≡ false)
    × (has_all_executable_shell_commands (some echoed) (codes "bash check --all" ∷ []) ≡ true)
unfolding reads
shell_runs = (refl, refl, refl)

list_runs :
    (inline_list (codes " ['a', \"b\" , c]") ≡ ok (codes "a" ∷ codes "b" ∷ codes "c" ∷ []))
    × (inline_list (codes "[ ]") ≡ ok [])
    × (inline_list (codes "a, b") ≡ raised assertion_error)
unfolding reads
list_runs = (refl, refl, refl)

display_runs :
    (workflow_display_name required_yml ≡ some (codes "Required Checks"))
    × (workflow_display_name (codes "on:\n  push:\n") ≡ none)
unfolding reads required_yml
display_runs = (refl, refl)

required_graph_violations_iff_example : IsAccepted required_yml one_entry
required_graph_violations_iff_example =
    (required_graph_violations_iff required_yml one_entry).0 live

-- The workflows that the required one is checked with.
abbrev two_workflows : Workflows
two_workflows = (codes "_required.yml", required_yml) ∷ (codes "docs.yml", codes "name: docs") ∷ []

direct_graph_test_iff_example : (direct_graph_test two_workflows ≡ ok tt) ↔ IsDirect two_workflows
direct_graph_test_iff_example = direct_graph_test_iff two_workflows

abbrev with_needs : Text
with_needs =
    add_job_setting required_yml (codes "schema-validation") (codes "    needs: [upstream]\n")
