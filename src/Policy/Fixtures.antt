-- ===== src/Policy/Fixtures.antt =====
-- The fixtures of the policy script: workflows that are edited so that they no longer meet the
-- contract, with a part of the message that each calls for.
pub mod Cases
pub mod Settings
pub mod Reported
use project_charybdis.Base.{
  ℕ, zero, suc, ◌+◌, ◌-◌, ◌==◌, Bool, true, false, not, List, [], ◌∷◌, ◌++◌, map, Text, codes,
  starts_with, contains_text, join, length, drop, Result, ok, if◌then◌else◌,
}
use project_charybdis.Base.Errors.{◌>>=◌, ◌>>◌, check}
use project_charybdis.Policy.Triggers.{Events}
use project_charybdis.Policy.Jobs.{job_section_from_text, job_line}
use project_charybdis.Policy.Violations.{
  Violation, direct_trigger_set_differs, workflow_run_duplicates, concurrency_omits,
  concurrency_can_cancel, missing_validators, hollow_or_duplicate_jobs, contract_does_not_match,
  declares_needs, conditional_job, job_continue_on_error, no_checkout, step_continue_on_error,
  validator_condition_not_allowlisted, step_condition_not_allowlisted, validator_command_missing,
  duplicate_entry_point, required_graph_violations,
}

-- `text.replace(old, new, 1)`
unfoldable pub replace_once : Text → Text → Text → Text
replace_once old new [] = if starts_with [] old then new else []
replace_once old new (c ∷ s) =
    let rest = replace_once old new s in
    if starts_with (c ∷ s) old then new ++ drop (length old) (c ∷ s) else c ∷ rest

-- `text.count(old)` of a text that is not empty; the occurrences do not overlap. The number is that
-- of the characters that belong to the occurrence before.
unfoldable pub occurrences : Text → ℕ → Text → ℕ
occurrences old skipped [] = 0
occurrences old (suc skipped) (c ∷ s) = occurrences old skipped s
occurrences old zero (c ∷ s) =
    let behind = occurrences old (length old - 1) s in
    let later = occurrences old 0 s in if starts_with (c ∷ s) old then suc behind else later

-- `_remove_job`
unfoldable pub remove_job : Text → Text → Result Text
remove_job text job_id = do
  section ← job_section_from_text text job_id
  ok (replace_once (section ++ codes "\n") [] text)

-- `_add_job_setting`
unfoldable pub add_job_setting : Text → Text → Text → Text
add_job_setting text job_id setting =
    let marker = job_line job_id ++ codes "\n" in replace_once marker (marker ++ setting) text

-- `_replace_job`
unfoldable pub replace_job : Text → Text → Text → Result Text
replace_job text job_id replacement = do
  section ← job_section_from_text text job_id
  ok (replace_once section replacement text)

-- The text of a violation. The parameters are Python's `repr` of a `dict` and of a list of texts.
unfoldable pub message : (Events → Text) → (List Text → Text) → Violation → Text
message repr_events repr_texts (direct_trigger_set_differs e) =
    codes "direct trigger set differs: " ++ repr_events e
message repr_events repr_texts workflow_run_duplicates =
    codes "workflow_run creates a duplicate execution path"
message repr_events repr_texts (concurrency_omits identity) = codes "concurrency omits " ++ identity
message repr_events repr_texts concurrency_can_cancel =
    codes "concurrency can cancel an authoritative run"
message repr_events repr_texts (missing_validators ids) =
    codes "missing validators: " ++ repr_texts ids
message repr_events repr_texts (hollow_or_duplicate_jobs ids) =
    codes "hollow or duplicate jobs: " ++ repr_texts ids
message repr_events repr_texts contract_does_not_match =
    codes "validator-step contract does not match expected jobs"
message repr_events repr_texts (declares_needs id) =
    codes "independent validator declares needs: " ++ id
message repr_events repr_texts (conditional_job id) =
    codes "conditional job can mask a result: " ++ id
message repr_events repr_texts (job_continue_on_error id) =
    codes "job continue-on-error forbidden: " ++ id
message repr_events repr_texts (no_checkout id) =
    codes "validator does not check out source: " ++ id
message repr_events repr_texts (step_continue_on_error id step) =
    codes "step continue-on-error forbidden: " ++ id ++ codes " / " ++ step
message repr_events repr_texts (validator_condition_not_allowlisted id step) =
    codes "validator step condition not allowlisted: " ++ id ++ codes " / " ++ step
message repr_events repr_texts (step_condition_not_allowlisted id step) =
    codes "step condition not allowlisted: " ++ id ++ codes " / " ++ step
message repr_events repr_texts (validator_command_missing id) =
    codes "validator command missing: " ++ id
message repr_events repr_texts duplicate_entry_point =
    codes "Required Checks has a duplicate workflow entry point"

-- The workflow, the names of all workflows, and the part of the message.
pub record Fixture : Type 0 where
  pub workflow : Text
  pub names : List Text
  pub expected : Text

module _ (repr_events : Events → Text) (repr_texts : List Text → Text) where
  -- One round of the loop over the fixtures.
  unfoldable pub check_fixture : Fixture → Result (Unit {0})
  check_fixture f = do
    violations ← required_graph_violations f.workflow f.names
    check (
        contains_text (join (codes "\n") (map (message repr_events repr_texts) violations))
          f.expected)

  unfoldable pub check_fixtures : List Fixture → Result (Unit {0})
  check_fixtures [] = ok tt
  check_fixtures (f ∷ fs) = do check_fixture f; check_fixtures fs
