-- ===== src/Policy/Violations.antt =====
-- `_required_graph_violations`: the violations of the one-run Required Checks contract. A
-- constructor stands for each message, with the values that the message shows.
use project_charybdis.Base.{
  ℕ, suc, ◌==◌, ltb, Bool, true, false, not, ◌&&◌, ◌||◌, Option, none, some, List, [], ◌∷◌, ◌++◌,
  map, Text, codes, text_eq, starts_with, contains_text, split_on, any, all, length, Dict, lookup,
  Result, ok, if◌then◌else◌, is_some,
}
use project_charybdis.Base.Errors.{◌>>=◌}
use project_charybdis.Policy.Triggers.{Events, triggers_from_text}
use project_charybdis.Policy.Jobs.{job_contexts_from_text, job_section_from_text, top_level_block}
use project_charybdis.Policy.Steps.{
  job_step_sections, step_field, step_name, step_identity, step_condition, step_run_command,
}
use project_charybdis.Policy.Shell.{
  texts_eq, has_all_executable_shell_commands, has_bound_gitleaks_branches,
}
use project_charybdis.Policy.Contract.{
  expected_required_job_ids, Validator, expected_required_validators, Allowed,
  allowed_required_step_conditions, expected_required_triggers,
}

pub data Violation : Type 0 where
  direct_trigger_set_differs : Events → Violation
  workflow_run_duplicates : Violation
  concurrency_omits : Text → Violation
  concurrency_can_cancel : Violation
  missing_validators : List Text → Violation
  hollow_or_duplicate_jobs : List Text → Violation
  contract_does_not_match : Violation
  declares_needs : Text → Violation
  conditional_job : Text → Violation
  job_continue_on_error : Text → Violation
  no_checkout : Text → Violation
  step_continue_on_error : Text → Text → Violation
  validator_condition_not_allowlisted : Text → Text → Violation
  step_condition_not_allowlisted : Text → Text → Violation
  validator_command_missing : Text → Violation
  duplicate_entry_point : Violation

-- `if test: violations.append(v)`
abbrev pub when : Bool → Violation → List Violation
when true v = v ∷ []
when false v = []

-- `d == e` for two `dict`s whose values are compared by `eq`.
abbrev pub found_eq {ℓ} : {V : Type ℓ} → (V → V → Bool) → V → Option V → Bool
found_eq eq v none = false
found_eq eq v (some w) = eq v w

unfoldable pub dict_eq {ℓ} : {V : Type ℓ} → (V → V → Bool) → Dict V → Dict V → Bool
dict_eq eq d e = length d == length e && all (λ x. found_eq eq x.1 (lookup x.0 e)) d

unfoldable pub events_eq : Events → Events → Bool
events_eq = dict_eq (dict_eq texts_eq)

-- `id in ids`
unfoldable pub has_text : Text → List Text → Bool
has_text t ts = any (text_eq t) ts

-- `sorted(set(ts))`, by the code points.
unfoldable pub text_lt : Text → Text → Bool
text_lt s [] = false
text_lt [] (d ∷ t) = true
text_lt (c ∷ s) (d ∷ t) = ltb c d || (c == d && text_lt s t)

unfoldable pub insert_sorted : Text → List Text → List Text
insert_sorted t [] = t ∷ []
insert_sorted t (u ∷ us) =
    if text_eq t u then u ∷ us else (if text_lt t u then t ∷ u ∷ us else u ∷ insert_sorted t us)

unfoldable pub sorted_set : List Text → List Text
sorted_set [] = []
sorted_set (t ∷ ts) = insert_sorted t (sorted_set ts)

-- `ts - us`, sorted
unfoldable pub difference : List Text → List Text → List Text
difference [] us = []
difference (t ∷ ts) us =
    let rest = difference ts us in if has_text t us then rest else insert_sorted t rest

-- `if ids: violations.append(v(ids))`
abbrev pub when_some : (List Text → Violation) → List Text → List Violation
when_some v [] = []
when_some v (t ∷ ts) = v (t ∷ ts) ∷ []

abbrev pub text_of : List (Text × Text) → List Text
text_of jobs = map (λ j. j.0) jobs

-- The checks of the triggers and of the concurrency block.
unfoldable pub trigger_violations : Text → Events → Text → List Violation
trigger_violations text triggers concurrency =
    when (not (events_eq triggers expected_required_triggers)) (direct_trigger_set_differs triggers)
    ++ (when (contains_text text (codes "workflow_run")) workflow_run_duplicates
        ++ (when (not (contains_text concurrency (codes "${{ github.event_name }}")))
              (concurrency_omits (codes "${{ github.event_name }}"))
            ++ (when (not (contains_text concurrency (codes "${{ github.sha }}")))
                  (concurrency_omits (codes "${{ github.sha }}"))
                ++ when (not (contains_text concurrency (codes "cancel-in-progress: false")))
                    concurrency_can_cancel)))

-- The check of the job identifiers against the expected ones.
unfoldable pub inventory_violations : List Text → List Violation
inventory_violations job_ids =
    when_some missing_validators (difference expected_required_job_ids job_ids)
    ++ (when_some hollow_or_duplicate_jobs (difference job_ids expected_required_job_ids)
        ++ when
            (not (
              texts_eq (sorted_set (map (λ v. v.0) expected_required_validators))
                expected_required_job_ids))
            contract_does_not_match)

-- `re.search(r"(?m)^<prefix>", section)`
unfoldable pub has_line : Text → Text → Bool
has_line prefix section = any (λ line. starts_with line prefix) (split_on 10 section)

unfoldable pub job_violations : Text → Text → List Violation
job_violations job_id section =
    when (has_line (codes "    needs:") section) (declares_needs job_id)
    ++ (when (has_line (codes "    if:") section) (conditional_job job_id)
        ++ (when (has_line (codes "    continue-on-error:") section) (job_continue_on_error job_id)
            ++ when (not (has_line (codes "      - uses: actions/checkout@") section))
                (no_checkout job_id)))

-- `ALLOWED_REQUIRED_STEP_CONDITIONS.get((job_id, step_name))`
unfoldable pub allowed_condition : Text → Text → List Allowed → Option Text
allowed_condition job step [] = none
allowed_condition job step (a ∷ as_) =
    if text_eq a.job job && text_eq a.step step
    then some a.condition
    else allowed_condition job step as_

abbrev pub equals_some : Text → Option Text → Bool
equals_some t none = false
equals_some t (some u) = text_eq u t

unfoldable pub condition_violations : Text → Text → Text → Option Text → List Violation
condition_violations job_id validator_name name none = []
condition_violations job_id validator_name name (some condition) =
    when
      (not (equals_some condition (allowed_condition job_id name allowed_required_step_conditions)))
      (if text_eq name validator_name
        then validator_condition_not_allowlisted job_id name
        else step_condition_not_allowlisted job_id name)

unfoldable pub step_violations : Text → Text → Text → List Violation
step_violations job_id validator_name step =
    when (is_some (step_field step (codes "continue-on-error")))
      (step_continue_on_error job_id (step_identity step))
    ++ condition_violations job_id validator_name (step_identity step) (step_condition step)

unfoldable pub all_step_violations : Text → Text → List Text → List Violation
all_step_violations job_id validator_name [] = []
all_step_violations job_id validator_name (step ∷ steps) =
    step_violations job_id validator_name step ++ all_step_violations job_id validator_name steps

-- The steps with the validator's name.
unfoldable pub validator_steps : Text → List Text → List Text
validator_steps name [] = []
validator_steps name (step ∷ steps) =
    let rest = validator_steps name steps in
    if equals_some name (step_name step) then step ∷ rest else rest

abbrev pub single_run_command : List Text → Option Text
single_run_command (step ∷ []) = step_run_command step
single_run_command _ = none

abbrev pub is_single {ℓ} : {A : Type ℓ} → List A → Bool
is_single (a ∷ []) = true
is_single _ = false

unfoldable pub commands_valid : Text → Option Text → List Text → Bool
commands_valid job_id run expected =
    has_all_executable_shell_commands run expected
    && (not (text_eq job_id (codes "security-secrets-scan"))
        || has_bound_gitleaks_branches run expected)

unfoldable pub command_violations : Text → Validator → List Text → List Violation
command_violations job_id v steps =
    let found = validator_steps v.step steps in
    when
      (not (is_single found) || not (commands_valid job_id (single_run_command found) v.commands))
      (validator_command_missing job_id)

-- The checks of one expected job.
unfoldable pub validator_violations : Text → Validator → Text → List Violation
validator_violations job_id v section =
    job_violations job_id section
    ++ (all_step_violations job_id v.step (job_step_sections section)
        ++ command_violations job_id v (job_step_sections section))

-- The loop over the expected jobs that the workflow has.
unfoldable pub jobs_violations : Text → List Text → Dict Validator → Result (List Violation)
jobs_violations text job_ids [] = ok []
jobs_violations text job_ids ((job_id, v) ∷ validators) =
    if has_text job_id job_ids && has_text job_id expected_required_job_ids
    then (do
      section ← job_section_from_text text job_id
      rest ← jobs_violations text job_ids validators
      ok (validator_violations job_id v section ++ rest))
    else jobs_violations text job_ids validators

-- `names.count(name)`
unfoldable pub count_text : Text → List Text → ℕ
count_text t [] = 0
count_text t (u ∷ us) = if text_eq u t then suc (count_text t us) else count_text t us

unfoldable pub entry_violations : List Text → List Violation
entry_violations names =
    when (not (count_text (codes "Required Checks") names == 1)) duplicate_entry_point

unfoldable pub required_graph_violations : Text → List Text → Result (List Violation)
required_graph_violations text required_check_workflows = do
  triggers ← triggers_from_text text
  concurrency ← top_level_block text (codes "concurrency")
  jobs ← job_contexts_from_text text
  inside ← jobs_violations text (text_of jobs) expected_required_validators
  ok (
      trigger_violations text triggers concurrency
      ++ (inventory_violations (text_of jobs)
          ++ (inside ++ entry_violations required_check_workflows)))
