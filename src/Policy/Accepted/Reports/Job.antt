-- ===== src/Policy/Accepted/Reports/Job.antt =====
-- What masks a job, and that the checks of the job report it.
use project_charybdis.Base.{
  IsIn, ◌≡◌, ◌≢◌, refl, subst, ◌⊎◌, inl, inr, Bool, true, false, not, is_some, some, List, [], ◌∷◌,
  ◌++◌, Text, codes, text_eq, text_eq_iff, arith, if◌then◌else◌,
}
use project_charybdis.Policy.Steps.{job_step_sections, step_field, step_identity, step_condition}
use project_charybdis.Policy.Contract.{Validator, allowed_required_step_conditions}
use project_charybdis.Policy.Accepted.{RunsValidator}
use project_charybdis.Policy.Accepted.Steps.{command_runs}
use project_charybdis.Policy.Violations.{
  Violation, declares_needs, conditional_job, job_continue_on_error, no_checkout,
  step_continue_on_error, validator_condition_not_allowlisted, step_condition_not_allowlisted, when,
  has_line, allowed_condition, command_violations, validator_command_missing, equals_some,
  condition_violations, step_violations, all_step_violations, job_violations, validator_violations,
}

-- What masks a job, with the message that it calls for: a setting of the job, the lack of a checkout,
-- a setting of one of its steps, or a validator that does not run its commands.
pub data Masked (job_id : Text) (v : Validator) (section : Text) : Violation → Type 0 where
  needs_setting :
      has_line (codes "    needs:") section ≡ true → Masked job_id v section (declares_needs job_id)
  if_setting :
      has_line (codes "    if:") section ≡ true → Masked job_id v section (conditional_job job_id)
  continue_setting :
      has_line (codes "    continue-on-error:") section ≡ true
      → Masked job_id v section (job_continue_on_error job_id)
  without_checkout :
      has_line (codes "      - uses: actions/checkout@") section ≡ false
      → Masked job_id v section (no_checkout job_id)
  continue_step :
      (step : Text)
      → IsIn step (job_step_sections section)
      → is_some (step_field step (codes "continue-on-error")) ≡ true
      → Masked job_id v section (step_continue_on_error job_id (step_identity step))
  if_validator :
      (step condition : Text)
      → IsIn step (job_step_sections section)
      → step_condition step ≡ some condition
      → equals_some condition
          (allowed_condition job_id (step_identity step) allowed_required_step_conditions)
        ≡ false
      → step_identity step ≡ v.step
      → Masked job_id v section (validator_condition_not_allowlisted job_id (step_identity step))
  if_step :
      (step condition : Text)
      → IsIn step (job_step_sections section)
      → step_condition step ≡ some condition
      → equals_some condition
          (allowed_condition job_id (step_identity step) allowed_required_step_conditions)
        ≡ false
      → step_identity step ≢ v.step
      → Masked job_id v section (step_condition_not_allowlisted job_id (step_identity step))
  hollow :
      ¬ RunsValidator job_id v (job_step_sections section)
      → Masked job_id v section (validator_command_missing job_id)

pub IsIn-left : (w : Violation) (us vs : List Violation) → IsIn w us → IsIn w (us ++ vs)
IsIn-left w [] vs there = absurd there
IsIn-left w (u ∷ us) vs (inl e) = inl e
IsIn-left w (u ∷ us) vs (inr later) = inr (IsIn-left w us vs later)

pub IsIn-right : (w : Violation) (us vs : List Violation) → IsIn w vs → IsIn w (us ++ vs)
IsIn-right w [] vs there = there
IsIn-right w (u ∷ us) vs there = inr (IsIn-right w us vs there)

IsIn-when : (test : Bool) (w : Violation) → test ≡ true → IsIn w (when test w)
IsIn-when test w h = rw h (inl refl)

-- What is reported of one step is reported of the steps.
step-IsIn :
    (w : Violation) (job_id name step : Text) (steps : List Text)
    → IsIn step steps
    → IsIn w (step_violations job_id name step)
    → IsIn w (all_step_violations job_id name steps)
unfolding all_step_violations
step-IsIn w job_id name step [] there reported = absurd there
step-IsIn w job_id name step (s ∷ steps) (inl e) reported =
    IsIn-left w (step_violations job_id name s) _
      (subst (λ t. IsIn w (step_violations job_id name t)) e reported)
step-IsIn w job_id name step (s ∷ steps) (inr later) reported =
    IsIn-right w (step_violations job_id name s) _
      (step-IsIn w job_id name step steps later reported)

job-IsIn :
    (w : Violation) (job_id : Text) (v : Validator) (section : Text)
    → IsIn w (job_violations job_id section)
    → IsIn w (validator_violations job_id v section)
unfolding validator_violations
job-IsIn w job_id v section reported = IsIn-left w (job_violations job_id section) _ reported

steps-IsIn :
    (w : Violation) (job_id : Text) (v : Validator) (section step : Text)
    → IsIn step (job_step_sections section)
    → IsIn w (step_violations job_id v.step step)
    → IsIn w (validator_violations job_id v section)
unfolding validator_violations
steps-IsIn w job_id v section step there reported = IsIn-right w (job_violations job_id section) _ (
    IsIn-left w (all_step_violations job_id v.step (job_step_sections section)) _
      (step-IsIn w job_id v.step step (job_step_sections section) there reported))

when-cases : (test : Bool) (w : Violation) → (when test w ≡ []) ⊎ IsIn w (when test w)
when-cases false w = inl refl
when-cases true w = inr (inl refl)

command_cases :
    (job_id : Text) (v : Validator) (steps : List Text)
    → (command_violations job_id v steps ≡ [])
      ⊎ IsIn (validator_command_missing job_id) (command_violations job_id v steps)
unfolding command_violations
command_cases job_id v steps = when-cases _ (validator_command_missing job_id)

-- A validator that does not run its commands is reported.
hollow-IsIn :
    (job_id : Text) (v : Validator) (section : Text)
    → ¬ RunsValidator job_id v (job_step_sections section)
    → IsIn (validator_command_missing job_id) (validator_violations job_id v section)
unfolding validator_violations
hollow-IsIn job_id v section missing =
    let w = validator_command_missing job_id in
    let steps = job_step_sections section in
    IsIn-right w (job_violations job_id section) _ (
      IsIn-right w (all_step_violations job_id v.step steps) _
        (reported (command_cases job_id v steps)))
  where
    reported :
        (command_violations job_id v (job_step_sections section) ≡ [])
          ⊎ IsIn
              (validator_command_missing job_id)
              (command_violations job_id v (job_step_sections section))
        → IsIn
            (validator_command_missing job_id)
            (command_violations job_id v (job_step_sections section))
    reported (inl e) = absurd (missing (command_runs job_id v (job_step_sections section) e))
    reported (inr there) = there

condition-IsIn :
    (w : Violation) (job_id name step condition : Text)
    → step_condition step ≡ some condition
    → equals_some condition
        (allowed_condition job_id (step_identity step) allowed_required_step_conditions)
      ≡ false
    → w ≡ (
        if text_eq (step_identity step) name
        then validator_condition_not_allowlisted job_id (step_identity step)
        else step_condition_not_allowlisted job_id (step_identity step))
    → IsIn w (step_violations job_id name step)
unfolding step_violations condition_violations
condition-IsIn w job_id name step condition read forbidden message =
    IsIn-right w (when (is_some (step_field step (codes "continue-on-error"))) _) _
      (rw (read, forbidden) (inl message))

continue-IsIn :
    (job_id name step : Text)
    → is_some (step_field step (codes "continue-on-error")) ≡ true
    → IsIn (step_continue_on_error job_id (step_identity step)) (step_violations job_id name step)
unfolding step_violations
continue-IsIn job_id name step h =
    IsIn-left _ (when (is_some (step_field step (codes "continue-on-error"))) _) _ (IsIn-when _ _ h)

-- The checks of a job's own settings report what they find, each behind the ones before it.
behind_needs :
    (w : Violation) (job_id section : Text)
    → IsIn w (
        when (has_line (codes "    if:") section) (conditional_job job_id)
        ++ (when (has_line (codes "    continue-on-error:") section) (job_continue_on_error job_id)
            ++ when
                (not (has_line (codes "      - uses: actions/checkout@") section))
                (no_checkout job_id)))
    → IsIn w (job_violations job_id section)
unfolding job_violations
behind_needs w job_id section reported =
    IsIn-right w (when (has_line (codes "    needs:") section) (declares_needs job_id)) _ reported

behind_if :
    (w : Violation) (job_id section : Text)
    → IsIn w (
        when (has_line (codes "    continue-on-error:") section) (job_continue_on_error job_id)
        ++ when
            (not (has_line (codes "      - uses: actions/checkout@") section))
            (no_checkout job_id))
    → IsIn w (job_violations job_id section)
behind_if w job_id section reported =
    behind_needs w job_id section
      (IsIn-right w (when (has_line (codes "    if:") section) (conditional_job job_id)) _ reported)

-- The checks of a job report each thing that masks it.
pub validator_violations-Masked :
    (job_id : Text) (v : Validator) (section : Text) {w : Violation}
    → Masked job_id v section w
    → IsIn w (validator_violations job_id v section)
unfolding job_violations
validator_violations-Masked job_id v section (needs_setting h) =
    job-IsIn (declares_needs job_id) job_id v section (rw h (inl refl))
validator_violations-Masked job_id v section (if_setting h) =
    job-IsIn (conditional_job job_id) job_id v section
      (behind_needs (conditional_job job_id) job_id section (rw h (inl refl)))
validator_violations-Masked job_id v section (continue_setting h) =
    job-IsIn (job_continue_on_error job_id) job_id v section
      (behind_if (job_continue_on_error job_id) job_id section (rw h (inl refl)))
validator_violations-Masked job_id v section (without_checkout h) =
    job-IsIn (no_checkout job_id) job_id v section (
      behind_if (no_checkout job_id) job_id section (
        IsIn-right (no_checkout job_id)
          (when (has_line (codes "    continue-on-error:") section) (job_continue_on_error job_id))
          _ (rw h (inl refl))))
validator_violations-Masked job_id v section (continue_step step there h) =
    steps-IsIn _ job_id v section step there (continue-IsIn job_id v.step step h)
validator_violations-Masked job_id v section (if_validator step c there read forbidden named) =
    steps-IsIn _ job_id v section step there (
      condition-IsIn _ job_id v.step step c read forbidden
        (rw ((text_eq_iff (step_identity step) v.step).1 named) refl))
validator_violations-Masked job_id v section (if_step step c there read forbidden other) =
    steps-IsIn _ job_id v section step there (
      condition-IsIn _ job_id v.step step c read forbidden
        (ground (arith, text_eq_iff (step_identity step) v.step)))
validator_violations-Masked job_id v section (hollow missing) = hollow-IsIn job_id v section missing
