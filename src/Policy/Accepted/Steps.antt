-- ===== src/Policy/Accepted/Steps.antt =====
-- The checks of one job find nothing only where the job is strict.
use project_charybdis.Base.{
  ◌≡◌, ◌≢◌, refl, ap, ◌↔◌, ◌⊎◌, subst, &&_iff, inl, inr, Bool, true, false, not, ◌||◌, Option, none,
  some, List, [], ◌∷◌, ◌++◌, Text, codes, text_eq_iff, All, is_some, arith, Option-cases,
}
use project_charybdis.Policy.Shell.{
  logical_shell_commands, gitleaks_script, has_command, has_all_executable_shell_commands,
  has_bound_gitleaks_branches,
}
use project_charybdis.Policy.Steps.{
  job_step_sections, step_field, step_identity, step_condition, step_run_command,
}
use project_charybdis.Policy.Contract.{Validator, allowed_required_step_conditions}
use project_charybdis.Policy.Violations.{
  Violation, when, equals_some, job_violations, allowed_condition, condition_violations,
  step_violations, all_step_violations, validator_steps, is_single, single_run_command,
  commands_valid, command_violations, validator_violations,
}
use project_charybdis.Policy.Membership.{In, has_command_iff, texts_eq_iff, all_iff}
use project_charybdis.Policy.Accepted.{HasBranches, IsStrictStep, RunsValidator, IsStrictJob}

-- An empty concatenation has empty parts.
pub append-nil_parts {ℓ} : {A : Type ℓ} (xs ys : List A) → xs ++ ys ≡ [] → (xs ≡ []) × (ys ≡ [])
append-nil_parts [] ys h = (refl, h)
append-nil_parts (x ∷ xs) ys h = absurd (cc)

pub when-eq-nil : (b : Bool) (v : Violation) → when b v ≡ [] → b ≡ false
when-eq-nil false v h = refl
when-eq-nil true v h = absurd (cc)

pub when-not-eq-nil : (b : Bool) (v : Violation) → when (not b) v ≡ [] → b ≡ true
when-not-eq-nil true v h = refl
when-not-eq-nil false v h = absurd (cc)

condition_strict :
    (job_id validator_name name : Text) (c : Option Text)
    → condition_violations job_id validator_name name c ≡ []
    → (c ≡ none)
      ⊎ ((d : Text) × (c ≡ some d)
          × (allowed_condition job_id name allowed_required_step_conditions ≡ some d))
unfolding condition_violations
condition_strict job_id validator_name name none h = inl refl
condition_strict job_id validator_name name (some c) h = inr (
  c,
  refl,
  allowed (allowed_condition job_id name allowed_required_step_conditions) (when-not-eq-nil _ _ h),
)
  where
    allowed : (o : Option Text) → equals_some c o ≡ true → o ≡ some c
    allowed none e = absurd (cc)
    allowed (some d) e = ap some ((text_eq_iff d c).0 e)

step_strict :
    (job_id validator_name step : Text)
    → step_violations job_id validator_name step ≡ []
    → IsStrictStep job_id step
unfolding step_violations
step_strict job_id validator_name step h =
    let (no_override, no_condition) = append-nil_parts _ _ h in
    record {
      fails_job =
          none_of (step_field step (codes "continue-on-error")) (when-eq-nil _ _ no_override);
      unconditional =
          condition_strict job_id validator_name (step_identity step) (step_condition step)
            no_condition;
    }
  where
    none_of : {A : Type 0} (o : Option A) → is_some o ≡ false → o ≡ none
    none_of none e = refl
    none_of (some a) e = absurd (cc)

steps_strict :
    (job_id validator_name : Text) (steps : List Text)
    → all_step_violations job_id validator_name steps ≡ []
    → All (IsStrictStep job_id) steps
unfolding all_step_violations
steps_strict job_id validator_name [] h = tt
steps_strict job_id validator_name (step ∷ steps) h =
    let (first, others) = append-nil_parts _ _ h in
    (step_strict job_id validator_name step first, steps_strict job_id validator_name steps others)

-- The expected commands are found exactly where each of them is a logical command of the run step
-- as a whole.
pub has_all_executable_shell_commands_iff :
    (run : Text) (expected : List Text)
    → (has_all_executable_shell_commands (some run) expected ≡ true)
      ↔ All (λ c. In c (logical_shell_commands run)) expected
unfolding has_all_executable_shell_commands
has_all_executable_shell_commands_iff run expected =
    all_iff (λ c. has_command c (logical_shell_commands run))
      (λ c. In c (logical_shell_commands run)) (λ c. has_command_iff c (logical_shell_commands run))
      expected

-- The branches of the secrets scan are found exactly where two commands are expected and the
-- logical commands of the run step are the five of the scan, in their order, with those two in its
-- branches.
pub has_bound_gitleaks_branches_iff :
    (run : Text) (expected : List Text)
    → (has_bound_gitleaks_branches (some run) expected ≡ true)
      ↔ HasBranches (logical_shell_commands run) expected
unfolding has_bound_gitleaks_branches
has_bound_gitleaks_branches_iff run [] = (λ e. absurd (cc), λ (c, d, p, q). absurd (cc))
has_bound_gitleaks_branches_iff run (a ∷ []) = (λ e. absurd (cc), λ (c, d, p, q). absurd (cc))
has_bound_gitleaks_branches_iff run (a ∷ b ∷ []) = (
  λ e. (a, b, refl, (texts_eq_iff _ _).0 e),
  λ (c, d, p, q). (texts_eq_iff (logical_shell_commands run) (gitleaks_script a b)).1 (cc (p, q)),
)
has_bound_gitleaks_branches_iff run (a ∷ b ∷ c ∷ r) =
    (λ e. absurd (cc), λ (c', d, p, q). absurd (cc))

single_cases : (steps : List Text) → is_single steps ≡ true → (step : Text) × (steps ≡ step ∷ [])
single_cases [] h = absurd (cc)
single_cases (step ∷ []) h = (step, refl)
single_cases (step ∷ other ∷ steps) h = absurd (cc)

both_hold : (a b : Bool) → (not a || not b) ≡ false → (a ≡ true) × (b ≡ true)
both_hold a b h = ground arith

either_holds : (a b : Bool) → (not a || b) ≡ true → a ≡ true → b ≡ true
either_holds a b h k = ground arith

no_run : (job_id : Text) (expected : List Text) → commands_valid job_id none expected ≢ true
unfolding commands_valid has_all_executable_shell_commands
no_run job_id expected h = cc

-- The checks of the validator step find nothing only where the step runs the commands.
pub command_runs :
    (job_id : Text) (v : Validator) (steps : List Text)
    → command_violations job_id v steps ≡ []
    → RunsValidator job_id v steps
unfolding command_violations commands_valid
command_runs job_id v steps h =
    let (single, valid) = both_hold _ _ (when-eq-nil _ _ h) in
    let (step, only) = single_cases (validator_steps v.step steps) single in
    let valid' =
      subst (λ found. commands_valid job_id (single_run_command found) v.commands ≡ true) only
        valid in
    elim (Option-cases (step_run_command step)) [
      | inl nothing ↦ absurd (
          no_run job_id v.commands
            (subst (λ r. commands_valid job_id r v.commands ≡ true) nothing valid'))
      | inr (run, runs) ↦
          let (has_all, bound) =
            (&&_iff _ _).0 (subst (λ r. commands_valid job_id r v.commands ≡ true) runs valid') in
          record {
            step = step;
            run = run;
            only = only;
            runs = runs;
            commands = (has_all_executable_shell_commands_iff run v.commands).0 has_all;
            branches = λ e.
                (has_bound_gitleaks_branches_iff run v.commands).0
                  (either_holds _ _ bound ((text_eq_iff _ _).1 e));
          }
    ]

-- The checks of one job find nothing only where the job is strict.
pub validator_violations-IsStrictJob :
    (job_id : Text) (v : Validator) (section : Text)
    → validator_violations job_id v section ≡ []
    → IsStrictJob job_id v section
unfolding validator_violations job_violations
validator_violations-IsStrictJob job_id v section h =
    let (job, rest) = append-nil_parts _ _ h in
    let (steps, command) = append-nil_parts _ _ rest in
    let (needs, rest₁) = append-nil_parts _ _ job in
    let (conditional, rest₂) = append-nil_parts _ _ rest₁ in
    let (override, checkout) = append-nil_parts _ _ rest₂ in
    record {
      independent = when-eq-nil _ _ needs;
      unconditional = when-eq-nil _ _ conditional;
      fails_run = when-eq-nil _ _ override;
      checks_out = when-not-eq-nil _ _ checkout;
      steps = steps_strict job_id v.step (job_step_sections section) steps;
      validated = command_runs job_id v (job_step_sections section) command;
    }
