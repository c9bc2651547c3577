-- ===== src/Policy/Accepted/Complete.antt =====
-- A workflow that meets the specification has no violation: the checks ask for no more.
use project_charybdis.Base.{
  ◌≡◌, refl, ◌⊎◌, inl, inr, Bool, true, false, not, ◌&&◌, ◌||◌, Option, none, some, List, [], ◌∷◌,
  map, Text, codes, text_eq, text_eq_iff, text_eq_refl, Dict, All, ok, Bool-cases, ◌↔◌,
}
use project_charybdis.Policy.Contract.{
  expected_required_job_ids, Validator, expected_required_validators,
  allowed_required_step_conditions,
}
use project_charybdis.Policy.Shell.{texts_eq}
use project_charybdis.Policy.Steps.{job_step_sections, step_identity, step_condition}
use project_charybdis.Policy.Violations.{
  has_text, text_lt, insert_sorted, sorted_set, difference, text_of, trigger_violations,
  inventory_violations, job_violations, allowed_condition, condition_violations, step_violations,
  all_step_violations, commands_valid, command_violations, validator_violations, jobs_violations,
  entry_violations, required_graph_violations,
}
use project_charybdis.Policy.Membership.{In, has_text_iff}
use project_charybdis.Policy.Accepted.{
  IsStrictStep, RunsValidator, IsStrictJob, HasStrictJob, IsAccepted,
}
use project_charybdis.Policy.Accepted.Steps.{
  has_all_executable_shell_commands_iff, has_bound_gitleaks_branches_iff,
}
use project_charybdis.Policy.Accepted.Sound.{required_graph_violations-IsAccepted}

condition_free :
    (job_id validator_name name : Text) (c : Option Text)
    → (c ≡ none)
      ⊎ ((d : Text) × (c ≡ some d)
          × (allowed_condition job_id name allowed_required_step_conditions ≡ some d))
    → condition_violations job_id validator_name name c ≡ []
unfolding condition_violations
condition_free job_id validator_name name c (inl e) = rw e refl
condition_free job_id validator_name name c (inr (d, e, allowed)) =
    rw (e, condition_violations, allowed, text_eq_refl d) refl

steps_free :
    (job_id validator_name : Text) (steps : List Text)
    → All (IsStrictStep job_id) steps
    → all_step_violations job_id validator_name steps ≡ []
unfolding all_step_violations step_violations
steps_free job_id validator_name [] h = refl
steps_free job_id validator_name (step ∷ steps) (h, hs) =
    rw
      (
        h.fails_job,
        condition_free job_id validator_name (step_identity step) (step_condition step)
            h.unconditional,
      )
      (steps_free job_id validator_name steps hs)

branches_valid :
    (secrets : Bool) (bound : Bool)
    → (secrets ≡ true → bound ≡ true)
    → (not secrets || bound) ≡ true
branches_valid true bound h = h refl
branches_valid false bound h = refl

command_free :
    (job_id : Text) (v : Validator) (steps : List Text)
    → RunsValidator job_id v steps
    → command_violations job_id v steps ≡ []
unfolding command_violations commands_valid
command_free job_id v steps r =
    rw
      (
        r.only,
        r.runs,
        (has_all_executable_shell_commands_iff r.run v.commands).1 r.commands,
        branches_valid _ _ (λ e.
            (has_bound_gitleaks_branches_iff r.run v.commands).1
              (r.branches ((text_eq_iff job_id (codes "security-secrets-scan")).0 e))),
      )
      refl

validator_free :
    (job_id : Text) (v : Validator) (section : Text)
    → IsStrictJob job_id v section
    → validator_violations job_id v section ≡ []
unfolding validator_violations job_violations
validator_free job_id v section j =
    rw
      (
        j.independent,
        j.unconditional,
        j.fails_run,
        j.checks_out,
        steps_free job_id v.step (job_step_sections section) j.steps,
        command_free job_id v (job_step_sections section) j.validated,
      )
      refl

jobs_free :
    (text : Text) (job_ids : List Text) (validators : Dict Validator)
    → All (HasStrictJob text) validators
    → jobs_violations text job_ids validators ≡ ok []
unfolding jobs_violations
jobs_free text job_ids [] h = refl
jobs_free text job_ids ((id, v) ∷ validators) ((section, found, strict), h) =
    elim (Bool-cases (has_text id job_ids && has_text id expected_required_job_ids)) [
      | inl checked ↦
          rw
            (
              checked,
              found,
              jobs_free text job_ids validators h,
              validator_free id v section strict,
            )
            refl
      | inr passed ↦ rw passed (jobs_free text job_ids validators h)
    ]

difference_of_members : (ts us : List Text) → All (λ t. In t us) ts → difference ts us ≡ []
unfolding difference
difference_of_members [] us h = refl
difference_of_members (t ∷ ts) us (h, hs) =
    rw ((has_text_iff t us).1 h, difference_of_members ts us hs) refl

-- The contract's constants agree with each other.
contract_agrees :
    texts_eq (sorted_set (map (λ v. v.0) expected_required_validators)) expected_required_job_ids
    ≡ true
unfolding texts_eq sorted_set insert_sorted text_lt text_eq
contract_agrees = refl

inventory_free :
    (job_ids : List Text)
    → All (λ id. In id job_ids) expected_required_job_ids
    → All (λ id. In id expected_required_job_ids) job_ids
    → inventory_violations job_ids ≡ []
unfolding inventory_violations
inventory_free job_ids missing hollow =
    rw
      (
        difference_of_members expected_required_job_ids job_ids missing,
        difference_of_members job_ids expected_required_job_ids hollow,
        contract_agrees,
      )
      refl

IsAccepted-free :
    (text : Text) (names : List Text)
    → IsAccepted text names
    → required_graph_violations text names ≡ ok []
unfolding required_graph_violations trigger_violations entry_violations
IsAccepted-free text names a =
    rw
      (
        a.read_triggers,
        a.read_concurrency,
        a.read_jobs,
        jobs_free text (text_of a.jobs) expected_required_validators a.strict_jobs,
        a.expected_triggers,
        a.no_workflow_run,
        a.by_event,
        a.by_commit,
        a.not_cancelled,
        inventory_free (text_of a.jobs) a.nothing_missing a.nothing_else,
        a.one_entry,
      )
      refl

-- The checks find no violation exactly where the workflow meets its contract, which says without
-- the checks what triggers, jobs, steps and commands the required workflow has.
pub required_graph_violations_iff :
    (text : Text) (names : List Text)
    → (required_graph_violations text names ≡ ok []) ↔ IsAccepted text names
required_graph_violations_iff text names =
    (required_graph_violations-IsAccepted text names, IsAccepted-free text names)
