-- ===== src/Policy/Accepted/Reports.antt =====
-- What a required job that something masks is reported for.
pub mod Job
use project_charybdis.Base.{
  IsIn, ◌&&◌, &&_iff, ◌≡◌, ◌≢◌, refl, sym, ap, subst, ◌∙◌, ◌⊎◌, inl, inr, Bool, true, false, not,
  is_some, Option, none, some, List, [], ◌∷◌, ◌++◌, Text, codes, text_eq, text_eq_iff, Dict,
  Bool-cases, arith, Result, ok, if◌then◌else◌,
}
use project_charybdis.Base.Errors.{returned}
use project_charybdis.Policy.Triggers.{triggers_from_text}
use project_charybdis.Policy.Jobs.{job_contexts_from_text, job_section_from_text, top_level_block}
use project_charybdis.Policy.Steps.{job_step_sections, step_field, step_identity, step_condition}
use project_charybdis.Policy.Contract.{
  expected_required_job_ids, Validator, expected_required_validators,
  allowed_required_step_conditions,
}
use project_charybdis.Policy.Violations.{
  Violation, declares_needs, conditional_job, job_continue_on_error, no_checkout,
  step_continue_on_error, validator_condition_not_allowlisted, step_condition_not_allowlisted,
  duplicate_entry_point, when, has_text, has_line, text_of, allowed_condition, equals_some,
  condition_violations, step_violations, all_step_violations, job_violations, validator_violations,
  jobs_violations, trigger_violations, inventory_violations, entry_violations,
  required_graph_violations,
}
use project_charybdis.Policy.Membership.{In, has_text_iff}
use project_charybdis.Policy.Accepted.Reports.Job.{
  Masked, IsIn-left, IsIn-right, validator_violations-Masked,
}

-- The violations that are found in this job and behind it.
abbrev CheckedJob : Text → List Text → Dict Validator → Text → Validator → List Violation → Type 0
CheckedJob text job_ids validators id v vs =
    (section : Text) × (rest : List Violation) × (job_section_from_text text id ≡ ok section)
    × (jobs_violations text job_ids validators ≡ ok rest)
    × (vs ≡ validator_violations id v section ++ rest)

jobs_violations-CheckedJob :
    (text id : Text) (v : Validator) (job_ids : List Text) (validators : Dict Validator)
    {vs : List Violation}
    → jobs_violations text job_ids ((id, v) ∷ validators) ≡ ok vs
    → (has_text id job_ids && has_text id expected_required_job_ids) ≡ true
    → CheckedJob text job_ids validators id v vs
unfolding jobs_violations
jobs_violations-CheckedJob text id v job_ids validators h there =
    let (section, read, h₁) = returned (job_section_from_text text id) (rw there at h) in
    let (rest, checked, h₂) = returned (jobs_violations text job_ids validators) h₁ in
    (section, rest, read, checked, cc)

jobs_violations-skipped :
    (text id : Text) (v : Validator) (job_ids : List Text) (validators : Dict Validator)
    {vs : List Violation}
    → jobs_violations text job_ids ((id, v) ∷ validators) ≡ ok vs
    → (has_text id job_ids && has_text id expected_required_job_ids) ≡ false
    → jobs_violations text job_ids validators ≡ ok vs
unfolding jobs_violations
jobs_violations-skipped text id v job_ids validators h absent = rw absent at h

jobs_violations-IsIn :
    (w : Violation) (text job_id : Text) (v : Validator) (job_ids : List Text)
    (validators : Dict Validator) {section : Text} {vs : List Violation}
    → jobs_violations text job_ids validators ≡ ok vs
    → IsIn (job_id, v) validators
    → (has_text job_id job_ids && has_text job_id expected_required_job_ids) ≡ true
    → job_section_from_text text job_id ≡ ok section
    → IsIn w (validator_violations job_id v section)
    → IsIn w vs
jobs_violations-IsIn w text job_id v job_ids [] h there here read reported = absurd there
jobs_violations-IsIn w text job_id v job_ids ((id, u) ∷ validators) {section} {vs} h (inl e) here
      read reported =
    let same_id : job_id ≡ id = ap (λ p. p.0) e in
    let (found, rest, read', _, whole) = jobs_violations-CheckedJob text id u job_ids validators h (
      subst (λ i. (has_text i job_ids && has_text i expected_required_job_ids) ≡ true) same_id
        here) in
    let same_section : section ≡ found = cc (read, read', same_id) in
    subst (IsIn w) (sym whole) (
      IsIn-left w (validator_violations id u found) rest (
        subst (λ p. IsIn w (validator_violations p.0 p.1 found)) e
          (subst (λ s. IsIn w (validator_violations job_id v s)) same_section reported)))
jobs_violations-IsIn w text job_id v job_ids ((id, u) ∷ validators) {section} {vs} h (inr later)
      here read reported =
    elim (Bool-cases (has_text id job_ids && has_text id expected_required_job_ids)) [
      | inl there ↦
          let (found, rest, _, checked, whole) =
            jobs_violations-CheckedJob text id u job_ids validators h there in
          subst (IsIn w) (sym whole) (
            IsIn-right w (validator_violations id u found) rest (
              jobs_violations-IsIn w text job_id v job_ids validators checked later here read
                reported))
      | inr absent ↦
          jobs_violations-IsIn w text job_id v job_ids validators
            (jobs_violations-skipped text id u job_ids validators h absent) later here read reported
    ]

pub required_graph_violations-Masked :
    (text : Text) (names : List Text) (job_id : Text) (v : Validator) {w : Violation}
    {section : Text} {jobs : List (Text × Text)} {vs : List Violation}
    → required_graph_violations text names ≡ ok vs
    → job_contexts_from_text text ≡ ok jobs
    → In job_id (text_of jobs)
    → In job_id expected_required_job_ids
    → IsIn (job_id, v) expected_required_validators
    → job_section_from_text text job_id ≡ ok section
    → Masked job_id v section w
    → IsIn w vs
unfolding required_graph_violations
required_graph_violations-Masked text names job_id v {w} {section} {jobs} {vs} h read_jobs here
      expected validated read masked =
    let (triggers, _, h₁) = returned (triggers_from_text text) h in
    let (concurrency, _, h₂) = returned (top_level_block text (codes "concurrency")) h₁ in
    let (found, read_jobs', h₃) = returned (job_contexts_from_text text) h₂ in
    let (inside, checked, h₄) =
      returned (jobs_violations text (text_of found) expected_required_validators) h₃ in
    let same_jobs : jobs ≡ found = cc (read_jobs, read_jobs') in
    let there =
      (&&_iff (has_text job_id (text_of found)) (has_text job_id expected_required_job_ids)).1 (
        subst (λ js. has_text job_id (text_of js) ≡ true) same_jobs
            ((has_text_iff job_id (text_of jobs)).1 here),
        (has_text_iff job_id expected_required_job_ids).1 expected,
      ) in
    let reported =
      jobs_violations-IsIn w text job_id v (text_of found) expected_required_validators checked
        validated there read (validator_violations-Masked job_id v section masked) in
    let whole : trigger_violations text triggers concurrency
          ++ (inventory_violations (text_of found) ++ (inside ++ entry_violations names))
        ≡ vs =
      cc in
    subst (IsIn w) whole (
      IsIn-right w (trigger_violations text triggers concurrency) _ (
        IsIn-right w (inventory_violations (text_of found)) _
          (IsIn-left w inside (entry_violations names) reported)))
