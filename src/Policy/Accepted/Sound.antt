-- ===== src/Policy/Accepted/Sound.antt =====
-- A workflow without violations meets the specification.
use project_charybdis.Base.{
  ==_iff, ◌≡◌, refl, ap, ◌∙◌, subst, inl, inr, List, [], ◌∷◌, map, Text, codes, Dict, All, ok,
  Bool-cases,
}
use project_charybdis.Base.Errors.{returned}
use project_charybdis.Policy.Triggers.{triggers_from_text}
use project_charybdis.Policy.Jobs.{job_contexts_from_text, job_section_from_text, top_level_block}
use project_charybdis.Policy.Contract.{
  expected_required_job_ids, Validator, expected_required_validators,
}
use project_charybdis.Policy.Violations.{
  Violation, when_some, missing_validators, hollow_or_duplicate_jobs, text_of, has_text, difference,
  trigger_violations, inventory_violations, validator_violations, jobs_violations, entry_violations,
  required_graph_violations,
}
use project_charybdis.Policy.Membership.{In, has_text_iff, In-difference}
use project_charybdis.Policy.Accepted.{HasStrictJob, IsAccepted}
use project_charybdis.Policy.Accepted.Steps.{
  append-nil_parts, when-eq-nil, when-not-eq-nil, validator_violations-IsStrictJob,
}

when_some-eq-nil : (v : List Text → Violation) (ts : List Text) → when_some v ts ≡ [] → ts ≡ []
when_some-eq-nil v [] h = refl
when_some-eq-nil v (t ∷ ts) h = absurd (cc)

-- A difference that is empty: every text of the first list is in the second.
difference-eq-nil :
    (ts us : List Text)
    → difference ts us ≡ []
    → (vs : List Text) → ((t : Text) → In t vs → In t ts)
    → All (λ t. In t us) vs
difference-eq-nil ts us h [] sub = tt
difference-eq-nil ts us h (v ∷ vs) sub = (
  elim (Bool-cases (has_text v us)) [
    | inl there ↦ (has_text_iff v us).0 there
    | inr missing ↦ absurd (
        subst (In v) h
          ((In-difference v ts us).1 (sub v (inl refl), λ i. cc ((has_text_iff v us).1 i))))
  ],
  difference-eq-nil ts us h vs (λ t i. sub t (inr i)),
)

-- The loop over the validators finds nothing: each job that the workflow has is strict.
jobs_strict :
    (text : Text) (job_ids : List Text) (validators : Dict Validator)
    → All (λ e. (In e.0 job_ids) × (In e.0 expected_required_job_ids)) validators
    → jobs_violations text job_ids validators ≡ ok []
    → All (HasStrictJob text) validators
unfolding jobs_violations
jobs_strict text job_ids [] there h = tt
jobs_strict text job_ids ((id, v) ∷ validators) ((here, expected), there) h =
    let h' =
      rw ((has_text_iff id job_ids).1 here, (has_text_iff id expected_required_job_ids).1 expected)
        at h in
    let (section, found, h₂) = returned (job_section_from_text text id) h' in
    let (rest, checked, h₃) = returned (jobs_violations text job_ids validators) h₂ in
    let (mine, others) = append-nil_parts (validator_violations id v section) rest (ok_inj h₃) in
    (
      (section, found, validator_violations-IsStrictJob id v section mine),
      jobs_strict text job_ids validators there (checked ∙ ap ok others),
    )
  where
    ok_inj : {x y : List Violation} → ok x ≡ ok y → x ≡ y
    ok_inj e = cc

each_member : (ts us : List Text) → ((t : Text) → In t ts → In t us) → All (λ t. In t us) ts
each_member [] us sub = tt
each_member (t ∷ ts) us sub = (sub t (inl refl), each_member ts us (λ u i. sub u (inr i)))

both_members :
    (job_ids expected : List Text) (d : Dict Validator)
    → All (λ id. In id job_ids) (map (λ e. e.0) d)
    → All (λ id. In id expected) (map (λ e. e.0) d)
    → All (λ e. (In e.0 job_ids) × (In e.0 expected)) d
both_members job_ids expected [] h k = tt
both_members job_ids expected (e ∷ d) (h, hs) (k, ks) =
    ((h, k), both_members job_ids expected d hs ks)

-- The validators are those of the expected jobs, in their order.
validators_expected :
    (job_ids : List Text)
    → All (λ id. In id job_ids) expected_required_job_ids
    → All (λ e. (In e.0 job_ids) × (In e.0 expected_required_job_ids)) expected_required_validators
validators_expected job_ids h =
    both_members job_ids expected_required_job_ids expected_required_validators h
      (each_member expected_required_job_ids expected_required_job_ids (λ t i. i))

inventory_exact :
    (job_ids : List Text)
    → inventory_violations job_ids ≡ []
    → All (λ id. In id job_ids) expected_required_job_ids
      × All (λ id. In id expected_required_job_ids) job_ids
unfolding inventory_violations
inventory_exact job_ids h =
    let (missing, rest) =
      append-nil_parts (when_some missing_validators (difference expected_required_job_ids job_ids))
        _ h in
    let (hollow, contract) =
      append-nil_parts
        (when_some hollow_or_duplicate_jobs (difference job_ids expected_required_job_ids)) _
        rest in
    (
      difference-eq-nil expected_required_job_ids job_ids
          (when_some-eq-nil missing_validators _ missing) expected_required_job_ids (λ t i. i),
      difference-eq-nil job_ids expected_required_job_ids
          (when_some-eq-nil hollow_or_duplicate_jobs _ hollow) job_ids (λ t i. i),
    )

-- Where the checks find no violation, the workflow meets its contract: it has exactly the expected
-- triggers and jobs, it is never cancelled, each job runs its validator on every event with nothing
-- that skips or masks it, and one workflow alone is called "Required Checks".
pub required_graph_violations-IsAccepted :
    (text : Text) (names : List Text)
    → required_graph_violations text names ≡ ok []
    → IsAccepted text names
unfolding required_graph_violations trigger_violations entry_violations
required_graph_violations-IsAccepted text names h =
    let (triggers, read_triggers, h₁) = returned (triggers_from_text text) h in
    let (concurrency, read_concurrency, h₂) =
      returned (top_level_block text (codes "concurrency")) h₁ in
    let (jobs, read_jobs, h₃) = returned (job_contexts_from_text text) h₂ in
    let (inside, checked, h₄) =
      returned (jobs_violations text (text_of jobs) expected_required_validators) h₃ in
    let (of_triggers, rest) =
      append-nil_parts (trigger_violations text triggers concurrency) _ (ok_inj h₄) in
    let (of_jobs, rest') = append-nil_parts (inventory_violations (text_of jobs)) _ rest in
    let (of_inside, of_entry) = append-nil_parts inside _ rest' in
    let (t₁, r₁) = append-nil_parts _ _ of_triggers in
    let (t₂, r₂) = append-nil_parts _ _ r₁ in
    let (t₃, r₃) = append-nil_parts _ _ r₂ in
    let (t₄, t₅) = append-nil_parts _ _ r₃ in
    let (all_there, nothing_else) = inventory_exact (text_of jobs) of_jobs in
    record {
      triggers = triggers;
      concurrency = concurrency;
      jobs = jobs;
      read_triggers = read_triggers;
      read_concurrency = read_concurrency;
      read_jobs = read_jobs;
      expected_triggers = when-not-eq-nil _ _ t₁;
      no_workflow_run = when-eq-nil _ _ t₂;
      by_event = when-not-eq-nil _ _ t₃;
      by_commit = when-not-eq-nil _ _ t₄;
      not_cancelled = when-not-eq-nil _ _ t₅;
      nothing_missing = all_there;
      nothing_else = nothing_else;
      strict_jobs =
          jobs_strict text (text_of jobs) expected_required_validators
            (validators_expected (text_of jobs) all_there) (checked ∙ ap ok of_inside);
      one_entry = (==_iff _ _).0 (when-not-eq-nil _ _ of_entry);
    }
  where
    ok_inj : {x y : List Violation} → ok x ≡ ok y → x ≡ y
    ok_inj e = cc
