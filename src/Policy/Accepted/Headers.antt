-- ===== src/Policy/Accepted/Headers.antt =====
-- A required job whose header the checks do not find: they then end in an exception.
use project_charybdis.Base.{
  ◌≡◌, ◌≢◌, refl, sym, ap, inl, inr, true, false, ◌&&◌, List, [], ◌∷◌, map, Text, codes,
  text_eq_iff, Dict, ok, raised, PyError, Result-cases, Bool-cases, arith,
}
use project_charybdis.Base.Errors.{stop_iteration, returned}
use project_charybdis.Policy.Lines.{splitlines, lines_behind}
use project_charybdis.Policy.Jobs.{
  section_lines, job_line, job_section_from_text, job_contexts_from_text, top_level_block,
}
use project_charybdis.Policy.Triggers.{triggers_from_text}
use project_charybdis.Policy.Contract.{
  expected_required_job_ids, Validator, expected_required_validators,
}
use project_charybdis.Policy.Violations.{
  Violation, has_text, text_of, jobs_violations, required_graph_violations,
}
use project_charybdis.Policy.Membership.{In, has_text_iff}

section_lines-missing :
    (header : Text) (lines : List Text)
    → has_text header lines ≡ false
    → section_lines header lines ≡ raised stop_iteration
unfolding section_lines has_text
section_lines-missing header [] h = refl
section_lines-missing header (l ∷ lines) h =
    ground (arith, text_eq_iff l header, text_eq_iff header l, section_lines-missing header lines)

job_section-missing :
    (text id : Text) {lines : List Text}
    → lines_behind (codes "jobs:") (splitlines text) ≡ ok lines
    → has_text (job_line id) lines ≡ false
    → job_section_from_text text id ≡ raised stop_iteration
unfolding job_section_from_text
job_section-missing text id {lines} read missing =
    rw (read, section_lines-missing (job_line id) lines missing) refl

-- The loop over the validators never returns once it has such a job.
jobs_violations-ne-ok :
    (text id : Text) (job_ids : List Text) (validators : Dict Validator)
    → job_section_from_text text id ≡ raised stop_iteration
    → In id job_ids
    → In id expected_required_job_ids
    → In id (map (λ e. e.0) validators)
    → (vs : List Violation) → jobs_violations text job_ids validators ≢ ok vs
unfolding jobs_violations
jobs_violations-ne-ok text id job_ids [] missing here expected place vs h = absurd place
jobs_violations-ne-ok text id job_ids ((j, v) ∷ validators) missing here expected place vs h =
    elim (Bool-cases (has_text j job_ids && has_text j expected_required_job_ids)) [
      | inl checked ↦
          let (section, found, more) = returned (job_section_from_text text j) (rw checked at h) in
          let (rest, others, end_) = returned (jobs_violations text job_ids validators) more in
          elim place [
            | inl e ↦ absurd (cc (found, missing, ap (job_section_from_text text) e))
            | inr later ↦
                jobs_violations-ne-ok text id job_ids validators missing here expected later rest
                  others
          ]
      | inr passed ↦ elim place [
        | inl e ↦ absurd (cc (passed, both e))
        | inr later ↦
            jobs_violations-ne-ok text id job_ids validators missing here expected later vs
              (rw passed at h)
      ]
    ]
  where
    both : id ≡ j → (has_text j job_ids && has_text j expected_required_job_ids) ≡ true
    both e =
        rw
          (
            sym e,
            (has_text_iff id job_ids).1 here,
            (has_text_iff id expected_required_job_ids).1 expected,
          )
          refl

required_graph_violations-ne-ok :
    (text id : Text) (names : List Text) {lines : List Text} {jobs : List (Text × Text)}
    → In id expected_required_job_ids
    → job_contexts_from_text text ≡ ok jobs
    → In id (text_of jobs)
    → lines_behind (codes "jobs:") (splitlines text) ≡ ok lines
    → has_text (job_line id) lines ≡ false
    → (vs : List Violation) → required_graph_violations text names ≢ ok vs
unfolding required_graph_violations
required_graph_violations-ne-ok text id names {lines} {jobs} expected read here behind missing vs
      h =
    let (triggers, read_triggers, h₁) = returned (triggers_from_text text) h in
    let (concurrency, read_concurrency, h₂) =
      returned (top_level_block text (codes "concurrency")) h₁ in
    let (inside, checked, h₃) =
      returned (jobs_violations text (text_of jobs) expected_required_validators) (rw read at h₂) in
    jobs_violations-ne-ok text id (text_of jobs) expected_required_validators
      (job_section-missing text id behind missing) here expected expected inside checked

-- A required job that is read of the workflow, but whose header `  <id>:` is no line of it, as where
-- blanks stand behind the header: the checks return no violations at all, they end in an exception.
pub required_graph_violations-missing_header :
    (text id : Text) (names : List Text) {lines : List Text} {jobs : List (Text × Text)}
    → In id expected_required_job_ids
    → job_contexts_from_text text ≡ ok jobs
    → In id (text_of jobs)
    → lines_behind (codes "jobs:") (splitlines text) ≡ ok lines
    → has_text (job_line id) lines ≡ false
    → (e : PyError) × (required_graph_violations text names ≡ raised e)
required_graph_violations-missing_header text id names expected read here behind missing =
    elim (Result-cases (required_graph_violations text names)) [
      | inl (vs, h) ↦
          absurd
            (required_graph_violations-ne-ok text id names expected read here behind missing vs h)
      | inr (e, h) ↦ (e, h)
    ]
