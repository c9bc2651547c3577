-- ===== src/Policy/Fixtures/Reported.antt =====
-- The checks report a setting that the fixtures add to a required job.
use project_charybdis.Base.{
  IsIn, ◌≡◌, ◌≢◌, refl, ap, ◌∙◌, true, none, List, [], ◌∷◌, ◌++◌, Text, codes, text_eq_refl,
  starts_with, join, All, All-map_implies, arith, ok,
}
use project_charybdis.Policy.Lines.{splitlines, lines_behind}
use project_charybdis.Policy.Lines.Laws.{IsLine}
use project_charybdis.Policy.Jobs.{
  job_match, job_line, until_job, section_lines, job_section_from_text, job_contexts_from_text,
}
use project_charybdis.Policy.Jobs.Laws.{section_lines-skip}
use project_charybdis.Policy.Contract.{
  expected_required_job_ids, Validator, expected_required_validators,
}
use project_charybdis.Policy.Violations.{
  Violation, declares_needs, conditional_job, job_continue_on_error, has_line, text_of,
  required_graph_violations,
}
use project_charybdis.Policy.Membership.{In}
use project_charybdis.Policy.Accepted.Reports.{required_graph_violations-Masked}
use project_charybdis.Policy.Accepted.Reports.Job.{
  Masked, needs_setting, if_setting, continue_setting,
}
use project_charybdis.Policy.Fixtures.{add_job_setting}
use project_charybdis.Policy.Fixtures.Settings.{
  with_lines, IsApart, splitlines-with_lines, lines_behind-append, has_line-append, has_line-first,
  IsApart-ne, All-behind, add_job_setting-eq,
}

-- A workflow whose text has a header of this job, and a line that can be added behind it: the lines
-- in front hold the line `jobs:` and no other header of the job.
pub record IsPlace (front : List Text) (id line : Text) : Type 0 where
  pub behind : List Text
  pub lines : All IsLine front
  pub header : IsLine (job_line id)
  pub added : IsLine line
  pub no_header : job_match line ≡ none
  pub apart : All (IsApart (job_line id)) front
  pub jobs : lines_behind (codes "jobs:") front ≡ ok behind

-- The text with this line behind the header.
abbrev pub with_setting_line : List Text → Text → Text → Text → Text
with_setting_line front id line rest =
    add_job_setting (with_lines front (job_line id ++ 10 ∷ rest)) id (line ++ 10 ∷ [])

abbrev section_with : Text → Text → Text → Text
section_with id line rest = join (codes "\n") (job_line id ∷ (line ∷ until_job (splitlines rest)))

lines_of_edited :
    (front : List Text) (id line rest : Text)
    → IsPlace front id line
    → splitlines (with_setting_line front id line rest)
      ≡ front ++ (job_line id ∷ (line ∷ splitlines rest))
lines_of_edited front id line rest p =
    ap splitlines (add_job_setting-eq front id line rest p.lines p.header p.apart)
    ∙ splitlines-with_lines front (job_line id ++ 10 ∷ (line ++ 10 ∷ rest)) p.lines
    ∙ ap (λ ls. front ++ ls)
        (splitlines-with_lines (job_line id ∷ (line ∷ [])) rest (p.header, (p.added, tt)))

until_job-cons :
    (line : Text) (ls : List Text)
    → job_match line ≡ none
    → until_job (line ∷ ls) ≡ line ∷ until_job ls
unfolding until_job
until_job-cons line ls no_header = rw (until_job, no_header) refl

section_lines-here :
    (header : Text) (ls : List Text)
    → section_lines header (header ∷ ls) ≡ ok (header ∷ until_job ls)
unfolding section_lines
section_lines-here header ls = rw (text_eq_refl header) refl

section_of_edited :
    (front : List Text) (id line rest : Text)
    → IsPlace front id line
    → job_section_from_text (with_setting_line front id line rest) id
      ≡ ok (section_with id line rest)
unfolding job_section_from_text
section_of_edited front id line rest p =
    rw
      (
        lines_of_edited front id line rest p,
        lines_behind-append (codes "jobs:") front (job_line id ∷ (line ∷ splitlines rest)) p.jobs,
        section_lines-skip (job_line id) p.behind (job_line id ∷ (line ∷ splitlines rest)) (
            All-map_implies (IsApart (job_line id)) (λ l. l ≢ job_line id)
              (IsApart-ne (job_line id)) p.behind
              (All-behind (IsApart (job_line id)) (codes "jobs:") front p.jobs p.apart)),
        section_lines-here (job_line id) (line ∷ splitlines rest),
        until_job-cons line (splitlines rest) p.no_header,
      )
      refl

has_line-section_with :
    (prefix id line rest : Text)
    → IsLine (job_line id)
    → IsLine line
    → starts_with line prefix ≡ true
    → has_line prefix (section_with id line rest) ≡ true
unfolding join
has_line-section_with prefix id line rest h k begins =
    has_line-append prefix (job_line id) (join (codes "\n") (line ∷ until_job (splitlines rest))) h
    ∙ ground (arith, has_line-first prefix line (until_job (splitlines rest)) k begins)

-- A setting that no required job may have, with the message that it calls for.
pub data Forbidden (id line : Text) : Violation → Type 0 where
  needs_line : starts_with line (codes "    needs:") ≡ true → Forbidden id line (declares_needs id)
  if_line : starts_with line (codes "    if:") ≡ true → Forbidden id line (conditional_job id)
  continue_line :
      starts_with line (codes "    continue-on-error:") ≡ true
      → Forbidden id line (job_continue_on_error id)

Forbidden-Masked :
    (id line rest : Text) (v : Validator) {w : Violation}
    → IsLine (job_line id)
    → IsLine line
    → Forbidden id line w
    → Masked id v (section_with id line rest) w
Forbidden-Masked id line rest v h k (needs_line begins) =
    needs_setting (has_line-section_with (codes "    needs:") id line rest h k begins)
Forbidden-Masked id line rest v h k (if_line begins) =
    if_setting (has_line-section_with (codes "    if:") id line rest h k begins)
Forbidden-Masked id line rest v h k (continue_line begins) =
    continue_setting
      (has_line-section_with (codes "    continue-on-error:") id line rest h k begins)

-- Where `_add_job_setting` adds a forbidden setting to a required job, at a header of it that is the
-- first behind the line `jobs:`, and the checks of the edited workflow find the job and end with a
-- list of violations, the message of this setting, with the job's name, is one of them.
pub add_job_setting-Forbidden :
    (front : List Text) (id line rest : Text) (v : Validator) (names : List Text) {w : Violation}
    {jobs : List (Text × Text)} {vs : List Violation}
    → IsPlace front id line
    → In id expected_required_job_ids
    → IsIn (id, v) expected_required_validators
    → job_contexts_from_text (with_setting_line front id line rest) ≡ ok jobs
    → In id (text_of jobs)
    → required_graph_violations (with_setting_line front id line rest) names ≡ ok vs
    → Forbidden id line w
    → IsIn w vs
add_job_setting-Forbidden front id line rest v names p expected validated read_jobs here h
      forbidden =
    required_graph_violations-Masked (with_setting_line front id line rest) names id v h read_jobs
      here expected validated (section_of_edited front id line rest p)
      (Forbidden-Masked id line rest v p.header p.added forbidden)
