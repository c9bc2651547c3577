-- ===== src/Policy/Jobs/Laws.antt =====
-- The section of a job.
use project_charybdis.Base.{
  ◌≡◌, ◌≢◌, refl, ap, ◌∙◌, none, some, List, [], ◌∷◌, ◌++◌, Text, text_eq_iff, text_eq_refl, All,
  ok, arith,
}
use project_charybdis.Policy.Jobs.{job_match, until_job, section_lines}

-- A line inside a job: no job header.
abbrev pub IsInside : Text → Type 0
IsInside line = job_match line ≡ none

-- A job as it stands in a workflow: its header, its identifier, and the lines inside.
pub record Job : Type 0 where
  pub id : Text
  pub header : Text
  pub body : List Text

pub record IsJob (j : Job) : Type 0 where
  pub headed : job_match j.header ≡ some j.id
  pub inside : All IsInside j.body

abbrev pub job_lines : List Job → List Text
job_lines [] = []
job_lines (j ∷ js) = j.header ∷ (j.body ++ job_lines js)

until_job-body :
    (body : List Text) (js : List Job)
    → All IsInside body
    → All IsJob js
    → until_job (body ++ job_lines js) ≡ body
unfolding until_job
until_job-body [] [] h k = refl
until_job-body [] (j ∷ js) h (k, ks) = rw (k.headed, until_job) refl
until_job-body (line ∷ body) js h k =
    rw (h.0, until_job) (ap (λ ls. line ∷ ls) (until_job-body body js h.1 k))

-- The lines in front of a header that equals none of them.
pub section_lines-skip :
    (header : Text) (front rest : List Text)
    → All (λ l. l ≢ header) front
    → section_lines header (front ++ rest) ≡ section_lines header rest
unfolding section_lines
section_lines-skip header [] rest h = refl
section_lines-skip header (l ∷ front) rest h =
    ground (arith, text_eq_iff l header, section_lines-skip header front rest)

-- The section of a job is its header and the lines inside, and nothing of the jobs round it.
pub section_lines-job :
    (front : List Text) (j : Job) (js : List Job)
    → All (λ l. l ≢ j.header) front
    → IsJob j
    → All IsJob js
    → section_lines j.header (front ++ job_lines (j ∷ js)) ≡ ok (j.header ∷ j.body)
section_lines-job front j js new h hs =
    section_lines-skip j.header front (job_lines (j ∷ js)) new
    ∙ (unfold section_lines in
        rw (text_eq_refl j.header)
          (ap (λ ls. ok (j.header ∷ ls)) (until_job-body j.body js h.inside hs)))
