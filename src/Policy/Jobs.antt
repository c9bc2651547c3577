-- ===== src/Policy/Jobs.antt =====
-- The readers of the jobs of a workflow: `_job_contexts_from_text`, `_job_section_from_text`,
-- `_top_level_block` and `_workflow_display_name`.
pub mod Laws
pub mod Written
pub mod Read
use project_charybdis.Base.{
  ℕ, ◌==◌, leb, Bool, true, false, ◌&&◌, ◌||◌, Option, none, some, List, [], ◌∷◌, ◌++◌, Text, codes,
  text_eq, is_space, all, join, Result, ok, raised, if◌then◌else◌,
}
use project_charybdis.Base.Errors.{◌>>=◌, value_error, stop_iteration}
use project_charybdis.Policy.Lines.{
  splitlines, lines_behind, block_lines, behind_prefix, run_then_colon, nonempty_run, unquote,
  some_value,
}

unfoldable pub is_job_char : ℕ → Bool
is_job_char c =
    (leb b'A' c && leb c b'Z')
    || (leb b'a' c && leb c b'z')
    || (leb b'0' c && leb c b'9')
    || c == b'_'
    || c == b'-'

abbrev pub blank_behind : Option (Text × Text) → Option Text
blank_behind none = none
blank_behind (some (run, rest)) = if all is_space rest then some run else none

-- `^  ([A-Za-z0-9_-]+):\s*$`
unfoldable pub job_match : Text → Option Text
job_match line = elim (behind_prefix (codes "  ") line) [
  | none ↦ none
  | some rest ↦ blank_behind (nonempty_run (run_then_colon is_job_char rest))
]

-- `<key>\s*(.+?)\s*$` behind the key.
unfoldable pub value_behind : Text → Text → Option Text
value_behind key line = elim (behind_prefix key line) [ none ↦ none | some rest ↦ some_value rest ]

-- `job_name or job_id`
abbrev pub name_or_id : Text → Option Text → Text
name_or_id id none = id
name_or_id id (some []) = id
name_or_id id (some (c ∷ name)) = c ∷ name

abbrev pub context_of : Option Text → Option Text → List (Text × Text)
context_of none name = []
context_of (some id) name = (id, name_or_id id name) ∷ []

-- `name_match` of a line inside a job; the last one counts.
abbrev pub renamed : Option Text → Option Text → Option Text
renamed name none = name
renamed name (some value) = some (unquote value)

-- The loop over the lines, with the job that is open and its name so far.
unfoldable pub read_jobs : Option Text → Option Text → List Text → List (Text × Text)
read_jobs id name [] = context_of id name
read_jobs id name (line ∷ lines) = elim (job_match line) [
  | some next ↦ context_of id name ++ read_jobs (some next) none lines
  | none ↦ elim id [
    | none ↦ read_jobs none name lines
    | some job ↦ read_jobs (some job) (renamed name (value_behind (codes "    name:") line)) lines
  ]
]

unfoldable pub job_contexts_from_text : Text → Result (List (Text × Text))
job_contexts_from_text text = do
  lines ← lines_behind (codes "jobs:") (splitlines text)
  ok (read_jobs none none (block_lines lines))

-- The lines in front of the next job header.
unfoldable pub until_job : List Text → List Text
until_job [] = []
until_job (l ∷ ls) = elim (job_match l) [ some id ↦ [] | none ↦ l ∷ until_job ls ]

-- The first line that equals the header, and the lines of its job.
unfoldable pub section_lines : Text → List Text → Result (List Text)
section_lines header [] = raised stop_iteration
section_lines header (l ∷ ls) =
    if text_eq l header then ok (l ∷ until_job ls) else section_lines header ls

abbrev pub job_line : Text → Text
job_line id = codes "  " ++ id ++ codes ":"

unfoldable pub job_section_from_text : Text → Text → Result Text
job_section_from_text text job_id = do
  lines ← lines_behind (codes "jobs:") (splitlines text)
  section ← section_lines (job_line job_id) lines
  ok (join (codes "\n") section)

unfoldable pub top_level_block : Text → Text → Result Text
top_level_block text key = do
  lines ← lines_behind (key ++ codes ":") (splitlines text)
  ok (join (codes "\n") ((key ++ codes ":") ∷ block_lines lines))

-- The first line that matches `name:\s*(.+?)\s*` as a whole.
unfoldable pub display_name_of : List Text → Option Text
display_name_of [] = none
display_name_of (line ∷ lines) = elim (value_behind (codes "name:") line) [
  | none ↦ display_name_of lines
  | some value ↦ some (unquote value)
]

unfoldable pub workflow_display_name : Text → Option Text
workflow_display_name text = display_name_of (splitlines text)

-- `f"{workflow.name}:{job_id}"` for each job that emits the context, over the workflows by name.
abbrev pub emitter : Text → Text → Text
emitter workflow id = workflow ++ codes ":" ++ id

unfoldable pub emitters_in : Text → Text → List (Text × Text) → List Text
emitters_in context workflow [] = []
emitters_in context workflow ((id, name) ∷ jobs) =
    if text_eq name context
    then emitter workflow id ∷ emitters_in context workflow jobs
    else emitters_in context workflow jobs

unfoldable pub context_emitters : Text → List (Text × Text) → Result (List Text)
context_emitters context [] = ok []
context_emitters context ((workflow, text) ∷ rest) = do
  jobs ← job_contexts_from_text text
  others ← context_emitters context rest
  ok (emitters_in context workflow jobs ++ others)
