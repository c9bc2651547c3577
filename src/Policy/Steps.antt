-- ===== src/Policy/Steps.antt =====
-- The steps of a job section and their fields: `_job_step_sections` to `_step_run_command`.
pub mod Laws
use project_charybdis.Base.{
  ℕ, zero, suc, ◌==◌, Bool, true, false, ◌||◌, Option, none, some, List, [], ◌∷◌, ◌++◌, map, Text,
  codes, text_eq, starts_with, join, drop, length, if◌then◌else◌,
}
use project_charybdis.Policy.Lines.{splitlines, behind_prefix, unquote, trim}

abbrev pub step_mark : Text
step_mark = codes "      - "

-- The lines in front of the first step, and the lines of each step.
unfoldable pub group_steps : List Text → List Text × List (List Text)
group_steps [] = ([], [])
group_steps (l ∷ ls) =
    let (front, steps) = group_steps ls in
    if starts_with l step_mark then ([], (l ∷ front) ∷ steps) else (l ∷ front, steps)

unfoldable pub job_step_sections : Text → List Text
job_step_sections section = map (join (codes "\n")) (group_steps (splitlines section)).1

-- `<mark><field>:\s*(.*?)\s*$`: the value, which may be empty.
unfoldable pub field_value : Text → Text → Text → Option Text
field_value mark name line = elim (behind_prefix (mark ++ name ++ codes ":") line) [
  | none ↦ none
  | some rest ↦ some (trim rest)
]

-- From the second line on, counted from `index`.
unfoldable pub field_from : Text → ℕ → List Text → Option (ℕ × Text)
field_from name index [] = none
field_from name index (line ∷ lines) = elim (field_value (codes "        ") name line) [
  | some value ↦ some (index, value)
  | none ↦ field_from name (suc index) lines
]

unfoldable pub field_of_lines : Text → List Text → Option (ℕ × Text)
field_of_lines name [] = none
field_of_lines name (line ∷ lines) = elim (field_value step_mark name line) [
  | some value ↦ some (0, value)
  | none ↦ field_from name 1 lines
]

-- A step field's line index and scalar value.
unfoldable pub step_field : Text → Text → Option (ℕ × Text)
step_field section name = field_of_lines name (splitlines section)

unfoldable pub step_name : Text → Option Text
step_name section = elim (step_field section (codes "name")) [
  | none ↦ none
  | some (index, value) ↦ some (unquote value)
]

-- `line.removeprefix("      - ").strip()` of the first line. Every section has one: its mark's.
abbrev pub first_line_identity : List Text → Text
first_line_identity [] = []
first_line_identity (line ∷ lines) = elim (behind_prefix step_mark line) [
  | none ↦ trim line
  | some rest ↦ trim rest
]

unfoldable pub step_identity : Text → Text
step_identity section = elim (step_name section) [
  | some name ↦ name
  | none ↦ first_line_identity (splitlines section)
]

unfoldable pub step_condition : Text → Option Text
step_condition section = elim (step_field section (codes "if")) [
  | none ↦ none
  | some (index, value) ↦ some value
]

-- `value in {"|", "|-", ">", ">-"}`
unfoldable pub is_block_mark : Text → Bool
is_block_mark value =
    text_eq value (codes "|")
    || text_eq value (codes "|-")
    || text_eq value (codes ">")
    || text_eq value (codes ">-")

-- The lines of a block scalar, ten columns in, up to the first that stands further out.
unfoldable pub scalar_lines : List Text → List Text
scalar_lines [] = []
scalar_lines ([] ∷ lines) = [] ∷ scalar_lines lines
scalar_lines ((c ∷ line) ∷ lines) = elim (behind_prefix (codes "          ") (c ∷ line)) [
  | none ↦ []
  | some rest ↦ rest ∷ scalar_lines lines
]

unfoldable pub step_run_command : Text → Option Text
step_run_command section = elim (step_field section (codes "run")) [
  | none ↦ none
  | some (index, value) ↦
      if is_block_mark value
      then some (join (codes "\n") (scalar_lines (drop (suc index) (splitlines section))))
      else some value
]
