-- ===== src/Policy/Shell.antt =====
-- The shell commands of a run step: continuation lines are joined, blanks and comments skipped.
pub mod Laws
use project_charybdis.Base.{
  ℕ, ◌==◌, Bool, true, false, ◌&&◌, Option, none, some, List, [], ◌∷◌, ◌++◌, Text, codes, text_eq,
  starts_with, ends_with, rstrip, is_space, join, all, any, if◌then◌else◌,
}
use project_charybdis.Policy.Lines.{splitlines, trim}
use project_charybdis.Policy.Triggers.{without_last}

-- `line.endswith("\\")`
unfoldable pub is_continued : Text → Bool
is_continued line = ends_with line (codes "\\")

-- `line.removesuffix("\\").rstrip()`
unfoldable pub fragment_of : Text → Text
fragment_of line = rstrip is_space (if is_continued line then without_last line else line)

-- `not line or line.startswith("#")`
unfoldable pub is_skipped : Text → Bool
is_skipped [] = true
is_skipped (c ∷ s) = c == b'#'

-- One round of the loop over the stripped line: the fragments that are open, and the command that
-- is complete, if one is.
unfoldable pub read_line : List Text → Text → List Text × List Text
read_line fragments line =
    if is_skipped line
    then (fragments, [])
    else if is_continued line
    then (fragments ++ fragment_of line ∷ [], [])
    else ([], join (codes " ") (fragments ++ fragment_of line ∷ []) ∷ [])

unfoldable pub commands_from : List Text → List Text → List Text
commands_from fragments [] = []
commands_from fragments (raw_line ∷ lines) =
    let (open_fragments, complete) = read_line fragments (trim raw_line) in
    complete ++ commands_from open_fragments lines

unfoldable pub logical_shell_commands : Text → List Text
logical_shell_commands run_command = commands_from [] (splitlines run_command)

unfoldable pub has_command : Text → List Text → Bool
has_command command commands = any (text_eq command) commands

-- `set(expected_commands).issubset(…)`
unfoldable pub has_all_executable_shell_commands : Option Text → List Text → Bool
has_all_executable_shell_commands none expected = false
has_all_executable_shell_commands (some run) expected =
    all (λ command. has_command command (logical_shell_commands run)) expected

-- `s == t` for lists of texts
unfoldable pub texts_eq : List Text → List Text → Bool
texts_eq [] [] = true
texts_eq [] (t ∷ ts) = false
texts_eq (s ∷ ss) [] = false
texts_eq (s ∷ ss) (t ∷ ts) = text_eq s t && texts_eq ss ts

-- The logical commands of the secrets scan, with a command for each branch of its test.
abbrev pub gitleaks_script : Text → Text → List Text
gitleaks_script configured default =
    codes "if [ -f .gitleaks.toml ]; then" ∷ configured ∷ codes "else" ∷ default ∷ codes "fi" ∷ []

unfoldable pub has_bound_gitleaks_branches : Option Text → List Text → Bool
has_bound_gitleaks_branches (some run) (configured ∷ default ∷ []) =
    texts_eq (logical_shell_commands run) (gitleaks_script configured default)
has_bound_gitleaks_branches run expected = false
