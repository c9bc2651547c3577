-- ===== src/Policy/Lines.antt =====
-- Lines of a workflow file, and what the patterns of the script read of one line. A pattern is a
-- function that returns its groups; no line holds a line break, so `$` is the end of the line.
pub mod Laws
use project_charybdis.Base.{
  ℕ, ◌==◌, leb, Bool, true, false, not, ◌&&◌, ◌||◌, Option, none, some, List, [], ◌∷◌, Text, codes,
  text_eq, starts_with, lstrip, rstrip, strip, is_space, drop, length, Result, ok, raised,
  if◌then◌else◌,
}
use project_charybdis.Base.Errors.{value_error}

-- The line breaks of `str.splitlines()`.
unfoldable pub is_break : ℕ → Bool
is_break c =
    (leb 10 c && leb c 13) || (leb 0x1c c && leb c 0x1e) || c == 0x85 || c == 0x2028 || c == 0x2029

abbrev pub longer_first : ℕ → List Text → List Text
longer_first c [] = (c ∷ []) ∷ []
longer_first c (line ∷ lines) = (c ∷ line) ∷ lines

-- A carriage return and a line feed are one break: the flag holds right behind the first.
unfoldable pub split_lines : Bool → Text → List Text
split_lines after_return [] = []
split_lines after_return (c ∷ s) =
    let rest = split_lines (c == 13) s in
    if after_return && c == 10 then rest else if is_break c then [] ∷ rest else longer_first c rest

unfoldable pub splitlines : Text → List Text
splitlines text = split_lines false text

-- `lines[lines.index(line) + 1:]`
unfoldable pub lines_behind : Text → List Text → Result (List Text)
lines_behind line [] = raised value_error
lines_behind line (l ∷ ls) = if text_eq l line then ok ls else lines_behind line ls

-- `line and not line.startswith((" ", "#"))`: the line ends a top-level block.
unfoldable pub is_top_level : Text → Bool
is_top_level [] = false
is_top_level (c ∷ s) = not (c == b' ' || c == b'#')

-- The lines in front of the next top-level line.
unfoldable pub block_lines : List Text → List Text
block_lines [] = []
block_lines (l ∷ ls) = if is_top_level l then [] else l ∷ block_lines ls

-- What follows a literal at the start of a line.
unfoldable pub behind_prefix : Text → Text → Option Text
behind_prefix p line = if starts_with line p then some (drop (length p) line) else none

abbrev pub longer_run : ℕ → Option (Text × Text) → Option (Text × Text)
longer_run c none = none
longer_run c (some (run, rest)) = some (c ∷ run, rest)

-- `([class]*):` for a class that holds no colon: the run, and what follows the colon.
unfoldable pub run_then_colon : (ℕ → Bool) → Text → Option (Text × Text)
run_then_colon p [] = none
run_then_colon p (c ∷ s) =
    let longer = longer_run c (run_then_colon p s) in
    if c == b':' then some ([], s) else if p c then longer else none

-- `+` for `*`
abbrev pub nonempty_run : Option (Text × Text) → Option (Text × Text)
nonempty_run (some (c ∷ run, rest)) = some (c ∷ run, rest)
nonempty_run _ = none

abbrev pub is_quote : ℕ → Bool
is_quote c = c == b'"' || c == 39

-- `.strip("'\"")`
unfoldable pub unquote : Text → Text
unquote s = strip is_quote s

unfoldable pub trim : Text → Text
trim s = strip is_space s

-- The last character, where `(.+?)` is left with blanks only.
unfoldable pub last_only : Text → Option Text
last_only [] = none
last_only (c ∷ []) = some (c ∷ [])
last_only (c ∷ d ∷ s) = last_only (d ∷ s)

-- The group of `\s*(.+?)\s*$`: the text without the blanks round it, or the last blank.
unfoldable pub some_value : Text → Option Text
some_value s = elim (trim s) [ [] ↦ last_only s | c ∷ t ↦ some (c ∷ t) ]
