-- ===== src/Attest/Pins.antt =====
-- `test_every_release_workflow_action_ref_is_sha_pinned`: the lines of a workflow that use an action
-- by anything but a full commit hash with the version in a comment.
pub mod Laws
pub mod Written
use project_charybdis.Base.{
  ℕ, suc, ◌==◌, leb, Bool, true, false, ◌&&◌, ◌||◌, Option, none, some, List, [], ◌∷◌, Text, codes,
  starts_with, is_space, is_digit, lstrip, length, all, any, if◌then◌else◌,
}
use project_charybdis.Policy.Lines.{splitlines, behind_prefix, trim}

-- `[0-9a-f]`
unfoldable pub is_hex : ℕ → Bool
is_hex c = is_digit c || (leb b'a' c && leb c b'f')

-- `re.fullmatch(r"[0-9a-f]{40}", s)`
unfoldable pub is_hash : Text → Bool
is_hash s = length s == 40 && all is_hex s

-- `ref.rsplit("@", 1)[-1]`
unfoldable pub behind_at : Text → Text
behind_at [] = []
behind_at (c ∷ s) =
    let rest = behind_at s in
    if any (λ d. d == b'@') s then rest else if c == b'@' then s else c ∷ s

-- `(?:-\s+)?`
abbrev pub without_dash : Text → Text
without_dash (c ∷ d ∷ s) = if c == b'-' && is_space d then lstrip is_space s else c ∷ d ∷ s
without_dash s = s

-- `(\S*)` and what follows it
unfoldable pub solid_run : Text → Text × Text
solid_run [] = ([], [])
solid_run (c ∷ s) =
    let (run, rest) = solid_run s in if is_space c then ([], c ∷ s) else (c ∷ run, rest)

-- `#?\s*(.*)$`
abbrev pub comment_of : Text → Text
comment_of [] = []
comment_of (c ∷ s) = if c == b'#' then lstrip is_space s else c ∷ s

abbrev pub ref_and_comment : Text × Text → Option (Text × Text)
ref_and_comment ([], rest) = none
ref_and_comment (c ∷ ref, rest) = some (c ∷ ref, comment_of (lstrip is_space rest))

-- `(?:-\s+)?uses:\s*(\S+)\s*#?\s*(.*)$`: the two groups.
unfoldable pub uses_match : Text → Option (Text × Text)
uses_match stripped = elim (behind_prefix (codes "uses:") (without_dash stripped)) [
  | none ↦ none
  | some rest ↦ ref_and_comment (solid_run (lstrip is_space rest))
]

-- A local action, or a hash and a comment that begins with "v".
unfoldable pub is_pinned : Text → Text → Bool
is_pinned ref comment =
    starts_with ref (codes "./") || (is_hash (behind_at ref) && starts_with comment (codes "v"))

abbrev pub passes : Option (Text × Text) → Bool
passes none = true
passes (some (ref, comment)) = is_pinned ref comment

-- The loop, with the number of the next line: the numbers and the lines that are reported.
unfoldable pub unpinned_from : ℕ → List Text → List (ℕ × Text)
unpinned_from index [] = []
unpinned_from index (line ∷ lines) =
    let rest = unpinned_from (suc index) lines in
    if passes (uses_match (trim line)) then rest else (index, trim line) ∷ rest

unfoldable pub unpinned : Text → List (ℕ × Text)
unpinned text = unpinned_from 1 (splitlines text)
