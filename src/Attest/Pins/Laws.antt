-- ===== src/Attest/Pins/Laws.antt =====
-- What it means that no line is reported, and how a line with an action is read.
use project_charybdis.Base.{
  ℕ, suc, ◌≡◌, refl, sym, ap, ◌∙◌, ◌⊎◌, ◌↔◌, inl, inr, Bool, true, false, ◌==◌, ==_iff, &&_iff,
  ◌&&◌, ◌||◌, Option, none, some, List, [], ◌∷◌, ◌++◌, Text, codes, starts_with, is_digit, length,
  any, all, All, Bool-cases, arith,
}
use project_charybdis.Policy.Lines.{splitlines, trim}
use project_charybdis.Attest.Pins.{
  is_hex, is_hash, behind_at, uses_match, is_pinned, passes, unpinned_from, unpinned,
}

abbrev pub has_at : Text → Bool
has_at s = any (λ d. d == b'@') s

-- The part behind the last "@", or all of a text without one.
pub behind_at-cases :
    (s : Text)
    → ((behind_at s ≡ s) ⊎ ((name : Text) × (s ≡ name ++ b'@' ∷ behind_at s)))
      × (has_at (behind_at s) ≡ false)
unfolding behind_at
behind_at-cases [] = (inl refl, refl)
behind_at-cases (c ∷ s) = elim (Bool-cases (has_at s)) [
  | inl later ↦
      let (place, none_left) = behind_at-cases s in
      rw later (inr (longer place none_left later), none_left)
  | inr last ↦ elim (Bool-cases (c == b'@')) [
    | inl here ↦ rw (last, here) (inr ([], ap (λ d. d ∷ s) ((==_iff c b'@').0 here)), last)
    | inr other ↦ rw (last, other) (inl refl, ground arith)
  ]
]
  where
    longer :
        (behind_at s ≡ s) ⊎ ((name : Text) × (s ≡ name ++ b'@' ∷ behind_at s))
        → has_at (behind_at s) ≡ false
        → has_at s ≡ true
        → (name : Text) × (c ∷ s ≡ name ++ b'@' ∷ behind_at s)
    longer (inl e) none_left later = absurd (cc (ap has_at e))
    longer (inr (name, e)) none_left later = (c ∷ name, ap (λ t. c ∷ t) e)

at_inside : (r s : Text) → has_at (r ++ b'@' ∷ s) ≡ true
at_inside [] s = refl
at_inside (d ∷ r) s = ground (arith, at_inside r s)

pub behind_at-append :
    (name hash : Text) → has_at hash ≡ false → behind_at (name ++ b'@' ∷ hash) ≡ hash
unfolding behind_at
behind_at-append [] hash h = rw h refl
behind_at-append (c ∷ name) hash h = rw (at_inside name hash) (behind_at-append name hash h)

-- A hexadecimal digit of a commit hash.
abbrev pub IsHex : ℕ → Type 0
IsHex c = is_hex c ≡ true

-- A full commit hash behind the last "@" of the reference, or alone, and a comment that begins with
-- the version.
pub record IsPinned (ref comment : Text) : Type 0 where
  pub hash : Text
  pub size : length hash ≡ 40
  pub digits : All IsHex hash
  pub place : (ref ≡ hash) ⊎ ((name : Text) × (ref ≡ name ++ b'@' ∷ hash))
  pub version : (tag : Text) × (comment ≡ b'v' ∷ tag)

abbrev pub IsLocal : Text → Type 0
IsLocal ref = (path : Text) × (ref ≡ codes "./" ++ path)

-- A line that uses no action, a local one, or one that is pinned.
abbrev pub IsSafe : Option (Text × Text) → Type 0
IsSafe none = Unit
IsSafe (some (ref, comment)) = IsLocal ref ⊎ IsPinned ref comment

cons_parts : {c d : ℕ} {s r : Text} → d ∷ s ≡ c ∷ r → (d ≡ c) × (s ≡ r)
cons_parts e = (cc, cc)

starts_with_iff : (p s : Text) → (starts_with s p ≡ true) ↔ ((rest : Text) × (s ≡ p ++ rest))
unfolding starts_with
starts_with_iff [] s = (λ e. (s, refl), λ h. refl)
starts_with_iff (c ∷ p) [] = (λ e. absurd (cc), λ (rest, e). absurd (cc))
starts_with_iff (c ∷ p) (d ∷ s) = (
  λ e.
      let (same, more) = (&&_iff (d == c) (starts_with s p)).0 e in
      let (rest, tail) = (starts_with_iff p s).0 more in (rest, cc ((==_iff d c).0 same, tail)),
  λ (rest, e).
      let (same, tail) = cons_parts e in
      (&&_iff (d == c) (starts_with s p)).1
        ((==_iff d c).1 same, (starts_with_iff p s).1 (rest, tail)),
)

all_digits_iff : (s : Text) → (all is_hex s ≡ true) ↔ All IsHex s
all_digits_iff [] = (λ e. tt, λ h. refl)
all_digits_iff (c ∷ s) = ground (arith, all_digits_iff s)

has_at-digits : (s : Text) → All IsHex s → has_at s ≡ false
unfolding is_hex is_digit
has_at-digits [] h = refl
has_at-digits (c ∷ s) (h, hs) = ground (arith, has_at-digits s hs)

is_hash_iff : (s : Text) → (is_hash s ≡ true) ↔ ((length s ≡ 40) × All IsHex s)
unfolding is_hash
is_hash_iff s = ground (arith, all_digits_iff s)

hash_behind_at :
    (ref hash : Text)
    → All IsHex hash
    → (ref ≡ hash) ⊎ ((name : Text) × (ref ≡ name ++ b'@' ∷ hash))
    → behind_at ref ≡ hash
hash_behind_at ref hash digits (inr (name, e)) =
    ap behind_at e ∙ behind_at-append name hash (has_at-digits hash digits)
hash_behind_at ref hash digits (inl e) = ap behind_at e ∙ alone (behind_at-cases hash).0
  where
    alone :
        (behind_at hash ≡ hash) ⊎ ((name : Text) × (hash ≡ name ++ b'@' ∷ behind_at hash))
        → behind_at hash ≡ hash
    alone (inl same) = same
    alone (inr (name, split)) =
        absurd (cc (at_inside name (behind_at hash), ap has_at split, has_at-digits hash digits))

or_right : (a b : Bool) → b ≡ true → (a || b) ≡ true
or_right a b h = ground arith

pinned_place :
    (ref : Text) → (ref ≡ behind_at ref) ⊎ ((name : Text) × (ref ≡ name ++ b'@' ∷ behind_at ref))
pinned_place ref = elim (behind_at-cases ref).0 [
  | inl same ↦ inl (sym same)
  | inr split ↦ inr split
]

tests_suffice :
    (ref comment : Text)
    → (is_hash (behind_at ref) && starts_with comment (codes "v")) ≡ true
    → IsPinned ref comment
tests_suffice ref comment e =
    let (hashed, versioned) = (&&_iff (is_hash (behind_at ref)) _).0 e in
    let (size, digits) = (is_hash_iff (behind_at ref)).0 hashed in
    record {
      hash = behind_at ref;
      size = size;
      digits = digits;
      place = pinned_place ref;
      version = (starts_with_iff (codes "v") comment).0 versioned;
    }

tests_hold :
    (ref comment : Text)
    → IsPinned ref comment
    → (is_hash (behind_at ref) && starts_with comment (codes "v")) ≡ true
tests_hold ref comment p = rw (hash_behind_at ref p.hash p.digits p.place) (
    (&&_iff (is_hash p.hash) _).1 (
      (is_hash_iff p.hash).1 (p.size, p.digits),
      (starts_with_iff (codes "v") comment).1 p.version,
    ))

is_pinned_iff :
    (ref comment : Text) → (is_pinned ref comment ≡ true) ↔ (IsLocal ref ⊎ IsPinned ref comment)
unfolding is_pinned
is_pinned_iff ref comment = (
  λ e. elim (Bool-cases (starts_with ref (codes "./"))) [
    | inl local ↦ inl ((starts_with_iff (codes "./") ref).0 local)
    | inr remote ↦ inr (tests_suffice ref comment (rw remote at e))
  ],
  λ safe. elim safe [
    | inl local ↦ rw ((starts_with_iff (codes "./") ref).1 local) refl
    | inr p ↦ or_right _ _ (tests_hold ref comment p)
  ],
)

passes_iff : (m : Option (Text × Text)) → (passes m ≡ true) ↔ IsSafe m
passes_iff none = (λ e. tt, λ h. refl)
passes_iff (some (ref, comment)) = is_pinned_iff ref comment

unpinned_from-eq-nil :
    (index : ℕ) (lines : List Text)
    → (unpinned_from index lines ≡ []) ↔ All (λ line. IsSafe (uses_match (trim line))) lines
unfolding unpinned_from
unpinned_from-eq-nil index [] = (λ e. tt, λ h. refl)
unpinned_from-eq-nil index (line ∷ lines) = elim (Bool-cases (passes (uses_match (trim line)))) [
  | inl passed ↦ (
    λ e. (
      (passes_iff (uses_match (trim line))).0 passed,
      (unpinned_from-eq-nil (suc index) lines).0 (rw passed at e),
    ),
    λ (h, hs). rw passed ((unpinned_from-eq-nil (suc index) lines).1 hs),
  )
  | inr reported ↦ (
    λ e. absurd (cc (rw reported at e)),
    λ (h, hs). absurd (cc (reported, (passes_iff (uses_match (trim line))).1 h)),
  )
]

-- No line of a workflow is reported exactly where each line uses no action, a local one, or one that
-- is pinned to a full commit hash with its version in the comment.
pub unpinned_iff :
    (text : Text)
    → (unpinned text ≡ []) ↔ All (λ line. IsSafe (uses_match (trim line))) (splitlines text)
unfolding unpinned
unpinned_iff text = unpinned_from-eq-nil 1 (splitlines text)
