-- ===== src/Policy/Lines/Laws.antt =====
-- `splitlines` takes apart what a join by line feeds has put together, and what is left of a line
-- without the blanks round it.
use project_charybdis.Base.{
  ℕ, ◌==◌, ◌≡◌, refl, ap, ◌∙◌, true, false, List, [], ◌∷◌, ◌++◌, Text, codes, join, All, arith,
  is_space, lstrip, rstrip, strip, lstrip-append, rstrip-append_pad,
}
use project_charybdis.Policy.Lines.{is_break, longer_first, split_lines, splitlines, trim}

-- A line that holds no line break.
abbrev pub IsLine : Text → Type 0
IsLine s = All (λ c. is_break c ≡ false) s

not_return : (c : ℕ) → is_break c ≡ false → (c == 13) ≡ false
unfolding is_break
not_return c h = ground arith

-- A character that is no break goes on with the line.
split_lines-char :
    (c : ℕ) (s : Text)
    → is_break c ≡ false
    → split_lines false (c ∷ s) ≡ longer_first c (split_lines false s)
unfolding split_lines
split_lines-char c s h = rw (not_return c h, h) refl

pub split_lines-line :
    (s t : Text) → IsLine s → split_lines false (s ++ 10 ∷ t) ≡ s ∷ split_lines false t
split_lines-line [] t h = unfold split_lines is_break in refl
split_lines-line (c ∷ s) t h =
    split_lines-char c (s ++ 10 ∷ t) h.0 ∙ ap (longer_first c) (split_lines-line s t h.1)

split_lines-last : (c : ℕ) (s : Text) → IsLine (c ∷ s) → split_lines false (c ∷ s) ≡ (c ∷ s) ∷ []
split_lines-last c [] h = split_lines-char c [] h.0 ∙ (unfold split_lines in refl)
split_lines-last c (d ∷ s) h =
    split_lines-char c (d ∷ s) h.0 ∙ ap (longer_first c) (split_lines-last d s h.1)

join-cons :
    (l : Text) (c : ℕ) (s : Text) (ls : List Text)
    → join (codes "\n") (l ∷ (ls ++ (c ∷ s) ∷ []))
      ≡ l ++ 10 ∷ join (codes "\n") (ls ++ (c ∷ s) ∷ [])
unfolding join
join-cons l c s [] = refl
join-cons l c s (m ∷ ls) = refl

-- Lines that are joined by line feeds are split into the same lines; the last one is not empty, for
-- a line feed at the end begins no line.
pub splitlines-join :
    (lines : List Text) (c : ℕ) (s : Text)
    → All IsLine lines
    → IsLine (c ∷ s)
    → splitlines (join (codes "\n") (lines ++ (c ∷ s) ∷ [])) ≡ lines ++ (c ∷ s) ∷ []
unfolding splitlines
splitlines-join [] c s h k = unfold join in split_lines-last c s k
splitlines-join (l ∷ ls) c s h k =
    ap (split_lines false) (join-cons l c s ls)
    ∙ split_lines-line l (join (codes "\n") (ls ++ (c ∷ s) ∷ [])) h.0
    ∙ ap (λ rest. l ∷ rest) (splitlines-join ls c s h.1 k)

-- The blanks round a text that has none at its ends are cut off.
pub trim-padded :
    (before : Text) (c : ℕ) (s after : Text)
    → All (λ b. is_space b ≡ true) before
    → All (λ b. is_space b ≡ true) after
    → is_space c ≡ false
    → rstrip is_space (c ∷ s) ≡ c ∷ s
    → trim (before ++ (c ∷ s ++ after)) ≡ c ∷ s
unfolding trim strip lstrip
trim-padded before c s after b a solid kept =
    rw (lstrip-append is_space before (c ∷ s ++ after) b, solid)
      (rstrip-append_pad is_space (c ∷ s) after a ∙ kept)
