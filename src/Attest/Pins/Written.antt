-- ===== src/Attest/Pins/Written.antt =====
-- How a line with a pinned action, as a workflow writes it, is read.
use project_charybdis.Base.{
  ℕ, ◌≡◌, refl, ap, ◌∙◌, true, false, some, [], ◌∷◌, ◌++◌, Text, codes, starts_with, is_space,
  lstrip, rstrip, strip, All, lstrip-append, rstrip-append_kept, rstrip-kept,
}
use project_charybdis.Policy.Lines.{trim, behind_prefix}
use project_charybdis.Attest.Pins.{solid_run, uses_match}

abbrev pub IsSolid : Text → Type 0
IsSolid s = All (λ c. is_space c ≡ false) s

solid_run-append : (s t : Text) → IsSolid s → solid_run (s ++ b' ' ∷ t) ≡ (s, b' ' ∷ t)
unfolding solid_run is_space
solid_run-append [] t h = refl
solid_run-append (c ∷ s) t (h, hs) = rw (solid_run-append s t hs, h) refl

-- `- uses: <ref> # <comment>`
abbrev pub step_line : Text → Text → Text
step_line ref comment = codes "- uses: " ++ (ref ++ (codes " # " ++ comment))

uses_match-step_line :
    (c d : ℕ) (ref comment : Text)
    → IsSolid (c ∷ ref)
    → IsSolid (d ∷ comment)
    → uses_match (step_line (c ∷ ref) (d ∷ comment)) ≡ some (c ∷ ref, d ∷ comment)
unfolding uses_match behind_prefix starts_with is_space lstrip
uses_match-step_line c d ref comment h k =
    rw (h.0, solid_run-append (c ∷ ref) (codes "# " ++ d ∷ comment) h, k.0) refl

trim-step_line :
    (indent : Text) (c d : ℕ) (ref comment : Text)
    → All (λ b. is_space b ≡ true) indent
    → IsSolid (d ∷ comment)
    → trim (indent ++ step_line (c ∷ ref) (d ∷ comment)) ≡ step_line (c ∷ ref) (d ∷ comment)
unfolding trim strip
trim-step_line indent c d ref comment blank k =
    ap (rstrip is_space)
      (lstrip-append is_space indent (step_line (c ∷ ref) (d ∷ comment)) blank ∙ opens)
    ∙ rstrip-append_kept is_space (codes "- uses: ") _ (λ e. cc)
        (rstrip-append_kept is_space (c ∷ ref) (codes " # " ++ d ∷ comment) (λ e. cc)
          (rstrip-append_kept is_space (codes " # ") (d ∷ comment) (λ e. cc)
            (rstrip-kept is_space (d ∷ comment) k)))
  where
    opens : lstrip is_space (step_line (c ∷ ref) (d ∷ comment)) ≡ step_line (c ∷ ref) (d ∷ comment)
    opens = unfold lstrip is_space in refl

-- A step `- uses: <ref> # <comment>`, indented by any blanks, is read as using this reference with
-- this comment, where neither holds a blank or is empty.
pub uses_match-written :
    (indent : Text) (c d : ℕ) (ref comment : Text)
    → All (λ b. is_space b ≡ true) indent
    → IsSolid (c ∷ ref)
    → IsSolid (d ∷ comment)
    → uses_match (trim (indent ++ step_line (c ∷ ref) (d ∷ comment))) ≡ some (c ∷ ref, d ∷ comment)
uses_match-written indent c d ref comment blank h k =
    ap uses_match (trim-step_line indent c d ref comment blank k)
    ∙ uses_match-step_line c d ref comment h k
