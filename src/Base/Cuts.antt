-- ===== src/Base/Cuts.antt =====
-- What is cut off a text by `strip`, and where `split` cuts it.
use mathlib.Core.Path.{◌≡◌, refl}
use mathlib.Core.Logic.{◌≢◌}
use mathlib.Core.Bool.{Bool, true, false}
use mathlib.Core.List.{List, [], ◌∷◌, ◌++◌}
use Prim.Native.Nat.{ℕ}
use native.Mathlib.Omega.{arith}
use project_charybdis.Base.Tests.{◌==◌, ==_iff, if◌then◌else◌}
use project_charybdis.Base.Lists.{All}
use project_charybdis.Base.Strings.{Text, lstrip, rstrip, split_on}

pub split_on-plain : (sep : ℕ) (s : Text) → All (λ c. c ≢ sep) s → split_on sep s ≡ s ∷ []
unfolding split_on
split_on-plain sep [] h = refl
split_on-plain sep (c ∷ s) h = rw (split_on-plain sep s h.1) (ground arith)

split_on-ne-nil : (sep : ℕ) (s : Text) → split_on sep s ≢ []
unfolding split_on
split_on-ne-nil sep [] = ground arith
split_on-ne-nil sep (c ∷ s) = ground arith

pub split_on-append :
    (sep : ℕ) (s t : Text) → All (λ c. c ≢ sep) s → split_on sep (s ++ sep ∷ t) ≡ s ∷ split_on sep t
unfolding split_on
split_on-append sep [] t h = first_sep (split_on sep t) (split_on-ne-nil sep t)
  where
    first_sep :
        (ps : List Text)
        → ps ≢ []
        → (elim ps as (λ x. List Text) [
          | [] ↦ (sep ∷ []) ∷ []
          | part ∷ parts ↦ if sep == sep then [] ∷ part ∷ parts else (sep ∷ part) ∷ parts
        ])
          ≡ [] ∷ ps
    first_sep [] ne = absurd (ne refl)
    first_sep (part ∷ parts) ne = rw ((==_iff sep sep).1 refl) refl
split_on-append sep (c ∷ s) t h = rw (split_on-append sep s t h.1) (ground arith)

module _ (p : ℕ → Bool) where
  pub lstrip-append : (pad s : Text) → All (λ c. p c ≡ true) pad → lstrip p (pad ++ s) ≡ lstrip p s
  unfolding lstrip
  lstrip-append [] s h = refl
  lstrip-append (c ∷ pad) s (h, hs) = rw h (lstrip-append pad s hs)

  pub rstrip-stripped : (pad : Text) → All (λ c. p c ≡ true) pad → rstrip p pad ≡ []
  unfolding rstrip
  rstrip-stripped [] h = refl
  rstrip-stripped (c ∷ pad) (h, hs) = rw (rstrip-stripped pad hs, h) refl

  pub rstrip-append_pad :
      (s pad : Text) → All (λ c. p c ≡ true) pad → rstrip p (s ++ pad) ≡ rstrip p s
  unfolding rstrip
  rstrip-append_pad [] pad h = rstrip-stripped pad h
  rstrip-append_pad (c ∷ s) pad h = rw (rstrip-append_pad s pad h) refl

  rstrip-cons : (d : ℕ) (r : Text) → r ≢ [] → rstrip p r ≡ r → rstrip p (d ∷ r) ≡ d ∷ r
  unfolding rstrip
  rstrip-cons d [] ne k = absurd (ne refl)
  rstrip-cons d (e ∷ r) ne k = rw k refl

  pub rstrip-append_kept : (s t : Text) → t ≢ [] → rstrip p t ≡ t → rstrip p (s ++ t) ≡ s ++ t
  rstrip-append_kept [] t ne h = h
  rstrip-append_kept (c ∷ s) t ne h =
      rstrip-cons c (s ++ t) (append_ne s) (rstrip-append_kept s t ne h)
    where
      append_ne : (r : Text) → r ++ t ≢ []
      append_ne [] e = ne e
      append_ne (d ∷ r) e = cc

  pub rstrip-kept : (s : Text) → All (λ c. p c ≡ false) s → rstrip p s ≡ s
  unfolding rstrip
  rstrip-kept [] h = refl
  rstrip-kept (c ∷ []) h = rw h.0 refl
  rstrip-kept (c ∷ d ∷ s) h = rw (rstrip-kept (d ∷ s) h.1) refl
