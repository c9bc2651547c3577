-- ===== src/Policy/Membership.antt =====
-- Membership of a text in a list, which the sets of the script stand for.
use project_charybdis.Base.{
  ◌≡◌, refl, ◌↔◌, ◌⊎◌, Bool, true, List, [], ◌∷◌, Text, text_eq_iff, all, All, arith,
}
use project_charybdis.Policy.Shell.{has_command, texts_eq}
use project_charybdis.Policy.Violations.{has_text, insert_sorted, difference}

abbrev pub In : Text → List Text → Type 0
In t [] = ⊥
In t (u ∷ us) = (t ≡ u) ⊎ In t us

pub has_text_iff : (t : Text) (ts : List Text) → (has_text t ts ≡ true) ↔ In t ts
unfolding has_text
has_text_iff t [] = ground arith
has_text_iff t (u ∷ us) = ground (arith, text_eq_iff t u, has_text_iff t us)

pub has_command_iff : (t : Text) (ts : List Text) → (has_command t ts ≡ true) ↔ In t ts
unfolding has_command
has_command_iff t [] = ground arith
has_command_iff t (u ∷ us) = ground (arith, text_eq_iff t u, has_command_iff t us)

pub texts_eq_iff : (ss ts : List Text) → (texts_eq ss ts ≡ true) ↔ (ss ≡ ts)
unfolding texts_eq
texts_eq_iff [] [] = ground arith
texts_eq_iff [] (t ∷ ts) = ground arith
texts_eq_iff (s ∷ ss) [] = ground arith
texts_eq_iff (s ∷ ss) (t ∷ ts) = ground (arith, text_eq_iff s t, texts_eq_iff ss ts)

pub all_iff {κ} :
    (p : Text → Bool) (P : Text → Type κ)
    → ((t : Text) → (p t ≡ true) ↔ P t)
    → (ts : List Text) → (all p ts ≡ true) ↔ All P ts
all_iff p P h [] = (λ e. tt, λ a. refl)
all_iff p P h (t ∷ ts) = ground (arith, h t, all_iff p P h ts)

pub In-insert_sorted :
    (t u : Text) (us : List Text) → In t (insert_sorted u us) ↔ ((t ≡ u) ⊎ In t us)
unfolding insert_sorted
In-insert_sorted t u [] = ground arith
In-insert_sorted t u (v ∷ vs) = ground (arith, text_eq_iff u v, In-insert_sorted t u vs)

-- A text is in the sorted set difference exactly where it is in the first list and not in the
-- second.
pub In-difference :
    (t : Text) (ts us : List Text) → In t (difference ts us) ↔ (In t ts × (¬ In t us))
unfolding difference
In-difference t [] us = ground arith
In-difference t (u ∷ ts) us =
    ground
      (arith, has_text_iff u us, In-difference t ts us, In-insert_sorted t u (difference ts us))
