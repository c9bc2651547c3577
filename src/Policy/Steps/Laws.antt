-- ===== src/Policy/Steps/Laws.antt =====
-- The steps of a job section: nothing of the section is lost or read twice.
use project_charybdis.Base.{
  ◌≡◌, refl, ap, true, false, List, [], ◌∷◌, ◌++◌, Text, starts_with, All, Bool-cases, inl, inr,
}
use project_charybdis.Policy.Steps.{group_steps, step_mark}

abbrev pub flatten : List (List Text) → List Text
flatten [] = []
flatten (ls ∷ rest) = ls ++ flatten rest

-- A step: its first line begins it, and no other line does.
abbrev pub IsStep : List Text → Type 0
IsStep [] = ⊥
IsStep (l ∷ ls) = (starts_with l step_mark ≡ true) × All (λ m. starts_with m step_mark ≡ false) ls

-- The lines in front of the steps and the steps put together are the section; no line in front
-- begins a step, and each step begins at its first line and nowhere else.
pub group_steps_partition :
    (lines : List Text)
    → ((group_steps lines).0 ++ flatten (group_steps lines).1 ≡ lines)
      × All (λ l. starts_with l step_mark ≡ false) (group_steps lines).0
      × All IsStep (group_steps lines).1
unfolding group_steps
group_steps_partition [] = (refl, tt, tt)
group_steps_partition (l ∷ lines) =
    let (whole, front, steps) = group_steps_partition lines in
    elim (Bool-cases (starts_with l step_mark)) [
      | inl begins ↦ rw begins (ap (λ ls. l ∷ ls) whole, tt, ((begins, front), steps))
      | inr inside ↦ rw inside (ap (λ ls. l ∷ ls) whole, (inside, front), steps)
    ]
