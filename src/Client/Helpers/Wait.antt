-- ===== src/Client/Helpers/Wait.antt =====
-- `wait_until` ends, and what it returns.
use project_charybdis.Base.{
  ◌≡◌, inl, inr, refl, ℕ, zero, suc, ◌+◌, ◌*◌, ◌-◌, ◌≤◌, ◌<◌, Bool, true, false, Bool-cases, some,
  ℤ, pos, negsuc, pos_part, arith,
}
use project_charybdis.Client.Helpers.{is_within, wait_from, wait_until}

-- The condition does not hold in the `n` rounds from `i` on.
abbrev pub IsQuiet : (ℕ → Bool) → ℕ → ℕ → Type 0
IsQuiet pred i zero = Unit
IsQuiet pred i (suc n) = (pred i ≡ false) × IsQuiet pred (suc i) n

is_within-lt :
    (timeout : ℤ) (elapsed : ℕ)
    → is_within timeout elapsed ≡ true
    → elapsed < pos_part timeout * 1000000000
unfolding is_within
is_within-lt (pos n) elapsed h = ground arith
is_within-lt (negsuc n) elapsed h = absurd (cc)

module _ (pred : ℕ → Bool) (now : ℕ → ℕ) (start : ℕ) (timeout : ℤ) where
  -- How the loop can end: in the first round where the condition holds, or in the first that begins
  -- too late.
  pub data IsOver (i : ℕ) (result : Bool) : Type 0 where
    met :
        (n m : ℕ)
        → m ≡ i + n
        → result ≡ true
        → IsQuiet pred i n
        → pred m ≡ true
        → is_within timeout (now m - start) ≡ true
        → IsOver i result
    late :
        (n m : ℕ)
        → m ≡ i + n
        → result ≡ false
        → IsQuiet pred i n
        → is_within timeout (now m - start) ≡ false
        → IsOver i result

  IsOver-later : (i : ℕ) (result : Bool) → pred i ≡ false → IsOver (suc i) result → IsOver i result
  IsOver-later i result no_luck (met n m e r quiet p w) =
      met (suc n) m (omega arith) r (no_luck, quiet) p w
  IsOver-later i result no_luck (late n m e r quiet w) =
      late (suc n) m (omega arith) r (no_luck, quiet) w

  wait_from-IsOver :
      (fuel i : ℕ)
      → ((j : ℕ) → now j + 500000000 ≤ now (suc j))
      → start + i * 500000000 ≤ now i
      → i ≤ pos_part timeout * 2
      → pos_part timeout * 2 < i + fuel
      → (result : Bool) × (wait_from pred now start timeout i fuel ≡ some result) × IsOver i result
  unfolding wait_from
  wait_from-IsOver zero i sleeps began reached enough = absurd (omega arith)
  wait_from-IsOver (suc fuel) i sleeps began reached enough =
      elim (Bool-cases (is_within timeout (now i - start))) [
        | inr over ↦ (false, rw over refl, late 0 i (omega arith) refl tt over)
        | inl within ↦ elim (Bool-cases (pred i)) [
          | inl holds ↦ (true, rw (within, holds) refl, met 0 i (omega arith) refl tt holds within)
          | inr no_luck ↦
              let early : now i - start < pos_part timeout * 1000000000 =
                is_within-lt timeout (now i - start) within in
              let (result, e, ends) =
                wait_from-IsOver fuel (suc i) sleeps (omega (arith, sleeps i)) (omega arith)
                  (omega arith) in
              (result, rw (within, no_luck) e, IsOver-later i result no_luck ends)
        ]
      ]

  -- The loop ends after at most two rounds for each second of the timeout and one more, where each
  -- round sleeps for at least half a second and the clock does not go back before the first. It
  -- returns true where it ends in a round that began in time, the first in which the condition
  -- held, and false where a round began too late and the condition held in none before it.
  pub wait_until-ends :
      (fuel : ℕ)
      → ((j : ℕ) → now j + 500000000 ≤ now (suc j))
      → start ≤ now 0
      → pos_part timeout * 2 < fuel
      → (result : Bool) × (wait_until pred now start timeout fuel ≡ some result) × IsOver 0 result
  unfolding wait_until
  wait_until-ends fuel sleeps began enough =
      wait_from-IsOver fuel 0 sleeps (omega arith) (omega arith) (omega arith)
