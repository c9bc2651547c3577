-- ===== src/Client/Helpers/Recovery.antt =====
-- The recovery timeout that CHAOS_RECOVERY_TIMEOUT_S sets.
use project_charybdis.Base.{
  ◌≡◌, ◌≢◌, refl, ap, ◌∙◌, ℕ, zero, suc, ◌≤◌, ◌<◌, ◌*◌, ◌+◌, ◌-◌, true, false, some, [], ◌∷◌, ◌++◌,
  Text, codes, All, is_digit, ◌==◌, pos, arith,
}
use project_charybdis.Client.Subject.{Environment}
use project_charybdis.Client.Url.{value, max_int}
use project_charybdis.Client.Helpers.{
  is_blank_char, leading_value, stoi_unsigned, stoi, positive_or_default, chaos_recovery_timeout,
}

abbrev pub AreDigits : Text → Type 0
AreDigits ds = All (λ c. is_digit c ≡ true) ds

-- What follows the digits is no digit.
abbrev pub EndsDigits : Text → Type 0
EndsDigits [] = Unit
EndsDigits (c ∷ rest) = is_digit c ≡ false

leading_value-digits :
    (n : ℕ) (ds rest : Text)
    → AreDigits ds
    → EndsDigits rest
    → leading_value n (ds ++ rest) ≡ value n ds
unfolding leading_value
leading_value-digits n [] [] h e = refl
leading_value-digits n [] (c ∷ rest) h e = rw e refl
leading_value-digits n (c ∷ ds) rest (h, hs) e =
    rw h (leading_value-digits (n * 10 + (c - b'0')) ds rest hs e)

-- A digit is no blank and no sign.
digit-plain :
    (c : ℕ)
    → is_digit c ≡ true
    → (is_blank_char c ≡ false) × ((c == b'-') ≡ false) × ((c == b'+') ≡ false)
unfolding is_digit is_blank_char
digit-plain c h = ground arith

stoi-digits :
    (c : ℕ) (ds rest : Text)
    → AreDigits (c ∷ ds)
    → EndsDigits rest
    → value 0 (c ∷ ds) ≤ max_int
    → stoi (c ∷ ds ++ rest) ≡ some (pos (value 0 (c ∷ ds)))
unfolding stoi stoi_unsigned
stoi-digits c ds rest h e fits =
    let (blank, minus, plus) = digit-plain c h.0 in
    let exact = leading_value-digits (0 + (c - b'0')) ds rest h.1 e in
    rw (blank, minus, plus, h.0, exact) (ground arith)

stoi-blanks :
    (blanks s : Text) → All (λ c. is_blank_char c ≡ true) blanks → stoi (blanks ++ s) ≡ stoi s
unfolding stoi
stoi-blanks [] s h = refl
stoi-blanks (c ∷ blanks) s (h, hs) = rw h (stoi-blanks blanks s hs)

-- The timeout is always positive, whatever the variable holds.
pub chaos_recovery_timeout-pos : (env : Environment) → 0 < chaos_recovery_timeout env
unfolding chaos_recovery_timeout positive_or_default
chaos_recovery_timeout-pos env = ground arith

chosen :
    (env : Environment) (c : ℕ) (s : Text)
    → env.getenv (codes "CHAOS_RECOVERY_TIMEOUT_S") ≡ some (c ∷ s)
    → chaos_recovery_timeout env ≡ positive_or_default (stoi (c ∷ s))
unfolding chaos_recovery_timeout
chosen env c s e = rw (e, chaos_recovery_timeout) refl

chosen_nonempty :
    (env : Environment) (s : Text)
    → s ≢ []
    → env.getenv (codes "CHAOS_RECOVERY_TIMEOUT_S") ≡ some s
    → chaos_recovery_timeout env ≡ positive_or_default (stoi s)
chosen_nonempty env [] ne e = absurd (ne refl)
chosen_nonempty env (c ∷ s) ne e = chosen env c s e

append-ne-nil : (s : Text) (c : ℕ) (t : Text) → s ++ c ∷ t ≢ []
append-ne-nil [] c t h = cc
append-ne-nil (d ∷ s) c t h = cc

positive_or_default-pos : (n : ℕ) → 0 < n → positive_or_default (some (pos n)) ≡ n
unfolding positive_or_default
positive_or_default-pos zero h = absurd (omega arith)
positive_or_default-pos (suc n) h = refl

-- A variable that holds blanks, then digits of a number from 1 to the largest `int`, then anything
-- that does not begin with a digit: the timeout is this number of seconds.
pub chaos_recovery_timeout-written :
    (env : Environment) (blanks ds rest : Text)
    → env.getenv (codes "CHAOS_RECOVERY_TIMEOUT_S") ≡ some (blanks ++ (ds ++ rest))
    → All (λ c. is_blank_char c ≡ true) blanks
    → AreDigits ds
    → EndsDigits rest
    → 0 < value 0 ds
    → value 0 ds ≤ max_int
    → chaos_recovery_timeout env ≡ value 0 ds
chaos_recovery_timeout-written env blanks [] rest holds b h e positive fits = absurd (omega arith)
chaos_recovery_timeout-written env blanks (c ∷ ds) rest holds b h e positive fits =
    chosen_nonempty env (blanks ++ c ∷ (ds ++ rest)) (append-ne-nil blanks c (ds ++ rest)) holds
    ∙ ap positive_or_default
        (stoi-blanks blanks (c ∷ ds ++ rest) b ∙ stoi-digits c ds rest h e fits)
    ∙ positive_or_default-pos (value 0 (c ∷ ds)) positive
