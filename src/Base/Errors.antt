-- ===== src/Base/Errors.antt =====
-- Python calls that return a value or raise.
use mathlib.Core.Path.{◌≡◌, refl}
use mathlib.Core.Logic.{◌⊎◌, ◌↔◌, inl, inr}
use mathlib.Core.Bool.{Bool, true, false}

-- The exceptions that the modelled code can raise.
pub data PyError : Type 0 where
  value_error type_error attribute_error overflow_error assertion_error : PyError
  stop_iteration key_error file_not_found_error os_error runtime_error : PyError

pub data Result {ℓ} (A : Type ℓ) : Type ℓ where
  ok : A → Result A
  raised : PyError → Result A

-- A raise ends the chain.
infixl 5 ◌>>=◌ ◌>>◌
abbrev pub ◌>>=◌ {ℓ κ} : {X : Type ℓ} {Y : Type κ} → Result X → (X → Result Y) → Result Y
raised e >>= next = raised e
ok x >>= next = next x

abbrev pub ◌>>◌ {ℓ κ} : {X : Type ℓ} {Y : Type κ} → Result X → Result Y → Result Y
call >> next = call >>= λ _. next

-- `assert test`, which the assertions of `unittest` come to.
abbrev pub check : Bool → Result (Unit {0})
check true = ok tt
check false = raised assertion_error

-- A chain that returns: its first call returned, and the rest returned with what that gave.
pub returned {ℓ κ} :
    {X : Type ℓ} {Y : Type κ} (call : Result X) {rest : X → Result Y} {y : Y}
    → (call >>= rest) ≡ ok y
    → (x : X) × (call ≡ ok x) × (rest x ≡ ok y)
returned (raised e) chain = absurd (cc)
returned (ok x) chain = (x, refl, chain)

-- An assertion in a chain that returns holds.
pub checked {κ} :
    {Y : Type κ} (test : Bool) {rest : Result Y} {y : Y}
    → (check test >> rest) ≡ ok y
    → (test ≡ true) × (rest ≡ ok y)
checked true chain = (refl, chain)
checked false chain = absurd (cc)

pub check_iff : (test : Bool) → (check test ≡ ok tt) ↔ (test ≡ true)
check_iff true = (λ e. refl, λ e. refl)
check_iff false = (λ e. absurd (cc), λ e. absurd (cc))

pub Result-cases {ℓ} :
    {X : Type ℓ} (call : Result X) → ((x : X) × (call ≡ ok x)) ⊎ ((e : PyError) × (call ≡ raised e))
Result-cases (raised e) = inr (e, refl)
Result-cases (ok x) = inl (x, refl)
