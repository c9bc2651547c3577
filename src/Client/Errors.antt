-- ===== src/Client/Errors.antt =====
-- C++ calls that return a value or throw.
pub data CppError : Type 0 where
  subject_filter_violation subject_filter_config_error runtime_error : CppError
  -- `nlohmann::json::type_error`, `parse_error` and `out_of_range`
  json_type_error json_parse_error json_out_of_range : CppError

pub data Returned {ℓ} (A : Type ℓ) : Type ℓ where
  returns : A → Returned A
  throws : CppError → Returned A

-- What is thrown ends the chain.
infixl 5 ◌>>=◌ ◌>>◌
abbrev pub ◌>>=◌ {ℓ κ} : {X : Type ℓ} {Y : Type κ} → Returned X → (X → Returned Y) → Returned Y
throws e >>= next = throws e
returns x >>= next = next x

abbrev pub ◌>>◌ {ℓ κ} : {X : Type ℓ} {Y : Type κ} → Returned X → Returned Y → Returned Y
call >> next = call >>= λ _. next
