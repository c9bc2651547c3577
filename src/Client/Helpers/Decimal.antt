-- ===== src/Client/Helpers/Decimal.antt =====
-- `std::to_string` in test_helpers.hpp: what it writes is read back.
use project_charybdis.Base.{
  ◌++◌, ◌↔◌, refl, codes, drop, length, ◌≡◌, ap, ◌∙◌, sym, ℕ, zero, suc, ◌<◌, ◌*◌, ◌+◌, ◌/◌, ◌%◌,
  ◌^◌, ltb, Bool-cases, inl, inr, [], ◌∷◌, Text, is_digit, arith,
}
use project_charybdis.Client.Helpers.{
  describe_payload, leading_value, digits_before, to_string, random_suffix,
}

digit_read :
    (m d n : ℕ) (out : Text)
    → d < 10
    → m * 10 + d ≡ n
    → leading_value m ((b'0' + d) ∷ out) ≡ leading_value n out
unfolding leading_value is_digit
digit_read m d n out h e = ground arith

tenth_fits : (n k : ℕ) → n < 10 ^ suc k → n / 10 < 10 ^ k
tenth_fits n k h = omega arith

-- The digits have the value of the number, where they are enough.
leading_value-digits_before :
    (k n : ℕ) (out : Text)
    → n < 10 ^ k
    → leading_value 0 (digits_before k n out) ≡ leading_value n out
unfolding digits_before
leading_value-digits_before zero n out h = ap (λ m. leading_value m out) (omega arith)
leading_value-digits_before (suc k) n out h = elim (Bool-cases (ltb n 10)) [
  | inl small ↦ rw small (digit_read 0 n n out (ground arith) (omega arith))
  | inr large ↦ rw large (
      leading_value-digits_before k (n / 10) ((b'0' + n % 10) ∷ out) (tenth_fits n k h)
      ∙ digit_read (n / 10) (n % 10) n out (omega arith) (omega arith))
]

-- A number below 10 to the power of 20, as each of 64 bits is, is read back from its text.
leading_value-to_string : (n : ℕ) → n < 10 ^ 20 → leading_value 0 (to_string n) ≡ n
unfolding to_string leading_value
leading_value-to_string n h = leading_value-digits_before 20 n [] h

-- Two times whose milliseconds are below 10 to the power of 20, as those of 64 bits are, have one
-- suffix only where their milliseconds are the same.
random_suffix_inj :
    (a b : ℕ)
    → a / 1000000 < 10 ^ 20
    → b / 1000000 < 10 ^ 20
    → random_suffix a ≡ random_suffix b
    → a / 1000000 ≡ b / 1000000
unfolding random_suffix
random_suffix_inj a b fits fits' e =
    sym (leading_value-to_string (a / 1000000) fits)
    ∙ ap (leading_value 0) e
    ∙ leading_value-to_string (b / 1000000) fits'

digits_before-append :
    (k n : ℕ) (s t : Text) → digits_before k n s ++ t ≡ digits_before k n (s ++ t)
unfolding digits_before
digits_before-append zero n s t = refl
digits_before-append (suc k) n s t = elim (Bool-cases (ltb n 10)) [
  | inl small ↦ rw small refl
  | inr large ↦ rw large (digits_before-append k (n / 10) ((b'0' + n % 10) ∷ s) t)
]

-- The number behind "payload(len=".
described_length : Text → ℕ
described_length s = leading_value 0 (drop 12 s)

described_length-describe_payload :
    (p : Text) → length p < 10 ^ 20 → described_length (describe_payload p) ≡ length p
unfolding described_length describe_payload to_string leading_value is_digit
described_length-describe_payload p h =
    ap (leading_value 0) (digits_before-append 20 (length p) [] (codes ")"))
    ∙ leading_value-digits_before 20 (length p) (codes ")") h

describe_payload-length :
    (p q : Text) → length p ≡ length q → describe_payload p ≡ describe_payload q
unfolding describe_payload
describe_payload-length p q e = rw e refl

-- Two payloads, each of less than 10 to the power of 20 bytes, have the same description exactly
-- where they have the same length: it tells the length and nothing else of them.
pub describe_payload_iff :
    (p q : Text)
    → length p < 10 ^ 20
    → length q < 10 ^ 20
    → (describe_payload p ≡ describe_payload q) ↔ (length p ≡ length q)
describe_payload_iff p q hp hq = (
  λ e.
      sym (described_length-describe_payload p hp)
      ∙ ap described_length e
      ∙ described_length-describe_payload q hq,
  describe_payload-length p q,
)
