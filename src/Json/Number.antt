-- ===== src/Json/Number.antt =====
-- Numbers as Python reads them: floats exactly, as a sign, a mantissa and a power of two, and
-- `int(…)` of a text in base 10. Digits outside ASCII are not read as digits.
use project_charybdis.Base.{
  ℕ, ◌+◌, ◌*◌, ◌-◌, ◌/◌, ◌^◌, suc, ◌==◌, ltb, Bool, true, false, not, ◌&&◌, ◌||◌, Option, none,
  some, [], ◌∷◌, Text, is_space, is_digit, strip, ℤ, pos, negsuc, neg, Result, ok, raised,
  if◌then◌else◌,
}
use project_charybdis.Base.Errors.{value_error, overflow_error}

-- (-1)^sign * mantissa * 2^exponent, an infinity with its sign, or no number.
pub data Float : Type 0 where
  finite : Bool → ℕ → ℤ → Float
  infinite : Bool → Float
  nan : Float

abbrev pub scaled : ℕ → ℤ → ℕ
scaled m (pos e) = m * 2 ^ e
scaled m (negsuc e) = m / 2 ^ suc e

-- `int(x)` of a float cuts the fraction off.
unfoldable pub trunc : Float → Result ℤ
unfolding neg
trunc (finite sign m e) = ok (if sign then neg (pos (scaled m e)) else pos (scaled m e))
trunc (infinite sign) = raised overflow_error
trunc nan = raised value_error

-- Digits, where one `_` may stand between two of them; `start` holds where a digit must follow.
unfoldable pub digits_from : Bool → ℕ → Text → Option ℕ
unfolding is_digit
digits_from start n [] = if start then none else some n
digits_from start n (c ∷ s) =
    let rest = digits_from (c == b'_') (if c == b'_' then n else n * 10 + (c - b'0')) s in
    if is_digit c || (c == b'_' && not start) then rest else none

abbrev pub digit_count : Text → ℕ
digit_count [] = 0
digit_count (c ∷ s) = (if c == b'_' then 0 else 1) + digit_count s

-- Python refuses to convert more than 4300 digits.
abbrev pub max_str_digits : ℕ
max_str_digits = 4300

unfoldable pub unsigned : Text → Option ℕ
unfolding digits_from
unsigned s = if ltb max_str_digits (digit_count s) then none else digits_from true 0 s

abbrev pub signed : Bool → Option ℕ → Result ℤ
signed minus none = raised value_error
signed minus (some n) = ok (if minus then neg (pos n) else pos n)

unfoldable pub signed_text : Text → Result ℤ
unfolding unsigned neg
signed_text [] = raised value_error
signed_text (c ∷ s) =
    if c == b'-'
    then signed true (unsigned s)
    else if c == b'+'
    then signed false (unsigned s)
    else signed false (unsigned (c ∷ s))

-- `int(s)` for a text
unfoldable pub int_of_text : Text → Result ℤ
unfolding strip is_space signed_text
int_of_text s = signed_text (strip is_space s)
