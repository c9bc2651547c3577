-- ===== src/Client/Helpers.antt =====
-- include/charybdis/test_helpers.hpp: what the tests read of the environment and of answers, and the
-- loop that waits for a condition.
pub mod Wait
pub mod Decimal
pub mod Recovery
use project_charybdis.Base.{
  ℕ, zero, suc, ◌+◌, ◌*◌, ◌-◌, ◌/◌, ◌%◌, ◌==◌, ltb, leb, Bool, true, false, not, ◌&&◌, ◌||◌, Option,
  none, some, [], ◌∷◌, ◌++◌, Text, codes, length, is_digit, ℤ, pos, negsuc, neg, if◌then◌else◌,
}
use project_charybdis.Json.{Json, null, obj, get, has_field}
use project_charybdis.Client.Errors.{Returned, returns, throws, json_type_error, ◌>>=◌}
use project_charybdis.Client.Subject.{Environment}
use project_charybdis.Client.Calls.{text_member}

unfoldable pub agamemnon_url : Environment → Text
agamemnon_url env = elim (env.getenv (codes "AGAMEMNON_URL")) [
  | none ↦ codes "http://localhost:8080"
  | some v ↦ v
]

unfoldable pub nats_url : Environment → Text
nats_url env = elim (env.getenv (codes "NATS_URL")) [
  | none ↦ codes "nats://localhost:4222"
  | some v ↦ v
]

-- The decimal digits of a number below 10 to the power of the first argument, in front of a text.
unfoldable pub digits_before : ℕ → ℕ → Text → Text
digits_before zero n out = out
digits_before (suc k) n out =
    let more = digits_before k (n / 10) ((b'0' + n % 10) ∷ out) in
    if ltb n 10 then (b'0' + n) ∷ out else more

-- `std::to_string`, of a `size_t` or of a `long long` that is not negative
unfoldable pub to_string : ℕ → Text
to_string n = digits_before 20 n []

-- `now` is the time since the epoch in nanoseconds.
unfoldable pub random_suffix : ℕ → Text
random_suffix now = to_string (now / 1000000)

unfoldable pub describe_payload : Text → Text
describe_payload payload = codes "payload(len=" ++ to_string (length payload) ++ codes ")"

-- `isspace`, in the "C" locale
unfoldable pub is_blank_char : ℕ → Bool
is_blank_char c = c == 32 || (leb 9 c && leb c 13)

-- The number that the digits at the front spell behind `n`.
unfoldable pub leading_value : ℕ → Text → ℕ
unfolding is_digit
leading_value n [] = n
leading_value n (c ∷ s) =
    let rest = leading_value (n * 10 + (c - b'0')) s in if is_digit c then rest else n

-- `std::stoi` behind the sign: at least one digit, and a number within `int`; what follows the
-- digits is ignored.
unfoldable pub stoi_unsigned : Bool → Text → Option ℤ
unfolding is_digit leading_value neg
stoi_unsigned minus [] = none
stoi_unsigned minus (c ∷ s) =
    if not (is_digit c)
    then none
    else if ltb (if minus then 2147483648 else 2147483647) (leading_value 0 (c ∷ s))
    then none
    else some (if minus then neg (pos (leading_value 0 (c ∷ s))) else pos (leading_value 0 (c ∷ s)))

-- `std::stoi`, with an exception as `none`
unfoldable pub stoi : Text → Option ℤ
unfolding is_blank_char stoi_unsigned
stoi [] = none
stoi (c ∷ s) =
    let rest = stoi s in
    if is_blank_char c
    then rest
    else if c == b'-'
    then stoi_unsigned true s
    else if c == b'+'
    then stoi_unsigned false s
    else stoi_unsigned false (c ∷ s)

-- In seconds; 0 and below fall back as well.
unfoldable pub positive_or_default : Option ℤ → ℕ
positive_or_default none = 10
positive_or_default (some (negsuc n)) = 10
positive_or_default (some (pos zero)) = 10
positive_or_default (some (pos (suc n))) = suc n

unfoldable pub chaos_recovery_timeout : Environment → ℕ
chaos_recovery_timeout env = elim (env.getenv (codes "CHAOS_RECOVERY_TIMEOUT_S")) [
  | none ↦ 10
  | some [] ↦ 10
  | some (c ∷ s) ↦ positive_or_default (stoi (c ∷ s))
]

-- `agent.value("agent", nlohmann::json{})`, where `contains` has read that `agent` is an object with
-- no "id" or no object at all
unfoldable pub agent_member : Json → Returned Json
agent_member (obj d) = elim (get (codes "agent") d) [ none ↦ returns null | some v ↦ returns v ]
agent_member _ = throws json_type_error

abbrev pub contains_id : Json → Bool
contains_id (obj d) = has_field (codes "id") d
contains_id _ = false

unfoldable pub extract_agent_id : Json → Returned Text
extract_agent_id agent =
    if contains_id agent
    then text_member (codes "id") agent
    else (agent_member agent >>= λ nested. text_member (codes "id") nested)

-- `timeout` is in seconds, time points and their differences in nanoseconds.
unfoldable pub is_within : ℤ → ℕ → Bool
is_within (pos seconds) elapsed = ltb elapsed (seconds * 1000000000)
is_within (negsuc n) elapsed = false

-- The loop of `wait_until` from its round `i` on: `now i` is the time when this round begins, and
-- `pred i` what the condition says in it. `none` is a loop that has not ended within the fuel.
unfoldable pub wait_from : (ℕ → Bool) → (ℕ → ℕ) → ℕ → ℤ → ℕ → ℕ → Option Bool
wait_from pred now start timeout i zero = none
wait_from pred now start timeout i (suc fuel) =
    let rest = wait_from pred now start timeout (suc i) fuel in
    if is_within timeout (now i - start) then (if pred i then some true else rest) else some false

unfoldable pub wait_until : (ℕ → Bool) → (ℕ → ℕ) → ℕ → ℤ → ℕ → Option Bool
wait_until pred now start timeout fuel = wait_from pred now start timeout 0 fuel
