-- ===== src/Client/Breaker.antt =====
-- `HttpTestClient::CircuitBreaker` of src/http_test_client.cpp, which stops the calls to a server
-- that does not answer. A time point of the steady clock is its count of nanoseconds; this clock
-- never goes back. The mutex makes each operation one step.
pub mod Machine
pub mod Laws
use project_charybdis.Base.{
  ℕ, suc, ◌+◌, ◌-◌, ◌/◌, Bool, true, false, List, [], ◌∷◌, ℤ, pos, leb_int, if◌then◌else◌,
}

pub record CircuitBreakerConfig : Type 0 where
  pub failure_threshold : ℤ
  pub open_duration_ms : ℤ
  pub success_threshold : ℤ

pub data BreakerState : Type 0 where
  k_closed k_open k_half_open : BreakerState

-- The counters are `int` in the source; Laws shows that they stay within the thresholds.
pub record CircuitBreaker : Type 0 where
  pub state : BreakerState
  pub consecutive_failures : ℕ
  pub half_open_successes : ℕ
  pub opened_at : ℕ

-- `opened_at_` starts at the epoch of the clock.
abbrev pub new_breaker : CircuitBreaker
new_breaker = record {
  state = k_closed;
  consecutive_failures = 0;
  half_open_successes = 0;
  opened_at = 0;
}

-- `cfg_.failure_threshold <= 0`
abbrev pub is_disabled : CircuitBreakerConfig → Bool
is_disabled cfg = leb_int cfg.failure_threshold (pos 0)

-- `duration_cast<milliseconds>(now - opened_at_).count()`
abbrev pub elapsed_ms : ℕ → ℕ → ℕ
elapsed_ms now opened_at = (now - opened_at) / 1000000

-- Whether the call may be made; `now` is what the clock shows if it is read.
unfoldable pub allow_call : CircuitBreakerConfig → ℕ → CircuitBreaker → Bool × CircuitBreaker
allow_call cfg now b = if is_disabled cfg then (true, b) else (elim b.state [
  | k_open ↦
      if leb_int cfg.open_duration_ms (pos (elapsed_ms now b.opened_at))
      then (true, record b { state = k_half_open; half_open_successes = 0 })
      else (false, b)
  | _ ↦ (true, b)
])

unfoldable pub record_success : CircuitBreakerConfig → CircuitBreaker → CircuitBreaker
record_success cfg b = if is_disabled cfg then b else (elim b.state [
  | k_half_open ↦
      if leb_int cfg.success_threshold (pos (suc b.half_open_successes))
      then record b { state = k_closed; consecutive_failures = 0; half_open_successes = 0 }
      else record b { half_open_successes = suc b.half_open_successes }
  | _ ↦ record b { consecutive_failures = 0 }
])

unfoldable pub record_failure : CircuitBreakerConfig → ℕ → CircuitBreaker → CircuitBreaker
record_failure cfg now b = if is_disabled cfg then b else (elim b.state [
  | k_half_open ↦ record b { state = k_open; opened_at = now; half_open_successes = 0 }
  | _ ↦
      if leb_int cfg.failure_threshold (pos (suc b.consecutive_failures))
      then record b {
        state = k_open;
        consecutive_failures = suc b.consecutive_failures;
        opened_at = now;
      }
      else record b { consecutive_failures = suc b.consecutive_failures }
])
