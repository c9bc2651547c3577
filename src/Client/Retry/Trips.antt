-- ===== src/Client/Retry/Trips.antt =====
-- How `run_with_retry` and the circuit breaker act on each other.
use project_charybdis.Base.{
  pos_part, ◌≤◌, ℕ, zero, suc, ◌+◌, ◌<◌, ◌≡◌, refl, Option, Text, pos, leb_int_iff, ◌≤ℤ◌, arith,
  inr, ap,
}
use project_charybdis.Json.{Json}
use project_charybdis.Client.Breaker.{
  CircuitBreakerConfig, CircuitBreaker, record_failure, k_closed, k_open, elapsed_ms,
}
use project_charybdis.Client.Retry.{
  Doubles, no_response, HttpRequest, RetryPolicy, Round, retry_from, run_with_retry,
}
use project_charybdis.Client.Retry.Laws.{
  run_with_retry-eq, sends, HasRoom, Fail, last_round, failed_round, retry_from-open,
}

record_failure-tripped :
    (cfg : CircuitBreakerConfig) (now : ℕ) (b : CircuitBreaker)
    → b.state ≡ k_closed
    → cfg.failure_threshold ≡ pos (suc b.consecutive_failures)
    → record_failure cfg now b ≡ record b {
      state = k_open;
      consecutive_failures = suc b.consecutive_failures;
      opened_at = now;
    }
unfolding record_failure
record_failure-tripped cfg now b closed reach = ground (
  arith,
  leb_int_iff cfg.failure_threshold (pos 0),
  leb_int_iff cfg.failure_threshold (pos (suc b.consecutive_failures)),
)

record_failure-counted :
    (cfg : CircuitBreakerConfig) (now : ℕ) (b : CircuitBreaker)
    → b.state ≡ k_closed
    → pos (suc (suc b.consecutive_failures)) ≤ℤ cfg.failure_threshold
    → record_failure cfg now b ≡ record b { consecutive_failures = suc b.consecutive_failures }
unfolding record_failure
record_failure-counted cfg now b closed below = ground (
  arith,
  leb_int_iff cfg.failure_threshold (pos 0),
  leb_int_iff cfg.failure_threshold (pos (suc b.consecutive_failures)),
)

reach-HasRoom :
    (cfg : CircuitBreakerConfig) (k : ℕ) (b : CircuitBreaker)
    → b.state ≡ k_closed
    → cfg.failure_threshold ≡ pos (suc (b.consecutive_failures + k))
    → HasRoom cfg b 1
reach-HasRoom cfg k b closed reach = inr (closed, ground arith)

module _ (F : Doubles) (parse : Text → Option Json) (policy : RetryPolicy F)
    (cfg : CircuitBreakerConfig) (request : HttpRequest) (rounds : ℕ → Round F) where
  -- The attempt behind the given one and `k` further ones comes before the breaker, which that one
  -- opened, lets a probe through.
  abbrev pub ComesEarly : ℕ → ℕ → Type 0
  ComesEarly attempt zero =
      pos (suc (elapsed_ms (rounds (suc attempt)).asked (rounds attempt).ended))
      ≤ℤ cfg.open_duration_ms
  ComesEarly attempt (suc k) = ComesEarly (suc attempt) k

  retry_from-tripped :
      (k left attempt : ℕ) (b : CircuitBreaker)
      → b.state ≡ k_closed
      → cfg.failure_threshold ≡ pos (suc (b.consecutive_failures + k))
      → k < left
      → Fail F parse policy cfg request rounds attempt (suc k)
      → (suc k < left → ComesEarly attempt k)
      → ((retry_from F parse policy cfg request rounds left attempt b).0 ≡ no_response)
        × ((retry_from F parse policy cfg request rounds left attempt b).1.state ≡ k_open)
        × (sends (retry_from F parse policy cfg request rounds left attempt b).2 ≡ suc k)
  retry_from-tripped k zero attempt b closed reach lt fails early = absurd (omega arith)
  retry_from-tripped zero (suc zero) attempt b closed reach lt fails early =
      let room = reach-HasRoom cfg 0 b closed reach in
      rw
        (
          last_round F parse policy cfg request rounds attempt b room fails.0,
          record_failure-tripped cfg (rounds attempt).ended b closed (ground arith),
        )
        (refl, refl, refl)
  retry_from-tripped zero (suc (suc left)) attempt b closed reach lt fails early =
      let now = (rounds attempt).ended in
      let b' = record b {
        state = k_open;
        consecutive_failures = suc b.consecutive_failures;
        opened_at = now;
      } in
      let enabled : pos 1 ≤ℤ cfg.failure_threshold = ground arith in
      let room = reach-HasRoom cfg 0 b closed reach in
      rw
        (
          failed_round F parse policy cfg request rounds (suc left) attempt b (omega arith) room
              fails.0,
          record_failure-tripped cfg now b closed (ground arith),
          retry_from-open F parse policy cfg request rounds (suc left) (suc attempt) b' enabled refl
              (early (omega arith)),
        )
        (refl, refl, refl)
  retry_from-tripped (suc k) (suc left) attempt b closed reach lt fails early =
      let now = (rounds attempt).ended in
      let b' = record b { consecutive_failures = suc b.consecutive_failures } in
      let room = reach-HasRoom cfg (suc k) b closed reach in
      let reach' : cfg.failure_threshold ≡ pos (suc (suc b.consecutive_failures + k)) =
        ground arith in
      let ih =
        retry_from-tripped k left (suc attempt) b' closed reach' (omega arith) fails.1
          (λ h. early (omega arith)) in
      rw
        (
          failed_round F parse policy cfg request rounds left attempt b (omega arith) room fails.0,
          record_failure-counted cfg now b closed (ground arith),
        )
        (ih.0, ih.1, ap suc ih.2)

  -- An enabled breaker that is closed and trips within the attempts of the policy: where the server
  -- does not answer, the request is sent exactly as often as reaches the threshold, the breaker
  -- opens, and the response has the status 0 and no body. The next attempt of the policy, if there is
  -- one, comes before `open_duration_ms` is over.
  pub run_with_retry-tripped :
      (k : ℕ) (b : CircuitBreaker)
      → b.state ≡ k_closed
      → cfg.failure_threshold ≡ pos (suc (b.consecutive_failures + k))
      → k ≤ pos_part policy.max_retries
      → Fail F parse policy cfg request rounds 0 (suc k)
      → (k < pos_part policy.max_retries → ComesEarly 0 k)
      → ((run_with_retry F parse policy cfg request rounds b).0 ≡ no_response)
        × ((run_with_retry F parse policy cfg request rounds b).1.state ≡ k_open)
        × (sends (run_with_retry F parse policy cfg request rounds b).2 ≡ suc k)
  run_with_retry-tripped k b closed reach enough fails early =
      rw (run_with_retry-eq F parse policy cfg request rounds b) (
        retry_from-tripped k (suc (pos_part policy.max_retries)) 0 b closed reach (omega arith)
          fails (λ h. early (omega arith)))
