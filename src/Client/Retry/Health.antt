-- ===== src/Client/Retry/Health.antt =====
-- What the calls of a client leave of its breaker.
use project_charybdis.Base.{
  ℕ, zero, suc, ◌≡◌, true, false, Option, Text, pos, ◌≤ℤ◌, inl, inr, Bool-cases, Option-cases, ◌==◌,
}
use project_charybdis.Json.{Json}
use project_charybdis.Client.Breaker.{
  CircuitBreakerConfig, CircuitBreaker, allow_call, record_success, record_failure,
}
use project_charybdis.Client.Breaker.Machine.{attempt}
use project_charybdis.Client.Breaker.Laws.{IsWellFormed, attempt-IsWellFormed}
use project_charybdis.Client.Retry.{
  Doubles, HttpRequest, total_attempts, RetryPolicy, Round, retry_from, run_with_retry,
}

module _ (cfg : CircuitBreakerConfig) (enabled : pos 1 ≤ℤ cfg.failure_threshold) (now : ℕ)
    (b : CircuitBreaker) (h : IsWellFormed cfg b) where
  refused-IsWellFormed :
      (allow_call cfg now b).0 ≡ false → IsWellFormed cfg (allow_call cfg now b).1
  unfolding attempt
  refused-IsWellFormed refusal =
      rw refusal at
        (attempt-IsWellFormed cfg enabled (record { asked = now; answers = true; ended = 0 }) b h)

  success-IsWellFormed :
      (allow_call cfg now b).0 ≡ true
      → IsWellFormed cfg (record_success cfg (allow_call cfg now b).1)
  unfolding attempt
  success-IsWellFormed admitted =
      rw admitted at
        (attempt-IsWellFormed cfg enabled (record { asked = now; answers = true; ended = 0 }) b h)

  failure-IsWellFormed :
      (ended : ℕ)
      → (allow_call cfg now b).0 ≡ true
      → IsWellFormed cfg (record_failure cfg ended (allow_call cfg now b).1)
  unfolding attempt
  failure-IsWellFormed ended admitted = rw admitted at (
      attempt-IsWellFormed cfg enabled (record { asked = now; answers = false; ended = ended }) b h)

module _ (F : Doubles) (parse : Text → Option Json) (policy : RetryPolicy F)
    (cfg : CircuitBreakerConfig) (request : HttpRequest) (rounds : ℕ → Round F)
    (enabled : pos 1 ≤ℤ cfg.failure_threshold) where
  retry_from-IsWellFormed :
      (left n : ℕ) (b : CircuitBreaker)
      → IsWellFormed cfg b
      → IsWellFormed cfg (retry_from F parse policy cfg request rounds left n b).1
  unfolding retry_from
  retry_from-IsWellFormed zero n b h = h
  retry_from-IsWellFormed (suc left) n b h =
      let r = rounds n in
      elim (Bool-cases (allow_call cfg r.asked b).0) [
        | inr refusal ↦ rw refusal (refused-IsWellFormed cfg enabled r.asked b h refusal)
        | inl admitted ↦
            let failed = failure-IsWellFormed cfg enabled r.asked b h r.ended admitted in
            elim (Option-cases r.reply) [
              | inr (res, e) ↦
                  rw (admitted, e) (success-IsWellFormed cfg enabled r.asked b h admitted)
              | inl e ↦ elim (Bool-cases (left == 0)) [
                | inl last ↦ rw (admitted, e, last) failed
                | inr more ↦
                    rw (admitted, e, more)
                      (retry_from-IsWellFormed left (suc n)
                        (record_failure cfg r.ended (allow_call cfg r.asked b).1) failed)
              ]
            ]
      ]

  pub run_with_retry-IsWellFormed :
      (b : CircuitBreaker)
      → IsWellFormed cfg b
      → IsWellFormed cfg (run_with_retry F parse policy cfg request rounds b).1
  unfolding run_with_retry
  run_with_retry-IsWellFormed = retry_from-IsWellFormed (total_attempts policy.max_retries) 0
