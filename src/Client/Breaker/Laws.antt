-- ===== src/Client/Breaker/Laws.antt =====
-- What holds of a breaker between two calls.
use project_charybdis.Base.{
  suc, ◌+◌, ◌<◌, ◌≡◌, refl, false, List, [], ◌∷◌, pos, leb_int_iff, ◌≤ℤ◌, arith, All, map, length,
  ◌++◌,
}
use project_charybdis.Client.Breaker.{
  CircuitBreakerConfig, k_closed, k_open, k_half_open, CircuitBreaker, new_breaker, elapsed_ms,
  allow_call, record_success, record_failure,
}
use project_charybdis.Client.Breaker.Machine.{
  Attempt, refused, failed, attempt, attempts, view, Step, pass, fail_below, trip, refuse, recover,
  advance, reopen, probe, Trace, done, then, closed_after,
}

-- Closed: fewer failures in a row than the threshold. Otherwise exactly as many, and half open fewer
-- successes than close it; the successes are counted nowhere else.
pub record IsWellFormed (cfg : CircuitBreakerConfig) (b : CircuitBreaker) : Type 0 where
  pub closed_below : b.state ≡ k_closed → pos (suc b.consecutive_failures) ≤ℤ cfg.failure_threshold
  pub open_at : b.state ≡ k_open → pos b.consecutive_failures ≡ cfg.failure_threshold
  pub probing_at : b.state ≡ k_half_open → pos b.consecutive_failures ≡ cfg.failure_threshold
  pub closed_fresh : b.state ≡ k_closed → b.half_open_successes ≡ 0
  pub open_fresh : b.state ≡ k_open → b.half_open_successes ≡ 0
  pub probing_below :
      b.state ≡ k_half_open
      → 0 < b.half_open_successes
      → pos (suc b.half_open_successes) ≤ℤ cfg.success_threshold

module _ (cfg : CircuitBreakerConfig) (enabled : pos 1 ≤ℤ cfg.failure_threshold) where
  pub attempt-IsWellFormed :
      (a : Attempt) (b : CircuitBreaker) → IsWellFormed cfg b → IsWellFormed cfg (attempt cfg a b).1
  unfolding attempt allow_call record_success record_failure
  attempt-IsWellFormed a b h = ground (arith, leb_int_iff cfg.failure_threshold (pos 0))

  pub attempt-Step :
      (a : Attempt) (b : CircuitBreaker)
      → IsWellFormed cfg b
      → Step cfg a (view b) (attempt cfg a b).0 (view (attempt cfg a b).1)
  unfolding attempt allow_call record_success record_failure view
  attempt-Step a b h =
      grind (arith, pass, fail_below, trip, refuse, recover, advance, reopen, probe)

  pub attempts-Trace :
      (calls : List Attempt) (b : CircuitBreaker)
      → IsWellFormed cfg b
      → IsWellFormed cfg (attempts cfg calls b).1
        × Trace cfg calls (view b) (attempts cfg calls b).0 (view (attempts cfg calls b).1)
  unfolding attempts
  attempts-Trace [] b h = (h, done)
  attempts-Trace (a ∷ rest) b h =
      let (h', t) = attempts-Trace rest (attempt cfg a b).1 (attempt-IsWellFormed a b h) in
      (h', then (attempt-Step a b h) t)

  pub new_breaker-IsWellFormed : IsWellFormed cfg new_breaker
  new_breaker-IsWellFormed = ground arith

  -- An enabled breaker, from its start and through any calls, is the three-state machine: each call
  -- is a step of it, and behind them the failures in a row and the successes of the probes are
  -- within their thresholds.
  pub attempts-Machine :
      (calls : List Attempt)
      → IsWellFormed cfg (attempts cfg calls new_breaker).1
        × Trace cfg calls
            (closed_after 0)
            (attempts cfg calls new_breaker).0
            (view (attempts cfg calls new_breaker).1)
  unfolding view
  attempts-Machine calls = attempts-Trace calls new_breaker new_breaker-IsWellFormed

  attempt-refused :
      (a : Attempt) (b : CircuitBreaker)
      → b.state ≡ k_open
      → pos (suc (elapsed_ms a.asked b.opened_at)) ≤ℤ cfg.open_duration_ms
      → attempt cfg a b ≡ (refused, b)
  unfolding attempt allow_call record_success record_failure
  attempt-refused a b o early = ground (
    arith,
    leb_int_iff cfg.failure_threshold (pos 0),
    leb_int_iff cfg.open_duration_ms (pos (elapsed_ms a.asked b.opened_at)),
  )

  -- While an enabled breaker is open, each call before `open_duration_ms` is over is refused, and
  -- however many there are, they leave the breaker as it was.
  pub attempts-refused :
      (calls : List Attempt) (b : CircuitBreaker)
      → b.state ≡ k_open
      → All (λ a. pos (suc (elapsed_ms a.asked b.opened_at)) ≤ℤ cfg.open_duration_ms) calls
      → attempts cfg calls b ≡ (map (λ _. refused) calls, b)
  unfolding attempts
  attempts-refused [] b o h = refl
  attempts-refused (a ∷ rest) b o (early, h) =
      rw (attempt-refused a b o early, attempts-refused rest b o h) refl

  attempt-counted :
      (a : Attempt) (b : CircuitBreaker)
      → b.state ≡ k_closed
      → a.answers ≡ false
      → pos (suc (suc b.consecutive_failures)) ≤ℤ cfg.failure_threshold
      → attempt cfg a b ≡ (failed, record b { consecutive_failures = suc b.consecutive_failures })
  unfolding attempt allow_call record_failure
  attempt-counted a b c h below = ground (
    arith,
    leb_int_iff cfg.failure_threshold (pos 0),
    leb_int_iff cfg.failure_threshold (pos (suc b.consecutive_failures)),
  )

  attempt-tripped :
      (a : Attempt) (b : CircuitBreaker)
      → b.state ≡ k_closed
      → a.answers ≡ false
      → cfg.failure_threshold ≡ pos (suc b.consecutive_failures)
      → attempt cfg a b ≡ (
        failed,
        record b {
          state = k_open;
          consecutive_failures = suc b.consecutive_failures;
          opened_at = a.ended;
        },
      )
  unfolding attempt allow_call record_failure
  attempt-tripped a b c h reach = ground (
    arith,
    leb_int_iff cfg.failure_threshold (pos 0),
    leb_int_iff cfg.failure_threshold (pos (suc b.consecutive_failures)),
  )

  -- An enabled breaker that is closed: as many further calls without an answer as reach the
  -- threshold are all made, and the last of them opens it, at the time when that call ended. One
  -- call fewer leaves it closed.
  pub attempts-tripped :
      (calls : List Attempt) (last : Attempt) (b : CircuitBreaker)
      → b.state ≡ k_closed
      → All (λ a. a.answers ≡ false) calls
      → last.answers ≡ false
      → cfg.failure_threshold ≡ pos (suc (b.consecutive_failures + length calls))
      → ((attempts cfg calls b).1.state ≡ k_closed)
        × (attempts cfg (calls ++ last ∷ []) b ≡ (
          map (λ _. failed) (calls ++ last ∷ []),
          record b {
            state = k_open;
            consecutive_failures = suc (b.consecutive_failures + length calls);
            opened_at = last.ended;
          },
        ))
  unfolding attempts
  attempts-tripped [] last b c all h reach = ground (arith, attempt-tripped last b)
  attempts-tripped (a ∷ rest) last b c (fails, all) h reach =
      let b' = record b { consecutive_failures = suc b.consecutive_failures } in
      ground (arith, attempt-counted a b, attempts-tripped rest last b')
