-- ===== src/Client/Calls/Health.antt =====
-- The breaker of a client through any calls.
use project_charybdis.Base.{ℕ, List, [], ◌∷◌, Text, pos, ◌≤ℤ◌}
use project_charybdis.Client.Errors.{Returned, returns, throws, ◌>>=◌}
use project_charybdis.Client.Breaker.{CircuitBreaker, new_breaker}
use project_charybdis.Client.Breaker.Laws.{IsWellFormed, new_breaker-IsWellFormed}
use project_charybdis.Client.Retry.{
  Doubles, HttpRequest, get_message, delete_message, post_message, Round,
}
use project_charybdis.Client.Retry.Health.{run_with_retry-IsWellFormed}
use project_charybdis.Client.Calls.{
  Setting, Outcome, retried, guarded, raw_gate, post_gate, post_raw, post, get_path, del,
  is_healthy, ClientCall, get_call, del_call, post_call, post_raw_call, health_call, perform,
  session,
}

module _ {F : Doubles} (c : Setting F) (enabled : pos 1 ≤ℤ c.cfg.failure_threshold) where
  retried-IsWellFormed :
      (r : HttpRequest) (rounds : ℕ → Round F) (b : CircuitBreaker)
      → IsWellFormed c.cfg b
      → IsWellFormed c.cfg (retried c r rounds b).1
  retried-IsWellFormed r rounds =
      run_with_retry-IsWellFormed F c.parse c.policy c.cfg r rounds enabled

  guarded-IsWellFormed :
      {X A : Type 0} (check : Returned X) (b : CircuitBreaker) (call : X → Outcome A)
      → IsWellFormed c.cfg b
      → ((x : X) → IsWellFormed c.cfg (call x).1)
      → IsWellFormed c.cfg (guarded check b call).1
  guarded-IsWellFormed (throws e) b call h k = h
  guarded-IsWellFormed (returns x) b call h k = k x

  post_raw-IsWellFormed :
      (path body ct : Text) (rounds : ℕ → Round F) (b : CircuitBreaker)
      → IsWellFormed c.cfg b
      → IsWellFormed c.cfg (post_raw c path body ct rounds b).1
  unfolding post_raw
  post_raw-IsWellFormed path body ct rounds b h =
      guarded-IsWellFormed (raw_gate c path body) b _ h
        (λ x. retried-IsWellFormed (post_message path body ct) rounds b h)

  perform-IsWellFormed :
      (call : ClientCall) (rounds : ℕ → Round F) (b : CircuitBreaker)
      → IsWellFormed c.cfg b
      → IsWellFormed c.cfg (perform c call rounds b).0
  unfolding perform get_path del post is_healthy
  perform-IsWellFormed (get_call path) rounds b h =
      retried-IsWellFormed (get_message path) rounds b h
  perform-IsWellFormed (del_call path) rounds b h =
      retried-IsWellFormed (delete_message path) rounds b h
  perform-IsWellFormed (post_call path body) rounds b h =
      guarded-IsWellFormed (post_gate c path body >>= λ _. c.dump body) b _ h
        (λ text. post_raw-IsWellFormed path text _ rounds b h)
  perform-IsWellFormed (post_raw_call path body ct) rounds b h =
      post_raw-IsWellFormed path body ct rounds b h
  perform-IsWellFormed health_call rounds b h = retried-IsWellFormed (get_message _) rounds b h

  session_from-IsWellFormed :
      (calls : List (ClientCall × (ℕ → Round F))) (b : CircuitBreaker)
      → IsWellFormed c.cfg b
      → IsWellFormed c.cfg (session c calls b).0
  unfolding session
  session_from-IsWellFormed [] b h = h
  session_from-IsWellFormed ((call, rounds) ∷ rest) b h =
      session_from-IsWellFormed rest (perform c call rounds b).0
        (perform-IsWellFormed call rounds b h)

  -- Through any calls of a new client whose breaker is enabled: while the breaker is closed, the
  -- failures in a row stay below the threshold; otherwise they are exactly as many. A success is
  -- counted only while it is half open, and the successes stay below the threshold that closes it.
  pub session-IsWellFormed :
      (calls : List (ClientCall × (ℕ → Round F)))
      → IsWellFormed c.cfg (session c calls new_breaker).0
  session-IsWellFormed calls =
      session_from-IsWellFormed calls new_breaker (new_breaker-IsWellFormed c.cfg enabled)
