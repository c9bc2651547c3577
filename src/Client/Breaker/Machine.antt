-- ===== src/Client/Breaker/Machine.antt =====
-- The three-state breaker that the comment on `CircuitBreaker` describes, as a step relation, and a
-- call under a breaker as `run_with_retry` makes it.
use project_charybdis.Base.{ℕ, suc, ◌≡◌, Bool, true, false, List, [], ◌∷◌, pos, ◌≤ℤ◌, if◌then◌else◌}
use project_charybdis.Client.Breaker.{
  CircuitBreakerConfig, k_closed, k_open, k_half_open, CircuitBreaker, elapsed_ms, allow_call,
  record_success, record_failure,
}

-- One call: when the breaker is asked, whether the server would answer, and when it did not.
pub record Attempt : Type 0 where
  pub asked : ℕ
  pub answers : Bool
  pub ended : ℕ

pub data Outcome : Type 0 where
  refused answered failed : Outcome

unfoldable pub attempt : CircuitBreakerConfig → Attempt → CircuitBreaker → Outcome × CircuitBreaker
attempt cfg a b =
    let (allowed, b') = allow_call cfg a.asked b in
    if allowed
    then (if a.answers
        then (answered, record_success cfg b')
        else (failed, record_failure cfg a.ended b'))
    else (refused, b')

-- The calls in turn: what became of each, and the breaker behind them.
unfoldable pub attempts :
    CircuitBreakerConfig → List Attempt → CircuitBreaker → List Outcome × CircuitBreaker
unfolding attempt
attempts cfg [] b = ([], b)
attempts cfg (a ∷ rest) b =
    let (o, b') = attempt cfg a b in let (os, b'') = attempts cfg rest b' in (o ∷ os, b'')

-- What a state stands for: the failures in a row, when it opened, or the probes that succeeded.
pub data View : Type 0 where
  closed_after : ℕ → View
  open_since : ℕ → View
  probing : ℕ → View

unfoldable pub view : CircuitBreaker → View
view b = elim b.state [
  | k_closed ↦ closed_after b.consecutive_failures
  | k_open ↦ open_since b.opened_at
  | k_half_open ↦ probing b.half_open_successes
]

-- `Step cfg a v o w`: the call `a` in the state `v` has the outcome `o` and leads to `w`.
pub data Step (cfg : CircuitBreakerConfig) (a : Attempt) : View → Outcome → View → Type 0 where
  pass : {n : ℕ} → a.answers ≡ true → Step cfg a (closed_after n) answered (closed_after 0)
  fail_below :
      {n : ℕ}
      → a.answers ≡ false
      → pos (suc (suc n)) ≤ℤ cfg.failure_threshold
      → Step cfg a (closed_after n) failed (closed_after (suc n))
  trip :
      {n : ℕ}
      → a.answers ≡ false
      → cfg.failure_threshold ≡ pos (suc n)
      → Step cfg a (closed_after n) failed (open_since a.ended)
  refuse :
      {t : ℕ}
      → pos (suc (elapsed_ms a.asked t)) ≤ℤ cfg.open_duration_ms
      → Step cfg a (open_since t) refused (open_since t)
  recover :
      {n : ℕ}
      → a.answers ≡ true
      → cfg.success_threshold ≤ℤ pos (suc n)
      → Step cfg a (probing n) answered (closed_after 0)
  advance :
      {n : ℕ}
      → a.answers ≡ true
      → pos (suc (suc n)) ≤ℤ cfg.success_threshold
      → Step cfg a (probing n) answered (probing (suc n))
  reopen : {n : ℕ} → a.answers ≡ false → Step cfg a (probing n) failed (open_since a.ended)
  -- Once the time is over, the call is a probe.
  probe :
      {t : ℕ} {o : Outcome} {v : View}
      → cfg.open_duration_ms ≤ℤ pos (elapsed_ms a.asked t)
      → Step cfg a (probing 0) o v
      → Step cfg a (open_since t) o v

-- The calls in turn, each a step.
pub data Trace (cfg : CircuitBreakerConfig)
    : List Attempt → View → List Outcome → View → Type 0 where
  done : {v : View} → Trace cfg [] v [] v
  then :
      {a : Attempt} {rest : List Attempt} {o : Outcome} {os : List Outcome} {v w x : View}
      → Step cfg a v o w
      → Trace cfg rest w os x
      → Trace cfg (a ∷ rest) v (o ∷ os) x
