-- ===== src/Client/Retry/Laws.antt =====
-- How often `run_with_retry` sends its request, and what it returns.
use project_charybdis.Base.{
  pos_part, ℕ, zero, suc, ◌+◌, ◌≤◌, ◌<◌, ◌==◌, ◌≡◌, refl, Option, none, some, List, [], ◌∷◌, Text,
  ℤ, pos, negsuc, leb_int_iff, ◌≤ℤ◌, arith, ◌⊎◌, inl, inr, ap, true, false,
}
use project_charybdis.Json.{Json}
use project_charybdis.Client.Breaker.{
  CircuitBreakerConfig, CircuitBreaker, allow_call, record_success, record_failure, k_closed,
  k_open, elapsed_ms,
}
use project_charybdis.Client.Retry.{
  Doubles, HttpReply, no_response, HttpRequest, Event, sent, slept, delayed, response_of,
  total_attempts, RetryPolicy, Round, retry_from, run_with_retry, backoff_delay,
}

-- How often something was sent.
abbrev pub sends : List Event → ℕ
sends [] = 0
sends (sent r ∷ es) = suc (sends es)
sends (slept d ∷ es) = sends es

-- The request alone is sent, and between two times there is one delay.
abbrev pub Alternates : HttpRequest → List Event → Type 0
Alternates r [] = Unit
Alternates r (slept d ∷ es) = ⊥
Alternates r (sent q ∷ []) = q ≡ r
Alternates r (sent q ∷ sent p ∷ es) = ⊥
Alternates r (sent q ∷ slept d ∷ es) = (q ≡ r) × Alternates r es

-- The breaker makes `n` calls in a row, whatever becomes of them: it is disabled, or closed with the
-- threshold far enough away.
abbrev pub HasRoom : CircuitBreakerConfig → CircuitBreaker → ℕ → Type 0
HasRoom cfg b n =
    (cfg.failure_threshold ≤ℤ pos 0)
    ⊎ ((b.state ≡ k_closed) × (pos (b.consecutive_failures + n) ≤ℤ cfg.failure_threshold))

HasRoom-one :
    (cfg : CircuitBreakerConfig) (b : CircuitBreaker) (n : ℕ)
    → HasRoom cfg b (suc n)
    → HasRoom cfg b 1
HasRoom-one cfg b n (inl disabled) = inl disabled
HasRoom-one cfg b n (inr (closed, far)) = inr (closed, omega arith)

allow_call-HasRoom :
    (cfg : CircuitBreakerConfig) (b : CircuitBreaker) (now : ℕ)
    → HasRoom cfg b 1
    → allow_call cfg now b ≡ (true, b)
unfolding allow_call
allow_call-HasRoom cfg b now room = ground (arith, leb_int_iff cfg.failure_threshold (pos 0))

failure-HasRoom :
    (cfg : CircuitBreakerConfig) (b : CircuitBreaker) (now n : ℕ)
    → HasRoom cfg b (suc (suc n))
    → HasRoom cfg (record_failure cfg now b) (suc n)
unfolding record_failure
failure-HasRoom cfg b now n room = ground (
  arith,
  leb_int_iff cfg.failure_threshold (pos 0),
  leb_int_iff cfg.failure_threshold (pos (suc b.consecutive_failures)),
)

allow_call-open :
    (cfg : CircuitBreakerConfig) (b : CircuitBreaker) (now : ℕ)
    → pos 1 ≤ℤ cfg.failure_threshold
    → b.state ≡ k_open
    → pos (suc (elapsed_ms now b.opened_at)) ≤ℤ cfg.open_duration_ms
    → allow_call cfg now b ≡ (false, b)
unfolding allow_call
allow_call-open cfg b now enabled o early = ground (
  arith,
  leb_int_iff cfg.failure_threshold (pos 0),
  leb_int_iff cfg.open_duration_ms (pos (elapsed_ms now b.opened_at)),
)

module _ (F : Doubles) (parse : Text → Option Json) (policy : RetryPolicy F)
    (cfg : CircuitBreakerConfig) (request : HttpRequest) (rounds : ℕ → Round F) where
  retry_from-Alternates :
      (left attempt : ℕ) (b : CircuitBreaker)
      → Alternates request (retry_from F parse policy cfg request rounds left attempt b).2
        × (sends (retry_from F parse policy cfg request rounds left attempt b).2 ≤ left)
  unfolding retry_from
  retry_from-Alternates zero attempt b = (tt, omega arith)
  retry_from-Alternates (suc left) attempt b =
      let r = rounds attempt in
      let b' = (allow_call cfg r.asked b).1 in
      ground (arith, retry_from-Alternates left (suc attempt) (record_failure cfg r.ended b'))

  pub answered_round :
      (left attempt : ℕ) (b : CircuitBreaker) (res : HttpReply)
      → HasRoom cfg b 1
      → (rounds attempt).reply ≡ some res
      → retry_from F parse policy cfg request rounds (suc left) attempt b
        ≡ (response_of parse res, record_success cfg b, sent request ∷ [])
  unfolding retry_from
  answered_round left attempt b res room reply =
      let admitted = allow_call-HasRoom cfg b (rounds attempt).asked room in
      rw (ap (λ p. p.0) admitted, reply) (rw (ap (λ p. p.1) admitted) refl)

  pub last_round :
      (attempt : ℕ) (b : CircuitBreaker)
      → HasRoom cfg b 1
      → (rounds attempt).reply ≡ none
      → retry_from F parse policy cfg request rounds 1 attempt b
        ≡ (no_response, record_failure cfg (rounds attempt).ended b, sent request ∷ [])
  unfolding retry_from
  last_round attempt b room reply =
      let admitted = allow_call-HasRoom cfg b (rounds attempt).asked room in
      rw (ap (λ p. p.0) admitted, reply) (rw (ap (λ p. p.1) admitted) refl)

  pub failed_round :
      (left attempt : ℕ) (b : CircuitBreaker)
      → 0 < left
      → HasRoom cfg b 1
      → (rounds attempt).reply ≡ none
      → retry_from F parse policy cfg request rounds (suc left) attempt b
        ≡ delayed request (backoff_delay F policy attempt (rounds attempt).jitter) (
            retry_from F parse policy cfg request rounds left
              (suc attempt)
              (record_failure cfg (rounds attempt).ended b))
  unfolding retry_from
  failed_round left attempt b more room reply =
      let admitted = allow_call-HasRoom cfg b (rounds attempt).asked room in
      let again : (left == 0) ≡ false = ground arith in
      rw (ap (λ p. p.0) admitted, reply, again) (rw (ap (λ p. p.1) admitted) refl)

  -- The attempts from the given one on are not answered, `k` of them.
  abbrev pub Fail : ℕ → ℕ → Type 0
  Fail attempt zero = Unit
  Fail attempt (suc k) = ((rounds attempt).reply ≡ none) × Fail (suc attempt) k

  -- After `k` attempts that are not answered, the next one is.
  abbrev pub FirstReply : ℕ → ℕ → HttpReply → Type 0
  FirstReply attempt zero res = (rounds attempt).reply ≡ some res
  FirstReply attempt (suc k) res = ((rounds attempt).reply ≡ none) × FirstReply (suc attempt) k res

  retry_from-replied :
      (k left attempt : ℕ) (b : CircuitBreaker) (res : HttpReply)
      → HasRoom cfg b left
      → FirstReply attempt k res
      → k < left
      → ((retry_from F parse policy cfg request rounds left attempt b).0 ≡ response_of parse res)
        × (sends (retry_from F parse policy cfg request rounds left attempt b).2 ≡ suc k)
  retry_from-replied k zero attempt b res room replies lt = absurd (omega arith)
  retry_from-replied zero (suc left) attempt b res room replies lt =
      rw (answered_round left attempt b res (HasRoom-one cfg b left room) replies) (refl, refl)
  retry_from-replied (suc k) (suc zero) attempt b res room replies lt = absurd (omega arith)
  retry_from-replied (suc k) (suc (suc left)) attempt b res room (fails, replies) lt =
      let now = (rounds attempt).ended in
      let more = failure-HasRoom cfg b now left room in
      let b' = record_failure cfg now b in
      let ih = retry_from-replied k (suc left) (suc attempt) b' res more replies (omega arith) in
      let one = HasRoom-one cfg b (suc left) room in
      rw (failed_round (suc left) attempt b (omega arith) one fails) (ih.0, ap suc ih.1)

  retry_from-unanswered :
      (left attempt : ℕ) (b : CircuitBreaker)
      → HasRoom cfg b (suc left)
      → Fail attempt (suc left)
      → ((retry_from F parse policy cfg request rounds (suc left) attempt b).0 ≡ no_response)
        × (sends (retry_from F parse policy cfg request rounds (suc left) attempt b).2 ≡ suc left)
  retry_from-unanswered zero attempt b room (fails, rest) =
      rw (last_round attempt b room fails) (refl, refl)
  retry_from-unanswered (suc left) attempt b room (fails, rest) =
      let now = (rounds attempt).ended in
      let more = failure-HasRoom cfg b now left room in
      let ih = retry_from-unanswered left (suc attempt) (record_failure cfg now b) more rest in
      let one = HasRoom-one cfg b (suc left) room in
      rw (failed_round (suc left) attempt b (omega arith) one fails) (ih.0, ap suc ih.1)

  -- The breaker refuses the next round, if there is one.
  pub retry_from-open :
      (left attempt : ℕ) (b : CircuitBreaker)
      → pos 1 ≤ℤ cfg.failure_threshold
      → b.state ≡ k_open
      → pos (suc (elapsed_ms (rounds attempt).asked b.opened_at)) ≤ℤ cfg.open_duration_ms
      → retry_from F parse policy cfg request rounds left attempt b ≡ (no_response, b, [])
  unfolding retry_from
  retry_from-open zero attempt b enabled o early = refl
  retry_from-open (suc left) attempt b enabled o early =
      let refusal = allow_call-open cfg b (rounds attempt).asked enabled o early in
      rw (ap (λ p. p.0) refusal) (rw (ap (λ p. p.1) refusal) refl)

  total_attempts-eq : (n : ℤ) → total_attempts n ≡ suc (pos_part n)
  unfolding total_attempts
  total_attempts-eq (pos n) = refl
  total_attempts-eq (negsuc n) = refl

  pub run_with_retry-eq :
      (b : CircuitBreaker)
      → run_with_retry F parse policy cfg request rounds b
        ≡ retry_from F parse policy cfg request rounds (suc (pos_part policy.max_retries)) 0 b
  unfolding run_with_retry
  run_with_retry-eq b = rw (total_attempts-eq policy.max_retries) refl

  -- The request is sent at most once more than `max_retries`, or once where that is negative;
  -- nothing else is sent, and between two times there is one delay.
  pub run_with_retry-Alternates :
      (b : CircuitBreaker)
      → Alternates request (run_with_retry F parse policy cfg request rounds b).2
        × (sends (run_with_retry F parse policy cfg request rounds b).2
            ≤ suc (pos_part policy.max_retries))
  run_with_retry-Alternates b =
      rw (run_with_retry-eq b) (retry_from-Alternates (suc (pos_part policy.max_retries)) 0 b)

  -- The breaker has room for all attempts of the policy: it is disabled, or closed with the
  -- threshold far enough away. Where the first `k` attempts go unanswered, and the next one, which
  -- the policy still makes, is answered: the response is this answer, and the request was sent
  -- exactly `k + 1` times.
  pub run_with_retry-replied :
      (k : ℕ) (b : CircuitBreaker) (res : HttpReply)
      → HasRoom cfg b (suc (pos_part policy.max_retries))
      → FirstReply 0 k res
      → k ≤ pos_part policy.max_retries
      → ((run_with_retry F parse policy cfg request rounds b).0 ≡ response_of parse res)
        × (sends (run_with_retry F parse policy cfg request rounds b).2 ≡ suc k)
  run_with_retry-replied k b res room replies enough =
      rw (run_with_retry-eq b) (
        retry_from-replied k (suc (pos_part policy.max_retries)) 0 b res room replies (omega arith))

  -- Where no attempt is answered, and the breaker has room for all of them: the response has the
  -- status 0 and no body, and the request was sent as often as the policy allows.
  pub run_with_retry-unanswered :
      (b : CircuitBreaker)
      → HasRoom cfg b (suc (pos_part policy.max_retries))
      → Fail 0 (suc (pos_part policy.max_retries))
      → ((run_with_retry F parse policy cfg request rounds b).0 ≡ no_response)
        × (sends (run_with_retry F parse policy cfg request rounds b).2
            ≡ suc (pos_part policy.max_retries))
  run_with_retry-unanswered b room fails =
      rw (run_with_retry-eq b) (retry_from-unanswered (pos_part policy.max_retries) 0 b room fails)

  -- An enabled breaker that is open, asked before `open_duration_ms` is over: nothing is sent, the
  -- response has the status 0 and no body, and the breaker stays as it was.
  pub run_with_retry-open :
      (b : CircuitBreaker)
      → pos 1 ≤ℤ cfg.failure_threshold
      → b.state ≡ k_open
      → pos (suc (elapsed_ms (rounds 0).asked b.opened_at)) ≤ℤ cfg.open_duration_ms
      → run_with_retry F parse policy cfg request rounds b ≡ (no_response, b, [])
  unfolding run_with_retry
  run_with_retry-open = retry_from-open (total_attempts policy.max_retries) 0
