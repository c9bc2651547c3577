-- ===== src/Client/Retry.antt =====
-- `run_with_retry` of src/http_test_client.cpp: a request is sent until it is answered, with a growing
-- delay between two attempts, under the circuit breaker. Floating-point numbers are a parameter, and so
-- is `nlohmann::json::parse`, with a refused text as `none`; what the clock, the server and the random
-- generator do in each attempt is an argument, and what is sent and slept is listed.
pub mod Laws
pub mod Trips
pub mod Health
use project_charybdis.Base.{
  ℕ, zero, suc, ◌*◌, ◌==◌, ltb, length, Bool, true, false, Option, none, some, List, [], ◌∷◌, Text,
  codes, ℤ, pos, negsuc, if◌then◌else◌,
}
use project_charybdis.Json.{Json, null, str, obj, end, field}
use project_charybdis.Client.Breaker.{
  CircuitBreakerConfig, CircuitBreaker, allow_call, record_success, record_failure,
}

-- `double`, with the operations that the delay takes.
pub record Doubles : Type 1 where
  pub Double : Type 0
  pub of_int : ℤ → Double
  pub times : Double → Double → Double
  pub less : Double → Double → Bool
  pub to_int : Double → ℤ

pub record HttpReply : Type 0 where
  pub status : ℤ
  pub content : Text

pub record Response : Type 0 where
  pub status : ℤ
  pub body : Json

-- `{0, {}}`
abbrev pub no_response : Response
no_response = record { status = pos 0; body = null }

-- What `client_->Get`, `client_->Post` and `client_->Delete` send.
pub data HttpRequest : Type 0 where
  get_message delete_message : Text → HttpRequest
  -- with the path, the body and its content type
  post_message : Text → Text → Text → HttpRequest

pub data Event : Type 0 where
  sent : HttpRequest → Event
  slept : ℤ → Event

-- A response, the breaker behind it, and what happened on the way.
abbrev pub Run : Type 0
Run = Response × CircuitBreaker × List Event

-- A request without an answer and a delay, in front of the further attempts.
abbrev pub delayed : HttpRequest → ℤ → Run → Run
delayed request delay rest = (rest.0, rest.1, sent request ∷ slept delay ∷ rest.2)

-- `kMaxBodyBytes`
abbrev pub max_body_bytes : ℕ
max_body_bytes = 10 * 1024 * 1024

abbrev pub one_field : Text → Text → Json
one_field k v = obj (field k (str v) end)

unfoldable pub parse_reply : (Text → Option Json) → HttpReply → Json
parse_reply parse res =
    if ltb max_body_bytes (length res.content)
    then one_field (codes "error") (codes "response_too_large")
    else elim (parse res.content) [ some v ↦ v | none ↦ one_field (codes "raw") res.content ]

-- `{res->status, parse_body(*res)}`
abbrev pub response_of : (Text → Option Json) → HttpReply → Response
response_of parse res = record { status = res.status; body = parse_reply parse res }

-- `std::max(1, policy.max_retries + 1)`, below the largest `int`
unfoldable pub total_attempts : ℤ → ℕ
total_attempts (pos n) = suc n
total_attempts (negsuc n) = 1

module _ (F : Doubles) where
  open F use {Double, of_int, times, less, to_int}

  pub record RetryPolicy : Type 0 where
    pub max_retries : ℤ
    pub base_delay_ms : ℤ
    pub max_delay_ms : ℤ
    pub backoff_mult : Double

  -- One attempt: what the clock shows when the breaker is asked and when a failure is recorded, the
  -- server's reply, and the jitter that is drawn.
  pub record Round : Type 0 where
    pub asked : ℕ
    pub reply : Option HttpReply
    pub ended : ℕ
    pub jitter : Double

  -- `for (int i = 0; i < attempt; ++i) delay *= policy.backoff_mult;`
  unfoldable pub grown : Double → ℕ → Double → Double
  grown mult zero delay = delay
  grown mult (suc attempt) delay = grown mult attempt (times delay mult)

  -- `std::min(delay, cap)`
  abbrev pub min_double : Double → Double → Double
  min_double delay cap = if less cap delay then cap else delay

  unfoldable pub backoff_delay : RetryPolicy → ℕ → Double → ℤ
  backoff_delay policy attempt jitter = to_int (
      times
        (min_double (grown policy.backoff_mult attempt (of_int policy.base_delay_ms))
          (of_int policy.max_delay_ms))
        jitter)

  -- The attempts from the given one on, `left` of them.
  unfoldable pub retry_from :
      (Text → Option Json)
      → RetryPolicy
      → CircuitBreakerConfig
      → HttpRequest
      → (ℕ → Round)
      → ℕ
      → ℕ
      → CircuitBreaker
      → Run
  retry_from parse policy cfg request rounds zero attempt b = (no_response, b, [])
  retry_from parse policy cfg request rounds (suc left) attempt b =
      let round = rounds attempt in
      let (allowed, b') = allow_call cfg round.asked b in
      let failed = record_failure cfg round.ended b' in
      let rest = retry_from parse policy cfg request rounds left (suc attempt) failed in
      if allowed
      then (elim round.reply [
        | some res ↦ (response_of parse res, record_success cfg b', sent request ∷ [])
        | none ↦
            if left == 0
            then (no_response, failed, sent request ∷ [])
            else delayed request (backoff_delay policy attempt round.jitter) rest
      ])
      else (no_response, b', [])

  unfoldable pub run_with_retry :
      (Text → Option Json)
      → RetryPolicy
      → CircuitBreakerConfig
      → HttpRequest
      → (ℕ → Round)
      → CircuitBreaker
      → Run
  run_with_retry parse policy cfg request rounds b =
      retry_from parse policy cfg request rounds (total_attempts policy.max_retries) 0 b
