-- ===== src/Client/Calls.antt =====
-- The methods of `HttpTestClient` in src/http_test_client.cpp. The constants of a client, and
-- `nlohmann::json::parse` and `dump`, are parameters; its breaker is the state. An exception ends
-- its own call alone.
pub mod Filtered
pub mod Gate
pub mod Bypass
pub mod Health
use project_charybdis.Base.{
  ℕ, Bool, true, false, Option, none, some, List, [], ◌∷◌, ◌++◌, Text, codes, text_eq, ℤ, pos,
  eq_int, if◌then◌else◌,
}
use project_charybdis.Json.{Json, str, obj, get}
use project_charybdis.Client.Errors.{
  Returned, returns, throws, CppError, subject_filter_violation, json_type_error, json_parse_error,
  ◌>>=◌,
}
use project_charybdis.Client.Breaker.{CircuitBreakerConfig, CircuitBreaker}
use project_charybdis.Client.Retry.{
  Doubles, Response, HttpRequest, get_message, delete_message, post_message, Event, Run,
  RetryPolicy, Round, run_with_retry,
}
use project_charybdis.Client.Subject.{
  Environment, queue_starve_subject, enforce_queue_starve_subject,
}

abbrev pub starve_path : Text
starve_path = codes "/v1/chaos/queue-starve"

-- What a call returns or throws, the breaker behind it, and what was sent.
abbrev pub Outcome : Type 0 → Type 0
Outcome A = Returned A × CircuitBreaker × List Event

abbrev pub of_run : Run → Outcome Response
of_run r = (returns r.0, r.1, r.2)

-- A check in front of a call: what it throws ends the call before anything is sent.
abbrev pub guarded : {X A : Type 0} → Returned X → CircuitBreaker → (X → Outcome A) → Outcome A
guarded (throws e) b call = (throws e, b, [])
guarded (returns x) b call = call x

-- `body.value("status", "")`
unfoldable pub text_member : Text → Json → Returned Text
text_member k (obj d) = elim (get k d) [
  | none ↦ returns []
  | some (str s) ↦ returns s
  | some _ ↦ throws json_type_error
]
text_member k _ = throws json_type_error

-- `status == 200 && body.value("status", "") == "ok"`
unfoldable pub healthy_response : Response → Returned Bool
healthy_response r =
    if eq_int r.status (pos 200)
    then (text_member (codes "status") r.body >>= λ s. returns (text_eq s (codes "ok")))
    else returns false

-- A client's constants, with the environment and the JSON library that it uses.
pub record Setting (F : Doubles) : Type 0 where
  pub env : Environment
  pub parse : Text → Option Json
  -- What `parse` throws on a text that it refuses.
  pub refusal : Text → CppError
  -- It throws on a text that is not UTF-8.
  pub dump : Json → Returned Text
  pub policy : RetryPolicy F
  pub cfg : CircuitBreakerConfig

-- `catch (const nlohmann::json::parse_error&)`: no other exception is converted.
unfoldable pub converted : CppError → CppError
converted json_parse_error = subject_filter_violation
converted e = e

module _ {F : Doubles} (c : Setting F) where
  abbrev pub retried : HttpRequest → (ℕ → Round F) → CircuitBreaker → Run
  retried = run_with_retry F c.parse c.policy c.cfg

  unfoldable pub get_path : Text → (ℕ → Round F) → CircuitBreaker → Outcome Response
  get_path path rounds b = of_run (retried (get_message path) rounds b)

  unfoldable pub del : Text → (ℕ → Round F) → CircuitBreaker → Outcome Response
  del path rounds b = of_run (retried (delete_message path) rounds b)

  unfoldable pub raw_gate : Text → Text → Returned (Unit {0})
  raw_gate path body =
      if text_eq path starve_path
      then (elim (c.parse body) [
        | some v ↦ enforce_queue_starve_subject c.env (queue_starve_subject v)
        | none ↦ throws (converted (c.refusal body))
      ])
      else returns tt

  unfoldable pub post_raw : Text → Text → Text → (ℕ → Round F) → CircuitBreaker → Outcome Response
  post_raw path body content_type rounds b =
      guarded (raw_gate path body) b
        (λ _. of_run (retried (post_message path body content_type) rounds b))

  unfoldable pub post_gate : Text → Json → Returned (Unit {0})
  post_gate path body =
      if text_eq path starve_path
      then enforce_queue_starve_subject c.env (queue_starve_subject body)
      else returns tt

  unfoldable pub post : Text → Json → (ℕ → Round F) → CircuitBreaker → Outcome Response
  post path body rounds b =
      guarded (post_gate path body >>= λ _. c.dump body) b
        (λ text. post_raw path text (codes "application/json") rounds b)

  unfoldable pub is_healthy : (ℕ → Round F) → CircuitBreaker → Outcome Bool
  is_healthy rounds b =
      let (r, b', events) = retried (get_message (codes "/v1/health")) rounds b in
      (healthy_response r, b', events)

pub data ClientCall : Type 0 where
  get_call del_call : Text → ClientCall
  post_call : Text → Json → ClientCall
  post_raw_call : Text → Text → Text → ClientCall
  health_call : ClientCall

module _ {F : Doubles} (c : Setting F) where
  -- What a call leaves of the breaker, and what it sends.
  unfoldable pub perform : ClientCall → (ℕ → Round F) → CircuitBreaker → CircuitBreaker × List Event
  perform (get_call path) rounds b = let (r, b', es) = get_path c path rounds b in (b', es)
  perform (del_call path) rounds b = let (r, b', es) = del c path rounds b in (b', es)
  perform (post_call path body) rounds b = let (r, b', es) = post c path body rounds b in (b', es)
  perform (post_raw_call path body ct) rounds b =
      let (r, b', es) = post_raw c path body ct rounds b in (b', es)
  perform health_call rounds b = let (r, b', es) = is_healthy c rounds b in (b', es)

  -- The calls of a test in turn.
  unfoldable pub session :
      List (ClientCall × (ℕ → Round F)) → CircuitBreaker → CircuitBreaker × List Event
  session [] b = (b, [])
  session ((call, rounds) ∷ rest) b =
      let (b', es) = perform call rounds b in let (b'', more) = session rest b' in (b'', es ++ more)
