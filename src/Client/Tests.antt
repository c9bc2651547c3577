-- ===== src/Client/Tests.antt =====
-- The client on concrete inputs: whole numbers for `double`, and a JSON library that knows two bodies.
use project_charybdis.Base.{
  ◌≡◌, refl, ℕ, zero, suc, ◌*◌, ◌+◌, ltb, Bool, true, false, Option, none, some, List, [], ◌∷◌,
  Text, codes, text_eq, pos, pos_part, if◌then◌else◌, starts_with, split_on,
}
use project_charybdis.Json.{Json, str, obj, end, field, get, has_field}
use project_charybdis.Client.Errors.{
  returns, throws, subject_filter_violation, subject_filter_config_error, runtime_error,
  json_type_error, json_parse_error,
}
use project_charybdis.Client.Breaker.{
  CircuitBreakerConfig, CircuitBreaker, k_closed, k_half_open, new_breaker, allow_call,
  record_success, record_failure,
}
use project_charybdis.Client.Breaker.Machine.{Attempt, refused, answered, failed, attempt, attempts}
use project_charybdis.Client.Retry.{
  Doubles, HttpReply, get_message, sent, slept, one_field, RetryPolicy, Round, total_attempts,
  grown, backoff_delay, retry_from, run_with_retry, response_of, parse_reply,
}
use project_charybdis.Client.Subject.{
  Environment, subject_filter_disabled, subject_prefix, subject_allowed, require_subject_allowed,
  queue_starve_subject, enforce_queue_starve_subject,
}
use project_charybdis.Client.Calls.{
  Setting, starve_path, post_raw, raw_gate, text_member, healthy_response,
}
use project_charybdis.Client.Url.{
  TimeoutConfig, http_test_client, host_port, url_match, authority_match, at_colon, stoi_digits,
}
use project_charybdis.Client.Helpers.{
  nats_url, digits_before, to_string, random_suffix, describe_payload, chaos_recovery_timeout,
  positive_or_default, stoi, extract_agent_id, agent_member, wait_until, wait_from, is_within,
}
use project_charybdis.Client.Audit.{audit_path, goes_to_stderr}

-- A breaker that opens after three failures for a second and closes after two probes.
abbrev pub cfg : CircuitBreakerConfig
cfg = record { failure_threshold = pos 3; open_duration_ms = pos 1000; success_threshold = pos 2 }

abbrev pub no_breaker : CircuitBreakerConfig
no_breaker = record {
  failure_threshold = pos 0;
  open_duration_ms = pos 10000;
  success_threshold = pos 2;
}

-- The milliseconds of a time point.
abbrev pub ms : ℕ → ℕ
ms n = n * 1000000

abbrev pub attempt_at : ℕ → Bool → Attempt
attempt_at n replied = record { asked = ms n; answers = replied; ended = ms (n + 1) }

-- Three failures open the breaker; it refuses for a second, and two probes close it again.
abbrev pub outage : List Attempt
outage =
    attempt_at 0 false
    ∷ attempt_at 10 false
    ∷ attempt_at 20 false
    ∷ attempt_at 500 true
    ∷ attempt_at 1021 true
    ∷ attempt_at 1030 true
    ∷ []

outage_outcomes :
    (attempts cfg outage new_breaker).0
    ≡ failed ∷ failed ∷ failed ∷ refused ∷ answered ∷ answered ∷ []
unfolding attempts attempt allow_call record_success record_failure
outage_outcomes = refl

outage_closed : (attempts cfg outage new_breaker).1.state ≡ k_closed
unfolding attempts attempt allow_call record_success record_failure
outage_closed = refl

abbrev pub half_open : CircuitBreaker
half_open = record {
  state = k_half_open;
  consecutive_failures = 3;
  half_open_successes = 0;
  opened_at = 0;
}

-- In half open, a further call is allowed before the first has ended.
half_open_twice : allow_call cfg (ms 2000) half_open ≡ (true, half_open)
unfolding allow_call
half_open_twice = refl

abbrev pub wholes : Doubles
wholes = record { Double = ℕ; of_int = pos_part; times = λ x y. x * y; less = ltb; to_int = pos }

abbrev pub policy : RetryPolicy wholes
policy = record {
  max_retries = pos 3;
  base_delay_ms = pos 400;
  max_delay_ms = pos 2000;
  backoff_mult = 2;
}

abbrev pub fails_at : ℕ → Round wholes
fails_at n = record { asked = ms n; reply = none; ended = ms (n + 5); jitter = 1 }

abbrev pub never : ℕ → Round wholes
never n = fails_at (n * 10)

abbrev pub good : HttpReply
good = record { status = pos 200; content = codes "ok" }

-- The third attempt is answered.
abbrev pub third : ℕ → Round wholes
third (suc (suc zero)) = record { asked = ms 20; reply = some good; ended = 0; jitter = 1 }
third n = never n

abbrev pub subject_body : Text → Json
subject_body s = one_field (codes "subject") s

abbrev pub test_subject : Text
test_subject = codes "charybdis.t1"

abbrev pub sample_parse : Text → Option Json
sample_parse s =
    if text_eq s (codes "T")
    then some (subject_body test_subject)
    else if text_eq s (codes "P")
    then some (subject_body (codes "prod.orders"))
    else none

-- The environment sets nothing; the default prefix is "charybdis.".
abbrev pub quiet_env : Environment
quiet_env = record { getenv = λ k. none; default_subject_prefix = codes "charybdis." }

abbrev pub setting : CircuitBreakerConfig → Setting wholes
setting c = record {
  env = quiet_env;
  parse = sample_parse;
  refusal = λ s. json_parse_error;
  dump = λ v. returns (codes "T");
  policy = policy;
  cfg = c;
}

third_answered :
    run_with_retry wholes sample_parse policy no_breaker
      (get_message (codes "/x"))
      third
      new_breaker
    ≡ (
      response_of sample_parse good,
      new_breaker,
      sent (get_message (codes "/x"))
          ∷ slept (pos 400)
          ∷ sent (get_message (codes "/x"))
          ∷ slept (pos 800)
          ∷ sent (get_message (codes "/x"))
          ∷ [],
    )
unfolding run_with_retry retry_from total_attempts backoff_delay grown allow_call record_success
    record_failure parse_reply
third_answered = refl

foreign_refused :
    post_raw (setting cfg) starve_path (codes "P") (codes "application/json") never new_breaker
    ≡ (throws subject_filter_violation, new_breaker, [])
unfolding post_raw raw_gate enforce_queue_starve_subject require_subject_allowed subject_allowed
    subject_prefix subject_filter_disabled queue_starve_subject text_eq get starts_with
foreign_refused = refl

empty_prefix :
    require_subject_allowed
      (record {
        getenv = λ k. if text_eq k (codes "CHARYBDIS_SUBJECT_PREFIX") then some [] else none;
        default_subject_prefix = codes "x";
      })
      test_subject
    ≡ throws subject_filter_config_error
unfolding require_subject_allowed subject_prefix subject_filter_disabled text_eq
empty_prefix = refl

abbrev pub timeouts : TimeoutConfig
timeouts = record { connection_timeout_sec = pos 5; read_timeout_sec = pos 10 }

urls :
    (http_test_client (codes "https://agamemnon:08443") timeouts
      ≡ returns (record { host = codes "agamemnon"; port = 8443 }))
    × (http_test_client (codes "http://agamemnon:70000") timeouts ≡ throws runtime_error)
    × (http_test_client (codes "http://agamemnon:80/") timeouts
        ≡ returns (record { host = codes "localhost"; port = 8080 }))
unfolding http_test_client host_port url_match authority_match at_colon stoi_digits starts_with
urls = (refl, refl, refl)

-- A response that is no object, to a client that asks for the health.
healthy_list :
    healthy_response (record { status = pos 200; body = str (codes "ok") }) ≡ throws json_type_error
unfolding healthy_response text_member
healthy_list = refl

abbrev pub set_to : Text → Environment
set_to v = record { getenv = λ k. some v; default_subject_prefix = codes "charybdis." }

timeouts_read :
    (chaos_recovery_timeout (set_to (codes " 45s")) ≡ 45)
    × (chaos_recovery_timeout (set_to (codes "-3")) ≡ 10)
    × (chaos_recovery_timeout (set_to (codes "99999999999")) ≡ 10)
unfolding chaos_recovery_timeout positive_or_default stoi
timeouts_read = (refl, refl, refl)

-- The first two are cases of test_helpers_unit.cpp; the third is a time in milliseconds.
texts_written :
    (describe_payload (codes "secret-content") ≡ codes "payload(len=14)")
    × (describe_payload [] ≡ codes "payload(len=0)")
    × (random_suffix 1700000000123456789 ≡ codes "1700000000123")
unfolding describe_payload random_suffix to_string digits_before
texts_written = (refl, refl, refl)

urls_default :
    (nats_url (set_to (codes "nats://a:1")) ≡ codes "nats://a:1")
    × (nats_url quiet_env ≡ codes "nats://localhost:4222")
unfolding nats_url
urls_default = (refl, refl)

agents :
    (extract_agent_id
        (obj (field (codes "agent") (obj (field (codes "id") (str (codes "a1")) end)) end))
      ≡ returns (codes "a1"))
    × (extract_agent_id (obj end) ≡ throws json_type_error)
unfolding extract_agent_id agent_member text_member has_field text_eq get
agents = (refl, refl)

-- The condition holds in the third round.
waited : wait_until (λ i. ltb 1 i) (λ i. ms (500 * i)) 0 (pos 2) 5 ≡ some true
unfolding wait_until wait_from is_within
waited = refl

timed_out : wait_until (λ i. false) (λ i. ms (500 * i)) 0 (pos 2) 5 ≡ some false
unfolding wait_until wait_from is_within
timed_out = refl

traversal :
    (audit_path (set_to (codes "logs/../x")) (λ f. true) ≡ [])
    × (audit_path (set_to (codes "logs/audit.jsonl")) (λ f. true) ≡ codes "logs/audit.jsonl")
unfolding audit_path goes_to_stderr text_eq split_on
traversal = (refl, refl)
