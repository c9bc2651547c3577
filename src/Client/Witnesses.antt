-- ===== src/Client/Witnesses.antt =====
-- The theorems about the client at inputs that meet their hypotheses.
use project_charybdis.Base.{
  length, ◌↔◌, ◌≡◌, ◌≢◌, ◌≤◌, inl, inr, refl, ℕ, ◌*◌, Bool, true, false, none, some, List, [], ◌∷◌,
  ◌++◌, codes, pos, All, arith, split_on, insert, text_eq, is_digit, ltb, starts_with,
}
use project_charybdis.Json.{obj, end, get, truthy, int_of_text}
use project_charybdis.Mock.State.{fresh_server}
use project_charybdis.Mock.Request.{Request, parse_body, declared_length, read_body}
use project_charybdis.Mock.Handler.{base_fault, do_post}
use project_charybdis.Client.Errors.{returns, throws, subject_filter_violation, json_type_error}
use project_charybdis.Client.Breaker.{k_open, new_breaker}
use project_charybdis.Client.Breaker.Machine.{Trace, attempts, view, closed_after}
use project_charybdis.Client.Breaker.Laws.{IsWellFormed, attempts-Machine}
use project_charybdis.Client.Retry.{
  Round, no_response, get_message, post_message, Event, sent, response_of, parse_reply,
  run_with_retry,
}
use project_charybdis.Client.Retry.Laws.{
  sends, Alternates, run_with_retry-Alternates, run_with_retry-replied,
}
use project_charybdis.Client.Retry.Trips.{run_with_retry-tripped}
use project_charybdis.Client.Subject.{queue_starve_subject, subject_prefix, subject_filter_disabled}
use project_charybdis.Client.Calls.{
  ClientCall, starve_path, post, post_raw, post_call, post_raw_call, health_call, session,
}
use project_charybdis.Client.Calls.Filtered.{IsNamespaced, IsFiltered, session-IsFiltered}
use project_charybdis.Client.Calls.Gate.{foreign, starts_with-eq_append, post-refused}
use project_charybdis.Client.Calls.Bypass.{queried, post_raw-bypass}
use project_charybdis.Client.Calls.Health.{session-IsWellFormed}
use project_charybdis.Client.Url.{http_test_client}
use project_charybdis.Client.Url.Laws.{with_port, http_test_client-written}
use project_charybdis.Client.Helpers.{
  is_blank_char, wait_until, chaos_recovery_timeout, describe_payload,
}
use project_charybdis.Client.Helpers.Decimal.{describe_payload_iff}
use project_charybdis.Client.Helpers.Wait.{IsOver, wait_until-ends}
use project_charybdis.Client.Helpers.Recovery.{chaos_recovery_timeout-written}
use project_charybdis.Client.Audit.{audit_path, goes_to_stderr}
use project_charybdis.Client.Audit.Written.{audit_path-IsSafe, HasFaultId, missing}
use project_charybdis.Client.SafeChaos.{safe_inject_queue_starve}
use project_charybdis.Client.SafeChaos.Audited.{
  safe_inject-refused, safe_inject-unanswered, safe_inject-answered,
}
use project_charybdis.Client.Tests.{
  cfg, no_breaker, ms, outage, wholes, policy, never, good, third, subject_body, test_subject,
  sample_parse, setting, timeouts, set_to, quiet_env,
}

attempts-Machine_example :
    IsWellFormed cfg (attempts cfg outage new_breaker).1
    × Trace cfg outage
        (closed_after 0)
        (attempts cfg outage new_breaker).0
        (view (attempts cfg outage new_breaker).1)
attempts-Machine_example = attempts-Machine cfg (omega arith) outage

run_with_retry-Alternates_example :
    Alternates
      (get_message (codes "/x"))
      (run_with_retry wholes sample_parse policy cfg (get_message (codes "/x")) never new_breaker).2
    × (sends
          (run_with_retry wholes sample_parse policy cfg
            (get_message (codes "/x"))
            never
            new_breaker).2
        ≤ 4)
run_with_retry-Alternates_example =
    run_with_retry-Alternates wholes sample_parse policy cfg (get_message (codes "/x")) never
      new_breaker

run_with_retry-replied_example :
    ((run_with_retry wholes sample_parse policy no_breaker
        (get_message (codes "/x"))
        third
        new_breaker).0
      ≡ response_of sample_parse good)
    × (sends
          (run_with_retry wholes sample_parse policy no_breaker
            (get_message (codes "/x"))
            third
            new_breaker).2
        ≡ 3)
run_with_retry-replied_example =
    run_with_retry-replied wholes sample_parse policy no_breaker (get_message (codes "/x")) third 2
      new_breaker good (inl (omega arith)) (refl, (refl, refl)) (omega arith)

run_with_retry-tripped_example :
    ((run_with_retry wholes sample_parse policy cfg (get_message (codes "/x")) never new_breaker).0
      ≡ no_response)
    × ((run_with_retry wholes sample_parse policy cfg
          (get_message (codes "/x"))
          never
          new_breaker).1.state
        ≡ k_open)
    × (sends
          (run_with_retry wholes sample_parse policy cfg
            (get_message (codes "/x"))
            never
            new_breaker).2
        ≡ 3)
run_with_retry-tripped_example =
    run_with_retry-tripped wholes sample_parse policy cfg (get_message (codes "/x")) never 2
      new_breaker refl refl (omega arith) (refl, (refl, (refl, tt))) (λ h. omega arith)

abbrev calls : List (ClientCall × (ℕ → Round wholes))
calls =
    (post_call starve_path (subject_body test_subject), third)
    ∷ (post_raw_call starve_path (codes "P") (codes "application/json"), third)
    ∷ (health_call, never)
    ∷ []

session-IsFiltered_example :
    All (IsFiltered (setting cfg)) (session (setting cfg) calls new_breaker).1
unfolding subject_filter_disabled
session-IsFiltered_example = session-IsFiltered (setting cfg) calls new_breaker refl

session-IsWellFormed_example : IsWellFormed cfg (session (setting cfg) calls new_breaker).0
session-IsWellFormed_example = session-IsWellFormed (setting cfg) (omega arith) calls

foreign_subject : ¬ IsNamespaced quiet_env (codes "prod.orders")
unfolding subject_prefix starts_with
foreign_subject named =
    let starts : false ≡ true =
      starts_with-eq_append (codes "prod.orders") (codes "charybdis.") named.rest named.prefixed in
    cc

prefix_given : subject_prefix quiet_env ≢ []
unfolding subject_prefix
prefix_given = cc

enabled_here : subject_filter_disabled quiet_env ≡ false
unfolding subject_filter_disabled
enabled_here = refl

read_foreign : sample_parse (codes "P") ≡ some (subject_body (codes "prod.orders"))
unfolding text_eq
read_foreign = refl

subject_of_foreign : queue_starve_subject (subject_body (codes "prod.orders")) ≡ codes "prod.orders"
unfolding queue_starve_subject get text_eq
subject_of_foreign = refl

post-refused_example :
    (post (setting cfg) starve_path (subject_body (codes "prod.orders")) never new_breaker
      ≡ (throws subject_filter_violation, new_breaker, []))
    × (post_raw (setting cfg) starve_path (codes "P") (codes "text/plain") never new_breaker
        ≡ (throws subject_filter_violation, new_breaker, []))
unfolding queue_starve_subject get text_eq
post-refused_example =
    post-refused (setting cfg) never new_breaker (subject_body (codes "prod.orders")) (codes "P")
      (codes "text/plain") subject_filter_violation read_foreign
      (foreign enabled_here prefix_given foreign_subject)

abbrev bypassing : Request
bypassing = record {
  target = codes "/v1/chaos/queue-starve?x=1";
  content_type = some (codes "text/plain");
  content_length = some (codes "2");
  stream = codes "{}";
}

post_raw-bypass_example :
    ((rest : List Event) × ((post_raw
          (setting cfg)
          (queried (codes "x=1"))
          (codes "{}")
          (codes "text/plain")
          never
          new_breaker).2
        ≡ sent (post_message (queried (codes "x=1")) (codes "{}") (codes "text/plain")) ∷ rest))
    × ((do_post (λ raw. some (obj end)) (codes "f1") bypassing fresh_server).1.faults
        ≡ insert (codes "f1") (base_fault (codes "f1") (codes "queue-starve")) [])
    × (get (codes "subject") (base_fault (codes "f1") (codes "queue-starve")) ≡ none)
unfolding parse_body declared_length read_body truthy int_of_text
post_raw-bypass_example =
    post_raw-bypass (setting cfg) (codes "x=1") (codes "{}") (codes "text/plain") (codes "f1")
      bypassing never new_breaker (λ raw. some (obj end)) fresh_server (obj end)
      (inr (refl, omega arith)) refl refl refl

http_test_client-written_example :
    http_test_client (codes "http://" ++ codes "agamemnon" ++ b':' ∷ codes "08443") timeouts
    ≡ with_port (codes "agamemnon") 8443
unfolding is_digit
http_test_client-written_example =
    http_test_client-written (codes "http://") (codes "agamemnon") (codes "08443") timeouts
      (inl refl) (cc, omega arith) (cc, refl) (omega arith) (omega arith)

wait_until-ends_example :
    (result : Bool) × (wait_until (λ i. ltb 1 i) (λ i. ms (500 * i)) 0 (pos 2) 5 ≡ some result)
    × IsOver (λ i. ltb 1 i) (λ i. ms (500 * i)) 0 (pos 2) 0 result
wait_until-ends_example =
    wait_until-ends (λ i. ltb 1 i) (λ i. ms (500 * i)) 0 (pos 2) 5 (λ j. omega arith) (omega arith)
      (omega arith)

chaos_recovery_timeout-written_example : chaos_recovery_timeout (set_to (codes " 45s")) ≡ 45
unfolding is_digit is_blank_char
chaos_recovery_timeout-written_example =
    chaos_recovery_timeout-written (set_to (codes " 45s")) (codes " ") (codes "45") (codes "s") refl
      (refl, tt) (refl, (refl, tt)) refl (omega arith) (omega arith)

log_path : audit_path (set_to (codes "logs/a.log")) (λ f. true) ≡ codes "logs/a.log"
unfolding audit_path goes_to_stderr text_eq split_on
log_path = refl

log_named : audit_path (set_to (codes "logs/a.log")) (λ f. true) ≢ []
log_named e = cc (log_path, e)

audit_path-IsSafe_example :
    (some (codes "logs/a.log") ≡ some (audit_path (set_to (codes "logs/a.log")) (λ f. true)))
    × (◌≡◌ {A = Bool} true true)
    × All
        (λ part. part ≢ codes "..")
        (split_on b'/' (audit_path (set_to (codes "logs/a.log")) (λ f. true)))
audit_path-IsSafe_example = audit_path-IsSafe (set_to (codes "logs/a.log")) (λ f. true) log_named

safe_inject-refused_example :
    safe_inject_queue_starve (setting cfg) (codes "now") (codes "prod.orders") never new_breaker []
    ≡ (throws subject_filter_violation, new_breaker, codes "T" ∷ [], [])
safe_inject-refused_example =
    safe_inject-refused (setting cfg) (codes "now") never (codes "prod.orders") (codes "T")
      new_breaker [] enabled_here prefix_given foreign_subject refl

allowed_here : IsNamespaced quiet_env test_subject
unfolding subject_prefix
allowed_here = record { some_prefix = cc; rest = codes "t1"; prefixed = refl }

read_back : sample_parse (codes "T") ≡ some (subject_body test_subject)
unfolding text_eq
read_back = refl

same_subject : queue_starve_subject (subject_body test_subject) ≡ test_subject
unfolding queue_starve_subject get text_eq
same_subject = refl

safe_inject-unanswered_example :
    ((safe_inject_queue_starve
        (setting no_breaker)
        (codes "now")
        test_subject
        never
        new_breaker
        []).0
      ≡ throws json_type_error)
    × ((safe_inject_queue_starve
          (setting no_breaker)
          (codes "now")
          test_subject
          never
          new_breaker
          []).2
        ≡ [])
    × (sends
          (safe_inject_queue_starve
            (setting no_breaker)
            (codes "now")
            test_subject
            never
            new_breaker
            []).3
        ≡ 4)
safe_inject-unanswered_example =
    safe_inject-unanswered (setting no_breaker) (codes "now") never test_subject (codes "T")
      (subject_body test_subject) new_breaker [] (inr allowed_here) (cc) refl read_back same_subject
      (inl (omega arith)) (refl, (refl, (refl, (refl, tt))))

no_identifier : HasFaultId (response_of sample_parse good).body []
unfolding parse_reply get text_eq
no_identifier = missing refl refl

safe_inject-answered_example :
    ((safe_inject_queue_starve
        (setting no_breaker)
        (codes "now")
        test_subject
        third
        new_breaker
        []).0
      ≡ returns (response_of sample_parse good).body)
    × ((safe_inject_queue_starve
          (setting no_breaker)
          (codes "now")
          test_subject
          third
          new_breaker
          []).2
        ≡ codes "T" ∷ [])
    × (sends
          (safe_inject_queue_starve
            (setting no_breaker)
            (codes "now")
            test_subject
            third
            new_breaker
            []).3
        ≡ 3)
safe_inject-answered_example =
    safe_inject-answered (setting no_breaker) (codes "now") third test_subject (codes "T") []
      (codes "T") (subject_body test_subject) new_breaker [] 2 good (inr allowed_here) (cc) refl
      read_back same_subject (inl (omega arith)) (refl, (refl, refl)) (omega arith) no_identifier
      refl

describe_payload_iff_example :
    (describe_payload (codes "secret") ≡ describe_payload (codes "public"))
    ↔ (length (codes "secret") ≡ length (codes "public"))
describe_payload_iff_example =
    describe_payload_iff (codes "secret") (codes "public") (omega arith) (omega arith)
