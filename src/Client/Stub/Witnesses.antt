-- ===== src/Client/Stub/Witnesses.antt =====
-- The theorems about the client and the stub at inputs that meet their hypotheses.
use project_charybdis.Base.{
  ◌≡◌, ◌≤◌, ◌<◌, refl, ap, ◌∙◌, inl, ℕ, zero, suc, ltb, false, not, ◌&&◌, ◌||◌, Option, none, some,
  List, [], ◌∷◌, Text, codes, text_eq, length, has_key, has_key-insert, values, pos, Result, ok,
  raised, arith, if◌then◌else◌,
}
use project_charybdis.Json.{Json, obj, Fields, int_of_text}
use project_charybdis.Mock.State.{Server, Reply, fresh_server}
use project_charybdis.Mock.Request.{Request, parse_body, declared_length, read_body}
use project_charybdis.Mock.Handler.{post_method, says}
use project_charybdis.Mock.Faults.{active_latency_ms, latency_from}
use project_charybdis.Mock.Replies.{slept}
use project_charybdis.Mock.Invariant.{IsWellFormed}
use project_charybdis.Mock.Answers.{has_fault}
use project_charybdis.Client.Errors.{returns}
use project_charybdis.Client.Breaker.{new_breaker}
use project_charybdis.Client.Retry.{HttpReply, no_response, post_message}
use project_charybdis.Client.Retry.Laws.{sends}
use project_charybdis.Client.Calls.{Setting, retried, is_healthy}
use project_charybdis.Client.Stub.{Transport, state_after, stub_rounds}
use project_charybdis.Client.Stub.Slowed.{
  latency_path, delay_of, slow_fault, state_after-suc, retried-slowed,
}
use project_charybdis.Client.Stub.Healthy.{asks, answers_within, is_healthy-stub}
use project_charybdis.Client.Tests.{wholes, never, setting, no_breaker}

-- A client that waits for ten seconds, with a transport of the answers that come in time.
abbrev shown : Fields → Text
shown d = codes "T"

abbrev hears : Result Reply → Option HttpReply
hears (ok r) =
    if ltb r.delay 10000
    then some (record { status = pos r.status; content = shown r.body })
    else none
hears (raised e) = none

hears_in_time :
    (r : Reply)
    → r.delay < 10000
    → hears (ok r) ≡ some (record { status = pos r.status; content = shown r.body })
hears_in_time r h = ground arith

hears_nothing : (r : Reply) → 10000 ≤ r.delay → hears (ok r) ≡ none
hears_nothing r h = ground arith

abbrev transport : Transport
transport = record {
  dumps = shown;
  read_ms = 10000;
  heard = hears;
  in_time = hears_in_time;
  too_late = hears_nothing;
  no_answer = λ e. refl;
}

abbrev slow_post : Request
slow_post = record {
  target = latency_path;
  content_type = none;
  content_length = some (codes "2");
  stream = codes "{}";
}

abbrev drawn : ℕ → Text
drawn n = n ∷ []

abbrev slow_loads : List ℕ → Option Json
slow_loads raw = some (obj (delay_of 20000))

slow_read : parse_body slow_loads slow_post ≡ ok (obj (delay_of 20000), false)
unfolding parse_body declared_length read_body int_of_text
slow_read = refl

abbrev slowed : ℕ → Server
slowed n = state_after slow_loads (λ k. post_method (drawn k)) slow_post n fresh_server

drawn_apart :
    (n j : ℕ) (s : Server)
    → n < j
    → has_key (drawn j) s.faults ≡ false
    → (text_eq (drawn n) (drawn j) || has_key (drawn j) s.faults) ≡ false
unfolding text_eq
drawn_apart n j s lt none_there = ground arith

drawn_new : (n j : ℕ) → n ≤ j → has_key (drawn j) (slowed n).faults ≡ false
unfolding state_after has_key
drawn_new zero j h = refl
drawn_new (suc n) j h =
    ap (λ s. has_key (drawn j) s.faults)
      (state_after-suc slow_loads drawn (codes "{}") (codes "text/plain") slow_post 20000 refl
        slow_read fresh_server n)
    ∙ has_key-insert (drawn n) (drawn j) (slow_fault (drawn n) 20000) (slowed n).faults
    ∙ drawn_apart n j (slowed n) (omega arith) (drawn_new n j (omega arith))

no_latency : active_latency_ms fresh_server ≡ ok (pos 0)
unfolding active_latency_ms latency_from values
no_latency = refl

retried-slowed_example :
    ((retried
        (setting no_breaker)
        (post_message latency_path (codes "{}") (codes "text/plain"))
        (stub_rounds slow_loads (λ k. post_method (drawn k)) slow_post transport fresh_server never)
        new_breaker).0
      ≡ no_response)
    × (sends
          (retried
            (setting no_breaker)
            (post_message latency_path (codes "{}") (codes "text/plain"))
            (stub_rounds slow_loads
              (λ k. post_method (drawn k))
              slow_post
              transport
              fresh_server
              never)
            new_breaker).2
        ≡ 4)
    × (length (values (slowed 4).faults) ≡ 4)
    × (active_latency_ms (slowed 4) ≡ ok (pos 80000))
unfolding values
retried-slowed_example =
    retried-slowed slow_loads drawn (codes "{}") (codes "text/plain") slow_post 20000 refl slow_read
      fresh_server 0 no_latency (λ n. drawn_new n n (omega arith)) (setting no_breaker) transport
      never (omega arith) new_breaker (inl (omega arith))

fresh_well : IsWellFormed fresh_server
fresh_well = record {
  faults = tt;
  teams = tt;
  agents = tt;
  tasks = tt;
  distinct_faults = tt;
  distinct_tasks = tt;
}

abbrev tells_health : Text → Option Json
tells_health s = some (obj (says "status" "ok"))

abbrev health_setting : Setting wholes
health_setting = record (setting no_breaker) { parse = tells_health }

is_healthy-stub_example :
    (is_healthy health_setting
      (asks health_setting transport slow_loads never fresh_server fresh_well)
      new_breaker).0
    ≡ returns (answers_within 10000 (slept fresh_server) && not (has_fault (codes "kill") []))
is_healthy-stub_example =
    is_healthy-stub health_setting transport slow_loads never fresh_server fresh_well refl
      (omega arith) new_breaker (inl (omega arith))
