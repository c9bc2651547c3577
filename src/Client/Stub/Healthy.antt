-- ===== src/Client/Stub/Healthy.antt =====
-- `is_healthy` on the stub.
use project_charybdis.Base.{
  ◌≡◌, refl, ap, ◌∙◌, ℕ, zero, suc, ◌≤◌, ltb, Bool, true, false, not, ◌&&◌, Bool-cases,
  Option-cases, rstrip, inl, inr, Option, none, some, List, [], length, Text, codes, text_eq, pos,
  pos_part, Result, ok, raised, arith, if◌then◌else◌,
}
use project_charybdis.Json.{Json, obj, get}
use project_charybdis.Mock.State.{Server, Reply}
use project_charybdis.Mock.Request.{
  Request, route_path, urlparse_path, before, without_params, has_char,
}
use project_charybdis.Mock.Replies.{slept, replied}
use project_charybdis.Mock.Handler.{get_method, handle, do_get, says}
use project_charybdis.Mock.Invariant.{IsWellFormed}
use project_charybdis.Mock.Answers.{has_fault, do_get-health}
use project_charybdis.Client.Errors.{Returned, returns, ◌>>=◌}
use project_charybdis.Client.Breaker.{CircuitBreaker}
use project_charybdis.Client.Retry.{
  Doubles, HttpReply, no_response, get_message, Round, max_body_bytes, parse_reply, response_of,
}
use project_charybdis.Client.Retry.Laws.{
  HasRoom, Fail, run_with_retry-replied, run_with_retry-unanswered,
}
use project_charybdis.Client.Calls.{Setting, is_healthy, healthy_response, text_member}
use project_charybdis.Client.Stub.{Transport, state_after, stub_rounds}

abbrev pub health_path : Text
health_path = codes "/v1/health"

-- A GET of the client, without a body.
abbrev pub health_request : Request
health_request = record {
  target = health_path;
  content_type = none;
  content_length = none;
  stream = [];
}

-- What the client makes of what it hears.
abbrev healthy_of : (Text → Option Json) → Option HttpReply → Returned Bool
healthy_of parse none = returns false
healthy_of parse (some res) = healthy_response (response_of parse res)

-- The stub answers, and the client still waits.
abbrev pub answers_within : ℕ → Result ℕ → Bool
answers_within read_ms (ok ms) = ltb ms read_ms
answers_within read_ms (raised e) = false

unhealthy : healthy_response no_response ≡ returns false
unfolding healthy_response
unhealthy = refl

pair_if :
    {A B : Type 0} (b : Bool) (x y : A × B) (z : B)
    → x.1 ≡ z
    → y.1 ≡ z
    → (if b then x else y) ≡ (if b then x.0 else y.0, z)
pair_if true x y z e f = ap (λ t. (x.0, t)) e
pair_if false x y z e f = ap (λ t. (y.0, t)) f

module _ {F : Doubles} (c : Setting F) (t : Transport) (loads : List ℕ → Option Json)
    (base : ℕ → Round F) (s : Server) (w : IsWellFormed s) where
  abbrev pub asks : ℕ → Round F
  asks = stub_rounds loads (λ n. get_method) health_request t s base

  abbrev answer : Result Reply
  answer =
      if has_fault (codes "kill") s.faults
      then replied (slept s) 503 (says "status" "degraded")
      else replied (slept s) 200 (says "status" "ok")

  asked : do_get health_request s ≡ (answer, s)
  unfolding route_path urlparse_path before without_params has_char rstrip
  asked =
      do_get-health health_request s w refl
      ∙ pair_if (has_fault (codes "kill") s.faults) _ _ s refl refl

  unchanged : (n : ℕ) → state_after loads (λ n. get_method) health_request n s ≡ s
  unfolding state_after handle
  unchanged zero = refl
  unchanged (suc n) = ap (λ t. (do_get health_request t).1) (unchanged n) ∙ ap (λ p. p.1) asked

  heard_each : (n : ℕ) → (asks n).reply ≡ t.heard answer
  unfolding stub_rounds handle
  heard_each n =
      ap (λ x. t.heard (do_get health_request x).0) (unchanged n) ∙ ap (λ p. t.heard p.0) asked

  unanswered :
      t.heard answer ≡ none
      → (k n : ℕ) → Fail F c.parse c.policy c.cfg (get_message health_path) asks n k
  unanswered e zero n = tt
  unanswered e (suc k) n = (heard_each n ∙ e, unanswered e k (suc n))

  healthy_heard :
      (b : CircuitBreaker)
      → HasRoom c.cfg b (suc (pos_part c.policy.max_retries))
      → (is_healthy c asks b).0 ≡ healthy_of c.parse (t.heard answer)
  unfolding is_healthy
  healthy_heard b room = elim (Option-cases (t.heard answer)) [
    | inl e ↦
        ap healthy_response
          (run_with_retry-unanswered F c.parse c.policy c.cfg (get_message health_path) asks b room
            (unanswered e (suc (pos_part c.policy.max_retries)) 0)).0
        ∙ rw e unhealthy
    | inr (res, e) ↦
        ap healthy_response
          (run_with_retry-replied F c.parse c.policy c.cfg (get_message health_path) asks 0 b res
            room (heard_each 0 ∙ e) (omega arith)).0
        ∙ rw e refl
  ]

  module _ (readable : c.parse (t.dumps (says "status" "ok")) ≡ some (obj (says "status" "ok")))
      (small : length (t.dumps (says "status" "ok")) ≤ max_body_bytes) where
    parsed :
        parse_reply c.parse (record { status = pos 200; content = t.dumps (says "status" "ok") })
        ≡ obj (says "status" "ok")
    unfolding parse_reply
    parsed =
        let fits : ltb max_body_bytes (length (t.dumps (says "status" "ok"))) ≡ false =
          ground arith in
        rw (fits, readable) refl

    healthy_reply :
        healthy_of c.parse
          (some (record { status = pos 200; content = t.dumps (says "status" "ok") }))
        ≡ returns true
    unfolding healthy_response text_member get text_eq
    healthy_reply =
        ap (λ v. text_member (codes "status") v >>= λ t. returns (text_eq t (codes "ok"))) parsed

    degraded :
        healthy_of c.parse
          (some (record { status = pos 503; content = t.dumps (says "status" "degraded") }))
        ≡ returns false
    unfolding healthy_response
    degraded = refl

    verdict :
        (r : Result ℕ) (killed : Bool)
        → healthy_of c.parse (
            t.heard (
              if killed
              then replied r 503 (says "status" "degraded")
              else replied r 200 (says "status" "ok")))
          ≡ returns (answers_within t.read_ms r && not killed)
    verdict (raised e) true = rw (t.no_answer e) refl
    verdict (raised e) false = rw (t.no_answer e) refl
    verdict (ok ms) true =
        let reply : Reply = record { status = 503; body = says "status" "degraded"; delay = ms } in
        elim (Bool-cases (ltb ms t.read_ms)) [
          | inl soon ↦ rw (t.in_time reply (ground arith)) (rw soon degraded)
          | inr late ↦ rw (t.too_late reply (ground arith)) (rw late refl)
        ]
    verdict (ok ms) false =
        let reply : Reply = record { status = 200; body = says "status" "ok"; delay = ms } in
        elim (Bool-cases (ltb ms t.read_ms)) [
          | inl soon ↦ rw (t.in_time reply (ground arith)) (rw soon healthy_reply)
          | inr late ↦ rw (t.too_late reply (ground arith)) (rw late refl)
        ]

    -- The client finds the stub healthy exactly where its answer comes in time, after the sleep of
    -- the latency faults, and no kill fault is registered: where the stores are well-formed, the
    -- breaker of the client has room for all attempts, and the body of a healthy answer is short
    -- enough and is read as what the stub wrote. No exception is thrown.
    pub is_healthy-stub :
        (b : CircuitBreaker)
        → HasRoom c.cfg b (suc (pos_part c.policy.max_retries))
        → (is_healthy c asks b).0
          ≡ returns (answers_within t.read_ms (slept s) && not (has_fault (codes "kill") s.faults))
    is_healthy-stub b room =
        healthy_heard b room ∙ verdict (slept s) (has_fault (codes "kill") s.faults)
