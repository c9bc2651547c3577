-- ===== src/Client/Stub/Slowed.antt =====
-- A POST that slows its own answer down, sent with retries.
use project_charybdis.Base.{
  leb, Bool-cases, inl, inr, ◌≡◌, refl, ap, sym, ◌∙◌, ℕ, zero, suc, ◌+◌, ◌*◌, ◌≤◌, true, false,
  Option, none, List, [], ◌∷◌, ◌++◌, length, length-append, Text, codes, text_eq, values,
  values-insert, rstrip, has_key, insert, pos, pos_part, ◌+ℤ◌, ok, arith,
}
use project_charybdis.Json.{
  Json, int, str, bool, obj, Fields, field, end, get, get_or, has_field, set_field, update,
  only_new, truthy, py_int, is_text, as_dict,
}
use project_charybdis.Base.Errors.{overflow_error, ◌>>=◌}
use project_charybdis.Mock.State.{Server}
use project_charybdis.Mock.Request.{
  Request, route_path, urlparse_path, before, without_params, has_char, parse_body,
}
use project_charybdis.Mock.Faults.{
  max_sleep_ms, is_active, delay_ms, add_latency, active_latency_ms, sleep,
}
use project_charybdis.Mock.Replies.{slept, replied}
use project_charybdis.Mock.Handler.{
  Method, post_method, handle, chaos_prefix, base_fault, with_parameters, is_chaos_type,
}
use project_charybdis.Mock.Changes.{IsInjectable}
use project_charybdis.Mock.Injection.{do_post-chaos}
use project_charybdis.Mock.Latency.Sums.{active_latency_ms-insert}
use project_charybdis.Client.Breaker.{CircuitBreaker}
use project_charybdis.Client.Retry.{Doubles, no_response, HttpRequest, post_message, Round}
use project_charybdis.Client.Retry.Laws.{sends, HasRoom, Fail, run_with_retry-unanswered}
use project_charybdis.Client.Calls.{Setting, retried}
use project_charybdis.Client.Stub.{Transport, state_after, stub_rounds}

-- The body of the POST, and the fault that the stub makes of it.
abbrev pub delay_of : ℕ → Fields
delay_of d = field (codes "delay_ms") (int (pos d)) end

abbrev pub slow_fault : Text → ℕ → Fields
slow_fault uuid d = field (codes "id") (str uuid) (
    field (codes "type") (str (codes "latency"))
      (field (codes "active") (bool true) (field (codes "delay_ms") (int (pos d)) end)))

made_of :
    (uuid : Text) (d : ℕ)
    → with_parameters (base_fault uuid (codes "latency")) (obj (delay_of d))
      ≡ ok (slow_fault uuid d)
unfolding with_parameters truthy as_dict update only_new has_field set_field text_eq
made_of uuid d = refl

added : (a d : ℕ) (uuid : Text) → add_latency (pos a) (slow_fault uuid d) ≡ ok (pos (a + d))
unfolding add_latency is_active delay_ms is_text get get_or text_eq truthy py_int ◌+ℤ◌
added a d uuid = ground arith

latency-IsInjectable : IsInjectable (codes "latency")
unfolding is_chaos_type text_eq
latency-IsInjectable = (refl, refl)

-- No answer is heard of a stub that sleeps as long as the timeout.
heard-slow :
    (t : Transport) (y status : ℕ) (body : Fields) (s : Server)
    → active_latency_ms s ≡ ok (pos y)
    → t.read_ms ≤ y
    → t.heard (replied (slept s) status body) ≡ none
unfolding slept sleep
heard-slow t y status body s sum slow =
    rw (sum, slept)
      (elim (Bool-cases (leb y max_sleep_ms)) [
        | inl fits ↦ rw fits (t.too_late (record { status = status; body = body; delay = y }) slow)
        | inr long ↦ rw long (t.no_answer overflow_error)
      ])

abbrev pub latency_path : Text
latency_path = codes "/v1/chaos/latency"

routed :
    (req : Request) → req.target ≡ latency_path → route_path req ≡ chaos_prefix ++ codes "latency"
unfolding route_path urlparse_path before without_params has_char rstrip
routed req e = rw (e, route_path) refl

module _ (loads : List ℕ → Option Json) (uuid : ℕ → Text) (raw ct : Text) (req : Request) (d : ℕ)
    (target : req.target ≡ latency_path)
    (read : parse_body loads req ≡ ok (obj (delay_of d), false)) where
  abbrev pub posts : ℕ → Method
  posts n = post_method (uuid n)

  abbrev pub registered : ℕ → Server → Server
  registered n s = record s { faults = insert (uuid n) (slow_fault (uuid n) d) s.faults }

  handled :
      (n : ℕ) (s : Server)
      → handle loads (posts n) req s
        ≡ (replied (slept (registered n s)) 201 (slow_fault (uuid n) d), registered n s)
  unfolding handle
  handled n s =
      do_post-chaos loads (uuid n) (codes "latency") req s (routed req target) latency-IsInjectable
        read (made_of (uuid n) d)

  pub state_after-suc :
      (s : Server) (n : ℕ)
      → state_after loads posts req (suc n) s ≡ registered n (state_after loads posts req n s)
  unfolding state_after
  state_after-suc s n = ap (λ p. p.1) (handled n (state_after loads posts req n s))

  module _ (s : Server) (a : ℕ) (sum : active_latency_ms s ≡ ok (pos a))
      (new : (n : ℕ) → has_key (uuid n) (state_after loads posts req n s).faults ≡ false) where
    latency_after :
        (n : ℕ) → active_latency_ms (state_after loads posts req n s) ≡ ok (pos (a + n * d))
    unfolding state_after
    latency_after zero = sum ∙ ap (λ (x : ℕ). ok (pos x)) (omega arith)
    latency_after (suc n) =
        ap active_latency_ms (state_after-suc s n)
        ∙ active_latency_ms-insert (uuid n) (slow_fault (uuid n) d)
            (state_after loads posts req n s) (new n)
        ∙ ap (λ r. r >>= λ x. add_latency x (slow_fault (uuid n) d)) (latency_after n)
        ∙ added (a + n * d) d (uuid n)
        ∙ ap (λ (x : ℕ). ok (pos x)) (grind arith)

    faults_after :
        (n : ℕ)
        → length (values (state_after loads posts req n s).faults) ≡ length (values s.faults) + n
    unfolding state_after
    faults_after zero = omega arith
    faults_after (suc n) =
        ap (λ t. length (values t.faults)) (state_after-suc s n)
        ∙ ap length (
            values-insert (uuid n) (slow_fault (uuid n) d) (state_after loads posts req n s).faults
              (new n))
        ∙ length-append (values (state_after loads posts req n s).faults)
            (slow_fault (uuid n) d ∷ [])
        ∙ omega (arith, faults_after n)

    module _ {F : Doubles} (c : Setting F) (t : Transport) (base : ℕ → Round F)
        (slow : t.read_ms ≤ a + d) where
      unheard : (n : ℕ) → (stub_rounds loads posts req t s base n).reply ≡ none
      unfolding stub_rounds
      unheard n =
          ap (λ p. t.heard p.0) (handled n (state_after loads posts req n s))
          ∙ heard-slow t (a + suc n * d) 201 (slow_fault (uuid n) d)
              (registered n (state_after loads posts req n s))
              (ap active_latency_ms (sym (state_after-suc s n)) ∙ latency_after (suc n))
              (grind arith)

      all_unheard :
          (request : HttpRequest) (k n : ℕ)
          → Fail F c.parse c.policy c.cfg request (stub_rounds loads posts req t s base) n k
      all_unheard request zero n = tt
      all_unheard request (suc k) n = (unheard n, all_unheard request k (suc n))

      -- A POST of a latency that, with the latency of the stub, is no shorter than the client's read
      -- timeout: no attempt is answered in time, and the client, whose breaker has room for all of
      -- them, gets the status 0 and no body. But the stub registers the fault once for each attempt,
      -- so that it is slowed down by the sum of them all.
      pub retried-slowed :
          (b : CircuitBreaker)
          → HasRoom c.cfg b (suc (pos_part c.policy.max_retries))
          → ((retried c
                (post_message latency_path raw ct)
                (stub_rounds loads posts req t s base)
                b).0
              ≡ no_response)
            × (sends
                  (retried c
                    (post_message latency_path raw ct)
                    (stub_rounds loads posts req t s base)
                    b).2
                ≡ suc (pos_part c.policy.max_retries))
            × (length (
                  values
                    (state_after loads posts req (suc (pos_part c.policy.max_retries)) s).faults)
                ≡ length (values s.faults) + suc (pos_part c.policy.max_retries))
            × (active_latency_ms
                  (state_after loads posts req (suc (pos_part c.policy.max_retries)) s)
                ≡ ok (pos (a + suc (pos_part c.policy.max_retries) * d)))
      retried-slowed b room =
          let total = suc (pos_part c.policy.max_retries) in
          let (none_heard, often) =
            run_with_retry-unanswered F c.parse c.policy c.cfg (post_message latency_path raw ct)
              (stub_rounds loads posts req t s base) b room
              (all_unheard (post_message latency_path raw ct) total 0) in
          (none_heard, often, faults_after total, latency_after total)
