-- ===== src/Client/Calls/Bypass.antt =====
-- A client of the stub Mock: the guard compares the whole target with the path of the queue-starve
-- fault, and the stub routes a target by its path alone.
use project_charybdis.Base.{
  ◌≡◌, refl, ℕ, zero, suc, false, inl, inr, Option, Option-cases, none, List, [], ◌∷◌, ◌++◌, Text,
  ap, codes, text_eq, pos, ok, insert, ℤ, negsuc, rstrip, arith,
}
use project_charybdis.Json.{Json, truthy, get, Fields}
use project_charybdis.Mock.State.{Server}
use project_charybdis.Mock.Request.{
  Request, route_path, urlparse_path, before, without_params, has_char, parse_body,
}
use project_charybdis.Mock.Handler.{base_fault, with_parameters, do_post, is_chaos_type}
use project_charybdis.Mock.Changes.{IsInjectable}
use project_charybdis.Mock.Injection.{do_post-chaos}
use project_charybdis.Mock.Routes.{route_path_same}
use project_charybdis.Client.Breaker.{CircuitBreaker, CircuitBreakerConfig}
use project_charybdis.Client.Retry.{
  Doubles, HttpRequest, post_message, Event, sent, Round, RetryPolicy, retry_from, run_with_retry,
  total_attempts,
}
use project_charybdis.Client.Retry.Laws.{HasRoom, answered_round, last_round, failed_round}
use project_charybdis.Client.Calls.{Setting, starve_path, retried, raw_gate, post_raw}

retry_from-sent :
    (F : Doubles) (parse : Text → Option Json) (policy : RetryPolicy F) (cfg : CircuitBreakerConfig)
    (request : HttpRequest) (rounds : ℕ → Round F) (left n : ℕ) (b : CircuitBreaker)
    → HasRoom cfg b 1
    → (rest : List Event) × ((retry_from F parse policy cfg request rounds (suc left) n b).2
        ≡ sent request ∷ rest)
retry_from-sent F parse policy cfg request rounds left n b room =
    elim (Option-cases (rounds n).reply) [
      | inr (res, e) ↦
          ([], ap (λ r. r.2) (answered_round F parse policy cfg request rounds left n b res room e))
      | inl e ↦ sent_first left e
    ]
  where
    sent_first :
        (k : ℕ)
        → (rounds n).reply ≡ none
        → (rest : List Event) × ((retry_from F parse policy cfg request rounds (suc k) n b).2
            ≡ sent request ∷ rest)
    sent_first zero e =
        ([], ap (λ r. r.2) (last_round F parse policy cfg request rounds n b room e))
    sent_first (suc k) e = (
      _,
      ap (λ r. r.2)
          (failed_round F parse policy cfg request rounds (suc k) n b (omega arith) room e),
    )

total_attempts-suc : (n : ℤ) → (k : ℕ) × (total_attempts n ≡ suc k)
unfolding total_attempts
total_attempts-suc (pos n) = (n, refl)
total_attempts-suc (negsuc n) = (0, refl)

abbrev pub queried : Text → Text
queried q = starve_path ++ b'?' ∷ q

queried-ne : (q : Text) → text_eq (queried q) starve_path ≡ false
unfolding text_eq
queried-ne q = refl

routed : (q : Text) (req : Request) → req.target ≡ queried q → route_path req ≡ starve_path
unfolding route_path urlparse_path before without_params has_char rstrip
routed q req target =
    (route_path_same (record req { target = starve_path })
      (record req { target = starve_path ++ b'/' ∷ [] }) req starve_path q (omega arith) refl refl
      target).1

with_parameters-falsy : (f : Fields) (v : Json) → truthy v ≡ false → with_parameters f v ≡ ok f
unfolding with_parameters
with_parameters-falsy f v h = rw h refl

starve-IsInjectable : IsInjectable (codes "queue-starve")
unfolding is_chaos_type text_eq
starve-IsInjectable = (refl, refl)

retried-sent :
    {F : Doubles} (c : Setting F) (request : HttpRequest) (rounds : ℕ → Round F)
    (b : CircuitBreaker)
    → HasRoom c.cfg b 1
    → (rest : List Event) × ((retried c request rounds b).2 ≡ sent request ∷ rest)
unfolding run_with_retry
retried-sent {F} c request rounds b room =
    let (k, e) = total_attempts-suc c.policy.max_retries in
    rw e (retry_from-sent F c.parse c.policy c.cfg request rounds k 0 b room)

-- The path of the queue-starve fault with any query behind it: whether or not the filter is enabled,
-- `post_raw` sends at once a body that names no subject, where the breaker makes the call; and the
-- stub registers a queue-starve fault without a subject for it, where it reads the body as no true
-- value, as it does an empty object or a text that is no JSON.
pub post_raw-bypass :
    {F : Doubles} (c : Setting F) (q raw ct uuid : Text) (req : Request) (rounds : ℕ → Round F)
    (b : CircuitBreaker) (loads : List ℕ → Option Json) (s : Server) (v : Json)
    → HasRoom c.cfg b 1
    → req.target ≡ queried q
    → parse_body loads req ≡ ok (v, false)
    → truthy v ≡ false
    → ((rest : List Event) × ((post_raw c (queried q) raw ct rounds b).2
          ≡ sent (post_message (queried q) raw ct) ∷ rest))
      × ((do_post loads uuid req s).1.faults
          ≡ insert uuid (base_fault uuid (codes "queue-starve")) s.faults)
      × (get (codes "subject") (base_fault uuid (codes "queue-starve")) ≡ none)
unfolding post_raw raw_gate text_eq get
post_raw-bypass {F} c q raw ct uuid req rounds b loads s v room target read falsy = (
  retried-sent c (post_message (queried q) raw ct) rounds b room,
  ap (λ r. r.1.faults)
      (do_post-chaos loads uuid (codes "queue-starve") req s (routed q req target)
        starve-IsInjectable read
        (with_parameters-falsy (base_fault uuid (codes "queue-starve")) v falsy)),
  refl,
)
