-- ===== src/Client/Stub.antt =====
-- The client connected to the stub Mock: each attempt of a request is a request to the stub. How
-- `httplib` brings the two together is a parameter, with what the client relies on: an answer is
-- heard if it comes before the read timeout, and neither one that comes later is, nor one that an
-- exception of the stub ends. The time that a request waits for an earlier one, which the stub still
-- serves, is left aside.
pub mod Healthy
pub mod Slowed
mod Witnesses
use project_charybdis.Base.{
  ◌≡◌, ℕ, zero, suc, ◌≤◌, ◌<◌, Option, none, some, List, Text, pos, Result, ok, raised,
}
use project_charybdis.Base.Errors.{PyError}
use project_charybdis.Json.{Json, Fields}
use project_charybdis.Mock.State.{Server, Reply}
use project_charybdis.Mock.Request.{Request}
use project_charybdis.Mock.Handler.{Method, handle}
use project_charybdis.Client.Retry.{Doubles, HttpReply, Round}

pub record Transport : Type 0 where
  -- The stub's `json.dumps`
  pub dumps : Fields → Text
  -- The read timeout in milliseconds
  pub read_ms : ℕ
  pub heard : Result Reply → Option HttpReply
  pub in_time :
      (r : Reply)
      → r.delay < read_ms
      → heard (ok r) ≡ some (record { status = pos r.status; content = dumps r.body })
  pub too_late : (r : Reply) → read_ms ≤ r.delay → heard (ok r) ≡ none
  pub no_answer : (e : PyError) → heard (raised e) ≡ none

module _ (loads : List ℕ → Option Json) (methods : ℕ → Method) (req : Request) where
  -- The stores of the stub after `n` attempts.
  unfoldable pub state_after : ℕ → Server → Server
  state_after zero s = s
  state_after (suc n) s = (handle loads (methods n) req (state_after n s)).1

  -- The attempts, where `base` has the times and the jitter of each.
  unfoldable pub stub_rounds : {F : Doubles} → Transport → Server → (ℕ → Round F) → ℕ → Round F
  stub_rounds t s base n = record (base n) {
    reply = t.heard (handle loads (methods n) req (state_after n s)).0;
  }
