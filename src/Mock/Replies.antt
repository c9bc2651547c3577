-- ===== src/Mock/Replies.antt =====
-- What `_send` answers, and that it changes nothing: a handler's state is that of its last write.
use project_charybdis.Base.{ℕ, ◌≡◌, ap, Result, ok, raised, arith}
use project_charybdis.Base.Errors.{◌>>=◌}
use project_charybdis.Json.{Fields}
use project_charybdis.Mock.State.{Server, Reply}
use project_charybdis.Mock.Faults.{active_latency_ms, sleep}
use project_charybdis.Mock.Send.{send}

-- The sleep before any reply from this state, or the exception that stops the reply.
unfoldable pub slept : Server → Result ℕ
unfolding active_latency_ms sleep
slept s = do delay ← active_latency_ms s; sleep delay

abbrev pub replied : Result ℕ → ℕ → Fields → Result Reply
replied (ok ms) status body = ok (record { status = status; body = body; delay = ms })
replied (raised e) status body = raised e

pub send-eq :
    (status : ℕ) (body : Fields) (s : Server)
    → send status body s ≡ (replied (slept s) status body, s)
unfolding send slept
send-eq status body s = ground arith

-- Only the last write before it is seen in the state.
pub send-state : (status : ℕ) (body : Fields) (s : Server) → (send status body s).1 ≡ s
send-state status body s = ap (λ r. r.1) (send-eq status body s)
