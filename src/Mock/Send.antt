-- ===== src/Mock/Send.antt =====
-- `_send`, which sleeps for the active latency before every reply.
use project_charybdis.Base.{ℕ}
use project_charybdis.Base.Exec.{Exec, pure, reads, ◌>>=◌}
use project_charybdis.Json.{Fields}
use project_charybdis.Mock.State.{Server, Reply}
use project_charybdis.Mock.Faults.{active_latency_ms, sleep}

unfoldable pub send : ℕ → Fields → Exec Server Reply
send status body = do
  delay ← reads active_latency_ms
  slept ← reads (λ _. sleep delay)
  pure (record { status = status; body = body; delay = slept })
