-- ===== src/Mock/Latency/Poison.antt =====
-- A latency fault whose delay is no integer stops every answer, its own included.
use project_charybdis.Base.{
  ◌≡◌, ◌≢◌, refl, ap, sym, ◌∙◌, ℕ, Option, List, false, has_key, ok, raised, PyError,
}
use project_charybdis.Json.{Json}
use project_charybdis.Mock.State.{Server, Reply}
use project_charybdis.Mock.Request.{Request}
use project_charybdis.Mock.Faults.{active_latency_ms}
use project_charybdis.Mock.Replies.{slept}
use project_charybdis.Mock.Handler.{Method, get_method, delete_method, post_method, handle}
use project_charybdis.Mock.Changes.{
  Change, same, add_fault, add_team, add_agent, add_task, complete, remove_fault,
}
use project_charybdis.Mock.Changes.Refines.{handle-Change}
use project_charybdis.Mock.Latency.Sums.{active_latency_ms-insert}
use project_charybdis.Mock.Latency.Delays.{handle-IsDelayed}

-- A GET, or a POST that draws a new identifier.
abbrev pub AddsOnly : Server → Method → Type 0
AddsOnly s get_method = Unit
AddsOnly s (post_method uuid) = has_key uuid s.faults ≡ false
AddsOnly s delete_method = ⊥

latency_of_faults : (s t : Server) → t.faults ≡ s.faults → active_latency_ms t ≡ active_latency_ms s
unfolding active_latency_ms
latency_of_faults s t e = rw e refl

Change-poisoned :
    {m : Method} {s t : Server} {e : PyError}
    → Change s m t
    → AddsOnly s m
    → active_latency_ms s ≡ raised e
    → active_latency_ms t ≡ raised e
Change-poisoned {s} {t} (same p) new h = latency_of_faults s t (ap (λ u. u.faults) p) ∙ h
Change-poisoned {s} {e} (add_fault {id} f fault p) new h =
    rw (p, active_latency_ms-insert id f s new, h) refl
Change-poisoned {s} {t} (add_team r named p) new h =
    latency_of_faults s t (ap (λ u. u.faults) p) ∙ h
Change-poisoned {s} {t} (add_agent r named p) new h =
    latency_of_faults s t (ap (λ u. u.faults) p) ∙ h
Change-poisoned {s} {t} (add_task r named pending p) new h =
    latency_of_faults s t (ap (λ u. u.faults) p) ∙ h
Change-poisoned {s} {t} (complete open_queue p) new h =
    latency_of_faults s t (ap (λ u. u.faults) p) ∙ h
Change-poisoned (remove_fault id there p) new h = absurd new

slept-raised : (s : Server) {e : PyError} → active_latency_ms s ≡ raised e → slept s ≡ raised e
unfolding slept
slept-raised s h = rw h refl

-- Once the sum of the latencies raises an exception, no GET is answered, and no POST that draws an
-- identifier which no fault has: each ends in an exception, which may be another one, and in the
-- stores that it leaves the sum raises the same exception again.
pub handle-poisoned :
    (loads : List ℕ → Option Json) (m : Method) (req : Request) (s : Server) {e : PyError}
    → active_latency_ms s ≡ raised e
    → AddsOnly s m
    → ((answer : Reply) → (handle loads m req s).0 ≢ ok answer)
      × (active_latency_ms (handle loads m req s).1 ≡ raised e)
handle-poisoned loads m req s {e} h new = (
  λ answer answered.
      cc (sym (slept-raised _ stays) ∙ handle-IsDelayed loads m req s answer answered),
  stays,
)
  where
    stays : active_latency_ms (handle loads m req s).1 ≡ raised e
    stays = Change-poisoned (handle-Change loads m req s) new h
