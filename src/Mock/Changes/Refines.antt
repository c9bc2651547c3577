-- ===== src/Mock/Changes/Refines.antt =====
-- The handler refines the abstract stub: whatever a request does to the stores is one `Change`.
mod Posts
pub use Posts.*
use project_charybdis.Base.{
  ◌≡◌, refl, ap, inl, inr, Bool, true, false, ◌&&◌, Option, List, ℕ, Text, codes, text_eq,
  starts_with, ends_with, drop, length, has_key, Bool-cases, Result-cases, if_either, Result,
}
use project_charybdis.Json.{Json, Fields}
use project_charybdis.Base.Exec.{Exec}
use project_charybdis.Mock.State.{Server, Reply}
use project_charybdis.Mock.Request.{Request, route_path, content_type_of, parse_body}
use project_charybdis.Mock.Faults.{queue_starve_active, kill_active}
use project_charybdis.Mock.Send.{send}
use project_charybdis.Mock.Replies.{send-state}
use project_charybdis.Mock.Handler.{
  Method, get_method, delete_method, post_method, get_tasks, get_health, do_get, post_to, do_post,
  delete_fault, do_delete, handle,
}
use project_charybdis.Mock.Changes.{Change, same, complete, remove_fault}

get_tasks-Change : (s : Server) → Change s get_method (get_tasks s).1
unfolding get_tasks
get_tasks-Change s = elim (Bool-cases (queue_starve_active s)) [
  | inl starved ↦ rw (starved, send-state) (same refl)
  | inr open_queue ↦ rw (open_queue, send-state) (complete open_queue refl)
]

sent : {m : Method} (status : ℕ) (body : Fields) (s : Server) → Change s m (send status body s).1
sent status body s = same (send-state status body s)

do_get-Change : (req : Request) (s : Server) → Change s get_method (do_get req s).1
unfolding do_get get_health
do_get-Change req s =
    let P = λ (r : Result Reply × Server). Change s get_method r.1 in
    let path = route_path req in
    if_either P (text_eq path _) (if_either P (kill_active s) (sent 503 _ s) (sent 200 _ s)) (
      if_either P (text_eq path _) (sent 200 _ s)
        (if_either P (text_eq path _) (get_tasks-Change s) (sent 404 _ s)))

delete_fault-Change : (id : Text) (s : Server) → Change s delete_method (delete_fault id s).1
unfolding delete_fault
delete_fault-Change id s = elim (Bool-cases (has_key id s.faults)) [
  | inl there ↦ rw (there, send-state) (remove_fault id there refl)
  | inr missing ↦ rw (missing, send-state) (same refl)
]

do_delete-Change : (req : Request) (s : Server) → Change s delete_method (do_delete req s).1
unfolding do_delete
do_delete-Change req s =
    if_either {A = Exec Server Reply} (λ m. Change s delete_method (m s).1)
      (starts_with (route_path req) _) (delete_fault-Change _ s) (sent 404 _ s)

do_post-Change :
    (loads : List ℕ → Option Json) (uuid : Text) (req : Request) (s : Server)
    → Change s (post_method uuid) (do_post loads uuid req s).1
unfolding do_post
do_post-Change loads uuid req s = elim (Result-cases (parse_body loads req)) [
  | inl (parsed, read) ↦ rw read (post_to-Change uuid _ _ parsed.0 parsed.1 s)
  | inr (e, failed) ↦ rw failed (same refl)
]

-- Every request, of any method, that succeeds or raises, makes one change of the abstract stub.
pub handle-Change :
    (loads : List ℕ → Option Json) (m : Method) (req : Request) (s : Server)
    → Change s m (handle loads m req s).1
unfolding handle
handle-Change loads get_method req s = do_get-Change req s
handle-Change loads delete_method req s = do_delete-Change req s
handle-Change loads (post_method uuid) req s = do_post-Change loads uuid req s
