-- ===== src/Mock/Sizes.antt =====
-- How large the stores grow: by one record for each POST, and by nothing else.
use project_charybdis.Base.{
  ◌≡◌, refl, Option, List, [], ◌∷◌, ℕ, suc, ◌+◌, ◌≤◌, Text, Dict, insert, delete, length, arith,
}
use project_charybdis.Json.{Json, Fields}
use project_charybdis.Mock.State.{Server, fresh_server}
use project_charybdis.Mock.Request.{Request}
use project_charybdis.Mock.Handler.{
  Method, get_method, delete_method, post_method, complete_all, handle, serve,
}
use project_charybdis.Mock.Changes.{
  Change, same, add_fault, add_team, add_agent, add_task, complete, remove_fault,
}
use project_charybdis.Mock.Changes.Refines.{handle-Change}

-- All records of the four stores.
abbrev pub size : Server → ℕ
size s = length s.faults + length s.teams + length s.agents + length s.tasks

-- What a request may add, and what it takes away.
abbrev pub weight : Method → ℕ
weight (post_method uuid) = 1
weight get_method = 0
weight delete_method = 0

-- The number of POSTs.
abbrev pub posts : List (Method × Request) → ℕ
posts [] = 0
posts ((m, req) ∷ reqs) = weight m + posts reqs

length-insert : (k : Text) (v : Fields) (d : Dict Fields) → length (insert k v d) ≤ suc (length d)
unfolding insert
length-insert k v [] = ground arith
length-insert k v ((j, w) ∷ d) = ground (arith, length-insert k v d)

length-delete : (k : Text) (d : Dict Fields) → length (delete k d) ≤ length d
unfolding delete
length-delete k [] = ground arith
length-delete k ((j, w) ∷ d) = ground (arith, length-delete k d)

length-complete_all : (d : Dict Fields) → length (complete_all d) ≡ length d
unfolding complete_all
length-complete_all [] = refl
length-complete_all ((id, t) ∷ d) = omega (arith, length-complete_all d)

Change-size : {m : Method} {s t : Server} → Change s m t → size t ≤ weight m + size s
Change-size (same e) = rw e (omega arith)
Change-size {s} (add_fault {id} f fault e) = rw e (omega (arith, length-insert id f s.faults))
Change-size {s} (add_team {id} r new e) = rw e (omega (arith, length-insert id r s.teams))
Change-size {s} (add_agent {id} r new e) = rw e (omega (arith, length-insert id r s.agents))
Change-size {s} (add_task {id} r new pending e) = rw e (omega (arith, length-insert id r s.tasks))
Change-size {s} (complete open_queue e) = rw e (omega (arith, length-complete_all s.tasks))
Change-size {s} (remove_fault k there e) = rw e (omega (arith, length-delete k s.faults))

serve_from-size :
    (loads : List ℕ → Option Json) (reqs : List (Method × Request)) (s : Server)
    → size (serve loads reqs s) ≤ posts reqs + size s
unfolding serve
serve_from-size loads [] s = omega arith
serve_from-size loads ((m, req) ∷ reqs) s = omega (
  arith,
  Change-size (handle-Change loads m req s),
  serve_from-size loads reqs (handle loads m req s).1,
)

-- After any requests to a fresh stub, its four stores together hold at most one record for each POST
-- among them.
pub serve-size :
    (loads : List ℕ → Option Json) (reqs : List (Method × Request))
    → size (serve loads reqs fresh_server) ≤ posts reqs
serve-size loads reqs = omega (arith, serve_from-size loads reqs fresh_server)
