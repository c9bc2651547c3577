-- ===== src/Mock/Recovery.antt =====
-- The way back from injected faults: what the DELETE of each of them leads to.
use project_charybdis.Base.{
  values, has_key-delete, sym, ◌≡◌, refl, ◌∙◌, ap, inl, inr, Option, none, List, [], ◌∷◌, ◌++◌, ℕ,
  true, false, Text, codes, text_eq_refl, Dict, Entries, IsIn, lookup, has_key, arith, ok,
  Bool-cases,
}
use project_charybdis.Json.{Json, Fields, arr, field, end, items_of}
use project_charybdis.Mock.State.{Server}
use project_charybdis.Mock.Request.{Request, route_path}
use project_charybdis.Mock.Faults.{queue_starve_active, active_latency_ms, latency_from, sleep}
use project_charybdis.Mock.Replies.{slept}
use project_charybdis.Mock.Handler.{
  Method, delete_method, says, complete_all, do_get, handle, serve, chaos_prefix,
}
use project_charybdis.Mock.Changes.{IsCompleted, Change, same, remove_fault}
use project_charybdis.Mock.Changes.Refines.{handle-Change}
use project_charybdis.Mock.Invariant.{IsWellFormed, handle-IsWellFormed, serve_from-IsWellFormed}
use project_charybdis.Mock.Answers.{do_get-health, do_delete-fault}
use project_charybdis.Mock.Tasks.{do_get-tasks, get-complete}

-- One of these requests names the fault.
abbrev pub Names : Text → List Request → Type 0
Names id dels = (req : Request) × IsIn req dels × (route_path req ≡ chaos_prefix ++ id)

-- Every fault of these stores is named by one of the requests.
abbrev pub NamesAll : Server → List Request → Type 0
NamesAll s dels = (id : Text) → has_key id s.faults ≡ true → Names id dels

-- A client that deletes faults.
abbrev pub deleting : List Request → List (Method × Request)
deleting [] = []
deleting (req ∷ dels) = (delete_method, req) ∷ deleting dels

has_key-eq-false_of_lookup :
    (id : Text) (d : Dict Fields) → lookup id d ≡ none → has_key id d ≡ false
unfolding lookup has_key
has_key-eq-false_of_lookup id [] h = refl
has_key-eq-false_of_lookup id ((j, f) ∷ d) h = ground (arith, has_key-eq-false_of_lookup id d)

no_keys : (d : Dict Fields) → ((id : Text) → has_key id d ≡ false) → d ≡ []
unfolding has_key
no_keys [] h = refl
no_keys ((j, f) ∷ d) h = absurd (ground (arith, h j, text_eq_refl j))

-- A DELETE brings no fault back, and removes the one that it names.
Change-no_key :
    {s t : Server} (id : Text)
    → Change s delete_method t
    → has_key id s.faults ≡ false
    → has_key id t.faults ≡ false
Change-no_key id (same e) gone = rw e gone
Change-no_key {s} id (remove_fault k there e) gone = rw e (has_key-delete k id s.faults gone)

handle-no_key :
    (loads : List ℕ → Option Json) (req : Request) (s : Server) (id : Text)
    → has_key id s.faults ≡ false
    → has_key id (handle loads delete_method req s).1.faults ≡ false
handle-no_key loads req s id gone = Change-no_key id (handle-Change loads delete_method req s) gone

handle-removed :
    (loads : List ℕ → Option Json) (req : Request) (s : Server) (id : Text)
    → IsWellFormed s
    → route_path req ≡ chaos_prefix ++ id
    → has_key id (handle loads delete_method req s).1.faults ≡ false
unfolding handle
handle-removed loads req s id w path =
    has_key-eq-false_of_lookup id _
      ((do_delete-fault req s id w path).0 id ∙ rw (text_eq_refl id) refl)

stays_gone :
    (loads : List ℕ → Option Json) (dels : List Request) (s : Server) (id : Text)
    → has_key id s.faults ≡ false
    → has_key id (serve loads (deleting dels) s).faults ≡ false
unfolding serve
stays_gone loads [] s id gone = gone
stays_gone loads (req ∷ dels) s id gone =
    stays_gone loads dels _ id (handle-no_key loads req s id gone)

named_gone :
    (loads : List ℕ → Option Json) (dels : List Request) (s : Server) (id : Text)
    → IsWellFormed s
    → Names id dels
    → has_key id (serve loads (deleting dels) s).faults ≡ false
unfolding serve
named_gone loads [] s id w (req, there, path) = absurd there
named_gone loads (del ∷ dels) s id w (req, inl first, path) =
    stays_gone loads dels _ id (handle-removed loads del s id w (sym (ap route_path first) ∙ path))
named_gone loads (del ∷ dels) s id w (req, inr later, path) =
    named_gone loads dels _ id (handle-IsWellFormed loads delete_method del s w) (req, later, path)

serve-no_faults :
    (loads : List ℕ → Option Json) (dels : List Request) (s : Server)
    → IsWellFormed s
    → NamesAll s dels
    → (serve loads (deleting dels) s).faults ≡ []
serve-no_faults loads dels s w names = no_keys _ (λ id. elim (Bool-cases (has_key id s.faults)) [
  | inl there ↦ named_gone loads dels s id w (names id there)
  | inr gone ↦ stays_gone loads dels s id gone
])

complete_all-IsCompleted : (d : Dict Fields) → Entries (λ id t. IsCompleted t) (complete_all d)
unfolding complete_all
complete_all-IsCompleted [] = tt
complete_all-IsCompleted ((id, t) ∷ d) =
    (rw (get-complete (codes "status") t, text_eq_refl) refl, complete_all-IsCompleted d)

-- What a stub is like that has no fault.
pub record IsRecovered (tasks_req health_req : Request) (s : Server) : Type 0 where
  pub no_faults : s.faults ≡ []
  pub tasks : Entries (λ id t. IsCompleted t) (do_get tasks_req s).1.tasks
  pub answered :
      (do_get tasks_req s).0
      ≡ ok (record {
        status = 200;
        body = field (codes "tasks") (arr (items_of (values (do_get tasks_req s).1.tasks))) end;
        delay = 0;
      })
  pub health :
      (do_get health_req s).0 ≡ ok (record { status = 200; body = says "status" "ok"; delay = 0 })

slept-no_faults : (s : Server) → s.faults ≡ [] → slept s ≡ ok 0
unfolding slept active_latency_ms latency_from sleep values
slept-no_faults s none_left = rw none_left refl

queue_starve_active-no_faults : (s : Server) → s.faults ≡ [] → queue_starve_active s ≡ false
unfolding queue_starve_active values
queue_starve_active-no_faults s none_left = rw none_left refl

no_faults-IsRecovered :
    (tasks_req health_req : Request) (s : Server)
    → IsWellFormed s
    → route_path tasks_req ≡ codes "/v1/tasks"
    → route_path health_req ≡ codes "/v1/health"
    → s.faults ≡ []
    → IsRecovered tasks_req health_req s
unfolding values
no_faults-IsRecovered tasks_req health_req s w t h none_left =
    let (stored, answer) = do_get-tasks tasks_req s t in
    let at_once = slept-no_faults s none_left in
    record {
      no_faults = none_left;
      tasks =
          rw (stored, queue_starve_active-no_faults s none_left) (complete_all-IsCompleted s.tasks);
      answered = answer ∙ rw at_once refl;
      health = ap (λ r. r.0) (do_get-health health_req s w h) ∙ rw (at_once, none_left) refl;
    }

-- From every well-formed state, as all are that requests can lead to, and also where no GET and no POST
-- is answered any more: requests to delete that name each fault lead to a stub without faults. A GET
-- of its tasks completes all of them, and is answered at once, and so is its health, which is good.
pub serve-IsRecovered :
    (loads : List ℕ → Option Json) (dels : List Request) (tasks_req health_req : Request)
    (s : Server)
    → IsWellFormed s
    → NamesAll s dels
    → route_path tasks_req ≡ codes "/v1/tasks"
    → route_path health_req ≡ codes "/v1/health"
    → IsRecovered tasks_req health_req (serve loads (deleting dels) s)
serve-IsRecovered loads dels tasks_req health_req s w names t h =
    no_faults-IsRecovered tasks_req health_req _ (serve_from-IsWellFormed loads (deleting dels) s w)
      t h (serve-no_faults loads dels s w names)
