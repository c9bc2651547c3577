-- ===== src/Mock/Invariant.antt =====
-- The invariant of the stub, in every state that requests can reach.
use project_charybdis.Base.{
  ◌≡◌, ◌≢◌, refl, ◌∙◌, ◌⊎◌, inl, inr, Option, List, [], ◌∷◌, ℕ, Text, codes, text_eq, text_eq_refl,
  Entries, HasDistinctKeys, Dict, insert-Entries, delete-Entries, insert-HasDistinctKeys,
  delete-HasDistinctKeys, All-map_implies, has_key, arith, some,
}
use project_charybdis.Json.{Json, Fields, str, get}
use project_charybdis.Json.Laws.{get-set_field}
use project_charybdis.Mock.State.{Server, fresh_server}
use project_charybdis.Mock.Request.{Request}
use project_charybdis.Mock.Handler
use project_charybdis.Mock.Handler.{Method, complete_all, handle, serve}
use project_charybdis.Mock.Changes.{
  IsFault, IsNamed, IsPending, IsCompleted, Change, same, add_fault, add_team, add_agent, add_task,
  complete, remove_fault,
}
use project_charybdis.Mock.Changes.Refines.{handle-Change}

pub record IsTask (id : Text) (t : Fields) : Type 0 where
  pub own_id : IsNamed id t
  pub status : IsPending t ⊎ IsCompleted t

-- Each record carries its own key, and no key is there twice; a fault is active and of a type that
-- can be injected; a task is pending or completed.
pub record IsWellFormed (s : Server) : Type 0 where
  pub faults : Entries IsFault s.faults
  pub teams : Entries IsNamed s.teams
  pub agents : Entries IsNamed s.agents
  pub tasks : Entries IsTask s.tasks
  pub distinct_faults : HasDistinctKeys s.faults
  pub distinct_tasks : HasDistinctKeys s.tasks

complete-IsTask : (id : Text) (t : Fields) → IsTask id t → IsTask id (Handler.complete t)
unfolding Handler.complete text_eq
complete-IsTask id t h = record {
  own_id = ground (arith, get-set_field (codes "status") (codes "id") (str (codes "completed")) t);
  status = inr (get-set_field (codes "status") (codes "status") (str (codes "completed")) t);
}

complete_all-Entries : (d : Dict Fields) → Entries IsTask d → Entries IsTask (complete_all d)
unfolding complete_all
complete_all-Entries [] h = tt
complete_all-Entries ((id, t) ∷ d) (p, h) = (complete-IsTask id t p, complete_all-Entries d h)

pub has_key-complete_all : (k : Text) (d : Dict Fields) → has_key k (complete_all d) ≡ has_key k d
unfolding complete_all has_key
has_key-complete_all k [] = refl
has_key-complete_all k ((id, t) ∷ d) = ground (arith, has_key-complete_all k d)

complete_all-HasDistinctKeys :
    (d : Dict Fields) → HasDistinctKeys d → HasDistinctKeys (complete_all d)
unfolding complete_all
complete_all-HasDistinctKeys [] h = tt
complete_all-HasDistinctKeys ((id, t) ∷ d) (new, h) =
    (has_key-complete_all id d ∙ new, complete_all-HasDistinctKeys d h)

pub Change-IsWellFormed :
    {m : Method} {s t : Server} → Change s m t → IsWellFormed s → IsWellFormed t
Change-IsWellFormed (same e) w = rw e w
Change-IsWellFormed {s} (add_fault {id} f new e) w = rw e (record {
  faults = insert-Entries IsFault id f s.faults new w.faults;
  teams = w.teams;
  agents = w.agents;
  tasks = w.tasks;
  distinct_faults = insert-HasDistinctKeys id f s.faults w.distinct_faults;
  distinct_tasks = w.distinct_tasks;
})
Change-IsWellFormed {s} (add_team {id} r new e) w = rw e (record {
  faults = w.faults;
  teams = insert-Entries IsNamed id r s.teams new w.teams;
  agents = w.agents;
  tasks = w.tasks;
  distinct_faults = w.distinct_faults;
  distinct_tasks = w.distinct_tasks;
})
Change-IsWellFormed {s} (add_agent {id} r new e) w = rw e (record {
  faults = w.faults;
  teams = w.teams;
  agents = insert-Entries IsNamed id r s.agents new w.agents;
  tasks = w.tasks;
  distinct_faults = w.distinct_faults;
  distinct_tasks = w.distinct_tasks;
})
Change-IsWellFormed {s} (add_task {id} r new pending e) w = rw e (record {
  faults = w.faults;
  teams = w.teams;
  agents = w.agents;
  tasks =
      insert-Entries IsTask id r s.tasks (record { own_id = new; status = inl pending }) w.tasks;
  distinct_faults = w.distinct_faults;
  distinct_tasks = insert-HasDistinctKeys id r s.tasks w.distinct_tasks;
})
Change-IsWellFormed {s} (complete open_queue e) w = rw e (record {
  faults = w.faults;
  teams = w.teams;
  agents = w.agents;
  tasks = complete_all-Entries s.tasks w.tasks;
  distinct_faults = w.distinct_faults;
  distinct_tasks = complete_all-HasDistinctKeys s.tasks w.distinct_tasks;
})
Change-IsWellFormed {s} (remove_fault id there e) w = rw e (record {
  faults = delete-Entries IsFault id s.faults w.faults;
  teams = w.teams;
  agents = w.agents;
  tasks = w.tasks;
  distinct_faults = delete-HasDistinctKeys id s.faults w.distinct_faults;
  distinct_tasks = w.distinct_tasks;
})

-- A request keeps the invariant, whether it is answered or ends in an exception.
pub handle-IsWellFormed :
    (loads : List ℕ → Option Json) (m : Method) (req : Request) (s : Server)
    → IsWellFormed s
    → IsWellFormed (handle loads m req s).1
handle-IsWellFormed loads m req s w = Change-IsWellFormed (handle-Change loads m req s) w

-- So any requests keep it.
pub serve_from-IsWellFormed :
    (loads : List ℕ → Option Json) (reqs : List (Method × Request)) (s : Server)
    → IsWellFormed s
    → IsWellFormed (serve loads reqs s)
unfolding serve
serve_from-IsWellFormed loads [] s w = w
serve_from-IsWellFormed loads ((m, req) ∷ reqs) s w =
    serve_from-IsWellFormed loads reqs _ (handle-IsWellFormed loads m req s w)

-- After any requests to a fresh stub, answered or not, the stores are well formed.
pub serve-IsWellFormed :
    (loads : List ℕ → Option Json) (reqs : List (Method × Request))
    → IsWellFormed (serve loads reqs fresh_server)
serve-IsWellFormed loads reqs = serve_from-IsWellFormed loads reqs fresh_server (record {
  faults = tt;
  teams = tt;
  agents = tt;
  tasks = tt;
  distinct_faults = tt;
  distinct_tasks = tt;
})

IsFault-ne-test_empty :
    (id : Text) (f : Fields) → IsFault id f → get (codes "type") f ≢ some (str (codes "test-empty"))
IsFault-ne-test_empty id f h e = ground (arith, text_eq_refl (codes "test-empty"))

-- Whatever is posted, no fault of the type "test-empty" is ever registered.
pub serve-no_test_empty :
    (loads : List ℕ → Option Json) (reqs : List (Method × Request))
    → Entries
        (λ id f. get (codes "type") f ≢ some (str (codes "test-empty")))
        (serve loads reqs fresh_server).faults
serve-no_test_empty loads reqs =
    All-map_implies (λ e. IsFault e.0 e.1) _ (λ e. IsFault-ne-test_empty e.0 e.1) _
      (serve-IsWellFormed loads reqs).faults
