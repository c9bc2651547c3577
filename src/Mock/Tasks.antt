-- ===== src/Mock/Tasks.antt =====
-- The life of a task: pending until a GET of the tasks finds no queue-starve fault, then completed.
use project_charybdis.Base.{
  ◌≡◌, refl, inl, inr, Option, some, none, List, [], ◌∷◌, ℕ, false, Text, codes, text_eq,
  text_eq_iff, text_eq_refl, Dict, lookup, lookup-insert, values, arith, if◌then◌else◌, Bool-cases,
  All,
}
use project_charybdis.Json.{Json, Fields, str, arr, field, end, get, items_of}
use project_charybdis.Json.Laws.{get-set_field}
use project_charybdis.Mock.State.{Server}
use project_charybdis.Mock.Request.{Request, route_path}
use project_charybdis.Mock.Faults.{queue_starve_active}
use project_charybdis.Mock.Replies.{slept, replied, send-eq}
use project_charybdis.Mock.Handler
use project_charybdis.Mock.Handler.{
  Method, get_method, delete_method, post_method, complete_all, get_tasks, do_get, handle, serve,
}
use project_charybdis.Mock.Changes.{
  IsCompleted, Change, same, add_fault, add_team, add_agent, add_task, complete, remove_fault,
}
use project_charybdis.Mock.Changes.Refines.{handle-Change}

-- A task is there and completed.
pub record IsDone (id : Text) (s : Server) : Type 0 where
  pub task : Fields
  pub stored : lookup id s.tasks ≡ some task
  pub done : IsCompleted task

pub get-complete :
    (k : Text) (t : Fields)
    → get k (Handler.complete t)
      ≡ (if text_eq (codes "status") k then some (str (codes "completed")) else get k t)
unfolding Handler.complete
get-complete k t = get-set_field (codes "status") k (str (codes "completed")) t

abbrev completed : Option Fields → Option Fields
completed none = none
completed (some t) = some (Handler.complete t)

lookup-complete_all :
    (id : Text) (d : Dict Fields) → lookup id (complete_all d) ≡ completed (lookup id d)
unfolding lookup complete_all
lookup-complete_all id [] = refl
lookup-complete_all id ((j, t) ∷ d) = ground (arith, lookup-complete_all id d)

-- GET /v1/tasks: while a queue-starve fault is active the stores stay as they are; otherwise the
-- tasks, and only they, change. The answer lists the tasks as they then are.
pub do_get-tasks :
    (req : Request) (s : Server)
    → route_path req ≡ codes "/v1/tasks"
    → ((do_get req s).1
        ≡ (if queue_starve_active s then s else record s { tasks = complete_all s.tasks }))
      × ((do_get req s).0
          ≡ replied
              (slept s)
              200
              (field (codes "tasks") (arr (items_of (values (do_get req s).1.tasks))) end))
unfolding do_get get_tasks text_eq slept
do_get-tasks req s path = elim (Bool-cases (queue_starve_active s)) [
  | inl starved ↦ rw (path, starved, send-eq) (refl, refl)
  | inr open_queue ↦ rw (path, open_queue, send-eq) (refl, refl)
]

-- A GET of the tasks that meets no queue-starve fault completes every task and keeps its other
-- fields.
pub do_get-completes :
    (req : Request) (s : Server) (id : Text) (t : Fields)
    → route_path req ≡ codes "/v1/tasks"
    → queue_starve_active s ≡ false
    → lookup id s.tasks ≡ some t
    → (u : Fields) × (lookup id (do_get req s).1.tasks ≡ some u)
      × ((k : Text)
          → get k u
            ≡ (if text_eq (codes "status") k then some (str (codes "completed")) else get k t))
do_get-completes req s id t path open_queue stored = (
  Handler.complete t,
  rw ((do_get-tasks req s path).0, open_queue, lookup-complete_all id s.tasks, stored) refl,
  λ k. get-complete k t,
)

-- No later POST draws this identifier.
abbrev pub Draws : Text → Method → Type 0
Draws id (post_method uuid) = uuid ≡ id
Draws id get_method = ⊥
Draws id delete_method = ⊥

Change-IsDone :
    {id : Text} {m : Method} {s t : Server}
    → Change s m t
    → ¬ Draws id m
    → IsDone id s
    → IsDone id t
Change-IsDone {id} (same e) fresh d = rw e d
Change-IsDone {id} (add_fault f fault e) fresh d =
    rw e (record { task = d.task; stored = d.stored; done = d.done })
Change-IsDone {id} (add_team r new e) fresh d =
    rw e (record { task = d.task; stored = d.stored; done = d.done })
Change-IsDone {id} (add_agent r new e) fresh d =
    rw e (record { task = d.task; stored = d.stored; done = d.done })
Change-IsDone {id} {s} (add_task {id = uuid} r new pending e) fresh d = rw e (record {
  task = d.task;
  stored = ground (arith, lookup-insert uuid id r s.tasks, text_eq_iff uuid id, d.stored);
  done = d.done;
})
Change-IsDone {id} {s} (complete open_queue e) fresh d = rw e (record {
  task = Handler.complete d.task;
  stored = rw (lookup-complete_all id s.tasks, d.stored) refl;
  done = rw (get-complete (codes "status") d.task, text_eq_refl) refl;
})
Change-IsDone {id} (remove_fault k there e) fresh d =
    rw e (record { task = d.task; stored = d.stored; done = d.done })

-- A completed task stays completed through any requests, unless a POST draws its identifier again.
pub serve-IsDone :
    (loads : List ℕ → Option Json) (id : Text) (reqs : List (Method × Request)) (s : Server)
    → All (λ r. ¬ Draws id r.0) reqs
    → IsDone id s
    → IsDone id (serve loads reqs s)
unfolding serve
serve-IsDone loads id [] s fresh d = d
serve-IsDone loads id ((m, req) ∷ reqs) s fresh d =
    serve-IsDone loads id reqs _ fresh.1 (Change-IsDone (handle-Change loads m req s) fresh.0 d)
