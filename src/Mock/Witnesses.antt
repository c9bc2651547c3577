-- ===== src/Mock/Witnesses.antt =====
-- The theorems about the stub at inputs that meet their hypotheses.
use project_charybdis.Base.{
  ◌==◌, ap, text_eq_iff, ℕ, inl, ◌≡◌, ◌≢◌, refl, true, none, List, [], ◌∷◌, ◌++◌, Text, codes,
  text_eq, lookup, pos, ok, raised, if◌then◌else◌, arith,
}
use project_charybdis.Base.Errors.{value_error}
use project_charybdis.Json.{bool, int, str, Fields, end, field}
use project_charybdis.Mock.State.{Server, Reply, fresh_server}
use project_charybdis.Mock.Request.{Request}
use project_charybdis.Mock.Faults.{active_latency_ms}
use project_charybdis.Mock.Replies.{slept, replied}
use project_charybdis.Mock.Handler.{
  Method, chaos_prefix, get_method, says, do_get, do_post, do_delete, handle, serve, new_task,
}
use project_charybdis.Mock.Changes.{Change}
use project_charybdis.Mock.Changes.Refines.{handle-Change}
use project_charybdis.Mock.Invariant.{IsWellFormed, serve-IsWellFormed}
use project_charybdis.Mock.Answers.{do_delete-fault, do_delete-do_post}
use project_charybdis.Mock.Tasks.{IsDone, serve-IsDone}
use project_charybdis.Mock.Latency.Delays.{handle-IsDelayed}
use project_charybdis.Mock.Latency.Poison.{handle-poisoned}
use project_charybdis.Mock.Recovery.{NamesAll, deleting, IsRecovered, serve-IsRecovered}
use project_charybdis.Mock.Smoke
use project_charybdis.Mock.Smoke.Passes.{slowed, main-passes}
use project_charybdis.Mock.Tests.{
  runs, sample_loads, ask, visit, draw, after, slow, slow_twice, killed,
}

abbrev post_slow : Request
post_slow = ask "/v1/chaos/latency" "15" "{\"delay_ms\":10}"

abbrev ten_ms : Fields
ten_ms = field (codes "delay_ms") (int (pos 10)) end

-- The fault of `slow`.
abbrev slow_fault : Fields
slow_fault = field (codes "id") (str (codes "f1")) (
    field (codes "type") (str (codes "latency"))
      (field (codes "active") (bool true) (field (codes "delay_ms") (int (pos 10)) end)))

handle-Change_example :
    Change fresh_server (draw "f1") (handle sample_loads (draw "f1") post_slow fresh_server).1
handle-Change_example = handle-Change sample_loads (draw "f1") post_slow fresh_server

serve-IsWellFormed_example : IsWellFormed (serve sample_loads slow_twice fresh_server)
serve-IsWellFormed_example = serve-IsWellFormed sample_loads slow_twice

do_delete-fault_example :
    ((j : Text)
      → lookup j (do_delete (visit "/v1/chaos/f1") (after slow)).1.faults
        ≡ (if text_eq (codes "f1") j then none else lookup j (after slow).faults))
    × ((do_delete (visit "/v1/chaos/f1") (after slow)).0
        ≡ replied (slept fresh_server) 200 (field (codes "deleted") (str (codes "f1")) end))
unfolding runs
do_delete-fault_example =
    do_delete-fault (visit "/v1/chaos/f1") (after slow) (codes "f1")
      (serve-IsWellFormed sample_loads slow) refl

do_delete-do_post_example :
    (do_delete
      (visit "/v1/chaos/f1")
      (do_post sample_loads (codes "f1") post_slow (after killed)).1).1
    ≡ after killed
unfolding runs
do_delete-do_post_example =
    do_delete-do_post sample_loads (codes "f1") (codes "latency") post_slow (visit "/v1/chaos/f1")
      (after killed) refl refl refl

abbrev with_task : Server
with_task = after ((draw "t1", ask "/v1/teams/red/tasks" "15" "{\"subject\":\"a\"}") ∷ [])

abbrev pending_task : Fields
pending_task = new_task (codes "t1") (codes "red") (field (codes "subject") (str (codes "a")) end)

abbrev done_task : Fields
done_task = field (codes "id") (str (codes "t1")) (
    field (codes "team_id") (str (codes "red")) (
      field (codes "subject") (str (codes "a"))
        (field (codes "status") (str (codes "completed")) end)))

serve-IsDone_example : IsDone (codes "t1") (
    serve sample_loads
      ((draw "t2", ask "/v1/teams/red/tasks" "2" "{}") ∷ (get_method, visit "/v1/tasks") ∷ [])
      (do_get (visit "/v1/tasks") with_task).1)
unfolding runs
serve-IsDone_example =
    serve-IsDone sample_loads (codes "t1")
      ((draw "t2", ask "/v1/teams/red/tasks" "2" "{}") ∷ (get_method, visit "/v1/tasks") ∷ [])
      (do_get (visit "/v1/tasks") with_task).1 ((λ e. ground arith), ((λ e. e), tt))
      (record { task = done_task; stored = refl; done = refl })

handle-IsDelayed_example : slept (after slow) ≡ ok 10
unfolding runs
handle-IsDelayed_example =
    handle-IsDelayed sample_loads get_method (visit "/v1/health") (after slow)
      (record { status = 200; body = says "status" "ok"; delay = 10 }) refl

abbrev poison_reqs : List (Method × Request)
poison_reqs = (draw "p", ask "/v1/chaos/latency" "19" "{\"delay_ms\":\"soon\"}") ∷ []

abbrev poisoned : Server
poisoned = after poison_reqs

handle-poisoned_example :
    ((answer : Reply)
      → (handle sample_loads get_method (visit "/v1/health") poisoned).0 ≢ ok answer)
    × (active_latency_ms (handle sample_loads get_method (visit "/v1/health") poisoned).1
        ≡ raised value_error)
unfolding runs
handle-poisoned_example =
    handle-poisoned sample_loads get_method (visit "/v1/health") poisoned refl tt

abbrev post_task_a : Request
post_task_a = ask "/v1/teams/red/tasks" "15" "{\"subject\":\"a\"}"

-- The fault of `poisoned` is named by the request to delete it.
poisoned-NamesAll : NamesAll poisoned (visit "/v1/chaos/p" ∷ [])
unfolding runs
poisoned-NamesAll id there =
    let same_id : codes "p" ≡ id = ground (arith, text_eq_iff (codes "p") id) in
    (visit "/v1/chaos/p", inl refl, ap (λ k. chaos_prefix ++ k) same_id)

-- The stub answers no GET any more, until its fault is deleted.
serve-IsRecovered_example :
    IsRecovered
      (visit "/v1/tasks")
      (visit "/v1/health")
      (serve sample_loads (deleting (visit "/v1/chaos/p" ∷ [])) poisoned)
unfolding runs
serve-IsRecovered_example =
    serve-IsRecovered sample_loads (visit "/v1/chaos/p" ∷ []) (visit "/v1/tasks")
      (visit "/v1/health") poisoned (serve-IsWellFormed sample_loads poison_reqs) poisoned-NamesAll
      refl refl

abbrev shown : ℕ → Text
shown n = if n == 0 then codes "0" else if n == 7 then codes "7" else codes "15"

abbrev sample_dumps : Fields → Text
sample_dumps body = codes "{\"faults\": []}"

main-passes_example :
    Smoke.main sample_loads sample_dumps shown (λ n. codes "f1") 3 fresh_server
    ≡ (ok tt, slowed (codes "f1"))
unfolding runs
main-passes_example =
    main-passes sample_loads sample_dumps shown (λ n. codes "f1") 2 (refl, refl, refl) refl refl
