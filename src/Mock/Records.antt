-- ===== src/Mock/Records.antt =====
-- The routes that register a team, an agent or a task, and a task's way from its POST to the list.
use project_charybdis.Base.{
  ◌≡◌, refl, ap, Dict, ◌⊎◌, inl, inr, Option, some, List, ◌++◌, ℕ, Bool, true, false, Text, codes,
  text_eq, text_eq_refl, starts_with, ends_with, ends_with-append, insert, lookup, lookup-insert,
  arith, ok,
}
use project_charybdis.Json.{as_dict, Json, Fields, str, obj, field, end, get}
use project_charybdis.Mock.State.{Server}
use project_charybdis.Mock.Request.{Request, route_path, content_type_of, parse_body}
use project_charybdis.Mock.Replies.{slept, replied, send-eq}
use project_charybdis.Mock.Faults.{queue_starve_active, latency_from}
use project_charybdis.Mock.Handler.{
  says, is_bad_request, new_task, post_team, post_task, post_agent, post_to, do_post, do_get,
  team_of_path,
}
use project_charybdis.Mock.Routes.{HasNoSlash, team_of_path-route}
use project_charybdis.Mock.Tasks.{do_get-completes}

-- The path of the tasks of a team.
abbrev pub tasks_path : Text → Text
tasks_path id = codes "/v1/teams/" ++ id ++ codes "/tasks"

-- The paths whose POST registers a record.
abbrev pub IsRecordPath : Text → Type 0
IsRecordPath p =
    (p ≡ codes "/v1/teams") ⊎ (p ≡ codes "/v1/agents") ⊎ ((id : Text) × (p ≡ tasks_path id))

tasks_path-ends : (id : Text) → ends_with (tasks_path id) (codes "/tasks") ≡ true
tasks_path-ends id = ends_with-append (codes "/v1/teams/" ++ id) (codes "/tasks")

post_to-tasks_path :
    (uuid ct id : Text) (body : Json) (empty : Bool) (s : Server)
    → post_to uuid (tasks_path id) ct body empty s
      ≡ post_task uuid (team_of_path (tasks_path id)) ct body s
unfolding post_to starts_with text_eq
post_to-tasks_path uuid ct id body empty s = rw (tasks_path-ends id) refl

-- A POST to one of these paths (/v1/teams, /v1/agents, the tasks of a team) with a body that is
-- empty, no JSON or null, or is declared as another type, is answered 400 after the sleep of the
-- latency faults, and changes no store.
pub do_post-bad_request :
    (loads : List ℕ → Option Json) (uuid : Text) (req : Request) (s : Server) {body : Json}
    {empty : Bool}
    → IsRecordPath (route_path req)
    → parse_body loads req ≡ ok (body, empty)
    → is_bad_request (content_type_of req) body ≡ true
    → do_post loads uuid req s ≡ (replied (slept s) 400 (says "error" "bad request"), s)
unfolding do_post post_to post_team post_agent post_task starts_with text_eq
do_post-bad_request loads uuid req s (inl path) read bad = rw (read, path, bad, send-eq) refl
do_post-bad_request loads uuid req s (inr (inl path)) read bad = rw (read, path, bad, send-eq) refl
do_post-bad_request loads uuid req s (inr (inr (id, path))) read bad =
    rw (read, path, post_to-tasks_path, bad, send-eq) refl

-- A POST of a JSON object to the tasks of a team registers a pending task under the identifier that
-- was drawn, with the team of the path and the subject of the body, and answers 201 with the task.
pub do_post-task :
    (loads : List ℕ → Option Json) (uuid id : Text) (req : Request) (s : Server) {d : Fields}
    {empty : Bool}
    → route_path req ≡ tasks_path id
    → HasNoSlash id
    → parse_body loads req ≡ ok (obj d, empty)
    → is_bad_request (content_type_of req) (obj d) ≡ false
    → do_post loads uuid req s ≡ (
      replied (slept s) 201 (field (codes "task") (obj (new_task uuid id d)) end),
      record s { tasks = insert uuid (new_task uuid id d) s.tasks },
    )
unfolding do_post post_task slept as_dict latency_from insert
do_post-task loads uuid id req s path plain read good =
    rw (read, path, post_to-tasks_path, team_of_path-route id plain, good, send-eq) refl

lookup-own : (id : Text) (t : Fields) (d : Dict Fields) → lookup id (insert id t d) ≡ some t
lookup-own id t d = ground (arith, lookup-insert id id t d, text_eq_refl id)

-- A task that is posted and then met by a GET of the tasks with no queue-starve fault is completed,
-- and keeps the team of its path and its identifier.
pub do_get-do_post :
    (loads : List ℕ → Option Json) (uuid id : Text) (post read_back : Request) (s : Server)
    {d : Fields} {empty : Bool}
    → route_path post ≡ tasks_path id
    → HasNoSlash id
    → parse_body loads post ≡ ok (obj d, empty)
    → is_bad_request (content_type_of post) (obj d) ≡ false
    → route_path read_back ≡ codes "/v1/tasks"
    → queue_starve_active s ≡ false
    → (u : Fields) × (lookup uuid (do_get read_back (do_post loads uuid post s).1).1.tasks ≡ some u)
      × (get (codes "id") u ≡ some (str uuid))
      × (get (codes "team_id") u ≡ some (str id))
      × (get (codes "status") u ≡ some (str (codes "completed")))
unfolding get text_eq queue_starve_active
do_get-do_post loads uuid id post read_back s {d} path plain read good path' open_queue =
    let posted = ap (λ r. r.1) (do_post-task loads uuid id post s path plain read good) in
    let (u, stored, fields) =
      do_get-completes read_back (record s { tasks = insert uuid (new_task uuid id d) s.tasks })
        uuid (new_task uuid id d) path' open_queue (lookup-own uuid (new_task uuid id d) s.tasks) in
    (u, rw posted stored, fields (codes "id"), fields (codes "team_id"), fields (codes "status"))
