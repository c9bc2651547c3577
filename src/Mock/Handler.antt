-- ===== src/Mock/Handler.antt =====
-- `AgamemnonHandler`: `do_GET`, `do_POST` and `do_DELETE`, and a run of requests.
use project_charybdis.Base.{
  ℕ, Bool, true, not, ◌&&◌, Option, List, [], ◌∷◌, Text, codes, text_eq, starts_with, ends_with,
  split_on, length, drop, any, insert, delete, has_key, values, Dict, Result, ok, raised,
  if◌then◌else◌, String,
}
use project_charybdis.Base.Exec.{Exec, reads, modify, ◌>>=◌, ◌>>◌}
use project_charybdis.Json.{
  Json, null, bool, str, arr, obj, Fields, end, field, get_or, set_field, update, only_new, truthy,
  items_of, as_dict,
}
use project_charybdis.Mock.State.{Server, Reply}
use project_charybdis.Mock.Request.{Request, route_path, content_type_of, is_json, parse_body}
use project_charybdis.Mock.Faults.{kill_active, queue_starve_active}
use project_charybdis.Mock.Send.{send}

-- `{k: v}` with a text for its value
abbrev pub says : String → String → Fields
says k v = field (codes k) (str (codes v)) end

-- `task["status"] = "completed"` for every task
unfoldable pub complete : Fields → Fields
complete task = set_field (codes "status") (str (codes "completed")) task

unfoldable pub complete_all : Dict Fields → Dict Fields
complete_all [] = []
complete_all ((id, task) ∷ tasks) = (id, complete task) ∷ complete_all tasks

unfoldable pub get_tasks : Exec Server Reply
get_tasks s =
    let s' = if queue_starve_active s then s else record s { tasks = complete_all s.tasks } in
    send 200 (field (codes "tasks") (arr (items_of (values s'.tasks))) end) s'

unfoldable pub get_health : Exec Server Reply
get_health s =
    if kill_active s then send 503 (says "status" "degraded") s else send 200 (says "status" "ok") s

unfoldable pub do_get : Request → Exec Server Reply
do_get req s =
    let path = route_path req in
    if text_eq path (codes "/v1/health")
    then get_health s
    else if text_eq path (codes "/v1/chaos")
    then send 200 (field (codes "faults") (arr (items_of (values s.faults))) end) s
    else if text_eq path (codes "/v1/tasks")
    then get_tasks s
    else send 404 (says "error" "not found") s

abbrev pub chaos_types : List Text
chaos_types =
    codes "network-partition"
    ∷ codes "latency"
    ∷ codes "kill"
    ∷ codes "queue-starve"
    ∷ codes "test-empty"
    ∷ []

-- `chaos_type in CHAOS_TYPES`
unfoldable pub is_chaos_type : Text → Bool
is_chaos_type t = any (text_eq t) chaos_types

-- The fields that the stub gives every fault.
abbrev pub base_fault : Text → Text → Fields
base_fault id chaos_type =
    field (codes "id") (str id)
      (field (codes "type") (str chaos_type) (field (codes "active") (bool true) end))

-- `if body: fault.update({k: v for k, v in body.items() if k not in fault})`
unfoldable pub with_parameters : Fields → Json → Result Fields
with_parameters fault body =
    if truthy body
    then (elim (as_dict body) [ ok d ↦ ok (update fault (only_new fault d)) | raised e ↦ raised e ])
    else ok fault

unfoldable pub add_fault : Text → Fields → Exec Server Reply
add_fault id fault = do modify (λ s. record s { faults = insert id fault s.faults }); send 201 fault

unfoldable pub post_chaos : Text → Text → Json → Bool → Exec Server Reply
post_chaos uuid chaos_type body empty =
    if not (is_chaos_type chaos_type)
    then send 404 (says "error" "unknown chaos type")
    else if text_eq chaos_type (codes "test-empty")
    then send 400
        (says "error" (if empty then "empty body" else "test-empty rejects non-empty body"))
    else if empty
    then send 400 (says "error" "empty body")
    else do
      fault ← reads (λ _. with_parameters (base_fault uuid chaos_type) body)
      add_fault uuid fault

-- `not _is_json(ct) or body is None`
unfoldable pub is_bad_request : Text → Json → Bool
is_bad_request ct null = true
is_bad_request ct body = not (is_json ct)

-- `{"id": id, "name": body.get("name", "unnamed")}`
abbrev pub named_record : Text → Fields → Fields
named_record id body =
    field (codes "id") (str id)
      (field (codes "name") (get_or (codes "name") (str (codes "unnamed")) body) end)

unfoldable pub post_team : Text → Text → Json → Exec Server Reply
post_team uuid ct body =
    if is_bad_request ct body then send 400 (says "error" "bad request") else do
      d ← reads (λ _. as_dict body)
      modify (λ s. record s { teams = insert uuid (named_record uuid d) s.teams })
      send 201 (field (codes "team") (obj (named_record uuid d)) end)

-- `parts[3] if len(parts) >= 4 else "unknown"`
abbrev pub fourth_or_unknown : List Text → Text
fourth_or_unknown (a ∷ b ∷ c ∷ id ∷ parts) = id
fourth_or_unknown _ = codes "unknown"

unfoldable pub team_of_path : Text → Text
team_of_path path = fourth_or_unknown (split_on b'/' path)

abbrev pub new_task : Text → Text → Fields → Fields
new_task id team_id body = field (codes "id") (str id) (
    field (codes "team_id") (str team_id) (
      field (codes "subject") (get_or (codes "subject") (str []) body)
        (field (codes "status") (str (codes "pending")) end)))

unfoldable pub post_task : Text → Text → Text → Json → Exec Server Reply
post_task uuid team_id ct body =
    if is_bad_request ct body then send 400 (says "error" "bad request") else do
      d ← reads (λ _. as_dict body)
      modify (λ s. record s { tasks = insert uuid (new_task uuid team_id d) s.tasks })
      send 201 (field (codes "task") (obj (new_task uuid team_id d)) end)

unfoldable pub post_agent : Text → Text → Json → Exec Server Reply
post_agent uuid ct body =
    if is_bad_request ct body then send 400 (says "error" "bad request") else do
      d ← reads (λ _. as_dict body)
      modify (λ s. record s { agents = insert uuid (named_record uuid d) s.agents })
      send 201
          (field (codes "agent") (obj (named_record uuid d)) (field (codes "id") (str uuid) end))

abbrev pub chaos_prefix : Text
chaos_prefix = codes "/v1/chaos/"

-- The paths that `do_POST` answers: a fault, a team, a task of a team, or an agent.
unfoldable pub post_to : Text → Text → Text → Json → Bool → Exec Server Reply
post_to uuid path ct body empty =
    if starts_with path chaos_prefix
    then post_chaos uuid (drop (length chaos_prefix) path) body empty
    else if text_eq path (codes "/v1/teams")
    then post_team uuid ct body
    else if starts_with path (codes "/v1/teams/") && ends_with path (codes "/tasks")
    then post_task uuid (team_of_path path) ct body
    else if text_eq path (codes "/v1/agents")
    then post_agent uuid ct body
    else send 404 (says "error" "not found")

-- `uuid` is what `uuid.uuid4()` returns for this request.
unfoldable pub do_post : (List ℕ → Option Json) → Text → Request → Exec Server Reply
do_post loads uuid req = do
  parsed ← reads (λ _. parse_body loads req)
  post_to uuid (route_path req) (content_type_of req) parsed.0 parsed.1

unfoldable pub delete_fault : Text → Exec Server Reply
delete_fault id s =
    if has_key id s.faults
    then send 200 (field (codes "deleted") (str id) end) (record s { faults = delete id s.faults })
    else send 404 (says "error" "fault not found") s

unfoldable pub do_delete : Request → Exec Server Reply
do_delete req =
    if starts_with (route_path req) chaos_prefix
    then delete_fault (drop (length chaos_prefix) (route_path req))
    else send 404 (says "error" "not found")

pub data Method : Type 0 where
  get_method delete_method : Method
  -- with the identifier that `uuid.uuid4()` returns if it is called
  post_method : Text → Method

-- One request, whichever its method.
unfoldable pub handle : (List ℕ → Option Json) → Method → Request → Exec Server Reply
handle loads get_method req = do_get req
handle loads delete_method req = do_delete req
handle loads (post_method uuid) req = do_post loads uuid req

-- `serve_forever`: the requests in turn. An exception ends its own request alone.
unfoldable pub serve : (List ℕ → Option Json) → List (Method × Request) → Server → Server
serve loads [] s = s
serve loads ((m, req) ∷ rest) s = serve loads rest (handle loads m req s).1
