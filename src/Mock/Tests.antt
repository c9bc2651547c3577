-- ===== src/Mock/Tests.antt =====
-- Runs of the stub.
use project_charybdis.Base.{
  ℕ, ◌≡◌, refl, Option, none, some, List, [], ◌∷◌, String, codes, text_eq, starts_with, ends_with,
  contains_text, rstrip, lstrip, strip, is_space, is_digit, split_on, lookup, has_key, insert,
  delete, values, pos, neg, ◌+ℤ◌, ok, raised, Result, if◌then◌else◌,
}
use project_charybdis.Base.Errors.{value_error}
use project_charybdis.Json.{
  as_dict, Json, int, str, arr, obj, cons, nil, end, field, get, get_or, has_field, set_field,
  update, only_new, truthy, py_int, is_text, items_of, int_of_text, trunc,
}
use project_charybdis.Mock.State.{Server, Reply, fresh_server}
use project_charybdis.Mock.Request.{
  Request, before, has_char, without_params, urlparse_path, route_path, content_type_of, is_json,
  declared_length, read_body, parse_body,
}
use project_charybdis.Mock.Faults.{
  is_active, delay_ms, add_latency, latency_from, active_latency_ms, kill_active,
  queue_starve_active, sleep,
}
use project_charybdis.Mock.Send.{send}
use project_charybdis.Mock.Replies.{slept}
use project_charybdis.Mock.Handler.{
  Method, post_method, complete, complete_all, get_tasks, get_health, do_get, is_chaos_type,
  with_parameters, add_fault, post_chaos, is_bad_request, post_team, team_of_path, post_task,
  post_agent, post_to, do_post, delete_fault, do_delete, handle, serve,
}
use project_charybdis.Mock.Port.{port_of_env, resolve_requested_port}

-- All that a run of the stub computes with.
unfoldable pub runs : Unit {0}
unfolding text_eq starts_with ends_with contains_text rstrip lstrip strip is_space is_digit split_on
    lookup has_key insert delete values neg ◌+ℤ◌ get get_or has_field set_field update only_new
    truthy py_int is_text items_of int_of_text trunc before has_char without_params urlparse_path
    route_path content_type_of is_json declared_length read_body parse_body is_active delay_ms
    add_latency latency_from active_latency_ms kill_active queue_starve_active sleep send slept
    complete complete_all get_tasks get_health do_get is_chaos_type as_dict with_parameters
    add_fault post_chaos is_bad_request post_team team_of_path post_task post_agent post_to do_post
    delete_fault do_delete handle serve port_of_env resolve_requested_port
runs = tt

-- A decoder that knows the bodies of the runs.
abbrev pub sample_loads : List ℕ → Option Json
sample_loads raw =
    if text_eq raw (codes "{\"delay_ms\":10}")
    then some (obj (field (codes "delay_ms") (int (pos 10)) end))
    else if text_eq raw (codes "{\"delay_ms\":\"soon\"}")
    then some (obj (field (codes "delay_ms") (str (codes "soon")) end))
    else if text_eq raw (codes "{\"subject\":\"a\"}")
    then some (obj (field (codes "subject") (str (codes "a")) end))
    else if text_eq raw (codes "{}")
    then some (obj end)
    else if text_eq raw (codes "[1]")
    then some (arr (cons (int (pos 1)) nil))
    else none

abbrev pub ask : String → String → String → Request
ask target length body = record {
  target = codes target;
  content_type = some (codes "application/json");
  content_length = some (codes length);
  stream = codes body;
}

abbrev pub visit : String → Request
visit target = record {
  target = codes target;
  content_type = none;
  content_length = none;
  stream = [];
}

abbrev pub draw : String → Method
draw id = post_method (codes id)

abbrev status_of : Result Reply → Option ℕ
status_of (ok r) = some r.status
status_of (raised e) = none

abbrev delay_of : Result Reply → Option ℕ
delay_of (ok r) = some r.delay
delay_of (raised e) = none

abbrev pub after : List (Method × Request) → Server
after reqs = serve sample_loads reqs fresh_server

abbrev pub slow : List (Method × Request)
slow = (draw "f1", ask "/v1/chaos/latency" "15" "{\"delay_ms\":10}") ∷ []

abbrev pub slow_twice : List (Method × Request)
slow_twice =
    (draw "f1", ask "/v1/chaos/latency" "15" "{\"delay_ms\":10}")
    ∷ (draw "f2", ask "/v1/chaos/latency/?x=1" "15" "{\"delay_ms\":10}")
    ∷ []

latency_runs :
    (delay_of (do_get (visit "/v1/health") (after slow)).0 ≡ some 10)
    × (delay_of (do_get (visit "/v1/health") (after slow_twice)).0 ≡ some 20)
    × (delay_of (do_delete (visit "/v1/chaos/f1") (after slow_twice)).0 ≡ some 10)
unfolding runs
latency_runs = (refl, refl, refl)

abbrev pub killed : List (Method × Request)
killed = (draw "k", ask "/v1/chaos/kill" "2" "{}") ∷ []

health_runs :
    (status_of (do_get (visit "/v1/health/") fresh_server).0 ≡ some 200)
    × (status_of (do_get (visit "/v1/health") (after killed)).0 ≡ some 503)
    × (status_of (do_get (visit "/v1/nothing") fresh_server).0 ≡ some 404)
unfolding runs
health_runs = (refl, refl, refl)

post_runs :
    (status_of (do_post sample_loads (codes "a") (ask "/v1/chaos/test-empty" "0" "") fresh_server).0
      ≡ some 400)
    × (status_of (do_post sample_loads (codes "a") (ask "/v1/chaos/bogus" "2" "{}") fresh_server).0
        ≡ some 404)
    × (status_of (do_post sample_loads (codes "a") (ask "/v1/chaos/kill" "0" "") fresh_server).0
        ≡ some 400)
    × (status_of (do_post sample_loads (codes "a") (ask "/v1/chaos/kill" "4" "oops") fresh_server).0
        ≡ some 201)
    × (status_of (do_post sample_loads (codes "a") (ask "/v1/agents" "4" "oops") fresh_server).0
        ≡ some 400)
    × (status_of
          (do_post sample_loads
            (codes "a")
            (ask "/v1/teams/t/tasks" "15" "{\"subject\":\"a\"}")
            fresh_server).0
        ≡ some 201)
    × (status_of (do_post sample_loads (codes "a") (ask "/v1/agents" "3" "[1]") fresh_server).0
        ≡ none)
unfolding runs
post_runs = (refl, refl, refl, refl, refl, refl, refl)

port_runs :
    (resolve_requested_port (codes " 80_80 " ∷ []) none ≡ ok (pos 8080))
    × (resolve_requested_port [] (some (codes " 90 ")) ≡ ok (pos 90))
    × (resolve_requested_port [] (some (codes "  ")) ≡ ok (pos 0))
    × (resolve_requested_port (codes "x" ∷ []) (some (codes "90")) ≡ raised value_error)
unfolding runs
port_runs = (refl, refl, refl, refl)
