-- ===== src/Mock/Latency/Delays.antt =====
-- Every reply is delayed by the latency of the stores that its request leaves.
use project_charybdis.Base.{
  ◌≡◌, refl, ap, sym, ◌∙◌, ◌⊎◌, inl, inr, ℕ, Option, List, Text, Bool, ◌&&◌, not, text_eq,
  starts_with, ends_with, has_key, Result, ok, raised, Result-cases, if_either, arith,
}
use project_charybdis.Base.Exec
use project_charybdis.Base.Exec.{Exec}
use project_charybdis.Json.{as_dict, Json, Fields}
use project_charybdis.Mock.State.{Server, Reply}
use project_charybdis.Mock.Request.{Request, route_path, parse_body}
use project_charybdis.Mock.Faults.{kill_active}
use project_charybdis.Mock.Send.{send}
use project_charybdis.Mock.Replies.{slept, replied, send-eq}
use project_charybdis.Mock.Handler.{
  Method, get_method, delete_method, post_method, get_tasks, get_health, do_get, is_chaos_type,
  base_fault, with_parameters, add_fault, post_chaos, is_bad_request, post_team, post_task,
  post_agent, post_to, do_post, delete_fault, do_delete, handle,
}

-- If the request is answered, then after the sleep that the stores it leaves ask for.
abbrev pub IsDelayed : Result Reply × Server → Type 0
IsDelayed r = (answer : Reply) → r.0 ≡ ok answer → slept r.1 ≡ ok answer.delay

replied-delay :
    (r : Result ℕ) (status : ℕ) (body : Fields) (answer : Reply)
    → replied r status body ≡ ok answer
    → r ≡ ok answer.delay
replied-delay (ok ms) status body answer e = ground arith
replied-delay (raised x) status body answer e = cc

send-IsDelayed : (status : ℕ) (body : Fields) (s : Server) → IsDelayed (send status body s)
send-IsDelayed status body s =
    rw (send-eq status body s) (λ answer e. replied-delay (slept s) status body answer e)

-- A chain that raises before it sends is not answered.
raised-IsDelayed : (e : project_charybdis.Base.PyError) (s : Server) → IsDelayed (raised e, s)
raised-IsDelayed e s answer h = cc

get_tasks-IsDelayed : (s : Server) → IsDelayed (get_tasks s)
unfolding get_tasks
get_tasks-IsDelayed s = send-IsDelayed 200 _ _

get_health-IsDelayed : (s : Server) → IsDelayed (get_health s)
unfolding get_health
get_health-IsDelayed s =
    if_either IsDelayed (kill_active s) (send-IsDelayed 503 _ s) (send-IsDelayed 200 _ s)

do_get-IsDelayed : (req : Request) (s : Server) → IsDelayed (do_get req s)
unfolding do_get
do_get-IsDelayed req s =
    let path = route_path req in
    if_either IsDelayed (text_eq path _) (get_health-IsDelayed s) (
      if_either IsDelayed (text_eq path _) (send-IsDelayed 200 _ s)
        (if_either IsDelayed (text_eq path _) (get_tasks-IsDelayed s) (send-IsDelayed 404 _ s)))

abbrev AllDelayed : Exec Server Reply → Type 0
AllDelayed m = (s : Server) → IsDelayed (m s)

do_delete-IsDelayed : (req : Request) → AllDelayed (do_delete req)
unfolding do_delete delete_fault
do_delete-IsDelayed req =
    if_either AllDelayed (starts_with (route_path req) _)
      (λ s.
        if_either IsDelayed (has_key _ s.faults) (send-IsDelayed 200 _ _) (send-IsDelayed 404 _ s))
      (send-IsDelayed 404 _)

add_fault-IsDelayed : (id : Text) (f : Fields) → AllDelayed (add_fault id f)
unfolding add_fault
add_fault-IsDelayed id f s = send-IsDelayed 201 f _

post_chaos-IsDelayed :
    (uuid t : Text) (body : Json) (empty : Bool) → AllDelayed (post_chaos uuid t body empty)
unfolding post_chaos
post_chaos-IsDelayed uuid t body empty =
    if_either AllDelayed (not (is_chaos_type t)) (send-IsDelayed 404 _) (
      if_either AllDelayed (text_eq t _) (send-IsDelayed 400 _)
        (if_either AllDelayed empty (send-IsDelayed 400 _) (λ s. made s)))
  where
    made :
        (s : Server)
        → IsDelayed (Exec.continue (with_parameters (base_fault uuid t) body) (add_fault uuid) s)
    made s = elim (Result-cases (with_parameters (base_fault uuid t) body)) [
      | inl (f, e) ↦ rw e (add_fault-IsDelayed uuid f s)
      | inr (x, e) ↦ rw e (raised-IsDelayed x s)
    ]

post_team-IsDelayed : (uuid ct : Text) (body : Json) → AllDelayed (post_team uuid ct body)
unfolding post_team
post_team-IsDelayed uuid ct body =
    if_either AllDelayed (is_bad_request ct body) (send-IsDelayed 400 _) (λ s.
      elim (Result-cases (as_dict body)) [
        | inl (d, e) ↦ rw e (send-IsDelayed 201 _ _)
        | inr (x, e) ↦ rw e (raised-IsDelayed x s)
      ])

post_task-IsDelayed : (uuid team ct : Text) (body : Json) → AllDelayed (post_task uuid team ct body)
unfolding post_task
post_task-IsDelayed uuid team ct body =
    if_either AllDelayed (is_bad_request ct body) (send-IsDelayed 400 _) (λ s.
      elim (Result-cases (as_dict body)) [
        | inl (d, e) ↦ rw e (send-IsDelayed 201 _ _)
        | inr (x, e) ↦ rw e (raised-IsDelayed x s)
      ])

post_agent-IsDelayed : (uuid ct : Text) (body : Json) → AllDelayed (post_agent uuid ct body)
unfolding post_agent
post_agent-IsDelayed uuid ct body =
    if_either AllDelayed (is_bad_request ct body) (send-IsDelayed 400 _) (λ s.
      elim (Result-cases (as_dict body)) [
        | inl (d, e) ↦ rw e (send-IsDelayed 201 _ _)
        | inr (x, e) ↦ rw e (raised-IsDelayed x s)
      ])

post_to-IsDelayed :
    (uuid path ct : Text) (body : Json) (empty : Bool)
    → AllDelayed (post_to uuid path ct body empty)
unfolding post_to
post_to-IsDelayed uuid path ct body empty =
    if_either AllDelayed (starts_with path _) (post_chaos-IsDelayed uuid _ body empty) (
      if_either AllDelayed (text_eq path _) (post_team-IsDelayed uuid ct body) (
        if_either AllDelayed (starts_with path _ && ends_with path _)
          (post_task-IsDelayed uuid _ ct body)
          (if_either AllDelayed (text_eq path _) (post_agent-IsDelayed uuid ct body)
            (send-IsDelayed 404 _))))

do_post-IsDelayed :
    (loads : List ℕ → Option Json) (uuid : Text) (req : Request)
    → AllDelayed (do_post loads uuid req)
unfolding do_post
do_post-IsDelayed loads uuid req s = elim (Result-cases (parse_body loads req)) [
  | inl (parsed, e) ↦ rw e (post_to-IsDelayed uuid _ _ parsed.0 parsed.1 s)
  | inr (x, e) ↦ rw e (raised-IsDelayed x s)
]

-- An answered request, whichever it is, was delayed by exactly the sleep that the sum of the latency
-- faults asks for in the stores that it leaves, which is none for a sum below zero: a new latency
-- fault slows its own answer, a removed one no longer does.
pub handle-IsDelayed :
    (loads : List ℕ → Option Json) (m : Method) (req : Request) (s : Server) (answer : Reply)
    → (handle loads m req s).0 ≡ ok answer
    → slept (handle loads m req s).1 ≡ ok answer.delay
unfolding handle
handle-IsDelayed loads get_method req s = do_get-IsDelayed req s
handle-IsDelayed loads delete_method req s = do_delete-IsDelayed req s
handle-IsDelayed loads (post_method uuid) req s = do_post-IsDelayed loads uuid req s
