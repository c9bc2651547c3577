-- ===== src/Mock/Changes/Refines/Posts.antt =====
-- The changes of each kind of POST.
use project_charybdis.Base.{
  ◌≡◌, refl, inl, inr, ◌⊎◌, Bool, true, false, insert, Text, codes, text_eq, Bool-cases, arith, ok,
  Result-cases, if_either, ℕ, ends_with, starts_with, ◌&&◌,
}
use project_charybdis.Json.{as_dict, Json, Fields, obj, get, has_field}
use project_charybdis.Json.Laws.{get-update-only_new}
use project_charybdis.Mock.State.{Server, Reply}
use project_charybdis.Base.Exec.{Exec}
use project_charybdis.Mock.Send.{send}
use project_charybdis.Mock.Replies.{send-state}
use project_charybdis.Mock.Handler
use project_charybdis.Mock.Handler.{
  post_method, base_fault, with_parameters, post_chaos, is_chaos_type, is_bad_request, post_team,
  post_task, post_agent, post_to, named_record, new_task,
}
use project_charybdis.Mock.Changes.{
  IsInjectable, IsFault, Change, same, add_fault, add_team, add_agent, add_task,
}

-- A parameter of the body never replaces a field that the stub gives the fault.
pub get-with_parameters :
    (k id t : Text) (body : Json) {f : Fields}
    → with_parameters (base_fault id t) body ≡ ok f
    → has_field k (base_fault id t) ≡ true
    → get k f ≡ get k (base_fault id t)
unfolding with_parameters as_dict
get-with_parameters k id t (obj d) h own =
    ground (arith, get-update-only_new k (base_fault id t) d own)
get-with_parameters k id t _ h own = ground arith

pub with_parameters-IsFault :
    (id t : Text) (body : Json) {f : Fields}
    → IsInjectable t
    → with_parameters (base_fault id t) body ≡ ok f
    → IsFault id f
unfolding get has_field text_eq
with_parameters-IsFault id t body inj h = record {
  chaos_type = t;
  own_id = get-with_parameters (codes "id") id t body h refl;
  of_type = get-with_parameters (codes "type") id t body h refl;
  injectable = inj;
  active = get-with_parameters (codes "active") id t body h refl;
}

pub send-Change :
    {uuid : Text} (status : ℕ) (body : Fields) (s : Server)
    → Change s (post_method uuid) (send status body s).1
send-Change status body s = same (send-state status body s)

-- What `POST /v1/chaos/<type>` does to the stores: nothing, or one fault more.
abbrev pub Injects : Text → Server → Server → Type 0
Injects uuid s t =
    (t ≡ s) ⊎ ((f : Fields) × IsFault uuid f × (t ≡ record s { faults = insert uuid f s.faults }))

-- Past its guards it adds the fault, or raises with nothing changed.
injected-Injects :
    (uuid t : Text) (body : Json) (s : Server)
    → IsInjectable t
    → Injects uuid s (post_chaos uuid t body false s).1
unfolding post_chaos Handler.add_fault
injected-Injects uuid t body s inj =
    elim (Result-cases (with_parameters (base_fault uuid t) body)) [
      | inl (f, made) ↦
          rw (inj.0, inj.1, made, send-state)
            (inr (f, with_parameters-IsFault uuid t body inj made, refl))
      | inr (e, failed) ↦ rw (inj.0, inj.1, failed) (inl refl)
    ]

pub post_chaos-Injects :
    (uuid t : Text) (body : Json) (empty : Bool) (s : Server)
    → Injects uuid s (post_chaos uuid t body empty s).1
unfolding post_chaos
post_chaos-Injects uuid t body empty s = elim (Bool-cases (is_chaos_type t)) [
  | inr unknown ↦ rw (unknown, send-state) (inl refl)
  | inl known ↦ elim (Bool-cases (text_eq t (codes "test-empty"))) [
    | inl diagnostic ↦ rw (known, diagnostic, send-state) (inl refl)
    | inr real ↦ elim (Bool-cases empty) [
      | inl nothing ↦ rw (known, real, nothing, send-state) (inl refl)
      | inr something ↦ rw something (injected-Injects uuid t body s (known, real))
    ]
  ]
]

post_chaos-Change :
    (uuid t : Text) (body : Json) (empty : Bool) (s : Server)
    → Change s (post_method uuid) (post_chaos uuid t body empty s).1
post_chaos-Change uuid t body empty s = elim (post_chaos-Injects uuid t body empty s) [
  | inl e ↦ same e
  | inr (f, fault, e) ↦ add_fault f fault e
]

-- The other three kinds share their shape: a bad request, no object, or one record more.
pub post_team-Change :
    (uuid ct : Text) (body : Json) (s : Server)
    → Change s (post_method uuid) (post_team uuid ct body s).1
unfolding post_team get text_eq
post_team-Change uuid ct body s =
    if_either {A = Exec Server Reply} (λ m. Change s (post_method uuid) (m s).1)
      (is_bad_request ct body) (send-Change 400 _ s)
      (elim (Result-cases (as_dict body)) [
        | inl (d, made) ↦ rw (made, send-state) (add_team (named_record uuid d) refl refl)
        | inr (e, failed) ↦ rw failed (same refl)
      ])

pub post_agent-Change :
    (uuid ct : Text) (body : Json) (s : Server)
    → Change s (post_method uuid) (post_agent uuid ct body s).1
unfolding post_agent get text_eq
post_agent-Change uuid ct body s =
    if_either {A = Exec Server Reply} (λ m. Change s (post_method uuid) (m s).1)
      (is_bad_request ct body) (send-Change 400 _ s)
      (elim (Result-cases (as_dict body)) [
        | inl (d, made) ↦ rw (made, send-state) (add_agent (named_record uuid d) refl refl)
        | inr (e, failed) ↦ rw failed (same refl)
      ])

pub post_task-Change :
    (uuid team_id ct : Text) (body : Json) (s : Server)
    → Change s (post_method uuid) (post_task uuid team_id ct body s).1
unfolding post_task get text_eq
post_task-Change uuid team_id ct body s =
    if_either {A = Exec Server Reply} (λ m. Change s (post_method uuid) (m s).1)
      (is_bad_request ct body) (send-Change 400 _ s)
      (elim (Result-cases (as_dict body)) [
        | inl (d, made) ↦ rw (made, send-state) (add_task (new_task uuid team_id d) refl refl refl)
        | inr (e, failed) ↦ rw failed (same refl)
      ])

pub post_to-Change :
    (uuid path ct : Text) (body : Json) (empty : Bool) (s : Server)
    → Change s (post_method uuid) (post_to uuid path ct body empty s).1
unfolding post_to
post_to-Change uuid path ct body empty s =
    let P = λ (m : Exec Server Reply). Change s (post_method uuid) (m s).1 in
    if_either P (starts_with path _) (post_chaos-Change uuid _ body empty s) (
      if_either P (text_eq path _) (post_team-Change uuid ct body s) (
        if_either P (starts_with path _ && ends_with path _) (post_task-Change uuid _ ct body s)
          (if_either P (text_eq path _) (post_agent-Change uuid ct body s) (send-Change 404 _ s))))
