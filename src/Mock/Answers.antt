-- ===== src/Mock/Answers.antt =====
-- What the stub answers: its health, the diagnostic endpoint, the removal of a fault, its tasks.
use project_charybdis.Base.{
  ◌≡◌, refl, ◌∙◌, inl, inr, Option, none, List, [], ◌∷◌, ℕ, Bool, false, Text, codes, text_eq,
  text_eq_iff, text_eq_refl, starts_with, Dict, Entries, lookup, values, any, delete, delete-insert,
  lookup-delete, lookup-eq-none_of_has_key, Result-cases, has_key, arith, ok, if◌then◌else◌,
  Bool-cases, ◌++◌,
}
use project_charybdis.Json.{Json, Fields, str, field, end, get, get_or, truthy, is_text}
use project_charybdis.Mock.State.{Server}
use project_charybdis.Mock.Request.{Request, route_path, parse_body}
use project_charybdis.Mock.Faults.{is_active, kill_active}
use project_charybdis.Mock.Replies.{slept, replied, send-eq}
use project_charybdis.Mock.Handler.{
  says, get_health, do_get, do_post, do_delete, post_to, post_chaos, delete_fault, is_chaos_type,
  chaos_prefix,
}
use project_charybdis.Mock.Changes.{IsFault}
use project_charybdis.Mock.Changes.Refines.{Injects, post_chaos-Injects}
use project_charybdis.Mock.Invariant.{IsWellFormed}

-- A fault of this kind is registered.
abbrev pub has_fault : Text → Dict Fields → Bool
has_fault kind d = any (λ f. is_text kind (get (codes "type") f)) (values d)

is_active_of_IsFault :
    (kind id : Text) (f : Fields)
    → IsFault id f
    → is_active kind f ≡ is_text kind (get (codes "type") f)
unfolding is_active get_or truthy
is_active_of_IsFault kind id f h = ground arith

any_active-eq-has_fault :
    (kind : Text) (d : Dict Fields)
    → Entries IsFault d
    → any (is_active kind) (values d) ≡ has_fault kind d
unfolding values
any_active-eq-has_fault kind [] h = refl
any_active-eq-has_fault kind ((id, f) ∷ d) (p, h) =
    ground (arith, is_active_of_IsFault kind id f p, any_active-eq-has_fault kind d h)

-- GET /v1/health answers 503 while a kill fault is registered and 200 otherwise, after the sleep of
-- the latency faults, and changes no store.
pub do_get-health :
    (req : Request) (s : Server)
    → IsWellFormed s
    → route_path req ≡ codes "/v1/health"
    → do_get req s ≡ (
        if has_fault (codes "kill") s.faults
        then (replied (slept s) 503 (says "status" "degraded"), s)
        else (replied (slept s) 200 (says "status" "ok"), s))
unfolding do_get get_health kill_active
do_get-health req s w path =
    rw (
      path,
      text_eq_refl,
      any_active-eq-has_fault (codes "kill") s.faults w.faults,
      send-eq,
      send-eq,
    )

-- A POST to the diagnostic endpoint answers 400 whatever its body, and changes no store.
pub do_post-test_empty :
    (loads : List ℕ → Option Json) (uuid : Text) (req : Request) (s : Server) {body : Json}
    {empty : Bool}
    → route_path req ≡ codes "/v1/chaos/test-empty"
    → parse_body loads req ≡ ok (body, empty)
    → do_post loads uuid req s ≡ (
      replied
          (slept s)
          400
          (says "error" (if empty then "empty body" else "test-empty rejects non-empty body")),
      s,
    )
unfolding do_post post_to post_chaos is_chaos_type starts_with text_eq
do_post-test_empty loads uuid req s path read = rw (read, path, send-eq)

abbrev without_fault : Text → Server → Server
without_fault id s = record s { faults = delete id s.faults }

delete_fault-eq :
    (id : Text) (s : Server)
    → delete_fault id s ≡ (
        if has_key id s.faults
        then (
          replied (slept (without_fault id s)) 200 (field (codes "deleted") (str id) end),
          without_fault id s,
        )
        else (replied (slept s) 404 (says "error" "fault not found"), s))
unfolding delete_fault
delete_fault-eq id s = elim (Bool-cases (has_key id s.faults)) [
  | inl there ↦ rw (there, send-eq) refl
  | inr missing ↦ rw (missing, send-eq) refl
]

do_delete-eq :
    (req : Request) (s : Server) (id : Text)
    → route_path req ≡ chaos_prefix ++ id
    → do_delete req s ≡ delete_fault id s
unfolding do_delete starts_with
do_delete-eq req s id path = rw path refl

delete-absent : (id : Text) (d : Dict Fields) → has_key id d ≡ false → delete id d ≡ d
unfolding delete has_key
delete-absent id [] h = refl
delete-absent id ((j, f) ∷ d) h = ground (arith, delete-absent id d)

-- DELETE /v1/chaos/<id> removes the fault under that key and no other. It answers 200 with the key,
-- after the sleep of the faults that are left, or 404 where there is no such fault.
pub do_delete-fault :
    (req : Request) (s : Server) (id : Text)
    → IsWellFormed s
    → route_path req ≡ chaos_prefix ++ id
    → ((j : Text)
        → lookup j (do_delete req s).1.faults ≡ (if text_eq id j then none else lookup j s.faults))
      × ((do_delete req s).0 ≡ (
          if has_key id s.faults
          then replied (slept (do_delete req s).1) 200 (field (codes "deleted") (str id) end)
          else replied (slept s) 404 (says "error" "fault not found")))
do_delete-fault req s id w path = elim (Bool-cases (has_key id s.faults)) [
  | inl there ↦
      let gone = do_delete-eq req s id path ∙ delete_fault-eq id s in
      rw (gone, there) (λ j. lookup-delete id j s.faults w.distinct_faults, refl)
  | inr missing ↦
      let kept = do_delete-eq req s id path ∙ delete_fault-eq id s in
      rw (kept, missing)
        (λ j. ground (arith, text_eq_iff id j, lookup-eq-none_of_has_key id s.faults), refl)
]

do_post-Injects :
    (loads : List ℕ → Option Json) (uuid t : Text) (req : Request) (s : Server)
    → route_path req ≡ chaos_prefix ++ t
    → Injects uuid s (do_post loads uuid req s).1
unfolding do_post post_to starts_with
do_post-Injects loads uuid t req s path = elim (Result-cases (parse_body loads req)) [
  | inl (parsed, read) ↦ rw (read, path) (post_chaos-Injects uuid t parsed.0 parsed.1 s)
  | inr (e, failed) ↦ rw failed (inl refl)
]

-- A fault that is posted under a new identifier and then deleted leaves the stores as they were,
-- also where the POST is refused.
pub do_delete-do_post :
    (loads : List ℕ → Option Json) (uuid t : Text) (post del : Request) (s : Server)
    → has_key uuid s.faults ≡ false
    → route_path post ≡ chaos_prefix ++ t
    → route_path del ≡ chaos_prefix ++ uuid
    → (do_delete del (do_post loads uuid post s).1).1 ≡ s
do_delete-do_post loads uuid t post del s new path back =
    delete_state (do_post loads uuid post s).1 ∙ undone
  where
    delete_state : (u : Server) → (do_delete del u).1 ≡ without_fault uuid u
    delete_state u =
        rw (do_delete-eq del u uuid back ∙ delete_fault-eq uuid u)
          (ground (arith, delete-absent uuid u.faults))

    undone : without_fault uuid (do_post loads uuid post s).1 ≡ s
    undone = elim (do_post-Injects loads uuid t post s path) [
      | inl e ↦ rw e (ground (arith, delete-absent uuid s.faults))
      | inr (f, fault, e) ↦ rw e (ground (arith, delete-insert uuid f s.faults))
    ]
