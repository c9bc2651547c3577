-- ===== src/Mock/Injection.antt =====
-- What POST /v1/chaos/<type> registers, on the branch that succeeds and on those that raise.
use project_charybdis.Base.{
  ◌≡◌, refl, Option, List, ℕ, false, Text, starts_with, insert, arith, ok, ◌++◌, if◌then◌else◌,
}
use project_charybdis.Json.{
  as_dict, Json, Fields, obj, get, has_field, truthy, field, end, update, only_new,
}
use project_charybdis.Json.Laws.{HasDistinctFields, get-update_missing}
use project_charybdis.Mock.State.{Server}
use project_charybdis.Mock.Request.{Request, route_path, parse_body}
use project_charybdis.Mock.Replies.{slept, replied, send-eq}
use project_charybdis.Mock.Handler.{
  base_fault, with_parameters, add_fault, post_chaos, post_to, do_post, chaos_prefix,
}
use project_charybdis.Mock.Changes.{IsInjectable}

update-only_new_end :
    (id t : Text) → update (base_fault id t) (only_new (base_fault id t) end) ≡ base_fault id t
unfolding update only_new
update-only_new_end id t = refl

-- A body that is an object: the fault has its identifier, its type and "active" from the stub, also
-- where the body names them, and every other field from the body.
pub get-with_parameters_obj :
    (k id t : Text) (d : Fields) {f : Fields}
    → HasDistinctFields d
    → with_parameters (base_fault id t) (obj d) ≡ ok f
    → get k f ≡ (if has_field k (base_fault id t) then get k (base_fault id t) else get k d)
unfolding with_parameters as_dict truthy
get-with_parameters_obj k id t end distinct made =
    ground (arith, get-update_missing k (base_fault id t) end distinct, update-only_new_end id t)
get-with_parameters_obj k id t (field j v d) distinct made =
    ground (arith, get-update_missing k (base_fault id t) (field j v d) distinct)

-- A non-empty body that `with_parameters` accepts: the fault is registered under the identifier
-- that was drawn, and the answer is 201 with the fault, after the sleep of the faults that are then
-- active, this one included.
pub do_post-chaos :
    (loads : List ℕ → Option Json) (uuid t : Text) (req : Request) (s : Server) {body : Json}
    {f : Fields}
    → route_path req ≡ chaos_prefix ++ t
    → IsInjectable t
    → parse_body loads req ≡ ok (body, false)
    → with_parameters (base_fault uuid t) body ≡ ok f
    → do_post loads uuid req s ≡ (
      replied (slept (record s { faults = insert uuid f s.faults })) 201 f,
      record s { faults = insert uuid f s.faults },
    )
unfolding do_post post_to post_chaos add_fault starts_with
do_post-chaos loads uuid t req s path inj read made =
    rw (read, path, inj.0, inj.1, made, send-eq) refl
