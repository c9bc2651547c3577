-- ===== src/Mock/Changes.antt =====
-- The abstract stub: what each method may do to the stores. A GET completes tasks, a DELETE removes
-- one fault, a POST adds one record under the identifier that it draws; nothing else changes.
pub mod Refines
use project_charybdis.Base.{
  ◌≡◌, some, true, false, Text, codes, text_eq, String, insert, delete, has_key,
}
use project_charybdis.Json.{Json, bool, str, Fields, get}
use project_charybdis.Mock.State.{Server}
use project_charybdis.Mock.Faults.{queue_starve_active}
use project_charybdis.Mock.Handler.{
  Method, get_method, delete_method, post_method, is_chaos_type, complete_all,
}

-- The types that `POST /v1/chaos/<type>` turns into a fault.
abbrev pub IsInjectable : Text → Type 0
IsInjectable t = (is_chaos_type t ≡ true) × (text_eq t (codes "test-empty") ≡ false)

abbrev pub Says : String → Json → Fields → Type 0
Says k v d = get (codes k) d ≡ some v

pub record IsFault (id : Text) (f : Fields) : Type 0 where
  pub chaos_type : Text
  pub own_id : Says "id" (str id) f
  pub of_type : Says "type" (str chaos_type) f
  pub injectable : IsInjectable chaos_type
  pub active : Says "active" (bool true) f

abbrev pub IsNamed : Text → Fields → Type 0
IsNamed id r = Says "id" (str id) r

abbrev pub IsPending : Fields → Type 0
IsPending t = Says "status" (str (codes "pending")) t

abbrev pub IsCompleted : Fields → Type 0
IsCompleted t = Says "status" (str (codes "completed")) t

pub data Change (s : Server) : Method → Server → Type 0 where
  same : {m : Method} {t : Server} → t ≡ s → Change s m t
  add_fault :
      {id : Text} {t : Server} (f : Fields)
      → IsFault id f
      → t ≡ record s { faults = insert id f s.faults }
      → Change s (post_method id) t
  add_team :
      {id : Text} {t : Server} (r : Fields)
      → IsNamed id r
      → t ≡ record s { teams = insert id r s.teams }
      → Change s (post_method id) t
  add_agent :
      {id : Text} {t : Server} (r : Fields)
      → IsNamed id r
      → t ≡ record s { agents = insert id r s.agents }
      → Change s (post_method id) t
  add_task :
      {id : Text} {t : Server} (r : Fields)
      → IsNamed id r
      → IsPending r
      → t ≡ record s { tasks = insert id r s.tasks }
      → Change s (post_method id) t
  complete :
      {t : Server}
      → queue_starve_active s ≡ false
      → t ≡ record s { tasks = complete_all s.tasks }
      → Change s get_method t
  remove_fault :
      {t : Server} (id : Text)
      → has_key id s.faults ≡ true
      → t ≡ record s { faults = delete id s.faults }
      → Change s delete_method t
