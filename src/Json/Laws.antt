-- ===== src/Json/Laws.antt =====
-- The laws of a `dict` of JSON values: reading after an assignment and after an update.
use project_charybdis.Base.{
  ◌≡◌, refl, arith, true, false, none, some, Text, text_eq, text_eq_iff, if◌then◌else◌, ◌&&◌, not,
}
use project_charybdis.Json.{Json, Fields, end, field, get, has_field, set_field, update, only_new}

pub get-set_field :
    (k j : Text) (v : Json) (d : Fields)
    → get j (set_field k v d) ≡ (if text_eq k j then some v else get j d)
unfolding get set_field
get-set_field k j v end = refl
get-set_field k j v (field i w d) =
    ground (arith, text_eq_iff k j, text_eq_iff i k, text_eq_iff i j, get-set_field k j v d)

pub get-eq-none_of_has_field : (k : Text) (d : Fields) → has_field k d ≡ false → get k d ≡ none
unfolding get has_field
get-eq-none_of_has_field k end h = refl
get-eq-none_of_has_field k (field j v d) h = ground (arith, get-eq-none_of_has_field k d)

pub get-only_new :
    (k : Text) (d e : Fields) → get k (only_new d e) ≡ (if has_field k d then none else get k e)
unfolding get only_new
get-only_new k d end = ground arith
get-only_new k d (field j v e) = ground (arith, text_eq_iff j k, get-only_new k d e)

-- An update leaves a field alone that the other `dict` does not name.
pub get-update_absent : (k : Text) (d e : Fields) → get k e ≡ none → get k (update d e) ≡ get k d
unfolding get update
get-update_absent k d end h = refl
get-update_absent k d (field j v e) h =
    ground (arith, get-set_field j k v d, get-update_absent k (set_field j v d) e)

-- So a `dict` keeps its own fields when it takes over those that it does not have.
pub get-update-only_new :
    (k : Text) (d e : Fields) → has_field k d ≡ true → get k (update d (only_new d e)) ≡ get k d
get-update-only_new k d e h =
    get-update_absent k d (only_new d e) (ground (arith, get-only_new k d e))

-- A `dict` names no key twice.
abbrev pub HasDistinctFields : Fields → Type 0
HasDistinctFields end = Unit
HasDistinctFields (field k v d) = (has_field k d ≡ false) × HasDistinctFields d

has_field-only_new :
    (k : Text) (d e : Fields) → has_field k e ≡ false → has_field k (only_new d e) ≡ false
unfolding has_field only_new
has_field-only_new k d end h = refl
has_field-only_new k d (field j v e) h = ground (arith, has_field-only_new k d e)

only_new-HasDistinctFields : (d e : Fields) → HasDistinctFields e → HasDistinctFields (only_new d e)
unfolding only_new
only_new-HasDistinctFields d end h = tt
only_new-HasDistinctFields d (field j v e) h =
    ground (arith, has_field-only_new j d e, only_new-HasDistinctFields d e)

get-update :
    (k : Text) (d e : Fields)
    → HasDistinctFields e
    → get k (update d e) ≡ (if has_field k e then get k e else get k d)
unfolding get has_field update
get-update k d end h = refl
get-update k d (field j v e) h =
    ground (arith, text_eq_iff j k, get-set_field j k v d, get-update k (set_field j v d) e)

has_field-only_new_iff :
    (k : Text) (d e : Fields) → has_field k (only_new d e) ≡ (has_field k e && not (has_field k d))
unfolding has_field only_new
has_field-only_new_iff k d end = refl
has_field-only_new_iff k d (field j v e) =
    ground (arith, text_eq_iff j k, has_field-only_new_iff k d e)

-- After `d.update({k: v for k, v in e.items() if k not in d})` a field is that of `d` if `d` has it,
-- and that of `e` otherwise.
pub get-update_missing :
    (k : Text) (d e : Fields)
    → HasDistinctFields e
    → get k (update d (only_new d e)) ≡ (if has_field k d then get k d else get k e)
get-update_missing k d e h = ground (
  arith,
  get-update k d (only_new d e) (only_new-HasDistinctFields d e h),
  has_field-only_new_iff k d e,
  get-only_new k d e,
  get-eq-none_of_has_field k d,
  get-eq-none_of_has_field k e,
)
