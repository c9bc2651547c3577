-- ===== src/Json.antt =====
-- The Python values that `json.loads` and `yaml.safe_load` return, with the operations of the scripts
-- on them: `dict.get`, `in`, subscripts, item assignment, truth value and `int(…)`.
mod Number
pub mod Laws
pub mod Equal
pub use Number.{Float, finite, infinite, nan}
unfoldable pub use Number.{trunc, int_of_text}
use project_charybdis.Base.{
  ℕ, ◌==◌, Bool, true, false, not, Option, none, some, List, [], ◌∷◌, Text, text_eq, contains_text,
  ℤ, pos, negsuc, Result, ok, raised, if◌then◌else◌, ◌||◌,
}
use project_charybdis.Base.Errors.{type_error, attribute_error, key_error}

-- `null` is Python's `None`.
mutual
  pub data Json : Type 0 where
    null : Json
    bool : Bool → Json
    int : ℤ → Json
    float : Float → Json
    str : Text → Json
    arr : Items → Json
    obj : Fields → Json

  pub data Items : Type 0 where
    nil : Items
    cons : Json → Items → Items

  -- A `dict` in its insertion order.
  pub data Fields : Type 0 where
    end : Fields
    field : Text → Json → Fields → Fields

-- `d.get(k)`
unfoldable pub get : Text → Fields → Option Json
get k end = none
get k (field j v d) = if text_eq j k then some v else get k d

-- `d.get(k, default)`
unfoldable pub get_or : Text → Json → Fields → Json
get_or k default d = elim (get k d) [ none ↦ default | some v ↦ v ]

-- `k in d`
unfoldable pub has_field : Text → Fields → Bool
has_field k end = false
has_field k (field j v d) = text_eq j k || has_field k d

-- `d[k] = v`
unfoldable pub set_field : Text → Json → Fields → Fields
set_field k v end = field k v end
set_field k v (field j w d) = if text_eq j k then field j v d else field j w (set_field k v d)

-- `d.update(e)`
unfoldable pub update : Fields → Fields → Fields
update d end = d
update d (field k v e) = update (set_field k v d) e

-- `{k: v for k, v in e.items() if k not in d}`
unfoldable pub only_new : Fields → Fields → Fields
only_new d end = end
only_new d (field k v e) = if has_field k d then only_new d e else field k v (only_new d e)

-- The truth value that `if v:` takes.
unfoldable pub truthy : Json → Bool
truthy null = false
truthy (bool b) = b
truthy (int (pos n)) = not (n == 0)
truthy (int (negsuc n)) = true
truthy (float (finite s m e)) = not (m == 0)
truthy (float x) = true
truthy (str []) = false
truthy (str (c ∷ s)) = true
truthy (arr nil) = false
truthy (arr (cons v xs)) = true
truthy (obj end) = false
truthy (obj (field k v d)) = true

-- `int(v)`
unfoldable pub py_int : Json → Result ℤ
py_int null = raised type_error
py_int (bool b) = ok (pos (if b then 1 else 0))
py_int (int i) = ok i
py_int (float x) = trunc x
py_int (str s) = int_of_text s
py_int (arr xs) = raised type_error
py_int (obj d) = raised type_error

-- `v == s` for a text `s`, where the value may be missing.
unfoldable pub is_text : Text → Option Json → Bool
is_text s (some (str t)) = text_eq t s
is_text s (some _) = false
is_text s none = false

-- A text among the items of a list.
unfoldable pub has_item : Text → Items → Bool
has_item s nil = false
has_item s (cons v xs) = is_text s (some v) || has_item s xs

-- A list of objects as a JSON array.
unfoldable pub items_of : List Fields → Items
items_of [] = nil
items_of (d ∷ ds) = cons (obj d) (items_of ds)

-- `v.items()` and `v.get` are there for a `dict` alone.
unfoldable pub as_dict : Json → Result Fields
as_dict (obj d) = ok d
as_dict _ = raised attribute_error

-- `v[k]` for a text `k`
unfoldable pub subscript : Text → Json → Result Json
subscript k (obj d) = elim (get k d) [ none ↦ raised key_error | some v ↦ ok v ]
subscript k _ = raised type_error

-- `s in v` for a text `s`
unfoldable pub has_member : Text → Json → Result Bool
has_member s (obj d) = ok (has_field s d)
has_member s (arr xs) = ok (has_item s xs)
has_member s (str t) = ok (contains_text t s)
has_member s _ = raised type_error

-- `v is True`
abbrev pub is_true : Option Json → Bool
is_true (some (bool b)) = b
is_true _ = false
