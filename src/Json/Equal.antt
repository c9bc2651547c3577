-- ===== src/Json/Equal.antt =====
-- Python's `==` on these values: numbers of every type are compared by their value, and two `dict`s
-- without regard to the order of their fields.
use project_charybdis.Base.{
  ℕ, ◌+◌, ◌*◌, ◌^◌, ◌≡◌, ap, ◌==◌, Bool, true, false, not, ◌&&◌, ◌||◌, Option, none, some, Text,
  text_eq, text_eq_iff, pos, negsuc, pos_part, neg_part, suc, if◌then◌else◌,
}
use project_charybdis.Json.Number.{Float, finite, infinite}
use project_charybdis.Json.{
  Json, null, bool, int, float, str, arr, obj, Items, nil, cons, Fields, end, field, get,
}

-- A number, whichever its type, as a float that has exactly this value.
unfoldable pub number : Json → Option Float
number (bool b) = some (finite false (if b then 1 else 0) (pos 0))
number (int (pos n)) = some (finite false n (pos 0))
number (int (negsuc n)) = some (finite true (suc n) (pos 0))
number (float x) = some x
number _ = none

abbrev same_bool : Bool → Bool → Bool
same_bool true b = b
same_bool false b = not b

-- `m * 2^e == n * 2^f`, multiplied out; zero has no sign.
unfoldable pub float_eq : Float → Float → Bool
float_eq (finite s m e) (finite t n f) =
    (m * 2 ^ (pos_part e + neg_part f) == n * 2 ^ (pos_part f + neg_part e))
    && (same_bool s t || m == 0)
float_eq (infinite s) (infinite t) = same_bool s t
float_eq _ _ = false

abbrev numbers_eq : Option Float → Option Float → Bool
numbers_eq (some x) (some y) = float_eq x y
numbers_eq _ _ = false

abbrev pub size : Fields → ℕ
size end = 0
size (field k v d) = suc (size d)

unfoldable mutual
  pub json_eq : Json → Json → Bool
  json_eq null null = true
  json_eq (str s) (str t) = text_eq s t
  json_eq (arr xs) (arr ys) = items_eq xs ys
  json_eq (obj d) (obj e) = (size d == size e) && fields_in d e
  json_eq v w = numbers_eq (number v) (number w)

  pub items_eq : Items → Items → Bool
  items_eq nil nil = true
  items_eq (cons v xs) (cons w ys) = json_eq v w && items_eq xs ys
  items_eq _ _ = false

  -- Each field of the first is in the second, with an equal value.
  pub fields_in : Fields → Fields → Bool
  fields_in end e = true
  fields_in (field k v d) e =
      (elim (get k e) [ none ↦ false | some w ↦ json_eq v w ]) && fields_in d e

-- `d.get(k) == e.get(j)`, where a missing field is `None`.
abbrev pub or_null : Option Json → Json
or_null none = null
or_null (some v) = v

unfoldable pub found_json_eq : Option Json → Option Json → Bool
found_json_eq v w = json_eq (or_null v) (or_null w)

-- What equals a text is this text.
pub found_json_eq-str :
    (v : Option Json) (s : Text) → found_json_eq v (some (str s)) ≡ true → v ≡ some (str s)
unfolding found_json_eq json_eq number
found_json_eq-str (some (str t)) s h = ap (λ u. some (str u)) ((text_eq_iff t s).0 h)
found_json_eq-str none s h = absurd (cc)
found_json_eq-str (some null) s h = absurd (cc)
found_json_eq-str (some (bool b)) s h = absurd (cc)
found_json_eq-str (some (int (pos n))) s h = absurd (cc)
found_json_eq-str (some (int (negsuc n))) s h = absurd (cc)
found_json_eq-str (some (float x)) s h = absurd (cc)
found_json_eq-str (some (arr xs)) s h = absurd (cc)
found_json_eq-str (some (obj d)) s h = absurd (cc)
