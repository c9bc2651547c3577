-- ===== src/Attest/Release/Wired/Settings.antt =====
-- Fields of the release workflow, and tests of it that pass.
use project_charybdis.Base.{
  ℕ, ◌≡◌, refl, ap, inl, inr, true, false, &&_iff, Option, none, some, List, [], ◌∷◌, Text,
  text_eq_iff, All, Result, ok, raised, Bool-cases, if◌then◌else◌, all,
}
use project_charybdis.Json.{
  Json, null, bool, int, float, str, arr, obj, Fields, get, is_text, is_true, as_dict,
}
use project_charybdis.Attest.Release

-- A field with this text, or with `True`.
abbrev pub Says : Text → Text → Fields → Type 0
Says k s d = get k d ≡ some (str s)

abbrev pub IsOn : Text → Fields → Type 0
IsOn k d = get k d ≡ some (bool true)

pub is_text-ok : (s : Text) (v : Option Json) → is_text s v ≡ true → v ≡ some (str s)
unfolding is_text
is_text-ok s (some (str t)) h = ap (λ u. some (str u)) ((text_eq_iff t s).0 h)
is_text-ok s none h = absurd (cc)
is_text-ok s (some null) h = absurd (cc)
is_text-ok s (some (bool b)) h = absurd (cc)
is_text-ok s (some (int i)) h = absurd (cc)
is_text-ok s (some (float x)) h = absurd (cc)
is_text-ok s (some (arr xs)) h = absurd (cc)
is_text-ok s (some (obj d)) h = absurd (cc)

pub is_true-ok : (v : Option Json) → is_true v ≡ true → v ≡ some (bool true)
is_true-ok (some (bool true)) h = refl
is_true-ok (some (bool false)) h = absurd (cc)
is_true-ok none h = absurd (cc)
is_true-ok (some null) h = absurd (cc)
is_true-ok (some (str t)) h = absurd (cc)
is_true-ok (some (int i)) h = absurd (cc)
is_true-ok (some (float x)) h = absurd (cc)
is_true-ok (some (arr xs)) h = absurd (cc)
is_true-ok (some (obj d)) h = absurd (cc)

pub as_dict-ok : (v : Json) {d : Fields} → as_dict v ≡ ok d → v ≡ obj d
unfolding as_dict
as_dict-ok (obj d) h = cc
as_dict-ok null h = absurd (cc)
as_dict-ok (bool b) h = absurd (cc)
as_dict-ok (int i) h = absurd (cc)
as_dict-ok (float x) h = absurd (cc)
as_dict-ok (str s) h = absurd (cc)
as_dict-ok (arr xs) h = absurd (cc)

pub text_value-ok : (v : Option Json) {s : Text} → Release.text_value v ≡ ok s → v ≡ some (str s)
unfolding Release.text_value
text_value-ok (some (str t)) h = cc
text_value-ok none h = absurd (cc)
text_value-ok (some null) h = absurd (cc)
text_value-ok (some (bool b)) h = absurd (cc)
text_value-ok (some (int i)) h = absurd (cc)
text_value-ok (some (float x)) h = absurd (cc)
text_value-ok (some (arr xs)) h = absurd (cc)
text_value-ok (some (obj d)) h = absurd (cc)

pub passed-ok : (r : Result (Unit {0})) → Release.passed r ≡ true → r ≡ ok tt
passed-ok (ok u) h = refl
passed-ok (raised e) h = absurd (cc)

pub no_lines-ok : (ls : List (ℕ × Text)) → Release.no_lines ls ≡ true → ls ≡ []
no_lines-ok [] h = refl
no_lines-ok (l ∷ ls) h = absurd (cc)

-- The exit code 0 means that each of the six tests passed.
pub exit_0 :
    (rs : List (Result (Unit {0})))
    → ◌≡◌ {A = ℕ} (if all Release.passed rs then 0 else 1) 0
    → All (λ r. r ≡ ok tt) rs
exit_0 rs h = elim (Bool-cases (all Release.passed rs)) [
  | inl every ↦ each rs every
  | inr some_failed ↦ absurd (cc (rw some_failed at h))
]
  where
    each : (ts : List (Result (Unit {0}))) → all Release.passed ts ≡ true → All (λ r. r ≡ ok tt) ts
    each [] e = tt
    each (r ∷ ts) e =
        let (first, others) = (&&_iff (Release.passed r) _).0 e in
        (passed-ok r first, each ts others)
