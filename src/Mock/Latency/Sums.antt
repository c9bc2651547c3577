-- ===== src/Mock/Latency/Sums.antt =====
-- The active latency is a sum: a new fault adds its own share, and a removal takes it back.
use project_charybdis.Base.{
  ◌≡◌, refl, ap, sym, ◌∙◌, subst, inl, inr, some, List, [], ◌∷◌, ◌++◌, false, Text, codes, text_eq,
  Dict, insert, delete, lookup, has_key, values, values-insert, ℤ, pos, ◌+ℤ◌, +ℤ_comm, +ℤ_assoc,
  zero_+ℤ, Result, ok, raised, Result-cases, Bool-cases, arith, if◌then◌else◌,
}
use project_charybdis.Base.Errors.{◌>>=◌}
use project_charybdis.Json.{Fields}
use project_charybdis.Mock.State.{Server}
use project_charybdis.Mock.Faults.{
  is_active, delay_ms, add_latency, latency_from, active_latency_ms,
}

latency_from-cons :
    (total : ℤ) (g : Fields) (gs : List Fields)
    → latency_from total (g ∷ gs) ≡ (add_latency total g >>= λ t. latency_from t gs)
unfolding latency_from
latency_from-cons total g gs = refl

latency_from-append :
    (total : ℤ) (fs : List Fields) (f : Fields)
    → latency_from total (fs ++ f ∷ []) ≡ (latency_from total fs >>= λ a. add_latency a f)
unfolding latency_from
latency_from-append total [] f = ground arith
latency_from-append total (g ∷ fs) f = elim (Result-cases (add_latency total g)) [
  | inl (a, added) ↦ rw added (latency_from-append a fs f)
  | inr (e, failed) ↦ rw failed refl
]

-- A fault that is registered under a new key adds its delay if it is an active latency fault, adds
-- nothing if it is not, and makes the latency fail if its delay is no integer.
pub active_latency_ms-insert :
    (id : Text) (f : Fields) (s : Server)
    → has_key id s.faults ≡ false
    → active_latency_ms (record s { faults = insert id f s.faults })
      ≡ (active_latency_ms s >>= λ a. add_latency a f)
unfolding active_latency_ms
active_latency_ms-insert id f s new =
    rw (values-insert id f s.faults new) (latency_from-append (pos 0) (values s.faults) f)

-- What one fault adds.
share : Fields → Result ℤ
share f = if is_active (codes "latency") f then delay_ms f else ok (pos 0)

abbrev plus : ℤ → Result ℤ → Result ℤ
plus a r = r >>= λ d. ok (a +ℤ d)

add_zero : (a : ℤ) → a +ℤ pos 0 ≡ a
add_zero a = +ℤ_comm a (pos 0) ∙ zero_+ℤ a

add_latency-eq-plus : (a : ℤ) (f : Fields) → add_latency a f ≡ plus a (share f)
unfolding add_latency share
add_latency-eq-plus a f = ground (arith, add_zero a)

plus-plus : (d a : ℤ) (r : Result ℤ) → plus (d +ℤ a) r ≡ plus d (plus a r)
plus-plus d a (ok x) = ap ok (+ℤ_assoc d a x)
plus-plus d a (raised e) = refl

add_latency-shift : (d a : ℤ) (g : Fields) → add_latency (d +ℤ a) g ≡ plus d (add_latency a g)
add_latency-shift d a g =
    rw (add_latency-eq-plus (d +ℤ a) g, add_latency-eq-plus a g) (plus-plus d a (share g))

latency_from-shift :
    (d a : ℤ) (gs : List Fields) → latency_from (d +ℤ a) gs ≡ plus d (latency_from a gs)
unfolding latency_from
latency_from-shift d a [] = refl
latency_from-shift d a (g ∷ gs) = elim (Result-cases (add_latency a g)) [
  | inl (t, e) ↦ rw (add_latency-shift d a g, e) (latency_from-shift d t gs)
  | inr (x, e) ↦ rw (add_latency-shift d a g, e) refl
]

plus-eq-ok : (a b : ℤ) (r : Result ℤ) → plus a r ≡ ok b → (d : ℤ) × (r ≡ ok d) × (a +ℤ d ≡ b)
plus-eq-ok a b (ok d) h = (d, refl, ok_inj h)
  where
    ok_inj : {x y : ℤ} → ok x ≡ ok y → x ≡ y
    ok_inj e = cc
plus-eq-ok a b (raised e) h = absurd (cc)

-- Taking the first fault out of a sum.
without_first :
    (f : Fields) (total a : ℤ) (gs : List Fields)
    → latency_from total (f ∷ gs) ≡ ok a
    → (b : ℤ) × (latency_from total gs ≡ ok b) × (add_latency b f ≡ ok a)
unfolding latency_from
without_first f total a gs sum = elim (Result-cases (share f)) [
  | inr (x, e) ↦ absurd (cc (rw (add_latency-eq-plus total f, e) at sum))
  | inl (d, e) ↦
      let sum' : latency_from (total +ℤ d) gs ≡ ok a = rw (add_latency-eq-plus total f, e) at sum in
      let moved : plus d (latency_from total gs) ≡ ok a =
        sym (latency_from-shift d total gs)
        ∙ ap (λ t. latency_from t gs) (+ℤ_comm d total)
        ∙ sum' in
      let (b, rest, whole) = plus-eq-ok d a (latency_from total gs) moved in
      (b, rest, rw (add_latency-eq-plus b f, e) (ap ok (+ℤ_comm b d ∙ whole)))
]

latency_from-delete :
    (id : Text) (f : Fields) (total a : ℤ) (d : Dict Fields)
    → lookup id d ≡ some f
    → latency_from total (values d) ≡ ok a
    → (b : ℤ) × (latency_from total (values (delete id d)) ≡ ok b) × (add_latency b f ≡ ok a)
unfolding lookup delete values
latency_from-delete id f total a [] h sum = absurd (cc)
latency_from-delete id f total a ((j, g) ∷ d) h sum = elim (Bool-cases (text_eq j id)) [
  | inl same ↦
      let found : some g ≡ some f = rw same at h in
      let equal : g ≡ f = cc in
      rw same (
        without_first f total a (values d)
          (subst (λ k. latency_from total (k ∷ values d) ≡ ok a) equal sum))
  | inr other ↦ elim (Result-cases (add_latency total g)) [
    | inl (t, e) ↦
        let deeper =
          latency_from-delete id f t a d (rw other at h)
            (rw (latency_from-cons total g (values d), e) at sum) in
        rw (other, latency_from-cons total g (values (delete id d)), e) deeper
    | inr (x, e) ↦ absurd (cc (rw (latency_from-cons total g (values d), e) at sum))
  ]
]

-- Where the latency is a number, so it is after a fault is removed, and adding that fault's share
-- again gives the latency from before.
pub active_latency_ms-delete :
    (id : Text) (f : Fields) (a : ℤ) (s : Server)
    → lookup id s.faults ≡ some f
    → active_latency_ms s ≡ ok a
    → (b : ℤ) × (active_latency_ms (record s { faults = delete id s.faults }) ≡ ok b)
      × (add_latency b f ≡ ok a)
unfolding active_latency_ms
active_latency_ms-delete id f a s stored sum =
    latency_from-delete id f (pos 0) a s.faults stored sum
