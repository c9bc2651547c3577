-- ===== src/Base/Dicts.antt =====
-- Python's `dict` with text keys, in its insertion order: an assignment to a key that is there
-- keeps the key's place, and a new key goes to the end.
use mathlib.Core.Path.{◌≡◌, refl, sym, subst, subst₂}
use mathlib.Core.Logic.{inl, inr}
use mathlib.Core.Bool.{Bool, false, ◌||◌}
use mathlib.Core.Option.{Option, none, some}
use mathlib.Core.List.{List, [], ◌∷◌, ◌++◌}
use native.Mathlib.Omega.{arith}
use project_charybdis.Base.Tests.{if◌then◌else◌, Bool-cases}
use project_charybdis.Base.Strings.{Text, text_eq, text_eq_iff, text_eq_refl}
use project_charybdis.Base.Lists.{All}

abbrev pub Dict {ℓ} : Type ℓ → Type ℓ
Dict V = List (Text × V)

module _ {ℓ} {V : Type ℓ} where
  -- `d.get(k)`
  unfoldable pub lookup : Text → Dict V → Option V
  lookup k [] = none
  lookup k ((j, v) ∷ d) = if text_eq j k then some v else lookup k d

  -- `k in d`
  unfoldable pub has_key : Text → Dict V → Bool
  has_key k [] = false
  has_key k ((j, v) ∷ d) = text_eq j k || has_key k d

  -- `d[k] = v`
  unfoldable pub insert : Text → V → Dict V → Dict V
  insert k v [] = (k, v) ∷ []
  insert k v ((j, w) ∷ d) = if text_eq j k then (j, v) ∷ d else (j, w) ∷ insert k v d

  -- `del d[k]`, at a key that is there
  unfoldable pub delete : Text → Dict V → Dict V
  delete k [] = []
  delete k ((j, w) ∷ d) = if text_eq j k then d else (j, w) ∷ delete k d

  -- `list(d.values())`
  unfoldable pub values : Dict V → List V
  values [] = []
  values ((j, v) ∷ d) = v ∷ values d

  pub lookup-insert :
      (k j : Text) (v : V) (d : Dict V)
      → lookup j (insert k v d) ≡ (if text_eq k j then some v else lookup j d)
  unfolding lookup insert
  lookup-insert k j v [] = refl
  lookup-insert k j v ((i, w) ∷ d) =
      ground (arith, text_eq_iff k j, text_eq_iff i k, text_eq_iff i j, lookup-insert k j v d)

  -- Every entry satisfies a predicate of its key and value, and no key is there twice.
  abbrev pub Entries {κ} : (Text → V → Type κ) → Dict V → Type κ
  Entries P d = All (λ e. P e.0 e.1) d

  abbrev pub HasDistinctKeys : Dict V → Type 0
  HasDistinctKeys [] = Unit
  HasDistinctKeys ((k, v) ∷ d) = (has_key k d ≡ false) × HasDistinctKeys d

  pub insert-Entries {κ} :
      (P : Text → V → Type κ) (k : Text) (v : V) (d : Dict V)
      → P k v
      → Entries P d
      → Entries P (insert k v d)
  unfolding insert
  insert-Entries P k v [] p h = (p, tt)
  insert-Entries P k v ((j, w) ∷ d) p h = elim (Bool-cases (text_eq j k)) [
    | inl same ↦ rw same (subst (λ i. P i v) (sym ((text_eq_iff j k).0 same)) p, h.1)
    | inr other ↦ rw other (h.0, insert-Entries P k v d p h.1)
  ]

  pub delete-Entries {κ} :
      (P : Text → V → Type κ) (k : Text) (d : Dict V) → Entries P d → Entries P (delete k d)
  unfolding delete
  delete-Entries P k [] h = tt
  delete-Entries P k ((j, w) ∷ d) h = elim (Bool-cases (text_eq j k)) [
    | inl same ↦ rw same h.1
    | inr other ↦ rw other (h.0, delete-Entries P k d h.1)
  ]

  pub has_key-insert :
      (k j : Text) (v : V) (d : Dict V) → has_key j (insert k v d) ≡ (text_eq k j || has_key j d)
  unfolding has_key insert
  has_key-insert k j v [] = ground arith
  has_key-insert k j v ((i, w) ∷ d) =
      ground (arith, text_eq_iff k j, text_eq_iff i k, text_eq_iff i j, has_key-insert k j v d)

  pub insert-HasDistinctKeys :
      (k : Text) (v : V) (d : Dict V) → HasDistinctKeys d → HasDistinctKeys (insert k v d)
  unfolding has_key insert
  insert-HasDistinctKeys k v [] h = (refl, tt)
  insert-HasDistinctKeys k v ((j, w) ∷ d) h = ground (
    arith,
    text_eq_iff j k,
    text_eq_iff k j,
    has_key-insert k j v d,
    insert-HasDistinctKeys k v d,
  )

  pub has_key-delete :
      (k j : Text) (d : Dict V) → has_key j d ≡ false → has_key j (delete k d) ≡ false
  unfolding has_key delete
  has_key-delete k j [] h = refl
  has_key-delete k j ((i, w) ∷ d) h = ground (arith, has_key-delete k j d)

  pub delete-HasDistinctKeys :
      (k : Text) (d : Dict V) → HasDistinctKeys d → HasDistinctKeys (delete k d)
  unfolding delete
  delete-HasDistinctKeys k [] h = tt
  delete-HasDistinctKeys k ((i, w) ∷ d) h =
      ground (arith, has_key-delete k i d, delete-HasDistinctKeys k d)

  pub lookup-eq-none_of_has_key : (k : Text) (d : Dict V) → has_key k d ≡ false → lookup k d ≡ none
  unfolding lookup has_key
  lookup-eq-none_of_has_key k [] h = refl
  lookup-eq-none_of_has_key k ((i, w) ∷ d) h = ground (arith, lookup-eq-none_of_has_key k d)

  pub lookup-delete :
      (k j : Text) (d : Dict V)
      → HasDistinctKeys d
      → lookup j (delete k d) ≡ (if text_eq k j then none else lookup j d)
  unfolding lookup delete
  lookup-delete k j [] h = ground arith
  lookup-delete k j ((i, w) ∷ d) h = ground (
    arith,
    text_eq_iff k j,
    text_eq_iff i k,
    text_eq_iff i j,
    lookup-eq-none_of_has_key i d,
    lookup-delete k j d,
  )

  -- A new key goes to the end, and its removal leaves the rest as it was.
  pub delete-insert :
      (k : Text) (v : V) (d : Dict V) → has_key k d ≡ false → delete k (insert k v d) ≡ d
  unfolding has_key insert delete
  delete-insert k v [] h = ground (arith, text_eq_refl k)
  delete-insert k v ((i, w) ∷ d) h = ground (arith, delete-insert k v d)

  pub values-insert :
      (k : Text) (v : V) (d : Dict V)
      → has_key k d ≡ false
      → values (insert k v d) ≡ values d ++ v ∷ []
  unfolding has_key insert values
  values-insert k v [] h = refl
  values-insert k v ((i, w) ∷ d) h = ground (arith, values-insert k v d)

  -- What holds of every entry holds of the one that is looked up.
  pub Entries-lookup {κ} :
      (P : Text → V → Type κ) (k : Text) (d : Dict V) {v : V}
      → Entries P d
      → lookup k d ≡ some v
      → P k v
  unfolding lookup
  Entries-lookup P k [] h e = absurd (cc)
  Entries-lookup P k ((i, w) ∷ d) {v} h e = elim (Bool-cases (text_eq i k)) [
    | inl same ↦
        let found : some w ≡ some v = rw same at e in
        let equal : w ≡ v = cc in subst₂ P ((text_eq_iff i k).0 same) equal h.0
    | inr other ↦ Entries-lookup P k d h.1 (rw other at e)
  ]
