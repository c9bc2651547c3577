-- ===== src/Policy/Workflows/Carriers/Emitters.antt =====
-- The table of the emitters: each context has an entry, and every job that emits it is in there.
use project_charybdis.Base.{
  IsIn, leb, ◌≡◌, sym, ap, subst, subst₂, inl, inr, true, &&_iff, List, [], ◌∷◌, ◌++◌, Text,
  text_eq, text_eq_iff, Dict, length, Bool-cases, arith, ok,
}
use project_charybdis.Base.Errors.{returned}
use project_charybdis.Policy.Jobs.{job_contexts_from_text, emitter, emitters_in, context_emitters}
use project_charybdis.Policy.Violations.{sorted_set}
use project_charybdis.Policy.Membership.{In, In-insert_sorted}
use project_charybdis.Policy.Workflows.{Workflows, emitters_by_context, no_duplicates}

emitters_in-In :
    (c name id : Text) (jobs : List (Text × Text))
    → IsIn (id, c) jobs
    → In (emitter name id) (emitters_in c name jobs)
unfolding emitters_in
emitters_in-In c name id [] h = absurd h
emitters_in-In c name id ((j, n) ∷ jobs) place = elim (Bool-cases (text_eq n c)) [
  | inl same ↦
      rw same
        (elim place [ inl e ↦ inl (cc) | inr later ↦ inr (emitters_in-In c name id jobs later) ])
  | inr other ↦ rw other (elim place [
    | inl e ↦ let same : n ≡ c = cc in absurd (cc ((text_eq_iff n c).1 same, other))
    | inr later ↦ emitters_in-In c name id jobs later
  ])
]

In-append_left : (e : Text) (ss ts : List Text) → In e ss → In e (ss ++ ts)
In-append_left e [] ts h = absurd h
In-append_left e (s ∷ ss) ts (inl same) = inl same
In-append_left e (s ∷ ss) ts (inr later) = inr (In-append_left e ss ts later)

In-append_right : (e : Text) (ss ts : List Text) → In e ts → In e (ss ++ ts)
In-append_right e [] ts h = h
In-append_right e (s ∷ ss) ts h = inr (In-append_right e ss ts h)

-- The emitters of a context name each job that emits it.
pub context_emitters-In :
    (c name text id : Text) (jobs : List (Text × Text)) (ws : Workflows) {es : List Text}
    → IsIn (name, text) ws
    → job_contexts_from_text text ≡ ok jobs
    → IsIn (id, c) jobs
    → context_emitters c ws ≡ ok es
    → In (emitter name id) es
unfolding context_emitters
context_emitters-In c name text id jobs [] place read job h = absurd place
context_emitters-In c name text id jobs ((w, t) ∷ ws) {es} place read job h =
    let (found, read', h₁) = returned (job_contexts_from_text t) h in
    let (others, rest, h₂) = returned (context_emitters c ws) h₁ in
    let all_of : emitters_in c w found ++ others ≡ es = cc in
    subst (λ ss. In (emitter name id) ss) all_of
      (elim place [
        | inl e ↦
            let same_name : name ≡ w = cc in
            let same_text : text ≡ t = cc in
            let same_jobs : jobs ≡ found = cc (read, read', ap job_contexts_from_text same_text) in
            In-append_left (emitter name id) (emitters_in c w found) others (
              subst₂ (λ n js. In (emitter name id) (emitters_in c n js)) same_name same_jobs
                (emitters_in-In c name id jobs job))
        | inr later ↦
            In-append_right (emitter name id) (emitters_in c w found) others
              (context_emitters-In c name text id jobs ws later read job rest)
      ])

pub In-sorted_set : (t : Text) (ts : List Text) → In t ts → In t (sorted_set ts)
unfolding sorted_set
In-sorted_set t [] h = h
In-sorted_set t (u ∷ ts) (inl e) = (In-insert_sorted t u (sorted_set ts)).1 (inl e)
In-sorted_set t (u ∷ ts) (inr later) =
    (In-insert_sorted t u (sorted_set ts)).1 (inr (In-sorted_set t ts later))

-- Each context has its emitters in the table, at most one where there are no duplicates.
pub emitters_by_context-one :
    (c : Text) (contexts : List Text) (ws : Workflows) {d : Dict (List Text)}
    → In c contexts
    → emitters_by_context contexts ws ≡ ok d
    → no_duplicates d ≡ true
    → (es : List Text) × (context_emitters c ws ≡ ok es) × (leb (length es) 1 ≡ true)
unfolding emitters_by_context no_duplicates
emitters_by_context-one c [] ws place h one = absurd place
emitters_by_context-one c (k ∷ contexts) ws {d} place h one =
    let (es, found, h₁) = returned (context_emitters k ws) h in
    let (rest, later, h₂) = returned (emitters_by_context contexts ws) h₁ in
    let whole : d ≡ (k, es) ∷ rest = cc in
    let (first, others) =
      (&&_iff (leb (length es) 1) _).0 (subst (λ e. no_duplicates e ≡ true) whole one) in
    elim place [
      | inl same ↦ (es, cc (ap (λ t. context_emitters t ws) same, found), first)
      | inr deeper ↦ emitters_by_context-one c contexts ws deeper later others
    ]

pub single_of_In : (e : Text) (es : List Text) → In e es → leb (length es) 1 ≡ true → es ≡ e ∷ []
single_of_In e [] place h = absurd place
single_of_In e (f ∷ []) (inl same) h = ap (λ t. t ∷ []) (sym same)
single_of_In e (f ∷ []) (inr later) h = absurd later
single_of_In e (f ∷ g ∷ es) place h = absurd (ground arith)
