-- ===== src/Policy/Workflows/Carriers/Loop.antt =====
-- The loop of the carriers: each context that it collects is carried by a workflow of the queue.
use project_charybdis.Base.{
  IsIn, ◌≡◌, refl, ap, subst, ◌∙◌, ◌⊎◌, inl, inr, true, Option, none, some, List, [], ◌∷◌, ◌++◌,
  map, Text, codes, text_eq_iff, Dict, lookup, has_key, Bool-cases, arith, Result, ok, raised,
}
use project_charybdis.Base.Errors.{returned, checked, check_iff, key_error}
use project_charybdis.Policy.Triggers.{Events, triggers_from_text}
use project_charybdis.Policy.Jobs.{job_contexts_from_text}
use project_charybdis.Policy.Shell.{texts_eq}
use project_charybdis.Policy.Violations.{dict_eq, has_text}
use project_charybdis.Policy.Membership.{In, texts_eq_iff}
use project_charybdis.Policy.Workflows.{
  Workflows, item, job_names, on_main, when_requested, check_event, check_carrier, policy_names,
  carry, carriers_from,
}

-- The events that a carrier runs on.
pub record RunsInQueue (triggers : Events) : Type 0 where
  pub push : lookup (codes "push") triggers ≡ some on_main
  pub pull_request : lookup (codes "pull_request") triggers ≡ some on_main
  pub merge_group : lookup (codes "merge_group") triggers ≡ some when_requested

-- A workflow with a job that emits the context, and that runs in the queue.
pub record Carries (context : Text) (ws : Workflows) : Type 0 where
  pub name : Text
  pub text : Text
  pub id : Text
  pub jobs : List (Text × Text)
  pub triggers : Events
  pub there : IsIn (name, text) ws
  pub read_jobs : job_contexts_from_text text ≡ ok jobs
  pub job : IsIn (id, context) jobs
  pub read_triggers : triggers_from_text text ≡ ok triggers
  pub runs : RunsInQueue triggers

-- A dictionary that equals one with a single key is that one.
dict_eq-single :
    (k : Text) (v : List Text) (d : Dict (List Text))
    → dict_eq texts_eq d ((k, v) ∷ []) ≡ true
    → d ≡ (k, v) ∷ []
unfolding dict_eq lookup
dict_eq-single k v [] h = absurd (ground arith)
dict_eq-single k v ((j, w) ∷ []) h = ground (arith, text_eq_iff k j, texts_eq_iff w v)
dict_eq-single k v (e ∷ f ∷ d) h = absurd (ground arith)

pub item-ok : {V : Type 0} (k : Text) (d : Dict V) {v : V} → item k d ≡ ok v → lookup k d ≡ some v
unfolding item
item-ok {V} k d {v} h = found (lookup k d) h
  where
    found :
        (o : Option V)
        → (elim o as (λ x. Result V) [ none ↦ raised key_error | some w ↦ ok w ]) ≡ ok v
        → o ≡ some v
    found none e = absurd (cc)
    found (some w) e = cc

pub check_event-ok :
    (triggers : Events) (event k : Text) (v : List Text)
    → check_event triggers event ((k, v) ∷ []) ≡ ok tt
    → lookup event triggers ≡ some ((k, v) ∷ [])
unfolding check_event
check_event-ok triggers event k v h =
    let (found, there, same) = returned (item event triggers) h in
    item-ok event triggers there
    ∙ ap some (dict_eq-single k v found ((check_iff (dict_eq texts_eq found ((k, v) ∷ []))).0 same))

check_carrier-RunsInQueue :
    (triggers : Events) → check_carrier triggers ≡ ok tt → RunsInQueue triggers
unfolding check_carrier
check_carrier-RunsInQueue triggers h =
    let (_, push, h₁) = returned (check_event triggers (codes "push") on_main) h in
    let (_, pull, h₂) = returned (check_event triggers (codes "pull_request") on_main) h₁ in
    let (there, h₃) = checked (has_key (codes "merge_group") triggers) h₂ in
    record {
      push = check_event-ok triggers _ _ _ push;
      pull_request = check_event-ok triggers _ _ _ pull;
      merge_group = check_event-ok triggers _ _ _ h₃;
    }

policy_names-In :
    (contexts names : List Text) (c : Text) → In c (policy_names contexts names) → In c names
unfolding policy_names
policy_names-In contexts [] c h = absurd h
policy_names-In contexts (name ∷ names) c h = elim (Bool-cases (has_text name contexts)) [
  | inl kept ↦ elim (rw kept at h) [
    | inl e ↦ inl e
    | inr later ↦ inr (policy_names-In contexts names c later)
  ]
  | inr dropped ↦ inr (policy_names-In contexts names c (rw dropped at h))
]

names-In :
    (c : Text) (jobs : List (Text × Text))
    → In c (map (λ j. j.1) jobs)
    → (id : Text) × IsIn (id, c) jobs
names-In c [] h = absurd h
names-In c ((id, name) ∷ jobs) (inl e) = (id, inl (ap (λ n. (id, n)) e))
names-In c (j ∷ jobs) (inr later) = let (id, there) = names-In c jobs later in (id, inr there)

pub In-append : (c : Text) (ss ts : List Text) → In c (ss ++ ts) → In c ss ⊎ In c ts
In-append c [] ts h = inr h
In-append c (s ∷ ss) ts (inl e) = inl (inl e)
In-append c (s ∷ ss) ts (inr later) = elim (In-append c ss ts later) [
  | inl here ↦ inl (inr here)
  | inr there ↦ inr there
]

Carries-later : {c : Text} {w : Text × Text} {ws : Workflows} → Carries c ws → Carries c (w ∷ ws)
Carries-later r = record {
  name = r.name;
  text = r.text;
  id = r.id;
  jobs = r.jobs;
  triggers = r.triggers;
  there = inr r.there;
  read_jobs = r.read_jobs;
  job = r.job;
  read_triggers = r.read_triggers;
  runs = r.runs;
}

job_names-ok :
    (text : Text) {names : List Text}
    → job_names text ≡ ok names
    → (jobs : List (Text × Text)) × (job_contexts_from_text text ≡ ok jobs)
      × (names ≡ map (λ j. j.1) jobs)
unfolding job_names
job_names-ok text h =
    let (jobs, read, rest) = returned (job_contexts_from_text text) h in (jobs, read, cc)

-- A context of one round is that of the workflow, which is then asked for its events, or is of a
-- later one.
carry-ok :
    (c : Text) (ps : List Text) (name text : Text) (others : Result (List Text × List Text))
    {seen : List Text × List Text}
    → carry ps name text others ≡ ok seen
    → In c seen.1
    → (In c ps
        × ((triggers : Events) × (triggers_from_text text ≡ ok triggers)
            × (check_carrier triggers ≡ ok tt)))
      ⊎ ((more : List Text × List Text) × (others ≡ ok more) × In c more.1)
carry-ok c [] name text others {seen} h place = inr (seen, h, place)
carry-ok c (n ∷ ps) name text others h place =
    let (triggers, read, h₁) = returned (triggers_from_text text) h in
    let (_, asked, h₂) = returned (check_carrier triggers) h₁ in
    let (more, later, h₃) = returned others h₂ in
    let same : In c ((n ∷ ps) ++ more.1) = subst (λ es. In c es) (collected h₃) place in
    elim (In-append c (n ∷ ps) more.1 same) [
      | inl here ↦ inl (here, (triggers, read, asked))
      | inr there ↦ inr (more, later, there)
    ]
  where
    collected : {a b : List Text × List Text} → ok a ≡ ok b → b.1 ≡ a.1
    collected e = cc

-- Each context that the loop collects is carried.
pub carriers_from-Carries :
    (contexts : List Text) (ws : Workflows) {seen : List Text × List Text}
    → carriers_from contexts ws ≡ ok seen
    → (c : Text) → In c seen.1
    → Carries c ws
unfolding carriers_from
carriers_from-Carries contexts [] {seen} h c place = absurd (subst (λ es. In c es) none_seen place)
  where
    none_seen : seen.1 ≡ []
    none_seen = cc
carriers_from-Carries contexts ((name, text) ∷ ws) h c place =
    let (names, named, h₁) = returned (job_names text) h in
    elim (carry-ok c (policy_names contexts names) name text (carriers_from contexts ws) h₁ place) [
      | inl (here, (triggers, read, asked)) ↦
          let (jobs, read_jobs, e) = job_names-ok text named in
          let (id, job) =
            names-In c jobs (subst (λ ns. In c ns) e (policy_names-In contexts names c here)) in
          record {
            name = name;
            text = text;
            id = id;
            jobs = jobs;
            triggers = triggers;
            there = inl refl;
            read_jobs = read_jobs;
            job = job;
            read_triggers = read;
            runs = check_carrier-RunsInQueue triggers asked;
          }
      | inr (more, later, there) ↦ Carries-later (carriers_from-Carries contexts ws later c there)
    ]
