-- ===== src/Policy/Workflows/FanIns/Results.antt =====
-- What the tests of the fan-ins guarantee of their contexts.
use project_charybdis.Base.{
  IsIn, ◌≡◌, refl, sym, ap, subst, ◌∙◌, inl, inr, Bool-cases, List, [], ◌∷◌, ◌++◌, Text, text_eq,
  text_eq_iff, All, ok,
}
use project_charybdis.Base.Errors.{returned, check_iff}
use project_charybdis.Policy.Jobs.{job_contexts_from_text, emitter, emitters_in, context_emitters}
use project_charybdis.Policy.Shell.{texts_eq}
use project_charybdis.Policy.Membership.{In, texts_eq_iff}
use project_charybdis.Policy.Workflows.{Workflows, job_section}
use project_charybdis.Policy.Workflows.Carriers.Emitters.{context_emitters-In}
use project_charybdis.Policy.Workflows.Carriers.Loop.{In-append}
use project_charybdis.Policy.Workflows.FanIns.{FanIn, check_emitter, check_fan_in, fan_ins_test}

-- A job of one of the workflows that emits the context.
pub record Emits (context : Text) (ws : Workflows) : Type 0 where
  pub name : Text
  pub text : Text
  pub id : Text
  pub jobs : List (Text × Text)
  pub there : IsIn (name, text) ws
  pub read_jobs : job_contexts_from_text text ≡ ok jobs
  pub job : IsIn (id, context) jobs

abbrev pub label_of : {context : Text} {ws : Workflows} → Emits context ws → Text
label_of e = emitter e.name e.id

-- A job emits the context under the label of the fan-in, and each job that emits it has this label.
pub record IsAlone (ws : Workflows) (f : FanIn) : Type 0 where
  pub gathers : Emits f.context ws
  pub labelled : label_of gathers ≡ emitter f.workflow f.job
  pub alone : (e : Emits f.context ws) → label_of e ≡ emitter f.workflow f.job

emitters_in-IsIn :
    (c name e : Text) (jobs : List (Text × Text))
    → In e (emitters_in c name jobs)
    → (id : Text) × IsIn (id, c) jobs × (e ≡ emitter name id)
unfolding emitters_in
emitters_in-IsIn c name e [] h = absurd h
emitters_in-IsIn c name e ((id, n) ∷ jobs) h = elim (Bool-cases (text_eq n c)) [
  | inl same ↦ elim (rw same at h) [
    | inl first ↦ (id, inl (ap (λ m. (id, m)) (sym ((text_eq_iff n c).0 same))), first)
    | inr deeper ↦
        let (j, there, label) = emitters_in-IsIn c name e jobs deeper in (j, inr there, label)
  ]
  | inr other ↦
      let (j, there, label) = emitters_in-IsIn c name e jobs (rw other at h) in
      (j, inr there, label)
]

Emits-later : {c : Text} {w : Text × Text} {ws : Workflows} → Emits c ws → Emits c (w ∷ ws)
Emits-later e = record {
  name = e.name;
  text = e.text;
  id = e.id;
  jobs = e.jobs;
  there = inr e.there;
  read_jobs = e.read_jobs;
  job = e.job;
}

-- Each emitter that is found of a context is the label of a job that emits it.
context_emitters-Emits :
    (c label : Text) (ws : Workflows) {es : List Text}
    → context_emitters c ws ≡ ok es
    → In label es
    → (e : Emits c ws) × (label ≡ label_of e)
unfolding context_emitters Emits-later
context_emitters-Emits c label [] {es} h place =
    let nothing : es ≡ [] = cc in absurd (subst (In label) nothing place)
context_emitters-Emits c label ((w, t) ∷ ws) {es} h place =
    let (jobs, read, h₁) = returned (job_contexts_from_text t) h in
    let (others, rest, h₂) = returned (context_emitters c ws) h₁ in
    let whole : es ≡ emitters_in c w jobs ++ others = cc in
    elim (In-append label (emitters_in c w jobs) others (subst (In label) whole place)) [
      | inl here ↦
          let (id, job, same) = emitters_in-IsIn c w label jobs here in
          (
            record {
              name = w;
              text = t;
              id = id;
              jobs = jobs;
              there = inl refl;
              read_jobs = read;
              job = job;
            },
            same,
          )
      | inr deeper ↦
          let (e, same) = context_emitters-Emits c label ws rest deeper in (Emits-later e, same)
    ]

check_emitter-ok :
    (f : FanIn) (ws : Workflows)
    → check_emitter f ws ≡ ok tt
    → context_emitters f.context ws ≡ ok (emitter f.workflow f.job ∷ [])
unfolding check_emitter
check_emitter-ok f ws h =
    let (es, found, same) = returned (context_emitters f.context ws) h in
    found
    ∙ ap ok
        ((texts_eq_iff es _).0 ((check_iff (texts_eq es (emitter f.workflow f.job ∷ []))).0 same))

only_label : (label own : Text) → In label (own ∷ []) → label ≡ own
only_label label own (inl e) = e
only_label label own (inr none_there) = absurd none_there

check_fan_in-IsAlone : (f : FanIn) (ws : Workflows) → check_fan_in f ws ≡ ok tt → IsAlone ws f
unfolding check_fan_in
check_fan_in-IsAlone f ws h =
    let (_, _, h₁) = returned (job_section f.workflow f.job ws) h in
    let (_, emitter_checked, _) = returned (check_emitter f ws) h₁ in
    let found = check_emitter-ok f ws emitter_checked in
    let (job, same) =
      context_emitters-Emits f.context (emitter f.workflow f.job) ws found (inl refl) in
    record {
      gathers = job;
      labelled = sym same;
      alone = λ e. only_label (label_of e) (emitter f.workflow f.job) (
          context_emitters-In f.context e.name e.text e.id e.jobs ws e.there e.read_jobs e.job
            found);
    }

-- Where the test of the fan-ins passes, the context of each of them is emitted by a job whose label,
-- its workflow and its identifier, is the expected one, and by no job with another label in any of
-- the workflows.
pub fan_ins_test-IsAlone :
    (fs : List FanIn) (ws : Workflows) → fan_ins_test fs ws ≡ ok tt → All (IsAlone ws) fs
unfolding fan_ins_test
fan_ins_test-IsAlone [] ws h = tt
fan_ins_test-IsAlone (f ∷ fs) ws h =
    let (_, first, others) = returned (check_fan_in f ws) h in
    (check_fan_in-IsAlone f ws first, fan_ins_test-IsAlone fs ws others)
