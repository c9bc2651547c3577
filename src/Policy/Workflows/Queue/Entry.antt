-- ===== src/Policy/Workflows/Queue/Entry.antt =====
-- How often the workflows show a name.
use project_charybdis.Base.{
  ◌≡◌, ◌≢◌, refl, sym, ap, ◌∙◌, ◌↔◌, suc, Option, none, some, List, [], ◌∷◌, ◌++◌, Text, text_eq,
  text_eq_iff, All, Bool-cases, inl, inr, arith, codes,
}
use project_charybdis.Policy.Jobs.{workflow_display_name}
use project_charybdis.Policy.Violations.{count_text}
use project_charybdis.Policy.Accepted.{IsAccepted}
use project_charybdis.Policy.Workflows.{Workflows}
use project_charybdis.Policy.Workflows.Queue.{display_names}

abbrev pub Shows : Text → Text × Text → Type 0
Shows name w = workflow_display_name w.1 ≡ some name

abbrev pub Hides : Text → Text × Text → Type 0
Hides name w = workflow_display_name w.1 ≢ some name

-- One of the workflows shows this name, and no other does.
pub record ShowsOnce (name : Text) (ws : Workflows) : Type 0 where
  pub front : Workflows
  pub entry : Text × Text
  pub behind : Workflows
  pub whole : ws ≡ front ++ entry ∷ behind
  pub shows : Shows name entry
  pub none_before : All (Hides name) front
  pub none_behind : All (Hides name) behind

-- The count of one workflow.
data CountedAs (name : Text) (w : Text × Text) (ws : Workflows) : Type 0 where
  counted :
      Shows name w
      → count_text name (display_names (w ∷ ws)) ≡ suc (count_text name (display_names ws))
      → CountedAs name w ws
  passed :
      Hides name w
      → count_text name (display_names (w ∷ ws)) ≡ count_text name (display_names ws)
      → CountedAs name w ws

count-cases : (name : Text) (w : Text × Text) (ws : Workflows) → CountedAs name w ws
unfolding display_names count_text
count-cases name (file, text) ws = by_name (workflow_display_name text) refl
  where
    by_name : (o : Option Text) → workflow_display_name text ≡ o → CountedAs name (file, text) ws
    by_name none e = passed (λ shows. cc) (rw (display_names, e) refl)
    by_name (some shown) e = elim (Bool-cases (text_eq shown name)) [
      | inl same ↦
          counted (e ∙ ap some ((text_eq_iff shown name).0 same))
            (rw (display_names, e, count_text, same) refl)
      | inr other ↦
          passed
            (λ shows. let met : shown ≡ name = cc in cc ((text_eq_iff shown name).1 met, other))
            (rw (display_names, e, count_text, other) refl)
    ]

count-zero :
    (name : Text) (ws : Workflows) → (count_text name (display_names ws) ≡ 0) ↔ All (Hides name) ws
unfolding display_names count_text
count-zero name [] = (λ h. tt, λ h. refl)
count-zero name (w ∷ ws) = elim (count-cases name w ws) [
  | counted shows n ↦ (λ h. absurd (omega arith), λ h. absurd (h.0 shows))
  | passed hides n ↦
      (λ h. (hides, (count-zero name ws).0 (sym n ∙ h)), λ h. n ∙ (count-zero name ws).1 h.1)
]

-- No workflow in front shows it: the count is that of the others.
count-skip :
    (name : Text) (front rest : Workflows)
    → All (Hides name) front
    → count_text name (display_names (front ++ rest)) ≡ count_text name (display_names rest)
count-skip name [] rest h = refl
count-skip name (w ∷ front) rest (h, hs) = elim (count-cases name w (front ++ rest)) [
  | counted shows n ↦ absurd (h shows)
  | passed hides n ↦ n ∙ count-skip name front rest hs
]

further :
    (name : Text) (w : Text × Text) (ws : Workflows)
    → Hides name w
    → ShowsOnce name ws
    → ShowsOnce name (w ∷ ws)
further name w ws hides once = record {
  front = w ∷ once.front;
  entry = once.entry;
  behind = once.behind;
  whole = ap (λ us. w ∷ us) once.whole;
  shows = once.shows;
  none_before = (hides, once.none_before);
  none_behind = once.none_behind;
}

found_once :
    (name : Text) (ws : Workflows) → count_text name (display_names ws) ≡ 1 → ShowsOnce name ws
unfolding display_names count_text
found_once name [] h = absurd (omega arith)
found_once name (w ∷ ws) h = elim (count-cases name w ws) [
  | counted shows n ↦ record {
    front = [];
    entry = w;
    behind = ws;
    whole = refl;
    shows = shows;
    none_before = tt;
    none_behind = (count-zero name ws).0 (omega arith);
  }
  | passed hides n ↦ further name w ws hides (found_once name ws (sym n ∙ h))
]

counted_once :
    (name : Text) (ws : Workflows) → ShowsOnce name ws → count_text name (display_names ws) ≡ 1
counted_once name ws once =
    ap (λ vs. count_text name (display_names vs)) once.whole
    ∙ count-skip name once.front (once.entry ∷ once.behind) once.none_before
    ∙ elim (count-cases name once.entry once.behind) [
      | counted shows n ↦ n ∙ ap suc ((count-zero name once.behind).1 once.none_behind)
      | passed hides n ↦ absurd (hides once.shows)
    ]

-- The name is counted once exactly where one workflow shows it.
pub count-one :
    (name : Text) (ws : Workflows) → (count_text name (display_names ws) ≡ 1) ↔ ShowsOnce name ws
count-one name ws = (found_once name ws, counted_once name ws)

-- Of the names only those called "Required Checks" count.
pub IsAccepted-names :
    (text : Text) (names others : List Text)
    → count_text (codes "Required Checks") others ≡ 1
    → IsAccepted text names
    → IsAccepted text others
IsAccepted-names text names others once a = record {
  triggers = a.triggers;
  concurrency = a.concurrency;
  jobs = a.jobs;
  read_triggers = a.read_triggers;
  read_concurrency = a.read_concurrency;
  read_jobs = a.read_jobs;
  expected_triggers = a.expected_triggers;
  no_workflow_run = a.no_workflow_run;
  by_event = a.by_event;
  by_commit = a.by_commit;
  not_cancelled = a.not_cancelled;
  nothing_missing = a.nothing_missing;
  nothing_else = a.nothing_else;
  strict_jobs = a.strict_jobs;
  one_entry = once;
}
