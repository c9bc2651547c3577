-- ===== src/Policy/Workflows/Queue/Parity.antt =====
-- What passes of these tests, and what it guarantees.
use project_charybdis.Base.{
  IsIn, ◌≡◌, refl, sym, ap, subst, ◌∙◌, ◌↔◌, ◌⊎◌, inl, inr, true, false, &&_iff, some, List, [],
  ◌∷◌, Text, codes, lookup, has_key, all, Bool-cases, ok, raised, Result, Option, none, text_eq,
}
use project_charybdis.Base.Errors.{returned, check_iff, file_not_found_error}
use project_charybdis.Policy.Triggers.{Events, triggers_from_text}
use project_charybdis.Policy.Violations.{Violation, has_text, count_text, required_graph_violations}
use project_charybdis.Policy.Membership.{In, has_text_iff}
use project_charybdis.Policy.Accepted.{IsAccepted}
use project_charybdis.Policy.Accepted.Complete.{required_graph_violations_iff}
use project_charybdis.Policy.Workflows.{Workflows, read_text, set_eq}
use project_charybdis.Policy.Workflows.Queue.Entry.{ShowsOnce, count-one, IsAccepted-names}
use project_charybdis.Policy.Workflows.Queue.{
  expected_merge_group_workflows, merge_group_workflows, merge_groups_test, display_names, is_empty,
  direct_graph_test,
}

-- The two sets have the same members.
set_eq_iff : (ss ts : List Text) → set_eq ss ts ≡ true → (t : Text) → In t ss ↔ In t ts
unfolding set_eq
set_eq_iff ss ts h t =
    let (left, right) = (&&_iff (all (λ s. has_text s ts) ss) _).0 h in
    (within ss ts left t, within ts ss right t)
  where
    within :
        (us vs : List Text) → all (λ s. has_text s vs) us ≡ true → (u : Text) → In u us → In u vs
    within [] vs e u place = absurd place
    within (v ∷ us) vs e u (inl same) =
        subst (λ w. In w vs) (sym same) ((has_text_iff v vs).0 ((&&_iff (has_text v vs) _).0 e).0)
    within (v ∷ us) vs e u (inr later) = within us vs ((&&_iff (has_text v vs) _).0 e).1 u later

-- A workflow with a `merge_group` event.
abbrev pub HandlesMergeGroup : Text → Type 0
HandlesMergeGroup text =
    (triggers : Events) × (triggers_from_text text ≡ ok triggers)
    × (has_key (codes "merge_group") triggers ≡ true)

is_empty-ok : (vs : List Violation) → is_empty vs ≡ true → vs ≡ []
is_empty-ok [] h = refl
is_empty-ok (v ∷ vs) h = absurd (cc)

pub read_text-lookup :
    (name : Text) (ws : Workflows) {text : Text}
    → lookup name ws ≡ some text
    → read_text name ws ≡ ok text
unfolding read_text
read_text-lookup name ws there = rw (read_text, there) refl

-- The required workflow meets its contract, and one of all workflows shows the name "Required
-- Checks".
pub record IsDirect (ws : Workflows) : Type 0 where
  pub text : Text
  pub there : lookup (codes "_required.yml") ws ≡ some text
  pub accepted : IsAccepted text (codes "Required Checks" ∷ [])
  pub entry : ShowsOnce (codes "Required Checks") ws

read_text-ok :
    (name : Text) (ws : Workflows) {text : Text}
    → read_text name ws ≡ ok text
    → lookup name ws ≡ some text
unfolding read_text
read_text-ok name ws {text} h = found (lookup name ws) h
  where
    found :
        (o : Option Text)
        → (elim o as (λ x. Result Text) [ none ↦ raised file_not_found_error | some t ↦ ok t ])
          ≡ ok text
        → o ≡ some text
    found none e = absurd (cc)
    found (some t) e = cc

direct_graph_test-IsDirect : (ws : Workflows) → direct_graph_test ws ≡ ok tt → IsDirect ws
unfolding direct_graph_test count_text text_eq
direct_graph_test-IsDirect ws h =
    let (text, read, h₁) = returned (read_text (codes "_required.yml") ws) h in
    let (vs, found, none_left) = returned (required_graph_violations text (display_names ws)) h₁ in
    let accepted =
      (required_graph_violations_iff text (display_names ws)).0
        (found ∙ ap ok (is_empty-ok vs ((check_iff (is_empty vs)).0 none_left))) in
    record {
      text = text;
      there = read_text-ok (codes "_required.yml") ws read;
      accepted =
          IsAccepted-names text (display_names ws) (codes "Required Checks" ∷ []) refl accepted;
      entry = (count-one (codes "Required Checks") ws).0 accepted.one_entry;
    }

-- The test of the required workflow's graph passes exactly where there is a workflow _required.yml
-- that meets its contract, and exactly one of all the workflows shows the name "Required Checks".
pub direct_graph_test_iff : (ws : Workflows) → (direct_graph_test ws ≡ ok tt) ↔ IsDirect ws
unfolding direct_graph_test
direct_graph_test_iff ws = (
  direct_graph_test-IsDirect ws,
  λ d.
      rw
        (
          read_text-lookup (codes "_required.yml") ws d.there,
          (required_graph_violations_iff d.text (display_names ws)).1 (
              IsAccepted-names d.text (codes "Required Checks" ∷ []) (display_names ws)
                ((count-one (codes "Required Checks") ws).1 d.entry) d.accepted),
        )
        refl,
)

-- There is a workflow of this name that handles `merge_group`.
abbrev pub Handles : Text → Workflows → Type 0
Handles name ws = (text : Text) × IsIn (name, text) ws × HandlesMergeGroup text

Handles-later :
    (name : Text) (w : Text × Text) (ws : Workflows) → Handles name ws → Handles name (w ∷ ws)
Handles-later name w ws (text, there, handles) = (text, inr there, handles)

Handles-cons :
    (name w t : Text) (ws : Workflows)
    → Handles name ((w, t) ∷ ws)
    → ((name ≡ w) × HandlesMergeGroup t) ⊎ Handles name ws
Handles-cons name w t ws (text, inl e, handles) =
    let same_name : name ≡ w = cc in
    let same_text : text ≡ t = cc in inl (same_name, subst HandlesMergeGroup same_text handles)
Handles-cons name w t ws (text, inr later, handles) = inr (text, later, handles)

silent-HandlesMergeGroup :
    (text : Text) {triggers : Events}
    → triggers_from_text text ≡ ok triggers
    → has_key (codes "merge_group") triggers ≡ false
    → ¬ HandlesMergeGroup text
silent-HandlesMergeGroup text {triggers} read silent (found, read', handles) =
    let same : found ≡ triggers = cc (read, read') in
    cc (ap (has_key (codes "merge_group")) same, silent, handles)

merge_group_workflows-Handles :
    (ws : Workflows) {names : List Text}
    → merge_group_workflows ws ≡ ok names
    → (name : Text) → In name names ↔ Handles name ws
unfolding merge_group_workflows
merge_group_workflows-Handles [] {names} h name =
    let none_there : names ≡ [] = cc in
    (
      λ place. absurd (subst (λ ns. In name ns) none_there place),
      λ (text, there, handles). absurd there,
    )
merge_group_workflows-Handles ((w, t) ∷ ws) {names} h name =
    let (triggers, read, h₁) = returned (triggers_from_text t) h in
    let (more, later, h₂) = returned (merge_group_workflows ws) h₁ in
    let ih = merge_group_workflows-Handles ws later name in
    elim (Bool-cases (has_key (codes "merge_group") triggers)) [
      | inl handles ↦
          let whole : names ≡ w ∷ more = cc (rw handles at h₂) in
          (
            λ place. elim (subst (λ ns. In name ns) whole place) [
              | inl same ↦ (t, inl (ap (λ n. (n, t)) same), (triggers, read, handles))
              | inr deeper ↦ Handles-later name (w, t) ws (ih.0 deeper)
            ],
            λ found.
                subst (λ ns. In name ns) (sym whole)
                  (elim (Handles-cons name w t ws found) [
                    | inl (same, h') ↦ inl same
                    | inr deeper ↦ inr (ih.1 deeper)
                  ]),
          )
      | inr silent ↦
          let whole : names ≡ more = cc (rw silent at h₂) in
          (
            λ place. Handles-later name (w, t) ws (ih.0 (subst (λ ns. In name ns) whole place)),
            λ found.
                subst (λ ns. In name ns) (sym whole)
                  (elim (Handles-cons name w t ws found) [
                    | inl (same, h') ↦ absurd (silent-HandlesMergeGroup t read silent h')
                    | inr deeper ↦ ih.1 deeper
                  ]),
          )
    ]

-- Where the test of the merge groups passes, the workflows that handle `merge_group` are exactly the
-- expected ones.
pub merge_groups_test-Handles :
    (ws : Workflows)
    → merge_groups_test ws ≡ ok tt
    → (name : Text) → In name expected_merge_group_workflows ↔ Handles name ws
unfolding merge_groups_test
merge_groups_test-Handles ws h name =
    let (names, found, same) = returned (merge_group_workflows ws) h in
    let members =
      set_eq_iff names expected_merge_group_workflows
        ((check_iff (set_eq names expected_merge_group_workflows)).0 same) name in
    let handlers = merge_group_workflows-Handles ws found name in
    (λ place. handlers.0 (members.1 place), λ there. members.0 (handlers.1 there))
