-- ===== src/Policy/Workflows/Carriers.antt =====
-- What the check of the carriers guarantees of each required context.
pub mod Loop
pub mod Emitters
use project_charybdis.Base.{
  ℕ, suc, ◌≤◌, leb, ◌==◌, ◌≡◌, refl, sym, ap, subst, subst₂, ◌∙◌, ◌↔◌, ◌⊎◌, inl, inr, Bool, true,
  false, ◌&&◌, &&_iff, Option, none, some, List, [], ◌∷◌, ◌++◌, map, Text, codes, text_eq,
  text_eq_iff, text_eq_refl, Dict, lookup, has_key, length, all, All, Bool-cases, Option-cases,
  arith, Result, ok, raised, if◌then◌else◌,
}
use project_charybdis.Base.Errors.{◌>>=◌, ◌>>◌, check, returned, checked, check_iff, key_error}
use project_charybdis.Policy.Triggers.{Events, triggers_from_text}
use project_charybdis.Policy.Jobs.{job_contexts_from_text, emitter, emitters_in, context_emitters}
use project_charybdis.Policy.Shell.{texts_eq}
use project_charybdis.Policy.Violations.{dict_eq, has_text, sorted_set, insert_sorted}
use project_charybdis.Policy.Membership.{In, has_text_iff, texts_eq_iff, all_iff, In-insert_sorted}
use project_charybdis.Policy.Workflows.{
  Workflows, item, set_eq, job_names, on_main, when_requested, check_event, check_carrier,
  policy_names, carry, carriers_from, emitters_by_context, no_duplicates, carriers_test,
  expected_required_workflows,
}
use project_charybdis.Policy.Workflows.Carriers.Loop.{Carries, carriers_from-Carries}
use project_charybdis.Policy.Workflows.Carriers.Emitters.{
  context_emitters-In, emitters_by_context-one, single_of_In, In-sorted_set,
}

All-In : (P : Text → Type 0) (t : Text) (ts : List Text) → In t ts → All P ts → P t
All-In P t [] place h = absurd place
All-In P t (u ∷ ts) (inl e) (h, hs) = subst P (sym e) h
All-In P t (u ∷ ts) (inr later) (h, hs) = All-In P t ts later hs

-- A required context, once the check of the carriers has passed: one job of one workflow emits it,
-- and no other job does; and that workflow runs on a push to main, on a pull request against main,
-- and on the checks that the queue requests.
pub record IsCarriedOnce (context : Text) (ws : Workflows) : Type 0 where
  pub carrier : Carries context ws
  pub only : context_emitters context ws ≡ ok (emitter carrier.name carrier.id ∷ [])

-- Where the check of the carriers passes, each required context is emitted by exactly one job of the
-- workflows, in a workflow that runs on pushes to main, on pull requests against main and on the
-- checks that the merge queue requests.
pub carriers_test-IsCarriedOnce :
    (contexts : List Text) (ws : Workflows)
    → carriers_test contexts ws ≡ ok tt
    → (c : Text) → In c contexts
    → IsCarriedOnce c ws
unfolding carriers_test set_eq
carriers_test-IsCarriedOnce contexts ws h c place =
    let (seen, looped, h₁) = returned (carriers_from contexts ws) h in
    let (_, h₂) = checked (set_eq seen.0 expected_required_workflows) h₁ in
    let (same, h₃) = checked (set_eq seen.1 contexts) h₂ in
    let (emitters, table, h₄) = returned (emitters_by_context (sorted_set contexts) ws) h₃ in
    let (one, _) = checked (no_duplicates emitters) h₄ in
    let emitted = collected seen.1 ((&&_iff (all (λ s. has_text s contexts) seen.1) _).0 same).1 in
    let carrier = carriers_from-Carries contexts ws looped c emitted in
    let (es, found, few) =
      emitters_by_context-one c (sorted_set contexts) ws (In-sorted_set c contexts place) table
        one in
    let named =
      context_emitters-In c carrier.name carrier.text carrier.id carrier.jobs ws carrier.there
        carrier.read_jobs carrier.job found in
    record {
      carrier = carrier;
      only = found ∙ ap ok (single_of_In (emitter carrier.name carrier.id) es named few);
    }
  where
    collected : (es : List Text) → all (λ t. has_text t es) contexts ≡ true → In c es
    collected es covers =
        All-In (λ t. In t es) c contexts place
          ((all_iff (λ t. has_text t es) (λ t. In t es) (λ t. has_text_iff t es) contexts).0 covers)
