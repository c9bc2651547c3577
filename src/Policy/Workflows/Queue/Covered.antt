-- ===== src/Policy/Workflows/Queue/Covered.antt =====
-- The loop of the parity test asks nothing that the test of the merge groups does not ask.
use project_charybdis.Base.{
  IsIn, ◌≡◌, refl, sym, ap, ◌∙◌, ◌↔◌, inl, inr, true, false, not, ◌||◌, List, [], ◌∷◌, Text, codes,
  text_eq_iff, has_key, HasDistinctKeys, All, Bool-cases, arith, ok,
}
use project_charybdis.Base.Errors.{returned}
use project_charybdis.Policy.Triggers.{Events, triggers_from_text}
use project_charybdis.Policy.Membership.{In, has_text_iff}
use project_charybdis.Policy.Workflows.{Workflows, expected_required_workflows}
use project_charybdis.Policy.Workflows.Queue.{
  expected_merge_group_workflows, merge_group_workflows, merge_groups_test, needs_parity,
  parity_from, parity_test,
}
use project_charybdis.Policy.Workflows.Queue.Parity.{Handles, merge_groups_test-Handles}

-- The workflows that carry required contexts are among those of the queue.
required-In :
    (name : Text) → In name expected_required_workflows → In name expected_merge_group_workflows
required-In name (inl e) = inl e
required-In name (inr (inl e)) = inr (inl e)
required-In name (inr (inr (inl e))) = inr (inr (inl e))
required-In name (inr (inr (inr (inl e)))) = inr (inr (inr (inr (inl e))))
required-In name (inr (inr (inr (inr (inl e))))) = inr (inr (inr (inr (inr (inl e)))))
required-In name (inr (inr (inr (inr (inr (inl e)))))) =
    inr (inr (inr (inr (inr (inr (inr (inr (inl e))))))))
required-In name (inr (inr (inr (inr (inr (inr x)))))) = elim x [ ]

needs_parity-In :
    (name : Text) (triggers : Events)
    → needs_parity name triggers ≡ true
    → In name expected_merge_group_workflows
unfolding needs_parity
needs_parity-In name triggers h = ground (
  arith,
  has_text_iff name expected_merge_group_workflows,
  has_text_iff name expected_required_workflows,
  required-In name,
)

IsIn-has_key : (name text : Text) (ws : Workflows) → IsIn (name, text) ws → has_key name ws ≡ true
unfolding has_key
IsIn-has_key name text [] there = absurd there
IsIn-has_key name text ((j, t) ∷ ws) (inl e) = ground (arith, text_eq_iff j name, ap (λ w. w.0) e)
IsIn-has_key name text ((j, t) ∷ ws) (inr later) = ground (arith, IsIn-has_key name text ws later)

-- No name stands for two texts.
IsIn-unique :
    (name t u : Text) (ws : Workflows)
    → HasDistinctKeys ws
    → IsIn (name, t) ws
    → IsIn (name, u) ws
    → t ≡ u
IsIn-unique name t u [] d there there' = absurd there
IsIn-unique name t u (w ∷ ws) d (inl e) (inl e') = ap (λ p. p.1) (e ∙ sym e')
IsIn-unique name t u ((j, v) ∷ ws) d (inl e) (inr later) =
    absurd (ground (arith, IsIn-has_key name u ws later, d.0, ap (λ p. p.0) e))
IsIn-unique name t u ((j, v) ∷ ws) d (inr later) (inl e) =
    absurd (ground (arith, IsIn-has_key name t ws later, d.0, ap (λ p. p.0) e))
IsIn-unique name t u (w ∷ ws) d (inr later) (inr later') = IsIn-unique name t u ws d.1 later later'

-- What one round of the loop checks.
round_holds :
    (name text : Text) (ws : Workflows) {triggers : Events}
    → HasDistinctKeys ws
    → ((n : Text) → In n expected_merge_group_workflows → Handles n ws)
    → IsIn (name, text) ws
    → triggers_from_text text ≡ ok triggers
    → (not (needs_parity name triggers) || has_key (codes "merge_group") triggers) ≡ true
round_holds name text ws {triggers} d handled there read =
    elim (Bool-cases (needs_parity name triggers)) [
      | inr free ↦ ground arith
      | inl needed ↦
          let (text', there', (found, read', handles)) =
            handled name (needs_parity-In name triggers needed) in
          let same_text : text' ≡ text = IsIn-unique name text' text ws d there' there in
          let same : found ≡ triggers = cc (read, read', same_text) in
          ground (arith, handles, ap (has_key (codes "merge_group")) same)
    ]

parity_from-ok :
    (all_ws ws : Workflows) {names : List Text}
    → HasDistinctKeys all_ws
    → ((n : Text) → In n expected_merge_group_workflows → Handles n all_ws)
    → All (λ w. IsIn w all_ws) ws
    → merge_group_workflows ws ≡ ok names
    → parity_from ws ≡ ok tt
unfolding parity_from merge_group_workflows
parity_from-ok all_ws [] d handled there h = refl
parity_from-ok all_ws ((name, text) ∷ ws) d handled (first, others) h =
    let (triggers, read, h₁) = returned (triggers_from_text text) h in
    let (more, later, _) = returned (merge_group_workflows ws) h₁ in
    rw (read, round_holds name text all_ws d handled first read)
      (parity_from-ok all_ws ws d handled others later)

All-IsIn :
    (ws all_ws : Workflows)
    → ((w : Text × Text) → IsIn w ws → IsIn w all_ws)
    → All (λ w. IsIn w all_ws) ws
All-IsIn [] all_ws within = tt
All-IsIn (w ∷ ws) all_ws within =
    (within w (inl refl), All-IsIn ws all_ws (λ v there. within v (inr there)))

-- Where the test of the merge groups passes, on workflows of distinct names, the parity test passes
-- exactly where there is no workflow merge-queue-smoke.yml: its loop asks nothing more.
pub parity_test_iff :
    (ws : Workflows)
    → HasDistinctKeys ws
    → merge_groups_test ws ≡ ok tt
    → (parity_test ws ≡ ok tt) ↔ (has_key (codes "merge-queue-smoke.yml") ws ≡ false)
unfolding parity_test merge_groups_test
parity_test_iff ws d h =
    let (names, found, _) = returned (merge_group_workflows ws) h in
    let loop =
      parity_from-ok ws ws d (λ n. (merge_groups_test-Handles ws h n).0)
        (All-IsIn ws ws (λ w there. there)) found in
    elim (Bool-cases (has_key (codes "merge-queue-smoke.yml") ws)) [
      | inl there ↦ rw there (λ e. absurd (cc), λ e. absurd (cc))
      | inr gone ↦ rw (gone, loop) (λ e. refl, λ e. refl)
    ]
