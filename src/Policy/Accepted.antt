-- ===== src/Policy/Accepted.antt =====
-- What it means that the required workflow has no violation, said without the checks: the contract
-- of `_required_graph_violations` as a specification.
pub mod Steps
pub mod Sound
pub mod Complete
pub mod Headers
pub mod Reports
use project_charybdis.Base.{
  ℕ, ◌≡◌, ◌⊎◌, true, false, Option, none, some, List, [], ◌∷◌, Text, codes, contains_text, Dict,
  lookup, ok, All, length,
}
use project_charybdis.Policy.Triggers.{Events, triggers_from_text}
use project_charybdis.Policy.Jobs.{job_contexts_from_text, job_section_from_text, top_level_block}
use project_charybdis.Policy.Steps.{
  job_step_sections, step_field, step_name, step_identity, step_condition, step_run_command,
}
use project_charybdis.Policy.Shell.{logical_shell_commands, gitleaks_script}
use project_charybdis.Policy.Contract.{
  expected_required_job_ids, Validator, expected_required_validators,
  allowed_required_step_conditions, expected_required_triggers,
}
use project_charybdis.Policy.Violations.{
  has_line, allowed_condition, validator_steps, text_of, count_text, events_eq,
}
use project_charybdis.Policy.Membership.{In}

-- A step runs on every event, unless its condition is the one that is allowed for it, and its
-- failure fails the job.
pub record IsStrictStep (job_id step : Text) : Type 0 where
  pub fails_job : step_field step (codes "continue-on-error") ≡ none
  pub unconditional :
      (step_condition step ≡ none)
      ⊎ ((c : Text) × (step_condition step ≡ some c)
          × (allowed_condition job_id (step_identity step) allowed_required_step_conditions
              ≡ some c))

-- The first of two expected commands stands in the branch with a configuration, the second in the
-- other, and there is no command beside.
abbrev pub HasBranches : List Text → List Text → Type 0
HasBranches commands expected =
    (configured : Text) × (default : Text) × (expected ≡ configured ∷ default ∷ [])
    × (commands ≡ gitleaks_script configured default)

-- One step has the validator's name, and it runs every expected command, each as a whole logical
-- command; the secrets scan runs its two commands in the two branches of its test.
pub record RunsValidator (job_id : Text) (v : Validator) (steps : List Text) : Type 0 where
  pub step : Text
  pub run : Text
  pub only : validator_steps v.step steps ≡ step ∷ []
  pub runs : step_run_command step ≡ some run
  pub commands : All (λ c. In c (logical_shell_commands run)) v.commands
  pub branches :
      job_id ≡ codes "security-secrets-scan" → HasBranches (logical_shell_commands run) v.commands

-- A job that nothing can skip, mask or hollow out.
pub record IsStrictJob (job_id : Text) (v : Validator) (section : Text) : Type 0 where
  pub independent : has_line (codes "    needs:") section ≡ false
  pub unconditional : has_line (codes "    if:") section ≡ false
  pub fails_run : has_line (codes "    continue-on-error:") section ≡ false
  pub checks_out : has_line (codes "      - uses: actions/checkout@") section ≡ true
  pub steps : All (IsStrictStep job_id) (job_step_sections section)
  pub validated : RunsValidator job_id v (job_step_sections section)

-- Every expected job is there and strict.
abbrev pub HasStrictJob : Text → Text × Validator → Type 0
HasStrictJob text e =
    (section : Text) × (job_section_from_text text e.0 ≡ ok section) × IsStrictJob e.0 e.1 section

pub record IsAccepted (text : Text) (names : List Text) : Type 0 where
  pub triggers : Events
  pub concurrency : Text
  pub jobs : List (Text × Text)
  pub read_triggers : triggers_from_text text ≡ ok triggers
  pub read_concurrency : top_level_block text (codes "concurrency") ≡ ok concurrency
  pub read_jobs : job_contexts_from_text text ≡ ok jobs
  pub expected_triggers : events_eq triggers expected_required_triggers ≡ true
  pub no_workflow_run : contains_text text (codes "workflow_run") ≡ false
  pub by_event : contains_text concurrency (codes "${{ github.event_name }}") ≡ true
  pub by_commit : contains_text concurrency (codes "${{ github.sha }}") ≡ true
  pub not_cancelled : contains_text concurrency (codes "cancel-in-progress: false") ≡ true
  pub nothing_missing : All (λ id. In id (text_of jobs)) expected_required_job_ids
  pub nothing_else : All (λ id. In id expected_required_job_ids) (text_of jobs)
  pub strict_jobs : All (HasStrictJob text) expected_required_validators
  pub one_entry : count_text (codes "Required Checks") names ≡ 1
