-- ===== src/Policy/Workflows/Witnesses.antt =====
-- The test methods at small workflows, and their theorems at these.
use project_charybdis.Base.{
  has_key, false, ◌≡◌, ok, refl, ◌↔◌, inl, inr, [], ◌∷◌, ◌++◌, Text, codes, String, map,
}
use project_charybdis.Policy.Jobs.{context_emitters, emitters_in}
use project_charybdis.Policy.Membership.{In}
use project_charybdis.Policy.Tests.{reads}
use project_charybdis.Policy.Workflows.{
  Workflows, read_text, item, set_eq, triggers_of, job_section, job_names, check_event,
  check_carrier, policy_names, carriers_from, emitters_by_context, no_duplicates, carriers_test,
}
use project_charybdis.Policy.Workflows.Carriers.{IsCarriedOnce}
use project_charybdis.Json.{Json, str, arr, obj, field, end, get, subscript}
use project_charybdis.Json.Equal.{json_eq, items_eq, fields_in, number, float_eq}
use project_charybdis.Policy.Workflows.Live.{
  expected_contexts, expected_queue_rule, text_items, check_member, policy_test, texts_of,
  required_contexts, policy_carriers_test,
}
use project_charybdis.Policy.Workflows.Live.Carried.{policy_carriers_test-IsCarriedOnce}
use project_charybdis.Policy.Workflows.Queue.{
  expected_merge_group_workflows, merge_group_workflows, merge_groups_test, parity_test,
}
use project_charybdis.Policy.Workflows.Queue.Covered.{parity_test_iff}
use project_charybdis.Policy.Workflows.Queue.Parity.{Handles, merge_groups_test-Handles}
use project_charybdis.Policy.Workflows.FanIns.{
  fan_in, has_whole_line, check_emitter, check_fan_in, fan_ins_test,
}
use project_charybdis.Policy.Workflows.FanIns.Results.{IsAlone, fan_ins_test-IsAlone}

tests : Unit {0}
unfolding reads read_text item set_eq triggers_of job_section job_names check_event check_carrier
    policy_names carriers_from emitters_by_context no_duplicates carriers_test merge_group_workflows
    merge_groups_test has_whole_line check_emitter check_fan_in fan_ins_test context_emitters
    emitters_in get subscript json_eq items_eq fields_in number float_eq check_member policy_test
    texts_of required_contexts policy_carriers_test
tests = tt

-- A workflow of the queue, with these lines of jobs.
abbrev queued : Text → Text
queued jobs =
    codes "on:\n  push:\n    branches: [main]\n  pull_request:\n    branches: [main]\n"
    ++ codes "  merge_group:\n    types: [checks_requested]\njobs:\n"
    ++ jobs

-- A job that is called by its identifier, and one with a name.
abbrev job : String → Text
job id = codes "  " ++ codes id ++ codes ":\n"

abbrev named_job : String → String → Text
named_job id name = job id ++ codes "    name: " ++ codes name ++ codes "\n"

abbrev live : Workflows
live =
    (
      codes "_required.yml",
      queued (
          named_job "versions" "deps/version-sync"
          ++ job "install"
          ++ job "release"
          ++ job "schema-validation"
          ++ named_job "deps" "security/dependency-scan"
          ++ named_job "secrets" "security/secrets-scan"
          ++ job "typecheck"),
    )
    ∷ (
      codes "build-test.yml",
      queued (
          named_job "all" "All Build/Test Checks" ++ job "build" ++ job "test" ++ job "unit-tests"),
    )
    ∷ (codes "code-coverage.yml", queued (named_job "all" "All Coverage Checks"))
    ∷ (codes "container.yml", queued (job "package"))
    ∷ (codes "integration-tests.yml", queued (named_job "suite" "integration-tests"))
    ∷ (codes "release.yml", codes "on:\n  push:\njobs:\n  image:")
    ∷ (
      codes "static-analysis.yml",
      queued (named_job "all" "All Static Analysis Checks" ++ job "lint"),
    )
    ∷ []

abbrev policy : Json
policy = obj (
    field (codes "repository") (str (codes "HomericIntelligence/Charybdis")) (
      field (codes "required_contexts") (arr (text_items expected_contexts)) (
        field (codes "merge_queue_rule") expected_queue_rule
          (field (codes "target_branch") (str (codes "main")) end))))

policy_carriers_test-IsCarriedOnce_example : IsCarriedOnce (codes "build") live
unfolding tests
policy_carriers_test-IsCarriedOnce_example =
    policy_carriers_test-IsCarriedOnce policy live refl refl (codes "build")
      (inr (inr (inr (inl refl))))

-- The workflows of the queue, and one that is not.
abbrev ten : Workflows
ten =
    (codes "docs.yml", codes "on:\n  push:")
    ∷ map (λ name. (name, codes "on:\n  merge_group:\njobs:\n  a:")) expected_merge_group_workflows

merge_groups_test-Handles_example :
    In (codes "codeql.yml") expected_merge_group_workflows ↔ Handles (codes "codeql.yml") ten
unfolding tests
merge_groups_test-Handles_example = merge_groups_test-Handles ten refl (codes "codeql.yml")

parity_test_iff_example :
    (parity_test ten ≡ ok tt) ↔ (has_key (codes "merge-queue-smoke.yml") ten ≡ false)
unfolding tests
parity_test_iff_example =
    parity_test_iff ten
      (refl, (refl, (refl, (refl, (refl, (refl, (refl, (refl, (refl, (refl, tt)))))))))) refl

abbrev gathered : Workflows
gathered =
    (
      codes "build-test.yml",
      codes "on:\n  merge_group:\n    types: [checks_requested]\njobs:\n  build:\n"
          ++ codes "    needs: [compile]\n    if: always()\n    steps:\n"
          ++ codes "      - run: test ${{ needs.compile.result }} = success",
    )
    ∷ []

fan_ins_test-IsAlone_example : IsAlone gathered (fan_in "build" "build-test.yml" "build") × Unit {0}
unfolding tests
fan_ins_test-IsAlone_example =
    fan_ins_test-IsAlone (fan_in "build" "build-test.yml" "build" ∷ []) gathered refl
