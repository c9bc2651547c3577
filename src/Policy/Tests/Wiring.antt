-- ===== src/Policy/Tests/Wiring.antt =====
-- Runs of the readers of the justfile and of the hooks.
use project_charybdis.Base.{◌≡◌, refl, true, false, split_on, codes, String, Text, List}
use project_charybdis.Policy.Tests.{reads}
use project_charybdis.Policy.Wiring.{
  runs_script, has_recipe, is_word_char, has_word_behind, is_ci_line, has_hook,
}

abbrev lines : String → List Text
lines s = split_on 10 (codes s)

recipe_runs :
    (has_recipe (lines "a:\nmerge-queue-policy:\n    ./scripts/test-merge-queue-policy.py \n\nb:")
      ≡ true)
    × (has_recipe (lines "merge-queue-policy:\n\n./scripts/test-merge-queue-policy.py") ≡ true)
    × (has_recipe (lines "merge-queue-policy:\n./scripts/test-merge-queue-policy.py") ≡ false)
    × (has_recipe (lines "merge-queue-policy:\n  echo\n  ./scripts/test-merge-queue-policy.py")
        ≡ false)
    × (is_ci_line (codes "ci: lint merge-queue-policy test") ≡ true)
    × (is_ci_line (codes "ci:merge-queue-policy") ≡ true)
    × (is_ci_line (codes "ci: merge-queue-policy_2") ≡ false)
unfolding reads runs_script has_recipe is_word_char has_word_behind is_ci_line
recipe_runs = (refl, refl, refl, refl, refl, refl, refl)

hook_runs :
    (has_hook (
        lines
          "      - id: merge-queue-policy\n        name: x\n        entry: ./scripts/test-merge-queue-policy.py")
      ≡ true)
    × (has_hook (
          lines
            "        entry: ./scripts/test-merge-queue-policy.py\n      - id: merge-queue-policy")
        ≡ false)
unfolding reads has_hook
hook_runs = (refl, refl)
