-- ===== src/Policy/Wiring.antt =====
-- The test methods on the documents, on the justfile and the hooks that run the script, and on the
-- inventory of the workflows by their names.
use project_charybdis.Base.{
  ℕ, ◌==◌, leb, Bool, true, false, not, ◌&&◌, ◌||◌, none, some, List, [], ◌∷◌, map, any, all, Text,
  codes, text_eq, contains_text, split_on, lstrip, is_space, join, Result, if◌then◌else◌,
}
use project_charybdis.Base.Errors.{◌>>=◌, ◌>>◌, check}
use project_charybdis.Policy.Lines.{behind_prefix}
use project_charybdis.Policy.Triggers.{Events}
use project_charybdis.Policy.Violations.{required_graph_violations}
use project_charybdis.Policy.Fixtures.{message}
use project_charybdis.Policy.Workflows.{Workflows, job_section}
use project_charybdis.Policy.Workflows.Queue.{display_names}

-- `test_docs_preserve_build_and_integration_context_semantics`
unfoldable pub docs_test : Text → Result (Unit {0})
docs_test document = do
  check (contains_text document (codes "single authoritative `test` context"))
  check (contains_text document (codes "Build\nand Test workflow"))
  check (contains_text document (codes "`integration-tests`\ncontext"))
  check (contains_text document (codes "does not emit another same-named `test` job"))

-- `test_readiness_doc_keeps_activation_with_odysseus`
unfoldable pub readiness_test : Text → Result (Unit {0})
readiness_test document = do
  check (contains_text document (codes "configs/github/merge-queue-policy.json"))
  check (contains_text document (codes "Odysseus"))
  check (contains_text document (codes "must not mutate"))
  check (contains_text document (codes "independent human"))

abbrev pub script_path : Text
script_path = codes "./scripts/test-merge-queue-policy.py"

abbrev pub starts_with_blank : Text → Bool
starts_with_blank [] = false
starts_with_blank (c ∷ s) = is_space c

-- `\s+<path>\s*$` at the front of these lines: blank lines may come before, and the path stands on a
-- line of its own, behind at least one blank or line feed.
unfoldable pub runs_script : Bool → List Text → Bool
runs_script skipped [] = false
runs_script skipped (l ∷ ls) =
    let rest = runs_script true ls in
    if all is_space l then rest else elim (behind_prefix script_path (lstrip is_space l)) [
      | none ↦ false
      | some behind ↦ all is_space behind && (skipped || starts_with_blank l)
    ]

-- `r"(?ms)^merge-queue-policy:\n\s+\./scripts/test-merge-queue-policy\.py\s*$"`
unfoldable pub has_recipe : List Text → Bool
has_recipe [] = false
has_recipe (l ∷ ls) =
    (text_eq l (codes "merge-queue-policy:") && runs_script false ls) || has_recipe ls

-- `\w`, of the ASCII characters.
unfoldable pub is_word_char : ℕ → Bool
is_word_char c =
    (leb b'A' c && leb c b'Z')
    || (leb b'a' c && leb c b'z')
    || (leb b'0' c && leb c b'9')
    || c == b'_'

abbrev pub ends_word : Text → Bool
ends_word [] = true
ends_word (c ∷ s) = not (is_word_char c)

-- `.*\b<word>\b` on the characters of a line, behind the character `last`.
unfoldable pub has_word_behind : Text → ℕ → Text → Bool
has_word_behind word last [] = false
has_word_behind word last (c ∷ s) =
    (not (is_word_char last)
      && elim (behind_prefix word (c ∷ s)) [ none ↦ false | some behind ↦ ends_word behind ])
    || has_word_behind word c s

-- `r"(?m)^ci:.*\bmerge-queue-policy\b"`
unfoldable pub is_ci_line : Text → Bool
is_ci_line line = elim (behind_prefix (codes "ci:") line) [
  | none ↦ false
  | some behind ↦ has_word_behind (codes "merge-queue-policy") b':' behind
]

-- The last line of the expression below, in its two spellings.
abbrev pub is_entry : Text → Bool
is_entry line =
    text_eq line (codes "        entry: ./scripts/test-merge-queue-policy.py")
    || text_eq line (codes "        entry: /scripts/test-merge-queue-policy.py")

-- `r"(?ms)^      - id: merge-queue-policy\n.*?^        entry: \.?/scripts/test-merge-queue-policy\.py$"`
unfoldable pub has_hook : List Text → Bool
has_hook [] = false
has_hook (l ∷ ls) =
    (text_eq l (codes "      - id: merge-queue-policy") && any is_entry ls) || has_hook ls

-- `test_policy_regression_is_wired_into_authoritative_validation`
unfoldable pub wiring_test : Text → Text → Workflows → Result (Unit {0})
wiring_test justfile precommit ws = do
  required ← job_section (codes "_required.yml") (codes "schema-validation") ws
  check (has_recipe (split_on 10 justfile))
  check (any is_ci_line (split_on 10 justfile))
  check (has_hook (split_on 10 precommit))
  check (contains_text required (codes "python3 scripts/test-merge-queue-policy.py"))

-- Two workflows of the same name, in the order of their files.
abbrev pub duplicate_workflows : Workflows
duplicate_workflows =
    (codes "duplicate.yaml", codes "name: Required Checks\n")
    ∷ (codes "required.yml", codes "name: Required Checks\n")
    ∷ []

-- `test_workflow_inventory_rejects_yaml_duplicate_required_checks`, on the text of the required
-- workflow.
unfoldable pub inventory_test : (Events → Text) → (List Text → Text) → Text → Result (Unit {0})
inventory_test repr_events repr_texts text = do
  violations ← required_graph_violations text (display_names duplicate_workflows)
  check (
      contains_text (join (codes "\n") (map (message repr_events repr_texts) violations))
        (codes "duplicate workflow entry point"))
