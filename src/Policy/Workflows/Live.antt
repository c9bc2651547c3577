-- ===== src/Policy/Workflows/Live.antt =====
-- The policy file: what it pins, and the check of the carriers of the contexts that it requires.
pub mod Carried
use project_charybdis.Base.{String, List, [], ◌∷◌, Text, codes, ℕ, pos, Result, ok, raised}
use project_charybdis.Base.Errors.{◌>>=◌, ◌>>◌, check, assertion_error}
use project_charybdis.Json.{
  Json, str, int, arr, obj, Items, nil, cons, Fields, field, end, subscript,
}
use project_charybdis.Json.Equal.{json_eq}
use project_charybdis.Policy.Contract.{texts}
use project_charybdis.Policy.Workflows.{Workflows, carriers_test}

-- EXPECTED_CONTEXTS
abbrev pub expected_contexts : List Text
expected_contexts = texts (
    "All Build/Test Checks" ∷ "All Coverage Checks" ∷ "All Static Analysis Checks" ∷ "build"
    ∷ "deps/version-sync" ∷ "install" ∷ "integration-tests" ∷ "lint" ∷ "package" ∷ "release"
    ∷ "schema-validation" ∷ "security/dependency-scan" ∷ "security/secrets-scan" ∷ "test"
    ∷ "typecheck" ∷ "unit-tests" ∷ [])

-- A list of texts as a value.
abbrev pub text_items : List Text → Items
text_items [] = nil
text_items (t ∷ ts) = cons (str t) (text_items ts)

-- A field with an integer, or with a text.
abbrev count : String → ℕ → Fields → Fields
count k n d = field (codes k) (int (pos n)) d

abbrev word : String → String → Fields → Fields
word k s d = field (codes k) (str (codes s)) d

-- EXPECTED_QUEUE_RULE
abbrev pub expected_queue_rule : Json
expected_queue_rule = obj (
    word "type" "merge_queue" (
      field (codes "parameters")
        (obj (
          count "check_response_timeout_minutes" 60 (
            word "grouping_strategy" "ALLGREEN" (
              count "max_entries_to_build" 10 (
                count "max_entries_to_merge" 5 (
                  word "merge_method" "SQUASH" (
                    count "min_entries_to_merge" 1
                      (count "min_entries_to_merge_wait_minutes" 5 end))))))))
        end))

-- `self.assertEqual(policy[key], expected)`
unfoldable pub check_member : Json → String → Json → Result (Unit {0})
check_member policy key expected = do
  found ← subscript (codes key) policy
  check (json_eq found expected)

-- `test_policy_pins_live_required_contexts_and_queue_rule`
unfoldable pub policy_test : Json → Result (Unit {0})
policy_test policy = do
  check_member policy "repository" (str (codes "HomericIntelligence/Charybdis"))
  check_member policy "target_branch" (str (codes "main"))
  check_member policy "required_contexts" (arr (text_items expected_contexts))
  check_member policy "merge_queue_rule" expected_queue_rule

-- The contexts as texts. A value of another type among them equals the name of no job, so that the
-- check of the carriers fails on it.
unfoldable pub texts_of : Items → Result (List Text)
texts_of nil = ok []
texts_of (cons (str t) xs) = do ts ← texts_of xs; ok (t ∷ ts)
texts_of (cons v xs) = raised assertion_error

abbrev pub list_of_texts : Json → Result (List Text)
list_of_texts (arr xs) = texts_of xs
list_of_texts v = raised assertion_error

-- `_policy()["required_contexts"]`, asserted to be a list.
unfoldable pub required_contexts : Json → Result (List Text)
required_contexts policy = do
  found ← subscript (codes "required_contexts") policy
  list_of_texts found

-- The check of the carriers, from the policy file on.
unfoldable pub policy_carriers_test : Json → Workflows → Result (Unit {0})
policy_carriers_test policy ws = do contexts ← required_contexts policy; carriers_test contexts ws
