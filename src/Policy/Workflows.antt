-- ===== src/Policy/Workflows.antt =====
-- The workflow files of the repository, as the test methods read them: `_workflow_paths()` gives them
-- in the order of their names, and a path that is joined by hand is looked up by its name.
pub mod Carriers
pub mod Queue
pub mod FanIns
pub mod Live
mod Witnesses
use project_charybdis.Base.{
  ℕ, leb, Bool, true, false, not, ◌&&◌, Option, none, some, List, [], ◌∷◌, ◌++◌, map, Text, codes,
  text_eq, Dict, lookup, has_key, length, all, any, Result, ok, raised, if◌then◌else◌,
}
use project_charybdis.Base.Errors.{◌>>=◌, ◌>>◌, check, key_error, file_not_found_error}
use project_charybdis.Policy.Triggers.{Events, triggers_from_text}
use project_charybdis.Policy.Jobs.{
  job_contexts_from_text, job_section_from_text, context_emitters, workflow_display_name,
}
use project_charybdis.Policy.Shell.{texts_eq}
use project_charybdis.Policy.Contract.{texts}
use project_charybdis.Policy.Violations.{
  Violation, dict_eq, has_text, sorted_set, required_graph_violations,
}

-- The names of the files and their texts.
abbrev pub Workflows : Type 0
Workflows = List (Text × Text)

-- `(WORKFLOWS_DIR / name).read_text()`
unfoldable pub read_text : Text → Workflows → Result Text
read_text name ws = elim (lookup name ws) [
  | none ↦ raised file_not_found_error
  | some text ↦ ok text
]

-- `d[k]`
unfoldable pub item {ℓ} : {V : Type ℓ} → Text → Dict V → Result V
item k d = elim (lookup k d) [ none ↦ raised key_error | some v ↦ ok v ]

-- `set(ss) == set(ts)`
unfoldable pub set_eq : List Text → List Text → Bool
set_eq ss ts = all (λ s. has_text s ts) ss && all (λ t. has_text t ss) ts

unfoldable pub triggers_of : Text → Workflows → Result Events
triggers_of name ws = do text ← read_text name ws; triggers_from_text text

unfoldable pub job_section : Text → Text → Workflows → Result Text
job_section name job_id ws = do text ← read_text name ws; job_section_from_text text job_id

unfoldable pub job_names : Text → Result (List Text)
job_names text = do jobs ← job_contexts_from_text text; ok (map (λ j. j.1) jobs)

-- `{"branches": ["main"]}` and `{"types": ["checks_requested"]}`
abbrev pub on_main : Dict (List Text)
on_main = (codes "branches", texts ("main" ∷ [])) ∷ []

abbrev pub when_requested : Dict (List Text)
when_requested = (codes "types", texts ("checks_requested" ∷ [])) ∷ []

-- `self.assertEqual(triggers[event], settings)`
unfoldable pub check_event : Events → Text → Dict (List Text) → Result (Unit {0})
check_event triggers event settings = do
  found ← item event triggers
  check (dict_eq texts_eq found settings)

-- What each workflow that carries a required context is asked for.
unfoldable pub check_carrier : Events → Result (Unit {0})
check_carrier triggers = do
  check_event triggers (codes "push") on_main
  check_event triggers (codes "pull_request") on_main
  check (has_key (codes "merge_group") triggers)
  check_event triggers (codes "merge_group") when_requested

-- `[name for name in names if name in policy_contexts]`
unfoldable pub policy_names : List Text → List Text → List Text
policy_names contexts [] = []
policy_names contexts (name ∷ names) =
    let rest = policy_names contexts names in if has_text name contexts then name ∷ rest else rest

-- One round of the loop: nothing for a workflow without such a name.
abbrev pub carry :
    List Text → Text → Text → Result (List Text × List Text) → Result (List Text × List Text)
carry [] name text others = others
carry (n ∷ names) name text others = do
  triggers ← triggers_from_text text
  check_carrier triggers
  seen ← others
  ok (name ∷ seen.0, (n ∷ names) ++ seen.1)

-- The loop over the workflows: the carriers, and the contexts that they emit.
unfoldable pub carriers_from : List Text → Workflows → Result (List Text × List Text)
carriers_from contexts [] = ok ([], [])
carriers_from contexts ((name, text) ∷ ws) = do
  names ← job_names text
  carry (policy_names contexts names) name text (carriers_from contexts ws)

-- `self.assertEqual(carriers, EXPECTED_REQUIRED_WORKFLOWS)` and the assertions below it.
abbrev pub expected_required_workflows : List Text
expected_required_workflows = texts (
    "_required.yml" ∷ "build-test.yml" ∷ "code-coverage.yml" ∷ "container.yml"
    ∷ "integration-tests.yml" ∷ "static-analysis.yml" ∷ [])

abbrev pub expected_test_emitters : List Text
expected_test_emitters = texts ("build-test.yml:test" ∷ [])

-- `{context: _context_emitters(context) for context in contexts}`
unfoldable pub emitters_by_context : List Text → Workflows → Result (Dict (List Text))
emitters_by_context [] ws = ok []
emitters_by_context (context ∷ contexts) ws = do
  emitters ← context_emitters context ws
  rest ← emitters_by_context contexts ws
  ok ((context, emitters) ∷ rest)

-- `len(emitters) > 1` for no context
unfoldable pub no_duplicates : Dict (List Text) → Bool
no_duplicates d = all (λ e. leb (length e.1) 1) d

-- `test_every_required_context_carrier_runs_on_push_and_pull_request`, for the contexts that the
-- policy requires.
unfoldable pub carriers_test : List Text → Workflows → Result (Unit {0})
carriers_test contexts ws = do
  seen ← carriers_from contexts ws
  check (set_eq seen.0 expected_required_workflows)
  check (set_eq seen.1 contexts)
  emitters ← emitters_by_context (sorted_set contexts) ws
  check (no_duplicates emitters)
  tests ← item (codes "test") emitters
  check (texts_eq tests expected_test_emitters)
