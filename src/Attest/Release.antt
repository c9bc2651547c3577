-- ===== src/Attest/Release.antt =====
-- The checks on the release workflow as `yaml.safe_load` returns it: the job that builds the image,
-- its steps, and how the attestations are wired to the image that is pushed.
pub mod Wired
use project_charybdis.Base.{
  ℕ, Bool, true, false, ◌&&◌, Option, none, some, List, [], ◌∷◌, Text, codes, starts_with,
  ends_with, all, Result, ok, raised, if◌then◌else◌,
}
use project_charybdis.Base.Errors.{◌>>=◌, ◌>>◌, check, assertion_error}
use project_charybdis.Json.{
  Json, bool, str, arr, obj, Items, nil, cons, Fields, get, get_or, is_text, is_true, as_dict,
  subscript, has_member,
}
use project_charybdis.Json.Equal.{found_json_eq}
use project_charybdis.Attest.Pins.{unpinned}

-- CONTAINER_JOB_ID, SUBJECT_NAME and DIGEST_EXPR
abbrev pub container_job_id : Text
container_job_id = codes "build-container"

abbrev pub subject_name : Text
subject_name = codes "ghcr.io/${{ github.repository }}"

abbrev pub digest_expr : Text
digest_expr = codes "${{ steps.push.outputs.digest }}"

unfoldable pub container_job : Json → Result Json
container_job workflow = do
  jobs ← subscript (codes "jobs") workflow
  there ← has_member container_job_id jobs
  check there
  subscript container_job_id jobs

-- `[step for step in steps if isinstance(step, dict)]`
abbrev pub dicts : Items → List Fields
dicts nil = []
dicts (cons (obj d) xs) = d ∷ dicts xs
dicts (cons _ xs) = dicts xs

-- A list that is not empty.
unfoldable pub nonempty_list : Json → Result Items
nonempty_list (arr (cons v xs)) = ok (cons v xs)
nonempty_list _ = raised assertion_error

unfoldable pub steps : Json → Result (List Fields)
steps workflow = do
  job ← container_job workflow
  found ← subscript (codes "steps") job
  items ← nonempty_list found
  ok (dicts items)

-- `isinstance(uses, str) and uses.startswith(prefix)`, for a step that may have no `uses`.
unfoldable pub uses_action : Text → Fields → Bool
uses_action prefix step = elim (get (codes "uses") step) [
  | some (str uses) ↦ starts_with uses prefix
  | _ ↦ false
]

unfoldable pub first_step : Text → List Fields → Result Fields
first_step prefix [] = raised assertion_error
first_step prefix (step ∷ rest) =
    if uses_action prefix step then ok step else first_step prefix rest

unfoldable pub find_step : Text → Json → Result Fields
find_step prefix workflow = do found ← steps workflow; first_step prefix found

-- `_with`
unfoldable pub with_block : Fields → Result Fields
with_block step = elim (get (codes "with") step) [
  | some (obj d) ↦ ok d
  | _ ↦ raised assertion_error
]

-- `test_container_job_has_id_token_and_attestations_write`
unfoldable pub permissions_test : Json → Result (Unit {0})
permissions_test workflow = do
  job ← container_job workflow
  found ← subscript (codes "permissions") job
  perms ← as_dict found
  check (is_text (codes "write") (get (codes "id-token") perms))
  check (is_text (codes "write") (get (codes "attestations") perms))

-- The steps that build an image and push it.
unfoldable pub pushing : List Fields → Result (List Fields)
pushing [] = ok []
pushing (step ∷ rest) =
    if uses_action (codes "docker/build-push-action@") step
    then (do
      settings ← with_block step
      others ← pushing rest
      ok (if is_true (get (codes "push") settings) then step ∷ others else others))
    else pushing rest

unfoldable pub first_of : List Fields → Result Fields
first_of [] = raised assertion_error
first_of (step ∷ rest) = ok step

-- `test_multi_arch_push_step_is_id_push_with_push_true`
unfoldable pub push_test : Json → Result (Unit {0})
push_test workflow = do
  found ← steps workflow
  candidates ← pushing found
  step ← first_of candidates
  check (is_text (codes "push") (get (codes "id") step))

-- The settings of the first step that uses this action.
unfoldable pub settings_of : Text → Json → Result Fields
settings_of prefix workflow = do step ← find_step prefix workflow; with_block step

-- `test_build_provenance_attests_pushed_digest`
unfoldable pub provenance_test : Json → Result (Unit {0})
provenance_test workflow = do
  settings ← settings_of (codes "actions/attest-build-provenance@") workflow
  check (is_text subject_name (get (codes "subject-name") settings))
  check (is_text digest_expr (get (codes "subject-digest") settings))
  check (is_true (get (codes "push-to-registry") settings))

unfoldable pub text_value : Option Json → Result Text
text_value (some (str s)) = ok s
text_value _ = raised assertion_error

-- `test_sbom_step_generates_spdx_json_file`
unfoldable pub sbom_test : Json → Result (Unit {0})
sbom_test workflow = do
  settings ← settings_of (codes "anchore/sbom-action@") workflow
  check (is_text (codes "spdx-json") (get (codes "format") settings))
  output_file ← text_value (get (codes "output-file") settings)
  check (ends_with output_file (codes ".spdx.json"))

-- `test_sbom_attestation_binds_same_digest_and_sbom_file`
unfoldable pub sbom_attestation_test : Json → Result (Unit {0})
sbom_attestation_test workflow = do
  attest ← settings_of (codes "actions/attest-sbom@") workflow
  sbom ← settings_of (codes "anchore/sbom-action@") workflow
  check (is_text subject_name (get (codes "subject-name") attest))
  check (is_text digest_expr (get (codes "subject-digest") attest))
  check (found_json_eq (get (codes "sbom-file-path") attest) (get (codes "output-file") sbom))
  check (is_true (get (codes "push-to-registry") attest))

abbrev pub no_lines : List (ℕ × Text) → Bool
no_lines [] = true
no_lines (l ∷ ls) = false

abbrev pub passed : Result (Unit {0}) → Bool
passed (ok u) = true
passed (raised e) = false

-- What the test methods come to, for the text of the release workflow and its value.
unfoldable pub results : Text → Json → List (Result (Unit {0}))
results text workflow =
    permissions_test workflow
    ∷ push_test workflow
    ∷ provenance_test workflow
    ∷ sbom_test workflow
    ∷ sbom_attestation_test workflow
    ∷ check (no_lines (unpinned text))
    ∷ []

-- `main`: the tests run one by one, each whatever came of the others; the exit code is 0 where all
-- of them pass.
unfoldable pub main : Text → Json → ℕ
main text workflow = if all passed (results text workflow) then 0 else 1
