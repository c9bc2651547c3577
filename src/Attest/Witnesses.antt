-- ===== src/Attest/Witnesses.antt =====
-- Runs of the check of the pins, and its theorems at concrete lines.
use project_charybdis.Base.{
  true, String, Text, ends_with, text_eq, ◌≡◌, refl, ◌↔◌, [], ◌∷◌, ◌++◌, codes, starts_with,
  is_space, is_digit, lstrip, rstrip, strip, All,
}
use project_charybdis.Policy.Lines.{splitlines, split_lines, is_break, behind_prefix, trim}
use project_charybdis.Json.{
  Json, bool, str, arr, obj, nil, cons, Fields, field, end, get, is_text, as_dict, subscript,
  has_member, has_field,
}
use project_charybdis.Json.Equal.{json_eq, found_json_eq}
use project_charybdis.Attest.Release
use project_charybdis.Attest.Release.Wired.{IsAttested, main-IsAttested}
use project_charybdis.Attest.Pins.{
  is_hex, is_hash, behind_at, solid_run, uses_match, is_pinned, unpinned_from, unpinned,
}
use project_charybdis.Attest.Pins.Laws.{IsSafe, unpinned_iff}

scans : Unit {0}
unfolding starts_with is_space is_digit lstrip rstrip strip splitlines split_lines is_break
    behind_prefix trim is_hex is_hash behind_at solid_run uses_match is_pinned unpinned_from
    unpinned
scans = tt

abbrev sample : Text
sample =
    codes "steps:\n  - uses: actions/checkout@3d3c42e5aac5ba805825da76410c181273ba90b1 # v6\n"
    ++ codes "    uses: ./.github/actions/conan-install\n  - uses: actions/cache@v4 # v4\n"

unpinned_runs : unpinned sample ≡ (4, codes "- uses: actions/cache@v4 # v4") ∷ []
unfolding scans
unpinned_runs = refl

unpinned_iff_example :
    (unpinned sample ≡ []) ↔ All (λ line. IsSafe (uses_match (trim line))) (splitlines sample)
unpinned_iff_example = unpinned_iff sample

-- A release workflow with the five steps that the tests look for.
abbrev step_with : String → Fields → Json
step_with action settings =
    obj (field (codes "uses") (str (codes action)) (field (codes "with") (obj settings) end))

abbrev attests : Text → Fields → Fields
attests digest rest = field (codes "subject-name") (str Release.subject_name) (
    field (codes "subject-digest") (str digest) (field (codes "push-to-registry") (bool true) rest))

abbrev push_step : Json
push_step = obj (
    field (codes "id") (str (codes "push")) (
      field (codes "uses") (str (codes "docker/build-push-action@1"))
        (field (codes "with") (obj (field (codes "push") (bool true) end)) end)))

abbrev bill_file : Json
bill_file = str (codes "image.spdx.json")

abbrev release_steps : Json
release_steps = arr (
    cons (str (codes "no step")) (
      cons push_step (
        cons
          (step_with "anchore/sbom-action@1" (
            field (codes "format") (str (codes "spdx-json"))
              (field (codes "output-file") bill_file end)))
          (cons (step_with "actions/attest-build-provenance@1" (attests Release.digest_expr end)) (
            cons
              (step_with "actions/attest-sbom@1"
                (attests Release.digest_expr (field (codes "sbom-file-path") bill_file end)))
              nil)))))

abbrev release_job : Json
release_job = obj (
    field (codes "permissions")
      (obj (
        field (codes "id-token") (str (codes "write"))
          (field (codes "attestations") (str (codes "write")) end)))
      (field (codes "steps") release_steps end))

abbrev release : Json
release = obj (field (codes "jobs") (obj (field Release.container_job_id release_job end)) end)

abbrev release_text : Text
release_text = codes "jobs:\n  uses: ./.github/actions/conan-install"

main-IsAttested_example : IsAttested release_text release
unfolding scans get has_field is_text as_dict subscript has_member json_eq found_json_eq ends_with
    text_eq Release.container_job Release.nonempty_list Release.steps Release.uses_action
    Release.first_step Release.find_step Release.with_block Release.permissions_test Release.pushing
    Release.first_of Release.push_test Release.settings_of Release.provenance_test
    Release.text_value Release.sbom_test Release.sbom_attestation_test Release.results Release.main
main-IsAttested_example = main-IsAttested release_text release refl
