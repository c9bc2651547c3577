-- ===== src/Attest/Release/Wired.antt =====
-- What it means that the script exits with 0.
pub mod Settings
pub mod Steps
use project_charybdis.Base.{
  ℕ, IsIn, ◌≡◌, refl, ap, subst, ◌∙◌, ◌⊎◌, inl, inr, Bool, true, false, ◌&&◌, &&_iff, Option, none,
  some, List, [], ◌∷◌, ◌++◌, Text, codes, starts_with, ends_with, text_eq_iff, All, Result, ok,
  raised, Bool-cases, if◌then◌else◌, all,
}
use project_charybdis.Base.Errors.{◌>>=◌, ◌>>◌, check, returned, checked, check_iff}
use project_charybdis.Json.{
  Json, null, bool, int, float, str, arr, obj, Fields, get, is_text, is_true, as_dict, subscript,
}
use project_charybdis.Json.Equal.{found_json_eq, found_json_eq-str}
use project_charybdis.Policy.Lines.{splitlines, trim}
use project_charybdis.Attest.Pins.{uses_match, unpinned}
use project_charybdis.Attest.Pins.Laws.{IsSafe, unpinned_iff}
use project_charybdis.Attest.Release
use project_charybdis.Attest.Release.Wired.Settings.{
  Says, IsOn, is_text-ok, is_true-ok, as_dict-ok, text_value-ok, passed-ok, no_lines-ok, exit_0,
}
use project_charybdis.Attest.Release.Wired.Steps.{
  MaySign, PushesAs, permissions_test-MaySign, push_test-PushesAs,
}

-- The step that attests the provenance names the image and the digest that was pushed.
pub record AttestsDigest (prefix : Text) (workflow : Json) : Type 0 where
  pub settings : Fields
  pub read_settings : Release.settings_of prefix workflow ≡ ok settings
  pub names : Says (codes "subject-name") Release.subject_name settings
  pub digest : Says (codes "subject-digest") Release.digest_expr settings
  pub to_registry : IsOn (codes "push-to-registry") settings

provenance_test-AttestsDigest :
    (w : Json)
    → Release.provenance_test w ≡ ok tt
    → AttestsDigest (codes "actions/attest-build-provenance@") w
unfolding Release.provenance_test
provenance_test-AttestsDigest w h =
    let (settings, read, h₁) =
      returned (Release.settings_of (codes "actions/attest-build-provenance@") w) h in
    let (names, h₂) =
      checked (is_text Release.subject_name (get (codes "subject-name") settings)) h₁ in
    let (digest, h₃) =
      checked (is_text Release.digest_expr (get (codes "subject-digest") settings)) h₂ in
    record {
      settings = settings;
      read_settings = read;
      names = is_text-ok _ _ names;
      digest = is_text-ok _ _ digest;
      to_registry = is_true-ok _ ((check_iff _).0 h₃);
    }

-- The bill of materials is written to a file, and its attestation reads this file.
pub record BindsFile (workflow : Json) : Type 0 where
  pub sbom : Fields
  pub attest : Fields
  pub file : Text
  pub read_sbom : Release.settings_of (codes "anchore/sbom-action@") workflow ≡ ok sbom
  pub read_attest : Release.settings_of (codes "actions/attest-sbom@") workflow ≡ ok attest
  pub format : Says (codes "format") (codes "spdx-json") sbom
  pub written : Says (codes "output-file") file sbom
  pub suffix : ends_with file (codes ".spdx.json") ≡ true
  pub read : Says (codes "sbom-file-path") file attest

-- The two tests of the bill of materials together: its attestation names the digest, and reads the
-- file that was written.
sbom_tests-BindsFile :
    (w : Json)
    → Release.sbom_test w ≡ ok tt
    → Release.sbom_attestation_test w ≡ ok tt
    → BindsFile w × AttestsDigest (codes "actions/attest-sbom@") w
unfolding Release.sbom_test Release.sbom_attestation_test
sbom_tests-BindsFile w h k =
    let (sbom, read_sbom, h₁) = returned (Release.settings_of (codes "anchore/sbom-action@") w) h in
    let (format, h₂) = checked (is_text (codes "spdx-json") (get (codes "format") sbom)) h₁ in
    let (file, written, h₃) = returned (Release.text_value (get (codes "output-file") sbom)) h₂ in
    let (attest, read_attest, k₁) =
      returned (Release.settings_of (codes "actions/attest-sbom@") w) k in
    let (sbom', again, k₂) = returned (Release.settings_of (codes "anchore/sbom-action@") w) k₁ in
    let (names, k₃) =
      checked (is_text Release.subject_name (get (codes "subject-name") attest)) k₂ in
    let (digest, k₄) =
      checked (is_text Release.digest_expr (get (codes "subject-digest") attest)) k₃ in
    let (same_file, k₅) =
      checked
        (found_json_eq (get (codes "sbom-file-path") attest) (get (codes "output-file") sbom'))
        k₄ in
    let same_sbom : sbom' ≡ sbom = cc (read_sbom, again) in
    let wrote = text_value-ok (get (codes "output-file") sbom) written in
    let reads_it =
      subst (λ v. found_json_eq (get (codes "sbom-file-path") attest) v ≡ true)
        (ap (get (codes "output-file")) same_sbom ∙ wrote) same_file in
    (
      record {
        sbom = sbom;
        attest = attest;
        file = file;
        read_sbom = read_sbom;
        read_attest = read_attest;
        format = is_text-ok _ _ format;
        written = wrote;
        suffix = (check_iff _).0 h₃;
        read = found_json_eq-str _ file reads_it;
      },
      record {
        settings = attest;
        read_settings = read_attest;
        names = is_text-ok _ _ names;
        digest = is_text-ok _ _ digest;
        to_registry = is_true-ok _ ((check_iff _).0 k₅);
      },
    )

pub record IsAttested (text : Text) (workflow : Json) : Type 0 where
  pub may_sign : MaySign workflow
  pub pushes : PushesAs workflow
  pub provenance : AttestsDigest (codes "actions/attest-build-provenance@") workflow
  pub bill : BindsFile workflow
  pub bill_attested : AttestsDigest (codes "actions/attest-sbom@") workflow
  pub pinned : All (λ line. IsSafe (uses_match (trim line))) (splitlines text)

-- The script exits with 0 only where the release job may sign, pushes its image under the identifier
-- "push", attests the provenance and the bill of materials of the digest of that push, each pushed to
-- the registry, with the bill read from the very file that it was written to; and each line of the
-- workflow that reads `uses:` with an action behind it, where blanks and one dash with a blank may
-- stand in front, names a local action, below `./`, or one that is pinned to a full commit hash and
-- has a comment that begins with "v".
pub main-IsAttested :
    (text : Text) (workflow : Json) → Release.main text workflow ≡ 0 → IsAttested text workflow
unfolding Release.main Release.results
main-IsAttested text w h =
    let (permitted, (pushed, (proved, (billed, (bill_proved, (pins, _)))))) =
      exit_0 (Release.results text w) h in
    let (bill, bill_attested) = sbom_tests-BindsFile w billed bill_proved in
    record {
      may_sign = permissions_test-MaySign w permitted;
      pushes = push_test-PushesAs w pushed;
      provenance = provenance_test-AttestsDigest w proved;
      bill = bill;
      bill_attested = bill_attested;
      pinned =
          (unpinned_iff text).0
            (no_lines-ok _ ((check_iff (Release.no_lines (unpinned text))).0 pins));
    }
