-- ===== src/Attest/Release/Wired/Steps.antt =====
-- What the release job may do, and the step of it that pushes the image.
use project_charybdis.Base.{
  IsIn, ◌≡◌, refl, ap, subst, ◌∙◌, inl, inr, true, List, [], ◌∷◌, codes, ok, Bool-cases,
}
use project_charybdis.Base.Errors.{returned, checked, check_iff}
use project_charybdis.Json.{Json, obj, Fields, get, is_text, is_true, as_dict, subscript}
use project_charybdis.Attest.Release
use project_charybdis.Attest.Release.Wired.Settings.{Says, IsOn, is_text-ok, is_true-ok, as_dict-ok}

-- The job may draw a token for the signature and store the attestation.
pub record MaySign (workflow : Json) : Type 0 where
  pub job : Json
  pub permissions : Fields
  pub read_job : Release.container_job workflow ≡ ok job
  pub read_permissions : subscript (codes "permissions") job ≡ ok (obj permissions)
  pub id_token : Says (codes "id-token") (codes "write") permissions
  pub attestations : Says (codes "attestations") (codes "write") permissions

pub permissions_test-MaySign : (w : Json) → Release.permissions_test w ≡ ok tt → MaySign w
unfolding Release.permissions_test
permissions_test-MaySign w h =
    let (job, read, h₁) = returned (Release.container_job w) h in
    let (found, there, h₂) = returned (subscript (codes "permissions") job) h₁ in
    let (perms, is_dict, h₃) = returned (as_dict found) h₂ in
    let (token, h₄) = checked (is_text (codes "write") (get (codes "id-token") perms)) h₃ in
    record {
      job = job;
      permissions = perms;
      read_job = read;
      read_permissions = there ∙ ap ok (as_dict-ok found is_dict);
      id_token = is_text-ok _ _ token;
      attestations = is_text-ok _ _ ((check_iff _).0 h₄);
    }

-- A step of the job that builds an image and pushes it.
pub record Pushes (found : List Fields) (step : Fields) : Type 0 where
  pub settings : Fields
  pub there : IsIn step found
  pub builds : Release.uses_action (codes "docker/build-push-action@") step ≡ true
  pub read_settings : Release.with_block step ≡ ok settings
  pub push : IsOn (codes "push") settings

Pushes-later :
    {step : Fields} (d : Fields) (found : List Fields) → Pushes found step → Pushes (d ∷ found) step
Pushes-later d found p = record {
  settings = p.settings;
  there = inr p.there;
  builds = p.builds;
  read_settings = p.read_settings;
  push = p.push;
}

pushing-Pushes :
    (found : List Fields) {step : Fields} {rest : List Fields}
    → Release.pushing found ≡ ok (step ∷ rest)
    → Pushes found step
unfolding Release.pushing
pushing-Pushes [] h = absurd (cc)
pushing-Pushes (d ∷ found) {step} h =
    elim (Bool-cases (Release.uses_action (codes "docker/build-push-action@") d)) [
      | inr other ↦ Pushes-later d found (pushing-Pushes found (rw other at h))
      | inl builds ↦
          let (settings, read, h₁) = returned (Release.with_block d) (rw builds at h) in
          let (others, later, h₂) = returned (Release.pushing found) h₁ in
          elim (Bool-cases (is_true (get (codes "push") settings))) [
            | inl on ↦
                let same : d ≡ step = cc (rw on at h₂) in
                subst (λ s. Pushes (d ∷ found) s) same
                  (record {
                    settings = settings;
                    there = inl refl;
                    builds = builds;
                    read_settings = read;
                    push = is_true-ok _ on;
                  })
            | inr off ↦ Pushes-later d found (pushing-Pushes found (later ∙ rw off at h₂))
          ]
    ]

-- The digest that the attestations name is that of a step of the job which pushes the image.
pub record PushesAs (workflow : Json) : Type 0 where
  pub found : List Fields
  pub step : Fields
  pub read_steps : Release.steps workflow ≡ ok found
  pub pushes : Pushes found step
  pub id : Says (codes "id") (codes "push") step

first_of-ok :
    (candidates : List Fields) {step : Fields}
    → Release.first_of candidates ≡ ok step
    → (rest : List Fields) × (candidates ≡ step ∷ rest)
unfolding Release.first_of
first_of-ok [] h = absurd (cc)
first_of-ok (d ∷ rest) h = (rest, cc)

pub push_test-PushesAs : (w : Json) → Release.push_test w ≡ ok tt → PushesAs w
unfolding Release.push_test
push_test-PushesAs w h =
    let (found, read, h₁) = returned (Release.steps w) h in
    let (candidates, built, h₂) = returned (Release.pushing found) h₁ in
    let (step, first, h₃) = returned (Release.first_of candidates) h₂ in
    let (rest, e) = first_of-ok candidates first in
    record {
      found = found;
      step = step;
      read_steps = read;
      pushes = pushing-Pushes found (built ∙ ap ok e);
      id = is_text-ok _ _ ((check_iff _).0 h₃);
    }
