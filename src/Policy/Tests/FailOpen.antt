-- ===== src/Policy/Tests/FailOpen.antt =====
-- Fixtures of the fail-open topologies, run on the workflow of the repository.
use project_charybdis.Base.{ℕ, drop, ◌≡◌, refl, false, [], ◌∷◌, List, Result, ok, raised}
use project_charybdis.Base.Errors.{◌>>=◌, assertion_error}
use project_charybdis.Policy.Fixtures.{
  Fixture, replace_once, occurrences, remove_job, add_job_setting, replace_job, message,
  check_fixture,
}
use project_charybdis.Policy.Fixtures.Cases.{check_parts, fixtures}
use project_charybdis.Policy.Tests.{reads}
use project_charybdis.Policy.Tests.RequiredYml.{required_yml}

parts_run : check_parts required_yml false ≡ ok tt
unfolding reads required_yml replace_once occurrences check_parts
parts_run = refl

abbrev run_one : List Fixture → Result (Unit {0})
run_one [] = raised assertion_error
run_one (f ∷ fs) = check_fixture (λ e. []) (λ ts. []) f

abbrev run_case : ℕ → Result (Unit {0})
run_case n = do cases ← fixtures required_yml; run_one (drop n cases)

-- missing validator
run_0 : run_case 0 ≡ ok tt
unfolding reads required_yml replace_once remove_job add_job_setting replace_job message
    check_fixture fixtures
run_0 = refl

-- hollow expected validator
run_2 : run_case 2 ≡ ok tt
unfolding reads required_yml replace_once remove_job add_job_setting replace_job message
    check_fixture fixtures
run_2 = refl

-- event-gated setup step with condition first
run_6 : run_case 6 ≡ ok tt
unfolding reads required_yml replace_once remove_job add_job_setting replace_job message
    check_fixture fixtures
run_6 = refl

-- commented validator command
run_8 : run_case 8 ≡ ok tt
unfolding reads required_yml replace_once remove_job add_job_setting replace_job message
    check_fixture fixtures
run_8 = refl

-- default Gitleaks command moved into configured branch
run_11 : run_case 11 ≡ ok tt
unfolding reads required_yml replace_once remove_job add_job_setting replace_job message
    check_fixture fixtures
run_11 = refl

-- cancelled dependency pass-through
run_15 : run_case 15 ≡ ok tt
unfolding reads required_yml replace_once remove_job add_job_setting replace_job message
    check_fixture fixtures
run_15 = refl
