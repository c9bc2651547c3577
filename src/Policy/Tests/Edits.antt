-- ===== src/Policy/Tests/Edits.antt =====
-- Runs of the edits of workflows, and the theorem on them at a small one.
use project_charybdis.Base.{
  IsIn, ◌≡◌, refl, inl, inr, List, [], ◌∷◌, Text, codes, Result, ok, raised,
}
use project_charybdis.Policy.Contract.{validator}
use project_charybdis.Policy.Violations.{Violation, declares_needs, required_graph_violations}
use project_charybdis.Policy.Tests.{reads}
use project_charybdis.Policy.Fixtures.{replace_once, occurrences, add_job_setting}
use project_charybdis.Policy.Fixtures.Reported.{
  IsPlace, with_setting_line, needs_line, add_job_setting-Forbidden,
}

replace_runs :
    (replace_once (codes "ab") (codes "c") (codes "aabab") ≡ codes "acab")
    × (replace_once (codes "x") (codes "c") (codes "ab") ≡ codes "ab")
    × (replace_once [] (codes "c") (codes "ab") ≡ codes "cab")
    × (occurrences (codes "aa") 0 (codes "aaaa a") ≡ 2)
unfolding reads replace_once occurrences
replace_runs = (refl, refl, refl, refl)

abbrev front : List Text
front = codes "on:" ∷ codes "concurrency:" ∷ codes "jobs:" ∷ []

abbrev needs : Text
needs = codes "    needs: x"

front-IsPlace : IsPlace front (codes "install") needs
unfolding reads
front-IsPlace = record {
  behind = [];
  lines = (
    (refl, (refl, (refl, tt))),
    (
      (
        refl,
        (refl, (refl, (refl, (refl, (refl, (refl, (refl, (refl, (refl, (refl, (refl, tt))))))))))),
      ),
      ((refl, (refl, (refl, (refl, (refl, tt))))), tt),
    ),
  );
  header = (refl, (refl, (refl, (refl, (refl, (refl, (refl, (refl, (refl, (refl, tt))))))))));
  added = (
    refl,
    (refl, (refl, (refl, (refl, (refl, (refl, (refl, (refl, (refl, (refl, (refl, tt))))))))))),
  );
  no_header = refl;
  apart = (
    (refl, (refl, (refl, refl))),
    (
      (
        refl,
        (
          refl,
          (refl, (refl, (refl, (refl, (refl, (refl, (refl, (refl, (refl, (refl, refl)))))))))),
        ),
      ),
      ((refl, (refl, (refl, (refl, (refl, refl))))), tt),
    ),
  );
  jobs = refl;
}

abbrev edited : Text
edited = with_setting_line front (codes "install") needs (codes "    steps:")

-- The violations that are returned.
abbrev returned_ones : Result (List Violation) → List Violation
returned_ones (ok vs) = vs
returned_ones (raised e) = []

add_job_setting-Forbidden_example :
    IsIn (declares_needs (codes "install")) (returned_ones (required_graph_violations edited []))
unfolding reads replace_once add_job_setting
add_job_setting-Forbidden_example =
    add_job_setting-Forbidden front (codes "install") needs (codes "    steps:")
      (validator "Install to staging prefix"
        ("uv run cmake --install build/release --prefix \"${RUNNER_TEMP}/install-prefix\"" ∷ []))
      [] {jobs = (codes "install", codes "install") ∷ []}
      {vs = returned_ones (required_graph_violations edited [])} front-IsPlace
      (inr (inr (inl refl))) (inr (inr (inl refl))) refl (inl refl) refl (needs_line refl)
