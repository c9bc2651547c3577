-- ===== src/Policy/Witnesses.antt =====
-- The theorems about the readers at inputs that meet their hypotheses.
use project_charybdis.Base.{
  arith, join, PyError, raised, inl, inr, ◌≡◌, refl, none, List, [], ◌∷◌, Text, codes,
}
use project_charybdis.Policy.Jobs.{read_jobs}
use project_charybdis.Policy.Jobs.Written
use project_charybdis.Policy.Jobs.Written.{
  WrittenJob, IsWrittenJob, named, hollow, setting, remark, empty, written_jobs, called, last_name,
}
use project_charybdis.Policy.Jobs.Read.{read_jobs-written_jobs}
use project_charybdis.Policy.Shell.{commands_from}
use project_charybdis.Policy.Shell.Laws.{
  Command, IsCommand, blank, comment, continued, script, line_of, fragments, commands_from-script,
}
use project_charybdis.Policy.Violations.{required_graph_violations}
use project_charybdis.Policy.Accepted.Headers.{required_graph_violations-missing_header}
use project_charybdis.Policy.Triggers.Items.{Item}
use project_charybdis.Policy.Tests.{reads}

-- Two jobs, the first with two names and the second with an empty one.
abbrev lint : WrittenJob
lint = record {
  id = codes "lint";
  padding = [];
  body =
      named (codes " ") [] (record { inside = codes "ol"; final = b'd' }) []
      ∷ setting (codes "runs-on: ubuntu")
      ∷ named (codes " ") (39 ∷ []) (record { inside = codes "Lin"; final = b't' }) (codes " ")
      ∷ [];
}

abbrev test : WrittenJob
test = record {
  id = codes "test";
  padding = codes " ";
  body = hollow (codes " ") b'"' [] ∷ remark (codes " steps") ∷ empty ∷ [];
}

lint-IsWrittenJob : IsWrittenJob lint
unfolding reads
lint-IsWrittenJob = record {
  identified = λ e. cc;
  plain = ground arith;
  padded = tt;
  lines = (
    ((refl, tt), inl refl, record { begins = (refl, refl); ends = (refl, refl) }, tt),
    (
      refl,
      (
        (
          (refl, tt),
          inr (inr refl),
          record { begins = (refl, refl); ends = (refl, refl) },
          (refl, tt),
        ),
        tt,
      ),
    ),
  );
}

test-IsWrittenJob : IsWrittenJob test
unfolding reads
test-IsWrittenJob = record {
  identified = λ e. cc;
  plain = ground arith;
  padded = (refl, tt);
  lines = (((refl, tt), inr (inl refl), tt), (tt, (tt, tt)));
}

read_jobs-written_jobs_example :
    read_jobs none none (
      codes "  lint:"
      ∷ codes "    name: old"
      ∷ codes "    runs-on: ubuntu"
      ∷ codes "    name: 'Lint' "
      ∷ codes "  test: "
      ∷ codes "    name: \"\""
      ∷ codes "  # steps"
      ∷ []
      ∷ [])
    ≡ (codes "lint", codes "Lint") ∷ (codes "test", codes "test") ∷ []
unfolding written_jobs Written.line_of called last_name
read_jobs-written_jobs_example =
    read_jobs-written_jobs (lint ∷ test ∷ []) (lint-IsWrittenJob, (test-IsWrittenJob, tt))

abbrev bash : Command
bash = record {
  parts =
      comment [] (codes " comment")
      ∷ continued [] (record { inside = codes "bas"; final = b'h' }) (codes " ") []
      ∷ blank []
      ∷ [];
  before = codes "  ";
  last = record { inside = codes "chec"; final = b'k' };
  after = [];
}

abbrev make : Command
make = record {
  parts = [];
  before = [];
  last = record { inside = codes "mak"; final = b'e' };
  after = codes " ";
}

bash-IsCommand : IsCommand bash
unfolding reads
bash-IsCommand = record {
  spelled = (
    tt,
    ((tt, record { opens = (refl, λ e. omega arith); closes = refl }, (refl, tt), tt), (tt, tt)),
  );
  indent = (refl, (refl, tt));
  ends = record { opens = (refl, λ e. omega arith); closes = refl };
  complete = λ e. omega arith;
  padded = tt;
}

make-IsCommand : IsCommand make
unfolding reads
make-IsCommand = record {
  spelled = tt;
  indent = tt;
  ends = record { opens = (refl, λ e. omega arith); closes = refl };
  complete = λ e. omega arith;
  padded = (refl, tt);
}

commands_from-script_example :
    commands_from []
      (codes "# comment" ∷ codes "bash \\" ∷ [] ∷ codes "  check" ∷ codes "make " ∷ codes "#" ∷ [])
    ≡ codes "bash check" ∷ codes "make" ∷ []
unfolding script line_of fragments join
commands_from-script_example =
    commands_from-script (bash ∷ make ∷ []) (comment [] [] ∷ [])
      (bash-IsCommand, (make-IsCommand, tt)) (tt, tt)

abbrev two_steps : List Text
two_steps = codes "    steps:" ∷ codes "      - a" ∷ codes "        b" ∷ codes "      - c" ∷ []

abbrev two_items : List Item
two_items =
    record { quote = []; first = b'a'; rest = [] }
    ∷ record { quote = 39 ∷ []; first = b'b'; rest = [] }
    ∷ []

-- A blank behind the header.
abbrev blank_header : Text
blank_header = codes "on:\n  push:\nconcurrency:\n  group: x\njobs:\n  install: \n    steps:"

required_graph_violations-missing_header_example :
    (e : PyError) × (required_graph_violations blank_header [] ≡ raised e)
unfolding reads
required_graph_violations-missing_header_example =
    required_graph_violations-missing_header blank_header (codes "install") []
      {lines = codes "  install: " ∷ codes "    steps:" ∷ []}
      {jobs = (codes "install", codes "install") ∷ []} (inr (inr (inl refl))) refl (inl refl) refl
      refl
