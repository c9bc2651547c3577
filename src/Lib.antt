-- ===== src/Lib.antt =====
-- A model of four Python programs of the repository and of its C++ client, with the theorems that make
-- them correct: the Agamemnon stub that the integration tests talk to, the smoke test of this stub,
-- the policy check of the merge queue, the tests of how the release workflow attests the image that
-- it pushes, and the HTTP client by which the chaos tests inject faults.
--
-- The stub, scripts/mock-agamemnon.py, is a module of its own, Mock:
--   Mock/State      the four stores `_faults`, `_teams`, `_agents`, `_tasks` as the record `Server`,
--                   with what a request is answered
--   Mock/Request    the target's path (`urlparse(self.path).path.rstrip("/")`), `_is_json` and
--                   `_parse_body`
--   Mock/Faults     `_active_latency_ms`, `_kill_active`, `_queue_starve_active` and the sleep
--   Mock/Send       `_send`; a reply carries the milliseconds that it was delayed by
--   Mock/Handler    `do_GET`, `do_POST`, `do_DELETE`, each a function from the stores to an answer
--                   or an exception and the stores behind it; `serve` runs requests in turn
--   Mock/Port       `_resolve_requested_port`
--   Mock/Smoke      the smoke test scripts/test-mock-agamemnon.py: a client that asks the stub
-- and, on top of them:
--   Mock/Changes    the abstract stub, a step relation on the stores
--   Mock/Changes/Refines, Mock/Invariant, Mock/Answers, Mock/Injection, Mock/Tasks, Mock/Records,
--   Mock/Latency, Mock/Routes, Mock/Recovery, Mock/Sizes     the theorems
-- Every effect of a request stands in its order: what was stored before an exception stays stored.
-- A request takes the stores as they are between two requests; the server is single-threaded
-- (`HTTPServer`), so there are no other interleavings.
--
-- The policy check, scripts/test-merge-queue-policy.py, is the module Policy:
--   Policy/Lines       `splitlines` and the small readers that the regular expressions spell
--   Policy/Triggers    `_inline_list`, `_triggers_from_text`
--   Policy/Jobs        `_job_contexts_from_text`, `_job_section_from_text`, `_top_level_block`,
--                      `_workflow_display_name`, `_context_emitters`
--   Policy/Steps       `_job_step_sections`, `_step_field`, `_step_name`, `_step_identity`,
--                      `_step_condition`, `_step_run_command`
--   Policy/Shell       `_logical_shell_commands`, `_has_all_executable_shell_commands`,
--                      `_has_bound_gitleaks_branches`
--   Policy/Contract    the constants `EXPECTED_REQUIRED_…` and `ALLOWED_REQUIRED_STEP_CONDITIONS`
--   Policy/Violations  `_required_graph_violations`, with a constructor for each message
--   Policy/Accepted    the contract as a specification, said without the checks, and the theorems
--                      that relate the two
--   Policy/Workflows   the test methods on the workflow files: the carriers of the required contexts.
--                      Policy/Workflows/Queue has those on the merge queue, Policy/Workflows/FanIns
--                      those on the jobs that gather results and on permissions
--                      Policy/Workflows/Live has the test of the policy file
--   Policy/Fixtures    `_remove_job`, `_add_job_setting`, `_replace_job`, and the fixtures of the
--                      fail-open topologies
--   Policy/Wiring      the test methods on the documents, the justfile, the hooks and the inventory of
--                      the workflows
-- The workflow files are a list of names and texts, in the order of `_workflow_paths()`. A test method
-- returns or ends in an exception, an assertion that fails among them.
-- Each regular expression is a function by clauses on the characters that it reads, with the
-- expression in a comment above it. Policy/Tests runs the model on the text of
-- .github/workflows/_required.yml, and some of the fixtures on it.
--
-- The tests of the release workflow, scripts/test-container-attestation.py, are the module Attest:
--   Attest/Pins      `test_every_release_workflow_action_ref_is_sha_pinned`, on the lines of the file
--   Attest/Release   `_container_job`, `_steps`, `_find_step`, `_with`, the tests on the structure of
--                    the job that builds the image, and `main`
-- each with its theorems below it. They share Policy/Lines and Json with the programs above.
--
-- The client, src/http_test_client.cpp with the headers of include/charybdis, is the module Client:
--   Client/Breaker    `CircuitBreaker`: `allow_call`, `record_success`, `record_failure`. Machine
--                     has the three states as a step relation
--   Client/Retry      `parse_body`, `run_with_retry`; Trips and Health relate it to the breaker
--   Client/Subject    subject_filter.hpp, `queue_starve_subject`, `enforce_queue_starve_subject`
--   Client/Calls      `get`, `post`, `del`, `post_raw`, `is_healthy`, and a run of calls.
--                     Filtered and Gate have what the filter lets pass; Bypass sends a request of the
--                     client to the stub of Mock
--   Client/Stub       the client connected to the stub of Mock: each attempt of a request is a request
--                     to the stub
--   Client/Url        the constructor, which reads host and port of the base URL
--   Client/Audit      chaos_audit.hpp: the records of `ChaosAuditLog` and where they go
--   Client/SafeChaos  `safe_inject_queue_starve` of safe_chaos.hpp
--   Client/Helpers    test_helpers.hpp
-- What the server, the clock and the random generator do in each attempt is an argument; what the
-- client sends and sleeps is listed in its order. A client is used by one thread, as its header asks.
--
-- Base holds what they share: texts as lists of code points with Python's methods on them, an
-- insertion-ordered `dict` as an association list, integers, exceptions and the state monad.
-- Json holds the values that `json.loads` and `yaml.safe_load` return, with the methods of `dict`,
-- truth values and `int(…)`; Json/Equal is Python's `==` on them.
--
-- Parameters. `loads` is Python's `json.loads` with a refused text as `none`; only the theorem on the
-- smoke test restricts it, at one body. A text at which it exhausts the stack, or the digits that an
-- integer may have, is left aside. The identifier that `uuid.uuid4()` returns comes with each POST.
-- The value of the release workflow (`yaml.safe_load`) and that of the policy file (`json.loads`) are
-- parameters whose keys are texts, and Python's `repr` is one in the messages of violations. A target
-- is in origin form, `int(…)` of a text reads ASCII digits, and `\b` looks at ASCII characters.
-- `time.sleep` raises `OverflowError` above 9223372036854 milliseconds. `json.dumps` and the decimal
-- text of a length are parameters of the smoke test, whose client gives up on an answer after two
-- seconds; its loop that waits for the stub runs as many rounds as begin before its deadline, a
-- parameter, of which one is enough. `wait_until` of the client runs on fuel, for which two rounds for
-- each second of the timeout and one more are enough, and `std::to_string` writes up to twenty digits,
-- enough for 64 bits. The attempts of a request are counted down from `max(1, max_retries + 1)`, where
-- `max_retries` is below the largest `int`. Every other loop is structural recursion on the text, the
-- lines or the stores that it goes through. The client's parameters are the environment, the default
-- prefix that the build writes into version.hpp, `double` with its operations, which answers `httplib`
-- brings to the client in time, `nlohmann::json` parse (a refused text is `none`) and dump (it throws
-- on a text that is not UTF-8), the time stamps of the log, and whether a file can be opened. The keys
-- of an object are distinct. The counters of the breaker are natural numbers, and its thresholds bound
-- them.
--
-- Not modelled: the sockets, the headers that are sent and the log line; the port that the system
-- assigns; the reading of files, which the policy script and the attestation script take as texts; the
-- start of the stub in a thread; httplib; the messages of C++ exceptions, the text of a time stamp and
-- the warnings of the audit log. The entry point src/main.cpp, the C++ test programs (test) and
-- conanfile.py, a list of dependencies, have no module here.
mod Base
pub mod Json
pub mod Mock
pub mod Policy
pub mod Attest
pub mod Client
