-- ===== src/Mock/Smoke.antt =====
-- scripts/test-mock-agamemnon.py: a client of the stub that checks the answers to a few requests. An
-- answer that comes too late for it is an exception, as one that never comes. `shown` is Python's `str` of a length and `dumps` is `json.dumps`.
pub mod Passes
use project_charybdis.Base.{
  ℕ, zero, suc, ltb, ◌==◌, not, ◌&&◌, Option, none, some, List, [], length, Text, codes,
  contains_text, Result, ok, raised, if◌then◌else◌,
}
use project_charybdis.Base.Errors.{check, os_error, runtime_error}
use project_charybdis.Base.Exec.{Exec, reads, ◌>>=◌, ◌>>◌}
use project_charybdis.Json.{Json, Fields}
use project_charybdis.Mock.State.{Server, Reply}
use project_charybdis.Mock.Request.{Request}
use project_charybdis.Mock.Handler.{Method, get_method, post_method, handle}

-- What `getresponse` returns.
pub record Response : Type 0 where
  pub status : ℕ
  pub text : Text

-- What a client with this timeout in milliseconds gets of an answer: nothing of one that is slower,
-- or of a request that an exception ended.
unfoldable pub received : (Fields → Text) → ℕ → Result Reply → Result Response
received dumps timeout (raised e) = raised os_error
received dumps timeout (ok reply) =
    if ltb reply.delay timeout
    then ok (record { status = reply.status; text = dumps reply.body })
    else raised os_error

abbrev pub get_request : Text → Request
get_request path = record { target = path; content_type = none; content_length = none; stream = [] }

-- The loop of `_wait_ready` behind one answer: a stub that is not ready is asked again.
abbrev pub ready_or : Exec Server (Unit {0}) → Result Response → Exec Server (Unit {0})
ready_or later (ok r) s = if r.status == 200 then (ok tt, s) else later s
ready_or later (raised e) s = later s

abbrev pub json : Text
json = codes "application/json"

-- `assert status == expected`
unfoldable pub expect : ℕ → Exec Server Response → Exec Server (Unit {0})
expect expected call = do response ← call; reads (λ _. check (response.status == expected))

abbrev pub diagnostic : Text
diagnostic = codes "/v1/chaos/test-empty"

abbrev pub latency : Text
latency = codes "/v1/chaos/latency"

module _ (loads : List ℕ → Option Json) (dumps : Fields → Text) (shown : ℕ → Text) where
  -- A request of `http.client.HTTPConnection`, and its response.
  unfoldable pub exchange : ℕ → Method → Request → Exec Server Response
  exchange timeout m req s =
      let (answer, s') = handle loads m req s in (received dumps timeout answer, s')

  abbrev pub post_request : Text → Text → Text → Request
  post_request path body content_type = record {
    target = path;
    content_type = some content_type;
    content_length = some (shown (length body));
    stream = body;
  }

  -- `_post`
  unfoldable pub post : Text → Text → Text → Text → Exec Server Response
  post uuid path body content_type =
      exchange 2000 (post_method uuid) (post_request path body content_type)

  -- `_wait_ready`, with the number of rounds that begin before the deadline.
  unfoldable pub wait_ready : ℕ → Exec Server (Unit {0})
  wait_ready zero s = (raised runtime_error, s)
  wait_ready (suc rounds) s =
      let (answer, s') = exchange 500 get_method (get_request (codes "/v1/health")) s in
      ready_or (wait_ready rounds) answer s'

  -- The check that no fault of the diagnostic type is listed.
  unfoldable pub no_leak : Exec Server (Unit {0})
  no_leak = do
    response ← exchange 2000 get_method (get_request (codes "/v1/chaos"))
    reads (λ _. check (not (contains_text response.text (codes "test-empty"))))

  -- `main`, behind the start of the stub: `uuids` are the identifiers that its POSTs draw.
  unfoldable pub main : (ℕ → Text) → ℕ → Exec Server (Unit {0})
  main uuids rounds = do
    wait_ready rounds
    expect 400 (post (uuids 0) diagnostic [] json)
    expect 400 (post (uuids 1) diagnostic (codes "{\"active\":true}") json)
    expect 400 (post (uuids 2) diagnostic (codes "garbage") (codes "text/plain"))
    no_leak
    expect 201 (post (uuids 3) latency (codes "{\"delay_ms\":10}") json)
    expect 400 (post (uuids 4) latency [] json)
