-- ===== src/Mock/Smoke/Passes.antt =====
-- The stub passes its smoke test.
use project_charybdis.Base.{
  ◌≡◌, refl, ℕ, suc, true, Option, some, List, [], ◌∷◌, length, take, Text, codes, pos, ok,
}
use project_charybdis.Json.{Json, int, bool, str, arr, nil, obj, Fields, field, end, int_of_text}
use project_charybdis.Mock.State.{Server, fresh_server}
use project_charybdis.Mock.Request.{parse_body, declared_length, read_body, decoded}
use project_charybdis.Mock.Handler.{handle}
use project_charybdis.Mock.Answers.{do_post-test_empty}
use project_charybdis.Mock.Tests.{runs}
use project_charybdis.Mock.Smoke

-- `int` reads back what `str` shows of this number.
abbrev pub IsShown : (ℕ → Text) → ℕ → Type 0
IsShown shown n = int_of_text (shown n) ≡ ok (pos n)

-- The fault of ten milliseconds that the test leaves behind.
abbrev pub slow_fault : Text → Fields
slow_fault uuid = field (codes "id") (str uuid) (
    field (codes "type") (str (codes "latency"))
      (field (codes "active") (bool true) (field (codes "delay_ms") (int (pos 10)) end)))

abbrev pub slowed : Text → Server
slowed uuid = record fresh_server { faults = (uuid, slow_fault uuid) ∷ [] }

abbrev pub ten_ms : Fields
ten_ms = field (codes "delay_ms") (int (pos 10)) end

module _ (loads : List ℕ → Option Json) (dumps : Fields → Text) (shown : ℕ → Text) where
  parse_body-post :
      (path body ct : Text)
      → IsShown shown (length body)
      → parse_body loads (Smoke.post_request loads dumps shown path body ct)
        ≡ ok (decoded loads (take (length body) body))
  unfolding parse_body declared_length read_body
  parse_body-post path body ct decimal = rw decimal refl

  ready :
      (rounds : ℕ)
      → Smoke.wait_ready loads dumps shown (suc rounds) fresh_server ≡ (ok tt, fresh_server)
  unfolding Smoke.wait_ready Smoke.exchange Smoke.received handle runs
  ready rounds = refl

  rejected :
      (uuid body ct : Text)
      → IsShown shown (length body)
      → Smoke.expect 400 (Smoke.post loads dumps shown uuid Smoke.diagnostic body ct) fresh_server
        ≡ (ok tt, fresh_server)
  unfolding Smoke.expect Smoke.post Smoke.exchange Smoke.received handle runs
  rejected uuid body ct decimal =
      rw
        (do_post-test_empty loads uuid
          (Smoke.post_request loads dumps shown Smoke.diagnostic body ct) fresh_server refl
          (parse_body-post Smoke.diagnostic body ct decimal))
        refl

  nothing_leaked :
      dumps (field (codes "faults") (arr nil) end) ≡ codes "{\"faults\": []}"
      → Smoke.no_leak loads dumps shown fresh_server ≡ (ok tt, fresh_server)
  unfolding Smoke.no_leak Smoke.exchange Smoke.received handle runs
  nothing_leaked no_fault = rw no_fault refl

  accepted :
      (uuid : Text)
      → IsShown shown 15
      → loads (codes "{\"delay_ms\":10}") ≡ some (obj ten_ms)
      → Smoke.expect 201
          (Smoke.post loads dumps shown uuid Smoke.latency (codes "{\"delay_ms\":10}") Smoke.json)
          fresh_server
        ≡ (ok tt, slowed uuid)
  unfolding Smoke.expect Smoke.post Smoke.exchange Smoke.received handle runs
  accepted uuid decimal read = rw (decimal, read) refl

  empty_refused :
      (uuid slow_uuid : Text)
      → IsShown shown 0
      → Smoke.expect 400
          (Smoke.post loads dumps shown uuid Smoke.latency [] Smoke.json)
          (slowed slow_uuid)
        ≡ (ok tt, slowed slow_uuid)
  unfolding Smoke.expect Smoke.post Smoke.exchange Smoke.received handle runs
  empty_refused uuid slow_uuid decimal = rw decimal refl

  -- The smoke test passes on a fresh stub, whichever identifiers its POSTs draw, and leaves one fault
  -- of ten milliseconds behind, where it waits for at least one round, `int` reads the three lengths
  -- that it sends, `json.loads` reads its body of ten milliseconds and `json.dumps` shows an empty
  -- list of faults as such.
  pub main-passes :
      (uuids : ℕ → Text) (rounds : ℕ)
      → IsShown shown 0 × IsShown shown 7 × IsShown shown 15
      → loads (codes "{\"delay_ms\":10}") ≡ some (obj ten_ms)
      → dumps (field (codes "faults") (arr nil) end) ≡ codes "{\"faults\": []}"
      → Smoke.main loads dumps shown uuids (suc rounds) fresh_server ≡ (ok tt, slowed (uuids 3))
  unfolding Smoke.main
  main-passes uuids rounds (zero_read, seven_read, fifteen_read) read no_fault =
      rw
        (
          ready rounds,
          rejected (uuids 0) [] Smoke.json zero_read,
          rejected (uuids 1) (codes "{\"active\":true}") Smoke.json fifteen_read,
          rejected (uuids 2) (codes "garbage") (codes "text/plain") seven_read,
          nothing_leaked no_fault,
          accepted (uuids 3) fifteen_read read,
          empty_refused (uuids 4) (uuids 3) zero_read,
        )
        refl
