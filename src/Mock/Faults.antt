-- ===== src/Mock/Faults.antt =====
-- The effects of the active faults: the latency, the outage of /v1/health, the stalled queue.
use project_charybdis.Base.{
  ℕ, leb, Bool, false, ◌&&◌, List, [], ◌∷◌, codes, values, any, ℤ, pos, negsuc, ◌+ℤ◌, Result, ok,
  raised, Text, if◌then◌else◌,
}
use project_charybdis.Base.Errors.{overflow_error, ◌>>=◌}
use project_charybdis.Json.{bool, int, Fields, get, get_or, truthy, py_int, is_text}
use project_charybdis.Mock.State.{Server}

-- `f.get("type") == kind and f.get("active", False)`
unfoldable pub is_active : Text → Fields → Bool
is_active kind f =
    is_text kind (get (codes "type") f) && truthy (get_or (codes "active") (bool false) f)

-- `int(f.get("delay_ms", 0))`
unfoldable pub delay_ms : Fields → Result ℤ
delay_ms f = py_int (get_or (codes "delay_ms") (int (pos 0)) f)

-- One round of the loop of `_active_latency_ms`.
unfoldable pub add_latency : ℤ → Fields → Result ℤ
add_latency total f =
    if is_active (codes "latency") f then (do ms ← delay_ms f; ok (total +ℤ ms)) else ok total

unfoldable pub latency_from : ℤ → List Fields → Result ℤ
latency_from total [] = ok total
latency_from total (f ∷ fs) = do total' ← add_latency total f; latency_from total' fs

unfoldable pub active_latency_ms : Server → Result ℤ
active_latency_ms s = latency_from (pos 0) (values s.faults)

unfoldable pub kill_active : Server → Bool
kill_active s = any (is_active (codes "kill")) (values s.faults)

unfoldable pub queue_starve_active : Server → Bool
queue_starve_active s = any (is_active (codes "queue-starve")) (values s.faults)

-- The milliseconds that `time.sleep` can count, in nanoseconds, in 64 bits.
abbrev pub max_sleep_ms : ℕ
max_sleep_ms = 9223372036854

-- `if delay > 0: time.sleep(delay / 1000.0)`
unfoldable pub sleep : ℤ → Result ℕ
sleep (pos ms) = if leb ms max_sleep_ms then ok ms else raised overflow_error
sleep (negsuc n) = ok 0
