-- ===== src/Client/SafeChaos.antt =====
-- `safe_inject_queue_starve` of include/charybdis/safe_chaos.hpp: the subject is checked, a refusal is
-- written to the audit log, and so is the answer of the request. The time stamps of the two records
-- are parameters.
pub mod Audited
use project_charybdis.Base.{ℕ, List, [], ◌∷◌, Text, codes}
use project_charybdis.Json.{Json}
use project_charybdis.Client.Errors.{Returned, returns, throws, CppError, subject_filter_violation}
use project_charybdis.Client.Breaker.{CircuitBreaker}
use project_charybdis.Client.Retry.{Doubles, Response, Event, Round, one_field}
use project_charybdis.Client.Subject.{require_subject_allowed, subject_prefix}
use project_charybdis.Client.Calls.{Setting, Outcome, starve_path, post}
use project_charybdis.Client.Audit.{Logged, log_inject, log_filter_reject}
use project_charybdis.Client.Helpers.{agamemnon_url}

-- What is returned or thrown, the breaker, the lines of the log, and what was sent.
abbrev pub Injected : Type 0
Injected = Returned Json × CircuitBreaker × List Text × List Event

-- `throw;` behind the record of the refusal, unless writing the record throws.
abbrev pub rethrown : CppError → Logged → CircuitBreaker → Injected
rethrown e (returns x, lines) b = (throws e, b, lines, [])
rethrown e (throws e', lines) b = (throws e', b, lines, [])

-- The record of the answer, and its body.
abbrev pub logged : Json → Logged → CircuitBreaker → List Event → Injected
logged body (returns x, lines) b events = (returns body, b, lines, events)
logged body (throws e, lines) b events = (throws e, b, lines, events)

module _ {F : Doubles} (c : Setting F) (timestamp : Text) where
  abbrev pub answered_post : Outcome Response → List Text → Injected
  answered_post (throws e, b, events) lines = (throws e, b, lines, events)
  answered_post (returns r, b, events) lines =
      logged r.body
        (log_inject c.env c.dump timestamp (codes "queue-starve") (agamemnon_url c.env) r.status
          r.body lines)
        b events

  unfoldable pub safe_inject_queue_starve :
      Text → (ℕ → Round F) → CircuitBreaker → List Text → Injected
  safe_inject_queue_starve subject rounds b lines = elim (require_subject_allowed c.env subject) [
    | returns x ↦
        answered_post (post c starve_path (one_field (codes "subject") subject) rounds b) lines
    | throws subject_filter_violation ↦
        rethrown subject_filter_violation
          (log_filter_reject c.env c.dump timestamp (codes "queue-starve") subject
            (subject_prefix c.env) lines)
          b
    | throws e ↦ (throws e, b, lines, [])
  ]
