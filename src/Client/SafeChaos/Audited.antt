-- ===== src/Client/SafeChaos/Audited.antt =====
-- What `safe_inject_queue_starve` sends, logs and throws.
use project_charybdis.Base.{
  pos_part, ◌≤◌, ◌≡◌, ◌≢◌, ◌⊎◌, refl, ◌∙◌, sym, ap, ℕ, suc, true, false, some, List, [], ◌∷◌, ◌++◌,
  Text, codes, text_eq,
}
use project_charybdis.Json.{Json, get}
use project_charybdis.Client.Errors.{returns, throws, subject_filter_violation, json_type_error}
use project_charybdis.Client.Breaker.{CircuitBreaker}
use project_charybdis.Client.Retry.{
  Doubles, Run, Response, no_response, post_message, Event, Round, one_field, response_of,
  HttpReply,
}
use project_charybdis.Client.Retry.Laws.{
  sends, HasRoom, Fail, FirstReply, run_with_retry-unanswered, run_with_retry-replied,
}
use project_charybdis.Client.Subject.{subject_filter_disabled, subject_prefix, queue_starve_subject}
use project_charybdis.Client.Calls.{Setting, starve_path, retried, of_run, text_member}
use project_charybdis.Client.Calls.Filtered.{IsNamespaced}
use project_charybdis.Client.Calls.Gate.{post-admitted, require-refused, require-admitted}
use project_charybdis.Client.Audit.{
  write_line, log_inject, log_filter_reject, reject_record, fault_record, current_requester,
}
use project_charybdis.Client.Audit.Written.{HasFaultId, log_inject-written}
use project_charybdis.Client.Helpers.{agamemnon_url}
use project_charybdis.Client.SafeChaos.{logged, answered_post, safe_inject_queue_starve}

subject_of_field : (s : Text) → queue_starve_subject (one_field (codes "subject") s) ≡ s
unfolding queue_starve_subject get text_eq
subject_of_field s = refl

module _ {F : Doubles} (c : Setting F) (timestamp : Text) (rounds : ℕ → Round F) where
  -- A subject that the enabled filter refuses, under a prefix that is not empty: the exception is
  -- the violation, one line with the subject and the prefix is added to the log, nothing is sent,
  -- and the breaker stays as it was.
  pub safe_inject-refused :
      (subject line : Text) (b : CircuitBreaker) (lines : List Text)
      → subject_filter_disabled c.env ≡ false
      → subject_prefix c.env ≢ []
      → ¬ IsNamespaced c.env subject
      → c.dump (
          reject_record timestamp
            (codes "queue-starve")
            subject
            (subject_prefix c.env)
            (current_requester c.env))
        ≡ returns line
      → safe_inject_queue_starve c timestamp subject rounds b lines
        ≡ (throws subject_filter_violation, b, lines ++ line ∷ [], [])
  unfolding safe_inject_queue_starve log_filter_reject write_line
  safe_inject-refused subject line b lines enabled prefix foreign dumped =
      rw (require-refused c.env subject enabled prefix foreign, safe_inject_queue_starve)
        (rw (dumped, write_line) refl)

  -- What follows the check of a subject that passes.
  safe_inject-admitted :
      (subject text : Text) (back : Json) (b : CircuitBreaker) (lines : List Text)
      → (subject_filter_disabled c.env ≡ true) ⊎ IsNamespaced c.env subject
      → subject ≢ []
      → c.dump (one_field (codes "subject") subject) ≡ returns text
      → c.parse text ≡ some back
      → queue_starve_subject back ≡ subject
      → safe_inject_queue_starve c timestamp subject rounds b lines
        ≡ answered_post c timestamp
            (of_run (retried c (post_message starve_path text (codes "application/json")) rounds b))
            lines
  unfolding safe_inject_queue_starve queue_starve_subject get text_eq
  safe_inject-admitted subject text back b lines allowed given dumped read same =
      rw (require-admitted c.env subject given allowed, safe_inject_queue_starve)
        (ap (λ r. answered_post c timestamp r lines)
          (post-admitted c rounds b (one_field (codes "subject") subject) back text dumped read
            (same ∙ sym (subject_of_field subject)) given allowed))

  -- The log refuses the answer of a request that was not answered.
  answered_post-null :
      (b : CircuitBreaker) (events : List Event) (lines : List Text)
      → answered_post c timestamp (returns no_response, b, events) lines
        ≡ (throws json_type_error, b, lines, events)
  unfolding log_inject text_member
  answered_post-null b events lines = refl

  answered_post-run :
      (r : Run) (response : Response) (lines : List Text)
      → r.0 ≡ response
      → answered_post c timestamp (of_run r) lines
        ≡ answered_post c timestamp (returns response, r.1, r.2) lines
  answered_post-run r response lines e =
      ap (λ x. answered_post c timestamp (returns x, r.1, r.2) lines) e

  -- The server answers no attempt of an injection that the filter lets pass: the request is sent as
  -- often as the policy allows, and the call ends in a `type_error` of the log, which writes nothing.
  pub safe_inject-unanswered :
      (subject text : Text) (back : Json) (b : CircuitBreaker) (lines : List Text)
      → (subject_filter_disabled c.env ≡ true) ⊎ IsNamespaced c.env subject
      → subject ≢ []
      → c.dump (one_field (codes "subject") subject) ≡ returns text
      → c.parse text ≡ some back
      → queue_starve_subject back ≡ subject
      → HasRoom c.cfg b (suc (pos_part c.policy.max_retries))
      → Fail F c.parse c.policy c.cfg
          (post_message starve_path text (codes "application/json"))
          rounds
          0
          (suc (pos_part c.policy.max_retries))
      → ((safe_inject_queue_starve c timestamp subject rounds b lines).0 ≡ throws json_type_error)
        × ((safe_inject_queue_starve c timestamp subject rounds b lines).2 ≡ lines)
        × (sends (safe_inject_queue_starve c timestamp subject rounds b lines).3
            ≡ suc (pos_part c.policy.max_retries))
  safe_inject-unanswered subject text back b lines allowed given dumped read same room fails =
      let request = post_message starve_path text (codes "application/json") in
      let (no_answer, often) =
        run_with_retry-unanswered F c.parse c.policy c.cfg request rounds b room fails in
      let r = retried c request rounds b in
      let e =
        safe_inject-admitted subject text back b lines allowed given dumped read same
        ∙ answered_post-run r no_response lines no_answer
        ∙ answered_post-null r.1 r.2 lines in
      (ap (λ x. x.0) e, ap (λ x. x.2) e, ap (λ x. sends x.3) e ∙ often)

  -- The server answers an attempt of an injection that the filter lets pass, with an object whose
  -- "id" is a text or missing: the request is sent until then, the answer's body is returned, and one
  -- line, with this identifier or the empty one and with the target of the environment, is added to
  -- the log.
  pub safe_inject-answered :
      (subject text id line : Text) (back : Json) (b : CircuitBreaker) (lines : List Text) (k : ℕ)
      (res : HttpReply)
      → (subject_filter_disabled c.env ≡ true) ⊎ IsNamespaced c.env subject
      → subject ≢ []
      → c.dump (one_field (codes "subject") subject) ≡ returns text
      → c.parse text ≡ some back
      → queue_starve_subject back ≡ subject
      → HasRoom c.cfg b (suc (pos_part c.policy.max_retries))
      → FirstReply F c.parse c.policy c.cfg
          (post_message starve_path text (codes "application/json"))
          rounds
          0
          k
          res
      → k ≤ pos_part c.policy.max_retries
      → HasFaultId (response_of c.parse res).body id
      → c.dump (
          fault_record timestamp
            (codes "inject")
            (codes "queue-starve")
            id
            (agamemnon_url c.env)
            res.status
            (current_requester c.env)
            (response_of c.parse res).body)
        ≡ returns line
      → ((safe_inject_queue_starve c timestamp subject rounds b lines).0
          ≡ returns (response_of c.parse res).body)
        × ((safe_inject_queue_starve c timestamp subject rounds b lines).2 ≡ lines ++ line ∷ [])
        × (sends (safe_inject_queue_starve c timestamp subject rounds b lines).3 ≡ suc k)
  safe_inject-answered subject text id line back b lines k res allowed given dumped read same room
        replies enough named recorded =
      let request = post_message starve_path text (codes "application/json") in
      let (answer, often) =
        run_with_retry-replied F c.parse c.policy c.cfg request rounds k b res room replies
          enough in
      let r = retried c request rounds b in
      let response = response_of c.parse res in
      let written =
        log_inject-written c.env c.dump timestamp (codes "queue-starve") (agamemnon_url c.env) id
          line response.status response.body lines named recorded in
      let e =
        safe_inject-admitted subject text back b lines allowed given dumped read same
        ∙ answered_post-run r response lines answer
        ∙ ap (λ l. logged response.body l r.1 r.2) written in
      (ap (λ x. x.0) e, ap (λ x. x.2) e, ap (λ x. sends x.3) e ∙ often)
