-- ===== src/Client/Calls/Filtered.antt =====
-- The subject filter stands in front of every request on exactly the path of the queue-starve fault.
use project_charybdis.Base.{
  ◌≡◌, ◌≢◌, ◌⊎◌, inl, inr, refl, sym, subst, ℕ, true, false, Bool-cases, Option-cases, some, List,
  [], ◌∷◌, ◌++◌, Text, text_eq, text_eq_iff, starts_with, drop, length, All, All-append, arith,
}
use project_charybdis.Json.{Json}
use project_charybdis.Client.Errors.{Returned, returns, throws, CppError, ◌>>=◌}
use project_charybdis.Client.Breaker.{CircuitBreaker}
use project_charybdis.Client.Retry.{
  Doubles, HttpRequest, get_message, delete_message, post_message, Event, sent, slept, Round,
}
use project_charybdis.Client.Retry.Laws.{Alternates, run_with_retry-Alternates}
use project_charybdis.Client.Subject.{
  Environment, subject_filter_disabled, subject_prefix, subject_allowed, require_subject_allowed,
  queue_starve_subject, enforce_queue_starve_subject,
}
use project_charybdis.Client.Calls.{
  Setting, starve_path, retried, Outcome, guarded, raw_gate, post_gate, post_raw, post, get_path,
  del, is_healthy, ClientCall, get_call, del_call, post_call, post_raw_call, health_call, perform,
  session,
}

-- A subject with the configured prefix, which is not empty.
pub record IsNamespaced (env : Environment) (s : Text) : Type 0 where
  pub some_prefix : subject_prefix env ≢ []
  pub rest : Text
  pub prefixed : s ≡ subject_prefix env ++ rest

pub starts_with-prefix : (s p : Text) → starts_with s p ≡ true → s ≡ p ++ drop (length p) s
unfolding starts_with
starts_with-prefix s [] h = refl
starts_with-prefix [] (d ∷ p) h = absurd (cc)
starts_with-prefix (c ∷ s) (d ∷ p) h = ground (arith, starts_with-prefix s p)

enforce-IsNamespaced :
    (env : Environment) (s : Text)
    → subject_filter_disabled env ≡ false
    → enforce_queue_starve_subject env s ≡ returns tt
    → IsNamespaced env s
unfolding enforce_queue_starve_subject require_subject_allowed subject_allowed
enforce-IsNamespaced env s enabled passed = record {
  some_prefix = ground arith;
  rest = drop (length (subject_prefix env)) s;
  prefixed = starts_with-prefix s (subject_prefix env) (ground arith);
}

throws-ne-returns : {X : Type 0} {e : CppError} {x : X} → throws e ≢ returns x
throws-ne-returns h = cc

module _ {F : Doubles} (c : Setting F) where
  -- A POST on this path carries a JSON body with a namespaced subject.
  abbrev pub IsFiltered : Event → Type 0
  IsFiltered (slept d) = Unit
  IsFiltered (sent (get_message path)) = Unit
  IsFiltered (sent (delete_message path)) = Unit
  IsFiltered (sent (post_message path body ct)) =
      (path ≢ starve_path)
      ⊎ ((v : Json) × (c.parse body ≡ some v) × IsNamespaced c.env (queue_starve_subject v))

  Alternates-IsFiltered :
      (r : HttpRequest) (es : List Event)
      → IsFiltered (sent r)
      → Alternates r es
      → All IsFiltered es
  Alternates-IsFiltered r [] p h = tt
  Alternates-IsFiltered r (slept d ∷ es) p h = elim h [ ]
  Alternates-IsFiltered r (sent q ∷ []) p h = (subst (λ x. IsFiltered (sent x)) (sym h) p, tt)
  Alternates-IsFiltered r (sent q ∷ sent x ∷ es) p h = elim h [ ]
  Alternates-IsFiltered r (sent q ∷ slept d ∷ es) p (e, h) =
      (subst (λ x. IsFiltered (sent x)) (sym e) p, (tt, Alternates-IsFiltered r es p h))

  retried-IsFiltered :
      (r : HttpRequest) (rounds : ℕ → Round F) (b : CircuitBreaker)
      → IsFiltered (sent r)
      → All IsFiltered (retried c r rounds b).2
  retried-IsFiltered r rounds b p =
      Alternates-IsFiltered r _ p (run_with_retry-Alternates F c.parse c.policy c.cfg r rounds b).0

  -- What is sent behind a check is sent only where the check passes.
  guarded-IsFiltered :
      {X A : Type 0} (check : Returned X) (b : CircuitBreaker) (call : X → Outcome A)
      → ((x : X) → check ≡ returns x → All IsFiltered (call x).2)
      → All IsFiltered (guarded check b call).2
  guarded-IsFiltered (throws e) b call h = tt
  guarded-IsFiltered (returns x) b call h = h x refl

  raw_gate-IsFiltered :
      (path body ct : Text)
      → subject_filter_disabled c.env ≡ false
      → raw_gate c path body ≡ returns tt
      → IsFiltered (sent (post_message path body ct))
  unfolding raw_gate
  raw_gate-IsFiltered path body ct enabled passed = elim (Bool-cases (text_eq path starve_path)) [
    | inr other ↦ inl (λ e. absurd (different e other))
    | inl same ↦ elim (Option-cases (c.parse body)) [
      | inl none_read ↦ absurd (throws-ne-returns (rw (same, none_read) at passed))
      | inr (v, read) ↦ inr (
        v,
        read,
        enforce-IsNamespaced c.env (queue_starve_subject v) enabled (rw (same, read) at passed),
      )
    ]
  ]
    where
      different : path ≡ starve_path → text_eq path starve_path ≡ false → ⊥
      different e other = cc ((text_eq_iff path starve_path).1 e)

  post_raw-IsFiltered :
      (path body ct : Text) (rounds : ℕ → Round F) (b : CircuitBreaker)
      → subject_filter_disabled c.env ≡ false
      → All IsFiltered (post_raw c path body ct rounds b).2
  unfolding post_raw
  post_raw-IsFiltered path body ct rounds b enabled =
      guarded-IsFiltered (raw_gate c path body) b _ (λ x passed.
        retried-IsFiltered (post_message path body ct) rounds b
          (raw_gate-IsFiltered path body ct enabled passed))

  perform-IsFiltered :
      (call : ClientCall) (rounds : ℕ → Round F) (b : CircuitBreaker)
      → subject_filter_disabled c.env ≡ false
      → All IsFiltered (perform c call rounds b).1
  unfolding perform get_path del post is_healthy
  perform-IsFiltered (get_call path) rounds b enabled =
      retried-IsFiltered (get_message path) rounds b tt
  perform-IsFiltered (del_call path) rounds b enabled =
      retried-IsFiltered (delete_message path) rounds b tt
  perform-IsFiltered (post_call path body) rounds b enabled =
      guarded-IsFiltered (post_gate c path body >>= λ _. c.dump body) b _
        (λ text passed. post_raw-IsFiltered path text _ rounds b enabled)
  perform-IsFiltered (post_raw_call path body ct) rounds b enabled =
      post_raw-IsFiltered path body ct rounds b enabled
  perform-IsFiltered health_call rounds b enabled = retried-IsFiltered (get_message _) rounds b tt

  -- While the filter is enabled: whatever a client is asked for, each POST that it sends on exactly
  -- the path of the queue-starve fault carries a JSON body, and the subject in this body has the
  -- configured prefix, which is not empty.
  pub session-IsFiltered :
      (calls : List (ClientCall × (ℕ → Round F))) (b : CircuitBreaker)
      → subject_filter_disabled c.env ≡ false
      → All IsFiltered (session c calls b).1
  unfolding session
  session-IsFiltered [] b enabled = tt
  session-IsFiltered ((call, rounds) ∷ rest) b enabled =
      All-append IsFiltered (perform c call rounds b).1
        (session c rest (perform c call rounds b).0).1 (perform-IsFiltered call rounds b enabled)
        (session-IsFiltered rest (perform c call rounds b).0 enabled)
