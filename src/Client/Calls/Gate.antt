-- ===== src/Client/Calls/Gate.antt =====
-- What the guard of a queue-starve request answers.
use project_charybdis.Base.{
  ◌≡◌, ◌≢◌, ◌⊎◌, inl, inr, refl, ◌∙◌, ℕ, true, false, Bool-cases, some, none, [], ◌∷◌, ◌++◌, Text,
  codes, text_eq_refl, drop, length, starts_with, starts_with-append, arith,
}
use project_charybdis.Json.{Json}
use project_charybdis.Client.Errors.{
  returns, throws, CppError, subject_filter_violation, subject_filter_config_error,
  json_parse_error,
}
use project_charybdis.Client.Breaker.{CircuitBreaker}
use project_charybdis.Client.Retry.{Doubles, post_message, Round}
use project_charybdis.Client.Subject.{
  Environment, subject_filter_disabled, subject_prefix, is_empty_text, subject_allowed,
  require_subject_allowed, queue_starve_subject, enforce_queue_starve_subject,
}
use project_charybdis.Client.Calls.{
  Setting, starve_path, retried, of_run, raw_gate, converted, post_gate, post_raw, post,
}
use project_charybdis.Client.Calls.Filtered.{IsNamespaced, starts_with-prefix}

-- Why a subject is refused, with the exception.
pub data Refusal (env : Environment) : Text → CppError → Type 0 where
  no_subject : {s : Text} → s ≡ [] → Refusal env s subject_filter_violation
  no_prefix :
      {s : Text}
      → s ≢ []
      → subject_filter_disabled env ≡ false
      → subject_prefix env ≡ []
      → Refusal env s subject_filter_config_error
  foreign :
      {s : Text}
      → subject_filter_disabled env ≡ false
      → subject_prefix env ≢ []
      → ¬ IsNamespaced env s
      → Refusal env s subject_filter_violation

is_empty_text_of_ne : (s : Text) → s ≢ [] → is_empty_text s ≡ false
is_empty_text_of_ne [] h = absurd (h refl)
is_empty_text_of_ne (c ∷ s) h = refl

pub starts_with-eq_append : (s p rest : Text) → s ≡ p ++ rest → starts_with s p ≡ true
starts_with-eq_append s p rest e = rw e (starts_with-append p rest)

subject_allowed-foreign :
    (env : Environment) (s : Text)
    → subject_prefix env ≢ []
    → ¬ IsNamespaced env s
    → subject_allowed s (subject_prefix env) ≡ false
unfolding subject_allowed
subject_allowed-foreign env s prefix other =
    elim (Bool-cases (starts_with s (subject_prefix env))) [
      | inl starts ↦ absurd (
          other (record {
            some_prefix = prefix;
            rest = drop (length (subject_prefix env)) s;
            prefixed = starts_with-prefix s (subject_prefix env) starts;
          }))
      | inr differs ↦ ground arith
    ]

subject_allowed-IsNamespaced :
    (env : Environment) (s : Text)
    → s ≢ []
    → IsNamespaced env s
    → subject_allowed s (subject_prefix env) ≡ true
unfolding subject_allowed
subject_allowed-IsNamespaced env s given named =
    rw
      (
        is_empty_text_of_ne s given,
        is_empty_text_of_ne (subject_prefix env) named.some_prefix,
        starts_with-eq_append s (subject_prefix env) named.rest named.prefixed,
      )
      refl

pub require-refused :
    (env : Environment) (s : Text)
    → subject_filter_disabled env ≡ false
    → subject_prefix env ≢ []
    → ¬ IsNamespaced env s
    → require_subject_allowed env s ≡ throws subject_filter_violation
unfolding require_subject_allowed
require-refused env s enabled prefix other =
    rw
      (
        enabled,
        is_empty_text_of_ne (subject_prefix env) prefix,
        subject_allowed-foreign env s prefix other,
      )
      refl

pub require-admitted :
    (env : Environment) (s : Text)
    → s ≢ []
    → (subject_filter_disabled env ≡ true) ⊎ IsNamespaced env s
    → require_subject_allowed env s ≡ returns tt
unfolding require_subject_allowed
require-admitted env s given (inl disabled) = rw disabled refl
require-admitted env s given (inr named) = elim (Bool-cases (subject_filter_disabled env)) [
  | inl disabled ↦ rw disabled refl
  | inr enabled ↦
      rw
        (
          enabled,
          is_empty_text_of_ne (subject_prefix env) named.some_prefix,
          subject_allowed-IsNamespaced env s given named,
        )
        refl
]

enforce-given :
    (env : Environment) (s : Text)
    → s ≢ []
    → enforce_queue_starve_subject env s ≡ require_subject_allowed env s
unfolding enforce_queue_starve_subject
enforce-given env s given = rw (is_empty_text_of_ne s given) refl

enforce-refused :
    (env : Environment) (s : Text) (e : CppError)
    → Refusal env s e
    → enforce_queue_starve_subject env s ≡ throws e
unfolding enforce_queue_starve_subject require_subject_allowed
enforce-refused env s e (no_subject none_given) = rw none_given refl
enforce-refused env s e (no_prefix given enabled empty) =
    rw (is_empty_text_of_ne s given, enabled, empty) refl
enforce-refused env s e (foreign enabled prefix other) = elim (Bool-cases (is_empty_text s)) [
  | inl empty ↦ rw empty refl
  | inr given ↦ rw given (require-refused env s enabled prefix other)
]

enforce-admitted :
    (env : Environment) (s : Text)
    → s ≢ []
    → (subject_filter_disabled env ≡ true) ⊎ IsNamespaced env s
    → enforce_queue_starve_subject env s ≡ returns tt
enforce-admitted env s given allowed =
    enforce-given env s given ∙ require-admitted env s given allowed

module _ {F : Doubles} (c : Setting F) (rounds : ℕ → Round F) (b : CircuitBreaker) where
  -- A queue-starve request whose subject the filter refuses, for one of the three reasons, throws
  -- the exception of this reason, from `post` and, where the text is read as this body, from
  -- `post_raw`. Nothing is sent, and the breaker stays as it was.
  pub post-refused :
      (body : Json) (text content_type : Text) (e : CppError)
      → c.parse text ≡ some body
      → Refusal c.env (queue_starve_subject body) e
      → (post c starve_path body rounds b ≡ (throws e, b, []))
        × (post_raw c starve_path text content_type rounds b ≡ (throws e, b, []))
  unfolding post post_raw post_gate raw_gate
  post-refused body text ct e read refusal =
      let thrown = enforce-refused c.env (queue_starve_subject body) e refusal in
      (rw (text_eq_refl starve_path, thrown) refl, rw (text_eq_refl starve_path, read, thrown) refl)

  -- So does a text that does not parse as JSON.
  pub post_raw-malformed :
      (text content_type : Text)
      → c.parse text ≡ none
      → c.refusal text ≡ json_parse_error
      → post_raw c starve_path text content_type rounds b ≡ (throws subject_filter_violation, b, [])
  unfolding post_raw raw_gate converted
  post_raw-malformed text ct malformed why = rw (text_eq_refl starve_path, malformed, why) refl

  -- A queue-starve request with a subject that is namespaced, or any subject while the filter is
  -- disabled, is sent with its retries, where the body is dumped to a text that is read back with
  -- the same subject.
  pub post-admitted :
      (body back : Json) (text : Text)
      → c.dump body ≡ returns text
      → c.parse text ≡ some back
      → queue_starve_subject back ≡ queue_starve_subject body
      → queue_starve_subject body ≢ []
      → (subject_filter_disabled c.env ≡ true) ⊎ IsNamespaced c.env (queue_starve_subject body)
      → post c starve_path body rounds b
        ≡ of_run (retried c (post_message starve_path text (codes "application/json")) rounds b)
  unfolding post post_raw post_gate raw_gate
  post-admitted body back text dumped read same given allowed =
      let passed = enforce-admitted c.env (queue_starve_subject body) given allowed in
      rw (text_eq_refl starve_path, passed, dumped, read, same, passed) refl
