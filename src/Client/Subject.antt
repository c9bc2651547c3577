-- ===== src/Client/Subject.antt =====
-- The subject filter, include/charybdis/subject_filter.hpp, and the guard of the queue-starve
-- requests in src/http_test_client.cpp. The environment is a parameter, with the default prefix that
-- the build writes into version.hpp; the messages of the exceptions are left aside.
use project_charybdis.Base.{
  Bool, true, false, not, ◌&&◌, Option, none, some, [], ◌∷◌, Text, codes, text_eq, starts_with,
  if◌then◌else◌,
}
use project_charybdis.Json.{Json, str, obj, get}
use project_charybdis.Client.Errors.{
  Returned, returns, throws, subject_filter_violation, subject_filter_config_error,
}

pub record Environment : Type 0 where
  -- `std::getenv`
  pub getenv : Text → Option Text
  -- `kDefaultSubjectPrefix`
  pub default_subject_prefix : Text

-- `env != nullptr && std::string_view{env} == "1"`
abbrev pub is_one : Option Text → Bool
is_one none = false
is_one (some v) = text_eq v (codes "1")

unfoldable pub subject_filter_disabled : Environment → Bool
subject_filter_disabled env = is_one (env.getenv (codes "CHARYBDIS_SUBJECT_FILTER_DISABLED"))

unfoldable pub subject_prefix : Environment → Text
subject_prefix env = elim (env.getenv (codes "CHARYBDIS_SUBJECT_PREFIX")) [
  | none ↦ env.default_subject_prefix
  | some v ↦ v
]

-- `empty()`
abbrev pub is_empty_text : Text → Bool
is_empty_text [] = true
is_empty_text (c ∷ s) = false

unfoldable pub subject_allowed : Text → Text → Bool
subject_allowed subject prefix =
    not (is_empty_text prefix) && not (is_empty_text subject) && starts_with subject prefix

unfoldable pub require_subject_allowed : Environment → Text → Returned (Unit {0})
require_subject_allowed env subject =
    if subject_filter_disabled env
    then returns tt
    else if is_empty_text (subject_prefix env)
    then throws subject_filter_config_error
    else if not (subject_allowed subject (subject_prefix env))
    then throws subject_filter_violation
    else returns tt

-- The keys of an object are distinct.
unfoldable pub queue_starve_subject : Json → Text
queue_starve_subject (obj d) = elim (get (codes "subject") d) [
  | some (str s) ↦ s
  | some _ ↦ []
  | none ↦ []
]
queue_starve_subject _ = []

unfoldable pub enforce_queue_starve_subject : Environment → Text → Returned (Unit {0})
enforce_queue_starve_subject env subject =
    if is_empty_text subject
    then throws subject_filter_violation
    else require_subject_allowed env subject
