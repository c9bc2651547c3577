-- ===== src/Client/Audit.antt =====
-- `ChaosAuditLog` of include/charybdis/chaos_audit.hpp: its records, and where they go. The state is
-- the list of the lines that were written; the time stamp, `dump` and whether a file can be opened
-- are parameters. The fields of a record stand in the order of the source; `nlohmann::json` sorts
-- them by their keys.
pub mod Written
use project_charybdis.Base.{
  ℕ, Bool, true, false, ◌||◌, ◌==◌, Option, none, some, List, [], ◌∷◌, ◌++◌, Text, codes, text_eq,
  split_on, any, ℤ, pos, if◌then◌else◌, String,
}
use project_charybdis.Json.{Json, int, str, obj, Fields, end, field}
use project_charybdis.Client.Errors.{Returned, returns, throws}
use project_charybdis.Client.Subject.{Environment}
use project_charybdis.Client.Calls.{text_member}

-- `v != nullptr && *v != '\0'`
abbrev pub non_empty : Option Text → Option Text
non_empty none = none
non_empty (some []) = none
non_empty (some (c ∷ s)) = some (c ∷ s)

unfoldable pub current_requester : Environment → Text
current_requester env = elim (non_empty (env.getenv (codes "CHAOS_AUDIT_REQUESTER"))) [
  | some r ↦ r
  | none ↦ elim (non_empty (env.getenv (codes "USER"))) [ some u ↦ u | none ↦ codes "unknown" ]
]

-- `{k, v}` in front of the other fields
abbrev pub said : String → Text → Fields → Fields
said k v d = field (codes k) (str v) d

abbrev pub version : ℕ → Fields → Fields
version n d = field (codes "schema_version") (int (pos n)) d

-- The record of an injection or a removal.
abbrev pub fault_record : Text → Text → Text → Text → Text → ℤ → Text → Json → Json
fault_record timestamp action fault_type fault_id target http_status requester details = obj (
    version 1 (
      said "timestamp" timestamp (
        said "action" action (
          said "fault_type" fault_type (
            said "fault_id" fault_id (
              said "target" target (
                field (codes "status") (int http_status)
                  (said "requester" requester (field (codes "details") details end)))))))))

abbrev pub reject_record : Text → Text → Text → Text → Text → Json
reject_record timestamp fault_type attempted_subject configured_prefix requester = obj (
    version 2 (
      said "timestamp" timestamp (
        said "action" (codes "filter_reject") (
          said "fault_type" fault_type (
            said "attempted_subject" attempted_subject
              (said "configured_prefix" configured_prefix (said "requester" requester end)))))))

-- A call of the log: what it throws, and the lines behind it.
abbrev pub Logged : Type 0
Logged = Returned (Unit {0}) × List Text

-- `out << record.dump() << '\n'`
unfoldable pub write_line : (Json → Returned Text) → Json → List Text → Logged
write_line dump record_to_write lines = elim (dump record_to_write) [
  | throws e ↦ (throws e, lines)
  | returns line ↦ (returns tt, lines ++ line ∷ [])
]

module _ (env : Environment) (dump : Json → Returned Text) (timestamp : Text) where
  unfoldable pub log_inject : Text → Text → ℤ → Json → List Text → Logged
  log_inject fault_type target http_status response_body lines =
      elim (text_member (codes "id") response_body) [
        | throws e ↦ (throws e, lines)
        | returns id ↦
            write_line dump
              (fault_record timestamp (codes "inject") fault_type id target http_status
                (current_requester env) response_body)
              lines
      ]

  unfoldable pub log_remove : Text → Text → Text → ℤ → Json → List Text → Logged
  log_remove fault_type fault_id target http_status response_body lines =
      write_line dump
        (fault_record timestamp (codes "remove") fault_type fault_id target http_status
          (current_requester env) response_body)
        lines

  unfoldable pub log_filter_reject : Text → Text → Text → List Text → Logged
  log_filter_reject fault_type attempted_subject configured_prefix lines =
      write_line dump
        (reject_record timestamp fault_type attempted_subject configured_prefix
          (current_requester env))
        lines

-- Whether the destination is the standard error, or is refused: the parts of a path are cut at "/".
unfoldable pub goes_to_stderr : Text → Bool
goes_to_stderr dest =
    text_eq dest []
    || text_eq dest (codes "-")
    || text_eq dest (codes "stderr")
    || any (λ c. c == 0) dest
    || any (text_eq (codes "..")) (split_on b'/' dest)

-- `path()` behind the constructor: the file that is written, or no text for the standard error.
unfoldable pub audit_path : Environment → (Text → Bool) → Text
audit_path env opens = elim (env.getenv (codes "CHAOS_AUDIT_LOG")) [
  | none ↦ []
  | some dest ↦ if goes_to_stderr dest then [] else if opens dest then dest else []
]
