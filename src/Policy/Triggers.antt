-- ===== src/Policy/Triggers.antt =====
-- `_inline_list` and `_triggers_from_text`: the events of a workflow and their list settings.
pub mod Items
pub mod Laws
use project_charybdis.Base.{
  ℕ, ◌==◌, leb, Bool, ◌&&◌, ◌||◌, Option, none, some, List, [], ◌∷◌, map, Text, codes, ◌++◌,
  ends_with, split_on, lstrip, is_space, Dict, lookup, insert, Result, ok, raised, if◌then◌else◌,
}
use project_charybdis.Base.Errors.{◌>>=◌, assertion_error}
use project_charybdis.Policy.Lines.{
  splitlines, lines_behind, block_lines, behind_prefix, run_then_colon, nonempty_run, unquote, trim,
}

-- `re.fullmatch(r"\[(.*)]", value)`: the text between the outer brackets.
unfoldable pub without_last : Text → Text
without_last [] = []
without_last (c ∷ []) = []
without_last (c ∷ d ∷ s) = c ∷ without_last (d ∷ s)

unfoldable pub bracketed : Text → Option Text
bracketed [] = none
bracketed (c ∷ s) = if c == b'[' && ends_with s (codes "]") then some (without_last s) else none

abbrev pub list_items : Text → List Text
list_items [] = []
list_items (c ∷ s) = map (λ item. unquote (trim item)) (split_on b',' (c ∷ s))

unfoldable pub inline_list : Text → Result (List Text)
inline_list value = elim (bracketed (trim value)) [
  | none ↦ raised assertion_error
  | some body ↦ ok (list_items (trim body))
]

abbrev pub Events : Type 0
Events = Dict (Dict (List Text))

unfoldable pub is_event_char : ℕ → Bool
is_event_char c = (leb b'a' c && leb c b'z') || c == b'_'

abbrev pub run_of : Option (Text × Text) → Option Text
run_of none = none
run_of (some (run, rest)) = some run

-- `^  ([a-z_]+):(?:\s*(.*))?$`
unfoldable pub event_match : Text → Option Text
event_match line = elim (behind_prefix (codes "  ") line) [
  | none ↦ none
  | some rest ↦ run_of (nonempty_run (run_then_colon is_event_char rest))
]

-- `^    <key>:\s*(\[.*])$`: the second group.
unfoldable pub list_setting : Text → Text → Option Text
list_setting key line = elim (behind_prefix (codes "    " ++ key ++ codes ":") line) [
  | none ↦ none
  | some rest ↦ elim (bracketed (lstrip is_space rest)) [
    | none ↦ none
    | some body ↦ some (lstrip is_space rest)
  ]
]

abbrev pub with_key : Text → Option Text → Option (Text × Text) → Option (Text × Text)
with_key key (some value) others = some (key, value)
with_key key none others = others

-- `^    (branches|tags|types):\s*(\[.*])$`
unfoldable pub setting_match : Text → Option (Text × Text)
setting_match line = with_key (codes "branches") (list_setting (codes "branches") line) (
    with_key (codes "tags") (list_setting (codes "tags") line)
      (with_key (codes "types") (list_setting (codes "types") line) none))

-- `events[event][key] = values`, for an event that is there.
unfoldable pub set_setting : Text → Text → List Text → Events → Events
set_setting event key items events = elim (lookup event events) [
  | none ↦ events
  | some settings ↦ insert event (insert key items settings) events
]

-- A line that is no event: a setting of the last event, or nothing of interest.
unfoldable pub read_setting : Option Text → Text → Events → Result Events
read_setting none line events = ok events
read_setting (some event) line events = elim (setting_match line) [
  | none ↦ ok events
  | some (key, value) ↦ do items ← inline_list value; ok (set_setting event key items events)
]

unfoldable pub read_events : Option Text → Events → List Text → Result Events
read_events event events [] = ok events
read_events event events (line ∷ lines) = elim (event_match line) [
  | some next ↦ read_events (some next) (insert next [] events) lines
  | none ↦ do events' ← read_setting event line events; read_events event events' lines
]

unfoldable pub triggers_from_text : Text → Result Events
triggers_from_text text = do
  lines ← lines_behind (codes "on:") (splitlines text)
  read_events none [] (block_lines lines)
