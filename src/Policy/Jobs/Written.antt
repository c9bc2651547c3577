-- ===== src/Policy/Jobs/Written.antt =====
-- The jobs of a workflow as they are written, and what each is called.
use project_charybdis.Base.{
  ℕ, ◌≡◌, ◌≢◌, ◌⊎◌, ◌≤◌, false, Option, none, some, List, [], ◌∷◌, ◌++◌, map, Text, codes,
  starts_with, All, is_space,
}
use project_charybdis.Policy.Lines.{is_quote}
use project_charybdis.Policy.Triggers.Items.{IsBlank, IsQuote}

-- A letter, a digit, an underscore or a dash.
abbrev pub IsIdChar : ℕ → Type 0
IsIdChar c =
    ((b'A' ≤ c) × (c ≤ b'Z'))
    ⊎ ((b'a' ≤ c) × (c ≤ b'z'))
    ⊎ ((b'0' ≤ c) × (c ≤ b'9'))
    ⊎ (c ≡ b'_')
    ⊎ (c ≡ b'-')

-- A name that is not empty, with its last character apart.
pub record Name : Type 0 where
  pub inside : Text
  pub final : ℕ

abbrev pub text : Name → Text
text n = n.inside ++ n.final ∷ []

abbrev pub Bare : ℕ → Type 0
Bare c = (is_space c ≡ false) × (is_quote c ≡ false)

abbrev pub Begins : Text → Type 0
Begins [] = ⊥
Begins (c ∷ s) = Bare c

-- A name neither begins nor ends with a blank or a quote.
pub record IsName (n : Name) : Type 0 where
  pub begins : Begins (text n)
  pub ends : Bare n.final

-- A line inside a job: `name:` with a name, which quotes may stand round; `name:` with two quotes;
-- a line that is indented further and is no name; a comment; or an empty line.
pub data BodyLine : Type 0 where
  named : Text → Text → Name → Text → BodyLine
  hollow : Text → ℕ → Text → BodyLine
  setting : Text → BodyLine
  remark : Text → BodyLine
  empty : BodyLine

unfoldable pub line_of : BodyLine → Text
line_of (named gap quote n after) =
    codes "    name:" ++ (gap ++ ((quote ++ (text n ++ quote)) ++ after))
line_of (hollow gap q after) = codes "    name:" ++ (gap ++ ((q ∷ q ∷ []) ++ after))
line_of (setting s) = codes "    " ++ s
line_of (remark s) = codes "  #" ++ s
line_of empty = []

abbrev pub IsBodyLine : BodyLine → Type 0
IsBodyLine (named gap quote n after) = IsBlank gap × IsQuote quote × IsName n × IsBlank after
IsBodyLine (hollow gap q after) = IsBlank gap × IsQuote (q ∷ []) × IsBlank after
IsBodyLine (setting s) = starts_with s (codes "name:") ≡ false
IsBodyLine (remark s) = Unit
IsBodyLine empty = Unit

abbrev pub name_of : BodyLine → Option Text
name_of (named gap quote n after) = some (text n)
name_of (hollow gap q after) = some []
name_of (setting s) = none
name_of (remark s) = none
name_of empty = none

-- The name that the last of the lines with `name:` gives.
unfoldable pub last_name : List BodyLine → Option Text
last_name [] = none
last_name (l ∷ ls) = elim (last_name ls) [ some n ↦ some n | none ↦ name_of l ]

-- A job as it is written: its identifier, the blanks behind its header, and the lines inside.
pub record WrittenJob : Type 0 where
  pub id : Text
  pub padding : Text
  pub body : List BodyLine

pub record IsWrittenJob (j : WrittenJob) : Type 0 where
  pub identified : j.id ≢ []
  pub plain : All IsIdChar j.id
  pub padded : IsBlank j.padding
  pub lines : All IsBodyLine j.body

abbrev pub header : WrittenJob → Text
header j = codes "  " ++ (j.id ++ b':' ∷ j.padding)

unfoldable pub written_jobs : List WrittenJob → List Text
written_jobs [] = []
written_jobs (j ∷ js) = header j ∷ (map line_of j.body ++ written_jobs js)

-- What a job is called: by its last name, or by its identifier where it has none or an empty one.
unfoldable pub called : WrittenJob → Text
called j = elim (last_name j.body) [ none ↦ j.id | some [] ↦ j.id | some (c ∷ n) ↦ c ∷ n ]
