-- ===== src/Policy/Jobs/Read.antt =====
-- The jobs that are read of the lines of a workflow as they are written.
use project_charybdis.Base.{
  ℕ, ◌≡◌, ◌≢◌, refl, sym, ap, ◌∙◌, inl, inr, Bool, true, false, Option, none, some, List, [], ◌∷◌,
  ◌++◌, map, append-nil, Text, codes, starts_with, All, all, is_space, lstrip, rstrip, strip,
  lstrip-append, rstrip-append_pad, rstrip-append_kept, rstrip-kept, arith,
}
use project_charybdis.Policy.Lines.{behind_prefix, run_then_colon, is_quote, unquote, some_value}
use project_charybdis.Policy.Lines.Laws.{trim-padded}
use project_charybdis.Policy.Triggers.Items.{IsBlank, IsQuote}
use project_charybdis.Policy.Jobs.Written.{
  IsIdChar, Name, text, Begins, IsName, BodyLine, named, hollow, setting, remark, empty, line_of,
  IsBodyLine, name_of, last_name, WrittenJob, IsWrittenJob, header, written_jobs, called,
}
use project_charybdis.Policy.Jobs.{
  is_job_char, job_match, value_behind, renamed, context_of, read_jobs,
}

abbrev Starts : Text → Type 0
Starts [] = ⊥
Starts (c ∷ s) = is_space c ≡ false

is_job_char-IsIdChar : (c : ℕ) → IsIdChar c → (is_job_char c ≡ true) × (c ≢ b':')
unfolding is_job_char
is_job_char-IsIdChar c h = ground arith

run_then_colon-id :
    (id rest : Text)
    → All IsIdChar id
    → run_then_colon is_job_char (id ++ b':' ∷ rest) ≡ some (id, rest)
unfolding run_then_colon
run_then_colon-id [] rest h = refl
run_then_colon-id (c ∷ id) rest (h, hs) =
    let k = is_job_char-IsIdChar c h in rw (run_then_colon-id id rest hs, k.0) (ground (arith, k.1))

all-IsBlank : (s : Text) → IsBlank s → all is_space s ≡ true
all-IsBlank [] h = refl
all-IsBlank (c ∷ s) (h, hs) = rw (h, all-IsBlank s hs) refl

job_match-header : (j : WrittenJob) → IsWrittenJob j → job_match (header j) ≡ some j.id
unfolding job_match behind_prefix starts_with
job_match-header j h = found j.id h.identified (run_then_colon-id j.id j.padding h.plain)
  where
    found :
        (id : Text)
        → id ≢ []
        → run_then_colon is_job_char (id ++ b':' ∷ j.padding) ≡ some (id, j.padding)
        → job_match (codes "  " ++ (id ++ b':' ∷ j.padding)) ≡ some id
    found [] ne e = absurd (ne refl)
    found (c ∷ id) ne e = rw (e, all-IsBlank j.padding h.padded) refl

-- What a line shows of a name, with the quotes round it.
abbrev shown : Text → Name → Text
shown quote n = quote ++ (text n ++ quote)

rstrip-text : (p : ℕ → Bool) (n : Name) → p n.final ≡ false → rstrip p (text n) ≡ text n
rstrip-text p n h =
    rstrip-append_kept p n.inside (n.final ∷ []) (λ e. cc) (rstrip-kept p (n.final ∷ []) (h, tt))

-- The blanks round a text are cut off, and the text is the value.
some_value-padded :
    (gap s after : Text)
    → IsBlank gap
    → IsBlank after
    → Starts s
    → rstrip is_space s ≡ s
    → some_value (gap ++ (s ++ after)) ≡ some s
unfolding some_value
some_value-padded gap [] after g a starts kept = absurd starts
some_value-padded gap (c ∷ s) after g a starts kept =
    rw (trim-padded gap c s after g a starts kept, some_value) refl

Starts-Begins : (s t : Text) → Begins s → Starts (s ++ t)
Starts-Begins [] t h = absurd h
Starts-Begins (c ∷ s) t h = h.0

quoted-kept :
    (q : ℕ) (n : Name) → is_space q ≡ false → rstrip is_space (shown (q ∷ []) n) ≡ shown (q ∷ []) n
quoted-kept q n h =
    rstrip-append_kept is_space (q ∷ text n) (q ∷ []) (λ e. cc)
      (rstrip-kept is_space (q ∷ []) (h, tt))

shown-kept :
    (quote : Text) (n : Name)
    → IsQuote quote
    → IsName n
    → Starts (shown quote n) × (rstrip is_space (shown quote n) ≡ shown quote n)
unfolding is_space
shown-kept quote n (inl e) h =
    rw (e, append-nil (text n))
      (
        rw (sym (append-nil (text n))) (Starts-Begins (text n) [] h.begins),
        rstrip-text is_space n h.ends.0,
      )
shown-kept quote n (inr (inl e)) h = rw e (refl, quoted-kept b'"' n refl)
shown-kept quote n (inr (inr e)) h = rw e (refl, quoted-kept 39 n refl)

lstrip-Begins : (s t : Text) → Begins s → lstrip is_quote (s ++ t) ≡ s ++ t
unfolding lstrip
lstrip-Begins [] t h = absurd h
lstrip-Begins (c ∷ s) t h = rw h.1 refl

IsQuote-all : (quote : Text) → IsQuote quote → All (λ c. is_quote c ≡ true) quote
IsQuote-all quote (inl e) = rw e tt
IsQuote-all quote (inr (inl e)) = rw e (refl, tt)
IsQuote-all quote (inr (inr e)) = rw e (refl, tt)

unquote-shown :
    (quote : Text) (n : Name) → IsQuote quote → IsName n → unquote (shown quote n) ≡ text n
unfolding unquote strip
unquote-shown quote n q h =
    let quotes = IsQuote-all quote q in
    rw
      (
        lstrip-append is_quote quote (text n ++ quote) quotes,
        lstrip-Begins (text n) quote h.begins,
        rstrip-append_pad is_quote (text n) quote quotes,
      )
      (rstrip-text is_quote n h.ends.1)

-- Two quotes with nothing between are the empty name.
hollow-kept :
    (q : ℕ)
    → IsQuote (q ∷ [])
    → (is_space q ≡ false)
      × (rstrip is_space (q ∷ q ∷ []) ≡ q ∷ q ∷ [])
      × (unquote (q ∷ q ∷ []) ≡ [])
unfolding is_space rstrip unquote strip lstrip
hollow-kept q (inl e) = absurd (cc)
hollow-kept q (inr (inl e)) = let same : q ≡ b'"' = cc in rw same (refl, refl, refl)
hollow-kept q (inr (inr e)) = let same : q ≡ 39 = cc in rw same (refl, refl, refl)

-- The name that counts behind a further line.
abbrev later : Option Text → Option Text → Option Text
later name none = name
later name (some n) = some n

name_value : Text → Option Text
name_value line = value_behind (codes "    name:") line

name_value-line_of :
    (name : Option Text) (l : BodyLine)
    → IsBodyLine l
    → renamed name (name_value (line_of l)) ≡ later name (name_of l)
unfolding name_value value_behind behind_prefix starts_with line_of
name_value-line_of name (named gap quote n after) (g, q, h, a) =
    let kept = shown-kept quote n q h in
    rw (some_value-padded gap (shown quote n) after g a kept.0 kept.1)
      (ap some (unquote-shown quote n q h))
name_value-line_of name (hollow gap q after) (g, quoted, a) =
    rw
      (some_value-padded gap (q ∷ q ∷ []) after g a (hollow-kept q quoted).0
        (hollow-kept q quoted).1)
      (ap some (hollow-kept q quoted).2)
name_value-line_of name (setting s) h = rw h refl
name_value-line_of name (remark s) h = refl
name_value-line_of name empty h = refl

job_match-line_of : (l : BodyLine) → job_match (line_of l) ≡ none
unfolding job_match behind_prefix starts_with run_then_colon is_job_char line_of
job_match-line_of (named gap quote n after) = refl
job_match-line_of (hollow gap q after) = refl
job_match-line_of (setting s) = refl
job_match-line_of (remark s) = refl
job_match-line_of empty = refl

later_assoc :
    (name a b : Option Text)
    → later (later name a) b
      ≡ later name (elim b as (λ x. Option Text) [ some n ↦ some n | none ↦ a ])
later_assoc name a none = refl
later_assoc name a (some n) = refl

read_jobs-body :
    (id : Text) (name : Option Text) (body : List BodyLine) (rest : List Text)
    → All IsBodyLine body
    → read_jobs (some id) name (map line_of body ++ rest)
      ≡ read_jobs (some id) (later name (last_name body)) rest
unfolding read_jobs last_name name_value
read_jobs-body id name [] rest h = refl
read_jobs-body id name (l ∷ ls) rest (h, hs) =
    rw (job_match-line_of l, read_jobs, name_value-line_of name l h)
      (read_jobs-body id (later name (name_of l)) ls rest hs
        ∙ ap (λ m. read_jobs (some id) m rest) (later_assoc name (name_of l) (last_name ls)))

context_of-called :
    (j : WrittenJob)
    → context_of (some j.id) (later none (last_name j.body)) ≡ (j.id, called j) ∷ []
unfolding called
context_of-called j = by_name (last_name j.body)
  where
    by_name :
        (o : Option Text)
        → context_of (some j.id) (later none o)
          ≡ (j.id, elim o as (λ x. Text) [ none ↦ j.id | some [] ↦ j.id | some (c ∷ n) ↦ c ∷ n ])
            ∷ []
    by_name none = refl
    by_name (some []) = refl
    by_name (some (c ∷ n)) = refl

-- What is open in front of written jobs ends at the first of them.
read_jobs-open :
    (id name : Option Text) (js : List WrittenJob)
    → All IsWrittenJob js
    → read_jobs id name (written_jobs js) ≡ context_of id name ++ map (λ j. (j.id, called j)) js
unfolding read_jobs written_jobs
read_jobs-open id name [] h = sym (append-nil (context_of id name))
read_jobs-open id name (j ∷ js) (h, hs) =
    rw (job_match-header j h, read_jobs)
      (ap (λ cs. context_of id name ++ cs)
        (read_jobs-body j.id none j.body (written_jobs js) h.lines
          ∙ read_jobs-open (some j.id) (later none (last_name j.body)) js hs
          ∙ ap (λ cs. cs ++ map (λ k. (k.id, called k)) js) (context_of-called j)))

-- The reader finds each written job once, in the order of the file, with the name that the last of
-- its lines with `name:` gives, without the quotes and the blanks round it, or with its identifier
-- where no line gives a name or the last one gives an empty one. An identifier has letters, digits,
-- underscores and dashes, with a colon and blanks behind it; a name neither begins nor ends with a
-- blank or a quote, and stands in quotes of one kind or in none; every other line of a job is
-- indented by four blanks and no `name:`, or a comment behind two, or empty.
pub read_jobs-written_jobs :
    (js : List WrittenJob)
    → All IsWrittenJob js
    → read_jobs none none (written_jobs js) ≡ map (λ j. (j.id, called j)) js
read_jobs-written_jobs js h = read_jobs-open none none js h
