-- ===== src/Policy/Fixtures/Settings.antt =====
-- A setting that `_add_job_setting` gives a job is a line of the job's section.
use project_charybdis.Base.{
  ℕ, ◌≡◌, ◌≢◌, refl, sym, ap, subst, ◌∙◌, inl, inr, true, false, ◌||◌, List, [], ◌∷◌, ◌++◌, Text,
  codes, text_eq, text_eq_iff, starts_with, starts_with-append, split_on, split_on-append, join,
  All, All-map_implies, drop-length_append, Bool-cases, arith, ok,
}
use project_charybdis.Policy.Lines.{is_break, splitlines, lines_behind}
use project_charybdis.Policy.Lines.Laws.{IsLine, split_lines-line}
use project_charybdis.Policy.Jobs.{job_line}
use project_charybdis.Policy.Violations.{has_line}
use project_charybdis.Policy.Fixtures.{replace_once, add_job_setting}

-- Whole lines in front of a text.
abbrev pub with_lines : List Text → Text → Text
with_lines [] t = t
with_lines (l ∷ ls) t = l ++ 10 ∷ with_lines ls t

-- No end of this line is the header.
abbrev pub IsApart : Text → Text → Type 0
IsApart header [] = text_eq [] header ≡ false
IsApart header (c ∷ s) = (text_eq (c ∷ s) header ≡ false) × IsApart header s

text_eq-ne : (s t : Text) → text_eq s t ≡ false → s ≢ t
text_eq-ne s t h e = absurd (ground (arith, text_eq_iff s t))

break_ne : (c : ℕ) → is_break c ≡ false → c ≢ 10
unfolding is_break
break_ne c h e = absurd (ground arith)

pub splitlines-with_lines :
    (ls : List Text) (t : Text) → All IsLine ls → splitlines (with_lines ls t) ≡ ls ++ splitlines t
unfolding splitlines
splitlines-with_lines [] t h = refl
splitlines-with_lines (l ∷ ls) t (h, hs) =
    split_lines-line l (with_lines ls t) h ∙ ap (λ rest. l ∷ rest) (splitlines-with_lines ls t hs)

-- A line that begins with the header and its line feed is the header.
header_found :
    (s header t : Text)
    → IsLine s
    → IsLine header
    → starts_with (s ++ 10 ∷ t) (header ++ 10 ∷ []) ≡ true
    → s ≡ header
unfolding starts_with
header_found [] [] t h k e = refl
header_found [] (d ∷ header) t h k e = absurd (ground (arith, break_ne d k.0))
header_found (c ∷ s) [] t h k e = absurd (ground (arith, break_ne c h.0))
header_found (c ∷ s) (d ∷ header) t h k e = ground (arith, header_found s header t h.1 k.1)

abbrev marker : Text → Text
marker header = header ++ 10 ∷ []

replace_once-passes :
    (s header new t : Text)
    → IsLine s
    → IsLine header
    → IsApart header s
    → replace_once (marker header) new (s ++ 10 ∷ t) ≡ s ++ 10 ∷ replace_once (marker header) new t
unfolding replace_once
replace_once-passes [] header new t h k apart =
    elim (Bool-cases (starts_with (10 ∷ t) (marker header))) [
      | inl found ↦ absurd (text_eq-ne [] header apart (header_found [] header t h k found))
      | inr other ↦ rw other refl
    ]
replace_once-passes (c ∷ s) header new t h k apart =
    elim (Bool-cases (starts_with (c ∷ (s ++ 10 ∷ t)) (marker header))) [
      | inl found ↦
          absurd (text_eq-ne (c ∷ s) header apart.0 (header_found (c ∷ s) header t h k found))
      | inr other ↦ rw other (ap (λ r. c ∷ r) (replace_once-passes s header new t h.1 k apart.1))
    ]

replace_once-with_lines :
    (ls : List Text) (header new t : Text)
    → All IsLine ls
    → IsLine header
    → All (IsApart header) ls
    → replace_once (marker header) new (with_lines ls t)
      ≡ with_lines ls (replace_once (marker header) new t)
replace_once-with_lines [] header new t h k apart = refl
replace_once-with_lines (l ∷ ls) header new t (h, hs) k (apart, aparts) =
    replace_once-passes l header new (with_lines ls t) h k apart
    ∙ ap (λ rest. l ++ 10 ∷ rest) (replace_once-with_lines ls header new t hs k aparts)

-- At the first occurrence, the rest stays as it is.
replace_once-here :
    (c : ℕ) (old new rest : Text) → replace_once (c ∷ old) new ((c ∷ old) ++ rest) ≡ new ++ rest
unfolding replace_once
replace_once-here c old new rest =
    rw (starts_with-append (c ∷ old) rest) (ap (λ s. new ++ s) (drop-length_append (c ∷ old) rest))

pub lines_behind-append :
    (key : Text) (ls more : List Text) {behind : List Text}
    → lines_behind key ls ≡ ok behind
    → lines_behind key (ls ++ more) ≡ ok (behind ++ more)
unfolding lines_behind
lines_behind-append key [] more h = absurd (cc)
lines_behind-append key (l ∷ ls) more {behind} h = elim (Bool-cases (text_eq l key)) [
  | inl here ↦ let same : ls ≡ behind = cc (rw here at h) in rw here (ap (λ x. ok (x ++ more)) same)
  | inr later ↦ rw later (lines_behind-append key ls more (rw later at h))
]

-- The first line of several is found among the parts of their join, also where it is the only one.
split_on-line : (s : Text) → IsLine s → split_on 10 s ≡ s ∷ []
unfolding split_on
split_on-line [] h = refl
split_on-line (c ∷ s) (h, hs) = rw (split_on-line s hs) (ground (arith, break_ne c h))

IsLine-no_feed : (s : Text) → IsLine s → All (λ c. c ≢ 10) s
IsLine-no_feed s h = All-map_implies (λ c. is_break c ≡ false) (λ c. c ≢ 10) break_ne s h

pub has_line-append :
    (prefix s t : Text)
    → IsLine s
    → has_line prefix (s ++ 10 ∷ t) ≡ (starts_with s prefix || has_line prefix t)
unfolding has_line
has_line-append prefix s t h = rw (split_on-append 10 s t (IsLine-no_feed s h)) refl

pub has_line-first :
    (prefix s : Text) (ls : List Text)
    → IsLine s
    → starts_with s prefix ≡ true
    → has_line prefix (join (codes "\n") (s ∷ ls)) ≡ true
unfolding join
has_line-first prefix s [] h begins = unfold has_line in rw (split_on-line s h, begins) refl
has_line-first prefix s (l ∷ ls) h begins =
    has_line-append prefix s (join (codes "\n") (l ∷ ls)) h ∙ rw begins refl

append_assoc : (s t u : Text) → (s ++ t) ++ u ≡ s ++ (t ++ u)
append_assoc [] t u = refl
append_assoc (c ∷ s) t u = ap (λ r. c ∷ r) (append_assoc s t u)

pub IsApart-ne : (header l : Text) → IsApart header l → l ≢ header
IsApart-ne header [] apart = text_eq-ne [] header apart
IsApart-ne header (c ∷ s) apart = text_eq-ne (c ∷ s) header apart.0

pub All-behind :
    (P : Text → Type 0) (key : Text) (ls : List Text) {behind : List Text}
    → lines_behind key ls ≡ ok behind
    → All P ls
    → All P behind
unfolding lines_behind
All-behind P key [] h each = absurd (cc)
All-behind P key (l ∷ ls) {behind} h each = elim (Bool-cases (text_eq l key)) [
  | inl here ↦ let same : ls ≡ behind = cc (rw here at h) in subst (All P) same each.1
  | inr later ↦ All-behind P key ls (rw later at h) each.1
]

pub add_job_setting-eq :
    (front : List Text) (id line rest : Text)
    → All IsLine front
    → IsLine (job_line id)
    → All (IsApart (job_line id)) front
    → add_job_setting (with_lines front (job_line id ++ 10 ∷ rest)) id (line ++ 10 ∷ [])
      ≡ with_lines front (job_line id ++ 10 ∷ (line ++ 10 ∷ rest))
unfolding add_job_setting
add_job_setting-eq front id line rest h k apart =
    let header = job_line id in
    let new = marker header ++ (line ++ 10 ∷ []) in
    let here = append_assoc header (10 ∷ []) rest in
    ap (λ t. replace_once (marker header) new (with_lines front t)) (sym here)
    ∙ replace_once-with_lines front header new (marker header ++ rest) h k apart
    ∙ ap (with_lines front) (
        replace_once-here b' ' (b' ' ∷ ((id ++ codes ":") ++ 10 ∷ [])) new rest
        ∙ append_assoc (marker header) (line ++ 10 ∷ []) rest
        ∙ ap (λ t. marker header ++ t) (append_assoc line (10 ∷ []) rest)
        ∙ append_assoc header (10 ∷ []) (line ++ 10 ∷ rest))
