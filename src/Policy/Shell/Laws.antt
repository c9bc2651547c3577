-- ===== src/Policy/Shell/Laws.antt =====
-- Which commands a run step is read to execute.
use project_charybdis.Base.{
  ℕ, ◌≡◌, ◌≢◌, refl, sym, ap, ◌∙◌, true, false, List, [], ◌∷◌, ◌++◌, map, append_assoc, append-nil,
  Text, codes, join, All, is_space, lstrip, rstrip, strip, ends_with, ends_with-append,
  lstrip-append, rstrip-append_pad, rstrip-append_kept, rstrip-kept, arith,
}
use mathlib.Core.List.{reverse-append}
use project_charybdis.Policy.Lines.{trim}
use project_charybdis.Policy.Lines.Laws.{trim-padded}
use project_charybdis.Policy.Triggers.{without_last}
use project_charybdis.Policy.Triggers.Items.{IsBlank}
use project_charybdis.Policy.Triggers.Laws.{without_last-append}
use project_charybdis.Policy.Shell.{is_continued, fragment_of, is_skipped, read_line, commands_from}

-- What a line adds to a command: its last character apart.
pub record Fragment : Type 0 where
  pub inside : Text
  pub final : ℕ

abbrev pub text : Fragment → Text
text f = f.inside ++ f.final ∷ []

-- The first character is no blank and begins no comment.
abbrev pub Opens : Text → Type 0
Opens [] = ⊥
Opens (c ∷ s) = (is_space c ≡ false) × (c ≢ b'#')

pub record IsFragment (f : Fragment) : Type 0 where
  pub opens : Opens (text f)
  pub closes : is_space f.final ≡ false

-- A line that ends no command: a blank one, a comment, or a fragment with a backslash behind it.
-- Blanks may stand round each.
pub data Part : Type 0 where
  blank : Text → Part
  comment : Text → Text → Part
  continued : Text → Fragment → Text → Text → Part

unfoldable pub line_of : Part → Text
line_of (blank pad) = pad
line_of (comment pad s) = pad ++ b'#' ∷ s
line_of (continued before f gap after) = before ++ ((text f ++ (gap ++ codes "\\")) ++ after)

abbrev pub IsPart : Part → Type 0
IsPart (blank pad) = IsBlank pad
IsPart (comment pad s) = IsBlank pad
IsPart (continued before f gap after) = IsBlank before × IsFragment f × IsBlank gap × IsBlank after

-- The fragments of a command but the last.
unfoldable pub fragments : List Part → List Text
fragments [] = []
fragments (blank pad ∷ parts) = fragments parts
fragments (comment pad s ∷ parts) = fragments parts
fragments (continued before f gap after ∷ parts) = text f ∷ fragments parts

-- A command over several lines, and the line that ends it.
pub record Command : Type 0 where
  pub parts : List Part
  pub before : Text
  pub last : Fragment
  pub after : Text

pub record IsCommand (c : Command) : Type 0 where
  pub spelled : All IsPart c.parts
  pub indent : IsBlank c.before
  pub ends : IsFragment c.last
  pub complete : c.last.final ≢ b'\\'
  pub padded : IsBlank c.after

abbrev pub last_line : Command → Text
last_line c = c.before ++ (text c.last ++ c.after)

-- The command on one line: its fragments with a space between two.
abbrev pub command_text : Command → Text
command_text c = join (codes " ") (fragments c.parts ++ text c.last ∷ [])

-- The lines of the commands, and lines behind them that complete no further one.
unfoldable pub script : List Command → List Part → List Text
script [] rest = map line_of rest
script (c ∷ cs) rest = map line_of c.parts ++ last_line c ∷ script cs rest

trim-Opens :
    (before s after : Text)
    → IsBlank before
    → IsBlank after
    → Opens s
    → rstrip is_space s ≡ s
    → trim (before ++ (s ++ after)) ≡ s
trim-Opens before [] after b a opens kept = absurd opens
trim-Opens before (c ∷ s) after b a opens kept = trim-padded before c s after b a opens.0 kept

Opens-append : (s t : Text) → Opens s → Opens (s ++ t)
Opens-append [] t h = absurd h
Opens-append (c ∷ s) t h = h

is_skipped-Opens : (s : Text) → Opens s → is_skipped s ≡ false
unfolding is_skipped
is_skipped-Opens [] h = absurd h
is_skipped-Opens (c ∷ s) h = ground arith

rstrip-text : (f : Fragment) → IsFragment f → rstrip is_space (text f) ≡ text f
rstrip-text f h =
    rstrip-append_kept is_space f.inside (f.final ∷ []) (λ e. cc)
      (rstrip-kept is_space (f.final ∷ []) (h.closes, tt))

-- A line with a backslash at its end, without the blanks round it.
abbrev goes_on : Fragment → Text → Text
goes_on f gap = text f ++ (gap ++ codes "\\")

is_continued-goes_on : (f : Fragment) (gap : Text) → is_continued (goes_on f gap) ≡ true
unfolding is_continued
is_continued-goes_on f gap =
    ap (λ s. ends_with s (codes "\\")) (sym (append_assoc (text f) gap (codes "\\")))
    ∙ ends_with-append (text f ++ gap) (codes "\\")

fragment_of-goes_on :
    (f : Fragment) (gap : Text) → IsFragment f → IsBlank gap → fragment_of (goes_on f gap) ≡ text f
unfolding fragment_of
fragment_of-goes_on f gap h b = rw (is_continued-goes_on f gap) (
    ap (λ s. rstrip is_space (without_last s)) (sym (append_assoc (text f) gap (codes "\\")))
    ∙ ap (rstrip is_space) (without_last-append (text f ++ gap) b'\\')
    ∙ rstrip-append_pad is_space (text f) gap b
    ∙ rstrip-text f h)

rstrip-goes_on : (f : Fragment) (gap : Text) → rstrip is_space (goes_on f gap) ≡ goes_on f gap
rstrip-goes_on f gap =
    rstrip-append_kept is_space (text f) (gap ++ codes "\\") (append_ne gap)
      (rstrip-append_kept is_space gap (codes "\\") (λ e. cc) (unfold rstrip is_space in refl))
  where
    append_ne : (s : Text) → s ++ codes "\\" ≢ []
    append_ne [] e = cc
    append_ne (c ∷ s) e = cc

is_continued-text : (f : Fragment) → f.final ≢ b'\\' → is_continued (text f) ≡ false
unfolding is_continued ends_with
is_continued-text f h = rw (reverse-append f.inside (f.final ∷ [])) (ground arith)

trim-blank : (pad : Text) → IsBlank pad → trim pad ≡ []
unfolding trim strip lstrip rstrip
trim-blank [] b = refl
trim-blank (c ∷ pad) (b, bs) = rw b (trim-blank pad bs)

is_skipped-blank : (pad : Text) → IsBlank pad → is_skipped (trim pad) ≡ true
is_skipped-blank pad b = rw (trim-blank pad b) (unfold is_skipped in refl)

is_skipped-comment : (pad s : Text) → IsBlank pad → is_skipped (trim (pad ++ b'#' ∷ s)) ≡ true
unfolding is_skipped trim strip rstrip is_space
is_skipped-comment pad s b = rw (lstrip-append is_space pad (b'#' ∷ s) b, lstrip) (ground arith)

-- Lines of parts only open fragments.
commands_from-parts :
    (opened : List Text) (parts : List Part) (lines : List Text)
    → All IsPart parts
    → commands_from opened (map line_of parts ++ lines)
      ≡ commands_from (opened ++ fragments parts) lines
unfolding commands_from read_line fragments line_of
commands_from-parts opened [] lines h = rw (append-nil opened) refl
commands_from-parts opened (blank pad ∷ parts) lines (b, h) =
    rw (is_skipped-blank pad b) (commands_from-parts opened parts lines h)
commands_from-parts opened (comment pad s ∷ parts) lines (b, h) =
    rw (is_skipped-comment pad s b) (commands_from-parts opened parts lines h)
commands_from-parts opened (continued before f gap after ∷ parts) lines ((b, k, g, a), h) =
    let opens = Opens-append (text f) (gap ++ codes "\\") k.opens in
    rw
      (
        trim-Opens before (goes_on f gap) after b a opens (rstrip-goes_on f gap),
        is_skipped-Opens (goes_on f gap) opens,
        is_continued-goes_on f gap,
        fragment_of-goes_on f gap k g,
      )
      (commands_from-parts (opened ++ text f ∷ []) parts lines h
        ∙ ap (λ open_ones. commands_from open_ones lines)
            (append_assoc opened (text f ∷ []) (fragments parts)))

commands_from-last :
    (opened : List Text) (c : Command) (lines : List Text)
    → IsCommand c
    → commands_from opened (last_line c ∷ lines)
      ≡ join (codes " ") (opened ++ text c.last ∷ []) ∷ commands_from [] lines
unfolding commands_from read_line fragment_of
commands_from-last opened c lines h =
    rw
      (
        trim-Opens c.before (text c.last) c.after h.indent h.padded h.ends.opens
            (rstrip-text c.last h.ends),
        is_skipped-Opens (text c.last) h.ends.opens,
        is_continued-text c.last h.complete,
        rstrip-text c.last h.ends,
      )
      refl

-- Of the lines of a script the reader finds its commands, each with its fragments joined by a space.
-- A command may stand on several lines, each but its last with a backslash at the end; comments and
-- blank lines may stand anywhere, also inside a command, and blanks round every line; what a
-- backslash leaves open behind the last command is none. A fragment neither begins nor ends with a
-- blank and does not begin with "#", and the last of a command does not end with a backslash.
pub commands_from-script :
    (cs : List Command) (rest : List Part)
    → All IsCommand cs
    → All IsPart rest
    → commands_from [] (script cs rest) ≡ map command_text cs
unfolding script
commands_from-script [] rest h k =
    ap (commands_from []) (sym (append-nil (map line_of rest)))
    ∙ commands_from-parts [] rest [] k
    ∙ (unfold commands_from in refl)
commands_from-script (c ∷ cs) rest (h, hs) k =
    commands_from-parts [] c.parts (last_line c ∷ script cs rest) h.spelled
    ∙ commands_from-last (fragments c.parts) c (script cs rest) h
    ∙ ap (λ ts. command_text c ∷ ts) (commands_from-script cs rest hs k)
