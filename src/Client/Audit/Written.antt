-- ===== src/Client/Audit/Written.antt =====
-- What is written to the audit log, and where.
use project_charybdis.Base.{
  ◌≡◌, ◌≢◌, inl, inr, refl, sym, ◌∙◌, All-map_implies, Bool, true, false, Bool-cases, Option-cases,
  some, none, List, [], ◌∷◌, ◌++◌, Text, codes, text_eq, text_eq_iff, split_on, any, All, ℤ, arith,
  if◌then◌else◌,
}
use project_charybdis.Json.{Json, str, obj, Fields, get}
use project_charybdis.Client.Errors.{Returned, returns}
use project_charybdis.Client.Subject.{Environment}
use project_charybdis.Client.Calls.{text_member}
use project_charybdis.Client.Audit.{
  write_line, log_inject, fault_record, current_requester, goes_to_stderr, audit_path,
}

-- A body that is an object whose "id" is a text or missing.
pub data HasFaultId : Json → Text → Type 0 where
  given :
      {d : Fields} {v : Json} {id : Text}
      → v ≡ obj d
      → get (codes "id") d ≡ some (str id)
      → HasFaultId v id
  missing : {d : Fields} {v : Json} → v ≡ obj d → get (codes "id") d ≡ none → HasFaultId v []

text_member-given :
    (d : Fields) (id : Text)
    → get (codes "id") d ≡ some (str id)
    → text_member (codes "id") (obj d) ≡ returns id
unfolding text_member
text_member-given d id e = rw (e, text_member) refl

text_member-missing :
    (d : Fields) → get (codes "id") d ≡ none → text_member (codes "id") (obj d) ≡ returns []
unfolding text_member
text_member-missing d e = rw (e, text_member) refl

text_member-HasFaultId :
    (body : Json) (id : Text) → HasFaultId body id → text_member (codes "id") body ≡ returns id
text_member-HasFaultId body id (given {d} o e) = rw o (text_member-given d id e)
text_member-HasFaultId body id (missing {d} o e) = rw o (text_member-missing d e)

any-false-All :
    {A : Type 0} (p : A → Bool) (xs : List A) → any p xs ≡ false → All (λ x. p x ≡ false) xs
any-false-All p [] h = tt
any-false-All p (x ∷ xs) h = (ground arith, any-false-All p xs (ground arith))

not_parent : (part : Text) → text_eq (codes "..") part ≡ false → part ≢ codes ".."
not_parent part differs same = cc (differs, (text_eq_iff (codes "..") part).1 (sym same))

not_stderr-parts :
    (dest : Text)
    → goes_to_stderr dest ≡ false
    → All (λ part. part ≢ codes "..") (split_on b'/' dest)
unfolding goes_to_stderr
not_stderr-parts dest h =
    All-map_implies (λ part. text_eq (codes "..") part ≡ false) (λ part. part ≢ codes "..")
      not_parent (split_on b'/' dest)
      (any-false-All (text_eq (codes "..")) (split_on b'/' dest) (ground arith))

unset-path :
    (env : Environment) (opens : Text → Bool)
    → env.getenv (codes "CHAOS_AUDIT_LOG") ≡ none
    → audit_path env opens ≡ []
unfolding audit_path
unset-path env opens e = rw (e, audit_path) refl

set-path :
    (env : Environment) (opens : Text → Bool) (dest : Text)
    → env.getenv (codes "CHAOS_AUDIT_LOG") ≡ some dest
    → audit_path env opens ≡ (if goes_to_stderr dest then [] else if opens dest then dest else [])
unfolding audit_path
set-path env opens dest e = rw (e, audit_path) refl

-- The log goes to a file only where the environment names it, no part of its path is "..", and it
-- can be opened.
pub audit_path-IsSafe :
    (env : Environment) (opens : Text → Bool)
    → audit_path env opens ≢ []
    → (env.getenv (codes "CHAOS_AUDIT_LOG") ≡ some (audit_path env opens))
      × (opens (audit_path env opens) ≡ true)
      × All (λ part. part ≢ codes "..") (split_on b'/' (audit_path env opens))
audit_path-IsSafe env opens named = elim (Option-cases (env.getenv (codes "CHAOS_AUDIT_LOG"))) [
  | inl unset ↦ absurd (named (unset-path env opens unset))
  | inr (dest, e) ↦
      let chosen = set-path env opens dest e in
      elim (Bool-cases (goes_to_stderr dest)) [
        | inl refused ↦ absurd (named (chosen ∙ rw refused refl))
        | inr accepted ↦ elim (Bool-cases (opens dest)) [
          | inr closed ↦ absurd (named (chosen ∙ rw (accepted, closed) refl))
          | inl open_there ↦
              let same : audit_path env opens ≡ dest = chosen ∙ rw (accepted, open_there) refl in
              rw same (e, open_there, not_stderr-parts dest accepted)
        ]
      ]
]

-- An injection whose answer is an object with a text as its "id", or with none, is written as one
-- line, behind the lines that are there, with this identifier or the empty one.
pub log_inject-written :
    (env : Environment) (dump : Json → Returned Text) (timestamp fault_type target id line : Text)
    (status : ℤ) (body : Json) (lines : List Text)
    → HasFaultId body id
    → dump (
        fault_record timestamp
          (codes "inject")
          fault_type
          id
          target
          status
          (current_requester env)
          body)
      ≡ returns line
    → log_inject env dump timestamp fault_type target status body lines
      ≡ (returns tt, lines ++ line ∷ [])
unfolding log_inject write_line
log_inject-written env dump timestamp fault_type target id line status body lines h d =
    rw (text_member-HasFaultId body id h, log_inject) (rw (d, write_line) refl)
