-- ===== src/Mock/Routes.antt =====
-- The path that a target is routed by: what the stub cuts off a target, and what it does not.
use project_charybdis.Base.{
  ◌≡◌, ◌≢◌, refl, ℕ, Bool, true, [], ◌∷◌, ◌++◌, Text, codes, rstrip, split_on, split_on-append, All,
  All-append, arith,
}
use project_charybdis.Mock.Handler.{team_of_path}
use project_charybdis.Mock.Request.{
  Request, before, without_params, urlparse_path, is_slash, route_path,
}

-- No query, fragment or parameters.
abbrev pub IsPlain : Text → Type 0
IsPlain s = All (λ c. (c ≢ b'?') × (c ≢ b'#') × (c ≢ b';')) s

before-plain : (c : ℕ) (s : Text) → All (λ d. d ≢ c) s → before c s ≡ s
unfolding before
before-plain c [] h = refl
before-plain c (d ∷ s) h = ground (arith, before-plain c s)

without_params-plain : (s : Text) → All (λ d. d ≢ b';') s → without_params s ≡ s
unfolding without_params
without_params-plain [] h = refl
without_params-plain (d ∷ s) h = ground (arith, without_params-plain s)

before-append : (c : ℕ) (s t : Text) → All (λ d. d ≢ c) s → before c (s ++ c ∷ t) ≡ s
unfolding before
before-append c [] t h = ground arith
before-append c (d ∷ s) t h = ground (arith, before-append c s t)

before-append_plain :
    (c : ℕ) (s t : Text) → All (λ d. d ≢ c) s → before c (s ++ t) ≡ s ++ before c t
unfolding before
before-append_plain c [] t h = refl
before-append_plain c (d ∷ s) t h = ground (arith, before-append_plain c s t)

rstrip-append_one :
    (p : ℕ → Bool) (s : Text) (c : ℕ) → p c ≡ true → rstrip p (s ++ c ∷ []) ≡ rstrip p s
unfolding rstrip
rstrip-append_one p [] c h = rw h refl
rstrip-append_one p (d ∷ s) c h = rw (rstrip-append_one p s c h) refl

plain_parts :
    (s : Text) → IsPlain s → All (λ d. d ≢ b'?') s × All (λ d. d ≢ b'#') s × All (λ d. d ≢ b';') s
plain_parts [] h = (tt, tt, tt)
plain_parts (c ∷ s) (h, hs) = let (a, b, d) = plain_parts s hs in ((h.0, a), (h.1, b), (h.2, d))

route_path_of_target :
    (req : Request) (t : Text) → req.target ≡ t → route_path req ≡ rstrip is_slash (urlparse_path t)
unfolding route_path
route_path_of_target req t e = rw e refl

urlparse_path-plain : (s : Text) → IsPlain s → urlparse_path s ≡ s
unfolding urlparse_path
urlparse_path-plain s h =
    let (a, b, d) = plain_parts s h in
    rw (before-plain b'#' s b, before-plain b'?' s a) (without_params-plain s d)

before-query : (q : Text) → before b'#' (b'?' ∷ q) ≡ b'?' ∷ before b'#' q
unfolding before
before-query q = refl

urlparse_path-query : (s q : Text) → IsPlain s → urlparse_path (s ++ b'?' ∷ q) ≡ s
unfolding urlparse_path
urlparse_path-query s q h =
    let (a, b, d) = plain_parts s h in
    rw
      (
        before-append_plain b'#' s (b'?' ∷ q) b,
        before-query q,
        before-append b'?' s (before b'#' q) a,
      )
      (without_params-plain s d)

-- A path with no "?", "#" or ";" is routed the same with a slash behind it, and with any query.
pub route_path_same :
    (req slashed queried : Request) (p q : Text)
    → IsPlain p
    → req.target ≡ p
    → slashed.target ≡ p ++ b'/' ∷ []
    → queried.target ≡ p ++ b'?' ∷ q
    → (route_path slashed ≡ route_path req) × (route_path queried ≡ route_path req)
route_path_same req slashed queried p q plain e f g =
    rw
      (
        route_path_of_target slashed _ f,
        route_path_of_target req p e,
        route_path_of_target queried _ g,
      )
      (rw
        (
          urlparse_path-plain p plain,
          urlparse_path-query p q plain,
          urlparse_path-plain (p ++ b'/' ∷ []) longer,
        )
        (rstrip-append_one is_slash p b'/' refl, refl))
  where
    longer : IsPlain (p ++ b'/' ∷ [])
    longer = All-append _ p (b'/' ∷ []) plain (omega arith)

-- The segments of a path.
abbrev pub HasNoSlash : Text → Type 0
HasNoSlash s = All (λ c. c ≢ b'/') s

-- The task route finds the identifier that stands between "/v1/teams/" and "/tasks".
pub team_of_path-route :
    (id : Text) → HasNoSlash id → team_of_path (codes "/v1/teams/" ++ id ++ codes "/tasks") ≡ id
unfolding team_of_path split_on
team_of_path-route id h = rw (split_on-append b'/' id (codes "tasks") h) refl
