-- ===== src/Mock/Request.antt =====
-- What the handler reads of a request: the path of its target, its headers and its body.
-- A target is in origin form, "/path?query", as clients of a server send it, with no second slash
-- in front: `http.server` folds those into one.
use project_charybdis.Base.{
  ℕ, ◌==◌, Bool, true, false, not, ◌&&◌, ◌||◌, Option, none, some, List, [], ◌∷◌, Text, codes,
  text_eq, contains_text, rstrip, take, ℤ, pos, negsuc, Result, ok, if◌then◌else◌,
}
use project_charybdis.Base.Errors.{◌>>=◌}
use project_charybdis.Json.{Json, null, int_of_text}

pub record Request : Type 0 where
  pub target : Text
  pub content_type : Option Text
  pub content_length : Option Text
  -- All that the client sends after the headers.
  pub stream : List ℕ

-- `url.split(c, 1)[0]`
unfoldable pub before : ℕ → Text → Text
before c [] = []
before c (d ∷ s) = if d == c then [] else d ∷ before c s

unfoldable pub has_char : ℕ → Text → Bool
has_char c [] = false
has_char c (d ∷ s) = d == c || has_char c s

-- `_splitparams`: the first semicolon behind the last slash and what follows it go.
unfoldable pub without_params : Text → Text
without_params [] = []
without_params (c ∷ s) = if c == b';' && not (has_char b'/' s) then [] else c ∷ without_params s

-- `urlparse(target).path`: the fragment, the query and the parameters are cut off.
unfoldable pub urlparse_path : Text → Text
urlparse_path target = without_params (before b'?' (before b'#' target))

abbrev pub is_slash : ℕ → Bool
is_slash c = c == b'/'

-- `urlparse(self.path).path.rstrip("/")`
unfoldable pub route_path : Request → Text
route_path req = rstrip is_slash (urlparse_path req.target)

-- `self.headers.get("Content-Type", "")`
unfoldable pub content_type_of : Request → Text
content_type_of req = elim req.content_type [ none ↦ [] | some ct ↦ ct ]

unfoldable pub is_json : Text → Bool
is_json content_type =
    contains_text content_type (codes "application/json") || text_eq content_type []

-- `int(self.headers.get("Content-Length", 0))`
unfoldable pub declared_length : Option Text → Result ℤ
declared_length none = ok (pos 0)
declared_length (some s) = int_of_text s

-- `rfile.read(length)` if the length is not 0; a negative one reads up to the end.
unfoldable pub read_body : ℤ → List ℕ → List ℕ
read_body (pos n) stream = take n stream
read_body (negsuc n) stream = stream

abbrev pub parsed_or_null : Option Json → Json
parsed_or_null none = null
parsed_or_null (some v) = v

-- What is read of the body, and whether it is empty. The first is `None` for an empty body, for
-- one that `loads`, Python's `json.loads`, refuses, and for the JSON text `null`.
abbrev pub decoded : (List ℕ → Option Json) → List ℕ → Json × Bool
decoded loads [] = (null, true)
decoded loads (c ∷ raw) = (parsed_or_null (loads (c ∷ raw)), false)

unfoldable pub parse_body : (List ℕ → Option Json) → Request → Result (Json × Bool)
parse_body loads req = do
  length ← declared_length req.content_length
  ok (decoded loads (read_body length req.stream))
