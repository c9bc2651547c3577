-- ===== src/Client/Url.antt =====
-- The constructor of `HttpTestClient` in src/http_test_client.cpp: the timeouts are checked, and the
-- host and the port are read of the base URL. `httplib::Client`, which it creates with them, is not
-- modelled.
pub mod Laws
use project_charybdis.Base.{
  ℕ, ◌+◌, ◌*◌, ◌-◌, ◌==◌, ltb, Bool, true, false, not, ◌&&◌, ◌||◌, Option, none, some, [], ◌∷◌,
  Text, codes, starts_with, is_digit, drop, all, ℤ, pos, negsuc, leb_int, if◌then◌else◌,
}
use project_charybdis.Client.Errors.{Returned, returns, throws, runtime_error, ◌>>=◌, ◌>>◌}

pub record TimeoutConfig : Type 0 where
  pub connection_timeout_sec : ℤ
  pub read_timeout_sec : ℤ

pub record HostPort : Type 0 where
  pub host : Text
  pub port : ℕ

-- `localhost`, port 8080
abbrev pub default_host_port : HostPort
default_host_port = record { host = codes "localhost"; port = 8080 }

-- `([^:]+):(.*)`: the text in front of the first colon, which is not empty, and the one behind.
unfoldable pub at_colon : Text → Option (Text × Text)
at_colon [] = none
at_colon (c ∷ s) =
    if c == b':'
    then some ([], s)
    else (elim (at_colon s) [ none ↦ none | some m ↦ some (c ∷ m.0, m.1) ])

-- `[^:]+` and `\d+` match at least one character.
abbrev pub matched : Text → Text → Option (Text × Text)
matched [] ds = none
matched (c ∷ host) [] = none
matched (c ∷ host) (d ∷ ds) = if all is_digit (d ∷ ds) then some (c ∷ host, d ∷ ds) else none

-- Behind `https?://`
unfoldable pub authority_match : Text → Option (Text × Text)
unfolding is_digit
authority_match s = elim (at_colon s) [ none ↦ none | some m ↦ matched m.0 m.1 ]

-- `std::regex_match` with `https?://([^:]+):(\d+)`
unfoldable pub url_match : Text → Option (Text × Text)
url_match url =
    if starts_with url (codes "http://")
    then authority_match (drop 7 url)
    else if starts_with url (codes "https://")
    then authority_match (drop 8 url)
    else none

-- The number that digits spell behind `n`.
abbrev pub value : ℕ → Text → ℕ
value n [] = n
value n (c ∷ ds) = value (n * 10 + (c - b'0')) ds

-- The largest `int`.
abbrev pub max_int : ℕ
max_int = 2147483647

-- `std::stoi` of digits; above `max_int` it throws `std::out_of_range`, which the constructor turns
-- into a `std::runtime_error`.
unfoldable pub stoi_digits : Text → Returned ℕ
stoi_digits ds = if ltb max_int (value 0 ds) then throws runtime_error else returns (value 0 ds)

unfoldable pub host_port : Text → Returned HostPort
host_port url = elim (url_match url) [
  | none ↦ returns default_host_port
  | some m ↦ stoi_digits m.1 >>= λ port.
      if ltb port 1 || ltb 65535 port
      then throws runtime_error
      else returns (record { host = m.0; port = port })
]

unfoldable pub http_test_client : Text → TimeoutConfig → Returned HostPort
http_test_client base_url timeouts =
    if not (leb_int (pos 0) timeouts.connection_timeout_sec)
    then throws runtime_error
    else if not (leb_int (pos 0) timeouts.read_timeout_sec)
    then throws runtime_error
    else host_port base_url
