-- ===== src/Client/Url/Laws.antt =====
-- Which base URLs the constructor takes, and as what.
use project_charybdis.Base.{
  ◌≡◌, ◌≢◌, ◌⊎◌, ◌&&◌, inl, inr, refl, ◌∙◌, ℕ, ◌≤◌, true, leb, some, [], ◌∷◌, ◌++◌, Text, codes,
  starts_with, is_digit, all, All, pos, ◌≤ℤ◌, leb_int_iff, arith, if◌then◌else◌,
}
use project_charybdis.Client.Errors.{Returned, returns, throws, runtime_error}
use project_charybdis.Client.Url.{
  TimeoutConfig, HostPort, at_colon, matched, authority_match, url_match, value, stoi_digits,
  host_port, http_test_client,
}

-- Whatever the URL, a client that is constructed has a port from 1 to 65535 and timeouts that are
-- not negative.
pub http_test_client-IsInRange :
    (url : Text) (timeouts : TimeoutConfig) (r : HostPort)
    → http_test_client url timeouts ≡ returns r
    → (1 ≤ r.port)
      × (r.port ≤ 65535)
      × (pos 0 ≤ℤ timeouts.connection_timeout_sec)
      × (pos 0 ≤ℤ timeouts.read_timeout_sec)
unfolding http_test_client host_port stoi_digits
http_test_client-IsInRange url timeouts r made = ground (
  arith,
  leb_int_iff (pos 0) timeouts.connection_timeout_sec,
  leb_int_iff (pos 0) timeouts.read_timeout_sec,
)

at_colon-append :
    (host s : Text) → All (λ c. c ≢ b':') host → at_colon (host ++ b':' ∷ s) ≡ some (host, s)
unfolding at_colon
at_colon-append [] s h = refl
at_colon-append (c ∷ host) s (h, hs) = rw (at_colon-append host s hs) (ground arith)

abbrev pub IsDigits : Text → Type 0
IsDigits ds = (ds ≢ []) × (all is_digit ds ≡ true)

-- A host without a colon.
abbrev pub IsHost : Text → Type 0
IsHost host = (host ≢ []) × All (λ c. c ≢ b':') host

abbrev pub IsScheme : Text → Type 0
IsScheme s = (s ≡ codes "http://") ⊎ (s ≡ codes "https://")

-- The port that digits name: their value, where it is one.
abbrev pub with_port : Text → ℕ → Returned HostPort
with_port host n =
    if leb 1 n && leb n 65535
    then returns (record { host = host; port = n })
    else throws runtime_error

authority_match_at :
    (s host ds : Text) → at_colon s ≡ some (host, ds) → authority_match s ≡ matched host ds
unfolding authority_match
authority_match_at s host ds e = rw (e, authority_match) refl

matched-whole : (host ds : Text) → IsHost host → IsDigits ds → matched host ds ≡ some (host, ds)
matched-whole [] ds h d = absurd (h.0 refl)
matched-whole (c ∷ host) [] h d = absurd (d.0 refl)
matched-whole (c ∷ host) (e ∷ ds) h d = rw d.1 refl

authority_match-written :
    (host ds : Text)
    → IsHost host
    → IsDigits ds
    → authority_match (host ++ b':' ∷ ds) ≡ some (host, ds)
authority_match-written host ds h d =
    authority_match_at (host ++ b':' ∷ ds) host ds (at_colon-append host ds h.1)
    ∙ matched-whole host ds h d

url_match-written :
    (scheme host ds : Text)
    → IsScheme scheme
    → IsHost host
    → IsDigits ds
    → url_match (scheme ++ host ++ b':' ∷ ds) ≡ some (host, ds)
unfolding url_match starts_with
url_match-written scheme host ds (inl s) h d = rw s (authority_match-written host ds h d)
url_match-written scheme host ds (inr s) h d = rw s (authority_match-written host ds h d)

host_port-written :
    (scheme host ds : Text)
    → IsScheme scheme
    → IsHost host
    → IsDigits ds
    → host_port (scheme ++ host ++ b':' ∷ ds) ≡ with_port host (value 0 ds)
unfolding host_port stoi_digits
host_port-written scheme host ds s h d =
    rw (url_match-written scheme host ds s h d, host_port) (ground arith)

-- A URL of a scheme, a host without a colon and digits, with timeouts that are not negative: the
-- client has this host, and the port that the digits spell, leading zeros included, if it lies
-- between 1 and 65535. Otherwise the constructor throws `std::runtime_error`, also where the number
-- is no `int`.
pub http_test_client-written :
    (scheme host ds : Text) (timeouts : TimeoutConfig)
    → IsScheme scheme
    → IsHost host
    → IsDigits ds
    → pos 0 ≤ℤ timeouts.connection_timeout_sec
    → pos 0 ≤ℤ timeouts.read_timeout_sec
    → http_test_client (scheme ++ host ++ b':' ∷ ds) timeouts ≡ with_port host (value 0 ds)
unfolding http_test_client
http_test_client-written scheme host ds timeouts s h d connects reads =
    rw
      (
        (leb_int_iff (pos 0) timeouts.connection_timeout_sec).1 connects,
        (leb_int_iff (pos 0) timeouts.read_timeout_sec).1 reads,
      )
      (host_port-written scheme host ds s h d)
