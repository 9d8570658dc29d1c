-- ===== src/Auth/Verify.antt =====
-- crates/latiq-auth/src/verify.rs: the checks of a configuration and of a token. What jsonwebtoken, base64,
-- serde_json and url do is an argument: the reading of a header, of a payload and of its claims, the check of a
-- token against a key, and the parts of a URL.
pub mod Laws
pub mod Token
mod Tests
use latiq.Prelude.{
  ℕ, Bool, true, false, not, ◌||◌, map, List, [], ◌∷◌, ◌++◌, Option, none, some, any, find, eqb,
  ltb, ◌==◌, if◌then◌else◌, Result, ok, err, ◌>>=◌, ◌>>◌, refuse_if, ok_or,
}
use latiq.Prelude.Text.{
  Text, text_eq, codes, is_empty, len, trim, split, ascii_lower, strip_prefix, starts_with,
  split_once,
}
use latiq.Auth.Jwks.{
  AuthError, invalid, empty_audience, no_issuers, empty_issuer, repeated_issuer, no_host, bad_url,
  insecure_url, bad_scheme, discover_uri,
}

pub record IssuerConfig : Type 0 where
  pub issuer : Text
  pub jwks_uri : Option Text

abbrev pub is_nil : List IssuerConfig → Bool
is_nil [] = true
is_nil (i ∷ rest) = false

pub record AuthConfig : Type 0 where
  pub audience : Text
  pub issuers : List IssuerConfig
  pub allow_insecure_jwks : Bool

-- A host as the library parses it: of an address, whether it is the loopback one; of an IPv6 address also
-- whether it is mapped to an IPv4 one that is.
pub data Host : Type 0 where
  domain : Text → Host
  ipv4 : (loopback : Bool) → Host
  ipv6 : (loopback mapped_loopback : Bool) → Host

pub record Url : Type 0 where
  pub scheme : Text
  pub host : Option Host
  pub normal : Text

unfoldable pub is_loopback : Option Host → Bool
is_loopback none = false
is_loopback (some (domain name)) = map ascii_lower name == codes "localhost"
is_loopback (some (ipv4 loopback)) = loopback
is_loopback (some (ipv6 loopback mapped_loopback)) = loopback || mapped_loopback

module _ (parse_url : Text → Option Url) where
  -- The look at the raw text: a scheme must be followed by two slashes and a host.
  unfoldable pub has_empty_host : Option (Text × Text) → Bool
  has_empty_host none = false
  has_empty_host (some (scheme, rest)) = elim (strip_prefix rest (codes "//")) [
    | none ↦ true
    | some authority ↦ starts_with authority (codes "/")
  ]

  unfoldable pub checked_scheme : Bool → Url → Result AuthError Text
  unfolding is_loopback
  checked_scheme allow_insecure url =
      if url.scheme == codes "https"
      then ok url.normal
      else if url.scheme == codes "http"
      then if is_loopback url.host || allow_insecure
        then ok url.normal
        else err (invalid insecure_url)
      else err (invalid (bad_scheme url.scheme))

  unfoldable pub checked_jwks_uri : Text → Bool → Result AuthError Text
  unfolding has_empty_host checked_scheme
  checked_jwks_uri uri allow_insecure = do
    refuse_if (has_empty_host (split_once uri (codes ":"))) (invalid no_host)
    url ← ok_or (parse_url uri) (invalid bad_url)
    checked_scheme allow_insecure url

  -- The address that an issuer's keys are asked for at.
  unfoldable pub uri_of : (name : Text) → Option Text → Text
  uri_of name none = discover_uri name
  uri_of name (some u) = if is_empty (trim u) then discover_uri name else trim u

  -- The loop over the configured issuers; `known` are the names before.
  unfoldable pub check_issuers :
      (known : List Text) → Bool → List IssuerConfig → Result AuthError (List (Text × Text))
  unfolding checked_jwks_uri uri_of
  check_issuers known allow [] = ok []
  check_issuers known allow (i ∷ rest) =
      let later = check_issuers (known ++ trim i.issuer ∷ []) allow rest in
      do
        refuse_if (is_empty (trim i.issuer)) (invalid empty_issuer)
        refuse_if (any (λ k. k == trim i.issuer) known) (invalid (repeated_issuer (trim i.issuer)))
        uri ← checked_jwks_uri (uri_of (trim i.issuer) i.jwks_uri) allow
        more ← later
        ok ((trim i.issuer, uri) ∷ more)

  -- `Verifier::new`: the audience and, for each issuer, its name and the address of its keys.
  unfoldable pub configure : AuthConfig → Result AuthError (Text × List (Text × Text))
  unfolding check_issuers
  configure cfg = do
    refuse_if (is_empty (trim cfg.audience)) (invalid empty_audience)
    refuse_if (is_nil cfg.issuers) (invalid no_issuers)
    found ← check_issuers [] cfg.allow_insecure_jwks cfg.issuers
    ok (trim cfg.audience, found)
