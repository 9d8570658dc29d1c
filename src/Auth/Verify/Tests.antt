-- ===== src/Auth/Verify/Tests.antt =====
-- Addresses of keys on small inputs.
use latiq.Prelude.{List, [], ◌∷◌, All, Bool, false, Option, none, some, ok}
use latiq.Prelude.Text.{Text, text_eq, codes, is_empty, trim}
use latiq.Auth.Verify.{AuthConfig, Url, domain}

abbrev local_url : Url
local_url = record {
  scheme = codes "http";
  host = some (domain (codes "LocalHost"));
  normal = codes "http://localhost/jwks";
}

abbrev parse_url : Text → Option Url
parse_url t = some local_url

abbrev config : AuthConfig
config = record {
  audience = codes " latiq";
  issuers = record { issuer = codes "idp "; jwks_uri = some (codes "http://LocalHost/jwks") } ∷ [];
  allow_insecure_jwks = false;
}
