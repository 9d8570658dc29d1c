-- ===== src/Auth/Jwks.antt =====
-- crates/latiq-auth/src/jwks.rs: an issuer's signing keys, and when they are fetched. Times and
-- durations are nanoseconds. What the identity provider answers, and what `DecodingKey::from_jwk` makes
-- of a key, are arguments. Requests that miss queue on a lock: a `Visit` is one request's turn in
-- the queue, and its snapshot of the count of refreshes can be any earlier one.
pub mod Cache
pub mod Laws
mod Tests
use latiq.Prelude.{
  ℕ, String, suc, ◌+◌, ◌-◌, ◌*◌, ◌^◌, min, Bool, true, false, not, ◌||◌, List, [], ◌∷◌, ◌++◌,
  Option, none, some, eqb, ltb, leb, find, keep, take, length, ◌==◌, if◌then◌else◌, Result, ok, err,
  Option-cases,
}
use latiq.Prelude.Text.{Text, text_eq, codes, is_control, trim_end_while}

abbrev pub max_jwks_bytes : ℕ
max_jwks_bytes = 262_144

-- The greatest `Duration`, and the bound of `u32`.
abbrev pub max_duration : ℕ
max_duration = 18_446_744_073_709_551_615_999_999_999

abbrev pub max_u32 : ℕ
max_u32 = 4_294_967_295

unfoldable pub discover_uri : Text → Text
unfolding trim_end_while
discover_uri issuer =
    trim_end_while (λ c. eqb c b'/') issuer ++ codes "/protocol/openid-connect/certs"

unfoldable pub sanitize_kid : Text → Text
sanitize_kid kid = take 64 (keep (λ c. not (is_control c)) kid)

pub data Algorithm : Type 0 where
  hs256 hs384 hs512 es256 es384 rs256 rs384 rs512 ps256 ps384 ps512 eddsa : Algorithm

-- Why a token cannot be read.
pub data Malformed : Type 0 where
  too_long : ℕ → Malformed
  unreadable_header no_kid not_three_segments not_base64 not_claims no_issuer : Malformed

-- Why a configuration or a token is refused.
pub data Refusal : Type 0 where
  empty_audience no_issuers empty_issuer : Refusal
  repeated_issuer : Text → Refusal
  no_host bad_url insecure_url : Refusal
  bad_scheme : Text → Refusal
  bad_algorithm : Algorithm → Refusal
  algorithm_mismatch : Algorithm → Refusal
  unknown_issuer empty_subject : Refusal
  rejected : Text → Refusal

pub data AuthError : Type 0 where
  missing : AuthError
  malformed : Malformed → AuthError
  unknown_kid : Text → AuthError
  invalid : Refusal → AuthError
  jwks : String → AuthError

abbrev pub idp_unavailable : AuthError
idp_unavailable = jwks "identity provider JWKS endpoint unavailable"

abbrev pub document_too_large : AuthError
document_too_large = jwks "jwks document too large"

-- What a published key may say that it is for: a signature algorithm, or another one.
pub data KeyAlgorithm : Type 0 where
  k_hs256 k_hs384 k_hs512 k_es256 k_es384 k_rs256 k_rs384 k_rs512 k_ps256 k_ps384 k_ps512 k_eddsa :
      KeyAlgorithm
  k_other : String → KeyAlgorithm

unfoldable pub as_signing_alg : KeyAlgorithm → Option Algorithm
as_signing_alg k_hs256 = some hs256
as_signing_alg k_hs384 = some hs384
as_signing_alg k_hs512 = some hs512
as_signing_alg k_es256 = some es256
as_signing_alg k_es384 = some es384
as_signing_alg k_rs256 = some rs256
as_signing_alg k_rs384 = some rs384
as_signing_alg k_rs512 = some rs512
as_signing_alg k_ps256 = some ps256
as_signing_alg k_ps384 = some ps384
as_signing_alg k_ps512 = some ps512
as_signing_alg k_eddsa = some eddsa
as_signing_alg (k_other name) = none

pub data KeyUse : Type 0 where
  signature encryption : KeyUse
  other_use : String → KeyUse

-- A key as it is published; `decoded` is what `DecodingKey::from_jwk` makes of it.
pub record Jwk (Key : Type 0) : Type 0 where
  pub key_id : Option Text
  pub public_key_use : Option KeyUse
  pub key_algorithm : Option KeyAlgorithm
  pub decoded : Option Key

pub record SigningKey (Key : Type 0) : Type 0 where
  pub key : Key
  pub alg : Option Algorithm

-- What a declared algorithm leaves of a key: `none` to skip it.
unfoldable pub declared_alg : Option KeyAlgorithm → Option (Option Algorithm)
declared_alg none = some none
declared_alg (some a) = elim (as_signing_alg a) [ none ↦ none | some alg ↦ some (some alg) ]

abbrev pub is_encryption : Option KeyUse → Bool
is_encryption (some encryption) = true
is_encryption _ = false

-- What the server sends: no answer, or a status, perhaps a length, the body in pieces until it ends or
-- breaks off.
pub data Body : Type 0 where
  ends breaks : Body
  chunk : List ℕ → Body → Body

pub data Answer : Type 0 where
  unreachable : Answer
  response : (is_success : Bool) → (content_length : Option ℕ) → Body → Answer

-- The loop on `chunk()`.
unfoldable pub read_body : List ℕ → Body → Result AuthError (List ℕ)
read_body body ends = ok body
read_body body breaks = err idp_unavailable
read_body body (chunk c rest) =
    let more = read_body (body ++ c) rest in
    if ltb max_jwks_bytes (length body + length c) then err document_too_large else more

abbrev is_too_long : Option ℕ → Bool
is_too_long none = false
is_too_long (some n) = ltb max_jwks_bytes n

infixl 1 ◌>>=◌
◌>>=◌ {ℓ κ} : {A : Type ℓ} {B : Type κ} → Option A → (A → Option B) → Option B
none >>= f = none
some a >>= f = f a

module _ {Key : Type 0} where
  -- A `HashMap` of keys, by kid.
  unfoldable pub get : Text → List (Text × SigningKey Key) → Option (SigningKey Key)
  get kid [] = none
  get kid ((k, key) ∷ rest) = let later = get kid rest in if k == kid then some key else later

  -- One turn of the loop of `refresh_inner`: what enters the new map, if anything does.
  unfoldable pub import_key : Jwk Key → Option (Text × SigningKey Key)
  unfolding ◌>>=◌ declared_alg
  import_key jwk = do
    kid ← jwk.key_id
    alg ← if is_encryption jwk.public_key_use then none else declared_alg jwk.key_algorithm
    key ← jwk.decoded
    some (kid, record { key = key; alg = alg })

  -- The whole loop; a later key of the same kid takes the earlier one's place.
  unfoldable pub import_keys :
      List (Text × SigningKey Key) → List (Jwk Key) → List (Text × SigningKey Key)
  unfolding import_key
  import_keys fresh [] = fresh
  import_keys fresh (jwk ∷ set) = elim (import_key jwk) [
    | none ↦ import_keys fresh set
    | some entry ↦ import_keys (entry ∷ fresh) set
  ]
