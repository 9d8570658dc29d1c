-- ===== src/Auth/Verify/Token.antt =====
-- crates/latiq-auth/src/verify.rs: `verify`, the checks of one token.
pub mod Laws
mod Tests
use latiq.Prelude.{
  ℕ, Bool, true, false, not, List, [], ◌∷◌, Option, none, some, any, find, eqb, ltb, ◌==◌,
  if◌then◌else◌, Result, ok, err, ◌>>=◌, ◌>>◌, refuse_if, ok_or,
}
use latiq.Prelude.Text.{Text, text_eq, is_empty, len, trim, split}
use latiq.Common.Identity.{Identity, verified_identity}
use latiq.Auth.Jwks.{
  AuthError, missing, malformed, invalid, too_long, unreadable_header, no_kid, not_three_segments,
  not_base64, not_claims, no_issuer, bad_algorithm, algorithm_mismatch, unknown_issuer,
  empty_subject, rejected, Algorithm, hs256, hs384, hs512, es256, es384, rs256, rs384, rs512, ps256,
  ps384, ps512, eddsa, Jwk, SigningKey, Answer,
}
use latiq.Auth.Jwks.Cache.{Config, JwksCache, key_for}

abbrev pub allowed_algs : List Algorithm
allowed_algs = rs256 ∷ rs384 ∷ rs512 ∷ ps256 ∷ ps384 ∷ ps512 ∷ es256 ∷ es384 ∷ eddsa ∷ []

abbrev pub max_token_bytes : ℕ
max_token_bytes = 8_192

abbrev pub clock_skew_leeway_secs : ℕ
clock_skew_leeway_secs = 30

-- The derived equality of `Algorithm`.
abbrev number : Algorithm → ℕ
number hs256 = 0
number hs384 = 1
number hs512 = 2
number es256 = 3
number es384 = 4
number rs256 = 5
number rs384 = 6
number rs512 = 7
number ps256 = 8
number ps384 = 9
number ps512 = 10
number eddsa = 11

abbrev pub same_alg : Algorithm → Algorithm → Bool
same_alg a b = eqb (number a) (number b)

pub record Header : Type 0 where
  pub alg : Algorithm
  pub kid : Option Text

-- What is pinned for the check of a token; `nbf` is checked, and exp, aud, iss and sub are required, always.
pub record Validation : Type 0 where
  pub alg : Algorithm
  pub leeway : ℕ
  pub audience : Text
  pub issuer : Text

-- The state of a verifier: its audience, and a cache for each issuer.
pub record Verifier (Key : Type 0) : Type 0 where
  pub audience : Text
  pub caches : List (Text × JwksCache Key)

-- What the libraries do with a token: its header; the bytes of a payload; the issuer that the payload claims,
-- if it parses; and the check against a key, which answers with the subject if there is one.
pub record Library (Key : Type 0) : Type 0 where
  pub decode_header : Text → Option Header
  pub decode_payload : Text → Option (List ℕ)
  pub read_issuer : List ℕ → Option (Option Text)
  pub decode : Text → Key → Validation → Result Text (Option Text)
  pub from_slice : List ℕ → Option (List (Jwk Key))

-- The times and the answer of a fetch, if one becomes due.
pub record Moment : Type 0 where
  pub now : ℕ
  pub entered : ℕ
  pub finished : ℕ
  pub answer : Answer

-- A token that has passed the checks before the lookup of its key.
pub record Admitted : Type 0 where
  pub token : Text
  pub alg : Algorithm
  pub kid : Text
  pub claimed_issuer : Text

abbrev or_empty : Option Text → Text
or_empty none = []
or_empty (some s) = s

abbrev may_use : Option Algorithm → Algorithm → Bool
may_use none alg = true
may_use (some declared) alg = same_alg declared alg

abbrev as_rejected : Result Text (Option Text) → Result AuthError (Option Text)
as_rejected (ok subject) = ok subject
as_rejected (err why) = err (invalid (rejected why))

module _ {Key : Type 0} (lib : Library Key) (config : Config) where
  unfoldable pub payload_of : List Text → Result AuthError Text
  payload_of (header ∷ payload ∷ sig ∷ []) = ok payload
  payload_of _ = err (malformed not_three_segments)

  unfoldable pub unverified_issuer : Text → Result AuthError Text
  unfolding payload_of
  unverified_issuer token = do
    payload ← payload_of (split (λ c. eqb c b'.') token)
    bytes ← ok_or (lib.decode_payload payload) (malformed not_base64)
    claims ← ok_or (lib.read_issuer bytes) (malformed not_claims)
    ok_or claims (malformed no_issuer)

  unfoldable pub admit : Text → Result AuthError Admitted
  unfolding unverified_issuer
  admit raw = do
    refuse_if (is_empty (trim raw)) missing
    refuse_if (ltb max_token_bytes (len (trim raw))) (malformed (too_long (len (trim raw))))
    header ← ok_or (lib.decode_header (trim raw)) (malformed unreadable_header)
    refuse_if (not (any (same_alg header.alg) allowed_algs)) (invalid (bad_algorithm header.alg))
    kid ← ok_or header.kid (malformed no_kid)
    claimed_issuer ← unverified_issuer (trim raw)
    ok (record { token = trim raw; alg = header.alg; kid = kid; claimed_issuer = claimed_issuer })

  -- The checks once the key is known.
  unfoldable pub attest :
      (audience : Text) → Admitted → Option Text → SigningKey Key → Result AuthError Identity
  attest audience a claimed_agent key = do
    refuse_if (not (may_use key.alg a.alg)) (invalid (algorithm_mismatch a.alg))
    subject ← as_rejected (
        lib.decode a.token key.key (record {
          alg = a.alg;
          leeway = clock_skew_leeway_secs;
          audience = audience;
          issuer = a.claimed_issuer;
        }))
    refuse_if (is_empty (trim (or_empty subject))) (invalid empty_subject)
    ok (verified_identity (trim (or_empty subject)) a.claimed_issuer claimed_agent)

  -- The lookup of the key in the first cache of that issuer, which may fetch, and what it leaves of the caches.
  unfoldable pub lookup :
      Moment
      → Admitted
      → List (Text × JwksCache Key)
      → Result AuthError (SigningKey Key) × List (Text × JwksCache Key)
  lookup at a [] = (err (invalid unknown_issuer), [])
  lookup at a ((known, cache) ∷ rest) =
      let later = lookup at a rest in
      if known == a.claimed_issuer
      then (
        (key_for lib.from_slice config at.now at.entered at.finished at.answer a.kid cache).0,
        (
          known,
          (key_for lib.from_slice config at.now at.entered at.finished at.answer a.kid cache).1,
        )
            ∷ rest,
      )
      else (later.0, (known, cache) ∷ later.1)

  unfoldable pub verify :
      Moment → Text → Option Text → Verifier Key → Result AuthError Identity × Verifier Key
  unfolding admit attest lookup
  verify at raw claimed_agent v = elim (admit raw) [
    | err e ↦ (err e, v)
    | ok a ↦ (
      (lookup at a v.caches).0 >>= attest v.audience a claimed_agent,
      record v { caches = (lookup at a v.caches).1 },
    )
  ]
