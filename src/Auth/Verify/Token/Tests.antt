-- ===== src/Auth/Verify/Token/Tests.antt =====
-- Tokens on small inputs.
use latiq.Prelude.{ℕ, Bool, true, false, ◌≡◌, refl, List, [], ◌∷◌, Option, none, some, any, ok, err}
use latiq.Prelude.Text.{Text, codes}
use latiq.Common.Identity.{verified_identity}
use latiq.Auth.Jwks.{Jwk, SigningKey, rs256, response, chunk, ends, invalid, unknown_issuer}
use latiq.Auth.Jwks.Cache.{default_config, JwksCache, new}
use latiq.Auth.Verify.Token.{Verifier, Library, Moment, verify}
use latiq.Auth.Verify.Token.Laws.{IsVerified, verify-IsVerified}

-- Libraries that know one token, of the issuer "idp" and the subject "bob".
abbrev lib : Library ℕ
lib = record {
  decode_header = λ t. some (record { alg = rs256; kid = some (codes "k1") });
  decode_payload = λ p. some p;
  read_issuer = λ b. some (some b);
  decode = λ t key v. ok (some (codes "bob"));
  from_slice = λ b. some (
      record {
        key_id = some (codes "k1");
        public_key_use = none;
        key_algorithm = none;
        decoded = some 7;
      }
      ∷ []);
}

abbrev at_once : Moment
at_once = record {
  now = 5;
  entered = 5;
  finished = 9;
  answer = response true none (chunk (codes "{}") ends);
}

abbrev verifier : Verifier ℕ
verifier = record { audience = codes "latiq"; caches = (codes "idp", new) ∷ [] }

verify-IsVerified_example :
    IsVerified lib default_config
      (codes "h.idp.s")
      none
      verifier
      (verify lib default_config at_once (codes "h.idp.s") none verifier).1
      (verified_identity (codes "bob") (codes "idp") none)
unfolding verify latiq.Prelude.Text.is_empty latiq.Prelude.Text.trim latiq.Prelude.Text.len any
    latiq.Prelude.Text.split latiq.Prelude.Text.text_beq latiq.Auth.Jwks.Cache.key_for
    latiq.Auth.Jwks.get latiq.Auth.Jwks.import_keys
verify-IsVerified_example =
    verify-IsVerified lib default_config at_once (codes "h.idp.s") none verifier
      (verified_identity (codes "bob") (codes "idp") none) refl
