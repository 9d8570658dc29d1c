-- ===== src/Auth/Jwks/Tests.antt =====
-- Keys and documents on small inputs.
use mathlib.Core.List.{Memᴰ}
use latiq.Prelude.{
  ℕ, String, ◌≡◌, ◌≤◌, Bool, true, false, not, refl, List, [], ◌∷◌, ◌++◌, Option, none, some, All,
  length, ok, arith,
}
use latiq.Prelude.Text.{Text, codes, is_control}
use latiq.Auth.Jwks.{
  Jwk, SigningKey, signature, encryption, es256, k_es256, k_other, import_keys, get, read_body,
  chunk, ends, max_jwks_bytes, sanitize_kid,
}
use latiq.Auth.Jwks.Laws.{IsImported, import_keys-IsImported}

abbrev good : Jwk ℕ
good = record {
  key_id = some (codes "k1");
  public_key_use = some signature;
  key_algorithm = some k_es256;
  decoded = some 7;
}

abbrev wraps : Jwk ℕ
wraps = record {
  key_id = some (codes "k1");
  public_key_use = none;
  key_algorithm = some (k_other "RSA-OAEP");
  decoded = some 8;
}

import_keys-IsImported_example :
    (jwk : Jwk ℕ) × Memᴰ jwk (good ∷ wraps ∷ [])
    × IsImported (codes "k1") (record { key = 7; alg = some es256 }) jwk
unfolding get import_keys latiq.Auth.Jwks.as_signing_alg latiq.Prelude.Text.text_beq
import_keys-IsImported_example =
    import_keys-IsImported (good ∷ wraps ∷ []) (codes "k1") (record { key = 7; alg = some es256 })
      refl
