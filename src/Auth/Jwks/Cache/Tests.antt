-- ===== src/Auth/Jwks/Cache/Tests.antt =====
-- Lookups and refreshes on small inputs.
use latiq.Prelude.{
  ℕ, ◌+◌, ◌*◌, ◌≡◌, ◌≤◌, Bool, true, false, refl, List, [], ◌∷◌, Option, none, some, ok, err, arith,
}
use latiq.Prelude.Text.{Text, codes}
use latiq.Auth.Jwks.{
  Jwk, SigningKey, Answer, unreachable, response, ends, chunk, get, unknown_kid, sanitize_kid,
  max_duration,
}
use latiq.Auth.Jwks.Cache.{default_config, JwksCache, new, last_failed, Visit, key_for, visits}
use latiq.Auth.Jwks.Cache.Rate.{gap, end_time, visits-fetches}
use latiq.Auth.Jwks.Cache.Lookup.{key_for-unknown}

-- A document of one key, whatever its text.
abbrev one_key : List ℕ → Option (List (Jwk ℕ))
one_key body = some (
    record {
      key_id = some (codes "k1");
      public_key_use = none;
      key_algorithm = none;
      decoded = some 7;
    }
    ∷ [])

abbrev page : Answer
page = response true (some 2) (chunk (codes "{}") ends)

abbrev fresh : JwksCache ℕ
fresh = new

abbrev turns : List Visit
turns =
    record { generation = 0; entered = 5; finished = 9; answer = unreachable }
    ∷ record { generation = 0; entered = 10; finished = 12; answer = page }
    ∷ record { generation = 1; entered = 1_000_000_020; finished = 1_000_000_025; answer = page }
    ∷ []

visits-fetches_example :
    (visits one_key default_config turns new).fetches * gap default_config + 3
    ≤ end_time 3 turns + gap default_config
visits-fetches_example =
    visits-fetches one_key default_config 3 turns (omega arith)
      (omega arith, omega arith, (omega arith, omega arith, (omega arith, omega arith, tt)))

key_for-unknown_example :
    (codes "k2" ≡ sanitize_kid (codes "k2"))
    × (get (codes "k2") (key_for one_key default_config 5 5 9 page (codes "k2") fresh).1.keys
        ≡ none)
    × (last_failed (key_for one_key default_config 5 5 9 page (codes "k2") fresh).1.state ≡ false)
unfolding key_for get latiq.Auth.Jwks.import_keys latiq.Prelude.Text.text_beq sanitize_kid
    latiq.Prelude.keep latiq.Prelude.Text.is_control
key_for-unknown_example =
    key_for-unknown one_key default_config 5 5 9 page (codes "k2") (codes "k2") fresh refl
