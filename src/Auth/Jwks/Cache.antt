-- ===== src/Auth/Jwks/Cache.antt =====
-- crates/latiq-auth/src/jwks.rs: `JwksCache` and the refresh of its keys. The document's parser is an argument.
pub mod Rate
pub mod Lookup
mod Tests
use latiq.Prelude.{
  ℕ, suc, ◌+◌, ◌-◌, ◌*◌, ◌^◌, min, Bool, true, false, not, ◌||◌, List, [], ◌∷◌, Option, none, some,
  eqb, ltb, if◌then◌else◌, Result, ok, err,
}
use latiq.Prelude.Text.{Text}
use latiq.Auth.Jwks.{
  AuthError, unknown_kid, idp_unavailable, document_too_large, Jwk, SigningKey, Body, Answer,
  unreachable, response, read_body, is_too_long, get, import_keys, sanitize_kid, max_duration,
  max_u32,
}

-- `DEFAULT_MIN_REFRESH_INTERVAL` and `DEFAULT_FAILURE_BACKOFF_BASE`.
pub record Config : Type 0 where
  pub min_refresh_interval : ℕ
  pub failure_backoff_base : ℕ

abbrev pub default_config : Config
default_config = record {
  min_refresh_interval = 60_000_000_000;
  failure_backoff_base = 1_000_000_000;
}

pub record RefreshState : Type 0 where
  pub completed_at : Option ℕ
  pub consecutive_failures : ℕ

pub record JwksCache (Key : Type 0) : Type 0 where
  pub keys : List (Text × SigningKey Key)
  pub fetches : ℕ
  pub refreshes_completed : ℕ
  pub state : RefreshState

abbrev pub new : {Key : Type 0} → JwksCache Key
new = record {
  keys = [];
  fetches = 0;
  refreshes_completed = 0;
  state = record { completed_at = none; consecutive_failures = 0 };
}

unfoldable pub last_failed : RefreshState → Bool
last_failed s = ltb 0 s.consecutive_failures

-- `saturating_sub(1).min(16)`, and the doubling that saturates at the greatest duration.
unfoldable pub floor : Config → RefreshState → ℕ
unfolding last_failed
floor config s =
    if last_failed s
    then min
        (min (config.failure_backoff_base * 2 ^ min (s.consecutive_failures - 1) 16) max_duration)
        config.min_refresh_interval
    else config.min_refresh_interval

unfoldable pub too_soon : Config → (now : ℕ) → RefreshState → Bool
unfolding floor
too_soon config now s = elim s.completed_at [
  | none ↦ false
  | some at_time ↦ ltb (now - at_time) (floor config s)
]

-- One request's turn: the count of refreshes when it began to wait, when it got the lock, when the
-- fetch would end, and what would come of it.
pub record Visit : Type 0 where
  pub generation : ℕ
  pub entered : ℕ
  pub finished : ℕ
  pub answer : Answer

module _ {Key : Type 0} (from_slice : List ℕ → Option (List (Jwk Key))) (config : Config) where
  pub parsed : Result AuthError (List ℕ) → Result AuthError (List (Jwk Key))
  parsed (err e) = err e
  parsed (ok body) = elim (from_slice body) [ none ↦ err idp_unavailable | some set ↦ ok set ]

  unfoldable pub fetch : Answer → Result AuthError (List (Jwk Key))
  unfolding parsed read_body
  fetch unreachable = err idp_unavailable
  fetch (response is_success content_length body) =
      if not is_success
      then err idp_unavailable
      else if is_too_long content_length
      then err document_too_large
      else parsed (read_body [] body)

  -- The count of fetches is the caller's, since it rises before the fetch.
  unfoldable pub refresh_inner :
      Answer → JwksCache Key → Result AuthError (Unit {0}) × JwksCache Key
  unfolding fetch
  refresh_inner answer c = elim (fetch answer) [
    | err e ↦ (err e, record c { fetches = suc c.fetches })
    | ok set ↦ (ok tt, record c { fetches = suc c.fetches; keys = import_keys [] set })
  ]

  -- The new state of the refreshes: on completion, whatever came of it.
  abbrev completed : ℕ → Result AuthError (Unit {0}) → RefreshState → RefreshState
  completed now (ok done) s = record { completed_at = some now; consecutive_failures = 0 }
  completed now (err e) s = record {
    completed_at = some now;
    consecutive_failures = min (suc s.consecutive_failures) max_u32;
  }

  unfoldable pub refresh :
      (now : ℕ) → Answer → JwksCache Key → Result AuthError (Unit {0}) × JwksCache Key
  unfolding refresh_inner
  refresh now answer c =
      let (result, c') = refresh_inner answer c in
      (
        result,
        record c' {
          state = completed now result c'.state;
          refreshes_completed = suc c'.refreshes_completed;
        },
      )

  -- `refresh_once` once it holds the lock.
  unfoldable pub visit : Visit → JwksCache Key → Result AuthError (Unit {0}) × JwksCache Key
  unfolding refresh too_soon
  visit v c =
      if not (eqb c.refreshes_completed v.generation) || too_soon config v.entered c.state
      then (ok tt, c)
      else refresh v.finished v.answer c

  -- `refresh_once` alone: `now` is the time of its first look.
  unfoldable pub refresh_once :
      (now entered finished : ℕ)
      → Answer
      → JwksCache Key
      → Result AuthError (Unit {0}) × JwksCache Key
  unfolding visit
  refresh_once now entered finished answer c =
      if too_soon config now c.state
      then (ok tt, c)
      else visit
          (record {
            generation = c.refreshes_completed;
            entered = entered;
            finished = finished;
            answer = answer;
          })
          c

  -- The lookup after the refresh.
  unfoldable pub after_refresh :
      Text
      → Result AuthError (Unit {0}) × JwksCache Key
      → Result AuthError (SigningKey Key) × JwksCache Key
  unfolding last_failed
  after_refresh kid (err e, c) = (err e, c)
  after_refresh kid (ok done, c) = elim (get kid c.keys) [
    | some key ↦ (ok key, c)
    | none ↦
        (err (if last_failed c.state then idp_unavailable else unknown_kid (sanitize_kid kid)), c)
  ]

  unfoldable pub key_for :
      (now entered finished : ℕ)
      → Answer
      → Text
      → JwksCache Key
      → Result AuthError (SigningKey Key) × JwksCache Key
  unfolding refresh_once after_refresh
  key_for now entered finished answer kid c = elim (get kid c.keys) [
    | some key ↦ (ok key, c)
    | none ↦ after_refresh kid (refresh_once now entered finished answer c)
  ]

  -- The turns in the order in which they get the lock.
  unfoldable pub visits : List Visit → JwksCache Key → JwksCache Key
  visits [] c = c
  visits (v ∷ vs) c = visits vs (visit v c).1
