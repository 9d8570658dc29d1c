-- ===== src/Common/Timeout.antt =====
-- crates/latiq-common/src/timeout.rs: a node's query timeouts. Milliseconds are `u64` in the code;
-- no operation computes a new number, so none can wrap.
pub mod Laws
mod Tests
use latiq.Prelude.{
  ℕ, zero, suc, Option, none, some, Bool, min, if◌then◌else◌, eqb, ltb, Result, ok, err, ◌>>=◌,
  ◌>>◌, refuse_if,
}

abbrev pub default_query_timeout_ms : ℕ
default_query_timeout_ms = 30_000

abbrev pub max_query_timeout_ms : ℕ
max_query_timeout_ms = 300_000

pub record QueryTimeouts : Type 0 where
  pub default_ms : ℕ
  pub max_ms : ℕ

abbrev pub default_timeouts : QueryTimeouts
default_timeouts = record { default_ms = default_query_timeout_ms; max_ms = max_query_timeout_ms }

-- The three refusals of `new`.
pub data TimeoutError : Type 0 where
  zero_default zero_max : TimeoutError
  default_above_max : ℕ → ℕ → TimeoutError

unfoldable pub new : ℕ → ℕ → Result TimeoutError QueryTimeouts
new default_ms max_ms = do
  refuse_if (eqb default_ms 0) zero_default
  refuse_if (eqb max_ms 0) zero_max
  refuse_if (ltb max_ms default_ms) (default_above_max default_ms max_ms)
  ok (record { default_ms = default_ms; max_ms = max_ms })

-- `None | Some(0) => default_ms`, `Some(ms) => ms.min(max_ms)`.
unfoldable pub effective : QueryTimeouts → Option ℕ → ℕ
effective t none = t.default_ms
effective t (some zero) = t.default_ms
effective t (some (suc ms)) = min (suc ms) t.max_ms
