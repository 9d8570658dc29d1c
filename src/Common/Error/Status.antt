-- ===== src/Common/Error/Status.antt =====
-- What the crates use of tonic's `Status`: a gRPC code, a message, and bytes that may encode an envelope
-- of crates/latiq-common/src/error.rs.
use latiq.Prelude.{ℕ, List, [], ◌∷◌, Option, none, some, ◌≡◌}
use latiq.Prelude.Text.{Text}
use latiq.Common.Error.Envelope.{ErrorEnvelope}

pub data Code : Type 0 where
  cancelled invalid_argument deadline_exceeded not_found already_exists : Code
  failed_precondition internal unavailable unauthenticated other : Code

pub record Status : Type 0 where
  pub code : Code
  pub message : Text
  pub details : List ℕ

-- serde_json on envelopes.
pub record Codec : Type 0 where
  pub to_vec : ErrorEnvelope → Option (List ℕ)
  pub from_slice : List ℕ → Option ErrorEnvelope

-- `to_vec(&env).unwrap_or_default()`.
unfoldable pub details_of : Option (List ℕ) → List ℕ
details_of none = []
details_of (some bytes) = bytes

-- This envelope is encoded, in at least one byte, and what was encoded is decoded as it was.
abbrev pub RoundTrips : Codec → ErrorEnvelope → Type 0
RoundTrips c env =
    (b : ℕ) × (bytes : List ℕ) × (c.to_vec env ≡ some (b ∷ bytes))
    × (c.from_slice (b ∷ bytes) ≡ some env)
