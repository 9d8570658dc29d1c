-- ===== src/AgentCore/Deadline.antt =====
-- crates/latiq-agent-core/src/deadline.rs: a statement's deadline. The watcher is one task that waits for
-- its timer and for the caller's cancellation, and acts on the first; other holders of the token may fire it too.
pub mod Laws
mod Tests
use latiq.Prelude.{ℕ, Bool, true, false, ◌&&◌, List, [], ◌∷◌, Option, if◌then◌else◌}
use latiq.Common.Timeout.{QueryTimeouts, effective}

-- What the caller asks for; of its own token only whether there is one.
pub record QueryControls : Type 0 where
  pub timeout_ms : Option ℕ
  pub has_cancel : Bool

pub record Deadline : Type 0 where
  pub effective_ms : ℕ
  pub max_ms : ℕ
  pub expired : Bool
  pub token_cancelled : Bool
  pub watching : Bool
  pub has_cancel : Bool

-- The token may have been fired before.
unfoldable pub arm : (token_cancelled : Bool) → QueryTimeouts → QueryControls → Deadline
arm token_cancelled timeouts controls = record {
  effective_ms = effective timeouts controls.timeout_ms;
  max_ms = timeouts.max_ms;
  expired = false;
  token_cancelled = token_cancelled;
  watching = true;
  has_cancel = controls.has_cancel;
}

-- What may happen while the statement runs, and at its end the drop of the guard.
pub data Event : Type 0 where
  timer caller_cancels cancelled_elsewhere drops : Event

unfoldable pub step : Event → Deadline → Deadline
step timer d =
    if d.watching then record d { expired = true; token_cancelled = true; watching = false } else d
step caller_cancels d =
    if d.watching && d.has_cancel then record d { token_cancelled = true; watching = false } else d
step cancelled_elsewhere d = record d { token_cancelled = true }
step drops d = record d { watching = false; token_cancelled = true }

unfoldable pub run : List Event → Deadline → Deadline
run [] d = d
run (e ∷ es) d = run es (step e d)

-- The engine's errors: its interrupt, and all others.
pub data EngineError (E : Type 0) : Type 0 where
  cancelled : EngineError E
  other : E → EngineError E

pub data AgentError (E : Type 0) : Type 0 where
  query_timeout : (effective_ms max_ms : ℕ) → AgentError E
  from_engine : EngineError E → AgentError E

unfoldable pub classify : {E : Type 0} → Deadline → EngineError E → AgentError E
classify d cancelled =
    if d.expired then query_timeout d.effective_ms d.max_ms else from_engine cancelled
classify d (other e) = from_engine (other e)
