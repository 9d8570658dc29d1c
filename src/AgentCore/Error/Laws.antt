-- ===== src/AgentCore/Error/Laws.antt =====
-- crates/latiq-agent-core/src/error.rs: what a caller is told about an error of the engine.
use latiq.Prelude.{◌≡◌, refl, ◌↔◌, none, some}
use latiq.Prelude.Text.{starts_with, contains}
use latiq.Common.Error.Kinds.{ErrorKind, audience, retryable, operator, as_is}
use latiq.Common.Error.Guidance.{default_see, default_suggest}
use latiq.Common.Error.Envelope.{with_facts, new, for_kind}
use latiq.Common.Error.Laws.{IsCoherent}
use latiq.AgentCore.Error.{
  EngineError, parse, catalog, conversion, constraint, source_io, invalid_input, missing_parameter,
  unsupported_parameter, transaction_control, engine, unsupported, capability_unavailable,
  read_only_violation, cancelled, timeout, from_engine, not_supported, internal,
}

-- The errors that the caller can do nothing about, and those that may pass by themselves.
abbrev pub IsTheOperators : EngineError → Type 0
IsTheOperators (engine m) = Unit
IsTheOperators (capability_unavailable message capability) = Unit
IsTheOperators e = ⊥

abbrev pub MayPass : EngineError → Type 0
MayPass (engine m) = Unit
MayPass (source_io m) = Unit
MayPass cancelled = Unit
MayPass timeout = Unit
MayPass e = ⊥

abbrev pub IsUnclassified : EngineError → Type 0
IsUnclassified (engine m) = Unit
IsUnclassified e = ⊥

-- The envelope of an error of the engine is coherent. Its kind is `internal` exactly when the engine did not
-- classify the error, it is the operator's exactly for those and for a capability that is missing, and it
-- asks to send the same call again exactly for those that may pass: a timeout, a cancellation, a source
-- that cannot be read, and an error that the engine did not classify.
pub from_engine-IsCoherent :
    (e : EngineError)
    → IsCoherent (from_engine e)
      × (((from_engine e).kind ≡ ErrorKind.internal) ↔ IsUnclassified e)
      × (((from_engine e).audience ≡ operator) ↔ IsTheOperators e)
      × (((from_engine e).retryable ≡ as_is) ↔ MayPass e)
unfolding from_engine not_supported internal with_facts new for_kind audience retryable default_see
    default_suggest contains starts_with
from_engine-IsCoherent (parse m) = (
  (refl, refl, refl, tt, refl),
  (λ h. cc, λ h. elim h [ ]),
  (λ h. cc, λ h. elim h [ ]),
  (λ h. cc, λ h. elim h [ ]),
)
from_engine-IsCoherent (catalog m) = (
  (refl, refl, refl, tt, refl),
  (λ h. cc, λ h. elim h [ ]),
  (λ h. cc, λ h. elim h [ ]),
  (λ h. cc, λ h. elim h [ ]),
)
from_engine-IsCoherent (conversion m) = (
  (refl, refl, refl, tt, refl),
  (λ h. cc, λ h. elim h [ ]),
  (λ h. cc, λ h. elim h [ ]),
  (λ h. cc, λ h. elim h [ ]),
)
from_engine-IsCoherent (constraint m) = (
  (refl, refl, refl, tt, refl),
  (λ h. cc, λ h. elim h [ ]),
  (λ h. cc, λ h. elim h [ ]),
  (λ h. cc, λ h. elim h [ ]),
)
from_engine-IsCoherent (source_io m) = (
  (refl, refl, refl, tt, refl),
  (λ h. cc, λ h. elim h [ ]),
  (λ h. cc, λ h. elim h [ ]),
  (λ h. tt, λ h. refl),
)
from_engine-IsCoherent (invalid_input m) = (
  (refl, refl, refl, tt, refl),
  (λ h. cc, λ h. elim h [ ]),
  (λ h. cc, λ h. elim h [ ]),
  (λ h. cc, λ h. elim h [ ]),
)
from_engine-IsCoherent (missing_parameter m) = (
  (refl, refl, refl, tt, refl),
  (λ h. cc, λ h. elim h [ ]),
  (λ h. cc, λ h. elim h [ ]),
  (λ h. cc, λ h. elim h [ ]),
)
from_engine-IsCoherent (unsupported_parameter m) = (
  (refl, refl, refl, tt, refl),
  (λ h. cc, λ h. elim h [ ]),
  (λ h. cc, λ h. elim h [ ]),
  (λ h. cc, λ h. elim h [ ]),
)
from_engine-IsCoherent (transaction_control m) = (
  (refl, refl, refl, tt, refl),
  (λ h. cc, λ h. elim h [ ]),
  (λ h. cc, λ h. elim h [ ]),
  (λ h. cc, λ h. elim h [ ]),
)
from_engine-IsCoherent (engine m) = (
  (refl, refl, refl, (refl, refl), refl),
  (λ h. tt, λ h. refl),
  (λ h. tt, λ h. refl),
  (λ h. tt, λ h. refl),
)
from_engine-IsCoherent (unsupported message (some feature)) = (
  (refl, refl, refl, tt, refl),
  (λ h. cc, λ h. elim h [ ]),
  (λ h. cc, λ h. elim h [ ]),
  (λ h. cc, λ h. elim h [ ]),
)
from_engine-IsCoherent (unsupported message none) = (
  (refl, refl, refl, tt, refl),
  (λ h. cc, λ h. elim h [ ]),
  (λ h. cc, λ h. elim h [ ]),
  (λ h. cc, λ h. elim h [ ]),
)
from_engine-IsCoherent (capability_unavailable message capability) = (
  (refl, refl, refl, tt, refl),
  (λ h. cc, λ h. elim h [ ]),
  (λ h. tt, λ h. refl),
  (λ h. cc, λ h. elim h [ ]),
)
from_engine-IsCoherent read_only_violation = (
  (refl, refl, refl, tt, refl),
  (λ h. cc, λ h. elim h [ ]),
  (λ h. cc, λ h. elim h [ ]),
  (λ h. cc, λ h. elim h [ ]),
)
from_engine-IsCoherent cancelled = (
  (refl, refl, refl, tt, refl),
  (λ h. cc, λ h. elim h [ ]),
  (λ h. cc, λ h. elim h [ ]),
  (λ h. tt, λ h. refl),
)
from_engine-IsCoherent timeout = (
  (refl, refl, refl, tt, refl),
  (λ h. cc, λ h. elim h [ ]),
  (λ h. cc, λ h. elim h [ ]),
  (λ h. tt, λ h. refl),
)
