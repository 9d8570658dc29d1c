-- ===== src/PondNode/Hop/Tests.antt =====
-- Errors on their way from one process to the next.
use latiq.Prelude.{[], ◌∷◌, none, some, ◌≡◌, ◌↔◌, refl}
use latiq.Prelude.Text.{codes}
use latiq.Common.Error.Envelope.{ErrorEnvelope, first_of, new, for_kind}
use latiq.Common.Error.Laws.{IsCoherent}
use latiq.Common.Error.Kinds.{ErrorKind, operator, as_is}
use latiq.Common.Error.Status.{Codec}
use latiq.ControlPlane.Registry.{ControlPlaneError, pond_still_owned}
use latiq.ControlPlane.Envelope.{Wording, envelope, to_status_traced}
use latiq.AgentCore.Control.{AgentError}
use latiq.AgentCore.Envelope.{Causes, envelope_of, envelope_of-IsCoherent}
use latiq.AgentCore.Error.{EngineError, unsupported, from_engine}
use latiq.AgentCore.Error.Laws.{IsTheOperators, MayPass, IsUnclassified, from_engine-IsCoherent}
use latiq.PondNode.Hop.{Trace, Peer, stamped, relayed, status_err}
use latiq.PondNode.Hop.Laws.{IsToldByCode, status_err-to_status_traced, relayed-stamped}

abbrev wording : Wording
wording = record {
  reason = λ r. codes "refused";
  cause = λ c. codes "connect error";
  no_node = codes "no active nodes";
  duckdb = codes "disk full";
}

-- serde_json on one envelope.
abbrev only : ErrorEnvelope → Codec
only env = record { to_vec = λ e. some (b'{' ∷ b'}' ∷ []); from_slice = λ bytes. some env }

abbrev owned : ControlPlaneError
owned = pond_still_owned "p1" "n1"

abbrev no_index : EngineError
no_index = unsupported (codes "Not implemented Error: indexes") (some (codes "indexes"))

from_engine-IsCoherent_example :
    IsCoherent (from_engine no_index)
    × (((from_engine no_index).kind ≡ ErrorKind.internal) ↔ IsUnclassified no_index)
    × (((from_engine no_index).audience ≡ operator) ↔ IsTheOperators no_index)
    × (((from_engine no_index).retryable ≡ as_is) ↔ MayPass no_index)
from_engine-IsCoherent_example = from_engine-IsCoherent no_index

abbrev trace : Trace
trace = record { trace_id = some (codes "4bf9"); traceparent = some (codes "00-4bf9-01-01") }

abbrev greeter : Trace
greeter = record { trace_id = some (codes "4bf9"); traceparent = some (codes "00-4bf9-02-01") }

abbrev peer : Peer
peer = record { node_id = codes "n1"; endpoint = codes "http://n1:7002" }

-- A codec that decodes nothing.
abbrev lossy : Codec
lossy = record { to_vec = λ env. some (b'{' ∷ []); from_slice = λ bytes. none }

status_err-to_status_traced_example :
    ((status_err lossy (to_status_traced lossy wording owned trace.trace_id)).kind
      ≡ (envelope wording owned).kind)
    ↔ IsToldByCode owned
status_err-to_status_traced_example =
    status_err-to_status_traced lossy wording owned trace.trace_id refl

abbrev failed : ErrorEnvelope
failed = for_kind ErrorKind.storage (codes "storage: disk full")

relayed-stamped_example :
    relayed
      (only (stamped trace failed))
      (codes "p1")
      ((trace, peer) ∷ (greeter, peer) ∷ (greeter, peer) ∷ [])
      failed
    ≡ stamped trace failed
unfolding first_of for_kind new
relayed-stamped_example =
    relayed-stamped (only (stamped trace failed)) (codes "p1") trace peer
      ((greeter, peer) ∷ (greeter, peer) ∷ []) failed (codes "00-4bf9-01-01")
      (b'{', b'}' ∷ [], refl, refl) refl (refl, (refl, tt))

abbrev causes : Causes
causes = record { bad_id = λ id. codes "invalid character"; join = codes "panicked" }

envelope_of-IsCoherent_example :
    IsCoherent (envelope_of wording causes (AgentError.query_timeout 1000 5000))
envelope_of-IsCoherent_example =
    envelope_of-IsCoherent wording causes (AgentError.query_timeout 1000 5000) (λ env p. cc)
      (λ env p. cc)
