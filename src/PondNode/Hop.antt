-- ===== src/PondNode/Hop.antt =====
-- crates/latiq-pond-node: how an error leaves a node (data_service.rs), and how it is read from the status of
-- another node (forward_client.rs) or of the control plane (grpc_control.rs).
mod Tests
pub mod Laws
use latiq.Prelude.{ℕ, List, [], ◌∷◌, ◌++◌, Option, none, some}
use latiq.Prelude.Text.{Text, codes, trim}
use latiq.Common.Error.Kinds.{ErrorKind}
use latiq.Common.Error.Envelope.{
  text, insert_fact, ErrorEnvelope, for_kind, rendered, with_trace_id, with_traceparent,
}
use latiq.Common.Error.Status.{Code, Status, Codec, details_of}
use latiq.AgentCore.Error.{pond_not_found, name_conflict, internal}

unfoldable pub code_of : ErrorKind → Code
code_of ErrorKind.pond_not_found = Code.not_found
code_of ErrorKind.name_conflict = Code.already_exists
code_of ErrorKind.query_timeout = Code.deadline_exceeded
code_of ErrorKind.query_cancelled = Code.cancelled
code_of ErrorKind.unauthenticated = Code.unauthenticated
code_of ErrorKind.pond_unavailable = Code.failed_precondition
code_of ErrorKind.capability_unavailable = Code.failed_precondition
code_of ErrorKind.catalog_error = Code.invalid_argument
code_of ErrorKind.source_unavailable = Code.failed_precondition
code_of ErrorKind.storage = Code.internal
code_of ErrorKind.internal = Code.internal
code_of _ = Code.invalid_argument

-- The ambient trace of the request on a node: `current_trace_id` and `current_traceparent`.
pub record Trace : Type 0 where
  pub trace_id : Option Text
  pub traceparent : Option Text

unfoldable pub stamped : Trace → ErrorEnvelope → ErrorEnvelope
unfolding with_trace_id with_traceparent
stamped t env = with_traceparent t.traceparent (with_trace_id t.trace_id env)

unfoldable pub to_status : Codec → Trace → ErrorEnvelope → Status
unfolding code_of stamped details_of
to_status c t e =
    let env = stamped t e in
    record { code = code_of env.kind; message = env.message; details = details_of (c.to_vec env) }

pub record Peer : Type 0 where
  pub node_id : Text
  pub endpoint : Text

unfoldable pub unreachable_owner : Peer → (pond detail : Text) → ErrorEnvelope
unfolding rendered insert_fact trim
unreachable_owner peer pond detail =
    rendered ErrorKind.pond_unavailable
      (codes
        "Pond '{pond}' is owned by node '{node_id}', which is not answering at {node_endpoint} ({detail}). The pond's data is on that node; no other node can serve it.")
      (insert_fact "detail" (text (trim detail)) (
        insert_fact "node_endpoint" (text peer.endpoint)
          (insert_fact "node_id" (text peer.node_id) (insert_fact "pond" (text pond) []))))

-- What a peer's status is without an envelope, by its code.
unfoldable pub told_by_code : Peer → (pond : Text) → Code → (message : Text) → ErrorEnvelope
unfolding pond_not_found name_conflict internal for_kind unreachable_owner
told_by_code peer pond Code.not_found message = pond_not_found message
told_by_code peer pond Code.already_exists message = name_conflict message
told_by_code peer pond Code.unauthenticated message = for_kind ErrorKind.unauthenticated message
told_by_code peer pond Code.unavailable message = unreachable_owner peer pond message
told_by_code peer pond _ message = internal message

abbrev pub decoded : Option ErrorEnvelope → ErrorEnvelope → ErrorEnvelope
decoded (some env) otherwise = env
decoded none otherwise = otherwise

unfoldable pub status_to_error : Codec → Peer → (pond : Text) → Status → ErrorEnvelope
unfolding told_by_code
status_to_error c peer pond s =
    let otherwise = told_by_code peer pond s.code s.message in
    elim s.details [ [] ↦ otherwise | b ∷ bytes ↦ decoded (c.from_slice (b ∷ bytes)) otherwise ]

-- The same for the control plane's, in `GrpcControlPlane`.
unfoldable pub control_by_code : Code → (message : Text) → ErrorEnvelope
unfolding pond_not_found name_conflict internal
control_by_code Code.not_found message = pond_not_found message
control_by_code Code.already_exists message = name_conflict message
control_by_code Code.failed_precondition message =
    internal (codes "no pond node available: " ++ message)
control_by_code _ message = internal message

unfoldable pub status_err : Codec → Status → ErrorEnvelope
unfolding control_by_code
status_err c s = decoded (c.from_slice s.details) (control_by_code s.code s.message)

-- An error on its way from the owner to the client: the trace of each node that it leaves, and the peer
-- that the next node takes that one for.
unfoldable pub relayed : Codec → (pond : Text) → List (Trace × Peer) → ErrorEnvelope → ErrorEnvelope
unfolding to_status status_to_error
relayed c pond [] e = e
relayed c pond ((t, peer) ∷ hops) e =
    relayed c pond hops (status_to_error c peer pond (to_status c t e))
