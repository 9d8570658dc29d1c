-- ===== src/PondNode/Hop/Laws.antt =====
-- crates/latiq-pond-node: what is left of an error after the way from one process to the next.
use mathlib.Core.Path.{subst}
use latiq.Prelude.{
  List, [], ◌∷◌, Option, none, some, true, false, ◌↔◌, ◌≡◌, refl, ap, ◌∙◌, sym, All,
}
use latiq.Prelude.Text.{Text}
use latiq.Common.Error.Envelope.{
  ErrorEnvelope, new, for_kind, rendered, rendered_with, with_trace_id, with_traceparent, first_of,
}
use latiq.Common.Error.Status.{Codec, RoundTrips, details_of}
use latiq.ControlPlane.Registry.{
  ControlPlaneError, node_not_found, pond_not_found, dataset_not_found, catalog_not_found,
  name_conflict, invalid, no_node_available, duckdb, pond_still_owned, allocation_not_materialized,
}
use latiq.AgentCore.Error as Error
use latiq.ControlPlane.Envelope.{
  Wording, envelope, not_materialized, code, filled, to_status_traced,
}
use latiq.PondNode.Hop.{
  Trace, Peer, stamped, to_status, status_to_error, status_err, control_by_code, relayed,
}

-- The errors of the registry whose gRPC code alone says what they are.
abbrev pub IsToldByCode : ControlPlaneError → Type 0
IsToldByCode (pond_not_found ref) = Unit
IsToldByCode (name_conflict name) = Unit
IsToldByCode no_node_available = Unit
IsToldByCode e = ⊥

told :
    (w : Wording) (e : ControlPlaneError) (trace_id : Option Text)
    → ((control_by_code (code e) (with_trace_id (filled trace_id) (envelope w e)).message).kind
        ≡ (with_trace_id (filled trace_id) (envelope w e)).kind)
      ↔ IsToldByCode e
unfolding control_by_code code envelope with_trace_id not_materialized rendered rendered_with
    for_kind new Error.pond_not_found Error.name_conflict Error.internal
told w (pond_not_found r) trace_id = (λ h. tt, λ h. refl)
told w (name_conflict n) trace_id = (λ h. tt, λ h. refl)
told w no_node_available trace_id = (λ h. tt, λ h. refl)
told w (node_not_found n) trace_id = (λ h. cc, λ h. elim h [ ])
told w (dataset_not_found r) trace_id = (λ h. cc, λ h. elim h [ ])
told w (catalog_not_found r) trace_id = (λ h. cc, λ h. elim h [ ])
told w (pond_still_owned p n) trace_id = (λ h. cc, λ h. elim h [ ])
told w (allocation_not_materialized n o cause true) trace_id = (λ h. cc, λ h. elim h [ ])
told w (allocation_not_materialized n o cause false) trace_id = (λ h. cc, λ h. elim h [ ])
told w (invalid m) trace_id = (λ h. cc, λ h. elim h [ ])
told w duckdb trace_id = (λ h. cc, λ h. elim h [ ])

-- If the envelope of an error of the registry is not decoded, the node makes one from the gRPC code, and the kind of
-- that one is the kind that the registry gave exactly for a missing pond, a name that is taken and the lack of a
-- node.
pub status_err-to_status_traced :
    (c : Codec) (w : Wording) (e : ControlPlaneError) (trace_id : Option Text)
    → c.from_slice (to_status_traced c w e trace_id).details ≡ none
    → ((status_err c (to_status_traced c w e trace_id)).kind ≡ (envelope w e).kind) ↔ IsToldByCode e
unfolding status_err to_status_traced
status_err-to_status_traced c w e trace_id lost = rw lost (told w e trace_id)

status_to_error-to_status :
    (c : Codec) (t : Trace) (peer : Peer) (pond : Text) (e : ErrorEnvelope)
    → RoundTrips c (stamped t e)
    → status_to_error c peer pond (to_status c t e) ≡ stamped t e
unfolding status_to_error to_status details_of
status_to_error-to_status c t peer pond e trips =
    let (b, bytes, encoded, read_back) = trips in rw (encoded, read_back) refl

stamped_again :
    (t : Trace) (e : ErrorEnvelope) (tp : Text)
    → e.traceparent ≡ some tp
    → t.trace_id ≡ e.trace_id
    → stamped t e ≡ e
unfolding stamped with_trace_id with_traceparent first_of
stamped_again t e tp h same =
    let kept = ap (λ s. first_of s t.traceparent) h ∙ sym h in
    ap (λ id. record e { trace_id = id; traceparent = first_of e.traceparent t.traceparent }) same
    ∙ ap (λ s. record e { traceparent = s }) kept

relayed_again :
    (c : Codec) (pond : Text) (hops : List (Trace × Peer)) (e : ErrorEnvelope) (tp : Text)
    → RoundTrips c e
    → e.traceparent ≡ some tp
    → All (λ h. h.0.trace_id ≡ e.trace_id) hops
    → relayed c pond hops e ≡ e
unfolding relayed
relayed_again c pond [] e tp trips h same = refl
relayed_again c pond ((t, peer) ∷ hops) e tp trips h (here, later) =
    let same = stamped_again t e tp h here in
    ap (relayed c pond hops)
      (status_to_error-to_status c t peer pond e (subst (RoundTrips c) (sym same) trips) ∙ same)
    ∙ relayed_again c pond hops e tp trips h later

-- An error that passes any number of nodes arrives as the owner sent it: the span that it names is the
-- owner's, or that of the node which the owner had it from, and every other field is as the owner built it
-- with the trace id of the request. It is assumed that the owner has a span, that all the nodes have the
-- trace id of the one request, and that serde_json encodes the owner's
-- envelope and decodes what it encoded.
pub relayed-stamped :
    (c : Codec) (pond : Text) (t : Trace) (peer : Peer) (hops : List (Trace × Peer))
    (e : ErrorEnvelope) (tp : Text)
    → RoundTrips c (stamped t e)
    → first_of e.traceparent t.traceparent ≡ some tp
    → All (λ h. h.0.trace_id ≡ t.trace_id) hops
    → relayed c pond ((t, peer) ∷ hops) e ≡ stamped t e
unfolding relayed stamped with_trace_id with_traceparent
relayed-stamped c pond t peer hops e tp trips h same =
    ap (relayed c pond hops) (status_to_error-to_status c t peer pond e trips)
    ∙ relayed_again c pond hops (stamped t e) tp trips h same
