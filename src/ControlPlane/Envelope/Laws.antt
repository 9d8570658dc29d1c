-- ===== src/ControlPlane/Envelope/Laws.antt =====
-- crates/latiq-control-plane/src/error.rs: the envelope of every error of the registry.
use latiq.Prelude.{String, Bool, true, false, refl}
use latiq.Prelude.Text.{Text, starts_with, contains}
use latiq.Common.Error.Kinds.{audience, retryable}
use latiq.Common.Error.Guidance.{default_see, default_suggest}
use latiq.Common.Error.Envelope.{
  render_step, render, render_facts, rendered_with, rendered, for_kind, new,
}
use latiq.Common.Error.Laws.{IsCoherent}
use latiq.ControlPlane.Registry.{
  ControlPlaneError, node_not_found, pond_not_found, dataset_not_found, catalog_not_found,
  name_conflict, invalid, no_node_available, duckdb, pond_still_owned, allocation_not_materialized,
}
use latiq.ControlPlane.Envelope.{Wording, envelope, not_materialized}

not_materialized-IsCoherent :
    (name owner : String) (cause : Text) (compensated : Bool)
    → IsCoherent (not_materialized name owner cause compensated)
unfolding not_materialized rendered_with new audience retryable default_see contains starts_with
    render_facts render render_step
not_materialized-IsCoherent name owner cause true = (refl, refl, refl, tt, refl)
not_materialized-IsCoherent name owner cause false = (refl, refl, refl, tt, refl)

-- Whatever error the registry gives, the fields of its envelope agree: who can fix it and whether to send
-- it again are those of its kind, advice for an operator names the operator, advice for an agent is not to
-- report to one, and a failure of no known kind has the advice of that kind and no other.
pub envelope-IsCoherent : (w : Wording) (e : ControlPlaneError) → IsCoherent (envelope w e)
unfolding envelope for_kind default_suggest rendered rendered_with new audience retryable
    default_see contains starts_with render_facts render render_step
envelope-IsCoherent w (name_conflict name) = (refl, refl, refl, tt, refl)
envelope-IsCoherent w (pond_not_found r) = (refl, refl, refl, tt, refl)
envelope-IsCoherent w no_node_available = (refl, refl, refl, (refl, refl), refl)
envelope-IsCoherent w (node_not_found n) = (refl, refl, refl, tt, refl)
envelope-IsCoherent w (dataset_not_found r) = (refl, refl, refl, tt, refl)
envelope-IsCoherent w (catalog_not_found r) = (refl, refl, refl, tt, refl)
envelope-IsCoherent w (pond_still_owned pond node_id) = (refl, refl, refl, tt, refl)
envelope-IsCoherent w (allocation_not_materialized name owner cause compensated) =
    not_materialized-IsCoherent name owner (w.cause cause) compensated
envelope-IsCoherent w (invalid m) = (refl, refl, refl, tt, refl)
envelope-IsCoherent w duckdb = (refl, refl, refl, tt, refl)
