-- ===== src/ControlPlane/Envelope.antt =====
-- crates/latiq-control-plane/src/error.rs: the envelope and the gRPC code of each error of the registry, and
-- the status that carries them. The wording of a reason or a cause is an argument.
pub mod Laws
use latiq.Prelude.{
  ℕ, String, Bool, true, false, List, [], ◌∷◌, ◌++◌, Option, none, some, if◌then◌else◌,
}
use latiq.Prelude.Text.{Text, codes, is_empty}
use latiq.Common.Error.Kinds.{ErrorKind}
use latiq.Common.Error.Guidance.{default_see}
use latiq.Common.Error.Envelope.{
  text, flag, Facts, insert_fact, ErrorEnvelope, for_kind, rendered, rendered_with, with_trace_id,
}
use latiq.Common.Error.Status.{
  Code, Status, Codec, details_of, already_exists, not_found, failed_precondition, invalid_argument,
  internal,
}
use latiq.ControlPlane.Registry.{
  InvalidReason, Cause, ControlPlaneError, node_not_found, pond_not_found, dataset_not_found,
  catalog_not_found, name_conflict, invalid, no_node_available, duckdb, pond_still_owned,
  allocation_not_materialized,
}

-- The strings that the registry composes.
pub record Wording : Type 0 where
  pub reason : InvalidReason → Text
  pub cause : Cause → Text
  pub no_node : Text
  pub duckdb : Text

abbrev one : String → String → Facts
unfolding insert_fact
one k v = insert_fact k (text (codes v)) []

-- The facts of a failed allocation, and its two envelopes.
abbrev failed_facts : String → String → Text → Bool → Facts
unfolding insert_fact
failed_facts name owner cause compensated = insert_fact "compensated" (flag compensated) (
    insert_fact "cause" (text cause)
      (insert_fact "node_endpoint" (text (codes owner)) (one "name" name)))

unfoldable pub not_materialized : String → String → Text → Bool → ErrorEnvelope
unfolding rendered_with insert_fact default_see
not_materialized name owner cause true =
    rendered_with ErrorKind.pond_unavailable
      (codes
        "Pond '{name}' was NOT created: the node it was assigned to ({node_endpoint}) could not materialise its storage ({cause}). The assignment has been rolled back, so the name is free and nothing was left behind.")
      (failed_facts name owner cause true)
      (codes
        "Retry allocate_pond (or `latiq pond create`) — the failed attempt left nothing behind, so the same name is free. If it keeps failing, that node is down: report it to your operator.")
      (codes (default_see ErrorKind.pond_unavailable))
not_materialized name owner cause false =
    rendered_with ErrorKind.pond_unavailable
      (codes
        "Pond '{name}' was NOT created: the node it was assigned to ({node_endpoint}) could not materialise its storage ({cause}), AND the assignment could not be rolled back — a registry row named '{name}' may still exist with no storage behind it.")
      (failed_facts name owner cause false)
      (codes
        "Retry under a DIFFERENT name; the original may still be taken. Ask an operator to remove the stranded record with `latiq pond forget <pond> --confirm` (it deletes the registry row only, never data).")
      (codes (default_see ErrorKind.pond_unavailable))

unfoldable pub envelope : Wording → ControlPlaneError → ErrorEnvelope
unfolding for_kind rendered rendered_with insert_fact not_materialized default_see
envelope w (name_conflict name) =
    rendered ErrorKind.name_conflict (codes "Name '{name}' is taken.") (one "name" name)
envelope w (pond_not_found r) =
    rendered ErrorKind.pond_not_found (codes "Pond '{pond}' does not exist.") (one "pond" r)
envelope w no_node_available = for_kind ErrorKind.internal (
    codes "No pond node is available to host a pond: "
    ++ (w.no_node
        ++ codes
            ". A pond node must be registered and heartbeating with this control plane before one can be created — `latiq node list` shows which are registered."))
envelope w (node_not_found n) =
    rendered_with ErrorKind.invalid_value
      (codes "Node '{node_id}' is not registered with this control plane.") (one "node_id" n)
      (codes
        "Run `latiq node list` to see the registered nodes, then retry with an id from that list.")
      (codes (default_see ErrorKind.invalid_value))
envelope w (dataset_not_found r) =
    rendered ErrorKind.dataset_not_found (codes "Dataset '{dataset}' is not in the catalog.")
      (one "dataset" r)
envelope w (catalog_not_found r) =
    rendered_with ErrorKind.dataset_not_found (codes "Catalog '{catalog}' is not registered.")
      (one "catalog" r) (codes "Call list_catalogs to see registered catalogs.")
      (codes "latiq://guidance")
envelope w (pond_still_owned pond node_id) =
    rendered_with ErrorKind.invalid_value
      (codes
        "Pond '{pond}' is still owned by node '{node_id}', which is registered and active — forgetting it would orphan data a live node is serving.")
      (insert_fact "node_id" (text (codes node_id)) (one "pond" pond))
      (codes
        "Use `latiq pond drop <pond> --confirm`, which deletes the pond AND its data via the owning node. `pond forget` is only for a pond whose node is gone.")
      (codes "latiq://guidance")
envelope w (allocation_not_materialized name owner cause compensated) =
    not_materialized name owner (w.cause cause) compensated
envelope w (invalid m) = for_kind ErrorKind.invalid_value (w.reason m)
envelope w duckdb = for_kind ErrorKind.storage (codes "storage error: " ++ w.duckdb)

unfoldable pub code : ControlPlaneError → Code
code (name_conflict name) = already_exists
code (pond_not_found r) = not_found
code (dataset_not_found r) = not_found
code (catalog_not_found r) = not_found
code (node_not_found n) = not_found
code no_node_available = failed_precondition
code (pond_still_owned pond node_id) = failed_precondition
code (allocation_not_materialized name owner cause compensated) = failed_precondition
code (invalid m) = invalid_argument
code duckdb = internal

abbrev pub filled : Option Text → Option Text
filled none = none
filled (some t) = if is_empty t then none else some t

-- `to_status_traced`.
unfoldable pub to_status_traced : Codec → Wording → ControlPlaneError → Option Text → Status
unfolding envelope code with_trace_id is_empty details_of
to_status_traced c w e trace_id =
    let env = with_trace_id (filled trace_id) (envelope w e) in
    record { code = code e; message = env.message; details = details_of (c.to_vec env) }
