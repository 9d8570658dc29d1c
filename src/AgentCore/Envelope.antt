-- ===== src/AgentCore/Envelope.antt =====
-- crates/latiq-agent-core: the envelope of every error that a node's operations give. What the operating
-- system, the runtime and the parser of ids say is an argument.
use latiq.Prelude.{ℕ, String, Bool, true, false, [], ◌++◌, ◌≡◌, refl, leb}
use latiq.Prelude.Text.{Text, codes, starts_with, contains}
use latiq.Common.Error.Kinds.{ErrorKind, audience, retryable}
use latiq.Common.Error.Guidance.{default_see, default_suggest}
use latiq.Common.Error.Envelope.{
  text, Facts, insert_fact, ErrorEnvelope, new, for_kind, rendered, rendered_with, render_facts,
  render, render_step,
}
use latiq.Common.Error.Laws.{IsCoherent}
use latiq.Storage.LocalFs.{StorageError, not_found, already_exists, io}
use latiq.ControlPlane.Envelope.{Wording, envelope}
use latiq.ControlPlane.Envelope.Laws.{envelope-IsCoherent}
use latiq.AgentCore.Control.{
  AgentError, from_control, missing_confirm, bad_pond_id, joined, engine, from_peer,
}
use latiq.AgentCore.Error.{
  pond_unavailable, storage, internal, query_timeout, timeout_advice, result_cap_exceeded,
}

pub record Causes : Type 0 where
  pub bad_id : String → Text
  pub join : Text

-- `StorageError`'s `Display`.
unfoldable storage_text : StorageError → Text
storage_text (not_found id) = codes "pond not found: " ++ codes id
storage_text (already_exists id) = codes "pond already exists: " ++ codes id
storage_text (io m) = codes "io error: " ++ m

unfoldable pub envelope_of : Wording → Causes → AgentError ErrorEnvelope → ErrorEnvelope
unfolding envelope pond_unavailable rendered insert_fact internal storage storage_text query_timeout
    result_cap_exceeded
envelope_of w c (from_control e) = envelope w e
envelope_of w c (AgentError.pond_unavailable pond_ref) = pond_unavailable (codes pond_ref)
envelope_of w c (missing_confirm pond_ref) =
    rendered ErrorKind.missing_argument
      (codes "drop_pond deletes pond '{pond}' and all its data; set confirm=true to proceed")
      (insert_fact "pond" (text (codes pond_ref)) [])
envelope_of w c (bad_pond_id id) = internal (codes "bad pond id: " ++ c.bad_id id)
envelope_of w c (AgentError.storage e) = storage (codes "storage: " ++ storage_text e)
envelope_of w c joined = internal (codes "join: " ++ c.join)
envelope_of w c (engine e) = e
envelope_of w c (AgentError.query_timeout effective_ms max_ms) = query_timeout effective_ms max_ms
envelope_of w c (AgentError.result_cap_exceeded rows cap) = result_cap_exceeded rows cap
envelope_of w c (from_peer e) = e

advice-starts_with :
    (at_ceiling : Bool) (facts : Facts)
    → starts_with (render_facts (timeout_advice at_ceiling) facts) (codes "Retry; if it persists")
      ≡ false
unfolding timeout_advice starts_with render_facts render render_step
advice-starts_with true facts = refl
advice-starts_with false facts = refl

query_timeout-IsCoherent :
    (effective_ms max_ms : ℕ) → IsCoherent (query_timeout effective_ms max_ms)
unfolding query_timeout rendered_with new audience retryable default_see starts_with
query_timeout-IsCoherent effective_ms max_ms = (
  refl,
  refl,
  advice-starts_with (leb max_ms effective_ms) (query_timeout effective_ms max_ms).facts,
  tt,
  refl,
)

-- Whatever error an operation gives, the fields of its envelope agree, if those of the envelopes that came
-- from the engine and from a peer do.
pub envelope_of-IsCoherent :
    (w : Wording) (c : Causes) (e : AgentError ErrorEnvelope)
    → ((env : ErrorEnvelope) → e ≡ engine env → IsCoherent env)
    → ((env : ErrorEnvelope) → e ≡ from_peer env → IsCoherent env)
    → IsCoherent (envelope_of w c e)
unfolding envelope_of pond_unavailable internal storage result_cap_exceeded rendered rendered_with
    for_kind new audience retryable default_suggest default_see contains starts_with render_facts
    render render_step
envelope_of-IsCoherent w c (from_control e) h k = envelope-IsCoherent w e
envelope_of-IsCoherent w c (AgentError.pond_unavailable r) h k = (refl, refl, refl, tt, refl)
envelope_of-IsCoherent w c (missing_confirm r) h k = (refl, refl, refl, tt, refl)
envelope_of-IsCoherent w c (bad_pond_id id) h k = (refl, refl, refl, (refl, refl), refl)
envelope_of-IsCoherent w c (AgentError.storage e) h k = (refl, refl, refl, tt, refl)
envelope_of-IsCoherent w c joined h k = (refl, refl, refl, (refl, refl), refl)
envelope_of-IsCoherent w c (engine e) h k = h e refl
envelope_of-IsCoherent w c (AgentError.query_timeout effective_ms max_ms) h k =
    query_timeout-IsCoherent effective_ms max_ms
envelope_of-IsCoherent w c (AgentError.result_cap_exceeded rows cap) h k =
    (refl, refl, refl, tt, refl)
envelope_of-IsCoherent w c (from_peer e) h k = k e refl
