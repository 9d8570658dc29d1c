-- ===== src/AgentCore/Error.antt =====
-- crates/latiq-agent-core/src/error.rs: the envelopes that a node builds, and what an error of the engine
-- (crates/latiq-engine/src/engine.rs) becomes.
pub mod Laws
use latiq.Prelude.{ℕ, String, Bool, true, false, List, [], ◌∷◌, ◌++◌, Option, none, some, leb}
use latiq.Prelude.Text.{Text, codes}
use latiq.Common.Error.Kinds.{ErrorKind}
use latiq.Common.Error.Guidance.{default_see}
use latiq.Common.Error.Envelope.{
  number, text, insert_fact, ErrorEnvelope, new, for_kind, rendered, rendered_with, with_facts,
}

pub data EngineError : Type 0 where
  parse catalog conversion constraint source_io invalid_input : Text → EngineError
  missing_parameter unsupported_parameter transaction_control engine : Text → EngineError
  unsupported : (message : Text) (feature : Option Text) → EngineError
  capability_unavailable : (message capability : Text) → EngineError
  read_only_violation cancelled timeout : EngineError

unfoldable pub pond_not_found : Text → ErrorEnvelope
unfolding rendered insert_fact
pond_not_found pond_ref =
    rendered ErrorKind.pond_not_found (codes "Pond '{pond}' does not exist.")
      (insert_fact "pond" (text pond_ref) [])

unfoldable pub pond_unavailable : Text → ErrorEnvelope
unfolding rendered insert_fact
pond_unavailable pond_ref =
    rendered ErrorKind.pond_unavailable
      (codes
        "Pond '{pond}' exists, but the node that owns it is not registered with this deployment — no node is currently serving it, and this node does not hold its data.")
      (insert_fact "pond" (text pond_ref) [])

unfoldable pub name_conflict : Text → ErrorEnvelope
unfolding rendered insert_fact
name_conflict name =
    rendered ErrorKind.name_conflict (codes "A pond named '{name}' already exists.")
      (insert_fact "name" (text name) [])

unfoldable pub result_cap_exceeded : (rows cap : ℕ) → ErrorEnvelope
unfolding rendered insert_fact
result_cap_exceeded rows cap =
    rendered ErrorKind.result_cap_exceeded
      (codes "Result has {rows} rows, over the inline cap of {cap}.")
      (insert_fact "rows" (number rows) (insert_fact "cap" (number cap) []))

-- The advice at the node's ceiling, and below it.
unfoldable pub timeout_advice : Bool → Text
timeout_advice true =
    codes
      "This ran at the node's maximum, so a larger timeout_ms is not available. Narrow the query — add a WHERE on a selective column, a LIMIT, or fewer columns — or aggregate server-side (GROUP BY/count/sum) instead of scanning. If the work is genuinely this large, it is too big for this pond's tier: ask an operator to re-tier the pond."
timeout_advice false =
    codes
      "Retry with a larger timeout_ms (this node allows up to {max_timeout_ms}), or narrow the query — add a WHERE on a selective column, a LIMIT, or fewer columns — or aggregate server-side (GROUP BY/count/sum). If it still times out at {max_timeout_ms} ms, the query is too large for this pond's tier: ask an operator to re-tier it."

unfoldable pub query_timeout : (effective_ms max_ms : ℕ) → ErrorEnvelope
unfolding rendered_with insert_fact default_see timeout_advice
query_timeout effective_ms max_ms =
    rendered_with ErrorKind.query_timeout
      (codes
        "Query stopped after {timeout_ms} ms — the timeout in effect for this request. This node allows up to {max_timeout_ms} ms.")
      (insert_fact "timeout_ms" (number effective_ms)
        (insert_fact "max_timeout_ms" (number max_ms) []))
      (timeout_advice (leb max_ms effective_ms)) (codes (default_see ErrorKind.query_timeout))

unfoldable pub internal : Text → ErrorEnvelope
unfolding for_kind
internal message = for_kind ErrorKind.internal message

unfoldable pub storage : Text → ErrorEnvelope
unfolding for_kind
storage message = for_kind ErrorKind.storage message

-- `From<EngineError>`.
unfoldable pub not_supported : Text → Option Text → ErrorEnvelope
unfolding new for_kind with_facts insert_fact default_see
not_supported message (some feature) = with_facts (insert_fact "feature" (text feature) []) (
    new ErrorKind.unsupported_feature message
      (codes "This pond's engine does not support "
        ++ (feature
            ++ codes
                " — remove that from the statement and re-send; the statement as written can never succeed. A DuckLake pond has no PRIMARY KEY/UNIQUE or CHECK constraints, no indexes, no sequences and no generated columns: declare the columns and their types, and check uniqueness with a query (read_query \"SELECT id, count(*) FROM <table> GROUP BY id HAVING count(*) > 1\") instead of declaring a constraint."))
      (codes (default_see ErrorKind.unsupported_feature)))
not_supported message none = for_kind ErrorKind.unsupported_feature message

unfoldable pub from_engine : EngineError → ErrorEnvelope
unfolding new for_kind with_facts insert_fact internal not_supported
from_engine read_only_violation =
    for_kind ErrorKind.read_only_violation
      (codes "read_query received a statement that is not read-only.")
from_engine cancelled = for_kind ErrorKind.query_cancelled (codes "The query was cancelled.")
from_engine timeout = for_kind ErrorKind.query_timeout (codes "The query exceeded the timeout.")
from_engine (parse m) = for_kind ErrorKind.parse_error m
from_engine (catalog m) = for_kind ErrorKind.catalog_error m
from_engine (conversion m) =
    new ErrorKind.invalid_value m
      (codes
        "A value does not match the type it is being used as. Check the column types (read_query \"DESCRIBE <table>\" or describe_pond), then supply a value of that type or CAST it explicitly — e.g. CAST('7' AS INTEGER). Quoted text is never coerced into a numeric column just because it looks numeric.")
      (codes "latiq://dialect")
from_engine (constraint m) =
    new ErrorKind.invalid_value m
      (codes
        "The value is the right type but breaks a rule on the table (primary key, unique, not null, or check). Read the conflicting rows first — read_query \"SELECT * FROM <table> WHERE <key> = <value>\" — then either correct the value, UPDATE the existing row instead of inserting, or use INSERT OR REPLACE / ON CONFLICT.")
      (codes "latiq://dialect")
from_engine (source_io m) = for_kind ErrorKind.source_unavailable m
from_engine (unsupported message feature) = not_supported message feature
from_engine (capability_unavailable message capability) =
    with_facts (insert_fact "capability" (text capability) [])
      (for_kind ErrorKind.capability_unavailable message)
from_engine (invalid_input m) =
    new ErrorKind.invalid_value m
      (codes
        "A value or argument in the statement is not acceptable to the engine — out of range for its type, or invalid for the function or file it was passed to. The message names it. Fix that value and re-send: a wider type for an arithmetic overflow (CAST the operands to BIGINT/HUGEINT or aggregate differently), a correct format string, a path that really holds the format you are reading.")
      (codes "latiq://dialect")
from_engine (missing_parameter m) = for_kind ErrorKind.missing_argument m
from_engine (unsupported_parameter m) = for_kind ErrorKind.invalid_value m
from_engine (transaction_control m) =
    new ErrorKind.unsupported_feature m
      (codes
        "Latiq owns the transaction, so a statement must not contain BEGIN / COMMIT / ROLLBACK / START TRANSACTION — send plain statements and Latiq commits them together as one attributed snapshot. Your own transaction control ended Latiq's bracket, so part of the statement may ALREADY have been committed: check with read_query \"SELECT count(*) FROM <table>\" before re-sending, then re-send only what is missing, without the transaction control.")
      (codes "latiq://dialect")
from_engine (engine m) = internal (codes "engine error: " ++ m)
