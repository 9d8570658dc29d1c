-- ===== src/Common/Error/Guidance.antt =====
-- crates/latiq-common/src/error.rs: the advice of each kind, and the page that teaches it.
use latiq.Prelude.{String}
use latiq.Common.Error.Kinds.{
  ErrorKind, pond_not_found, dataset_not_found, name_conflict, catalog_error, parse_error,
  invalid_value, missing_argument, write_to_reserved_schema, result_cap_exceeded,
  read_only_violation, unsupported_feature, capability_unavailable, query_timeout, query_cancelled,
  unauthenticated, pond_unavailable, source_unavailable, storage, internal,
}

unfoldable pub default_suggest : ErrorKind → String
default_suggest pond_not_found =
    "Call list_ponds to see available ponds, or allocate_pond to create one."
default_suggest dataset_not_found = "Call list_datasets to see what's available."
default_suggest name_conflict = "Choose a different name, or omit name to let Latiq generate one."
default_suggest catalog_error =
    "Look up what the pond actually has before retrying: describe_pond, or read_query \"SHOW TABLES\" / \"DESCRIBE <table>\" / \"SELECT * FROM information_schema.columns\". Then use a name that exists — or create it with write_query first. If the name already exists, pick another or use CREATE OR REPLACE / CREATE TABLE IF NOT EXISTS."
default_suggest parse_error = "Check the SQL syntax against the supported dialect."
default_suggest invalid_value = "Fix the value and retry."
default_suggest missing_argument = "Provide the required argument and retry."
default_suggest write_to_reserved_schema = "Write to your own tables/schema, not a reserved one."
default_suggest result_cap_exceeded =
    "Narrow with WHERE/LIMIT, aggregate server-side (GROUP BY/count/sum), or materialize with CREATE TABLE AS SELECT. Call explain_query on the statement first: its `estimated_rows` is how many rows this would return, so you can see whether narrowing is enough before spending another attempt on it."
default_suggest read_only_violation =
    "Use write_query for INSERT/UPDATE/DELETE/DDL; read_query is for SELECT."
default_suggest unsupported_feature =
    "Remove the clause the message names and re-send — this engine does not implement it, so the identical statement can never succeed. A DuckLake pond has no PRIMARY KEY/UNIQUE or CHECK constraints, no indexes, no sequences and no generated columns: declare the columns and their types, and enforce uniqueness with a query (read_query \"SELECT id, count(*) FROM t GROUP BY id HAVING count(*) > 1\") instead of a constraint. See latiq://dialect."
default_suggest capability_unavailable =
    "Stop and report this — you cannot provision anything from here, and the identical call will keep failing until somebody does. Tell whoever is orchestrating you (a human operator, or the agent that dispatched you) which capability is missing: it is in `facts.capability`, and the message names it too. An operator installs a missing DuckDB extension by running `latiq warm-extensions` on the node with network access and restarting it — the container image bakes the same step in at build time. Send this call again only once you are told the capability is there. Meanwhile you can keep working on anything that does not need it: a pond allocated without that extension still reads CSV/Parquet/JSON (latiq://dialect says what is always loaded)."
default_suggest query_timeout =
    "Retry with a larger timeout_ms (up to the node's maximum), or narrow the query (WHERE/LIMIT) or aggregate server-side. explain_query shows which table is scanned and how big it is estimated to be — it predicts no duration, but the largest full_scan in `scan_operations` is what to fix."
default_suggest query_cancelled = "Re-issue the query if you still need the result."
default_suggest unauthenticated =
    "Obtain a fresh access token for this deployment and retry with it."
default_suggest pond_unavailable =
    "Ask an operator to bring the pond's node back (latiq node list shows which are registered); if it is gone for good, `latiq pond forget <pond> --confirm` drops the registry record — the data on that node is NOT deleted."
default_suggest source_unavailable =
    "Check the path or URL in the statement — spelling, host, bucket, and whether it needs credentials this deployment does not have. It must be reachable from the node, whose network is not yours. One retry is worth it if the failure could be a transient network fault; a second identical failure means the source, not the query. To work offline of it, load the data into the pond first (load_dataset / pull_catalog)."
default_suggest storage = "Retry; if it persists, report to your operator."
default_suggest internal = "Retry; if it persists, report to your operator."

unfoldable pub default_see : ErrorKind → String
default_see pond_not_found = "latiq://troubleshooting/pond-not-found"
default_see dataset_not_found = "latiq://datasets"
default_see name_conflict = "latiq://guidance"
default_see catalog_error = "latiq://troubleshooting/catalog-error"
default_see parse_error = "latiq://dialect"
default_see invalid_value = "latiq://guidance"
default_see missing_argument = "latiq://guidance"
default_see write_to_reserved_schema = "latiq://dialect"
default_see result_cap_exceeded = "latiq://troubleshooting/large-results"
default_see read_only_violation = "latiq://dialect"
default_see unsupported_feature = "latiq://dialect"
default_see capability_unavailable = "latiq://troubleshooting/capability-unavailable"
default_see query_timeout = "latiq://troubleshooting/timeouts"
default_see query_cancelled = "latiq://troubleshooting/timeouts"
default_see unauthenticated = "latiq://troubleshooting/unauthenticated"
default_see pond_unavailable = "latiq://troubleshooting/pond-unavailable"
default_see source_unavailable = "latiq://troubleshooting/source-unavailable"
default_see storage = "latiq://troubleshooting/internal"
default_see internal = "latiq://troubleshooting/internal"
