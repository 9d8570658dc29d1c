-- ===== src/Lib.antt =====
-- Latiq: a verification library for the control plane, the node core, authentication and the SQL
-- guard. Paths are those of the repository.
--
-- The program. A control plane keeps a registry of nodes, ponds and datasets, and places each new pond on
-- a node. Any node takes a request on any pond, asks the registry who owns it, and serves it or forwards it
-- to the owner. A node runs a statement through an engine, under a token that a cancellation, a deadline or
-- the drop of the pond may fire. Tokens of callers are checked against the keys of their issuer.
--
-- The files.
-- - Prelude: Booleans, lists and texts as Rust's methods use them (Prelude/Tests, Lists, Results, Text, Decimal).
-- - Common: crates/latiq-common. Tier is tier.rs (`parse`, `parse_for_create`, `limits`), Timeout is timeout.rs
--   (`new`, `effective`), PondName is pond_name.rs (`validate`), Identity is identity.rs, Extensions is `parse_csv` of extensions.rs.
--   Error is error.rs: Kinds and Guidance have the tables of the kinds, Envelope has `render_facts` and the constructors of
--   `ErrorEnvelope`, Render and Laws are about them, Status is what is used of gRPC's status.
--   Trace is trace.rs (`parse`, `inbound`, `traceparent`).
-- - Storage/LocalFs: crates/latiq-storage/src/local_fs.rs. A disk is a list of pond directories; what the operating system
--   answers to a call, and how much of a failed one is done, is an argument.
-- - ControlPlane/Registry: crates/latiq-control-plane/src/registry.rs. A table is the list of its rows and an
--   SQL statement a function on it; a method is a function from the registry to its result and the new registry.
--   Nodes has `register_node`, `heartbeat`, `reap_stale_nodes` and `describe_node`; Ponds has `create_pond`,
--   `get_pond_location`, `pond_info`, `set_pond_tier`, `forget_pond` and `drop_pond`; Datasets has `in_txn`,
--   `add_dataset`, `remove_dataset` and `get_dataset`; Catalogs has `add_catalog`, `remove_catalog` and `get_catalog`;
--   Policy has `policy_set` and `policy_get`; Search has `search` and the listings. Tables, Keyed and Labels have
--   lemmas on lists of rows; Invariant and Lifecycle say what the methods keep and promise to one another.
-- - ControlPlane/Envelope: crates/latiq-control-plane/src/error.rs, `envelope`, `code` and `to_status_traced`.
-- - ControlPlane/Service: `create_pond_assignment` and `compensate` of control_service.rs, beside it. The calls
--   of others that get in between are lists of method calls, in any order and number.
-- - AgentCore/InFlight: crates/latiq-agent-core/src/inflight.rs. `register` and `begin_drop` are two steps each, as
--   they take two locks; a schedule is a list of steps.
-- - AgentCore/Placement: `placement` and `route` of crates/latiq-agent-core/src/ops.rs.
-- - AgentCore/Control: the trait of crates/latiq-agent-core/src/control.rs as a record of operations;
--   RegistryControl fills it from the registry (registry_control.rs).
-- - AgentCore/Ops: crates/latiq-agent-core/src/ops.rs. A node is a record of the states that it keeps and calls, a request a function
--   on it; Drop is `drop_pond`, Query is `run_query`, Ponds is `materialize_pond`, `describe_pond`, `list_ponds` and `allocate_pond`,
--   Trail and Requests are about the access trail.
-- - AgentCore/Redact: `redact_sql` and `strip_sql_comments` of ops.rs, as machines over the characters.
-- - AgentCore/Error: crates/latiq-agent-core/src/error.rs, with `From<EngineError>`; AgentCore/Envelope has the envelope of each error
--   that the operations of Control, Ops and Placement tell apart.
-- - PondNode/Hop: crates/latiq-pond-node/src/data_service.rs (`to_status`), forward_client.rs (`status_to_error`) and
--   grpc_control.rs (`status_err`): an error on its way between processes.
-- - AgentCore/Deadline: `Deadline::arm`, its watcher, `classify` and the drop of crates/latiq-agent-core/src/deadline.rs;
--   a run is a list of events.
-- - Auth/Jwks: crates/latiq-auth/src/jwks.rs: the import of keys; its Cache has `refresh_once`, `refresh` and
--   `key_for`, where a turn in the queue on the lock is a `Visit`.
-- - Auth/Verify: crates/latiq-auth/src/verify.rs, `Verifier::new` and the check of an address; its Token has `verify`.
-- - Engine/Sql: crates/latiq-engine/src/sql.rs, `classify` and its keyword lists.
-- Each Tests module runs the statements at concrete inputs.
--
-- Choices. Numbers are natural numbers; no modelled operation adds in machine width but the counters and
-- durations of Auth/Jwks/Cache, which saturate as they do in the code. Texts that the code walks are lists of code points;
-- texts that it only compares are strings. Every loop is a structural recursion, so there is no fuel, but for
-- the digits of a number: 20 are enough for 64 bits (Prelude/Decimal). Random
-- numbers, new identifiers and the clock are arguments, and so is code from elsewhere: `to_lowercase`,
-- the materializer (a node's answer), the answer of the identity provider, serde_json, base64, url, jsonwebtoken and `DecodingKey::from_jwk`.
-- The database carries out every statement but those that a constraint forbids, except in `drop_pond`, where it may
-- fail. A method of the registry is one step, except for the listings of datasets and catalogs, which take
-- a lock for the names and one for each row. A handler runs to its end, except for `run_query_local`, where it may
-- also be dropped at its await (`abandon_query_local`).
--
-- Not modelled: logging, most metrics and messages; DuckDB itself; the gRPC, MCP and HTTP adapters but for their errors; of ops.rs the
-- streams of Arrow batches, explain, dataset loads, catalog pulls and the lineage page; the files of lineage.
pub mod Prelude
pub mod Common
pub mod Storage
pub mod ControlPlane
pub mod AgentCore
pub mod Auth
pub mod Engine
pub mod PondNode
