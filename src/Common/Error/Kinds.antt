-- ===== src/Common/Error/Kinds.antt =====
-- crates/latiq-common/src/error.rs: the kinds of failure, and what each tells a caller by itself: who can
-- fix it, and whether the call may be sent again.
use latiq.Prelude.{String, List, [], ◌∷◌}

pub data ErrorKind : Type 0 where
  pond_not_found dataset_not_found name_conflict catalog_error parse_error invalid_value
        missing_argument write_to_reserved_schema result_cap_exceeded read_only_violation
        unsupported_feature capability_unavailable query_timeout query_cancelled unauthenticated
        pond_unavailable source_unavailable storage internal :
      ErrorKind

pub data Audience : Type 0 where
  agent operator : Audience

pub data Retryable : Type 0 where
  never as_is after_change after_provisioning : Retryable

-- `ErrorKind::ALL`.
abbrev pub kinds : List ErrorKind
kinds =
    pond_not_found ∷ dataset_not_found ∷ name_conflict ∷ catalog_error ∷ parse_error ∷ invalid_value
    ∷ missing_argument ∷ write_to_reserved_schema ∷ result_cap_exceeded ∷ read_only_violation
    ∷ unsupported_feature ∷ capability_unavailable ∷ query_timeout ∷ query_cancelled
    ∷ unauthenticated ∷ pond_unavailable ∷ source_unavailable ∷ storage ∷ internal ∷ []

unfoldable pub as_str : ErrorKind → String
as_str pond_not_found = "pond_not_found"
as_str dataset_not_found = "dataset_not_found"
as_str name_conflict = "name_conflict"
as_str catalog_error = "catalog_error"
as_str parse_error = "parse_error"
as_str invalid_value = "invalid_value"
as_str missing_argument = "missing_argument"
as_str write_to_reserved_schema = "write_to_reserved_schema"
as_str result_cap_exceeded = "result_cap_exceeded"
as_str read_only_violation = "read_only_violation"
as_str unsupported_feature = "unsupported_feature"
as_str capability_unavailable = "capability_unavailable"
as_str query_timeout = "query_timeout"
as_str query_cancelled = "query_cancelled"
as_str unauthenticated = "unauthenticated"
as_str pond_unavailable = "pond_unavailable"
as_str source_unavailable = "source_unavailable"
as_str storage = "storage"
as_str internal = "internal"

unfoldable pub audience : ErrorKind → Audience
audience pond_not_found = agent
audience dataset_not_found = agent
audience name_conflict = agent
audience catalog_error = agent
audience parse_error = agent
audience invalid_value = agent
audience missing_argument = agent
audience write_to_reserved_schema = agent
audience result_cap_exceeded = agent
audience read_only_violation = agent
audience unsupported_feature = agent
audience capability_unavailable = operator
audience query_timeout = agent
audience query_cancelled = agent
audience unauthenticated = agent
audience pond_unavailable = operator
audience source_unavailable = agent
audience storage = operator
audience internal = operator

unfoldable pub retryable : ErrorKind → Retryable
retryable pond_not_found = after_change
retryable dataset_not_found = after_change
retryable name_conflict = after_change
retryable catalog_error = after_change
retryable parse_error = after_change
retryable invalid_value = after_change
retryable missing_argument = after_change
retryable write_to_reserved_schema = after_change
retryable result_cap_exceeded = after_change
retryable read_only_violation = never
retryable unsupported_feature = after_change
retryable capability_unavailable = after_provisioning
retryable query_timeout = as_is
retryable query_cancelled = as_is
retryable unauthenticated = after_change
retryable pond_unavailable = never
retryable source_unavailable = as_is
retryable storage = as_is
retryable internal = as_is
