-- ===== src/Common/Error/Laws.antt =====
-- crates/latiq-common/src/error.rs: what every envelope owes a caller who reads its fields only.
use latiq.Prelude.{true, false, ◌≡◌, refl}
use latiq.Prelude.Text.{Text, codes, starts_with, contains}
use latiq.Common.Error.Kinds.{ErrorKind, Audience, audience, retryable, agent, operator}
use latiq.Common.Error.Guidance.{default_suggest, default_see}
use latiq.Common.Error.Envelope.{
  Facts, ErrorEnvelope, render_step, render, render_facts, rendered, rendered_with, new, for_kind,
}

-- The advice fits the one who is told to act on it.
abbrev pub Addresses : Audience → Text → Type 0
Addresses operator suggest = contains suggest (codes "operator") ≡ true
Addresses agent suggest = starts_with suggest (codes "Retry; if it persists") ≡ false

-- A failure that nobody classified carries no advice of its own.
abbrev pub IsOpaque : ErrorKind → (suggest see : Text) → Type 0
IsOpaque ErrorKind.internal suggest see =
    (suggest ≡ codes (default_suggest ErrorKind.internal))
    × (see ≡ codes (default_see ErrorKind.internal))
IsOpaque _ suggest see = Unit

abbrev pub IsCoherent : ErrorEnvelope → Type 0
IsCoherent env =
    (env.audience ≡ audience env.kind)
    × (env.retryable ≡ retryable env.kind)
    × Addresses env.audience env.suggest
    × IsOpaque env.kind env.suggest env.see
    × (starts_with env.see (codes "latiq://") ≡ true)

-- The canonical advice of every kind is coherent, and filling a template leaves it as it is.
pub for_kind-IsCoherent : (k : ErrorKind) (message : Text) → IsCoherent (for_kind k message)
unfolding for_kind new audience retryable default_suggest default_see contains starts_with
for_kind-IsCoherent ErrorKind.pond_not_found message = (refl, refl, refl, tt, refl)
for_kind-IsCoherent ErrorKind.dataset_not_found message = (refl, refl, refl, tt, refl)
for_kind-IsCoherent ErrorKind.name_conflict message = (refl, refl, refl, tt, refl)
for_kind-IsCoherent ErrorKind.catalog_error message = (refl, refl, refl, tt, refl)
for_kind-IsCoherent ErrorKind.parse_error message = (refl, refl, refl, tt, refl)
for_kind-IsCoherent ErrorKind.invalid_value message = (refl, refl, refl, tt, refl)
for_kind-IsCoherent ErrorKind.missing_argument message = (refl, refl, refl, tt, refl)
for_kind-IsCoherent ErrorKind.write_to_reserved_schema message = (refl, refl, refl, tt, refl)
for_kind-IsCoherent ErrorKind.result_cap_exceeded message = (refl, refl, refl, tt, refl)
for_kind-IsCoherent ErrorKind.read_only_violation message = (refl, refl, refl, tt, refl)
for_kind-IsCoherent ErrorKind.unsupported_feature message = (refl, refl, refl, tt, refl)
for_kind-IsCoherent ErrorKind.capability_unavailable message = (refl, refl, refl, tt, refl)
for_kind-IsCoherent ErrorKind.query_timeout message = (refl, refl, refl, tt, refl)
for_kind-IsCoherent ErrorKind.query_cancelled message = (refl, refl, refl, tt, refl)
for_kind-IsCoherent ErrorKind.unauthenticated message = (refl, refl, refl, tt, refl)
for_kind-IsCoherent ErrorKind.pond_unavailable message = (refl, refl, refl, tt, refl)
for_kind-IsCoherent ErrorKind.source_unavailable message = (refl, refl, refl, tt, refl)
for_kind-IsCoherent ErrorKind.storage message = (refl, refl, refl, tt, refl)
for_kind-IsCoherent ErrorKind.internal message = (refl, refl, refl, (refl, refl), refl)

pub rendered-IsCoherent :
    (k : ErrorKind) (template : Text) (facts : Facts) → IsCoherent (rendered k template facts)
unfolding rendered rendered_with new audience retryable default_suggest default_see contains
    starts_with render_facts render render_step
rendered-IsCoherent ErrorKind.pond_not_found template facts = (refl, refl, refl, tt, refl)
rendered-IsCoherent ErrorKind.dataset_not_found template facts = (refl, refl, refl, tt, refl)
rendered-IsCoherent ErrorKind.name_conflict template facts = (refl, refl, refl, tt, refl)
rendered-IsCoherent ErrorKind.catalog_error template facts = (refl, refl, refl, tt, refl)
rendered-IsCoherent ErrorKind.parse_error template facts = (refl, refl, refl, tt, refl)
rendered-IsCoherent ErrorKind.invalid_value template facts = (refl, refl, refl, tt, refl)
rendered-IsCoherent ErrorKind.missing_argument template facts = (refl, refl, refl, tt, refl)
rendered-IsCoherent ErrorKind.write_to_reserved_schema template facts = (refl, refl, refl, tt, refl)
rendered-IsCoherent ErrorKind.result_cap_exceeded template facts = (refl, refl, refl, tt, refl)
rendered-IsCoherent ErrorKind.read_only_violation template facts = (refl, refl, refl, tt, refl)
rendered-IsCoherent ErrorKind.unsupported_feature template facts = (refl, refl, refl, tt, refl)
rendered-IsCoherent ErrorKind.capability_unavailable template facts = (refl, refl, refl, tt, refl)
rendered-IsCoherent ErrorKind.query_timeout template facts = (refl, refl, refl, tt, refl)
rendered-IsCoherent ErrorKind.query_cancelled template facts = (refl, refl, refl, tt, refl)
rendered-IsCoherent ErrorKind.unauthenticated template facts = (refl, refl, refl, tt, refl)
rendered-IsCoherent ErrorKind.pond_unavailable template facts = (refl, refl, refl, tt, refl)
rendered-IsCoherent ErrorKind.source_unavailable template facts = (refl, refl, refl, tt, refl)
rendered-IsCoherent ErrorKind.storage template facts = (refl, refl, refl, tt, refl)
rendered-IsCoherent ErrorKind.internal template facts = (refl, refl, refl, (refl, refl), refl)
