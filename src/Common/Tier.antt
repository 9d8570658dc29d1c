-- ===== src/Common/Tier.antt =====
-- crates/latiq-common/src/tier.rs: a pond's resource tier, its names and its caps.
-- The tier `None` is `uncapped` here, since `none` is the constructor of `Option`. Only what a
-- message holds is kept of it: the trimmed name that was refused.
pub mod Laws
mod Tests
use latiq.Prelude.{
  ℕ, ◌*◌, String, ◌≡◌, Bool, ◌||◌, Option, none, some, List, [], ◌∷◌, if◌then◌else◌, ◌==◌, Result,
  ok, err, ok_or, arith,
}
use latiq.Prelude.Text.{Text, codes, text_eq, trim, is_empty}

pub record ResourceLimits : Type 0 where
  pub memory_bytes : ℕ
  pub cores : ℕ

abbrev mb : ℕ
mb = 1024 * 1024

abbrev gb : ℕ
gb = 1024 * mb

pub data PondTier : Type 0 where
  uncapped x_small small medium large x_large : PondTier

-- `#[default]`.
abbrev pub default_tier : PondTier
default_tier = medium

abbrev pub all_names : List String
all_names = "x-small" ∷ "small" ∷ "medium" ∷ "large" ∷ "x-large" ∷ "none" ∷ []

abbrev pub creatable : List String
creatable = "x-small" ∷ "small" ∷ "medium" ∷ "large" ∷ "x-large" ∷ []

unfoldable pub as_str : PondTier → String
as_str uncapped = "none"
as_str x_small = "x-small"
as_str small = "small"
as_str medium = "medium"
as_str large = "large"
as_str x_large = "x-large"

-- The `match` on the lowercased name.
unfoldable pub of_name : Text → Option PondTier
of_name t =
    if t == codes "none" || t == codes "uncapped"
    then some uncapped
    else if t == codes "x-small" || t == codes "xsmall"
    then some x_small
    else if t == codes "small"
    then some small
    else if t == codes "medium"
    then some medium
    else if t == codes "large"
    then some large
    else if t == codes "x-large" || t == codes "xlarge"
    then some x_large
    else none

module _ (to_lowercase : Text → Text) where
  unfoldable pub parse : Text → Option PondTier
  unfolding of_name
  parse s = of_name (to_lowercase (trim s))

  unfoldable pub parse_for_create : Text → Result Text PondTier
  parse_for_create s = if is_empty (trim s) then ok default_tier else ok_or (parse s) (trim s)

unfoldable pub limits : PondTier → Option ResourceLimits
limits uncapped = none
limits x_small = some (record { memory_bytes = 512 * mb; cores = 1 })
limits small = some (record { memory_bytes = gb; cores = 2 })
limits medium = some (record { memory_bytes = 4 * gb; cores = 4 })
limits large = some (record { memory_bytes = 16 * gb; cores = 8 })
limits x_large = some (record { memory_bytes = 32 * gb; cores = 16 })
