-- ===== src/Common/Tier/Laws.antt =====
-- What a tier's name and its caps promise.
use latiq.Prelude.{ℕ, ◌<◌, ◌^◌, ◌≡◌, refl, Option, some, arith}
use latiq.Prelude.Text.{Text, codes, text_eq, text_beq, trim, ascii_lower, LowersAscii}
use latiq.Common.Tier.{
  PondTier, uncapped, x_small, small, medium, large, x_large, ResourceLimits, as_str, parse, limits,
}

-- A canonical name parses back to its tier, whatever `to_lowercase` does beyond ASCII.
pub parse-as_str :
    (to_lowercase : Text → Text) (t : PondTier)
    → LowersAscii to_lowercase
    → parse to_lowercase (codes (as_str t)) ≡ some t
unfolding parse as_str trim text_beq ascii_lower
parse-as_str lower uncapped h = rw (h (codes "none") (omega arith)) refl
parse-as_str lower x_small h = rw (h (codes "x-small") (omega arith)) refl
parse-as_str lower small h = rw (h (codes "small") (omega arith)) refl
parse-as_str lower medium h = rw (h (codes "medium") (omega arith)) refl
parse-as_str lower large h = rw (h (codes "large") (omega arith)) refl
parse-as_str lower x_large h = rw (h (codes "x-large") (omega arith)) refl

-- The place of a tier on the ladder that the sizes climb.
abbrev pub rank : PondTier → ℕ
rank uncapped = 0
rank x_small = 1
rank small = 2
rank medium = 3
rank large = 4
rank x_large = 5

abbrev pub IsLarger : Option ResourceLimits → Option ResourceLimits → Type 0
IsLarger (some a) (some b) =
    (a.memory_bytes < b.memory_bytes) × (a.cores < b.cores) × (b.memory_bytes < 2 ^ 64)
IsLarger _ _ = ⊥

-- Every rung of the ladder is strictly bigger than each rung below it, in memory and in cores, and
-- its memory fits a `u64`.
pub limits-IsLarger :
    (s t : PondTier) → 0 < rank s → rank s < rank t → IsLarger (limits s) (limits t)
unfolding limits
limits-IsLarger uncapped t p q = absurd (omega arith)
limits-IsLarger x_small uncapped p q = absurd (omega arith)
limits-IsLarger x_small _ p q = omega arith
limits-IsLarger small uncapped p q = absurd (omega arith)
limits-IsLarger small _ p q = omega arith
limits-IsLarger medium uncapped p q = absurd (omega arith)
limits-IsLarger medium _ p q = omega arith
limits-IsLarger large uncapped p q = absurd (omega arith)
limits-IsLarger large _ p q = omega arith
limits-IsLarger x_large uncapped p q = absurd (omega arith)
limits-IsLarger x_large _ p q = omega arith
