-- ===== src/Common/Tier/Tests.antt =====
-- Tiers on small inputs.
use latiq.Prelude.{◌≡◌, refl, map}
use latiq.Prelude.Text.{Text, IsAscii, ascii_lower}

abbrev lower : Text → Text
lower = map ascii_lower

lower-LowersAscii : (s : Text) → IsAscii s → lower s ≡ map ascii_lower s
lower-LowersAscii s h = refl
