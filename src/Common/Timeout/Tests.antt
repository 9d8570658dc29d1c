-- ===== src/Common/Timeout/Tests.antt =====
-- Timeouts on small inputs.
use latiq.Prelude.{◌≡◌, refl, some}
use latiq.Common.Timeout.{effective, default_timeouts}

clamped : effective default_timeouts (some 900_000) ≡ 300_000
unfolding effective
clamped = refl

unset : effective default_timeouts (some 0) ≡ 30_000
unfolding effective
unset = refl
