-- ===== src/Common/Extensions/Tests.antt =====
-- Extension lists on small inputs.
use latiq.Prelude.{◌≡◌, refl, [], ◌∷◌}
use latiq.Prelude.Text.{codes}
use latiq.Common.Extensions.{parse_csv}

blanks : parse_csv (codes " a,,b ") ≡ codes "a" ∷ codes "b" ∷ []
unfolding parse_csv latiq.Prelude.keep latiq.Prelude.Text.split latiq.Prelude.Text.is_empty
    latiq.Prelude.Text.trim
blanks = refl
