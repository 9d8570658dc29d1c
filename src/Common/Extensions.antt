-- ===== src/Common/Extensions.antt =====
-- crates/latiq-common/src/extensions.rs: the comma-separated form of a pond's extensions.
pub mod Laws
mod Tests
use latiq.Prelude.{ℕ, List, [], ◌∷◌, ◌++◌, map, not, eqb, keep}
use latiq.Prelude.Text.{Text, is_empty, trim, split}

-- `[String]::join(",")`, by which the registry stores a list.
unfoldable pub join : List Text → Text
join [] = []
join (x ∷ []) = x
join (x ∷ y ∷ rest) = x ++ b',' ∷ join (y ∷ rest)

unfoldable pub parse_csv : Text → List Text
parse_csv s = keep (λ x. not (is_empty x)) (map trim (split (λ c. eqb c b',') s))
