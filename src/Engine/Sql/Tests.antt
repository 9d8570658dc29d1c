-- ===== src/Engine/Sql/Tests.antt =====
-- Statements and their shapes.
use mathlib.Core.List.{Memᴰ}
use latiq.Prelude.{ℕ, ◌≡◌, ◌≢◌, refl, List, [], ◌∷◌, ◌++◌, map}
use latiq.Prelude.Text.{Text, codes, ascii_lower}
use latiq.Engine.Sql.{read, write, unrecognized, classify}
use latiq.Engine.Sql.Laws.{classify-keyword, classify-leading}

abbrev lower : Text → Text
lower = map ascii_lower

classify-keyword_example : classify lower (codes " SELECT 1;Drop(t)") ≢ read
unfolding latiq.Prelude.Text.split latiq.Prelude.Text.trim_start latiq.Engine.Sql.is_replaced
    ascii_lower latiq.Engine.Sql.Laws.is_separator latiq.Prelude.any
classify-keyword_example =
    classify-keyword lower (codes " SELECT 1;Drop(t)") (codes "drop")
      (Memᴰ.tail (Memᴰ.tail (Memᴰ.tail (Memᴰ.tail (Memᴰ.head refl)))))
      (Memᴰ.tail (Memᴰ.tail (Memᴰ.head refl)))

select_is_read : classify lower (codes "SELECT 1") ≡ read
unfolding classify latiq.Prelude.any latiq.Prelude.Text.starts_with latiq.Prelude.Text.trim_start
    ascii_lower latiq.Prelude.Text.contains
select_is_read = refl

typo_is_unrecognized : classify lower (codes "SELEKT 1") ≡ unrecognized
unfolding classify latiq.Prelude.any latiq.Prelude.Text.starts_with latiq.Prelude.Text.trim_start
    ascii_lower latiq.Prelude.Text.text_beq latiq.Prelude.find latiq.Prelude.Text.split
    latiq.Prelude.Text.is_empty
typo_is_unrecognized = refl

-- A carriage return is white space to the engine and not to the guard.
carriage_return_hides_a_drop :
    classify lower (codes "SELECT 1;\nDROP" ++ b'\r' ∷ b'\n' ∷ codes "TABLE t") ≡ read
unfolding classify latiq.Prelude.any latiq.Prelude.Text.starts_with latiq.Prelude.Text.trim_start
    ascii_lower latiq.Prelude.Text.contains
carriage_return_hides_a_drop = refl
