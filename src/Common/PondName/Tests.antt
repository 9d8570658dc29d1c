-- ===== src/Common/PondName/Tests.antt =====
-- Names on small inputs.
use latiq.Prelude.{◌≡◌, ◌≤◌, ◌<◌, ◌↔◌, ok, length, All}
use latiq.Prelude.Text.{Text, codes}
use latiq.Common.PondName.{max_len, validate}
use latiq.Common.PondName.Laws.{IsNameChar, validate-eq-ok_iff}

-- 33 times a letter of two bytes.
abbrev accents : Text
accents = codes "ééééééééééééééééééééééééééééééééé"

validate-eq-ok_iff_example : (validate (codes "crm_2") ≡ ok tt) ↔ (
    (0 < length (codes "crm_2"))
    × (length (codes "crm_2") ≤ max_len)
    × All IsNameChar (codes "crm_2"))
validate-eq-ok_iff_example = validate-eq-ok_iff (codes "crm_2")
