-- ===== src/Common/Extensions/Laws.antt =====
-- What survives the stored form of a list of extensions.
use latiq.Prelude.{
  ℕ, Bool, false, not, ◌≡◌, ◌≢◌, refl, ap, ◌∙◌, List, [], ◌∷◌, ◌++◌, map, eqb, All, keep, arith,
}
use latiq.Prelude.Text.{Text, is_empty, trim, split}
use latiq.Common.Extensions.{join, parse_csv}

abbrev is_comma : ℕ → Bool
is_comma c = eqb c b','

abbrev pub HasNoComma : Text → Type 0
HasNoComma = All (λ c. c ≢ b',')

-- A name that the comma-separated form can hold: trimmed, not empty and without a comma.
abbrev pub IsName : Text → Type 0
IsName x = (trim x ≡ x) × (x ≢ []) × HasNoComma x

split-last : (x : Text) → HasNoComma x → split is_comma x ≡ x ∷ []
unfolding split
split-last [] h = refl
split-last (c ∷ x) (h, hs) = ground (arith, split-last x hs)

split-append :
    (x rest : Text) → HasNoComma x → split is_comma (x ++ b',' ∷ rest) ≡ x ∷ split is_comma rest
unfolding split
split-append [] rest h = refl
split-append (c ∷ x) rest (h, hs) = ground (arith, split-append x rest hs)

split-join :
    (x : Text) (xs : List Text) → All IsName (x ∷ xs) → split is_comma (join (x ∷ xs)) ≡ x ∷ xs
unfolding join
split-join x [] (h, hs) = split-last x h.2
split-join x (y ∷ xs) (h, hs) =
    split-append x (join (y ∷ xs)) h.2 ∙ ap (λ l. x ∷ l) (split-join y xs hs)

keep-trim : (xs : List Text) → All IsName xs → keep (λ x. not (is_empty x)) (map trim xs) ≡ xs
unfolding keep is_empty
keep-trim [] h = refl
keep-trim (x ∷ xs) ((trimmed, ne, _), hs) =
    rw (trimmed, nonempty x ne) (ap (λ l. x ∷ l) (keep-trim xs hs))
  where
    nonempty : (x : Text) → x ≢ [] → is_empty x ≡ false
    nonempty [] ne = absurd (ne refl)
    nonempty (c ∷ x) ne = refl

-- A list of trimmed, non-empty names without commas comes back from its stored form as it was.
pub parse_csv-join : (xs : List Text) → All IsName xs → parse_csv (join xs) ≡ xs
unfolding parse_csv join keep split is_empty trim
parse_csv-join [] h = refl
parse_csv-join (x ∷ xs) h = rw (split-join x xs h) (keep-trim (x ∷ xs) h)
