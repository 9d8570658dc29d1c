-- ===== src/Engine/Sql/Laws.antt =====
-- What the guard of the read path stops.
use mathlib.Core.List.{Memᴰ}
use mathlib.Core.Path.{subst}
use latiq.ControlPlane.Registry.Tables.{All-of-Memᴰ}
use latiq.Prelude.{
  ℕ, Bool, true, false, not, ◌||◌, ◌≡◌, ◌≢◌, refl, sym, ap, ◌∙◌, inl, inr, List, [], ◌∷◌, ◌++◌, map,
  any, all, ◌&&◌, any-of-Memᴰ, find, All, ◌==◌, eqb, eqb_iff, arith, if◌then◌else◌, Bool-cases,
}
use latiq.Prelude.Text.{
  codes, Text, text_beq_iff, text_eq, is_empty, trim_start, starts_with, contains, split,
  cons_piece,
}
use latiq.Engine.Sql.{
  read, write, read_prefixes, write_keywords, non_read_leading_keywords, is_replaced, normalized,
  ends_word, leads_with_a_non_read_keyword, starts_read, classify,
}

-- A word between two spaces.
abbrev pub pad : Text → Text
pad w = b' ' ∷ w ++ b' ' ∷ []

-- What bounds a word of a statement: a space, a line feed, a tab, a parenthesis, a comma or a semicolon.
unfoldable pub is_separator : ℕ → Bool
is_separator c = any (eqb c) (codes " \n\t(),;")

is_separator-replaced : (c : ℕ) → is_separator c ≡ is_replaced c || eqb c b' '
unfolding is_separator is_replaced any
is_separator-replaced c = ground arith

-- The first of the words begins the text, and each of the others is in it between two spaces.
IsSpelled : Text → List Text → Type 0
IsSpelled t [] = ⊥
IsSpelled t (u ∷ us) =
    (starts_with t (u ++ b' ' ∷ []) ≡ true) × All (λ w. contains t (pad w) ≡ true) us

All-map_imp :
    (P Q : Text → Type 0) (ws : List Text) → ((w : Text) → P w → Q w) → All P ws → All Q ws
All-map_imp P Q [] f h = tt
All-map_imp P Q (w ∷ ws) f (h, hs) = (f w h, All-map_imp P Q ws f hs)

contains-cons : (c : ℕ) (t p : Text) → contains t p ≡ true → contains (c ∷ t) p ≡ true
unfolding contains
contains-cons c t p h = ground (arith, h)

IsSpelled-separator : (t : Text) (ws : List Text) → IsSpelled t ws → IsSpelled (b' ' ∷ t) ([] ∷ ws)
unfolding IsSpelled starts_with contains
IsSpelled-separator t [] h = absurd h
IsSpelled-separator t (u ∷ us) (h, hs) =
    (refl, (rw h refl, All-map_imp _ _ us (λ w. contains-cons b' ' t (pad w)) hs))

IsSpelled-letter :
    (c : ℕ) (t : Text) (ws : List Text) → IsSpelled t ws → IsSpelled (c ∷ t) (cons_piece c ws)
unfolding IsSpelled starts_with cons_piece
IsSpelled-letter c t [] h = absurd h
IsSpelled-letter c t (u ∷ us) (h, hs) =
    (ground (arith, eqb_iff c c, h), All-map_imp _ _ us (λ w. contains-cons c t (pad w)) hs)

abbrev spaced : Text → Text
spaced s = map (λ c. if is_replaced c then b' ' else c) s ++ b' ' ∷ []

split-IsSpelled : (s : Text) → IsSpelled (spaced s) (split is_separator s)
unfolding split IsSpelled starts_with
split-IsSpelled [] = (refl, tt)
split-IsSpelled (c ∷ s) = elim (Bool-cases (is_replaced c)) [
  | inl e ↦
      let bound : is_separator c ≡ true = ground (arith, is_separator-replaced c) in
      rw (e, bound) (IsSpelled-separator (spaced s) (split is_separator s) (split-IsSpelled s))
  | inr e ↦ elim (Bool-cases (eqb c b' ')) [
    | inl blank ↦
        let bound : is_separator c ≡ true = ground (arith, is_separator-replaced c) in
        rw (e, bound)
          (subst (λ x. IsSpelled (x ∷ spaced s) ([] ∷ split is_separator s))
            (sym ((eqb_iff c b' ').0 blank))
            (IsSpelled-separator (spaced s) (split is_separator s) (split-IsSpelled s)))
    | inr letter ↦
        let inside : is_separator c ≡ false = ground (arith, is_separator-replaced c) in
        rw (e, inside) (IsSpelled-letter c (spaced s) (split is_separator s) (split-IsSpelled s))
  ]
]

IsSpelled-contains :
    (t w : Text) (ws : List Text) → IsSpelled t ws → Memᴰ w ws → contains (b' ' ∷ t) (pad w) ≡ true
unfolding IsSpelled contains starts_with
IsSpelled-contains t w [] h m = absurd h
IsSpelled-contains t w (u ∷ us) (h, hs) (Memᴰ.head e) =
    let here : starts_with t (w ++ b' ' ∷ []) ≡ true = rw e h in rw here refl
IsSpelled-contains t w (u ∷ us) (h, hs) (Memᴰ.tail m) =
    contains-cons b' ' t (pad w) (All-of-Memᴰ (λ x. contains t (pad x) ≡ true) us w hs m)

-- A statement in which a keyword of the guard stands as a word, between two separators or at an end, is
-- never taken for a read, whatever stands around it.
pub classify-keyword :
    (to_lowercase : Text → Text) (sql w : Text)
    → Memᴰ (pad w) write_keywords
    → Memᴰ w (split is_separator (to_lowercase (trim_start sql)))
    → classify to_lowercase sql ≢ read
unfolding classify normalized
classify-keyword lower sql w keyword word =
    let s = lower (trim_start sql) in
    let found : contains (normalized s) (pad w) ≡ true =
      IsSpelled-contains (spaced s) w (split is_separator s) (split-IsSpelled s) word in
    let caught = any-of-Memᴰ (contains (normalized s)) write_keywords (pad w) keyword found in
    λ h. ground (arith, caught, h)

-- Two texts differ at a place that both have.
clashes : Text → Text → Bool
clashes (c ∷ w) (d ∷ p) = not (eqb c d) || clashes w p
clashes _ _ = false

starts_with-clashes : (w p rest : Text) → clashes w p ≡ true → starts_with (w ++ rest) p ≡ false
unfolding clashes starts_with
starts_with-clashes [] p rest h = absurd (cc)
starts_with-clashes (c ∷ w) [] rest h = absurd (cc)
starts_with-clashes (c ∷ w) (d ∷ p) rest h = ground (arith, starts_with-clashes w p rest)

any-clashes :
    (w rest : Text) (ps : List Text)
    → all (clashes w) ps ≡ true
    → any (starts_with (w ++ rest)) ps ≡ false
unfolding all any
any-clashes w rest [] h = refl
any-clashes w rest (p ∷ ps) h = ground (arith, any-clashes w rest ps, starts_with-clashes w p rest)

module _ {ℓ} {A : Type ℓ} where
  -- What a test says of every element.
  all-Memᴰ : (p : A → Bool) (xs : List A) (a : A) → all p xs ≡ true → Memᴰ a xs → p a ≡ true
  unfolding all
  all-Memᴰ p [] a h m = elim m [ ]
  all-Memᴰ p (x ∷ xs) a h (Memᴰ.head e) = ap p e ∙ ground arith
  all-Memᴰ p (x ∷ xs) a h (Memᴰ.tail m) = all-Memᴰ p xs a (ground arith) m

-- No leading keyword of a write begins like one of a read, and none has a boundary in it.
keywords-clashes : all (λ w. all (clashes w) read_prefixes) non_read_leading_keywords ≡ true
unfolding all clashes
keywords-clashes = refl

abbrev is_word : Text → Bool
is_word w = not (is_empty w) && all (λ c. not (ends_word c)) w

keywords-is_word : all is_word non_read_leading_keywords ≡ true
unfolding all ends_word is_empty
keywords-is_word = refl

split-word :
    (w rest : Text) (b : ℕ)
    → all (λ c. not (ends_word c)) w ≡ true
    → ends_word b ≡ true
    → split ends_word (w ++ b ∷ rest) ≡ w ∷ split ends_word rest
unfolding split cons_piece all
split-word [] rest b h e = rw e refl
split-word (c ∷ w) rest b h e = elim (Bool-cases (ends_word c)) [
  | inl bound ↦ absurd (cc (rw bound at h))
  | inr letter ↦ rw letter (ap (cons_piece c) (split-word w rest b (rw letter at h) e))
]

leads-word :
    (w rest : Text) (b : ℕ)
    → Memᴰ w non_read_leading_keywords
    → is_word w ≡ true
    → ends_word b ≡ true
    → leads_with_a_non_read_keyword (w ++ b ∷ rest) ≡ true
unfolding leads_with_a_non_read_keyword find
leads-word w rest b keyword word bound =
    let (filled, letters) : (not (is_empty w) ≡ true) × (all (λ c. not (ends_word c)) w ≡ true) =
      ground arith in
    rw (split-word w rest b letters bound) (
      rw filled
        (any-of-Memᴰ (λ x. x == w) non_read_leading_keywords w keyword ((text_beq_iff w w).1 refl)))

-- A statement whose first word is one of the leading keywords of writes, before white space, a
-- parenthesis or a semicolon, is always taken for a write.
pub classify-leading :
    (to_lowercase : Text → Text) (sql w rest : Text) (b : ℕ)
    → Memᴰ w non_read_leading_keywords
    → ends_word b ≡ true
    → to_lowercase (trim_start sql) ≡ w ++ b ∷ rest
    → classify to_lowercase sql ≡ write
unfolding classify starts_read
classify-leading lower sql w rest b keyword bound e =
    let none_read = any-clashes w (b ∷ rest) read_prefixes (
      all-Memᴰ (λ x. all (clashes x) read_prefixes) non_read_leading_keywords w keywords-clashes
        keyword) in
    let word = all-Memᴰ is_word non_read_leading_keywords w keywords-is_word keyword in
    rw e (rw (none_read, leads-word w rest b keyword word bound) refl)
