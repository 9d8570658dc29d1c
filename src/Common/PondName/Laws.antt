-- ===== src/Common/PondName/Laws.antt =====
-- Which names `validate` accepts.
use latiq.Prelude.{
  ℕ, ◌≤◌, ◌<◌, ◌≡◌, refl, ◌↔◌, ◌⊎◌, true, not, [], ◌∷◌, none, ok, err, arith, All, find, length,
}
use latiq.Prelude.Text.{Text, is_empty, len, is_ascii_alphanumeric}
use latiq.Common.PondName.{max_len, too_long, validate, is_name_char}

abbrev pub IsNameChar : ℕ → Type 0
IsNameChar c =
    (b'a' ≤ c) × (c ≤ b'z')
    ⊎ ((b'A' ≤ c) × (c ≤ b'Z') ⊎ ((b'0' ≤ c) × (c ≤ b'9') ⊎ ((c ≡ b'_') ⊎ (c ≡ b'-'))))

is_name_char_iff : (c : ℕ) → (is_name_char c ≡ true) ↔ IsNameChar c
unfolding is_name_char is_ascii_alphanumeric
is_name_char_iff c = ground arith

-- On the legal characters bytes and characters are the same count.
len-eq-length : (s : Text) → All IsNameChar s → len s ≡ length s
unfolding len
len-eq-length [] h = refl
len-eq-length (c ∷ s) (h, hs) = ground (arith, len-eq-length s hs)

find-eq-none_iff : (s : Text) → (find (λ c. not (is_name_char c)) s ≡ none) ↔ All IsNameChar s
unfolding find
find-eq-none_iff [] = (λ e. tt, λ h. refl)
find-eq-none_iff (c ∷ s) = ground (arith, is_name_char_iff c, find-eq-none_iff s)

length-le-len : (s : Text) → length s ≤ len s
unfolding len
length-le-len [] = omega arith
length-le-len (c ∷ s) = ground (arith, length-le-len s)

-- `validate` accepts exactly the names of 1 to 64 characters, each of them an ASCII letter, a digit, `_` or `-`.
pub validate-eq-ok_iff :
    (s : Text) → (validate s ≡ ok tt) ↔ ((0 < length s) × (length s ≤ max_len) × All IsNameChar s)
unfolding validate is_empty
validate-eq-ok_iff [] = ground arith
validate-eq-ok_iff (c ∷ s) = ground (arith, find-eq-none_iff (c ∷ s), len-eq-length (c ∷ s))

-- A name of at most 64 characters that takes more than 64 bytes is refused as too long, with a number of characters that is above the number it has.
pub validate_counts_bytes :
    (s : Text)
    → length s ≤ max_len
    → max_len < len s
    → (validate s ≡ err (too_long (len s))) × (length s < len s)
unfolding validate is_empty len
validate_counts_bytes [] p q = absurd (omega arith)
validate_counts_bytes (c ∷ s) p q = (ground arith, omega arith)
