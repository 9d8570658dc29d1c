-- ===== src/Prelude/Text.antt =====
-- Rust's `str` where the code walks its characters: a list of Unicode code points, with the
-- methods of the standard library that the sources call. `str::to_lowercase` depends on Unicode's
-- tables, so it is an argument of the definitions that call it; `LowersAscii` is what they rely on.
use Prim.Native.Nat.{ℕ, ◌+◌, ◌<◌}
use Prim.Native.Char.{code}
use Prim.Native.String.{String}
use mathlib.Core.Path.{◌≡◌, refl}
use mathlib.Core.Logic.{◌↔◌}
use mathlib.Core.Bool.{Bool, true, false, ◌&&◌, ◌||◌}
use mathlib.Core.Option.{Option, none, some}
use mathlib.Core.List.{List, [], ◌∷◌, map, reverse}
use native.Mathlib.Omega.{arith}
use latiq.Prelude.Tests.{leb, ltb, eqb, Eq, if◌then◌else◌}
use latiq.Prelude.Lists.{All}

abbrev pub Text : Type 0
Text = List ℕ

-- The code points of a literal.
abbrev pub codes : String → Text
codes String.[] = []
codes (String.◌∷◌ c s) = code c ∷ codes s

unfoldable pub text_beq : Text → Text → Bool
text_beq [] [] = true
text_beq [] (d ∷ t) = false
text_beq (c ∷ s) [] = false
text_beq (c ∷ s) (d ∷ t) = eqb c d && text_beq s t

pub text_beq_iff : (s t : Text) → (text_beq s t ≡ true) ↔ (s ≡ t)
unfolding text_beq
text_beq_iff [] [] = (λ h. refl, λ h. refl)
text_beq_iff [] (d ∷ t) = (λ h. cc, λ h. cc)
text_beq_iff (c ∷ s) [] = (λ h. cc, λ h. cc)
text_beq_iff (c ∷ s) (d ∷ t) = ground (arith, text_beq_iff s t)

instance abbrev pub text_eq : Eq Text
text_eq = record { same = text_beq; same_iff = text_beq_iff }

-- `str::len`: the bytes of the UTF-8 encoding.
unfoldable pub utf8_len : ℕ → ℕ
utf8_len c = if ltb c 0x80 then 1 else if ltb c 0x800 then 2 else if ltb c 0x10000 then 3 else 4

unfoldable pub len : Text → ℕ
unfolding utf8_len
len [] = 0
len (c ∷ s) = utf8_len c + len s

unfoldable pub is_empty : Text → Bool
is_empty [] = true
is_empty (c ∷ s) = false

unfoldable pub is_ascii_digit : ℕ → Bool
is_ascii_digit c = leb b'0' c && leb c b'9'

unfoldable pub is_ascii_alphabetic : ℕ → Bool
is_ascii_alphabetic c = (leb b'a' c && leb c b'z') || (leb b'A' c && leb c b'Z')

unfoldable pub is_ascii_alphanumeric : ℕ → Bool
unfolding is_ascii_digit is_ascii_alphabetic
is_ascii_alphanumeric c = is_ascii_alphabetic c || is_ascii_digit c

-- `char::is_whitespace`: Unicode's property White_Space.
unfoldable pub is_whitespace : ℕ → Bool
is_whitespace c =
    (leb 0x09 c && leb c 0x0d)
    || eqb c 0x20
    || eqb c 0x85
    || eqb c 0xa0
    || eqb c 0x1680
    || (leb 0x2000 c && leb c 0x200a)
    || eqb c 0x2028
    || eqb c 0x2029
    || eqb c 0x202f
    || eqb c 0x205f
    || eqb c 0x3000

-- `char::is_control`: Unicode's category Cc.
unfoldable pub is_control : ℕ → Bool
is_control c = ltb c 0x20 || (leb 0x7f c && leb c 0x9f)

unfoldable pub trim_start_while : (ℕ → Bool) → Text → Text
trim_start_while p [] = []
trim_start_while p (c ∷ s) = if p c then trim_start_while p s else c ∷ s

unfoldable pub trim_end_while : (ℕ → Bool) → Text → Text
unfolding trim_start_while
trim_end_while p s = reverse (trim_start_while p (reverse s))

unfoldable pub trim_start : Text → Text
unfolding trim_start_while is_whitespace
trim_start s = trim_start_while is_whitespace s

unfoldable pub trim : Text → Text
unfolding trim_start trim_end_while
trim s = trim_end_while is_whitespace (trim_start s)

unfoldable pub starts_with : Text → Text → Bool
starts_with s [] = true
starts_with [] (d ∷ p) = false
starts_with (c ∷ s) (d ∷ p) = eqb c d && starts_with s p

-- `s.contains(p)` for a text `p`.
unfoldable pub contains : Text → Text → Bool
unfolding starts_with
contains [] p = starts_with [] p
contains (c ∷ s) p = starts_with (c ∷ s) p || contains s p

-- `s.split(p)` for a test on characters: the pieces between the characters that pass.
unfoldable pub cons_piece : ℕ → List Text → List Text
cons_piece c [] = (c ∷ []) ∷ []
cons_piece c (w ∷ ws) = (c ∷ w) ∷ ws

unfoldable pub split : (ℕ → Bool) → Text → List Text
unfolding cons_piece
split p [] = [] ∷ []
split p (c ∷ s) = let rest = split p s in if p c then [] ∷ rest else cons_piece c rest

-- `s.split_once(p)` for a text `p`: what stands before and after its first occurrence.
before : ℕ → Option (Text × Text) → Option (Text × Text)
before c none = none
before c (some (l, r)) = some (c ∷ l, r)

unfoldable pub strip_prefix : Text → Text → Option Text
strip_prefix s [] = some s
strip_prefix [] (d ∷ p) = none
strip_prefix (c ∷ s) (d ∷ p) = if eqb c d then strip_prefix s p else none

pub at_prefix : Option Text → Option (Text × Text) → Option (Text × Text)
at_prefix (some r) later = some ([], r)
at_prefix none later = later

unfoldable pub split_once : Text → Text → Option (Text × Text)
unfolding before strip_prefix at_prefix
split_once [] p = at_prefix (strip_prefix [] p) none
split_once (c ∷ s) p = at_prefix (strip_prefix (c ∷ s) p) (before c (split_once s p))

unfoldable pub ascii_lower : ℕ → ℕ
ascii_lower c = if leb b'A' c && leb c b'Z' then c + 32 else c

abbrev pub IsAscii : Text → Type 0
IsAscii = All (λ c. c < 128)

-- The documented behaviour of `to_lowercase` on an ASCII text.
abbrev pub LowersAscii : (Text → Text) → Type 0
LowersAscii lower = (s : Text) → IsAscii s → lower s ≡ map ascii_lower s
