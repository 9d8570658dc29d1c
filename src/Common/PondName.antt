-- ===== src/Common/PondName.antt =====
-- crates/latiq-common/src/pond_name.rs: what a pond may be called. A refusal carries what its
-- message shows: the number that the message calls characters, or the character at fault.
pub mod Laws
mod Tests
use latiq.Prelude.{
  ℕ, Option, none, some, Bool, ◌||◌, not, if◌then◌else◌, eqb, ltb, find, Result, ok, err, ◌>>=◌,
  ◌>>◌, refuse_if,
}
use latiq.Prelude.Text.{Text, is_empty, len, is_ascii_alphanumeric}

abbrev pub max_len : ℕ
max_len = 64

pub data NameError : Type 0 where
  empty : NameError
  too_long illegal : ℕ → NameError

unfoldable pub is_name_char : ℕ → Bool
is_name_char c = is_ascii_alphanumeric c || eqb c b'_' || eqb c b'-'

first_illegal : Option ℕ → Result NameError (Unit {0})
first_illegal none = ok tt
first_illegal (some bad) = err (illegal bad)

unfoldable pub validate : Text → Result NameError (Unit {0})
unfolding first_illegal
validate name = do
  refuse_if (is_empty name) empty
  refuse_if (ltb max_len (len name)) (too_long (len name))
  first_illegal (find (λ c. not (is_name_char c)) name)
