-- ===== src/Engine/Sql.antt =====
-- crates/latiq-engine/src/sql.rs: what a statement looks like to the routing of reads and writes.
pub mod Laws
mod Tests
use latiq.Prelude.{
  ℕ, String, Bool, true, false, not, ◌||◌, List, [], ◌∷◌, ◌++◌, map, Option, none, some, any, find,
  ◌==◌, eqb, if◌then◌else◌,
}
use latiq.Prelude.Text.{
  Text, codes, text_eq, is_empty, is_whitespace, trim_start, starts_with, contains, split,
}

pub data SqlShape : Type 0 where
  read write unrecognized : SqlShape

-- The prefixes that make a statement a read.
abbrev pub read_prefixes : List Text
read_prefixes =
    codes "select"
    ∷ codes "with"
    ∷ codes "describe"
    ∷ codes "show"
    ∷ codes "explain"
    ∷ codes "pragma"
    ∷ codes "from"
    ∷ codes "table"
    ∷ codes "values"
    ∷ []

-- `WRITE_KEYWORDS`.
abbrev pub write_keywords : List Text
write_keywords =
    codes " insert "
    ∷ codes " update "
    ∷ codes " delete "
    ∷ codes " create "
    ∷ codes " drop "
    ∷ codes " alter "
    ∷ codes " truncate "
    ∷ codes " attach "
    ∷ codes " detach "
    ∷ codes " copy "
    ∷ codes " call "
    ∷ codes " install "
    ∷ codes " load "
    ∷ codes " replace "
    ∷ codes " analyze "
    ∷ codes " vacuum "
    ∷ codes " checkpoint "
    ∷ codes " begin "
    ∷ codes " commit "
    ∷ codes " rollback "
    ∷ codes " abort "
    ∷ codes " start transaction "
    ∷ codes " end transaction "
    ∷ []

-- `NON_READ_LEADING_KEYWORDS`.
abbrev pub non_read_leading_keywords : List Text
non_read_leading_keywords =
    codes "insert"
    ∷ codes "update"
    ∷ codes "delete"
    ∷ codes "create"
    ∷ codes "drop"
    ∷ codes "alter"
    ∷ codes "truncate"
    ∷ codes "attach"
    ∷ codes "detach"
    ∷ codes "copy"
    ∷ codes "call"
    ∷ codes "install"
    ∷ codes "load"
    ∷ codes "replace"
    ∷ codes "analyze"
    ∷ codes "vacuum"
    ∷ codes "checkpoint"
    ∷ codes "begin"
    ∷ codes "commit"
    ∷ codes "rollback"
    ∷ codes "abort"
    ∷ codes "start"
    ∷ codes "end"
    ∷ codes "set"
    ∷ codes "reset"
    ∷ codes "use"
    ∷ codes "comment"
    ∷ codes "export"
    ∷ codes "import"
    ∷ codes "merge"
    ∷ codes "grant"
    ∷ codes "revoke"
    ∷ []

-- The characters that `normalized` replaces by a space.
unfoldable pub is_replaced : ℕ → Bool
is_replaced c = eqb c b'\n' || eqb c b'\t' || eqb c b'(' || eqb c b')' || eqb c b',' || eqb c b';'

unfoldable pub normalized : Text → Text
unfolding is_replaced
normalized s = b' ' ∷ map (λ c. if is_replaced c then b' ' else c) s ++ b' ' ∷ []

-- The characters that end the first word.
unfoldable pub ends_word : ℕ → Bool
unfolding is_whitespace
ends_word c = is_whitespace c || eqb c b'(' || eqb c b';'

abbrev or_empty : Option Text → Text
or_empty none = []
or_empty (some w) = w

unfoldable pub leads_with_a_non_read_keyword : Text → Bool
unfolding ends_word
leads_with_a_non_read_keyword s =
    any (λ w. w == or_empty (find (λ u. not (is_empty u)) (split ends_word s)))
      non_read_leading_keywords

unfoldable pub starts_read : Text → Bool
starts_read s = any (starts_with s) read_prefixes

module _ (to_lowercase : Text → Text) where
  unfoldable pub classify : Text → SqlShape
  unfolding normalized leads_with_a_non_read_keyword starts_read
  classify sql =
      let s = to_lowercase (trim_start sql) in
      if starts_read s
      then if any (contains (normalized s)) write_keywords then write else read
      else if leads_with_a_non_read_keyword s
      then write
      else unrecognized

  unfoldable pub is_read_only : Text → Bool
  is_read_only sql = elim (classify sql) [ read ↦ true | write ↦ false | unrecognized ↦ false ]
