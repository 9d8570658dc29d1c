-- ===== src/AgentCore/Redact.antt =====
-- crates/latiq-agent-core/src/ops.rs: `redact_sql`, which takes the literals out of a statement before
-- the access trail and the lineage record it, and `strip_sql_comments` before it. Each loop over
-- the characters is one machine that is told the character and the one behind it (`peek`).
pub mod Laws
pub mod Literals
mod Tests
use latiq.Prelude.{
  ℕ, String, Bool, true, false, ◌&&◌, ◌||◌, not, List, [], ◌∷◌, ◌++◌, map, Option, none, some, any,
  eqb, ◌==◌, nat_eq, if◌then◌else◌,
}
use latiq.Prelude.Text.{
  Text, codes, text_eq, is_empty, is_ascii_digit, is_ascii_alphanumeric, is_whitespace, ascii_lower,
}

abbrev pub quote : ℕ
quote = 39

abbrev pub peek : Text → Option ℕ
peek [] = none
peek (c ∷ s) = some c

abbrev pub peeks : ℕ → Option ℕ → Bool
peeks c none = false
peeks c (some d) = d == c

-- Where `strip_sql_comments` is: `escaped` is before the second quote of two, `opening` before the
-- star of a comment.
pub data StripMode : Type 0 where
  code in_string escaped in_line opening : StripMode
  in_block : (prev : ℕ) → StripMode

unfoldable pub strip_code : ℕ → Option ℕ → Text × StripMode
strip_code c next =
    if c == quote
    then (c ∷ [], in_string)
    else if c == b'-' && peeks b'-' next
    then ([], in_line)
    else if c == b'/' && peeks b'*' next
    then ([], opening)
    else (c ∷ [], code)

-- What one character adds to the output, and where it leads.
unfoldable pub strip_step : StripMode → ℕ → Option ℕ → Text × StripMode
unfolding strip_code
strip_step code c next = strip_code c next
strip_step in_string c next =
    if c == quote then (c ∷ [], if peeks quote next then escaped else code) else (c ∷ [], in_string)
strip_step escaped c next = (c ∷ [], in_string)
strip_step in_line c next = if c == 0x0a then (c ∷ [], code) else ([], in_line)
strip_step opening c next = ([], in_block 0)
strip_step (in_block prev) c next =
    if prev == b'*' && c == b'/' then (b' ' ∷ [], code) else ([], in_block c)

-- A comment that is not closed still leaves its space.
abbrev pub strip_end : StripMode → Text
strip_end opening = b' ' ∷ []
strip_end (in_block prev) = b' ' ∷ []
strip_end _ = []

unfoldable pub strip : StripMode → Text → Text
unfolding strip_step
strip m [] = strip_end m
strip m (c ∷ s) = let next = strip_step m c (peek s) in next.0 ++ strip next.1 s

unfoldable pub strip_sql_comments : Text → Text
unfolding strip
strip_sql_comments sql = strip code sql

abbrev parameterised_types : List String
parameterised_types =
    "DECIMAL" ∷ "DEC" ∷ "NUMERIC" ∷ "VARCHAR" ∷ "NVARCHAR" ∷ "CHAR" ∷ "CHARACTER" ∷ "VARYING"
    ∷ "BPCHAR" ∷ "TEXT" ∷ "STRING" ∷ "TIMESTAMP" ∷ "DATETIME" ∷ "BIT" ∷ "BITSTRING" ∷ "FLOAT" ∷ []

unfoldable pub is_parameterised_type : Text → Bool
is_parameterised_type word =
    any (λ t. map ascii_lower word == map ascii_lower (codes t)) parameterised_types

-- Where `redact_sql` is: in a literal's characters, which it skips, or between them.
pub data Mode : Type 0 where
  plain in_literal doubled in_number : Mode

pub record State : Type 0 where
  pub mode : Mode
  pub prev_ident : Bool
  pub word : Text
  pub type_word_pending : Bool
  pub in_type_params : Bool

abbrev pub start : State
start = record {
  mode = plain;
  prev_ident = false;
  word = [];
  type_word_pending = false;
  in_type_params = false;
}

abbrev pub is_number_char : ℕ → Bool
is_number_char c = is_ascii_digit c || c == b'.'

abbrev pub continues : Option ℕ → Bool
continues none = false
continues (some c) = is_number_char c

-- After a literal.
abbrev pub forget : Mode → State → State
forget mode st = record st { mode = mode; prev_ident = false; word = []; type_word_pending = false }

-- Whether the word that has just ended makes a type of what follows; a word may have ended before.
abbrev pub pending : State → Bool
pending st = if is_empty st.word then st.type_word_pending else is_parameterised_type st.word

-- A character that is neither part of a literal nor of an identifier.
unfoldable pub separate : ℕ → State → State
unfolding is_parameterised_type is_empty
separate c st =
    if c == b'('
    then record st {
      prev_ident = false;
      word = [];
      type_word_pending = false;
      in_type_params = pending st;
    }
    else if c == b')'
    then record st {
      prev_ident = false;
      word = [];
      type_word_pending = false;
      in_type_params = false;
    }
    else record st {
      prev_ident = false;
      word = [];
      type_word_pending = pending st && is_whitespace c;
    }

abbrev pub is_ident_char : ℕ → Bool
is_ident_char c = is_ascii_alphanumeric c || c == b'_'

unfoldable pub other_char : ℕ → State → State
unfolding separate is_ascii_alphanumeric
other_char c st =
    if is_ident_char c
    then record st { prev_ident = true; word = st.word ++ c ∷ [] }
    else separate c st

unfoldable pub plain_step : ℕ → Option ℕ → State → Text × State
unfolding other_char is_ascii_digit
plain_step c next st =
    if c == quote
    then ([], record st { mode = in_literal })
    else if is_ascii_digit c && not st.prev_ident && not st.in_type_params
    then (b'?' ∷ [], forget (if continues next then in_number else plain) st)
    else (c ∷ [], other_char c st)

unfoldable pub literal_step : ℕ → Option ℕ → State → Text × State
literal_step c next st =
    if c == quote
    then (if peeks quote next
        then ([], record st { mode = doubled })
        else (b'?' ∷ [], forget plain st))
    else ([], st)

unfoldable pub step_in : Mode → ℕ → Option ℕ → State → Text × State
unfolding plain_step literal_step
step_in plain c next st = plain_step c next st
step_in in_literal c next st = literal_step c next st
step_in doubled c next st = ([], record st { mode = in_literal })
step_in in_number c next st = ([], record st { mode = if continues next then in_number else plain })

-- A literal that is not closed is a literal all the same.
abbrev pub redact_end : Mode → Text
redact_end in_literal = b'?' ∷ []
redact_end doubled = b'?' ∷ []
redact_end _ = []

unfoldable pub redact : State → Text → Text
unfolding step_in
redact st [] = redact_end st.mode
redact st (c ∷ s) = let next = step_in st.mode c (peek s) st in next.0 ++ redact next.1 s

unfoldable pub redact_sql : Text → Text
unfolding strip_sql_comments redact
redact_sql sql = redact start (strip_sql_comments sql)
