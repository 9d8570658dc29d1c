-- ===== src/Common/Trace.antt =====
-- crates/latiq-common/src/trace.rs: the W3C `traceparent` of a request. What a new UUID draws, without its
-- dashes, is an argument.
pub mod Laws
mod Tests
use latiq.Prelude.{
  ℕ, Bool, true, false, not, ◌&&◌, ◌||◌, List, [], ◌∷◌, ◌++◌, Option, none, some, all, leb, eqb,
  take, ◌==◌, ◌+◌, ◌-◌, ◌*◌, ◌%◌, if◌then◌else◌,
}
use latiq.Prelude.Text.{Text, codes, text_eq, len, is_empty, is_ascii_digit, trim, split}

pub record TraceContext : Type 0 where
  pub trace_id : Text
  pub span_id : Text
  pub sampled : Bool

unfoldable pub is_lower_hex_digit : ℕ → Bool
unfolding is_ascii_digit
is_lower_hex_digit c = is_ascii_digit c || (leb b'a' c && leb c b'f')

unfoldable pub is_lower_hex : Text → ℕ → Bool
unfolding is_lower_hex_digit len all
is_lower_hex s n = eqb (len s) n && all is_lower_hex_digit s

abbrev pub is_zero : ℕ → Bool
is_zero c = eqb c b'0'

abbrev pub is_dash : ℕ → Bool
is_dash c = eqb c b'-'

-- `TraceContext::new`, from two draws.
unfoldable pub new : (trace span : Text) → TraceContext
new trace span = record { trace_id = trace; span_id = take 16 span; sampled = true }

-- `u8::from_str_radix(flags, 16)` on digits, and its lowest bit.
unfoldable pub hex_value : ℕ → ℕ
unfolding is_ascii_digit
hex_value c = if is_ascii_digit c then c - b'0' else c - b'a' + 10

unfoldable pub radix16 : ℕ → Text → ℕ
unfolding hex_value
radix16 acc [] = acc
radix16 acc (c ∷ s) = radix16 (acc * 16 + hex_value c) s

unfoldable pub is_id : Text → ℕ → Bool
unfolding is_lower_hex all
is_id s n = is_lower_hex s n && not (all is_zero s)

unfoldable pub is_some : List Text → Bool
is_some [] = false
is_some (w ∷ ws) = true

unfoldable pub parse_fields : (span : Text) → List Text → Option TraceContext
unfolding is_lower_hex is_id radix16 is_some
parse_fields span (version ∷ trace_id ∷ parent_id ∷ flags ∷ rest) =
    if version == codes "00" && is_some rest
    then none
    else if not (is_lower_hex version 2) || version == codes "ff"
    then none
    else if not (is_id trace_id 32)
    then none
    else if not (is_id parent_id 16)
    then none
    else if not (is_lower_hex flags 2)
    then none
    else some (record {
      trace_id = trace_id;
      span_id = take 16 span;
      sampled = eqb (radix16 0 flags % 2) 1;
    })
parse_fields span _ = none

unfoldable pub parse : (span : Text) → (header : Text) → Option TraceContext
unfolding parse_fields trim split
parse span header = parse_fields span (split is_dash (trim header))

unfoldable pub or_new : Option TraceContext → TraceContext → TraceContext
or_new (some t) fresh = t
or_new none fresh = fresh

-- `TraceContext::inbound`, from the draws that it may make.
unfoldable pub inbound : (trace span : Text) → Option Text → TraceContext
unfolding or_new parse new
inbound trace span none = new trace span
inbound trace span (some header) = or_new (parse span header) (new trace span)

abbrev pub flags_of : Bool → Text
flags_of true = codes "01"
flags_of false = codes "00"

unfoldable pub traceparent : TraceContext → Text
traceparent t = codes "00-" ++ (t.trace_id ++ (b'-' ∷ (t.span_id ++ (b'-' ∷ flags_of t.sampled))))
