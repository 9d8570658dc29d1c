-- ===== src/Common/Error/Envelope.antt =====
-- crates/latiq-common/src/error.rs: facts, the templates that are filled with them, and the envelope. The
-- loop of `render_facts` over what follows each brace is one machine over the characters: its state
-- is the key read so far, once a brace is open.
use latiq.Prelude.{
  ℕ, String, Bool, true, false, List, [], ◌∷◌, ◌++◌, Option, none, some, ◌==◌, nat_eq,
  if◌then◌else◌,
}
use latiq.Prelude.Text.{Text, codes, text_eq}
use latiq.Prelude.Decimal.{decimal}
use latiq.Common.Error.Kinds.{ErrorKind, Audience, Retryable, audience, retryable}
use latiq.Common.Error.Guidance.{default_suggest, default_see}

pub record Location : Type 0 where
  pub line : ℕ
  pub column : ℕ
  pub byte : ℕ

pub data Fact : Type 0 where
  number : ℕ → Fact
  text : Text → Fact
  flag : Bool → Fact

-- `Display` of a fact.
unfoldable pub display : Fact → Text
unfolding decimal
display (number n) = decimal n
display (text s) = s
display (flag true) = codes "true"
display (flag false) = codes "false"

abbrev pub Facts : Type 0
Facts = List (Text × Fact)

-- `m.insert(k, v)`: what is inserted last is what is found.
unfoldable pub insert_fact : String → Fact → Facts → Facts
insert_fact k v m = (codes k, v) ∷ m

unfoldable pub get : Text → Facts → Option Fact
get k [] = none
get k ((k', v) ∷ m) = if k' == k then some v else get k m

abbrev pub open_brace : ℕ
open_brace = 0x7b

abbrev pub close_brace : ℕ
close_brace = 0x7d

-- A key that no fact has stays as it was written.
abbrev pub slot_or : Text → Option Fact → Text
slot_or key (some fact) = display fact
slot_or key none = open_brace ∷ (key ++ (close_brace ∷ []))

unfoldable pub render_step : Facts → Option Text → ℕ → Text × Option Text
unfolding get display
render_step facts none c = if c == open_brace then ([], some []) else (c ∷ [], none)
render_step facts (some key) c =
    if c == close_brace then (slot_or key (get key facts), none) else ([], some (key ++ (c ∷ [])))

-- A brace that is never closed is text.
abbrev pub render_end : Option Text → Text
render_end none = []
render_end (some key) = open_brace ∷ key

unfoldable pub render : Facts → Option Text → Text → Text
unfolding render_step
render facts m [] = render_end m
render facts m (c ∷ s) = let next = render_step facts m c in next.0 ++ render facts next.1 s

unfoldable pub render_facts : (template : Text) → Facts → Text
unfolding render
render_facts template facts = render facts none template

pub record ErrorEnvelope : Type 0 where
  pub kind : ErrorKind
  pub message : Text
  pub location : Option Location
  pub suggest : Text
  pub see : Text
  pub audience : Audience
  pub retryable : Retryable
  pub facts : Facts
  pub trace_id : Option Text
  pub traceparent : Option Text

-- `ErrorEnvelope::new`, without the assertion that the theorems are about.
unfoldable pub new : ErrorKind → (message suggest see : Text) → ErrorEnvelope
unfolding audience retryable
new kind message suggest see = record {
  kind = kind;
  message = message;
  location = none;
  suggest = suggest;
  see = see;
  audience = audience kind;
  retryable = retryable kind;
  facts = [];
  trace_id = none;
  traceparent = none;
}

unfoldable pub for_kind : ErrorKind → Text → ErrorEnvelope
unfolding new default_suggest default_see
for_kind kind message = new kind message (codes (default_suggest kind)) (codes (default_see kind))

unfoldable pub rendered_with :
    ErrorKind → (template : Text) → Facts → (suggest see : Text) → ErrorEnvelope
unfolding new render_facts
rendered_with kind template facts suggest see =
    record (new kind (render_facts template facts) (render_facts suggest facts) see) {
      facts = facts;
    }

unfoldable pub rendered : ErrorKind → (template : Text) → Facts → ErrorEnvelope
unfolding rendered_with default_suggest default_see
rendered kind template facts =
    rendered_with kind template facts (codes (default_suggest kind)) (codes (default_see kind))

unfoldable pub with_location : Location → ErrorEnvelope → ErrorEnvelope
with_location loc env = record env { location = some loc }

unfoldable pub with_trace_id : Option Text → ErrorEnvelope → ErrorEnvelope
with_trace_id trace_id env = record env { trace_id = trace_id }

-- The first span that is stamped stays.
unfoldable pub first_of : Option Text → Option Text → Option Text
first_of none later = later
first_of (some t) later = some t

unfoldable pub with_traceparent : Option Text → ErrorEnvelope → ErrorEnvelope
unfolding first_of
with_traceparent traceparent env = record env { traceparent = first_of env.traceparent traceparent }

unfoldable pub with_facts : Facts → ErrorEnvelope → ErrorEnvelope
with_facts facts env = record env { facts = facts }
