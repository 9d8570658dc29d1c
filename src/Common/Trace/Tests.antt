-- ===== src/Common/Trace/Tests.antt =====
-- Runs of the headers of a trace.
use latiq.Prelude.{List, [], ◌∷◌, some, ◌≡◌, refl, all}
use latiq.Prelude.Text.{Text, codes, len, utf8_len, is_ascii_digit}
use latiq.Common.Trace.{is_lower_hex_digit, is_lower_hex, is_id, inbound}
use latiq.Common.Trace.Laws.{IsContext, passed, passed-inbound}

abbrev trace : Text
trace = codes "4bf92f3577b34da6a3ce929d0e0e4736"

abbrev span : Text
span = codes "00f067aa0ba902b700f067aa0ba902b7"

abbrev hops : List (Text × Text)
hops = (span, trace) ∷ (trace, span) ∷ []

abbrev malformed : Text
malformed = codes "00-4BF92F-00f067aa0ba902b7-01"

passed-inbound_example :
    IsContext (passed hops (inbound trace span (some malformed)))
    × ((passed hops (inbound trace span (some malformed))).trace_id
        ≡ (inbound trace span (some malformed)).trace_id)
    × ((passed hops (inbound trace span (some malformed))).sampled
        ≡ (inbound trace span (some malformed)).sampled)
unfolding is_id is_lower_hex is_lower_hex_digit is_ascii_digit len utf8_len all
passed-inbound_example =
    passed-inbound trace span (some malformed) hops refl refl (refl, (refl, tt))
