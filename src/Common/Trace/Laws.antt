-- ===== src/Common/Trace/Laws.antt =====
-- crates/latiq-common/src/trace.rs: what is kept of a trace from one process to the next.
use mathlib.Core.Path.{subst}
use mathlib.Core.List.{append_assoc, reverse-append, reverse-reverse}
use latiq.Prelude.{
  ℕ, Bool, true, false, not, ◌&&◌, ◌||◌, ◌==◌, ◌%◌, List, [], ◌∷◌, ◌++◌, Option, none, some, all,
  All, eqb, take, reverse, ◌≡◌, refl, ap, ◌∙◌, sym, arith, if◌then◌else◌,
}
use latiq.Prelude.Text.{
  Text, codes, text_eq, text_beq, utf8_len, len, is_ascii_digit, is_whitespace, trim, trim_start,
  trim_start_while, trim_end_while, split, cons_piece,
}
use latiq.Common.Trace.{
  TraceContext, is_lower_hex_digit, is_lower_hex, is_id, is_dash, flags_of, radix16, hex_value,
  parse_fields, is_some, parse, inbound, new, or_new, traceparent,
}

abbrev pub IsContext : TraceContext → Type 0
IsContext t = (is_id t.trace_id 32 ≡ true) × (is_id t.span_id 16 ≡ true)

split-append :
    (w s : Text)
    → all is_lower_hex_digit w ≡ true
    → split is_dash (w ++ (b'-' ∷ s)) ≡ w ∷ split is_dash s
unfolding split cons_piece all is_lower_hex_digit is_ascii_digit
split-append [] s h = refl
split-append (c ∷ w) s h = ground (arith, split-append w s)

trim_start_while-reverse :
    (p : ℕ → Bool) (s : Text) (c : ℕ)
    → p c ≡ false
    → trim_start_while p (reverse (s ++ (c ∷ []))) ≡ reverse (s ++ (c ∷ []))
unfolding trim_start_while
trim_start_while-reverse p s c h = rw (reverse-append s (c ∷ []), h) refl

-- The header, with its last character apart.
abbrev body : Text → Text → Text
body tid sid = b'0' ∷ b'0' ∷ b'-' ∷ (tid ++ (b'-' ∷ (sid ++ (b'-' ∷ b'0' ∷ []))))

body_snoc :
    (tid sid : Text) (c : ℕ)
    → body tid sid ++ (c ∷ [])
      ≡ b'0' ∷ b'0' ∷ b'-' ∷ (tid ++ (b'-' ∷ (sid ++ (b'-' ∷ b'0' ∷ c ∷ []))))
body_snoc tid sid c = simp (append_assoc)

trim-body :
    (tid sid : Text) (c : ℕ)
    → is_whitespace c ≡ false
    → trim (body tid sid ++ (c ∷ [])) ≡ body tid sid ++ (c ∷ [])
unfolding trim trim_start trim_start_while trim_end_while is_whitespace
trim-body tid sid c h =
    ap reverse (trim_start_while-reverse is_whitespace (body tid sid) c h)
    ∙ reverse-reverse (body tid sid ++ (c ∷ []))

split-body :
    (tid sid : Text) (c : ℕ)
    → all is_lower_hex_digit tid ≡ true
    → all is_lower_hex_digit sid ≡ true
    → is_dash c ≡ false
    → split is_dash (b'0' ∷ b'0' ∷ b'-' ∷ (tid ++ (b'-' ∷ (sid ++ (b'-' ∷ b'0' ∷ c ∷ [])))))
      ≡ (b'0' ∷ b'0' ∷ []) ∷ tid ∷ sid ∷ (b'0' ∷ c ∷ []) ∷ []
unfolding split cons_piece
split-body tid sid c h k d =
    rw (split-append tid (sid ++ (b'-' ∷ b'0' ∷ c ∷ [])) h, split-append sid (b'0' ∷ c ∷ []) k, d)
      refl

all-of-is_id : (s : Text) (n : ℕ) → is_id s n ≡ true → all is_lower_hex_digit s ≡ true
unfolding is_id is_lower_hex
all-of-is_id s n h = ground arith

trim-header :
    (tid sid : Text) (c : ℕ)
    → is_whitespace c ≡ false
    → trim (b'0' ∷ b'0' ∷ b'-' ∷ (tid ++ (b'-' ∷ (sid ++ (b'-' ∷ b'0' ∷ c ∷ [])))))
      ≡ b'0' ∷ b'0' ∷ b'-' ∷ (tid ++ (b'-' ∷ (sid ++ (b'-' ∷ b'0' ∷ c ∷ []))))
trim-header tid sid c h =
    ap trim (sym (body_snoc tid sid c)) ∙ trim-body tid sid c h ∙ body_snoc tid sid c

-- The next process reads a header as its sender meant it: the same trace, the same sampling, and a span of
-- its own.
parse-flags :
    (span tid sid : Text) (sampled : Bool)
    → is_id tid 32 ≡ true
    → is_id sid 16 ≡ true
    → parse span (b'0' ∷ b'0' ∷ b'-' ∷ (tid ++ (b'-' ∷ (sid ++ (b'-' ∷ flags_of sampled)))))
      ≡ some (record { trace_id = tid; span_id = take 16 span; sampled = sampled })
unfolding parse parse_fields radix16 hex_value is_lower_hex is_lower_hex_digit is_ascii_digit len
    all is_whitespace utf8_len text_beq
parse-flags span tid sid true h k =
    ap (λ s. parse_fields span (split is_dash s)) (trim-header tid sid b'1' refl)
    ∙ ap (parse_fields span)
        (split-body tid sid b'1' (all-of-is_id tid 32 h) (all-of-is_id sid 16 k) refl)
    ∙ rw (h, k) refl
parse-flags span tid sid false h k =
    ap (λ s. parse_fields span (split is_dash s)) (trim-header tid sid b'0' refl)
    ∙ ap (parse_fields span)
        (split-body tid sid b'0' (all-of-is_id tid 32 h) (all-of-is_id sid 16 k) refl)
    ∙ rw (h, k) refl

-- The guards of `parse_fields`, with what they test.
guarded-IsContext :
    (a b c d e : Bool) (t fresh : TraceContext)
    → (c ≡ true → IsContext t)
    → IsContext fresh
    → IsContext (
        or_new
          (if a
            then none
            else if b
            then none
            else if not c
            then none
            else if not d
            then none
            else if not e
            then none
            else some t)
          fresh)
unfolding or_new
guarded-IsContext true b c d e t fresh h k = k
guarded-IsContext false true c d e t fresh h k = k
guarded-IsContext false false false d e t fresh h k = k
guarded-IsContext false false true false e t fresh h k = k
guarded-IsContext false false true true false t fresh h k = k
guarded-IsContext false false true true true t fresh h k = h refl

or_new-IsContext :
    (trace span : Text) (fields : List Text)
    → is_id trace 32 ≡ true
    → is_id (take 16 span) 16 ≡ true
    → IsContext (or_new (parse_fields span fields) (new trace span))
unfolding parse_fields or_new new
or_new-IsContext trace span [] h k = (h, k)
or_new-IsContext trace span (a ∷ []) h k = (h, k)
or_new-IsContext trace span (a ∷ b ∷ []) h k = (h, k)
or_new-IsContext trace span (a ∷ b ∷ c ∷ []) h k = (h, k)
or_new-IsContext trace span (version ∷ tid ∷ parent ∷ flags ∷ rest) h k =
    guarded-IsContext (version == codes "00" && is_some rest)
      (not (is_lower_hex version 2) || version == codes "ff") (is_id tid 32) (is_id parent 16)
      (is_lower_hex flags 2)
      (record { trace_id = tid; span_id = take 16 span; sampled = eqb (radix16 0 flags % 2) 1 })
      (new trace span) (λ good. (good, k)) (h, k)

pub inbound-IsContext :
    (trace span : Text) (header : Option Text)
    → is_id trace 32 ≡ true
    → is_id (take 16 span) 16 ≡ true
    → IsContext (inbound trace span header)
unfolding inbound parse new
inbound-IsContext trace span none h k = (h, k)
inbound-IsContext trace span (some header) h k =
    or_new-IsContext trace span (split is_dash (trim header)) h k

inbound-traceparent :
    (trace span : Text) (t : TraceContext)
    → IsContext t
    → inbound trace span (some (traceparent t)) ≡ record t { span_id = take 16 span }
unfolding inbound traceparent or_new
inbound-traceparent trace span t (h, k) =
    ap (λ r. or_new r (new trace span)) (parse-flags span t.trace_id t.span_id t.sampled h k)

-- A request that passes from process to process, with what each of them draws.
abbrev pub passed : List (Text × Text) → TraceContext → TraceContext
passed [] t = t
passed ((trace, span) ∷ hops) t = passed hops (inbound trace span (some (traceparent t)))

passed_again :
    (hops : List (Text × Text)) (t : TraceContext)
    → IsContext t
    → All (λ d. is_id (take 16 d.1) 16 ≡ true) hops
    → IsContext (passed hops t)
      × ((passed hops t).trace_id ≡ t.trace_id)
      × ((passed hops t).sampled ≡ t.sampled)
passed_again [] t h draws = (h, refl, refl)
passed_again ((trace, span) ∷ hops) t h (here, later) =
    subst
      (λ u.
        IsContext (passed hops u)
        × ((passed hops u).trace_id ≡ t.trace_id)
        × ((passed hops u).sampled ≡ t.sampled))
      (sym (inbound-traceparent trace span t h))
      (passed_again hops (record t { span_id = take 16 span }) (h.0, here) later)

-- Whatever header a request comes with, the first process gives it a trace id of 32 lowercase hexadecimal
-- digits, not all zero, and every process that it then passes reads that trace id and that sampling from
-- the header of the one before, under a span of its own of 16 such digits. It is assumed that what is drawn
-- are such digits.
pub passed-inbound :
    (trace span : Text) (header : Option Text) (hops : List (Text × Text))
    → is_id trace 32 ≡ true
    → is_id (take 16 span) 16 ≡ true
    → All (λ d. is_id (take 16 d.1) 16 ≡ true) hops
    → IsContext (passed hops (inbound trace span header))
      × ((passed hops (inbound trace span header)).trace_id ≡ (inbound trace span header).trace_id)
      × ((passed hops (inbound trace span header)).sampled ≡ (inbound trace span header).sampled)
passed-inbound trace span header hops h k draws =
    passed_again hops (inbound trace span header) (inbound-IsContext trace span header h k) draws
