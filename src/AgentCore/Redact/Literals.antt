-- ===== src/AgentCore/Redact/Literals.antt =====
-- What a redacted statement does not tell: the contents of a string literal.
use latiq.Prelude.{
  ℕ, true, false, ◌≡◌, refl, sym, ap, ◌∙◌, inl, inr, [], ◌∷◌, ◌++◌, Option, arith, ◌&&◌, not, ◌==◌,
  nat_eq, All, if◌then◌else◌, Bool-cases,
}
use mathlib.Core.List.{append_assoc}
use mathlib.Core.Path.{subst}
use latiq.Prelude.Text.{Text, is_ascii_digit}
use latiq.AgentCore.Redact.{
  quote, peek, peeks, code, in_string, strip_code, strip_step, strip, strip_sql_comments, Mode,
  plain, in_literal, in_number, doubled, State, start, continues, is_number_char, plain_step,
  literal_step, step_in, other_char, separate, redact, redact_sql,
}

-- What stands behind a character, up to the literal's quote.
abbrev pub behind : Text → Option ℕ
behind s = peek (s ++ quote ∷ [])

-- Text before a literal that opens neither a literal nor a comment: no quote, no two dashes in a row, and no
-- star behind a slash.
abbrev pub IsBare : Text → Type 0
IsBare [] = Unit
IsBare (c ∷ s) =
    (c == quote ≡ false)
    × ((c == b'-' && peeks b'-' (behind s)) ≡ false)
    × ((c == b'/' && peeks b'*' (behind s)) ≡ false)
    × IsBare s

peek-quote : (s t : Text) → peek (s ++ quote ∷ t) ≡ behind s
peek-quote [] t = refl
peek-quote (c ∷ s) t = refl

-- The inside of a literal without escaped quotes.
abbrev pub IsBody : Text → Type 0
IsBody s = All (λ c. c == quote ≡ false) s

-- A literal and what stands behind it.
abbrev pub literal : (body post : Text) → Text
literal body post = quote ∷ (body ++ quote ∷ post)

strip-bare : (s t : Text) → IsBare s → strip code (s ++ quote ∷ t) ≡ s ++ strip code (quote ∷ t)
unfolding strip strip_step strip_code
strip-bare [] t h = refl
strip-bare (c ∷ s) t (q, d, l, h) =
    rw (peek-quote s t, q, d, l) (ap (λ x. c ∷ x) (strip-bare s t h))

strip-body :
    (s t : Text)
    → IsBody s
    → peeks quote (peek t) ≡ false
    → strip in_string (s ++ quote ∷ t) ≡ s ++ quote ∷ strip code t
unfolding strip strip_step
strip-body [] t h e = rw e refl
strip-body (c ∷ s) t (q, h) e = rw q (ap (λ x. c ∷ x) (strip-body s t h e))

-- One literal, on its way through `strip_sql_comments`.
strip-literal :
    (pre body post : Text)
    → IsBare pre
    → IsBody body
    → peeks quote (peek post) ≡ false
    → strip_sql_comments (pre ++ literal body post) ≡ pre ++ literal body (strip code post)
unfolding strip_sql_comments strip strip_step strip_code
strip-literal pre body post a b e =
    strip-bare pre (body ++ quote ∷ post) a ∙ ap (λ x. pre ++ quote ∷ x) (strip-body body post b e)

-- The machine inside a literal adds nothing and stays as it is.
redact-body :
    (st : State) (s t : Text)
    → IsBody s
    → redact (record st { mode = in_literal }) (s ++ t) ≡ redact (record st { mode = in_literal }) t
unfolding redact step_in literal_step
redact-body st [] t h = refl
redact-body st (c ∷ s) t (q, h) = rw q (redact-body st s t h)

-- The rest of a literal, from its opening quote on, does not depend on what it holds.
redact-literal :
    (st : State) (body body' post : Text)
    → st.mode ≡ plain
    → IsBody body
    → IsBody body'
    → redact st (literal body post) ≡ redact st (literal body' post)
unfolding redact step_in plain_step
redact-literal st body body' post e b b' =
    rw e (redact-body st body (quote ∷ post) b ∙ sym (redact-body st body' (quote ∷ post) b'))

-- Where the machine is after a text, and what it has written, if it is plain there.
data Passes (st : State) (s : Text) : Type 0 where
  passes :
      (out : Text) (st' : State)
      → st'.mode ≡ plain
      → ((t : Text) → redact st (s ++ quote ∷ t) ≡ out ++ redact st' (quote ∷ t))
      → Passes st s

data IsBetween : Mode → Text → Type 0 where
  at_plain : (s : Text) → IsBetween plain s
  in_a_number : (c : ℕ) (s : Text) → is_number_char c ≡ true → IsBetween in_number (c ∷ s)

number-IsBetween : (s : Text) → IsBetween (if continues (behind s) then in_number else plain) s
unfolding is_ascii_digit
number-IsBetween [] = at_plain []
number-IsBetween (c ∷ s) = elim (Bool-cases (is_number_char c)) [
  | inl e ↦ rw e (in_a_number c s e)
  | inr e ↦ rw e (at_plain (c ∷ s))
]

other_char-mode : (c : ℕ) (st : State) → (other_char c st).mode ≡ st.mode
unfolding other_char separate
other_char-mode c st = ground arith

step-IsBetween :
    (m : Mode) (st : State) (c : ℕ) (s : Text)
    → st.mode ≡ m
    → c == quote ≡ false
    → IsBetween m (c ∷ s)
    → IsBetween (step_in m c (behind s) st).1.mode s
unfolding step_in plain_step
step-IsBetween plain st c s e q (at_plain _) =
    elim (Bool-cases (is_ascii_digit c && not st.prev_ident && not st.in_type_params)) [
      | inl d ↦ rw (q, d) (number-IsBetween s)
      | inr d ↦ rw (q, d) (subst (λ m. IsBetween m s) (sym (other_char-mode c st ∙ e)) (at_plain s))
    ]
step-IsBetween in_number st c s e q (in_a_number _ _ _) = number-IsBetween s
step-IsBetween in_literal st c s e q b = elim b [ ]
step-IsBetween doubled st c s e q b = elim b [ ]

redact-bare : (st : State) (s : Text) → IsBare s → IsBetween st.mode s → Passes st s
unfolding redact
redact-bare st [] h (at_plain _) = passes [] st refl (λ t. refl)
redact-bare st (c ∷ s) (q, d, l, h) b =
    elim (redact-bare (step_in st.mode c (behind s) st).1 s h
      (step-IsBetween st.mode st c s refl q b)) [
        | passes out st' e k ↦ passes ((step_in st.mode c (behind s) st).0 ++ out) st' e (λ t.
            ap
              (λ (n : Option ℕ).
                (step_in st.mode c n st).0 ++ redact (step_in st.mode c n st).1 (s ++ quote ∷ t))
              (peek-quote s t)
            ∙ ap (λ x. (step_in st.mode c (behind s) st).0 ++ x) (k t)
            ∙ sym (append_assoc (step_in st.mode c (behind s) st).0 out (redact st' (quote ∷ t))))
      ]

-- Two statements that differ only in what a string literal holds redact to the same text, if there is no quote, no double
-- dash and no slash with a star before the literal, the literal holds no quote, and no quote follows it.
pub redact_sql-literal :
    (pre body body' post : Text)
    → IsBare pre
    → IsBody body
    → IsBody body'
    → peeks quote (peek post) ≡ false
    → redact_sql (pre ++ literal body post) ≡ redact_sql (pre ++ literal body' post)
unfolding redact_sql
redact_sql-literal pre body body' post a b b' e =
    ap (redact start) (strip-literal pre body post a b e)
    ∙ elim (redact-bare start pre a (at_plain pre)) [
      | passes out st f k ↦
          k (body ++ quote ∷ strip code post)
          ∙ ap (λ x. out ++ x) (redact-literal st body body' (strip code post) f b b')
          ∙ sym (k (body' ++ quote ∷ strip code post))
    ]
    ∙ sym (ap (redact start) (strip-literal pre body' post a b' e))
