-- ===== src/AgentCore/Redact/Laws.antt =====
-- What no redacted statement contains.
use latiq.Prelude.{
  ℕ, false, ◌≡◌, refl, inl, inr, [], ◌∷◌, ◌++◌, Option, ◌&&◌, not, ◌==◌, nat_eq, All, Bool-cases,
}
use latiq.Prelude.Text.{Text, is_ascii_digit}
use latiq.AgentCore.Redact.{
  quote, peek, peeks, Mode, plain, in_literal, doubled, in_number, State, start, redact_end,
  plain_step, literal_step, step_in, redact, strip_sql_comments, redact_sql,
}

abbrev pub HasNoQuote : Text → Type 0
HasNoQuote s = All (λ c. c == quote ≡ false) s

append-HasNoQuote : (s t : Text) → HasNoQuote s → HasNoQuote t → HasNoQuote (s ++ t)
append-HasNoQuote [] t h k = k
append-HasNoQuote (c ∷ s) t (h, hs) k = (h, append-HasNoQuote s t hs k)

step_in-HasNoQuote :
    (m : Mode) (c : ℕ) (next : Option ℕ) (st : State) → HasNoQuote (step_in m c next st).0
unfolding step_in plain_step literal_step
step_in-HasNoQuote plain c next st = elim (Bool-cases (c == quote)) [
  | inl e ↦ rw e tt
  | inr e ↦ elim (Bool-cases (is_ascii_digit c && not st.prev_ident && not st.in_type_params)) [
    | inl d ↦ rw (e, d) (refl, tt)
    | inr d ↦ rw (e, d) (e, tt)
  ]
]
step_in-HasNoQuote in_literal c next st = elim (Bool-cases (c == quote)) [
  | inl e ↦ elim (Bool-cases (peeks quote next)) [
    | inl f ↦ rw (e, f) tt
    | inr f ↦ rw (e, f) (refl, tt)
  ]
  | inr e ↦ rw e tt
]
step_in-HasNoQuote doubled c next st = tt
step_in-HasNoQuote in_number c next st = tt

redact_end-HasNoQuote : (m : Mode) → HasNoQuote (redact_end m)
redact_end-HasNoQuote plain = tt
redact_end-HasNoQuote in_literal = (refl, tt)
redact_end-HasNoQuote doubled = (refl, tt)
redact_end-HasNoQuote in_number = tt

redact-HasNoQuote : (s : Text) (st : State) → HasNoQuote (redact st s)
unfolding redact
redact-HasNoQuote [] st = redact_end-HasNoQuote st.mode
redact-HasNoQuote (c ∷ s) st =
    append-HasNoQuote _ _ (step_in-HasNoQuote st.mode c (peek s) st)
      (redact-HasNoQuote s (step_in st.mode c (peek s) st).1)

-- Whatever the statement, what is recorded of it holds no quote: every quote opens or closes a literal, and a literal
-- is a question mark, closed or not.
pub redact_sql-HasNoQuote : (sql : Text) → HasNoQuote (redact_sql sql)
unfolding redact_sql
redact_sql-HasNoQuote sql = redact-HasNoQuote (strip_sql_comments sql) start
