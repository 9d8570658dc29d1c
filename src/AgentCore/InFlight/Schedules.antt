-- ===== src/AgentCore/InFlight/Schedules.antt =====
-- What holds of the steps of several threads, and what does not.
use latiq.Prelude.{
  String, true, false, ◌≡◌, inl, inr, List, [], ◌∷◌, some, ◌==◌, string_eq, nat_eq, arith, eqb_iff,
  eq_iff, any, find, All, Option-cases,
}
use latiq.AgentCore.InFlight.{
  Token, Entry, InFlight, has_op, is_cancelled, is_dropping, insert, check_tombstone, enter,
  complete, cancel, cancel_for_pond, tombstone, end_drop, Step, checks, enters, completes, cancels,
  tombstones, cancels_for, ends_drop, step, run,
}
use latiq.AgentCore.InFlight.Laws.{any-tokens_on, tokens_on-fresh}

step-is_cancelled :
    (x : Step) (s : InFlight) (t : Token)
    → is_cancelled s t ≡ true
    → is_cancelled (step x s) t ≡ true
unfolding step check_tombstone enter complete cancel tombstone cancel_for_pond end_drop any
step-is_cancelled (checks e) s t h = ground arith
step-is_cancelled (enters e) s t h = h
step-is_cancelled (completes op) s t h = h
step-is_cancelled (cancels op) s t h = elim (Option-cases (find (has_op op) s.map)) [
  | inl e ↦ rw (e, cancel) h
  | inr (y, e) ↦ rw (e, cancel) (ground arith)
]
step-is_cancelled (tombstones pond) s t h = h
step-is_cancelled (cancels_for pond) s t h = any-tokens_on pond s.map s.cancelled t h
step-is_cancelled (ends_drop pond) s t h = h

-- No step of any thread takes a cancellation back.
pub run-is_cancelled :
    (xs : List Step) (s : InFlight) (t : Token)
    → is_cancelled s t ≡ true
    → is_cancelled (run xs s) t ≡ true
unfolding run
run-is_cancelled [] s t h = h
run-is_cancelled (x ∷ xs) s t h = run-is_cancelled xs (step x s) t (step-is_cancelled x s t h)

-- An operation that reads the tombstones while its pond is being dropped stays cancelled, whatever any
-- thread does afterwards.
pub run-doomed :
    (e : Entry) (pond : String) (xs : List Step) (s : InFlight)
    → e.pond_id ≡ some pond
    → is_dropping s pond ≡ true
    → is_cancelled (run (checks e ∷ xs) s) e.token ≡ true
unfolding run step check_tombstone any
run-doomed e pond xs s at_pond dropped =
    run-is_cancelled xs (check_tombstone e s) e.token
      (rw (at_pond, check_tombstone) (rw dropped (ground (arith, eqb_iff e.token e.token))))

-- `register` and `begin_drop` interleave so that the drop misses the operation: it has read the
-- tombstones before the pond's was set and enters the map after the loop has passed, and runs
-- with a live token on a pond that is being dropped.
pub run-misses :
    (op : String) (t : Token) (pond : String) (s : InFlight)
    → is_dropping s pond ≡ false
    → is_cancelled s t ≡ false
    → All (λ x. (x.token == t) ≡ false) s.map
    → let e : Entry = record { op_id = op; token = t; pond_id = some pond } in
      let s' = run (checks e ∷ tombstones pond ∷ cancels_for pond ∷ enters e ∷ []) s in
      (is_dropping s' pond ≡ true)
      × (any (λ x. x.token == t) s'.map ≡ true)
      × (is_cancelled s' t ≡ false)
unfolding run step check_tombstone enter tombstone cancel_for_pond any insert
run-misses op t pond s free live fresh = (
  rw free (ground (arith, eq_iff pond pond)),
  ground (arith, eqb_iff t t),
  rw free (tokens_on-fresh pond t s.map s.cancelled fresh live),
)
