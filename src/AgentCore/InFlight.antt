-- ===== src/AgentCore/InFlight.antt =====
-- crates/latiq-agent-core/src/inflight.rs: the registry of running operations. A token is
-- shared by the map and by the query that runs, so it is a number, and the cancelled ones are part of the
-- state. `register` and `begin_drop` take the two locks one after the other: each is two steps, and
-- what has checked the tombstones and not yet entered the map is `pending`.
pub mod Laws
pub mod Schedules
mod Tests
use latiq.Prelude.{
  ℕ, String, Bool, true, false, not, ◌&&◌, ◌||◌, List, [], ◌∷◌, Option, none, some, ◌==◌, string_eq,
  nat_eq, if◌then◌else◌, any, find, keep, length,
}

-- The `AbortToken`s that have been created are told apart by a number.
abbrev pub Token : Type 0
Token = ℕ

pub record Entry : Type 0 where
  pub op_id : String
  pub token : Token
  pub pond_id : Option String

pub record InFlight : Type 0 where
  pub map : List Entry
  pub dropping : List String
  pub cancelled : List Token
  pub pending : List Entry

-- `InFlightRegistry::new`.
abbrev pub new : InFlight
new = record { map = []; dropping = []; cancelled = []; pending = [] }

abbrev pub has_op : String → Entry → Bool
has_op op e = e.op_id == op

abbrev pub is_cancelled : InFlight → Token → Bool
is_cancelled s t = any (λ u. u == t) s.cancelled

abbrev pub is_dropping : InFlight → String → Bool
is_dropping s pond = any (λ p. p == pond) s.dropping

abbrev pub on_pond : String → Option String → Bool
on_pond pond none = false
on_pond pond (some p) = p == pond

-- Whether an operation without a pond, or on this pond, is to be stopped at once.
abbrev pub is_doomed : InFlight → Option String → Bool
is_doomed s none = false
is_doomed s (some pond) = is_dropping s pond

-- `HashMap::insert` and `remove`.
unfoldable pub insert : Entry → List Entry → List Entry
insert e m = e ∷ keep (λ x. not (has_op e.op_id x)) m

unfoldable pub remove : String → List Entry → List Entry
remove op m = keep (λ x. not (has_op op x)) m

-- `register` up to the release of the lock on `dropping`.
unfoldable pub check_tombstone : Entry → InFlight → InFlight
check_tombstone e s = record s {
  cancelled = if is_doomed s e.pond_id then e.token ∷ s.cancelled else s.cancelled;
  pending = e ∷ s.pending;
}

-- The rest of `register`: the operation enters the map.
unfoldable pub enter : Entry → InFlight → InFlight
unfolding insert remove
enter e s = record s { map = insert e s.map; pending = remove e.op_id s.pending }

-- `register` alone, with the id and the token that it makes.
unfoldable pub register : (op_id : String) → Token → Option String → InFlight → InFlight
unfolding check_tombstone enter
register op_id token pond_id s =
    enter (record { op_id = op_id; token = token; pond_id = pond_id })
      (check_tombstone (record { op_id = op_id; token = token; pond_id = pond_id }) s)

unfoldable pub complete : String → InFlight → InFlight
unfolding remove
complete op_id s = record s { map = remove op_id s.map }

unfoldable pub cancel : String → InFlight → InFlight
cancel op_id s = elim (find (has_op op_id) s.map) [
  | none ↦ s
  | some e ↦ record s { cancelled = e.token ∷ s.cancelled }
]

-- The tokens that the loop of `cancel_for_pond` cancels, in the map's order.
unfoldable pub tokens_on : String → List Entry → List Token → List Token
tokens_on pond [] done = done
tokens_on pond (e ∷ es) done =
    let rest = tokens_on pond es done in if on_pond pond e.pond_id then e.token ∷ rest else rest

unfoldable pub cancel_for_pond : String → InFlight → InFlight
unfolding tokens_on
cancel_for_pond pond s = record s { cancelled = tokens_on pond s.map s.cancelled }

-- The first half of `begin_drop`.
unfoldable pub tombstone : String → InFlight → InFlight
tombstone pond s = record s {
  dropping = if is_dropping s pond then s.dropping else pond ∷ s.dropping;
}

unfoldable pub begin_drop : String → InFlight → InFlight
unfolding cancel_for_pond tombstone
begin_drop pond s = cancel_for_pond pond (tombstone pond s)

unfoldable pub end_drop : String → InFlight → InFlight
end_drop pond s = record s { dropping = keep (λ p. not (p == pond)) s.dropping }

abbrev pub len : InFlight → ℕ
len s = length s.map

-- The atomic steps of the threads that share a registry.
pub data Step : Type 0 where
  checks enters : Entry → Step
  completes cancels : (op_id : String) → Step
  tombstones cancels_for ends_drop : (pond_id : String) → Step

unfoldable pub step : Step → InFlight → InFlight
unfolding check_tombstone enter complete cancel tombstone cancel_for_pond end_drop
step (checks e) s = check_tombstone e s
step (enters e) s = enter e s
step (completes op) s = complete op s
step (cancels op) s = cancel op s
step (tombstones pond) s = tombstone pond s
step (cancels_for pond) s = cancel_for_pond pond s
step (ends_drop pond) s = end_drop pond s

unfoldable pub run : List Step → InFlight → InFlight
run [] s = s
run (x ∷ xs) s = run xs (step x s)

-- The methods, each run to its end before the next begins.
pub data Call : Type 0 where
  registers : (op_id : String) → Token → Option String → Call
  completed canceled : (op_id : String) → Call
  begins_drop ended_drop : (pond_id : String) → Call

unfoldable pub call : Call → InFlight → InFlight
unfolding register complete cancel begin_drop end_drop
call (registers op token pond) s = register op token pond s
call (completed op) s = complete op s
call (canceled op) s = cancel op s
call (begins_drop pond) s = begin_drop pond s
call (ended_drop pond) s = end_drop pond s

unfoldable pub call_all : List Call → InFlight → InFlight
call_all [] s = s
call_all (c ∷ cs) s = call_all cs (call c s)
