-- ===== src/AgentCore/InFlight/Tests.antt =====
-- Runs of the registry on small inputs.
use mathlib.Core.List.{Memᴰ}
use latiq.Prelude.{
  ℕ, String, Bool, true, false, ◌≡◌, refl, List, [], ◌∷◌, Option, none, some, any, nat_eq, ◌==◌,
}
use latiq.AgentCore.InFlight.{
  Entry, InFlight, new, is_cancelled, is_dropping, Step, checks, enters, completes, tombstones,
  cancels_for, ends_drop, run, Call, registers, begins_drop, completed, call_all,
}
use latiq.AgentCore.InFlight.Laws.{call_all-is_cancelled}
use latiq.AgentCore.InFlight.Schedules.{run-misses}

abbrev op : Entry
op = record { op_id = "a"; token = 1; pond_id = some "x" }

abbrev calls : List Call
calls =
    registers "a" 1 (some "x")
    ∷ registers "b" 2 (some "y")
    ∷ begins_drop "x"
    ∷ registers "c" 3 (some "x")
    ∷ completed "c"
    ∷ []

call_all-is_cancelled_example : is_cancelled (call_all calls new) 1 ≡ true
unfolding call_all latiq.AgentCore.InFlight.call latiq.Prelude.keep any
call_all-is_cancelled_example =
    call_all-is_cancelled calls op "x" (Memᴰ.tail (Memᴰ.head refl)) refl refl

abbrev dropping : InFlight
dropping = call_all (begins_drop "x" ∷ []) new

abbrev missed : InFlight
missed = run (checks op ∷ tombstones "x" ∷ cancels_for "x" ∷ enters op ∷ []) new

run-misses_example :
    (is_dropping missed "x" ≡ true)
    × (any (λ x. x.token == 1) missed.map ≡ true)
    × (is_cancelled missed 1 ≡ false)
unfolding any
run-misses_example = run-misses "a" 1 "x" new refl refl tt
