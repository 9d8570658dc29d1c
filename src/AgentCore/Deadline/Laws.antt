-- ===== src/AgentCore/Deadline/Laws.antt =====
-- Which interrupts are reported as timeouts.
use mathlib.Core.List.{Memᴰ}
use mathlib.Core.Path.{subst}
use latiq.Prelude.{ℕ, Bool, true, false, ◌≡◌, refl, List, [], ◌∷◌, arith, if◌then◌else◌}
use latiq.Common.Timeout.{QueryTimeouts, effective}
use latiq.AgentCore.Deadline.{
  QueryControls, Deadline, arm, Event, timer, caller_cancels, cancelled_elsewhere, drops, step, run,
  cancelled, query_timeout, from_engine, classify,
}

-- The timer comes before the drop of the guard and before any cancellation by a caller that has a token.
abbrev pub timed_out : Bool → List Event → Bool
timed_out has_cancel [] = false
timed_out has_cancel (timer ∷ es) = true
timed_out has_cancel (caller_cancels ∷ es) =
    let later = timed_out has_cancel es in if has_cancel then false else later
timed_out has_cancel (cancelled_elsewhere ∷ es) = timed_out has_cancel es
timed_out has_cancel (drops ∷ es) = false

-- What a run leaves of the parts that the error is made from.
abbrev Leaves : Deadline → (expired : Bool) (effective_ms max_ms : ℕ) → Type 0
Leaves d expired effective_ms max_ms =
    (d.expired ≡ expired) × (d.effective_ms ≡ effective_ms) × (d.max_ms ≡ max_ms)

abbrev with_parts : (effective_ms max_ms : ℕ) (expired token watching has_cancel : Bool) → Deadline
with_parts effective_ms max_ms expired token watching has_cancel = record {
  effective_ms = effective_ms;
  max_ms = max_ms;
  expired = expired;
  token_cancelled = token;
  watching = watching;
  has_cancel = has_cancel;
}

-- Once the watcher is done, none of them changes.
run-done :
    (es : List Event) (eff max : ℕ) (expired token has_cancel : Bool)
    → Leaves (run es (with_parts eff max expired token false has_cancel)) expired eff max
unfolding run step
run-done [] eff max x t c = (refl, refl, refl)
run-done (timer ∷ es) eff max x t c = run-done es eff max x t c
run-done (caller_cancels ∷ es) eff max x t c = run-done es eff max x t c
run-done (cancelled_elsewhere ∷ es) eff max x t c = run-done es eff max x true c
run-done (drops ∷ es) eff max x t c = run-done es eff max x true c

run-watching :
    (es : List Event) (eff max : ℕ) (token has_cancel : Bool)
    → Leaves
        (run es (with_parts eff max false token true has_cancel))
        (timed_out has_cancel es)
        eff
        max
unfolding run step
run-watching [] eff max t c = (refl, refl, refl)
run-watching (timer ∷ es) eff max t c = run-done es eff max true true c
run-watching (caller_cancels ∷ es) eff max t true = run-done es eff max false true true
run-watching (caller_cancels ∷ es) eff max t false = run-watching es eff max t false
run-watching (cancelled_elsewhere ∷ es) eff max t c = run-watching es eff max true c
run-watching (drops ∷ es) eff max t c = run-done es eff max false true c

-- An interrupt is reported as a timeout, with the timeout applied and the node's maximum, exactly when the
-- timer came before the drop of the guard and before any cancellation by a caller with a token; else as a cancellation.
pub run-classify :
    {E : Type 0} (token_cancelled : Bool) (timeouts : QueryTimeouts) (controls : QueryControls)
    (es : List Event)
    → classify {E = E} (run es (arm token_cancelled timeouts controls)) cancelled ≡ (
        if timed_out controls.has_cancel es
        then query_timeout (effective timeouts controls.timeout_ms) timeouts.max_ms
        else from_engine cancelled)
unfolding classify arm
run-classify fired timeouts controls es =
    let (e, f, m) =
      run-watching es (effective timeouts controls.timeout_ms) timeouts.max_ms fired
        controls.has_cancel in
    rw (e, f, m) refl

step-token_cancelled :
    (e : Event) (d : Deadline) → d.token_cancelled ≡ true → (step e d).token_cancelled ≡ true
unfolding step
step-token_cancelled timer d h = ground arith
step-token_cancelled caller_cancels d h = ground arith
step-token_cancelled cancelled_elsewhere d h = refl
step-token_cancelled drops d h = refl

run-token_cancelled :
    (es : List Event) (d : Deadline) → d.token_cancelled ≡ true → (run es d).token_cancelled ≡ true
unfolding run
run-token_cancelled [] d h = h
run-token_cancelled (e ∷ es) d h = run-token_cancelled es (step e d) (step-token_cancelled e d h)

-- A statement never outlives its guard: once the guard is dropped, its token is cancelled, whatever comes before and after.
pub run-drops : (es : List Event) (d : Deadline) → Memᴰ drops es → (run es d).token_cancelled ≡ true
unfolding run step
run-drops [] d m = elim m [ ]
run-drops (e ∷ es) d (Memᴰ.head same) =
    run-token_cancelled es (step e d) (subst (λ x. (step x d).token_cancelled ≡ true) same refl)
run-drops (e ∷ es) d (Memᴰ.tail m) = run-drops es (step e d) m
