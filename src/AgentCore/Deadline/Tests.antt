-- ===== src/AgentCore/Deadline/Tests.antt =====
-- Deadlines on small inputs.
use latiq.Prelude.{ℕ, true, false, ◌≡◌, [], ◌∷◌, some}
use latiq.Common.Timeout.{default_timeouts}
use latiq.AgentCore.Deadline.{
  QueryControls, arm, timer, caller_cancels, cancelled_elsewhere, drops, run, cancelled,
  query_timeout, classify,
}
use latiq.AgentCore.Deadline.Laws.{run-classify}

abbrev controls : QueryControls
controls = record { timeout_ms = some 900_000; has_cancel = true }

run-classify_example :
    classify {E = ℕ}
      (run
        (cancelled_elsewhere ∷ timer ∷ caller_cancels ∷ drops ∷ [])
        (arm false default_timeouts controls))
      cancelled
    ≡ query_timeout 300_000 300_000
unfolding latiq.Common.Timeout.effective
run-classify_example =
    run-classify false default_timeouts controls
      (cancelled_elsewhere ∷ timer ∷ caller_cancels ∷ drops ∷ [])
