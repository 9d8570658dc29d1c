-- ===== src/Common/Timeout/Laws.antt =====
-- What a pair of timeouts that `new` accepts promises to every request.
use latiq.Prelude.{ℕ, zero, suc, ◌≤◌, ◌<◌, ◌≡◌, ◌↔◌, Option, none, some, ok, arith}
use latiq.Common.Timeout.{QueryTimeouts, new, effective}

-- What a node allows is never zero and never above its maximum, whatever the caller asks for.
pub effective-new :
    (default_ms max_ms : ℕ) (t : QueryTimeouts) (requested : Option ℕ)
    → new default_ms max_ms ≡ ok t
    → (0 < effective t requested) × (effective t requested ≤ max_ms)
unfolding new effective
effective-new d m t none h = (ground arith, ground arith)
effective-new d m t (some zero) h = (ground arith, ground arith)
effective-new d m t (some (suc r)) h = (ground arith, ground arith)

-- A timeout that is neither zero nor above the maximum is applied as it was asked for.
pub effective-as_asked :
    (default_ms max_ms ms : ℕ) (t : QueryTimeouts)
    → new default_ms max_ms ≡ ok t
    → 0 < ms
    → ms ≤ max_ms
    → effective t (some ms) ≡ ms
unfolding new effective
effective-as_asked d m zero t h p q = absurd (omega arith)
effective-as_asked d m (suc ms) t h p q = ground arith

-- `new` accepts exactly the pairs with a positive default that is at most the maximum, and keeps
-- both numbers as they were given.
pub new-eq-ok_iff :
    (d m : ℕ) (t : QueryTimeouts)
    → (new d m ≡ ok t) ↔ ((0 < d) × (d ≤ m) × (t ≡ record { default_ms = d; max_ms = m }))
unfolding new
new-eq-ok_iff d m t = ground arith
