-- ===== src/Auth/Jwks/Cache/Rate.antt =====
-- How often the identity provider is asked.
use latiq.Prelude.{
  result_cases, ℕ, zero, suc, ◌+◌, ◌-◌, ◌*◌, ◌^◌, ◌≤◌, min, false, not, ◌||◌, ◌≡◌, refl, inl, inr,
  List, [], ◌∷◌, Option, none, some, eqb, arith, Bool-cases, Option-cases,
}
use latiq.Auth.Jwks.{Jwk, Answer, max_duration}
use latiq.Auth.Jwks.Cache.{
  Config, RefreshState, JwksCache, new, floor, too_soon, Visit, fetch, refresh_inner, refresh,
  visit, visits,
}

-- The shortest wait: the base of the backoff, or the interval where that is shorter.
abbrev pub gap : Config → ℕ
gap config = min config.failure_backoff_base config.min_refresh_interval

one_le_pow : (k : ℕ) → 1 ≤ 2 ^ k
one_le_pow zero = ground arith
one_le_pow (suc k) = ground (arith, one_le_pow k)

le_mul : (b n : ℕ) → 1 ≤ n → b ≤ b * n
le_mul b zero h = ground (arith, h)
le_mul b (suc n) h = ground arith

-- Whatever happened before, the wait after a refresh is at most the interval, and at least the base of the
-- backoff or the interval, whichever is shorter.
pub floor-bounds :
    (config : Config) (s : RefreshState)
    → config.failure_backoff_base ≤ max_duration
    → (gap config ≤ floor config s) × (floor config s ≤ config.min_refresh_interval)
unfolding floor
floor-bounds config s h = ground (
  arith,
  le_mul config.failure_backoff_base (2 ^ min (s.consecutive_failures - 1) 16)
      (one_le_pow (min (s.consecutive_failures - 1) 16)),
)

-- The turns follow one another: each gets the lock when the one before is done.
abbrev pub IsTimed : ℕ → List Visit → Type 0
IsTimed now [] = Unit {0}
IsTimed now (v ∷ vs) = (now ≤ v.entered) × (v.entered ≤ v.finished) × IsTimed v.finished vs

abbrev pub end_time : ℕ → List Visit → ℕ
end_time now [] = now
end_time now (v ∷ vs) = end_time v.finished vs

-- Before a time, each fetch but the first has taken a gap at least.
record IsPaced (start now gap fetches : ℕ) (last : Option ℕ) : Type 0 where
  idle : last ≡ none → fetches ≡ 0
  paced : (at_time : ℕ) → last ≡ some at_time → fetches * gap + start ≤ at_time + gap
  past : (at_time : ℕ) → last ≡ some at_time → at_time ≤ now
  begun : start ≤ now

fetched-IsPaced :
    (start now gap fetches entered finished : ℕ) (last : Option ℕ)
    → IsPaced start now gap fetches last
    → now ≤ entered
    → entered ≤ finished
    → ((at_time : ℕ) → last ≡ some at_time → gap ≤ entered - at_time)
    → IsPaced start finished gap (suc fetches) (some finished)
fetched-IsPaced start now gap fetches entered finished last p t u rested = record {
  idle = λ h. absurd (cc);
  paced = λ a e. elim (Option-cases last) [
    | inl none_eq ↦ ground (arith, p.idle none_eq, p.begun, t, u, e)
    | inr (b, some_eq) ↦
        ground (arith, p.paced b some_eq, p.past b some_eq, rested b some_eq, t, u, e)
  ];
  past = λ a e. ground (arith, e);
  begun = ground (arith, p.begun, t, u);
}

module _ {Key : Type 0} (from_slice : List ℕ → Option (List (Jwk Key))) (config : Config) where
  refresh-fetches :
      (now : ℕ) (answer : Answer) (c : JwksCache Key)
      → ((refresh from_slice config now answer c).1.fetches ≡ suc c.fetches)
        × ((refresh from_slice config now answer c).1.state.completed_at ≡ some now)
  unfolding refresh refresh_inner
  refresh-fetches now answer c = elim (result_cases (fetch from_slice config answer)) [
    | inl (set, e) ↦ rw (e, refresh_inner) (refl, refl)
    | inr (why, e) ↦ rw (e, refresh_inner) (refl, refl)
  ]

  too_soon-false :
      (now at_time : ℕ) (s : RefreshState)
      → s.completed_at ≡ some at_time
      → too_soon config now s ≡ false
      → floor config s ≤ now - at_time
  unfolding too_soon
  too_soon-false now at_time s e h = ground (arith, rw (e, too_soon) at h)

  abbrev Paced : (start now : ℕ) → JwksCache Key → Type 0
  Paced start now c = IsPaced start now (gap config) c.fetches c.state.completed_at

  visit-Paced :
      (start now : ℕ) (v : Visit) (c : JwksCache Key)
      → config.failure_backoff_base ≤ max_duration
      → now ≤ v.entered
      → v.entered ≤ v.finished
      → Paced start now c
      → Paced start v.finished (visit from_slice config v c).1
  unfolding visit
  visit-Paced start now v c bound t u p =
      elim (Bool-cases
        (not (eqb c.refreshes_completed v.generation) || too_soon config v.entered c.state)) [
          | inl skip ↦ rw skip (record {
            idle = p.idle;
            paced = p.paced;
            past = λ a e. ground (arith, p.past a e);
            begun = ground (arith, p.begun);
          })
          | inr go ↦
              let (count, done) = refresh-fetches v.finished v.answer c in
              let not_soon : too_soon config v.entered c.state ≡ false = ground (arith, go) in
              let next : IsPaced start v.finished (gap config)
                  (refresh from_slice config v.finished v.answer c).1.fetches
                  (refresh from_slice config v.finished v.answer c).1.state.completed_at =
                rw (count, done)
                  (fetched-IsPaced start now (gap config) c.fetches v.entered v.finished
                    c.state.completed_at p t u
                    (λ a e. ground (
                      arith,
                      too_soon-false v.entered a c.state e not_soon,
                      floor-bounds config c.state bound,
                    ))) in
              rw go next
        ]

  visits-Paced :
      (start now : ℕ) (vs : List Visit) (c : JwksCache Key)
      → config.failure_backoff_base ≤ max_duration
      → IsTimed now vs
      → Paced start now c
      → Paced start (end_time now vs) (visits from_slice config vs c)
  unfolding visits
  visits-Paced start now [] c bound timed p = p
  visits-Paced start now (v ∷ vs) c bound (t, u, timed) p =
      visits-Paced start v.finished vs _ bound timed (visit-Paced start now v c bound t u p)

  -- However many requests miss the cache, whatever keys they ask for, however they interleave and
  -- whatever the provider answers, from `start` on a new cache fetches at most once, and once more for
  -- each gap that has passed.
  pub visits-fetches :
      (start : ℕ) (vs : List Visit)
      → config.failure_backoff_base ≤ max_duration
      → IsTimed start vs
      → (visits from_slice config vs new).fetches * gap config + start
        ≤ end_time start vs + gap config
  visits-fetches start vs bound timed =
      let p = visits-Paced start start vs new bound timed (record {
        idle = λ h. refl;
        paced = λ a h. absurd (cc);
        past = λ a h. absurd (cc);
        begun = ground arith;
      }) in
      elim (Option-cases (visits from_slice config vs (new {Key = Key})).state.completed_at) [
        | inl e ↦ ground (arith, p.idle e, p.begun)
        | inr (a, e) ↦ ground (arith, p.paced a e, p.past a e)
      ]
