-- ===== src/Auth/Jwks/Cache/Lookup.antt =====
-- What a lookup of a key answers.
use latiq.Prelude.{
  ok_injective, err_injective, result_cases, ◌++◌, length, ℕ, ◌+◌, false, not, ◌||◌, ◌≡◌, ◌≢◌, ap,
  ◌∙◌, inl, inr, List, [], Option, none, some, eqb, ltb, Result, ok, err, Bool-cases, Option-cases,
}
use latiq.Prelude.Text.{Text}
use latiq.Auth.Jwks.{
  AuthError, unknown_kid, Jwk, SigningKey, Answer, get, sanitize_kid, max_jwks_bytes, Body, ends,
  breaks, chunk, read_body, unreachable, response, is_too_long,
}
use latiq.Auth.Jwks.Cache.{
  Config, JwksCache, parsed, last_failed, too_soon, Visit, fetch, refresh_inner, refresh, visit,
  refresh_once, after_refresh, key_for,
}

module _ {Key : Type 0} (from_slice : List ℕ → Option (List (Jwk Key))) (config : Config) where
  abbrev Known : Text → Result AuthError (SigningKey Key) × JwksCache Key → Type 0
  Known kid result =
      ((key : SigningKey Key) → result.0 ≡ ok key → get kid result.1.keys ≡ some key)
      × ((k : Text)
          → result.0 ≡ err (unknown_kid k)
          → (k ≡ sanitize_kid kid)
            × (get kid result.1.keys ≡ none)
            × (last_failed result.1.state ≡ false))

  after_refresh-Known :
      (kid : Text) (r : Result AuthError (Unit {0}) × JwksCache Key)
      → ((k : Text) → r.0 ≢ err (unknown_kid k))
      → Known kid (after_refresh from_slice config kid r)
  unfolding after_refresh
  after_refresh-Known kid (err e, c) h = (λ key x. absurd (cc), λ k x. absurd (h k (cc)))
  after_refresh-Known kid (ok done, c) h = elim (Option-cases (get kid c.keys)) [
    | inl e ↦
        rw (e, after_refresh)
          (
            λ key x. absurd (cc),
            λ k x. elim (Bool-cases (last_failed c.state)) [
              | inl failed ↦ absurd (cc (rw failed at x))
              | inr fine ↦ (cc (rw fine at x), e, fine)
            ],
          )
    | inr (key, e) ↦ rw (e, after_refresh) (λ other x. cc, λ k x. absurd (cc))
  ]

  read_body-known :
      (body : List ℕ) (rest : Body) (k : Text) → read_body body rest ≢ err (unknown_kid k)
  unfolding read_body
  read_body-known body ends k h = cc
  read_body-known body breaks k h = cc
  read_body-known body (chunk c rest) k h =
      elim (Bool-cases (ltb max_jwks_bytes (length body + length c))) [
        | inl e ↦ cc (rw (e, read_body) at h)
        | inr e ↦ read_body-known (body ++ c) rest k (rw (e, read_body) at h)
      ]

  parsed-known :
      (r : Result AuthError (List ℕ)) (k : Text)
      → r ≢ err (unknown_kid k)
      → parsed from_slice config r ≢ err (unknown_kid k)
  unfolding parsed
  parsed-known (err e) k other h = other (ap err (err_injective h))
  parsed-known (ok body) k other h = elim (Option-cases (from_slice body)) [
    | inl e ↦ cc (rw (e, parsed) at h)
    | inr (set, e) ↦ cc (rw (e, parsed) at h)
  ]

  fetch-known : (answer : Answer) (k : Text) → fetch from_slice config answer ≢ err (unknown_kid k)
  unfolding fetch
  fetch-known unreachable k h = cc
  fetch-known (response success len body) k h = elim (Bool-cases (not success)) [
    | inl e ↦ cc (rw (e, fetch) at h)
    | inr e ↦ elim (Bool-cases (is_too_long len)) [
      | inl long ↦ cc (rw long at (rw (e, fetch) at h))
      | inr short ↦
          parsed-known (read_body [] body) k (read_body-known [] body k)
            (rw short at (rw (e, fetch) at h))
    ]
  ]

  visit-known :
      (v : Visit) (c : JwksCache Key) (k : Text)
      → (visit from_slice config v c).0 ≢ err (unknown_kid k)
  unfolding visit refresh refresh_inner
  visit-known v c k h =
      elim (Bool-cases
        (not (eqb c.refreshes_completed v.generation) || too_soon config v.entered c.state)) [
          | inl skip ↦ cc (rw (skip, visit) at h)
          | inr go ↦ elim (result_cases (fetch from_slice config v.answer)) [
            | inl (set, e) ↦ cc (rw (e, refresh_inner) at (rw (go, visit) at h))
            | inr (why, e) ↦
                let same : why ≡ unknown_kid k =
                  err_injective (rw (e, refresh_inner) at (rw (go, visit) at h)) in
                fetch-known v.answer k (e ∙ ap err same)
          ]
        ]

  key_for-Known :
      (now entered finished : ℕ) (answer : Answer) (kid : Text) (c : JwksCache Key)
      → Known kid (key_for from_slice config now entered finished answer kid c)
  unfolding key_for refresh_once
  key_for-Known now entered finished answer kid c = elim (Option-cases (get kid c.keys)) [
    | inl e ↦
        rw (e, key_for)
          (after_refresh-Known kid (refresh_once from_slice config now entered finished answer c)
            (λ k h. elim (Bool-cases (too_soon config now c.state)) [
              | inl soon ↦ cc (rw (soon, refresh_once) at h)
              | inr late ↦
                  visit-known
                    (record {
                      generation = c.refreshes_completed;
                      entered = entered;
                      finished = finished;
                      answer = answer;
                    })
                    c k (rw (late, refresh_once) at h)
            ]))
    | inr (key, e) ↦ rw (e, key_for) (λ other x. e ∙ ap some (ok_injective x), λ k x. absurd (cc))
  ]

  -- A key that `key_for` returns is the one that the cache then holds under that kid.
  pub key_for-ok :
      (now entered finished : ℕ) (answer : Answer) (kid : Text) (c : JwksCache Key)
      (key : SigningKey Key)
      → (key_for from_slice config now entered finished answer kid c).0 ≡ ok key
      → get kid (key_for from_slice config now entered finished answer kid c).1.keys ≡ some key
  key_for-ok now entered finished answer kid c = (key_for-Known now entered finished answer kid c).0

  -- A kid is only reported as unknown, and then in its sanitized form, when the cache lacks it and the last
  -- refresh did not fail: an outage of the provider is never reported as a bad kid.
  pub key_for-unknown :
      (now entered finished : ℕ) (answer : Answer) (kid k : Text) (c : JwksCache Key)
      → (key_for from_slice config now entered finished answer kid c).0 ≡ err (unknown_kid k)
      → (k ≡ sanitize_kid kid)
        × (get kid (key_for from_slice config now entered finished answer kid c).1.keys ≡ none)
        × (last_failed (key_for from_slice config now entered finished answer kid c).1.state
            ≡ false)
  key_for-unknown now entered finished answer kid k c =
      (key_for-Known now entered finished answer kid c).1 k
