-- ===== src/Auth/Verify/Token/Laws.antt =====
-- What an identity that `verify` returns guarantees, and what a refused token may cost.
use mathlib.Core.List.{Memᴰ}
use mathlib.Core.Path.{subst}
use latiq.Prelude.{
  ok_injective, result_cases, ◌≤◌, true, false, not, ◌≡◌, ◌≢◌, refl, sym, ap, ◌∙◌, inl, inr, List,
  [], ◌∷◌, Option, none, some, any, ltb, arith, ◌==◌, Result, ok, err, ok_or, Bool-cases,
}
use latiq.Prelude.Results.{>>=-ok_inv, >>-ok_inv, ok_or-ok_inv}
use latiq.Prelude.Text.{Text, text_eq, text_beq_iff, is_empty, len, trim}
use latiq.Common.Identity.{Identity, verified_identity}
use latiq.Auth.Jwks.{
  missing, malformed, invalid, too_long, unreadable_header, no_kid, bad_algorithm,
  algorithm_mismatch, empty_subject, unknown_issuer, SigningKey, get,
}
use latiq.Auth.Jwks.Cache.{Config, JwksCache, key_for}
use latiq.Auth.Jwks.Cache.Lookup.{key_for-ok}
use latiq.Auth.Verify.Token.{
  allowed_algs, same_alg, max_token_bytes, Verifier, Library, Moment, Admitted, or_empty, may_use,
  as_rejected, unverified_issuer, admit, attest, lookup, verify,
}

pair_eq : {A B : Type 0} {a c : A} {b : B} → a ≡ c → ◌≡◌ {A = A × B} (a, b) (c, b)
pair_eq {b} e = ap (λ x. (x, b)) e

of_rejected : (r : Result Text (Option Text)) (s : Option Text) → as_rejected r ≡ ok s → r ≡ ok s
of_rejected (ok s) t h = cc
of_rejected (err e) t h = absurd (cc)

no_subject : is_empty (trim (or_empty none)) ≢ false
unfolding is_empty trim
no_subject h = cc

module _ {Key : Type 0} (lib : Library Key) (config : Config) where
  pub record IsAdmitted (raw : Text) (a : Admitted) : Type 0 where
    pub bounded : len (trim raw) ≤ max_token_bytes
    pub header : lib.decode_header (trim raw) ≡ some (record { alg = a.alg; kid = some a.kid })
    pub allowed : any (same_alg a.alg) allowed_algs ≡ true
    pub same_token : a.token ≡ trim raw

  admit-IsAdmitted : (raw : Text) (a : Admitted) → admit lib config raw ≡ ok a → IsAdmitted raw a
  unfolding admit
  admit-IsAdmitted raw a h =
      let (_, h1) = >>-ok_inv (is_empty (trim raw)) missing _ a h in
      let (short, h2) =
        >>-ok_inv (ltb max_token_bytes (len (trim raw))) (malformed (too_long (len (trim raw)))) _ a
          h1 in
      let (head, head_eq, h3) =
        >>=-ok_inv (ok_or (lib.decode_header (trim raw)) (malformed unreadable_header)) _ a h2 in
      let (good, h4) =
        >>-ok_inv (not (any (same_alg head.alg) allowed_algs)) (invalid (bad_algorithm head.alg)) _
          a h3 in
      let (kid, kid_eq, h5) = >>=-ok_inv (ok_or head.kid (malformed no_kid)) _ a h4 in
      let (iss, iss_eq, h6) = >>=-ok_inv (unverified_issuer lib config (trim raw)) _ a h5 in
      subst (IsAdmitted raw) (ok_injective h6) (record {
        bounded = ground (arith, short);
        header =
            ok_or-ok_inv (lib.decode_header (trim raw)) (malformed unreadable_header) head head_eq
            ∙ ap (λ k. some (record { alg = head.alg; kid = k }))
                (ok_or-ok_inv head.kid (malformed no_kid) kid kid_eq);
        allowed = ground (arith, good);
        same_token = refl;
      })

  -- The token was checked against this key, under these pins, and names a subject.
  pub record IsAttested (audience : Text) (a : Admitted) (claimed_agent : Option Text)
      (key : SigningKey Key) (identity : Identity) : Type 0 where
    pub usable : may_use key.alg a.alg ≡ true
    pub subject : Text
    pub filled : is_empty (trim subject) ≡ false
    pub decoded :
        lib.decode a.token key.key
          (record { alg = a.alg; leeway = 30; audience = audience; issuer = a.claimed_issuer })
        ≡ ok (some subject)
    pub same_identity : identity ≡ verified_identity (trim subject) a.claimed_issuer claimed_agent

  attest-IsAttested :
      (audience : Text) (a : Admitted) (claimed_agent : Option Text) (key : SigningKey Key)
      (identity : Identity)
      → attest lib config audience a claimed_agent key ≡ ok identity
      → IsAttested audience a claimed_agent key identity
  unfolding attest
  attest-IsAttested audience a agent key identity h =
      let (usable, h1) =
        >>-ok_inv (not (may_use key.alg a.alg)) (invalid (algorithm_mismatch a.alg)) _ identity h in
      let (subject, subject_eq, h2) =
        >>=-ok_inv
          (as_rejected (
            lib.decode a.token key.key (record {
              alg = a.alg;
              leeway = 30;
              audience = audience;
              issuer = a.claimed_issuer;
            })))
          _ identity h1 in
      let (filled, h3) =
        >>-ok_inv (is_empty (trim (or_empty subject))) (invalid empty_subject) _ identity h2 in
      go subject (of_rejected _ subject subject_eq) filled (ok_injective h3) usable
    where
      go :
          (subject : Option Text)
          → lib.decode a.token key.key
              (record { alg = a.alg; leeway = 30; audience = audience; issuer = a.claimed_issuer })
            ≡ ok subject
          → is_empty (trim (or_empty subject)) ≡ false
          → verified_identity (trim (or_empty subject)) a.claimed_issuer agent ≡ identity
          → not (may_use key.alg a.alg) ≡ false
          → IsAttested audience a agent key identity
      go none d f e u = absurd (no_subject f)
      go (some sub) d f e u = record {
        usable = ground (arith, u);
        subject = sub;
        filled = f;
        decoded = d;
        same_identity = sym e;
      }

  lookup-ok :
      (at_ : Moment) (a : Admitted) (caches : List (Text × JwksCache Key)) (key : SigningKey Key)
      → (lookup lib config at_ a caches).0 ≡ ok key
      → (cache : JwksCache Key) × Memᴰ (a.claimed_issuer, cache) (lookup lib config at_ a caches).1
        × (get a.kid cache.keys ≡ some key)
  unfolding lookup
  lookup-ok at_ a [] key h = absurd (cc)
  lookup-ok at_ a ((known, cache) ∷ rest) key h = elim (Bool-cases (known == a.claimed_issuer)) [
    | inl same ↦
        let found : (key_for lib.from_slice config at_.now at_.entered at_.finished at_.answer a.kid
              cache).0
            ≡ ok key =
          rw (same, lookup) at h in
        rw same (
          (key_for lib.from_slice config at_.now at_.entered at_.finished at_.answer a.kid cache).1,
          Memᴰ.head (pair_eq (sym ((text_beq_iff known a.claimed_issuer).0 same))),
          key_for-ok lib.from_slice config at_.now at_.entered at_.finished at_.answer a.kid cache
              key found,
        )
    | inr other ↦
        let (c, m, held) = lookup-ok at_ a rest key (rw (other, lookup) at h) in
        rw other (c, Memᴰ.tail m, held)
  ]

  -- All that stands behind an identity.
  pub record IsVerified (raw : Text) (claimed_agent : Option Text) (v v' : Verifier Key)
      (identity : Identity) : Type 0 where
    pub a : Admitted
    pub key : SigningKey Key
    pub cache : JwksCache Key
    pub admitted : IsAdmitted raw a
    pub listed : Memᴰ (a.claimed_issuer, cache) v'.caches
    pub held : get a.kid cache.keys ≡ some key
    pub attested : IsAttested v.audience a claimed_agent key identity

  -- Behind every identity that `verify` returns stand a token of at most 8 KiB with an allowed algorithm, a key that the
  -- cache of the configured issuer holds under the token's kid and that may be used for that algorithm, and the
  -- check of the token against that key for this audience, this issuer and this algorithm, with a subject that
  -- is not empty and is the identity's.
  pub verify-IsVerified :
      (at_ : Moment) (raw : Text) (claimed_agent : Option Text) (v : Verifier Key)
      (identity : Identity)
      → (verify lib config at_ raw claimed_agent v).0 ≡ ok identity
      → IsVerified raw claimed_agent v (verify lib config at_ raw claimed_agent v).1 identity
  unfolding verify
  verify-IsVerified at_ raw agent v identity h = elim (result_cases (admit lib config raw)) [
    | inr (why, e) ↦ absurd (cc (rw (e, verify) at h))
    | inl (a, e) ↦
        let (key, key_eq, attested) =
          >>=-ok_inv (lookup lib config at_ a v.caches).0 (attest lib config v.audience a agent)
            identity (rw (e, verify) at h) in
        let (cache, listed, held) = lookup-ok at_ a v.caches key key_eq in
        rw (e, verify)
          (record {
            a = a;
            key = key;
            cache = cache;
            admitted = admit-IsAdmitted raw a e;
            listed = listed;
            held = held;
            attested = attest-IsAttested v.audience a agent key identity attested;
          })
  ]

  lookup-unknown :
      (at_ : Moment) (a : Admitted) (caches : List (Text × JwksCache Key))
      → any (λ c. c.0 == a.claimed_issuer) caches ≡ false
      → lookup lib config at_ a caches ≡ (err (invalid unknown_issuer), caches)
  unfolding lookup any
  lookup-unknown at_ a [] h = refl
  lookup-unknown at_ a ((known, cache) ∷ rest) h = elim (Bool-cases (known == a.claimed_issuer)) [
    | inl same ↦ absurd (cc (rw same at h))
    | inr other ↦ rw other (rw (lookup-unknown at_ a rest (rw other at h)) refl)
  ]

  -- A token that claims an issuer which is not configured is refused, and neither fetches nor changes anything.
  pub verify-unknown :
      (at_ : Moment) (raw : Text) (claimed_agent : Option Text) (v : Verifier Key) (a : Admitted)
      → admit lib config raw ≡ ok a
      → any (λ c. c.0 == a.claimed_issuer) v.caches ≡ false
      → verify lib config at_ raw claimed_agent v ≡ (err (invalid unknown_issuer), v)
  unfolding verify
  verify-unknown at_ raw agent v a e h = rw (e, verify) (rw (lookup-unknown at_ a v.caches h) refl)
