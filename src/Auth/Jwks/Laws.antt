-- ===== src/Auth/Jwks/Laws.antt =====
-- Which keys are imported, how much of a document is read, and what of a kid is shown.
use mathlib.Core.List.{Memᴰ}
use mathlib.Core.Path.{subst}
use latiq.Prelude.{
  some_injective, none, sym, ℕ, zero, suc, ◌+◌, ◌≤◌, Bool, true, not, ◌≡◌, ◌≢◌, refl, ap, ◌∙◌, ◌⊎◌,
  inl, inr, List, [], ◌∷◌, ◌++◌, Option, some, ltb, keep, take, length, All, arith, ◌==◌, ok,
  Bool-cases, Option-cases,
}
use latiq.Prelude.Text.{Text, text_eq, text_beq_iff, is_control}
use latiq.Auth.Jwks.{
  KeyAlgorithm, Algorithm, as_signing_alg, encryption, Jwk, SigningKey, declared_alg, is_encryption,
  Body, ends, breaks, chunk, read_body, max_jwks_bytes, get, import_key, import_keys, sanitize_kid,
}

-- What a declared algorithm leaves of a key: nothing declared, no constraint; a signature algorithm, that one;
-- another algorithm, no key at all.
abbrev pub Constrains : Option KeyAlgorithm → Option Algorithm → Type 0
Constrains none alg = alg ≡ none
Constrains (some a) alg = (as_signing_alg a ≡ alg) × (alg ≢ none)

declared_alg-Constrains :
    (declared : Option KeyAlgorithm) (alg : Option Algorithm)
    → declared_alg declared ≡ some alg
    → Constrains declared alg
unfolding declared_alg
declared_alg-Constrains none alg h = sym (some_injective h)
declared_alg-Constrains (some a) alg h = elim (Option-cases (as_signing_alg a)) [
  | inl lost ↦ absurd (cc (rw (lost, declared_alg) at h))
  | inr (found, sig) ↦
      let same : some found ≡ alg = some_injective (rw (sig, declared_alg) at h) in
      (sig ∙ same, λ e. cc)
]

-- The published key may be used for this: it has the kid, is not marked as one for encryption, and the algorithm
-- that it declares, if it does, is the signature algorithm of the entry.
pub record IsImported {Key : Type 0} (kid : Text) (key : SigningKey Key) (jwk : Jwk Key)
    : Type 0 where
  pub has_kid : jwk.key_id ≡ some kid
  pub not_encryption : jwk.public_key_use ≢ some encryption
  pub constrained : Constrains jwk.key_algorithm key.alg
  pub same_key : jwk.decoded ≡ some key.key

cong_some :
    {A B : Type 0} {a c : A} {b d : B}
    → a ≡ c
    → b ≡ d
    → ◌≡◌ {A = Option (A × B)} (some (a, b)) (some (c, d))
cong_some h k = cc

length-append : {A : Type 0} (xs ys : List A) → length (xs ++ ys) ≡ length xs + length ys
length-append [] ys = ground arith
length-append (x ∷ xs) ys = ground (arith, length-append xs ys)

module _ {Key : Type 0} where
  later :
      (jwk : Jwk Key) (set : List (Jwk Key)) (kid : Text) (key : SigningKey Key) (P : Type 0)
      → ((j : Jwk Key) × Memᴰ j set × IsImported kid key j) ⊎ P
      → ((j : Jwk Key) × Memᴰ j (jwk ∷ set) × IsImported kid key j) ⊎ P
  later jwk set kid key P (inl (j, m, imported)) = inl (j, Memᴰ.tail m, imported)
  later jwk set kid key P (inr p) = inr p

  import_key-IsImported :
      (kid : Text) (key : SigningKey Key) (jwk : Jwk Key)
      → import_key jwk ≡ some (kid, key)
      → IsImported kid key jwk
  unfolding import_key declared_alg
  import_key-IsImported kid key jwk h = elim (Option-cases jwk.key_id) [
    | inl e ↦ absurd (cc (rw (e, import_key) at h))
    | inr (k, has) ↦ elim (Bool-cases (is_encryption jwk.public_key_use)) [
      | inl enc ↦ absurd (cc (rw enc at (rw (has, import_key) at h)))
      | inr signs ↦ elim (Option-cases (declared_alg jwk.key_algorithm)) [
        | inl e ↦ absurd (cc (rw e at (rw signs at (rw (has, import_key) at h))))
        | inr (alg, declared) ↦ elim (Option-cases jwk.decoded) [
          | inl e ↦ absurd (cc (rw (e, declared) at (rw signs at (rw (has, import_key) at h))))
          | inr (raw, decoded) ↦
              let done : ◌≡◌ {A = Option (Text × SigningKey Key)}
                  (some (k, record { key = raw; alg = alg })) (some (kid, key)) =
                rw (decoded, declared) at (rw signs at (rw (has, import_key) at h)) in
              let entry = some_injective done in
              record {
                has_kid = has ∙ ap some (ap (λ x. x.0) entry);
                not_encryption = λ e. absurd (cc (rw e at signs));
                constrained =
                    subst (Constrains jwk.key_algorithm) (ap (λ x. x.1.alg) entry)
                      (declared_alg-Constrains jwk.key_algorithm alg declared);
                same_key = decoded ∙ ap some (ap (λ x. x.1.key) entry);
              }
        ]
      ]
    ]
  ]

  import_keys-get :
      (set : List (Jwk Key)) (fresh : List (Text × SigningKey Key)) (kid : Text)
      (key : SigningKey Key)
      → get kid (import_keys fresh set) ≡ some key
      → ((jwk : Jwk Key) × Memᴰ jwk set × IsImported kid key jwk) ⊎ (get kid fresh ≡ some key)
  unfolding import_keys get
  import_keys-get [] fresh kid key h = inr h
  import_keys-get (jwk ∷ set) fresh kid key h = elim (Option-cases (import_key jwk)) [
    | inl e ↦
        later jwk set kid key (get kid fresh ≡ some key)
          (import_keys-get set fresh kid key (rw (e, import_keys) at h))
    | inr ((k, made), e) ↦
        elim (import_keys-get set ((k, made) ∷ fresh) kid key (rw (e, import_keys) at h)) [
          | inl (j, m, imported) ↦ inl (j, Memᴰ.tail m, imported)
          | inr here ↦ elim (Bool-cases (k == kid)) [
            | inl same ↦
                let pair : ◌≡◌ {A = Option (Text × SigningKey Key)} (some (k, made))
                    (some (kid, key)) =
                  cong_some ((text_beq_iff k kid).0 same) (some_injective (rw same at here)) in
                inl (jwk, Memᴰ.head refl, import_key-IsImported kid key jwk (e ∙ pair))
            | inr other ↦ inr (rw other at here)
          ]
        ]
  ]

  -- Every key that a lookup finds after a refresh came from a key of the document with that kid which is not
  -- marked for encryption, and is bound to the signature algorithm that it declares, if it declares any.
  pub import_keys-IsImported :
      (set : List (Jwk Key)) (kid : Text) (key : SigningKey Key)
      → get kid (import_keys [] set) ≡ some key
      → (jwk : Jwk Key) × Memᴰ jwk set × IsImported kid key jwk
  unfolding get
  import_keys-IsImported set kid key h = elim (import_keys-get set [] kid key h) [
    | inl (jwk, m, imported) ↦ (jwk, m, imported)
    | inr old ↦ absurd (cc)
  ]

-- However long the body, and whatever length was advertised, no more of it is kept than the bound.
pub read_body-bound :
    (body : List ℕ) (rest : Body) (whole : List ℕ)
    → length body ≤ max_jwks_bytes
    → read_body body rest ≡ ok whole
    → length whole ≤ max_jwks_bytes
unfolding read_body
read_body-bound body ends whole h e =
    let same : body ≡ whole = cc in subst (λ x. length x ≤ max_jwks_bytes) same h
read_body-bound body breaks whole h e = absurd (cc)
read_body-bound body (chunk c rest) whole h e =
    elim (Bool-cases (ltb max_jwks_bytes (length body + length c))) [
      | inl over ↦ absurd (cc (rw (over, read_body) at e))
      | inr fits ↦
          read_body-bound (body ++ c) rest whole (ground (arith, length-append body c, fits))
            (rw (fits, read_body) at e)
    ]

length-take : {A : Type 0} (n : ℕ) (xs : List A) → length (take n xs) ≤ n
length-take zero xs = ground arith
length-take (suc n) [] = ground arith
length-take (suc n) (x ∷ xs) = ground (arith, length-take n xs)

take-All : {A : Type 0} (P : A → Type 0) (n : ℕ) (xs : List A) → All P xs → All P (take n xs)
take-All P zero xs h = tt
take-All P (suc n) [] h = tt
take-All P (suc n) (x ∷ xs) (h, hs) = (h, take-All P n xs hs)

keep-All : {A : Type 0} (p : A → Bool) (xs : List A) → All (λ x. p x ≡ true) (keep p xs)
unfolding keep
keep-All p [] = tt
keep-All p (x ∷ xs) = elim (Bool-cases (p x)) [
  | inl e ↦ rw e (e, keep-All p xs)
  | inr e ↦ rw e (keep-All p xs)
]

-- What is shown of a kid has at most 64 characters, none of them a control character.
pub sanitize_kid-bound :
    (kid : Text)
    → (length (sanitize_kid kid) ≤ 64) × All (λ c. not (is_control c) ≡ true) (sanitize_kid kid)
unfolding sanitize_kid
sanitize_kid-bound kid = (
  length-take 64 _,
  take-All (λ c. not (is_control c) ≡ true) 64 _ (keep-All (λ c. not (is_control c)) kid),
)
