-- ===== src/Auth/Verify/Laws.antt =====
-- What a configuration that is accepted guarantees.
use mathlib.Core.Path.{subst}
use latiq.ControlPlane.Registry.Tables.{Distinct}
use latiq.Prelude.{
  ok_injective, ◌++◌, Bool, false, ◌≡◌, refl, sym, ap, List, [], ◌∷◌, Option, any, arith, All, ◌==◌,
  ok,
}
use latiq.Prelude.Results.{>>=-ok_inv, >>-ok_inv}
use latiq.Prelude.Text.{Text, text_eq, is_empty, trim}
use latiq.Auth.Jwks.{invalid, empty_issuer, repeated_issuer, empty_audience, no_issuers}
use latiq.Auth.Verify.{
  IssuerConfig, AuthConfig, is_nil, uri_of, check_issuers, configure, Url, checked_jwks_uri,
}

-- No name before is this one, and no later one either.
abbrev IsNew : List Text → Text × Text → Type 0
IsNew known p = any (λ k. k == p.0) known ≡ false

abbrev pub same_issuer : Text × Text → Text × Text → Bool
same_issuer p q = p.0 == q.0

IsNew-snoc :
    (known : List Text) (name : Text) (pairs : List (Text × Text))
    → All (IsNew (known ++ name ∷ [])) pairs
    → All (IsNew known) pairs × All (λ q. (name == q.0) ≡ false) pairs
unfolding any
IsNew-snoc known name [] h = (tt, tt)
IsNew-snoc known name (p ∷ pairs) (h, hs) =
    let (before, here) = split_new known h in
    let (rest, others) = IsNew-snoc known name pairs hs in ((before, rest), (here, others))
  where
    split_new :
        (xs : List Text)
        → any (λ k. k == p.0) (xs ++ name ∷ []) ≡ false
        → (any (λ k. k == p.0) xs ≡ false) × ((name == p.0) ≡ false)
    split_new [] e = (refl, ground (arith, e))
    split_new (x ∷ xs) e = ground (arith, split_new xs)

check_issuers-Distinct :
    (parse_url : Text → Option Url) (known : List Text) (allow : Bool) (issuers : List IssuerConfig)
    (pairs : List (Text × Text))
    → check_issuers parse_url known allow issuers ≡ ok pairs
    → All (IsNew known) pairs × Distinct same_issuer pairs × All (λ p. is_empty p.0 ≡ false) pairs
unfolding check_issuers
check_issuers-Distinct parse_url known allow [] pairs h =
    subst
      (λ ps. All (IsNew known) ps × Distinct same_issuer ps × All (λ p. is_empty p.0 ≡ false) ps)
      (ok_injective h) (tt, tt, tt)
check_issuers-Distinct parse_url known allow (i ∷ issuers) pairs h =
    let name = trim i.issuer in
    let (filled, h1) = >>-ok_inv (is_empty name) (invalid empty_issuer) _ pairs h in
    let (unused, h2) =
      >>-ok_inv (any (λ k. k == name) known) (invalid (repeated_issuer name)) _ pairs h1 in
    let (uri, _, h3) =
      >>=-ok_inv (checked_jwks_uri parse_url (uri_of parse_url name i.jwks_uri) allow) _ pairs h2 in
    let (more, more_eq, h4) =
      >>=-ok_inv (check_issuers parse_url (known ++ name ∷ []) allow issuers) _ pairs h3 in
    let (fresh, distinct, full) =
      check_issuers-Distinct parse_url (known ++ name ∷ []) allow issuers more more_eq in
    let (before, others) = IsNew-snoc known name more fresh in
    subst
      (λ ps. All (IsNew known) ps × Distinct same_issuer ps × All (λ p. is_empty p.0 ≡ false) ps)
      (ok_injective h4) ((unused, before), (others, distinct), (filled, full))

-- A configuration that is accepted has an audience that is not empty, and its issuers have names that are not
-- empty and are pairwise different, each compared without the white space around it.
pub configure-Distinct :
    (parse_url : Text → Option Url) (cfg : AuthConfig) (audience : Text)
    (pairs : List (Text × Text))
    → configure parse_url cfg ≡ ok (audience, pairs)
    → (is_empty audience ≡ false)
      × (audience ≡ trim cfg.audience)
      × Distinct same_issuer pairs
      × All (λ p. is_empty p.0 ≡ false) pairs
unfolding configure
configure-Distinct parse_url cfg audience pairs h =
    let (filled, h1) =
      >>-ok_inv (is_empty (trim cfg.audience)) (invalid empty_audience) _ (audience, pairs) h in
    let (_, h2) = >>-ok_inv (is_nil cfg.issuers) (invalid no_issuers) _ (audience, pairs) h1 in
    let (found, found_eq, h3) =
      >>=-ok_inv (check_issuers parse_url [] cfg.allow_insecure_jwks cfg.issuers) _
        (audience, pairs) h2 in
    let (_, distinct, full) =
      check_issuers-Distinct parse_url [] cfg.allow_insecure_jwks cfg.issuers found found_eq in
    let both = ok_injective h3 in
    (
      subst (λ a. is_empty a ≡ false) (ap (λ x. x.0) both) filled,
      sym (ap (λ x. x.0) both),
      subst (λ ps. Distinct same_issuer ps) (ap (λ x. x.1) both) distinct,
      subst (λ ps. All (λ p. is_empty p.0 ≡ false) ps) (ap (λ x. x.1) both) full,
    )
