-- ===== src/ControlPlane/Registry/Tables.antt =====
-- Rows told apart by a test on pairs, as a PRIMARY KEY or UNIQUE constraint keeps them, and what
-- the statements do to such a table.
use mathlib.Core.List.{Memᴰ}
use mathlib.Core.Path.{subst}
use latiq.Prelude.{
  Bool, true, false, ◌≡◌, refl, sym, ap, ◌∙◌, inl, inr, List, [], ◌∷◌, ◌++◌, none, some, arith, All,
  any, find, Bool-cases,
}
use latiq.ControlPlane.Registry.{update_where, delete_where}

module _ {ℓ} {A : Type ℓ} (same : A → A → Bool) where
  abbrev pub Distinct : List A → Type 0
  Distinct [] = Unit
  Distinct (x ∷ xs) = All (λ y. same x y ≡ false) xs × Distinct xs

module _ {ℓ} {A : Type ℓ} where
  pub All-delete_where {κ} :
      (P : A → Type κ) (p : A → Bool) (xs : List A) → All P xs → All P (delete_where p xs)
  unfolding delete_where
  All-delete_where P p [] h = tt
  All-delete_where P p (x ∷ xs) (h, hs) = elim (Bool-cases (p x)) [
    | inl e ↦ rw e (All-delete_where P p xs hs)
    | inr e ↦ rw e (h, All-delete_where P p xs hs)
  ]

  pub All-update_where {κ} :
      (P : A → Type κ) (p : A → Bool) (f : A → A) (xs : List A)
      → ((x : A) → P x → P (f x))
      → All P xs
      → All P (update_where p f xs)
  unfolding update_where
  All-update_where P p f [] keeps h = tt
  All-update_where P p f (x ∷ xs) keeps (h, hs) = elim (Bool-cases (p x)) [
    | inl e ↦ rw e (keeps x h, All-update_where P p f xs keeps hs)
    | inr e ↦ rw e (h, All-update_where P p f xs keeps hs)
  ]

  pub All-snoc {κ} : (P : A → Type κ) (xs : List A) (a : A) → All P xs → P a → All P (xs ++ a ∷ [])
  All-snoc P [] a h p = (p, tt)
  All-snoc P (x ∷ xs) a (h, hs) p = (h, All-snoc P xs a hs p)

  pub All-map {κ κ'} :
      (P : A → Type κ) (Q : A → Type κ') (xs : List A) → ((x : A) → P x → Q x) → All P xs → All Q xs
  All-map P Q [] f h = tt
  All-map P Q (x ∷ xs) f (h, hs) = (f x h, All-map P Q xs f hs)

  pub any-append : (p : A → Bool) (xs ys : List A) → any p xs ≡ true → any p (xs ++ ys) ≡ true
  unfolding any
  any-append p [] ys h = cc
  any-append p (x ∷ xs) ys h = ground (arith, any-append p xs ys)

  pub any-snoc : (p : A → Bool) (xs : List A) (a : A) → p a ≡ true → any p (xs ++ a ∷ []) ≡ true
  unfolding any
  any-snoc p [] a h = ground arith
  any-snoc p (x ∷ xs) a h = ground (arith, any-snoc p xs a h)

  pub any-update_where :
      (q p : A → Bool) (f : A → A) (xs : List A)
      → ((x : A) → q (f x) ≡ q x)
      → any q (update_where p f xs) ≡ any q xs
  unfolding any update_where
  any-update_where q p f [] h = refl
  any-update_where q p f (x ∷ xs) h = ground (arith, h x, any-update_where q p f xs h)

  pub find_of_any :
      (p : A → Bool) (xs : List A) → any p xs ≡ true → (a : A) × (find p xs ≡ some a) × (p a ≡ true)
  unfolding any find
  find_of_any p [] h = cc
  find_of_any p (x ∷ xs) h = elim (Bool-cases (p x)) [
    | inl e ↦ (x, rw e refl, e)
    | inr e ↦ let (a, found, holds) = find_of_any p xs (rw e at h) in (a, rw e found, holds)
  ]

  pub find_of_not_any : (p : A → Bool) (xs : List A) → any p xs ≡ false → find p xs ≡ none
  unfolding any find
  find_of_not_any p [] h = refl
  find_of_not_any p (x ∷ xs) h = ground (arith, find_of_not_any p xs)

module _ {ℓ} {A : Type ℓ} (same : A → A → Bool) where
  pub Distinct-delete_where :
      (p : A → Bool) (xs : List A) → Distinct same xs → Distinct same (delete_where p xs)
  unfolding delete_where
  Distinct-delete_where p [] d = tt
  Distinct-delete_where p (x ∷ xs) (h, d) = elim (Bool-cases (p x)) [
    | inl e ↦ rw e (Distinct-delete_where p xs d)
    | inr e ↦ rw e (All-delete_where _ p xs h, Distinct-delete_where p xs d)
  ]

  pub Distinct-snoc :
      (xs : List A) (a : A)
      → Distinct same xs
      → any (λ x. same x a) xs ≡ false
      → Distinct same (xs ++ a ∷ [])
  unfolding any
  Distinct-snoc [] a d h = (tt, tt)
  Distinct-snoc (x ∷ xs) a (n, d) h =
      (All-snoc _ xs a n (ground arith), Distinct-snoc xs a d (ground arith))

  -- An UPDATE that leaves alone what the rows are told apart by.
  pub Distinct-update_where :
      (p : A → Bool) (f : A → A) (xs : List A)
      → ((x y : A) → same (f x) y ≡ same x y)
      → ((x y : A) → same x (f y) ≡ same x y)
      → Distinct same xs
      → Distinct same (update_where p f xs)
  unfolding update_where
  Distinct-update_where p f [] l r d = tt
  Distinct-update_where p f (x ∷ xs) l r (h, d) = elim (Bool-cases (p x)) [
    | inl e ↦ rw e (
      All-update_where _ p f xs (λ y q. r _ y ∙ q) (All-map _ _ xs (λ y q. l x y ∙ q) h),
      Distinct-update_where p f xs l r d,
    )
    | inr e ↦
        rw e (All-update_where _ p f xs (λ y q. r x y ∙ q) h, Distinct-update_where p f xs l r d)
  ]

module _ {ℓ} {A : Type ℓ} where
  pub any-delete_where : (p : A → Bool) (xs : List A) → any p (delete_where p xs) ≡ false
  unfolding any delete_where
  any-delete_where p [] = refl
  any-delete_where p (x ∷ xs) = ground (arith, any-delete_where p xs)

  pub Memᴰ-delete_where :
      (p : A → Bool) (xs : List A) (a : A) → Memᴰ a xs → p a ≡ false → Memᴰ a (delete_where p xs)
  unfolding delete_where
  Memᴰ-delete_where p [] a m h = elim m [ ]
  Memᴰ-delete_where p (x ∷ xs) a (Memᴰ.head e) h =
      let kept : p x ≡ false = ap p (sym e) ∙ h in rw (kept, delete_where) (Memᴰ.head e)
  Memᴰ-delete_where p (x ∷ xs) a (Memᴰ.tail m) h = elim (Bool-cases (p x)) [
    | inl e ↦ rw e (Memᴰ-delete_where p xs a m h)
    | inr e ↦ rw e (Memᴰ.tail (Memᴰ-delete_where p xs a m h))
  ]

  pub Memᴰ-append_left : (a : A) (xs ys : List A) → Memᴰ a xs → Memᴰ a (xs ++ ys)
  Memᴰ-append_left a [] ys m = elim m [ ]
  Memᴰ-append_left a (x ∷ xs) ys (Memᴰ.head e) = Memᴰ.head e
  Memᴰ-append_left a (x ∷ xs) ys (Memᴰ.tail m) = Memᴰ.tail (Memᴰ-append_left a xs ys m)

  pub All-of-Memᴰ {κ} : (P : A → Type κ) (xs : List A) (a : A) → All P xs → Memᴰ a xs → P a
  All-of-Memᴰ P [] a h m = elim m [ ]
  All-of-Memᴰ P (x ∷ xs) a (h, hs) (Memᴰ.head e) = subst P (sym e) h
  All-of-Memᴰ P (x ∷ xs) a (h, hs) (Memᴰ.tail m) = All-of-Memᴰ P xs a hs m

  pub Memᴰ-find :
      (p : A → Bool) (xs : List A) (a : A) → find p xs ≡ some a → Memᴰ a xs × (p a ≡ true)
  unfolding find
  Memᴰ-find p [] a h = cc
  Memᴰ-find p (x ∷ xs) a h = elim (Bool-cases (p x)) [
    | inl e ↦
        let found : some x ≡ some a = rw (e, find) at h in
        let same : x ≡ a = cc in (Memᴰ.head (sym same), ap p (sym same) ∙ e)
    | inr e ↦ let (m, holds) = Memᴰ-find p xs a (rw (e, find) at h) in (Memᴰ.tail m, holds)
  ]

  pub find-snoc :
      (p : A → Bool) (xs : List A) (a : A)
      → any p xs ≡ false
      → p a ≡ true
      → find p (xs ++ a ∷ []) ≡ some a
  unfolding find any
  find-snoc p [] a h e = rw e refl
  find-snoc p (x ∷ xs) a h e = ground (arith, find-snoc p xs a)

  pub find-none_iff_any : (p : A → Bool) (xs : List A) → find p xs ≡ none → any p xs ≡ false
  unfolding find any
  find-none_iff_any p [] h = refl
  find-none_iff_any p (x ∷ xs) h = ground (arith, find-none_iff_any p xs)

module _ {ℓ} {A : Type ℓ} (same : A → A → Bool) where
  -- Among rows that are told apart, a key finds its own row.
  pub find-Distinct :
      (xs : List A) (a : A)
      → Distinct same xs
      → Memᴰ a xs
      → same a a ≡ true
      → find (λ x. same x a) xs ≡ some a
  unfolding find
  find-Distinct [] a d m h = elim m [ ]
  find-Distinct (x ∷ xs) a (n, d) (Memᴰ.head e) h = ground (arith, ap (λ y. same y a) e)
  find-Distinct (x ∷ xs) a (n, d) (Memᴰ.tail m) h =
      let apart : same x a ≡ false = All-of-Memᴰ (λ y. same x y ≡ false) xs a n m in
      rw (apart, find) (find-Distinct xs a d m h)

  -- Two rows with one key are one row.
  pub eq_of_same :
      (xs : List A) (a b : A)
      → Distinct same xs
      → ((x y : A) → same x y ≡ same y x)
      → Memᴰ a xs
      → Memᴰ b xs
      → same a b ≡ true
      → a ≡ b
  eq_of_same [] a b d symm m n h = elim m [ ]
  eq_of_same (x ∷ xs) a b d symm (Memᴰ.head e) (Memᴰ.head f) h = e ∙ sym f
  eq_of_same (x ∷ xs) a b (k, d) symm (Memᴰ.head e) (Memᴰ.tail n) h =
      let apart : same x b ≡ false = All-of-Memᴰ (λ y. same x y ≡ false) xs b k n in
      absurd (cc (ap (λ y. same y b) e))
  eq_of_same (x ∷ xs) a b (k, d) symm (Memᴰ.tail m) (Memᴰ.head f) h =
      let apart : same x a ≡ false = All-of-Memᴰ (λ y. same x y ≡ false) xs a k m in
      absurd (cc (ap (λ y. same a y) f, symm x a))
  eq_of_same (x ∷ xs) a b (k, d) symm (Memᴰ.tail m) (Memᴰ.tail n) h = eq_of_same xs a b d symm m n h
