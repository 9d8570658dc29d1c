-- ===== src/ControlPlane/Registry/Keyed.antt =====
-- Tables read as maps from a text that their rows bear: what a lookup finds after the statements.
use latiq.Prelude.{
  String, Bool, true, false, ◌≡◌, refl, ap, ◌∙◌, List, [], ◌∷◌, ◌++◌, none, some, arith, eq_iff,
  ◌==◌, string_eq, any, find, if◌then◌else◌,
}
use latiq.ControlPlane.Registry.{delete_where}
use latiq.ControlPlane.Registry.Datasets.{rows_of, of_dataset, same_tag, insert_tag, insert_tags}

module _ {ℓ} {A : Type ℓ} (key : A → String) where
  abbrev pub bears : String → A → Bool
  bears k x = key x == k

  pub find-delete_same :
      (k : String) (xs : List A) → find (bears k) (delete_where (bears k) xs) ≡ none
  unfolding find delete_where
  find-delete_same k [] = refl
  find-delete_same k (x ∷ xs) = ground (arith, find-delete_same k xs)

  pub find-delete_other :
      (k l : String) (xs : List A)
      → (l == k) ≡ false
      → find (bears l) (delete_where (bears k) xs) ≡ find (bears l) xs
  unfolding find delete_where
  find-delete_other k l [] h = refl
  find-delete_other k l (x ∷ xs) h =
      ground (arith, find-delete_other k l xs h, eq_iff (key x) k, eq_iff (key x) l, eq_iff l k)

  pub find-append_other :
      (l : String) (xs : List A) (x : A)
      → (key x == l) ≡ false
      → find (bears l) (xs ++ x ∷ []) ≡ find (bears l) xs
  unfolding find
  find-append_other l [] x h = rw h refl
  find-append_other l (y ∷ ys) x h = ground (arith, find-append_other l ys x h)

  pub find-append_new :
      (k : String) (xs : List A) (x : A)
      → find (bears k) xs ≡ none
      → (key x == k) ≡ true
      → find (bears k) (xs ++ x ∷ []) ≡ some x
  unfolding find
  find-append_new k [] x n h = rw h refl
  find-append_new k (y ∷ ys) x n h = ground (arith, find-append_new k ys x)

  pub any-delete_same :
      (k : String) (xs : List A) → any (bears k) (delete_where (bears k) xs) ≡ false
  unfolding any delete_where
  any-delete_same k [] = refl
  any-delete_same k (x ∷ xs) = ground (arith, any-delete_same k xs)

  pub any_of_find : (k : String) (xs : List A) → any (bears k) xs ≡ false → find (bears k) xs ≡ none
  unfolding any find
  any_of_find k [] h = refl
  any_of_find k (x ∷ xs) h = ground (arith, any_of_find k xs)

module _ {ℓ} {A : Type ℓ} where
  pub rows_of-delete_same :
      (n : String) (rows : List (String × A)) → rows_of n (delete_where (of_dataset n) rows) ≡ []
  unfolding rows_of delete_where
  rows_of-delete_same n [] = refl
  rows_of-delete_same n ((o, a) ∷ rows) = ground (arith, rows_of-delete_same n rows)

  pub rows_of-delete_other :
      (n m : String) (rows : List (String × A))
      → (m == n) ≡ false
      → rows_of m (delete_where (of_dataset n) rows) ≡ rows_of m rows
  unfolding rows_of delete_where
  rows_of-delete_other n m [] h = refl
  rows_of-delete_other n m ((o, a) ∷ rows) h =
      ground (arith, rows_of-delete_other n m rows h, eq_iff o n, eq_iff o m, eq_iff m n)

  pub rows_of-append_same :
      (n : String) (a : A) (rows : List (String × A))
      → rows_of n (rows ++ (n, a) ∷ []) ≡ rows_of n rows ++ a ∷ []
  unfolding rows_of
  rows_of-append_same n a [] = ground (arith, eq_iff n n)
  rows_of-append_same n a ((o, b) ∷ rows) = ground (arith, rows_of-append_same n a rows)

  pub rows_of-append_other :
      (n m : String) (a : A) (rows : List (String × A))
      → (m == n) ≡ false
      → rows_of m (rows ++ (n, a) ∷ []) ≡ rows_of m rows
  unfolding rows_of
  rows_of-append_other n m a [] h = ground (arith, eq_iff n m, eq_iff m n)
  rows_of-append_other n m a ((o, b) ∷ rows) h = ground (arith, rows_of-append_other n m a rows h)

-- The tags that one owner has, each once and in the order in which they first came.
unfoldable pub with_tag : String → List String → List String
with_tag t ts = if any (λ s. s == t) ts then ts else ts ++ t ∷ []

unfoldable pub with_tags : List String → List String → List String
unfolding with_tag
with_tags [] ts = ts
with_tags (u ∷ us) ts = with_tags us (with_tag u ts)

any-rows_of :
    (n t : String) (rows : List (String × String))
    → any (same_tag n t) rows ≡ any (λ s. s == t) (rows_of n rows)
unfolding any rows_of
any-rows_of n t [] = refl
any-rows_of n t ((o, s) ∷ rows) = ground (arith, any-rows_of n t rows)

rows_of-insert_tag :
    (n t : String) (rows : List (String × String))
    → rows_of n (insert_tag n t rows) ≡ with_tag t (rows_of n rows)
unfolding insert_tag with_tag
rows_of-insert_tag n t rows = ground (arith, any-rows_of n t rows, rows_of-append_same n t rows)

pub rows_of-insert_tags :
    (n : String) (ts : List String) (rows : List (String × String))
    → rows_of n (insert_tags n ts rows) ≡ with_tags ts (rows_of n rows)
unfolding insert_tags with_tags
rows_of-insert_tags n [] rows = refl
rows_of-insert_tags n (t ∷ ts) rows =
    rows_of-insert_tags n ts (insert_tag n t rows) ∙ ap (with_tags ts) (rows_of-insert_tag n t rows)

pub rows_of-insert_tags_other :
    (n m : String) (ts : List String) (rows : List (String × String))
    → (m == n) ≡ false
    → rows_of m (insert_tags n ts rows) ≡ rows_of m rows
unfolding insert_tags insert_tag
rows_of-insert_tags_other n m [] rows h = refl
rows_of-insert_tags_other n m (t ∷ ts) rows h =
    rows_of-insert_tags_other n m ts (insert_tag n t rows) h
    ∙ ground (arith, rows_of-append_other n m t rows h)
