-- ===== src/Shared/Updates.antt =====
-- UPDATE … WHERE: the rows of a table that pass a test are changed, the others stay.
use Prim.Native.Nat.{◌≤◌, ◌<◌}
use mathlib.Core.Path.{◌≡◌, refl}
use mathlib.Core.Bool.{Bool, true, false}
use mathlib.Core.List.{List, [], ◌∷◌}
use native.Mathlib.Omega.{arith}
use ingest_srv.Shared.Basics.{count, if◌then◌else◌}

module _ {ℓ} {A : Type ℓ} where
  unfoldable pub update_where : (A → Bool) → (A → A) → List A → List A
  update_where p f [] = []
  update_where p f (x ∷ xs) = (if p x then f x else x) ∷ update_where p f xs

  -- An update whose new rows fail a test of which all rows that pass are updated leaves none.
  pub count-update_all :
      (q p : A → Bool) (f : A → A)
      → ((x : A) → q x ≡ true → p x ≡ true)
      → ((x : A) → q (f x) ≡ false)
      → (xs : List A) → count q (update_where p f xs) ≡ 0
  unfolding update_where
  count-update_all q p f hit done [] = refl
  count-update_all q p f hit done (x ∷ xs) =
      ground (arith, count-update_all q p f hit done xs, hit x, done x)

  -- An update after which no more rows pass the test than before.
  pub count-update-le :
      (q p : A → Bool) (f : A → A)
      → ((x : A) → p x ≡ true → q (f x) ≡ true → q x ≡ true)
      → (xs : List A) → count q (update_where p f xs) ≤ count q xs
  unfolding update_where
  count-update-le q p f kept [] = omega arith
  count-update-le q p f kept (x ∷ xs) = ground (arith, count-update-le q p f kept xs, kept x)

  -- An update that keeps the outcome of the test for the rows that it changes.
  pub count-update_same :
      (q p : A → Bool) (f : A → A)
      → ((x : A) → p x ≡ true → q (f x) ≡ q x)
      → (xs : List A) → count q (update_where p f xs) ≡ count q xs
  unfolding update_where
  count-update_same q p f kept [] = refl
  count-update_same q p f kept (x ∷ xs) = ground (arith, count-update_same q p f kept xs, kept x)

  -- An update that finds no row changes nothing.
  pub update_where_none :
      (p : A → Bool) (f : A → A) (xs : List A) → count p xs ≡ 0 → update_where p f xs ≡ xs
  unfolding update_where
  update_where_none p f [] h = refl
  update_where_none p f (x ∷ xs) h = ground (arith, update_where_none p f xs)

  count_mono :
      (p o : A → Bool)
      → ((x : A) → p x ≡ true → o x ≡ true)
      → (xs : List A) → count p xs ≤ count o xs
  count_mono p o h [] = omega arith
  count_mono p o h (x ∷ xs) = ground (arith, count_mono p o h xs, h x)

  -- An update of one row: where `o` holds of one row at most, `p` and `q` hold of rows of `o` only and
  -- of no row after the update, then, if `p` held of a row, `q` holds of none.
  module _ (o p q : A → Bool) (f : A → A) (po : (x : A) → p x ≡ true → o x ≡ true)
      (qo : (x : A) → q x ≡ true → o x ≡ true) (done : (x : A) → q (f x) ≡ false) where
    none_owned : (xs : List A) → count o xs ≡ 0 → count q (update_where p f xs) ≡ 0
    unfolding update_where
    none_owned [] h = refl
    none_owned (x ∷ xs) h = ground (arith, none_owned xs, po x, qo x)

    pub count-update_one :
        (xs : List A) → count o xs ≤ 1 → 0 < count p xs → count q (update_where p f xs) ≡ 0
    unfolding update_where
    count-update_one [] h k = refl
    count-update_one (x ∷ xs) h k =
        ground (arith, none_owned xs, count-update_one xs, count_mono p o po xs, po x, qo x, done x)
