-- ===== src/Shared/Sorting.antt =====
-- ORDER BY: a stable insertion sort by a Boolean order.
use Prim.Native.Nat.{ℕ, zero, suc}
use mathlib.Core.Path.{◌≡◌, refl}
use mathlib.Core.Bool.{Bool}
use mathlib.Core.List.{List, [], ◌∷◌}
use native.Mathlib.Omega.{arith}
use ingest_srv.Shared.Basics.{count, if◌then◌else◌}

module _ {ℓ} {A : Type ℓ} where
  -- LIMIT
  abbrev pub take : ℕ → List A → List A
  take zero xs = []
  take (suc n) [] = []
  take (suc n) (x ∷ xs) = x ∷ take n xs

  -- Before the first row that it may precede.
  unfoldable pub place_by : (A → A → Bool) → A → List A → List A
  place_by le x [] = x ∷ []
  place_by le x (y ∷ ys) = let rest = place_by le x ys in if le x y then x ∷ y ∷ ys else y ∷ rest

  unfoldable pub sort_by : (A → A → Bool) → List A → List A
  unfolding place_by
  sort_by le [] = []
  sort_by le (x ∷ xs) = place_by le x (sort_by le xs)

  count-place_by :
      (p : A → Bool) (le : A → A → Bool) (x : A) (xs : List A)
      → count p (place_by le x xs) ≡ count p (x ∷ xs)
  unfolding place_by
  count-place_by p le x [] = refl
  count-place_by p le x (y ∷ ys) = ground (arith, count-place_by p le x ys)

  -- Sorting neither loses nor repeats a row.
  pub count-sort_by :
      (p : A → Bool) (le : A → A → Bool) (xs : List A) → count p (sort_by le xs) ≡ count p xs
  unfolding sort_by
  count-sort_by p le [] = refl
  count-sort_by p le (x ∷ xs) =
      ground (arith, count-place_by p le x (sort_by le xs), count-sort_by p le xs)
