-- ===== src/Prelude/Sorting.antt =====
-- Sorting a list, and what holds of all elements or of some of them before and after.
use mathlib.Core.Path.{◌≡◌, refl}
use mathlib.Core.Logic.{inl, inr}
use mathlib.Core.Bool.{Bool, ◌||◌}
use mathlib.Core.List.{List, [], ◌∷◌}
use native.Mathlib.Omega.{arith}
use easyrisparmio_backend.Prelude.Tests.{if◌then◌else◌, Bool-cases}
use easyrisparmio_backend.Prelude.Lists.{All, any}

-- `sort`, by insertion; it keeps the order of elements that compare equal.
module _ {A : Type 0} (before : A → A → Bool) where
  unfoldable pub insert_sorted : A → List A → List A
  insert_sorted x [] = x ∷ []
  insert_sorted x (y ∷ ys) =
      let rest = insert_sorted x ys in if before y x then y ∷ rest else x ∷ y ∷ ys

  unfoldable pub sort : List A → List A
  sort [] = []
  sort (x ∷ xs) = insert_sorted x (sort xs)

module _ {A : Type 0} where
  insert_sorted-All {κ} :
      (P : A → Type κ) (before : A → A → Bool) (x : A) (xs : List A)
      → P x
      → All P xs
      → All P (insert_sorted before x xs)
  unfolding insert_sorted
  insert_sorted-All P before x [] h k = (h, tt)
  insert_sorted-All P before x (y ∷ ys) h (k, ks) = elim (Bool-cases (before y x)) [
    | inl e ↦ rw e (k, insert_sorted-All P before x ys h ks)
    | inr e ↦ rw e (h, (k, ks))
  ]

  pub sort-All {κ} :
      (P : A → Type κ) (before : A → A → Bool) (xs : List A) → All P xs → All P (sort before xs)
  unfolding sort
  sort-All P before [] h = tt
  sort-All P before (x ∷ xs) (h, hs) =
      insert_sorted-All P before x (sort before xs) h (sort-All P before xs hs)

  any-insert_sorted :
      (p : A → Bool) (before : A → A → Bool) (x : A) (xs : List A)
      → any p (insert_sorted before x xs) ≡ (p x || any p xs)
  unfolding insert_sorted
  any-insert_sorted p before x [] = refl
  any-insert_sorted p before x (y ∷ ys) = ground (arith, any-insert_sorted p before x ys)

  pub any-sort :
      (p : A → Bool) (before : A → A → Bool) (xs : List A) → any p (sort before xs) ≡ any p xs
  unfolding sort
  any-sort p before [] = refl
  any-sort p before (x ∷ xs) =
      ground (arith, any-insert_sorted p before x (sort before xs), any-sort p before xs)
