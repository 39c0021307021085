-- ===== src/Switching/Counts.antt =====
-- How many rows of a table fit a condition, and what updates, filters and sorting do to the number.
use easyrisparmio_backend.Prelude.{
  ℕ, ◌+◌, ◌≤◌, ◌≡◌, refl, inl, inr, Bool, true, false, none, List, [], ◌∷◌, ◌++◌, find?, any, arith,
  Bool-cases, filter,
}
use easyrisparmio_backend.Switching.{update_where}

abbrev pub bit : Bool → ℕ
bit true = 1
bit false = 0

module _ {A : Type 0} where
  abbrev pub count : (A → Bool) → List A → ℕ
  count q [] = 0
  count q (x ∷ xs) = bit (q x) + count q xs

  pub count-append : (q : A → Bool) (xs ys : List A) → count q (xs ++ ys) ≡ count q xs + count q ys
  count-append q [] ys = omega arith
  count-append q (x ∷ xs) ys = ground (arith, count-append q xs ys)

  -- A change that makes no row fit that did not.
  pub count-update_where_le :
      (q p : A → Bool) (f : A → A)
      → ((x : A) → p x ≡ true → q (f x) ≡ true → q x ≡ true)
      → (xs : List A) → count q (update_where p f xs) ≤ count q xs
  count-update_where_le q p f h [] = omega arith
  count-update_where_le q p f h (x ∷ xs) = elim (Bool-cases (p x)) [
    | inr t ↦ rw t (ground (arith, count-update_where_le q p f h xs))
    | inl t ↦ rw t (ground (arith, h x t, count-update_where_le q p f h xs))
  ]

  -- A change that turns every fitting row into one that does not fit.
  pub count-update_where_zero :
      (q : A → Bool) (f : A → A)
      → ((x : A) → q (f x) ≡ false)
      → (xs : List A) → count q (update_where q f xs) ≡ 0
  count-update_where_zero q f h [] = refl
  count-update_where_zero q f h (x ∷ xs) = elim (Bool-cases (q x)) [
    | inr t ↦ rw t (rw t (omega (arith, count-update_where_zero q f h xs)))
    | inl t ↦ rw (t, h x) (omega (arith, count-update_where_zero q f h xs))
  ]

  pub count-filter_le : (q p : A → Bool) (xs : List A) → count q (filter p xs) ≤ count q xs
  count-filter_le q p [] = omega arith
  count-filter_le q p (x ∷ xs) = elim (Bool-cases (p x)) [
    | inl t ↦ rw t (ground (arith, count-filter_le q p xs))
    | inr t ↦ rw t (ground (arith, count-filter_le q p xs))
  ]

  -- A filter that no fitting row passes.
  pub count-filter_zero :
      (q p : A → Bool)
      → ((x : A) → q x ≡ true → p x ≡ false)
      → (xs : List A) → count q (filter p xs) ≡ 0
  count-filter_zero q p h [] = refl
  count-filter_zero q p h (x ∷ xs) = elim (Bool-cases (p x)) [
    | inl t ↦ rw t (ground (arith, h x, count-filter_zero q p h xs))
    | inr t ↦ rw t (count-filter_zero q p h xs)
  ]

  pub any-count : (q : A → Bool) (xs : List A) → any q xs ≡ false → count q xs ≡ 0
  any-count q [] h = refl
  any-count q (x ∷ xs) h = ground (arith, any-count q xs)

  pub find?-count : (q : A → Bool) (xs : List A) → find? q xs ≡ none → count q xs ≡ 0
  find?-count q [] h = refl
  find?-count q (x ∷ xs) h = ground (arith, find?-count q xs)

  -- Two conditions that agree.
  pub count-ext : (q r : A → Bool) → ((x : A) → q x ≡ r x) → (xs : List A) → count q xs ≡ count r xs
  count-ext q r h [] = refl
  count-ext q r h (x ∷ xs) = ground (arith, h x, count-ext q r h xs)
