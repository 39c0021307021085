-- ===== src/Switching/Reordering/Members.antt =====
-- Members of a table by their index: in filters, and where a condition counts one row.
use mathlib.Core.Path.{subst}
use easyrisparmio_backend.Prelude.{
  ℕ, zero, suc, ◌≤◌, ◌≡◌, refl, sym, inl, inr, Bool, true, some, List, [], ◌∷◌, ◌++◌, map, find?,
  get_elem?, All, arith, Bool-cases, filter,
}
use easyrisparmio_backend.Switching.Counts.{count}

module _ {A : Type 0} where
  pub All-get {κ} :
      (P : A → Type κ) (xs : List A) (i : ℕ) (x : A) → All P xs → get_elem? xs i ≡ some x → P x
  All-get P [] i x h e = absurd (cc)
  All-get P (y ∷ ys) zero x (h, hs) e = let same : y ≡ x = ground arith in subst P same h
  All-get P (y ∷ ys) (suc i) x (h, hs) e = All-get P ys i x hs e

  pub count-get :
      (q : A → Bool) (xs : List A) (i : ℕ) (x : A)
      → get_elem? xs i ≡ some x
      → q x ≡ true
      → 1 ≤ count q xs
  count-get q [] i x e h = absurd (cc)
  count-get q (y ∷ ys) zero x e h =
      let same : y ≡ x = ground arith in
      let yes : q y ≡ true = subst (λ z. q z ≡ true) (sym same) h in rw yes (omega arith)
  count-get q (y ∷ ys) (suc i) x e h = ground (arith, count-get q ys i x e h)

  -- A member that passes a filter is a member of what is left.
  pub filter-get :
      (p : A → Bool) (xs : List A) (i : ℕ) (x : A)
      → get_elem? xs i ≡ some x
      → p x ≡ true
      → (j : ℕ) × (get_elem? (filter p xs) j ≡ some x)
  filter-get p [] i x e h = absurd (cc)
  filter-get p (y ∷ ys) zero x e h =
      let same : y ≡ x = ground arith in
      let yes : p y ≡ true = subst (λ z. p z ≡ true) (sym same) h in (zero, rw yes e)
  filter-get p (y ∷ ys) (suc i) x e h =
      let (j, r) = filter-get p ys i x e h in
      elim (Bool-cases (p y)) [ inl f ↦ (suc j, rw f r) | inr f ↦ (j, rw f r) ]

  -- Two members that fit a condition which one row fits at most are the same.
  pub get_unique :
      (q : A → Bool) (xs : List A) (i j : ℕ) (x y : A)
      → count q xs ≤ 1
      → get_elem? xs i ≡ some x
      → get_elem? xs j ≡ some y
      → q x ≡ true
      → q y ≡ true
      → x ≡ y
  get_unique q [] i j x y h e f a b = absurd (cc)
  get_unique q (z ∷ zs) zero zero x y h e f a b = ground arith
  get_unique q (z ∷ zs) zero (suc j) x y h e f a b =
      let same : z ≡ x = ground arith in
      let yes : q z ≡ true = subst (λ w. q w ≡ true) (sym same) a in
      let one = count-get q zs j y f b in absurd (ground arith)
  get_unique q (z ∷ zs) (suc i) zero x y h e f a b =
      let same : z ≡ y = ground arith in
      let yes : q z ≡ true = subst (λ w. q w ≡ true) (sym same) b in
      let one = count-get q zs i x e a in absurd (ground arith)
  get_unique q (z ∷ zs) (suc i) (suc j) x y h e f a b =
      get_unique q zs i j x y (ground arith) e f a b

  pub find?-get :
      (q : A → Bool) (xs : List A) (x : A)
      → find? q xs ≡ some x
      → (i : ℕ) × (get_elem? xs i ≡ some x)
  find?-get q [] x e = absurd (cc)
  find?-get q (y ∷ ys) x e = elim (Bool-cases (q y)) [
    | inl t ↦ (zero, (rw (t, find?) at e))
    | inr t ↦ let (i, r) = find?-get q ys x (rw (t, find?) at e) in (suc i, r)
  ]

  -- A change whose results fit one condition only where the rows fit another.
  pub count-map_le :
      (q r : A → Bool) (g : A → A) (xs : List A)
      → ((i : ℕ) (x : A) → get_elem? xs i ≡ some x → q (g x) ≡ true → r x ≡ true)
      → count q (map g xs) ≤ count r xs
  count-map_le q r g [] h = omega arith
  count-map_le q r g (x ∷ xs) h =
      let rest = count-map_le q r g xs (λ i y e f. h (suc i) y e f) in
      let here = h zero x refl in ground (arith, rest, here)

  pub append-All {κ} : (P : A → Type κ) (xs ys : List A) → All P xs → All P ys → All P (xs ++ ys)
  append-All P [] ys h k = k
  append-All P (x ∷ xs) ys (h, hs) k = (h, append-All P xs ys hs k)
