-- ===== src/Switching/Tables.antt =====
-- What a query finds after a table has been updated.
use mathlib.Core.Path.{subst}
use easyrisparmio_backend.Prelude.{
  ℕ, ◌==◌, ◌≡◌, refl, sym, ap, ◌∙◌, inl, inr, Bool, true, false, some, List, [], ◌∷◌, All, find?,
  leb, arith, if◌then◌else◌, Bool-cases, Option-cases, filter,
}
use easyrisparmio_backend.Switching.{update_where, latest, later}

module _ {A : Type 0} where
  pub find?-holds : (p : A → Bool) (xs : List A) (a : A) → find? p xs ≡ some a → p a ≡ true
  find?-holds p [] a e = absurd (cc)
  find?-holds p (x ∷ xs) a e = elim (Bool-cases (p x)) [
    | inl t ↦ let same : x ≡ a = ground arith in subst (λ y. p y ≡ true) same t
    | inr t ↦ find?-holds p xs a (ground arith)
  ]

  pub find?-first : (p : A → Bool) (x : A) (xs : List A) → p x ≡ true → find? p (x ∷ xs) ≡ some x
  find?-first p x xs h = rw (h, find?) refl

  pub find?-next :
      (p : A → Bool) (x : A) (xs : List A) → p x ≡ false → find? p (x ∷ xs) ≡ find? p xs
  find?-next p x xs h = rw (h, find?) refl

  pub find?-update_where :
      (p : A → Bool) (f : A → A) (xs : List A) (a : A)
      → find? p xs ≡ some a
      → p (f a) ≡ true
      → find? p (update_where p f xs) ≡ some (f a)
  find?-update_where p f [] a e h = absurd (cc)
  find?-update_where p f (x ∷ xs) a e h = elim (Bool-cases (p x)) [
    | inl t ↦
        let same : a ≡ x = ground arith in
        let row : (if p x then f x else x) ≡ f a = rw (t, same) refl in
        ap (λ y. find? p (y ∷ update_where p f xs)) row
        ∙ find?-first p (f a) (update_where p f xs) h
    | inr t ↦
        let row : (if p x then f x else x) ≡ x = rw t refl in
        ap (λ y. find? p (y ∷ update_where p f xs)) row
        ∙ find?-next p x (update_where p f xs) t
        ∙ find?-update_where p f xs a (ground arith) h
  ]

  -- An update of rows that the query passes by, before and after.
  pub find?-update_where_other :
      (q p : A → Bool) (f : A → A)
      → ((x : A) → p x ≡ true → (q x ≡ false) × (q (f x) ≡ false))
      → (xs : List A) → find? q (update_where p f xs) ≡ find? q xs
  find?-update_where_other q p f h [] = refl
  find?-update_where_other q p f h (x ∷ xs) =
      let rest = find?-update_where_other q p f h xs in
      elim (Bool-cases (p x)) [
        | inl t ↦
            let row : (if p x then f x else x) ≡ f x = rw t refl in
            ap (λ y. find? q (y ∷ update_where p f xs)) row
            ∙ find?-next q (f x) (update_where p f xs) (h x t).1
            ∙ rest
            ∙ sym (find?-next q x xs (h x t).0)
        | inr t ↦
            let row : (if p x then f x else x) ≡ x = rw t refl in
            ap (λ y. find? q (y ∷ update_where p f xs)) row ∙ elim (Bool-cases (q x)) [
              | inl u ↦ find?-first q x (update_where p f xs) u ∙ sym (find?-first q x xs u)
              | inr u ↦ find?-next q x (update_where p f xs) u ∙ rest ∙ sym (find?-next q x xs u)
            ]
      ]

  -- An update of all rows to one row that fits.
  pub update_where-All {κ} :
      (P : A → Type κ) (p : A → Bool) (f : A → A)
      → ((a : A) → p a ≡ true → P a → P (f a))
      → (xs : List A) → All P xs
      → All P (update_where p f xs)
  update_where-All P p f step [] h = tt
  update_where-All P p f step (x ∷ xs) (h, hs) = elim (Bool-cases (p x)) [
    | inl t ↦ rw t (step x t h, update_where-All P p f step xs hs)
    | inr t ↦ rw t (h, update_where-All P p f step xs hs)
  ]

  pub latest-All {κ} :
      (P : A → Type κ) (time : A → ℕ) (p : A → Bool) (xs : List A) (a : A)
      → All P xs
      → latest time p xs ≡ some a
      → P a
  unfolding latest later
  latest-All P time p [] a h e = absurd (cc)
  latest-All P time p (x ∷ xs) a (h, hs) e = elim (Bool-cases (p x)) [
    | inr t ↦ latest-All P time p xs a hs (rw (t, latest) at e)
    | inl t ↦ elim (Option-cases (latest time p xs)) [
      | inl f ↦ let same : x ≡ a = ground (arith, (rw (t, f, latest, later) at e)) in subst P same h
      | inr (y, f) ↦ elim (Bool-cases (leb (time y) (time x))) [
        | inl g ↦
            let same : x ≡ a = ground (arith, (rw (t, f, g, latest, later) at e)) in subst P same h
        | inr g ↦
            let same : y ≡ a = ground (arith, (rw (t, f, g, latest, later) at e)) in
            subst P same (latest-All P time p xs y hs f)
      ]
    ]
  ]

-- A primary key: no two rows of a table have the same.
module _ {A : Type 0} (key : A → ℕ) where
  abbrev pub IsKey : List A → Type 0
  IsKey [] = Unit
  IsKey (x ∷ xs) = All (λ y. (key x == key y) ≡ false) xs × IsKey xs

  -- The newest row that fits is the row that its key finds.
  pub latest-key :
      (time : A → ℕ) (p : A → Bool) (xs : List A) (a : A)
      → IsKey xs
      → latest time p xs ≡ some a
      → find? (λ y. key y == key a) xs ≡ some a
  unfolding latest later
  latest-key time p [] a h e = absurd (cc)
  latest-key time p (x ∷ xs) a (h, hs) e = elim (Option-cases (latest time p xs)) [
    | inl f ↦ elim (Bool-cases (p x)) [
      | inr t ↦ absurd (cc (rw (t, latest, f) at e))
      | inl t ↦
          let same : x ≡ a = ground (arith, (rw (t, f, latest, later) at e)) in
          subst (λ y. find? (λ z. key z == key y) (x ∷ xs) ≡ some y) same
            (find?-first (λ z. key z == key x) x xs (ground arith))
    ]
    | inr (y, f) ↦
        let below : find? (λ z. key z == key y) (x ∷ xs) ≡ some y =
          find?-next (λ z. key z == key y) x xs
            (latest-All (λ z. (key x == key z) ≡ false) time p xs y h f)
          ∙ latest-key time p xs y hs f in
        elim (Bool-cases (p x)) [
          | inr t ↦
              let same : y ≡ a = ground (arith, (rw (t, latest, f) at e)) in
              subst (λ y. find? (λ z. key z == key y) (x ∷ xs) ≡ some y) same below
          | inl t ↦ elim (Bool-cases (leb (time y) (time x))) [
            | inl g ↦
                let same : x ≡ a = ground (arith, (rw (t, f, g, latest, later) at e)) in
                subst (λ y. find? (λ z. key z == key y) (x ∷ xs) ≡ some y) same
                  (find?-first (λ z. key z == key x) x xs (ground arith))
            | inr g ↦
                let same : y ≡ a = ground (arith, (rw (t, f, g, latest, later) at e)) in
                subst (λ y. find? (λ z. key z == key y) (x ∷ xs) ≡ some y) same below
          ]
        ]
  ]

  found_below :
      (x : A) (xs ys : List A)
      → All (λ y. (key x == key y) ≡ false) ys
      → All (λ a. find? (λ y. key y == key a) xs ≡ some a) ys
      → All (λ a. find? (λ y. key y == key a) (x ∷ xs) ≡ some a) ys
  found_below x xs [] h k = tt
  found_below x xs (a ∷ ys) (h, hs) (k, ks) =
      (find?-next (λ y. key y == key a) x xs h ∙ k, found_below x xs ys hs ks)

  -- Every row is the one that its key finds.
  pub key-All : (xs : List A) → IsKey xs → All (λ a. find? (λ y. key y == key a) xs ≡ some a) xs
  key-All [] h = tt
  key-All (x ∷ xs) (h, hs) =
      (find?-first (λ y. key y == key x) x xs (ground arith), found_below x xs xs h (key-All xs hs))

module _ {A : Type 0} where
  -- The rows that pass a filter keep what all rows have, and pass it.
  pub filter-All {κ} :
      (P : A → Type κ) (p : A → Bool) (xs : List A)
      → All P xs
      → All (λ a. P a × (p a ≡ true)) (filter p xs)
  filter-All P p [] h = tt
  filter-All P p (x ∷ xs) (h, hs) = elim (Bool-cases (p x)) [
    | inl e ↦ rw e ((h, e), filter-All P p xs hs)
    | inr e ↦ rw e (filter-All P p xs hs)
  ]
