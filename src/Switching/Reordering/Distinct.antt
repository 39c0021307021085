-- ===== src/Switching/Reordering/Distinct.antt =====
-- The list that `reorderSentOffers` of src/modules/bills/bills.service.ts saves names no row twice.
use mathlib.Core.Path.{subst}
use easyrisparmio_backend.Prelude.{
  ℕ, ◌≤◌, ◌==◌, ◌≡◌, refl, sym, ◌∙◌, inl, inr, Bool, true, false, not, Option, none, some, List, [],
  ◌∷◌, any, All, arith, Bool-cases, Option-cases, filter,
}
use easyrisparmio_backend.Switching.{SentOffer, holds_id}
use easyrisparmio_backend.Switching.Counts.{
  count, count-append, count-filter_le, any-count, count-ext,
}
use easyrisparmio_backend.Switching.Tables.{IsKey}
use easyrisparmio_backend.Switching.Proposals.Unique.{count-sort}
use easyrisparmio_backend.Switching.Reordering.{
  has_duplicates, sent_by_offer_id, is_named, is_before, trailing, picked, ordered, is_row,
}

module _ {A : Type 0} where
  pub All-filter {κ} :
      (P : A → Type κ) (p : A → Bool) (xs : List A) → All P xs → All P (filter p xs)
  All-filter P p [] h = tt
  All-filter P p (x ∷ xs) (h, hs) = elim (Bool-cases (p x)) [
    | inl e ↦ rw e (h, All-filter P p xs hs)
    | inr e ↦ rw e (All-filter P p xs hs)
  ]

-- At most this row has this id.
abbrev IsOnly : ℕ → SentOffer → SentOffer → Type 0
IsOnly k z row = (row.id == k) ≡ true → row ≡ z

-- A row that stands for an id that no row has.
abbrev nobody : SentOffer
nobody = record {
  id = 0;
  user_id = 0;
  bill_id = 0;
  offer_id = none;
  estimated_savings = none;
  display_order = 0;
  created_at = 0;
}

others-IsOnly :
    (k : ℕ) (x z : SentOffer) (rows : List SentOffer)
    → (x.id == k) ≡ true
    → All (λ y. (x.id == y.id) ≡ false) rows
    → All (IsOnly k z) rows
others-IsOnly k x z [] e h = tt
others-IsOnly k x z (y ∷ ys) e (h, hs) = ((λ f. absurd (ground arith)), others-IsOnly k x z ys e hs)

key-IsOnly :
    (k : ℕ) (rows : List SentOffer)
    → IsKey (λ r. r.id) rows
    → (z : SentOffer) × All (IsOnly k z) rows
key-IsOnly k [] h = (nobody, tt)
key-IsOnly k (x ∷ xs) (h, hs) = elim (Bool-cases (x.id == k)) [
  | inl e ↦ (x, ((λ f. refl), others-IsOnly k x x xs e h))
  | inr e ↦ let (z, rest) = key-IsOnly k xs hs in (z, ((λ f. absurd (cc)), rest))
]

others-count :
    (k : ℕ) (x : SentOffer) (rows : List SentOffer)
    → (x.id == k) ≡ true
    → All (λ y. (x.id == y.id) ≡ false) rows
    → count (is_row k) rows ≡ 0
others-count k x [] e h = refl
others-count k x (y ∷ ys) e (h, hs) = ground (arith, others-count k x ys e hs)

pub key-count : (k : ℕ) (rows : List SentOffer) → IsKey (λ r. r.id) rows → count (is_row k) rows ≤ 1
key-count k [] h = omega arith
key-count k (x ∷ xs) (h, hs) = elim (Bool-cases (x.id == k)) [
  | inr e ↦ rw e (omega (arith, key-count k xs hs))
  | inl e ↦ rw e (omega (arith, others-count k x xs e h))
]

-- The row that the map gives is one of the table's, for the offer that was asked for.
pub sent_by_offer_id-All {κ} :
    (P : SentOffer → Type κ) (rows : List SentOffer) (id : ℕ) (row : SentOffer)
    → All P rows
    → sent_by_offer_id rows id ≡ some row
    → P row × (holds_id id row.offer_id ≡ true)
unfolding sent_by_offer_id
sent_by_offer_id-All P [] id row h e = absurd (cc)
sent_by_offer_id-All P (x ∷ xs) id row (h, hs) e = elim (Option-cases (sent_by_offer_id xs id)) [
  | inr (y, f) ↦
      let same : y ≡ row = ground (arith, (rw (f, sent_by_offer_id) at e)) in
      subst (λ r. P r × (holds_id id r.offer_id ≡ true)) same (sent_by_offer_id-All P xs id y hs f)
  | inl f ↦ elim (Bool-cases (holds_id id x.offer_id)) [
    | inr g ↦ absurd (cc (rw (f, g, sent_by_offer_id) at e))
    | inl g ↦
        let same : x ≡ row = ground (arith, (rw (f, g, sent_by_offer_id) at e)) in
        subst (λ r. P r × (holds_id id r.offer_id ≡ true)) same (h, g)
  ]
]

picked-count :
    (k : ℕ) (z : SentOffer) (ids : List ℕ) (rows : List SentOffer)
    → All (IsOnly k z) rows
    → count (is_row k) (picked ids rows) ≤ count (λ i. holds_id i z.offer_id) ids
unfolding picked
picked-count k z [] rows h = omega arith
picked-count k z (i ∷ ids) rows h = elim (Option-cases (sent_by_offer_id rows i)) [
  | inl e ↦ rw (e, picked) (ground (arith, picked-count k z ids rows h))
  | inr (row, e) ↦
      let (only, holds) = sent_by_offer_id-All (IsOnly k z) rows i row h e in
      let rest = picked-count k z ids rows h in
      rw (e, picked)
        (elim (Bool-cases (row.id == k)) [
          | inr f ↦ rw f (ground (arith, rest))
          | inl f ↦
              let counted : holds_id i z.offer_id ≡ true =
                subst (λ r. holds_id i r.offer_id ≡ true) (only f) holds in
              rw (f, counted) (omega (arith, rest))
        ])
]

unnamed-count :
    (k : ℕ) (z : SentOffer) (ids : List ℕ) (rows : List SentOffer)
    → All (IsOnly k z) rows
    → is_named ids z ≡ true
    → count (is_row k) (filter (λ row. not (is_named ids row)) rows) ≡ 0
unnamed-count k z ids [] h n = refl
unnamed-count k z ids (row ∷ rows) (h, hs) n =
    let rest = unnamed-count k z ids rows hs n in
    elim (Bool-cases (is_named ids row)) [
      | inl e ↦ rw e rest
      | inr e ↦ elim (Bool-cases (row.id == k)) [
        | inr f ↦ rw e (rw f (omega (arith, rest)))
        | inl f ↦ absurd (cc (sym (subst (λ r. is_named ids r ≡ true) (sym (h f)) n) ∙ e))
      ]
    ]

distinct-count :
    (o : Option ℕ) (ids : List ℕ) → has_duplicates ids ≡ false → count (λ i. holds_id i o) ids ≤ 1
distinct-count o [] h = omega arith
distinct-count none (i ∷ ids) h = ground (arith, distinct-count none ids)
distinct-count (some w) (i ∷ ids) h = elim (Bool-cases (w == i)) [
  | inr e ↦ rw e (ground (arith, distinct-count (some w) ids))
  | inl e ↦
      let same : i ≡ w = ground arith in
      let alone : any (λ y. y == i) ids ≡ false = ground arith in
      let zero : count (λ y. w == y) ids ≡ 0 =
        count-ext (λ y. w == y) (λ y. y == i) (λ y. ground arith) ids
        ∙ any-count (λ y. y == i) ids alone in
      rw e (omega (arith, zero))
]

-- No row is saved twice.
pub ordered-count :
    (k : ℕ) (ids : List ℕ) (p : SentOffer → Bool) (table : List SentOffer)
    → IsKey (λ r. r.id) table
    → has_duplicates ids ≡ false
    → count (is_row k) (ordered ids (filter p table)) ≤ 1
unfolding ordered trailing
ordered-count k ids p table keys distinct =
    let rows = filter p table in
    let (z, every) = key-IsOnly k table keys in
    let only = All-filter (IsOnly k z) p table every in
    let rest = filter (λ row. not (is_named ids row)) rows in
    let sum = count-append (is_row k) (picked ids rows) (trailing ids rows) in
    let first = picked-count k z ids rows only in
    let sorted = count-sort (is_row k) is_before rest in
    elim (Bool-cases (is_named ids z)) [
      | inl e ↦ omega (
        arith,
        sum,
        first,
        sorted,
        unnamed-count k z ids rows only e,
        distinct-count z.offer_id ids distinct,
      )
      | inr e ↦ omega (
        arith,
        sum,
        first,
        sorted,
        any-count (λ i. holds_id i z.offer_id) ids e,
        count-filter_le (is_row k) (λ row. not (is_named ids row)) rows,
        count-filter_le (is_row k) p table,
        key-count k table keys,
      )
    ]
