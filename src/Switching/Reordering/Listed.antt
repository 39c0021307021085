-- ===== src/Switching/Reordering/Listed.antt =====
-- Every row of a bill is in the list that `reorderSentOffers` of src/modules/bills/bills.service.ts
-- saves.
use easyrisparmio_backend.Prelude.Sorting.{sort-All}
use mathlib.Core.Path.{subst}
use easyrisparmio_backend.Prelude.{
  ℕ, zero, suc, ◌≤◌, ◌≡◌, refl, sym, ap, ◌∙◌, inl, inr, true, not, some, List, [], ◌∷◌, any, find?,
  get_elem?, All, arith, Bool-cases, Option-cases, filter,
}
use easyrisparmio_backend.Switching.{SentOffer, holds_id}
use easyrisparmio_backend.Switching.Counts.{count, count-append}
use easyrisparmio_backend.Switching.Tables.{IsKey, key-All, filter-All}
use easyrisparmio_backend.Switching.Proposals.{is_sent_for, is_sent_to}
use easyrisparmio_backend.Switching.Proposals.Unique.{count-sort}
use easyrisparmio_backend.Switching.Reordering.{
  is_row, is_named, is_before, trailing, picked, ordered, sent_by_offer_id,
}
use easyrisparmio_backend.Switching.Reordering.Distinct.{All-filter, sent_by_offer_id-All}
use easyrisparmio_backend.Switching.Reordering.Members.{
  All-get, count-get, filter-get, get_unique, find?-get, append-All,
}

picked-All {κ} :
    (P : SentOffer → Type κ) (ids : List ℕ) (rows : List SentOffer)
    → All P rows
    → All P (picked ids rows)
unfolding picked
picked-All P [] rows h = tt
picked-All P (i ∷ ids) rows h = elim (Option-cases (sent_by_offer_id rows i)) [
  | inl e ↦ rw (e, picked) (picked-All P ids rows h)
  | inr (x, e) ↦ rw (e, picked) ((sent_by_offer_id-All P rows i x h e).0, picked-All P ids rows h)
]

pub ordered-All {κ} :
    (P : SentOffer → Type κ) (ids : List ℕ) (rows : List SentOffer)
    → All P rows
    → All P (ordered ids rows)
unfolding ordered trailing
ordered-All P ids rows h =
    append-All P (picked ids rows) (trailing ids rows) (picked-All P ids rows h)
      (sort-All P is_before _ (All-filter P (λ row. not (is_named ids row)) rows h))

-- The map has a row for the offer of every row.
sent-found :
    (rows : List SentOffer) (j id : ℕ) (r : SentOffer)
    → get_elem? rows j ≡ some r
    → holds_id id r.offer_id ≡ true
    → (x : SentOffer) × (sent_by_offer_id rows id ≡ some x)
unfolding sent_by_offer_id
sent-found [] j id r e h = absurd (cc)
sent-found (y ∷ ys) zero id r e h = elim (Option-cases (sent_by_offer_id ys id)) [
  | inr (x, f) ↦ (x, rw (f, sent_by_offer_id) refl)
  | inl f ↦
      let same : y ≡ r = ground arith in
      let holds : holds_id id y.offer_id ≡ true =
        subst (λ z. holds_id id z.offer_id ≡ true) (sym same) h in
      (y, rw (f, holds, sent_by_offer_id) refl)
]
sent-found (y ∷ ys) (suc j) id r e h =
    let (x, f) = sent-found ys j id r e h in (x, rw (f, sent_by_offer_id) refl)

-- A row that the map gives for one of the ids is among the picked ones.
picked-get :
    (ids : List ℕ) (rows : List SentOffer) (r : SentOffer)
    → any (λ id. holds_id id r.offer_id) ids ≡ true
    → ((id : ℕ) → holds_id id r.offer_id ≡ true → sent_by_offer_id rows id ≡ some r)
    → 1 ≤ count (is_row r.id) (picked ids rows)
unfolding picked
picked-get [] rows r h m = absurd (cc)
picked-get (i ∷ ids) rows r h m = elim (Bool-cases (holds_id i r.offer_id)) [
  | inl e ↦ rw (m i e, picked) (ground arith)
  | inr e ↦
      let rest = picked-get ids rows r (rw e at h) m in
      elim (Option-cases (sent_by_offer_id rows i)) [
        | inl f ↦ rw (f, picked) rest
        | inr (x, f) ↦ rw (f, picked) (omega (arith, rest))
      ]
]

module _ (bill_id : ℕ) (ids : List ℕ) (table : List SentOffer)
    (keys : IsKey (λ r. r.id) table) where
  abbrev pub rows : List SentOffer
  rows = filter (is_sent_for bill_id) table

  -- A row of the bill that its id finds.
  abbrev pub IsHeld : SentOffer → Type 0
  IsHeld r = (find? (is_row r.id) table ≡ some r) × (is_sent_for bill_id r ≡ true)

  pub held : All IsHeld rows
  held =
      filter-All (λ r. find? (is_row r.id) table ≡ some r) (is_sent_for bill_id) table
        (key-All (λ r. r.id) table keys)

  pub found :
      (i : ℕ) (r : SentOffer) → get_elem? table i ≡ some r → find? (is_row r.id) table ≡ some r
  found i r e =
      All-get (λ r. find? (is_row r.id) table ≡ some r) table i r (key-All (λ r. r.id) table keys) e

  -- A row of the bill is in the list that is saved, where the bill has each offer once.
  pub listed :
      (i : ℕ) (r : SentOffer)
      → ((offer_id : ℕ) → count (is_sent_to bill_id offer_id) table ≤ 1)
      → get_elem? table i ≡ some r
      → is_sent_for bill_id r ≡ true
      → 1 ≤ count (is_row r.id) (ordered ids rows)
  unfolding ordered trailing
  listed i r once e mine =
      let (j, at_j) = filter-get (is_sent_for bill_id) table i r e mine in
      let sum = count-append (is_row r.id) (picked ids rows) (trailing ids rows) in
      let unnamed = filter (λ row. not (is_named ids row)) rows in
      elim (Bool-cases (is_named ids r)) [
        | inr f ↦
            let (l, at_l) = filter-get (λ row. not (is_named ids row)) rows j r at_j (rw f refl) in
            let one = count-get (is_row r.id) unnamed l r at_l (ground arith) in
            omega (arith, sum, one, count-sort (is_row r.id) is_before unnamed)
        | inl f ↦
            let one = picked-get ids rows r f (λ id h.
              let (x, g) = sent-found rows j id r at_j h in
              let (is_held, holds) = sent_by_offer_id-All IsHeld rows id x held g in
              let (l, at_l) = find?-get (is_row x.id) table x is_held.0 in
              let same =
                get_unique (is_sent_to bill_id id) table l i x r (once id) at_l e
                  (rw (is_held.1, holds) refl) (rw (mine, h) refl) in
              g ∙ ap some same) in
            omega (arith, sum, one)
      ]
