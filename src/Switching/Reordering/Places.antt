-- ===== src/Switching/Reordering/Places.antt =====
-- Where `reorderSentOffers` of src/modules/bills/bills.service.ts puts the rows.
use mathlib.Core.Path.{subst}
use easyrisparmio_backend.Prelude.{
  ℕ, zero, suc, ◌+◌, ◌≤◌, ◌==◌, ◌≡◌, refl, ap, ◌∙◌, inl, inr, true, false, none, some, List, [],
  ◌∷◌, ◌++◌, any, find?, get_elem?, arith, Bool-cases, Option-cases, filter,
}
use easyrisparmio_backend.Switching.{SentOffer, Store, is_bill, get_bill_by_id_admin, update_where}
use easyrisparmio_backend.Switching.Counts.{count}
use easyrisparmio_backend.Switching.Tables.{
  IsKey, key-All, filter-All, find?-update_where, find?-update_where_other, find?-holds,
}
use easyrisparmio_backend.Switching.Proposals.{is_sent_for, is_sent_to, is_empty}
use easyrisparmio_backend.Http.{ok}
use easyrisparmio_backend.Switching.Reordering.Distinct.{sent_by_offer_id-All, ordered-count}
use easyrisparmio_backend.Switching.Reordering.{
  has_duplicates, sent_by_offer_id, trailing, picked, ordered, is_row, save_order, is_unsent,
  reorder_refusal, reordered, reorder_sent_offers,
}

-- An update of another row does not change what is found under an id.
find?-place_other :
    (k id position : ℕ) (table : List SentOffer)
    → (id == k) ≡ false
    → find? (is_row k) (update_where (is_row id) (λ x. record x { display_order = position }) table)
      ≡ find? (is_row k) table
find?-place_other k id position table e =
    find?-update_where_other (is_row k) (is_row id) (λ x. record x { display_order = position })
      (λ x h. (ground arith, ground arith)) table

-- Rows that are not saved stay as they are.
save_order-other :
    (k position : ℕ) (rows table : List SentOffer)
    → count (is_row k) rows ≡ 0
    → find? (is_row k) (save_order position rows table) ≡ find? (is_row k) table
unfolding save_order
save_order-other k position [] table h = refl
save_order-other k position (row ∷ rows) table h =
    save_order-other k (position + 1) rows _ (ground arith)
    ∙ find?-place_other k row.id position table (ground arith)

get_elem?-count :
    (rows : List SentOffer) (i : ℕ) (x : SentOffer)
    → get_elem? rows i ≡ some x
    → 1 ≤ count (is_row x.id) rows
get_elem?-count [] i x e = absurd (cc)
get_elem?-count (row ∷ rows) zero x e =
    let same : row ≡ x = ground arith in
    subst (λ r. 1 ≤ count (is_row r.id) (row ∷ rows)) same (ground arith)
get_elem?-count (row ∷ rows) (suc i) x e = ground (arith, get_elem?-count rows i x e)

-- The row at a place of the list is saved with that place.
save_order-place :
    (position i : ℕ) (rows table : List SentOffer) (x y : SentOffer)
    → ((k : ℕ) → count (is_row k) rows ≤ 1)
    → get_elem? rows i ≡ some x
    → find? (is_row x.id) table ≡ some y
    → find? (is_row x.id) (save_order position rows table)
      ≡ some (record y { display_order = position + i })
unfolding save_order
save_order-place position i [] table x y keys e f = absurd (cc)
save_order-place position zero (row ∷ rows) table x y keys e f =
    let same : row ≡ x = ground arith in
    let alone : count (is_row x.id) rows ≡ 0 =
      let most = keys x.id in
      subst (λ r. count (is_row r.id) rows ≡ 0) same (let head = keys row.id in ground arith) in
    save_order-other x.id (position + 1) rows _ alone
    ∙ ap
        (λ r.
          find? (is_row x.id)
            (update_where (is_row r.id) (λ z. record z { display_order = position }) table))
        same
    ∙ find?-update_where (is_row x.id) (λ z. record z { display_order = position }) table y f
        (find?-holds (is_row x.id) table y f)
    ∙ ap (λ n. some (record y { display_order = n })) (omega arith)
save_order-place position (suc i) (row ∷ rows) table x y keys e f =
    let later = get_elem?-count rows i x e in
    let other : (row.id == x.id) ≡ false = (let most = keys x.id in ground arith) in
    save_order-place (position + 1) i rows _ x y (λ k. let most = keys k in ground arith) e
      (find?-place_other x.id row.id position table other ∙ f)
    ∙ ap (λ n. some (record y { display_order = n })) (omega arith)

-- Where every id has a row, the picked rows stand in the order of the ids.
picked-place :
    (ids : List ℕ) (rows : List SentOffer) (i id : ℕ)
    → any (is_unsent rows) ids ≡ false
    → get_elem? ids i ≡ some id
    → (x : SentOffer) × ((get_elem? (picked ids rows) i ≡ some x)
        × (sent_by_offer_id rows id ≡ some x))
unfolding picked
picked-place [] rows i id h e = absurd (cc)
picked-place (d ∷ ds) rows zero id h e = elim (Option-cases (sent_by_offer_id rows d)) [
  | inl f ↦ absurd (cc (rw (f, is_unsent) at h))
  | inr (x, f) ↦
      let same : d ≡ id = ground arith in
      (x, (rw (f, picked) refl, subst (λ j. sent_by_offer_id rows j ≡ some x) same f))
]
picked-place (d ∷ ds) rows (suc i) id h e = elim (Option-cases (sent_by_offer_id rows d)) [
  | inl f ↦ absurd (cc (rw (f, is_unsent) at h))
  | inr (y, f) ↦
      let (x, r) = picked-place ds rows i id (rw (f, is_unsent) at h) e in
      (x, (rw (f, picked) r.0, r.1))
]

get_elem?-append :
    (xs ys : List SentOffer) (i : ℕ) (x : SentOffer)
    → get_elem? xs i ≡ some x
    → get_elem? (xs ++ ys) i ≡ some x
get_elem?-append [] ys i x e = absurd (cc)
get_elem?-append (y ∷ xs) ys zero x e = e
get_elem?-append (y ∷ xs) ys (suc i) x e = get_elem?-append xs ys i x e

pub reorder_refusal-none :
    (ids : List ℕ) (rows : List SentOffer)
    → reorder_refusal ids rows ≡ none
    → (has_duplicates ids ≡ false) × (any (is_unsent rows) ids ≡ false)
unfolding reorder_refusal
reorder_refusal-none ids rows h = elim (Bool-cases (is_empty rows)) [
  | inl e ↦ absurd (cc (rw (e, reorder_refusal) at h))
  | inr e ↦ elim (Bool-cases (has_duplicates ids)) [
    | inl f ↦ absurd (cc (rw (e, f, reorder_refusal) at h))
    | inr f ↦ elim (Bool-cases (any (is_unsent rows) ids)) [
      | inl g ↦ absurd (cc (rw (e, f, g, reorder_refusal) at h))
      | inr g ↦ (f, g)
    ]
  ]
]

module _ (bill_id : ℕ) (ids : List ℕ) (s : Store) where
  -- A row of the bill that its id finds.
  abbrev IsHeld : SentOffer → Type 0
  IsHeld r = (find? (is_row r.id) s.sent_offers ≡ some r) × (is_sent_for bill_id r ≡ true)

  reordered-place :
      (i id : ℕ)
      → IsKey (λ r. r.id) s.sent_offers
      → reorder_refusal ids (filter (is_sent_for bill_id) s.sent_offers) ≡ none
      → get_elem? ids i ≡ some id
      → (row : SentOffer) × ((find? (is_row row.id) (reordered bill_id ids s).sent_offers
            ≡ some row)
          × ((is_sent_to bill_id id row ≡ true) × (row.display_order ≡ i)))
  unfolding reordered ordered
  reordered-place i id keys allowed e =
      let rows = filter (is_sent_for bill_id) s.sent_offers in
      let (distinct, sent) = reorder_refusal-none ids rows allowed in
      let (x, r) = picked-place ids rows i id sent e in
      let held =
        filter-All (λ r. find? (is_row r.id) s.sent_offers ≡ some r) (is_sent_for bill_id)
          s.sent_offers (key-All (λ r. r.id) s.sent_offers keys) in
      let (found, holds) = sent_by_offer_id-All IsHeld rows id x held r.1 in
      let saved =
        save_order-place 0 i (ordered ids rows) s.sent_offers x x
          (λ k. ordered-count k ids (is_sent_for bill_id) s.sent_offers keys distinct)
          (get_elem?-append (picked ids rows) (trailing ids rows) i x r.0) found.0 in
      (record x { display_order = 0 + i }, (saved, (rw (found.1, holds) refl, omega arith)))

  -- When the admin's order is taken, the offer that it names at a place is the one whose row for
  -- that bill has this place afterwards, where ids are keys of the rows.
  pub reorder_sent_offers-place :
      (i id : ℕ)
      → IsKey (λ r. r.id) s.sent_offers
      → (reorder_sent_offers bill_id ids s).1 ≡ ok tt
      → get_elem? ids i ≡ some id
      → (row : SentOffer) × ((find?
              (is_row row.id)
              (reorder_sent_offers bill_id ids s).0.sent_offers
            ≡ some row)
          × ((is_sent_to bill_id id row ≡ true) × (row.display_order ≡ i)))
  unfolding reorder_sent_offers get_bill_by_id_admin
  reorder_sent_offers-place i id keys done e =
      elim (Option-cases (find? (is_bill bill_id) s.bills)) [
        | inl f ↦ absurd (cc (rw (f, reorder_sent_offers, get_bill_by_id_admin) at done))
        | inr (b, f) ↦
            let own : b.id ≡ bill_id = ground (arith, find?-holds (is_bill bill_id) s.bills b f) in
            elim (Option-cases (reorder_refusal ids (filter (is_sent_for b.id) s.sent_offers))) [
              | inr (x, g) ↦
                  absurd (cc (rw (f, g, reorder_sent_offers, get_bill_by_id_admin) at done))
              | inl g ↦
                  rw (f, g, reorder_sent_offers, get_bill_by_id_admin, own)
                    (reordered-place i id keys (rw own at g) e)
            ]
      ]
