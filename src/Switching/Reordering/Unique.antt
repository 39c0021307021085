-- ===== src/Switching/Reordering/Unique.antt =====
-- `reorderSentOffers` of src/modules/bills/bills.service.ts leaves no place of a bill's list taken twice.
use mathlib.Core.Path.{subst}
use easyrisparmio_backend.Prelude.{
  ℕ, ◌≤◌, ◌==◌, ◌≡◌, refl, sym, ◌∙◌, inl, inr, true, false, Option, none, some, List, map, find?,
  get_elem?, arith, Bool-cases, Option-cases, filter,
}
use easyrisparmio_backend.Switching.{SentOffer, Store, is_bill, get_bill_by_id_admin}
use easyrisparmio_backend.Switching.Counts.{count}
use easyrisparmio_backend.Switching.Tables.{IsKey}
use easyrisparmio_backend.Switching.Proposals.{is_sent_for, is_sent_to}
use easyrisparmio_backend.Switching.Proposals.Numbered.{AreNumbered, map-AreNumbered}
use easyrisparmio_backend.Switching.Proposals.Unique.{is_at, AreUnique}
use easyrisparmio_backend.Switching.Reordering.{
  is_row, ordered, reordered, reorder_refusal, reorder_sent_offers,
}
use easyrisparmio_backend.Switching.Reordering.Distinct.{ordered-count, key-count}
use easyrisparmio_backend.Switching.Reordering.Members.{All-get, count-map_le}
use easyrisparmio_backend.Switching.Reordering.Places.{reorder_refusal-none}
use easyrisparmio_backend.Switching.Reordering.Table.{
  row_place, placed, set_place, none-row_place, row_place-some, save_order-placed,
}
use easyrisparmio_backend.Switching.Reordering.Listed.{
  rows, IsHeld, held, found, listed, ordered-All,
}

set_place-rest :
    (o : Option ℕ) (x : SentOffer)
    → let y = set_place o x in (y.id ≡ x.id) × ((y.bill_id ≡ x.bill_id) × (y.offer_id ≡ x.offer_id))
set_place-rest none x = (refl, (refl, refl))
set_place-rest (some q) x = (refl, (refl, refl))

module _ (bill_id : ℕ) (ids : List ℕ) (table : List SentOffer)
    (keys : IsKey (λ r. r.id) table) where
  abbrev list : List SentOffer
  list = ordered ids (rows bill_id ids table keys)

  -- The row of the list that has an id is the row of the table that has it.
  listed-same :
      (i j : ℕ) (x y : SentOffer)
      → get_elem? table i ≡ some x
      → get_elem? list j ≡ some y
      → y.id ≡ x.id
      → is_sent_for bill_id x ≡ true
  listed-same i j x y e f same =
      let (is_held, mine) =
        All-get (IsHeld bill_id ids table keys) list j y
          (ordered-All (IsHeld bill_id ids table keys) ids (rows bill_id ids table keys)
            (held bill_id ids table keys))
          f in
      let again : find? (is_row x.id) table ≡ some y =
        subst (λ k. find? (is_row k) table ≡ some y) same is_held in
      let equal : x ≡ y = ground (arith, sym (found bill_id ids table keys i x e) ∙ again) in
      subst (λ r. is_sent_for bill_id r ≡ true) (sym equal) mine

  -- A row of another bill stays where it is.
  other_place :
      (k p i : ℕ) (x : SentOffer)
      → (bill_id == k) ≡ false
      → get_elem? table i ≡ some x
      → is_at k p (placed 0 list x) ≡ true
      → is_at k p x ≡ true
  other_place k p i x other e h = elim (Option-cases (row_place x.id 0 list)) [
    | inl f ↦ rw f at h
    | inr (q, f) ↦
        let (j, y, r) = row_place-some x.id 0 q list f in
        let mine = listed-same i j x y e r.1.0 r.1.1 in absurd (ground (arith, (rw f at h)))
  ]

  module _ (once : (offer_id : ℕ) → count (is_sent_to bill_id offer_id) table ≤ 1)
      (distinct : (k : ℕ) → count (is_row k) list ≤ 1) where
    -- A row of the bill is at the place that the list has it.
    own_place :
        (p i : ℕ) (x : SentOffer)
        → get_elem? table i ≡ some x
        → is_at bill_id p (placed 0 list x) ≡ true
        → (y : SentOffer) × ((get_elem? list p ≡ some y) × (y.id ≡ x.id))
    own_place p i x e h =
        let kept = set_place-rest (row_place x.id 0 list) x in
        let mine : is_sent_for bill_id x ≡ true = ground arith in
        let one = listed bill_id ids table keys i x once e mine in
        elim (Option-cases (row_place x.id 0 list)) [
          | inl f ↦ absurd (omega (arith, one, none-row_place x.id 0 list f))
          | inr (q, f) ↦
              let (j, y, r) = row_place-some x.id 0 q list f in
              let placed_at : is_at bill_id p (set_place (some q) x) ≡ true = rw f at h in
              let same : j ≡ p = ground (arith, r.0) in
              (y, (subst (λ l. get_elem? list l ≡ some y) same r.1.0, r.1.1))
        ]

    placed-place :
        (k p : ℕ) → count (is_at k p) table ≤ 1 → count (is_at k p) (map (placed 0 list) table) ≤ 1
    placed-place k p h = elim (Bool-cases (bill_id == k)) [
      | inr e ↦ omega (
        arith,
        h,
        count-map_le (is_at k p) (is_at k p) (placed 0 list) table (λ i x. other_place k p i x e),
      )
      | inl e ↦
          let same : bill_id ≡ k = ground arith in
          subst (λ b. count (is_at b p) (map (placed 0 list) table) ≤ 1) same
            (elim (Option-cases (get_elem? list p)) [
              | inl f ↦ omega (
                arith,
                key-count 0 table keys,
                count-map_le (is_at bill_id p) (is_row 0) (placed 0 list) table
                    (λ i x g h. let (y, r) = own_place p i x g h in absurd (cc)),
              )
              | inr (z, f) ↦ omega (
                arith,
                key-count z.id table keys,
                count-map_le (is_at bill_id p) (is_row z.id) (placed 0 list) table (λ i x g h.
                    let (y, r) = own_place p i x g h in
                    let equal : y ≡ z = ground (arith, sym r.0 ∙ f) in
                    let ids_equal : z.id ≡ x.id = subst (λ w. w.id ≡ x.id) equal r.1 in
                    ground arith),
              )
            ])
    ]

    placed-offer :
        (k offer_id : ℕ)
        → count (is_sent_to k offer_id) (map (placed 0 list) table)
          ≤ count (is_sent_to k offer_id) table
    placed-offer k offer_id =
        count-map_le (is_sent_to k offer_id) (is_sent_to k offer_id) (placed 0 list) table
          (λ i x e h.
            let kept = set_place-rest (row_place x.id 0 list) x in rw (kept.1.0, kept.1.1) at h)

-- The rows after an order that is taken.
reordered-map :
    (bill_id : ℕ) (ids : List ℕ) (s : Store)
    → IsKey (λ r. r.id) s.sent_offers
    → reorder_refusal ids (filter (is_sent_for bill_id) s.sent_offers) ≡ none
    → (reordered bill_id ids s).sent_offers
      ≡ map (placed 0 (ordered ids (filter (is_sent_for bill_id) s.sent_offers))) s.sent_offers
unfolding reordered
reordered-map bill_id ids s keys g =
    let rows = filter (is_sent_for bill_id) s.sent_offers in
    save_order-placed 0 (ordered ids rows) s.sent_offers (λ k.
      ordered-count k ids (is_sent_for bill_id) s.sent_offers keys
        (reorder_refusal-none ids rows g).0)

pub reordered-AreNumbered :
    (bill_id : ℕ) (ids : List ℕ) (s : Store)
    → AreNumbered s.next_id s.sent_offers
    → reorder_refusal ids (filter (is_sent_for bill_id) s.sent_offers) ≡ none
    → AreNumbered s.next_id (reordered bill_id ids s).sent_offers
reordered-AreNumbered bill_id ids s h g =
    let list = ordered ids (filter (is_sent_for bill_id) s.sent_offers) in
    rw (reordered-map bill_id ids s h.keys g) (
      map-AreNumbered (placed 0 list) (λ r. (set_place-rest (row_place r.id 0 list) r).0) s.next_id
        s.sent_offers h)

-- The admin's order keeps the offers of a bill different and at different places of its list: no
-- two of them ever claim the same place, whichever the order names, where ids are keys of the rows.
pub reorder_sent_offers-AreUnique :
    (bill_id : ℕ) (ids : List ℕ) (s : Store)
    → IsKey (λ r. r.id) s.sent_offers
    → AreUnique s.sent_offers
    → AreUnique (reorder_sent_offers bill_id ids s).0.sent_offers
unfolding reorder_sent_offers get_bill_by_id_admin reordered
reorder_sent_offers-AreUnique bill_id ids s keys h =
    elim (Option-cases (find? (is_bill bill_id) s.bills)) [
      | inl f ↦ rw (f, reorder_sent_offers, get_bill_by_id_admin) h
      | inr (b, f) ↦
          let rows = filter (is_sent_for b.id) s.sent_offers in
          elim (Option-cases (reorder_refusal ids rows)) [
            | inr (x, g) ↦ rw (f, g, reorder_sent_offers, get_bill_by_id_admin) h
            | inl g ↦
                let distinct = λ (k : ℕ).
                  ordered-count k ids (is_sent_for b.id) s.sent_offers keys
                    (reorder_refusal-none ids rows g).0 in
                let once = h.offer_once b.id in
                let settled = save_order-placed 0 (ordered ids rows) s.sent_offers distinct in
                rw (f, g, reorder_sent_offers, get_bill_by_id_admin, settled)
                  (record {
                    offer_once = λ k o. omega (
                      arith,
                      h.offer_once k o,
                      placed-offer b.id ids s.sent_offers keys once distinct k o,
                    );
                    place_once = λ k p.
                        placed-place b.id ids s.sent_offers keys once distinct k p
                          (h.place_once k p);
                  })
          ]
    ]
