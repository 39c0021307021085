-- ===== src/Switching/Reordering.antt =====
-- The admin's order of the offers sent for a bill: `reorderSentOffers` of
-- src/modules/bills/bills.service.ts.
pub mod Distinct
pub mod Places
pub mod Table
pub mod Members
pub mod Listed
pub mod Unique
use easyrisparmio_backend.Prelude.Sorting.{sort}
use easyrisparmio_backend.Prelude.{
  ℕ, ◌+◌, ◌==◌, Bool, true, false, ◌&&◌, ◌||◌, not, Option, none, some, List, [], ◌∷◌, ◌++◌, any,
  ltb, if◌then◌else◌, filter,
}
use easyrisparmio_backend.Http.{HttpError, Action, ok, fail, bad_request}
use easyrisparmio_backend.Switching.{SentOffer, Store, update_where, holds_id, get_bill_by_id_admin}
use easyrisparmio_backend.Switching.Proposals.{is_sent_for, is_empty}

-- `new Set(offerIds).size !== offerIds.length`.
abbrev pub has_duplicates : List ℕ → Bool
has_duplicates [] = false
has_duplicates (x ∷ xs) = any (λ y. y == x) xs || has_duplicates xs

-- `sentByOfferId.get(id)`: of rows with one offer, the last is in the map.
unfoldable pub sent_by_offer_id : List SentOffer → ℕ → Option SentOffer
sent_by_offer_id [] id = none
sent_by_offer_id (row ∷ rows) id = elim (sent_by_offer_id rows id) [
  | some found ↦ some found
  | none ↦ if holds_id id row.offer_id then some row else none
]

abbrev pub is_unsent : List SentOffer → ℕ → Bool
is_unsent rows id = elim (sent_by_offer_id rows id) [ none ↦ true | some row ↦ false ]

-- `named.has(so.offerId)`.
abbrev pub is_named : List ℕ → SentOffer → Bool
is_named ids row = any (λ id. holds_id id row.offer_id) ids

-- By place, and by time where places are equal.
abbrev pub is_before : SentOffer → SentOffer → Bool
is_before a b =
    ltb a.display_order b.display_order
    || (a.display_order == b.display_order && ltb a.created_at b.created_at)

unfoldable pub trailing : List ℕ → List SentOffer → List SentOffer
trailing ids rows = sort is_before (filter (λ row. not (is_named ids row)) rows)

-- `offerIds.map((id) => sentByOfferId.get(id)!)`; an id without a row has been refused.
unfoldable pub picked : List ℕ → List SentOffer → List SentOffer
picked [] rows = []
picked (id ∷ ids) rows = elim (sent_by_offer_id rows id) [
  | none ↦ picked ids rows
  | some row ↦ row ∷ picked ids rows
]

unfoldable pub ordered : List ℕ → List SentOffer → List SentOffer
ordered ids rows = picked ids rows ++ trailing ids rows

abbrev pub is_row : ℕ → SentOffer → Bool
is_row id row = row.id == id

-- `so.displayOrder = position` for each row in turn, and the save of them all by their ids.
unfoldable pub save_order : (position : ℕ) → List SentOffer → List SentOffer → List SentOffer
save_order position [] table = table
save_order position (row ∷ rows) table =
    save_order (position + 1) rows
      (update_where (is_row row.id) (λ x. record x { display_order = position }) table)

-- The checks, in their order.
unfoldable pub reorder_refusal : List ℕ → List SentOffer → Option HttpError
reorder_refusal ids rows =
    if is_empty rows
    then some (bad_request "No offers have been sent for this bill yet")
    else if has_duplicates ids
    then some (bad_request "The same offer was listed more than once in the order")
    else if any (is_unsent rows) ids
    then some (bad_request "Cannot order offers that were never sent for this bill")
    else none

unfoldable pub reordered : ℕ → List ℕ → Store → Store
reordered bill_id ids s = record s {
  sent_offers =
      save_order 0 (ordered ids (filter (is_sent_for bill_id) s.sent_offers)) s.sent_offers;
}

unfoldable pub reorder_sent_offers : ℕ → List ℕ → Action Store (Unit {0})
reorder_sent_offers bill_id ids s =
    let found = get_bill_by_id_admin bill_id s in
    elim found.1 [
      | fail e ↦ (s, fail e)
      | ok b ↦ elim (reorder_refusal ids (filter (is_sent_for b.id) s.sent_offers)) [
        | some e ↦ (s, fail e)
        | none ↦ (reordered b.id ids s, ok tt)
      ]
    ]
