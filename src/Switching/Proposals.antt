-- ===== src/Switching/Proposals.antt =====
-- The offers that an admin sends for a bill: `sendOffersToUser`, `reorderSentOffers` and
-- `resolveOfferTarget` of src/modules/bills/bills.service.ts. A saving is in cents; the estimate of
-- one is a parameter. The snapshot of an offer is not kept.
pub mod Unique
pub mod Numbered
use easyrisparmio_backend.Prelude.Sorting.{sort}
use easyrisparmio_backend.Prelude.{
  ℕ, zero, suc, ◌+◌, ◌==◌, Bool, true, false, ◌&&◌, ◌||◌, not, Option, none, some, List, [], ◌∷◌,
  ◌++◌, map, find?, any, length, leb, ltb, if◌then◌else◌, filter,
}
use easyrisparmio_backend.Http.{Result, Action, ok, fail, bad_request, not_found}
use easyrisparmio_backend.Pipeline.{BillStatus, same}
use easyrisparmio_backend.Cases.{UserRole}
use easyrisparmio_backend.Switching.{
  UserTarget, Offer, EnergyBill, SentOffer, Key, Store, update_where, save_bill, holds_id,
  get_bill_by_id_admin, set_bill_status,
}
use easyrisparmio_backend.Switching.Notices.{offers_sent}
use easyrisparmio_backend.Switching.Acceptance.{is_open_case_of, has_leaving_supplier, is_user}

pub record SelectedOffer : Type 0 where
  pub offer_id : ℕ
  pub estimated_savings : Option ℕ

abbrev pub ids_of : List SelectedOffer → List ℕ
ids_of xs = map (λ x. x.offer_id) xs

-- `new Map(ids.map((id, index) => [id, index])).get(id) ?? 0`: the last place of an id counts.
unfoldable pub position_from : (index found : ℕ) → List ℕ → ℕ → ℕ
position_from index found [] id = found
position_from index found (x ∷ xs) id =
    position_from (suc index) (if x == id then index else found) xs id

unfoldable pub resolve_offer_target : EnergyBill → Store → Option UserTarget
resolve_offer_target b s = elim (find? (is_user b.user_id) s.users) [
  | none ↦ none
  | some u ↦ elim u.role [
    | UserRole.personal ↦ some UserTarget.personal
    | UserRole.business ↦ some UserTarget.business
    | UserRole.admin ↦ none
  ]
]

-- `o.target && o.target !== BOTH && o.target !== target`, for the customer's target.
abbrev pub misses : UserTarget → Option UserTarget → Bool
misses target none = false
misses target (some UserTarget.both) = false
misses UserTarget.personal (some UserTarget.personal) = false
misses UserTarget.business (some UserTarget.business) = false
misses target (some t) = true

abbrev pub has_wrong_audience : Option UserTarget → List Offer → Bool
has_wrong_audience none offers = false
has_wrong_audience (some target) offers = any (λ o. misses target o.target) offers

-- `savingsMap.get(id)`: the last override of an id counts.
unfoldable pub savings_of : List SelectedOffer → ℕ → Option ℕ
savings_of [] id = none
savings_of (x ∷ xs) id = elim (savings_of xs id) [
  | some v ↦ some v
  | none ↦ if x.offer_id == id then x.estimated_savings else none
]

-- Whether an offer comes before another one in the request.
abbrev pub in_order : List SelectedOffer → Offer → Offer → Bool
in_order xs o p = ltb (position_from 0 0 (ids_of xs) o.id) (position_from 0 0 (ids_of xs) p.id)

-- `find({ where: { id: In(offerIds) } })`.
abbrev pub named : List SelectedOffer → Store → List Offer
named xs s = filter (λ o. any (λ id. o.id == id) (ids_of xs)) s.offers

-- The offers of a request that are left to send, in the order of the request.
unfoldable pub requested_offers : List SelectedOffer → Store → List Offer
requested_offers xs s =
    filter (λ o. not (has_leaving_supplier o s)) (sort (in_order xs) (named xs s))

abbrev pub is_empty {ℓ} : {A : Type ℓ} → List A → Bool
is_empty [] = true
is_empty (x ∷ xs) = false

-- The checks of `sendOffersToUser`, in their order, to the offers.
unfoldable pub sendable : EnergyBill → List SelectedOffer → Store → Result (List Offer)
sendable b xs s =
    if same b.status BillStatus.pending_email
    then fail (bad_request "Cannot send offers for a pending email bill.")
    else if any (is_open_case_of b.id) s.cases
    then fail (bad_request "Cannot send offers: the customer has already accepted an offer.")
    else if not (same b.status BillStatus.verified || same b.status BillStatus.offer_sent)
    then fail (bad_request "Bill must be verified before sending offers.")
    else if is_empty xs
    then fail (not_found "No offers selected to send")
    else if is_empty (named xs s)
    then fail (not_found "No valid offers found for the given IDs")
    else if is_empty (requested_offers xs s)
    then fail (bad_request "All selected offers belong to suppliers that are pending deletion")
    else if has_wrong_audience (resolve_offer_target b s) (requested_offers xs s)
    then fail (bad_request "Cannot send offers meant for a different audience")
    else ok (requested_offers xs s)

abbrev pub is_sent_for : ℕ → SentOffer → Bool
is_sent_for bill_id row = row.bill_id == bill_id

abbrev pub is_sent_to : ℕ → ℕ → SentOffer → Bool
is_sent_to bill_id offer_id row = row.bill_id == bill_id && holds_id offer_id row.offer_id

-- `Math.max(next, displayOrder + 1)` over the rows of a bill.
unfoldable pub next_position : ℕ → List SentOffer → ℕ
next_position bill_id [] = 0
next_position bill_id (row ∷ rows) =
    let next = next_position bill_id rows in
    if is_sent_for bill_id row && leb next row.display_order then row.display_order + 1 else next

module _ (estimate : EnergyBill → Offer → ℕ) where
  abbrev pub saving : EnergyBill → List SelectedOffer → Offer → ℕ
  saving b xs o = elim (savings_of xs o.id) [ some v ↦ v | none ↦ estimate b o ]

  -- A new row for each offer, at positions that go up from the given one.
  unfoldable pub new_records :
      EnergyBill → List SelectedOffer → (now id position : ℕ) → List Offer → List SentOffer
  new_records b xs now id position [] = []
  new_records b xs now id position (o ∷ os) =
      record {
        id = id;
        user_id = b.user_id;
        bill_id = b.id;
        offer_id = some o.id;
        estimated_savings = some (saving b xs o);
        display_order = position;
        created_at = now;
      }
      ∷ new_records b xs now (id + 1) (position + 1) os

-- The offers that the bill has no row for yet.
abbrev pub unsent : EnergyBill → List Offer → Store → List Offer
unsent b os s = filter (λ o. not (any (is_sent_to b.id o.id) s.sent_offers)) os

module _ (estimate : EnergyBill → Offer → ℕ) (resolves : List ℕ → Key → Bool) where
  -- The writes of `sendOffersToUser`.
  unfoldable pub send : EnergyBill → List SelectedOffer → List Offer → Store → Store
  send b xs os s =
      let rows =
        new_records estimate b xs s.now s.next_id (next_position b.id s.sent_offers)
          (unsent b os s) in
      let t = record s { sent_offers = rows ++ s.sent_offers; next_id = s.next_id + length rows } in
      offers_sent resolves b.user_id b.id
        (save_bill (set_bill_status BillStatus.offer_sent s.now b) t)

  unfoldable pub send_offers_to_user : ℕ → List SelectedOffer → Action Store (Unit {0})
  send_offers_to_user bill_id xs s =
      let found = get_bill_by_id_admin bill_id s in
      elim found.1 [
        | fail e ↦ (s, fail e)
        | ok b ↦ elim (sendable b xs s) [ fail e ↦ (s, fail e) | ok os ↦ (send b xs os s, ok tt) ]
      ]
