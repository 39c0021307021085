-- ===== src/Suppliers/Offers.antt =====
-- The catalogue of offers: create, update, updateStatus and deleteOffer of
-- src/modules/offers/offers.service.ts. Columns that only describe an offer are left out, and the
-- messages that name a value are shortened. What the database refuses of a row, and which supplier
-- the object mapper writes where a row has its old supplier loaded and a new id assigned, are
-- parameters.
use easyrisparmio_backend.Prelude.{
  ℕ, ◌+◌, ◌==◌, Bool, true, false, ◌&&◌, ◌||◌, not, Option, none, some, List, [], ◌∷◌, ◌++◌, find?,
  any, filter, if◌then◌else◌,
}
use easyrisparmio_backend.Http.{
  HttpError, Action, ok, fail, bad_request, not_found, conflict, internal,
}
use easyrisparmio_backend.Switching.{
  CaseStatus, SupplierStatus, Commodity, EnergyType, MarketType, OfferStatus, UserTarget,
  OfferPaymentMethod, Supplier, Offer, SwitchCase, Store, update_where,
}
use easyrisparmio_backend.Switching.Acceptance.{is_supplier, is_closed}
use easyrisparmio_backend.Suppliers.{is_unexpired, is_offer}

-- Why the database refuses a row.
pub data DatabaseError : Type 0 where
  unique_violation foreign_key_violation numeric_overflow other_failure : DatabaseError

pub record Database : Type 0 where
  pub refuses : Offer → Store → Option DatabaseError
  pub written_supplier : (old : Option ℕ) → (assigned : ℕ) → Option ℕ

-- The `catch` around a save.
abbrev pub save_error : DatabaseError → HttpError
save_error unique_violation = conflict "An offer with this offer code already exists"
save_error foreign_key_violation = bad_request "Referenced supplier does not exist"
save_error numeric_overflow = bad_request "A numeric value exceeds the allowed range"
save_error other_failure = internal

pub record CreateOfferDto : Type 0 where
  pub name : List ℕ
  pub energy_type : EnergyType
  pub market_type : MarketType
  pub price_per_kwh : Option ℕ
  pub price_per_smc : Option ℕ
  pub spread : Option ℕ
  pub target : Option UserTarget
  pub payment_method : Option OfferPaymentMethod
  pub supplier_id : ℕ
  pub offer_status : Option OfferStatus

-- A price that is given may be `null`. The status of the request is dropped by `update`.
pub record UpdateOfferDto : Type 0 where
  pub name : Option (List ℕ)
  pub energy_type : Option EnergyType
  pub market_type : Option MarketType
  pub price_per_kwh : Option (Option ℕ)
  pub price_per_smc : Option (Option ℕ)
  pub spread : Option (Option ℕ)
  pub target : Option UserTarget
  pub payment_method : Option OfferPaymentMethod
  pub supplier_id : Option ℕ

abbrev pub is_draft : OfferStatus → Bool
is_draft OfferStatus.draft = true
is_draft _ = false

abbrev pub is_missing : Option ℕ → Bool
is_missing none = true
is_missing (some n) = false

abbrev pub covers_electricity : EnergyType → Bool
covers_electricity EnergyType.gas = false
covers_electricity _ = true

abbrev pub covers_gas : EnergyType → Bool
covers_gas EnergyType.electricity = false
covers_gas _ = true

unfoldable pub assert_pricing_complete :
    MarketType → EnergyType → (kwh smc spread : Option ℕ) → Option HttpError
assert_pricing_complete MarketType.fixed energy kwh smc spread =
    if (covers_electricity energy && is_missing kwh) || (covers_gas energy && is_missing smc)
    then some (bad_request "A fixed offer requires a per-unit price")
    else none
assert_pricing_complete _ energy kwh smc spread =
    if is_missing spread
    then some (bad_request "The offer is priced as a spread, so a spread is required.")
    else none

abbrev pub pricing_error : Offer → Option HttpError
pricing_error o =
    assert_pricing_complete o.market_type o.energy_type o.price_per_kwh o.price_per_smc o.spread

unfoldable pub assert_supplier_can_carry_offers : Option Supplier → Option HttpError
assert_supplier_can_carry_offers none = some (not_found "Supplier not found")
assert_supplier_can_carry_offers (some x) = elim x.status [
  | SupplierStatus.pending_deletion ↦
      some (bad_request "Cannot publish offers for a supplier that is pending deletion")
  | SupplierStatus.inactive ↦ some (bad_request "Cannot publish offers for an inactive supplier")
  | SupplierStatus.active ↦ none
]

-- Whether the supplier's commodity and the offer's energy type are the same text.
abbrev pub same_energy : Commodity → EnergyType → Bool
same_energy Commodity.electricity EnergyType.electricity = true
same_energy Commodity.gas EnergyType.gas = true
same_energy Commodity.dual EnergyType.dual = true
same_energy _ _ = false

abbrev pub is_dual : Commodity → Bool
is_dual Commodity.dual = true
is_dual _ = false

-- The first of the two tests of `create` refuses what the second would.
abbrev pub commodity_mismatch : Option Commodity → EnergyType → Bool
commodity_mismatch none energy = false
commodity_mismatch (some c) energy = not (is_dual c) && not (same_energy c energy)

abbrev pub new_offer : CreateOfferDto → ℕ → Offer
new_offer dto id = record {
  id = id;
  name = dto.name;
  offer_status = elim dto.offer_status [ none ↦ OfferStatus.draft | some t ↦ t ];
  energy_type = dto.energy_type;
  market_type = dto.market_type;
  price_per_kwh = dto.price_per_kwh;
  price_per_smc = dto.price_per_smc;
  spread = dto.spread;
  supplier_id = some dto.supplier_id;
  target = dto.target;
  payment_method = dto.payment_method;
}

abbrev pub given {ℓ} : {A : Type ℓ} → Option A → A → A
given none old = old
given (some a) old = a

abbrev pub has_accepted_case : ℕ → SwitchCase → Bool
has_accepted_case id c = c.selected_offer_id == id && not (is_closed c.status)

unfoldable pub check_offer_has_accepted_cases : ℕ → Store → Bool
check_offer_has_accepted_cases id s = any (has_accepted_case id) s.cases

-- Whether the table of `validateStatusTransition` has the change.
unfoldable pub is_valid_status_transition : OfferStatus → OfferStatus → Bool → Bool
is_valid_status_transition OfferStatus.draft OfferStatus.active accepted = true
is_valid_status_transition OfferStatus.draft OfferStatus.archived accepted = true
is_valid_status_transition OfferStatus.active OfferStatus.expiring accepted = true
is_valid_status_transition OfferStatus.active OfferStatus.archived accepted = true
is_valid_status_transition OfferStatus.active OfferStatus.draft accepted = not accepted
is_valid_status_transition OfferStatus.expiring OfferStatus.expired accepted = true
is_valid_status_transition OfferStatus.expiring OfferStatus.archived accepted = true
is_valid_status_transition OfferStatus.expired OfferStatus.archived accepted = true
is_valid_status_transition OfferStatus.archived OfferStatus.active accepted = true
is_valid_status_transition OfferStatus.archived OfferStatus.draft accepted = not accepted
is_valid_status_transition _ _ accepted = false

abbrev pub is_active : OfferStatus → Bool
is_active OfferStatus.active = true
is_active _ = false

-- `offer.supplier`, the loaded relation.
abbrev pub supplier_of : Offer → List Supplier → Option Supplier
supplier_of o suppliers = elim o.supplier_id [
  | none ↦ none
  | some k ↦ find? (is_supplier k) suppliers
]

-- The error that `updateStatus` throws for an offer that is there.
unfoldable pub status_error : Offer → OfferStatus → Store → Option HttpError
status_error o next s =
    let accepted = check_offer_has_accepted_cases o.id s in
    if not (is_valid_status_transition o.offer_status next accepted)
    then some (
        if is_draft next && accepted
        then bad_request "Cannot revert to draft: this offer is used by an active case"
        else bad_request "Cannot transition")
    else if is_active next
    then assert_supplier_can_carry_offers (supplier_of o s.suppliers)
    else none

unfoldable pub update_status : ℕ → OfferStatus → Action Store Offer
update_status id next s = elim (find? (is_offer id) s.offers) [
  | none ↦ (s, fail (not_found "Offer not found"))
  | some o ↦ elim (status_error o next s) [
    | some e ↦ (s, fail e)
    | none ↦ (
      record s {
        offers = update_where (is_offer id) (λ x. record x { offer_status = next }) s.offers;
      },
      ok (record o { offer_status = next }),
    )
  ]
]

-- The cases of an offer that `deleteOffer` counts as in progress.
abbrev pub is_in_progress : CaseStatus → Bool
is_in_progress CaseStatus.opened = true
is_in_progress CaseStatus.in_progress = true
is_in_progress CaseStatus.documents_pending = true
is_in_progress CaseStatus.contract_sent = true
is_in_progress CaseStatus.awaiting_activation = true
is_in_progress _ = false

abbrev pub is_activated : CaseStatus → Bool
is_activated CaseStatus.activated = true
is_activated _ = false

unfoldable pub delete_offer : ℕ → Action Store (Unit {0})
delete_offer id s = elim (find? (is_offer id) s.offers) [
  | none ↦ (s, fail (not_found "Offer not found"))
  | some o ↦
      if any
        (λ c.
          c.selected_offer_id == id && (is_activated c.status && is_unexpired s.now c.expiry_date))
        s.cases
      then (s, fail (bad_request "Cannot delete this offer: it has live utilities"))
      else if any (λ c. c.selected_offer_id == id && is_in_progress c.status) s.cases
      then (s, fail (bad_request "Cannot delete this offer: it has active cases in progress"))
      else (record s { offers = filter (λ x. not (x.id == id)) s.offers }, ok tt)
]

module _ (database : Database) where
  open database use {refuses, written_supplier}

  -- The error of the checks of `create` and of its save.
  unfoldable pub create_error : CreateOfferDto → Supplier → Store → Option HttpError
  create_error dto x s = elim (assert_supplier_can_carry_offers (some x)) [
    | some e ↦ some e
    | none ↦
        if commodity_mismatch x.commodity dto.energy_type
        then some (bad_request "Commodity mismatch")
        else elim (pricing_error (new_offer dto s.next_id)) [
          | some e ↦ some e
          | none ↦ elim (refuses (new_offer dto s.next_id) s) [
            | some e ↦ some (save_error e)
            | none ↦ none
          ]
        ]
  ]

  unfoldable pub create_offer : CreateOfferDto → Action Store Offer
  create_offer dto s = elim (find? (is_supplier dto.supplier_id) s.suppliers) [
    | none ↦ (s, fail (not_found "Supplier not found"))
    | some x ↦ elim (create_error dto x s) [
      | some e ↦ (s, fail e)
      | none ↦ (
        record s { offers = s.offers ++ new_offer dto s.next_id ∷ []; next_id = s.next_id + 1 },
        ok (new_offer dto s.next_id),
      )
    ]
  ]

  -- `Object.assign(offer, updateData)`, with the supplier that the save then writes.
  abbrev pub assign_offer : UpdateOfferDto → Offer → Offer
  assign_offer dto o = record o {
    name = given dto.name o.name;
    energy_type = given dto.energy_type o.energy_type;
    market_type = given dto.market_type o.market_type;
    price_per_kwh = given dto.price_per_kwh o.price_per_kwh;
    price_per_smc = given dto.price_per_smc o.price_per_smc;
    spread = given dto.spread o.spread;
    target = elim dto.target [ none ↦ o.target | some t ↦ some t ];
    payment_method = elim dto.payment_method [ none ↦ o.payment_method | some m ↦ some m ];
    supplier_id = elim dto.supplier_id [
      | none ↦ o.supplier_id
      | some k ↦ written_supplier o.supplier_id k
    ];
  }

  unfoldable pub update_error : UpdateOfferDto → Offer → Store → Option HttpError
  update_error dto o s =
      if not (is_draft o.offer_status) && check_offer_has_accepted_cases o.id s
      then some (bad_request "This offer has been accepted by users and cannot be modified.")
      else elim (pricing_error (assign_offer dto o)) [
        | some e ↦ some e
        | none ↦ elim (refuses (assign_offer dto o) s) [
          | some e ↦ some (save_error e)
          | none ↦ none
        ]
      ]

  unfoldable pub update_offer : ℕ → UpdateOfferDto → Action Store Offer
  update_offer id dto s = elim (find? (is_offer id) s.offers) [
    | none ↦ (s, fail (not_found "Offer not found"))
    | some o ↦ elim (update_error dto o s) [
      | some e ↦ (s, fail e)
      | none ↦ (
        record s { offers = update_where (is_offer id) (λ x. assign_offer dto o) s.offers },
        ok (assign_offer dto o),
      )
    ]
  ]
