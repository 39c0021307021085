-- ===== src/Switching/Acceptance.antt =====
-- The checks of `createCase` of src/modules/cases/cases.service.ts: what a customer's request to switch
-- must find.
use easyrisparmio_backend.Prelude.{
  ℕ, ◌==◌, Bool, true, false, ◌&&◌, ◌||◌, not, Option, none, some, List, [], ◌∷◌, find?, text_eq,
  if◌then◌else◌,
}
use easyrisparmio_backend.Http.{Result, ok, fail, bad_request, not_found, forbidden}
use easyrisparmio_backend.Cases.Text.{trim}
use easyrisparmio_backend.Cases.Columns.{
  Column, detail, payment_method, iban, iban_holder_tax_code, Value, null, text, Dto, is_truthy,
}
use easyrisparmio_backend.Switching.{
  CaseStatus, SupplierStatus, OfferPaymentMethod, User, Supplier, Offer, EnergyBill, SwitchCase,
  SentOffer, Store, holds_id,
}

-- The request; what it holds for the case's columns is a map.
pub record CreateCaseDto : Type 0 where
  pub bill_id : ℕ
  pub selected_offer_id : ℕ
  pub pod_number : Option (List ℕ)
  pub columns : Dto

-- `CLOSED_CASE_STATUSES.includes(status)`.
unfoldable pub is_closed : CaseStatus → Bool
is_closed CaseStatus.cancelled = true
is_closed CaseStatus.rejected = true
is_closed _ = false

abbrev pub is_open_case_of : ℕ → SwitchCase → Bool
is_open_case_of bill_id c = c.bill_id == bill_id && not (is_closed c.status)

abbrev pub is_offer : ℕ → Offer → Bool
is_offer id o = o.id == id

abbrev pub is_supplier : ℕ → Supplier → Bool
is_supplier id v = v.id == id

abbrev pub is_user : ℕ → User → Bool
is_user id u = u.id == id

abbrev pub is_pending_deletion : SupplierStatus → Bool
is_pending_deletion SupplierStatus.pending_deletion = true
is_pending_deletion _ = false

-- `offer.supplier?.status === PENDING_DELETION`.
abbrev pub has_leaving_supplier : Offer → Store → Bool
has_leaving_supplier o s = elim o.supplier_id [
  | none ↦ false
  | some id ↦ elim (find? (is_supplier id) s.suppliers) [
    | none ↦ false
    | some v ↦ is_pending_deletion v.status
  ]
]

-- The values `rid_bancario` and `postal_order`.
abbrev pub rid_bancario : List ℕ
rid_bancario = 114 ∷ 105 ∷ 100 ∷ 95 ∷ 98 ∷ 97 ∷ 110 ∷ 99 ∷ 97 ∷ 114 ∷ 105 ∷ 111 ∷ []

abbrev pub postal_order : List ℕ
postal_order = 112 ∷ 111 ∷ 115 ∷ 116 ∷ 97 ∷ 108 ∷ 95 ∷ 111 ∷ 114 ∷ 100 ∷ 101 ∷ 114 ∷ []

abbrev pub is_text : List ℕ → Value → Bool
is_text t (text u) = text_eq u t
is_text t _ = false

-- What the request holds for a column; undefined and null are read alike.
abbrev pub read : Dto → Column → Value
read dto c = elim (dto c) [ none ↦ null | some v ↦ v ]

abbrev pub accepts : Option OfferPaymentMethod → Value → Bool
accepts none chosen = true
accepts (some OfferPaymentMethod.both) chosen = true
accepts (some OfferPaymentMethod.direct_debit) chosen = is_text rid_bancario chosen
accepts (some OfferPaymentMethod.postal_order) chosen = is_text postal_order chosen

-- `assertPaymentMethodAcceptedBy` passes.
unfoldable pub is_payment_method_accepted_by : Offer → Value → Bool
is_payment_method_accepted_by o chosen = not (is_truthy chosen) || accepts o.payment_method chosen

-- `!!value?.trim()`.
abbrev pub has_content : Value → Bool
has_content (text t) = is_truthy (text (trim t))
has_content _ = false

-- `assertDirectDebitDetails` passes.
unfoldable pub has_direct_debit_details : Dto → Bool
has_direct_debit_details dto =
    not (is_text rid_bancario (read dto (detail payment_method)))
    || (has_content (read dto (detail iban))
        && has_content (read dto (detail iban_holder_tax_code)))

abbrev pub was_proposed : ℕ → ℕ → SentOffer → Bool
was_proposed bill_id offer_id o = o.bill_id == bill_id && holds_id offer_id o.offer_id

-- The checks on the offer and the payment, in their order.
unfoldable pub acceptable : Offer → CreateCaseDto → Store → Result Offer
acceptable o dto s =
    if has_leaving_supplier o s
    then fail
        (bad_request "Cannot create a case for an offer from a supplier that is pending deletion")
    else if not (is_payment_method_accepted_by o (read dto.columns (detail payment_method)))
    then fail (bad_request "Offer does not accept the payment method")
    else if not (has_direct_debit_details dto.columns)
    then fail (bad_request "Direct debit requires IBAN and holder's tax ID")
    else elim (find? (was_proposed dto.bill_id dto.selected_offer_id) s.sent_offers) [
      | none ↦ fail (bad_request "This offer was not proposed for the selected bill")
      | some row ↦ ok o
    ]

-- The checks of `createCase` once the bill is found, in their order, to the offer.
unfoldable pub admitted : EnergyBill → ℕ → CreateCaseDto → Store → Result Offer
admitted b user_id dto s =
    if not (b.user_id == user_id)
    then fail (forbidden "You do not have access to this bill")
    else elim (find? (is_open_case_of dto.bill_id) s.cases) [
      | some c ↦ fail (bad_request "A switch request already exists for this bill")
      | none ↦ elim (find? (is_offer dto.selected_offer_id) s.offers) [
        | none ↦ fail (not_found "Offer not found")
        | some o ↦ acceptable o dto s
      ]
    ]
