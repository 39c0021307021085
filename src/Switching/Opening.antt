-- ===== src/Switching/Opening.antt =====
-- The customer accepts an offer: `createCase` of src/modules/cases/cases.service.ts, with its checks
-- and `resolveFromSupplierId`, `resolveInvoiceEmail` and `applyDeliveryPointCorrection`.
pub mod Single
use easyrisparmio_backend.Prelude.{
  ℕ, ◌==◌, ◌+◌, Bool, true, false, ◌&&◌, ◌||◌, not, Option, none, some, List, [], ◌∷◌, find?,
  length, text_eq, if◌then◌else◌,
}
use mathlib.Core.Option
use easyrisparmio_backend.Http.{Result, Action, ok, fail, bad_request, not_found, forbidden}
use easyrisparmio_backend.Pipeline.{BillStatus}
use easyrisparmio_backend.Cases.{UserRole}
use easyrisparmio_backend.Cases.Text.{trim}
use easyrisparmio_backend.Cases.Columns.{
  Block, residential, shipping, Column, address, same_as_supply, detail, payment_method, iban,
  iban_holder_tax_code, invoice_email, Value, null, flag, text, Dto, Columns, is_truthy,
  apply_address_fields, apply_contract_detail_fields, put,
}
use easyrisparmio_backend.Switching.{
  CaseStatus, SupplierStatus, OfferPaymentMethod, User, Supplier, Offer, EnergyBill, SwitchCase,
  SentOffer, CaseEvent, case_created, Key, Store, latest, is_bill, holds_id, save_bill,
}
use easyrisparmio_backend.Switching.Notices.{admin_application_submitted}
use easyrisparmio_backend.Switching.Verifications.{stamp_status}
use easyrisparmio_backend.Switching.CaseNumbers.{generate_case_number}
use easyrisparmio_backend.Switching.Acceptance.{
  CreateCaseDto, is_closed, is_open_case_of, is_offer, is_supplier, is_user, is_pending_deletion,
  has_leaving_supplier, rid_bancario, postal_order, is_text, read, accepts,
  is_payment_method_accepted_by, has_content, has_direct_debit_details, was_proposed, acceptable,
  admitted,
}

abbrev pub is_truthy_text : Option (List ℕ) → Bool
is_truthy_text (some (c ∷ cs)) = true
is_truthy_text _ = false

-- `value?.trim()`, empty where there is none.
abbrev pub trimmed_text : Option (List ℕ) → List ℕ
trimmed_text none = []
trimmed_text (some t) = trim t

unfoldable pub apply_delivery_point_correction : Option (List ℕ) → EnergyBill → EnergyBill
apply_delivery_point_correction point b = elim (trimmed_text point) [
  | [] ↦ b
  | c ∷ cs ↦
      if b.is_gas || (not (is_truthy_text b.pod_number) && is_truthy_text b.pdr_number)
      then record b { pdr_number = some (c ∷ cs) }
      else record b { pod_number = some (c ∷ cs) }
]

abbrev pub or_null_text : Option (List ℕ) → Value
or_null_text none = null
or_null_text (some t) = text t

-- A company's certified address, if it has given one; else the account's.
abbrev pub billing_address : UserRole → Option (List ℕ) → Option (List ℕ) → Value
billing_address UserRole.business (some (c ∷ cs)) email = text (c ∷ cs)
billing_address role pec_email email = or_null_text email

-- `value ?? false`.
abbrev pub or_false : Value → Value
or_false null = flag false
or_false v = v

-- `resolveInvoiceEmail`.
unfoldable pub resolve_invoice_email : ℕ → Store → Value
resolve_invoice_email user_id s = elim (find? (is_user user_id) s.users) [
  | none ↦ null
  | some u ↦ billing_address u.role u.pec_email u.email
]

-- The columns of a new case: the two flags of the request, and null.
abbrev pub initial_columns : Dto → Columns
initial_columns dto (same_as_supply residential) = or_false (read dto (same_as_supply residential))
initial_columns dto (same_as_supply shipping) = or_false (read dto (same_as_supply shipping))
initial_columns dto _ = null

module _ (names : List ℕ → List ℕ → Bool) where
  -- `resolveFromSupplierId`: the longest of the names that the database matches with the bill's.
  unfoldable pub resolve_from_supplier_id : EnergyBill → Store → Option ℕ
  resolve_from_supplier_id b s = elim b.supplier_id [
    | some id ↦ some id
    | none ↦ elim (trimmed_text b.supplier_name) [
      | [] ↦ none
      | c ∷ cs ↦
          Option.map (λ v. v.id)
            (latest (λ v. length v.name) (λ v. names (c ∷ cs) v.name) s.suppliers)
    ]
  ]

  -- The bill as it is saved: its delivery point corrected, linked to its supplier, accepted.
  abbrev pub accepted_bill : EnergyBill → CreateCaseDto → Store → EnergyBill
  accepted_bill b dto s =
      let corrected = apply_delivery_point_correction dto.pod_number b in
      stamp_status BillStatus.offer_accepted s.now
        (record corrected { supplier_id = resolve_from_supplier_id b s })

module _ (upper_beyond : ℕ → List ℕ) where
  -- The columns that both writers leave, with the address for the invoices.
  unfoldable pub opening_columns : ℕ → CreateCaseDto → Store → Columns
  opening_columns user_id dto s =
      let addressed = apply_address_fields upper_beyond dto.columns (initial_columns dto.columns) in
      let written = apply_contract_detail_fields upper_beyond dto.columns addressed.0 in
      if is_truthy (written.0 (detail invoice_email))
      then written.0
      else put (detail invoice_email) (resolve_invoice_email user_id s) written.0

module _ (upper_beyond : ℕ → List ℕ) (names : List ℕ → List ℕ → Bool) (day : List ℕ) where
  unfoldable pub new_case : EnergyBill → Offer → ℕ → CreateCaseDto → Store → SwitchCase
  new_case b o user_id dto s = record {
    id = s.next_id;
    user_id = user_id;
    bill_id = dto.bill_id;
    selected_offer_id = dto.selected_offer_id;
    status = CaseStatus.opened;
    case_number = generate_case_number day s;
    from_supplier_id = resolve_from_supplier_id names b s;
    to_supplier_id = o.supplier_id;
    activation_date = none;
    expiry_date = none;
    contract_sent_at = none;
    columns = opening_columns upper_beyond user_id dto s;
    created_at = s.now;
  }

module _ (upper_beyond : ℕ → List ℕ) (names : List ℕ → List ℕ → Bool) (day : List ℕ)
    (resolves : List ℕ → Key → Bool) where
  -- The writes of `createCase`, in their order.
  unfoldable pub opened_case : EnergyBill → Offer → ℕ → CreateCaseDto → Store → Store
  opened_case b o user_id dto s =
      let c = new_case upper_beyond names day b o user_id dto s in
      let t = record s { cases = c ∷ s.cases; next_id = s.next_id + 1 } in
      let u = save_bill (accepted_bill names b dto s) t in
      admin_application_submitted resolves c.id (record u {
        events =
            record {
              case_id = c.id;
              title = case_created;
              description = none;
              actor_id = user_id;
              old_status = none;
              new_status = some CaseStatus.opened;
            }
            ∷ u.events;
      })

  unfoldable pub create_case : ℕ → CreateCaseDto → Action Store SwitchCase
  create_case user_id dto s = elim (find? (is_bill dto.bill_id) s.bills) [
    | none ↦ (s, fail (not_found "Bill not found"))
    | some b ↦ elim (admitted b user_id dto s) [
      | fail e ↦ (s, fail e)
      | ok o ↦
          (opened_case b o user_id dto s, ok (new_case upper_beyond names day b o user_id dto s))
    ]
  ]
