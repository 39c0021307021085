-- ===== src/Suppliers.antt =====
-- Suppliers and the supplies that run under their offers, on the rows of Switching:
-- src/modules/suppliers/suppliers.service.ts. Columns that only describe a supplier and its questions
-- and answers are left out; an offer or a supplier that is removed softly is in no table, and a join
-- does not find it.
pub mod Catalogue
pub mod Offers
pub mod Removal
pub mod Rows
pub mod Served
pub mod Edits
pub mod Calls
pub mod Due
pub mod Deletion
pub mod Pricing
mod Tests
use easyrisparmio_backend.Prelude.{
  ℕ, ◌+◌, ◌≤◌, ◌==◌, ◌≡◌, Bool, true, false, ◌&&◌, ◌||◌, not, Option, none, some, List, [], ◌∷◌,
  ◌++◌, map, find?, any, filter, length, ltb, leb, text_eq, if◌then◌else◌,
}
use easyrisparmio_backend.Http.{Action, ok, fail, bad_request, not_found, conflict}
use easyrisparmio_backend.Switching.{
  CaseStatus, SupplierStatus, Supplier, Offer, SwitchCase, Store, update_where, holds_id,
}
use easyrisparmio_backend.Switching.Acceptance.{is_supplier}
use easyrisparmio_backend.Switching.Proposals.{is_empty}

-- The start of an instant's day in the server's time zone: `setHours(0, 0, 0, 0)`.
pub record Calendar : Type 0 where
  pub midnight : ℕ → ℕ
  pub monotone : (a b : ℕ) → a ≤ b → midnight a ≤ midnight b

abbrev pub is_pending_deletion : SupplierStatus → Bool
is_pending_deletion SupplierStatus.pending_deletion = true
is_pending_deletion SupplierStatus.active = false
is_pending_deletion SupplierStatus.inactive = false

-- `LIVE_UTILITY_CASE_STATUSES`.
abbrev pub is_live_status : CaseStatus → Bool
is_live_status CaseStatus.awaiting_activation = true
is_live_status CaseStatus.activated = true
is_live_status _ = false

-- `earlyStatuses`.
abbrev pub is_early_status : CaseStatus → Bool
is_early_status CaseStatus.opened = true
is_early_status CaseStatus.in_progress = true
is_early_status CaseStatus.documents_pending = true
is_early_status _ = false

-- `expiryDate IS NULL OR expiryDate > :today`.
abbrev pub is_unexpired : ℕ → Option ℕ → Bool
is_unexpired today none = true
is_unexpired today (some expiry) = ltb today expiry

abbrev pub is_offer : ℕ → Offer → Bool
is_offer id o = o.id == id

-- The join on the selected offer, and its supplier.
abbrev pub is_supplied_by : ℕ → List Offer → SwitchCase → Bool
is_supplied_by id offers c = elim (find? (is_offer c.selected_offer_id) offers) [
  | none ↦ false
  | some o ↦ holds_id id o.supplier_id
]

abbrev pub has_no_expiry : SwitchCase → Bool
has_no_expiry c = elim c.expiry_date [ none ↦ true | some e ↦ false ]

-- The loop that looks for the last expiry.
unfoldable pub latest_expiry : ℕ → List SwitchCase → ℕ
latest_expiry latest [] = latest
latest_expiry latest (c ∷ cs) =
    latest_expiry
      (elim c.expiry_date [ none ↦ latest | some e ↦ if ltb latest e then e else latest ]) cs

abbrev pub is_early_case : ℕ → SwitchCase → Bool
is_early_case id c = holds_id id c.to_supplier_id && is_early_status c.status

module _ (calendar : Calendar) where
  open calendar use {midnight}

  abbrev pub is_live : ℕ → SwitchCase → Bool
  is_live now c = is_live_status c.status && is_unexpired (midnight now) c.expiry_date

  unfoldable pub get_live_utilities_for_supplier : ℕ → Store → List SwitchCase
  get_live_utilities_for_supplier id s =
      filter (λ c. is_supplied_by id s.offers c && is_live s.now c) s.cases
