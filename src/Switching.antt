-- ===== src/Switching.antt =====
-- Bills and the switch cases opened on them: the rows that src/modules/bills/bills.service.ts and
-- src/modules/cases/cases.service.ts share, and the notifications they send
-- (src/modules/notifications/notification-events.service.ts). Times are milliseconds, ids numbers,
-- texts lists of code points. A row is found by its id; the driver's conversion of an instant to a
-- column of type `date` is the parameter `as_day`.
pub mod Notices
pub mod Verifications
pub mod Tables
pub mod Counts
pub mod Transitions
pub mod CaseNumbers
pub mod Acceptance
pub mod Opening
pub mod Proposals
pub mod Reordering
pub mod Calls
mod Tests
use easyrisparmio_backend.Prelude.{
  ℕ, ◌==◌, ◌+◌, ◌≡◌, Bool, true, false, ◌&&◌, ◌||◌, not, Option, none, some, List, [], ◌∷◌, find?,
  any, if◌then◌else◌, leb, filter,
}
use easyrisparmio_backend.Http.{Action, ok, fail, not_found, forbidden}
use easyrisparmio_backend.Pipeline.{BillStatus, TransitionDirection, same}
use easyrisparmio_backend.Cases.{UserRole}
use easyrisparmio_backend.Cases.Columns.{Columns}

pub data CaseStatus : Type 0 where
  opened in_progress documents_pending contract_sent activated rejected cancelled : CaseStatus
  awaiting_activation : CaseStatus

pub data SupplierStatus : Type 0 where
  active inactive pending_deletion : SupplierStatus

pub data OfferPaymentMethod : Type 0 where
  direct_debit postal_order both : OfferPaymentMethod

pub data Commodity : Type 0 where
  electricity gas dual : Commodity

pub data EnergyType : Type 0 where
  electricity gas dual : EnergyType

pub data MarketType : Type 0 where
  fixed variable indexed : MarketType

pub data OfferStatus : Type 0 where
  draft active expiring expired archived : OfferStatus

pub data UserTarget : Type 0 where
  personal business both : UserTarget

pub data VerificationStatus : Type 0 where
  pending submitted resolved : VerificationStatus

pub data VerificationType : Type 0 where
  of_bill of_contract : VerificationType

pub record User : Type 0 where
  pub id : ℕ
  pub role : UserRole
  pub email : Option (List ℕ)
  -- The `pecEmail` of the business profile, if there is a profile with one.
  pub pec_email : Option (List ℕ)

pub record Supplier : Type 0 where
  pub id : ℕ
  pub name : List ℕ
  pub status : SupplierStatus
  pub commodity : Option Commodity
  pub supplier_code : Option (List ℕ)
  pub scheduled_deletion_date : Option ℕ

pub record Offer : Type 0 where
  pub id : ℕ
  pub name : List ℕ
  pub offer_status : OfferStatus
  pub energy_type : EnergyType
  pub market_type : MarketType
  -- Prices in the smallest unit that the columns hold.
  pub price_per_kwh : Option ℕ
  pub price_per_smc : Option ℕ
  pub spread : Option ℕ
  pub supplier_id : Option ℕ
  pub target : Option UserTarget
  pub payment_method : Option OfferPaymentMethod

pub record EnergyBill : Type 0 where
  pub id : ℕ
  pub user_id : ℕ
  pub status : BillStatus
  pub status_changed_at : Option ℕ
  pub supplier_id : Option ℕ
  pub supplier_name : Option (List ℕ)
  -- `billType === GAS`.
  pub is_gas : Bool
  pub pod_number : Option (List ℕ)
  pub pdr_number : Option (List ℕ)

pub record BillVerification : Type 0 where
  pub id : ℕ
  pub bill_id : ℕ
  pub admin_message : List ℕ
  pub type : VerificationType
  pub status : VerificationStatus
  pub user_message : Option (List ℕ)
  pub resolved_at : Option ℕ
  pub created_at : ℕ

pub record SwitchCase : Type 0 where
  pub id : ℕ
  pub user_id : ℕ
  pub bill_id : ℕ
  pub selected_offer_id : ℕ
  pub status : CaseStatus
  pub case_number : List ℕ
  pub from_supplier_id : Option ℕ
  pub to_supplier_id : Option ℕ
  pub activation_date : Option ℕ
  pub expiry_date : Option ℕ
  pub contract_sent_at : Option ℕ
  pub columns : Columns
  pub created_at : ℕ

pub data EventTitle : Type 0 where
  status_moved : TransitionDirection → (from to : BillStatus) → EventTitle
  case_created : EventTitle

-- A `status_change` row of a case's timeline; a description is the admin's message, or `none` for
-- the text that stands in for one.
pub record CaseEvent : Type 0 where
  pub case_id : ℕ
  pub title : EventTitle
  pub description : Option (List ℕ)
  pub actor_id : ℕ
  pub old_status : Option CaseStatus
  pub new_status : Option CaseStatus

pub record SentOffer : Type 0 where
  pub id : ℕ
  pub user_id : ℕ
  pub bill_id : ℕ
  -- Null once the offer has been deleted.
  pub offer_id : Option ℕ
  pub estimated_savings : Option ℕ
  pub display_order : ℕ
  pub created_at : ℕ

pub record BillFile : Type 0 where
  pub id : ℕ
  pub bill_id : ℕ
  pub verification_id : Option ℕ

-- The events of the milestones of notification-messages.ts.
pub data Milestone : Type 0 where
  offers_available contract_ready in_activation activated cancelled : Milestone

-- A `dedupeKey`.
pub data Key : Type 0 where
  milestone_of : (bill_id : ℕ) → Milestone → Key
  verification_requested : (id : ℕ) → Key
  verification_submitted : (id : ℕ) → Key
  case_submitted : (id : ℕ) → Key

pub record Notice : Type 0 where
  pub user_id : ℕ
  pub key : Key

pub record Store : Type 0 where
  pub users : List User
  pub suppliers : List Supplier
  pub offers : List Offer
  pub bills : List EnergyBill
  pub cases : List SwitchCase
  pub verifications : List BillVerification
  pub files : List BillFile
  pub sent_offers : List SentOffer
  pub events : List CaseEvent
  pub notices : List Notice
  -- The admins that are told of a customer's step.
  pub recipients : List ℕ
  pub now : ℕ
  pub next_id : ℕ

module _ {A : Type 0} where
  -- `update(where, change)`.
  abbrev pub update_where : (A → Bool) → (A → A) → List A → List A
  update_where p f [] = []
  update_where p f (x ∷ xs) = let rest = update_where p f xs in (if p x then f x else x) ∷ rest

  -- The row with the largest time among those that fit, the first of the table if there are several.
  later : (A → ℕ) → A → Option A → Option A
  later time x none = some x
  later time x (some y) = if leb (time y) (time x) then some x else some y

  unfoldable pub latest : (A → ℕ) → (A → Bool) → List A → Option A
  unfolding later
  latest time p [] = none
  latest time p (x ∷ xs) = let rest = latest time p xs in if p x then later time x rest else rest

abbrev pub is_bill : ℕ → EnergyBill → Bool
is_bill id b = b.id == id

abbrev pub is_case : ℕ → SwitchCase → Bool
is_case id c = c.id == id

abbrev pub is_case_of : ℕ → SwitchCase → Bool
is_case_of bill_id c = c.bill_id == bill_id

-- `save(bill)`: all of the row's columns are written.
abbrev pub save_bill : EnergyBill → Store → Store
save_bill b s = record s { bills = update_where (is_bill b.id) (λ old. b) s.bills }

abbrev pub save_case : SwitchCase → Store → Store
save_case c s = record s { cases = update_where (is_case c.id) (λ old. c) s.cases }

unfoldable pub get_bill_by_id_admin : ℕ → Action Store EnergyBill
get_bill_by_id_admin bill_id s = elim (find? (is_bill bill_id) s.bills) [
  | none ↦ (s, fail (not_found "Bill not found"))
  | some bill ↦ (s, ok bill)
]

abbrev pub holds_id : ℕ → Option ℕ → Bool
holds_id n none = false
holds_id n (some m) = m == n

unfoldable pub get_bill_by_id : ℕ → ℕ → Action Store EnergyBill
get_bill_by_id bill_id user_id s = elim (find? (is_bill bill_id) s.bills) [
  | none ↦ (s, fail (not_found "Bill not found"))
  | some bill ↦
      if bill.user_id == user_id
      then (s, ok bill)
      else (s, fail (forbidden "You do not have access to this bill"))
]

-- The bill after a status is assigned, stamped only where the status is another one.
unfoldable pub set_bill_status : BillStatus → ℕ → EnergyBill → EnergyBill
set_bill_status next now bill =
    if same bill.status next
    then bill
    else record bill { status = next; status_changed_at = some now }
