-- ===== src/Suppliers/Tests.antt =====
-- A supplier with a supply that runs until a date, and its deletion.
use easyrisparmio_backend.Prelude.{
  List, ℕ, ◌+◌, ◌≡◌, refl, true, false, none, some, [], ◌∷◌, any, arith,
}
use easyrisparmio_backend.Cases.Columns.{null}
use easyrisparmio_backend.Switching.{
  CaseStatus, SupplierStatus, UserTarget, OfferStatus, EnergyType, MarketType, Commodity, Offer,
  SwitchCase, Store,
}
use easyrisparmio_backend.Switching.Acceptance.{is_supplier}
use easyrisparmio_backend.Suppliers.{Calendar, get_live_utilities_for_supplier, latest_expiry}
use easyrisparmio_backend.Suppliers.Pricing.{ArePriced, serve_all-ArePriced}
use easyrisparmio_backend.Suppliers.Offers.{Database, UpdateOfferDto}
use easyrisparmio_backend.Suppliers.Removal.{
  delete_supplier, execute_scheduled_deletions, schedule, cancel_early_stage_cases, execute_all,
}
use easyrisparmio_backend.Suppliers.Served.{AreServed}
use easyrisparmio_backend.Suppliers.Calls.{
  Call, edit_offer, set_status, remove, keep, night, wait, serve_all, serve_all-AreServed,
}
use easyrisparmio_backend.Suppliers.Deletion.{delete_supplier-removed}

-- Instants are counted in days.
abbrev calendar : Calendar
calendar = record { midnight = λ n. n; monotone = λ a b h. h }

abbrev offer : Offer
offer = record {
  id = 5;
  name = 65 ∷ [];
  offer_status = OfferStatus.active;
  energy_type = EnergyType.electricity;
  market_type = MarketType.fixed;
  price_per_kwh = some 120000;
  price_per_smc = none;
  spread = none;
  supplier_id = some 3;
  target = some UserTarget.both;
  payment_method = none;
}

abbrev case_in : CaseStatus → ℕ → SwitchCase
case_in status id = record {
  id = id;
  user_id = 1;
  bill_id = 7;
  selected_offer_id = 5;
  status = status;
  case_number = id ∷ [];
  from_supplier_id = some 2;
  to_supplier_id = some 3;
  activation_date = some 50;
  expiry_date = some 400;
  contract_sent_at = none;
  columns = λ c. null;
  created_at = 30;
}

-- A supply until day 400, and a case that has just begun.
abbrev store : Store
store = record {
  users = [];
  suppliers =
      record {
        id = 3;
        name = 83 ∷ [];
        status = SupplierStatus.active;
        commodity = some Commodity.dual;
        supplier_code = none;
        scheduled_deletion_date = none;
      }
      ∷ [];
  offers = offer ∷ [];
  bills = [];
  cases = case_in CaseStatus.activated 9 ∷ case_in CaseStatus.in_progress 10 ∷ [];
  verifications = [];
  files = [];
  sent_offers = [];
  events = [];
  notices = [];
  recipients = [];
  now = 100;
  next_id = 20;
}

-- The database refuses nothing, and the mapper writes the assigned supplier.
abbrev database : Database
database = record { refuses = λ o s. none; written_supplier = λ old assigned. some assigned }

-- A change of the offer to another supplier, and back to a draft, which are refused.
abbrev moved : UpdateOfferDto
moved = record {
  name = none;
  energy_type = none;
  market_type = none;
  price_per_kwh = some (some 90000);
  price_per_smc = none;
  spread = none;
  target = none;
  payment_method = none;
  supplier_id = some 4;
}

abbrev calls : List Call
calls =
    remove 3
    ∷ edit_offer 5 moved
    ∷ set_status 5 OfferStatus.draft
    ∷ night
    ∷ wait 200
    ∷ keep 3
    ∷ set_status 5 OfferStatus.archived
    ∷ remove 3
    ∷ night
    ∷ []

serve_all-AreServed_example : AreServed calendar (serve_all calendar database calls store)
serve_all-AreServed_example =
    serve_all-AreServed calendar database calls store (record { served = refl; days = refl })

-- Changes of the offer's price, the first to none.
serve_all-ArePriced_example : ArePriced (
    serve_all calendar database
      (set_status 5 OfferStatus.archived
        ∷ edit_offer 5 (record moved { price_per_kwh = some none })
        ∷ edit_offer 5 moved
        ∷ [])
      store)
serve_all-ArePriced_example =
    serve_all-ArePriced calendar database
      (set_status 5 OfferStatus.archived
        ∷ edit_offer 5 (record moved { price_per_kwh = some none })
        ∷ edit_offer 5 moved
        ∷ [])
      store (refl, tt)

delete_supplier-removed_example :
    any
      (is_supplier 3)
      (execute_scheduled_deletions calendar
        (record (delete_supplier calendar 3 store).0 { now = store.now + 300 })).suppliers
    ≡ false
unfolding delete_supplier get_live_utilities_for_supplier latest_expiry schedule
    cancel_early_stage_cases
delete_supplier-removed_example =
    delete_supplier-removed calendar 3 400 1 300 store (tt, tt) refl (omega arith)

-- The run of the day before does nothing.
day_before :
    any
      (is_supplier 3)
      (execute_scheduled_deletions calendar
        (record (delete_supplier calendar 3 store).0 { now = store.now + 299 })).suppliers
    ≡ true
unfolding delete_supplier get_live_utilities_for_supplier latest_expiry schedule
    cancel_early_stage_cases execute_scheduled_deletions execute_all
day_before = refl
