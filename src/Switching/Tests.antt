-- ===== src/Switching/Tests.antt =====
-- A customer's bill, an offer for it, and the calls that lead to a switch.
use easyrisparmio_backend.Prelude.{
  ℕ, ◌++◌, ◌≡◌, ◌≢◌, refl, inr, true, false, none, some, List, [], ◌∷◌, find?, All, arith, Bool,
  parse_digits,
}
use easyrisparmio_backend.Http.{ok}
use easyrisparmio_backend.Pipeline.{BillStatus}
use easyrisparmio_backend.Cases.{UserRole}
use easyrisparmio_backend.Cases.Columns.{Column, Value, null}
use easyrisparmio_backend.Switching.{
  CaseStatus, SupplierStatus, UserTarget, OfferStatus, EnergyType, MarketType, Commodity,
  EnergyBill, SwitchCase, Offer, SentOffer, Key, Store, get_bill_by_id_admin, is_case, latest,
}
use easyrisparmio_backend.Switching.Notices.Once.{AreOnce}
use easyrisparmio_backend.Switching.Verifications.{stamp_status}
use easyrisparmio_backend.Switching.Verifications.Pending.{HaveOne}
use easyrisparmio_backend.Switching.Transitions.{
  TransitionBillStatusDto, transition_bill_status, refusal, assert_activation_dates, moved,
  case_status_by_bill_status,
}
use easyrisparmio_backend.Switching.Transitions.Outcome.{transition_bill_status_lem}
use easyrisparmio_backend.Switching.Transitions.Mirror.{DatesFit, moved-mirrored}
use easyrisparmio_backend.Switching.CaseNumbers.{
  number_prefix, last_part, print_seq, generate_case_number,
}
use easyrisparmio_backend.Switching.CaseNumbers.Print.{number-parse}
use easyrisparmio_backend.Switching.CaseNumbers.Fresh.{generate_case_number-new}
use easyrisparmio_backend.Switching.Acceptance.{CreateCaseDto}
use easyrisparmio_backend.Switching.Opening.{create_case}
use easyrisparmio_backend.Switching.Opening.Single.{create_case-Settles, Settles}
use easyrisparmio_backend.Switching.Reordering.{
  reorder_sent_offers, reorder_refusal, sent_by_offer_id, is_row,
}
use easyrisparmio_backend.Switching.Proposals.{is_sent_to}
use easyrisparmio_backend.Switching.Proposals.Unique.{AreUnique}
use easyrisparmio_backend.Switching.Reordering.Unique.{reorder_sent_offers-AreUnique}
use easyrisparmio_backend.Switching.Reordering.Places.{reorder_sent_offers-place}
use easyrisparmio_backend.Switching.Calls.{
  World, Call, transition, ask, answer, propose, reorder, accept, wait, serve_all,
}
use easyrisparmio_backend.Switching.Calls.Sound.{serve_all-AreSound}
use easyrisparmio_backend.Switching.Calls.Writes.{AreSound}

abbrev sends : List ℕ → Key → Bool
sends ids key = true

abbrev same_day : ℕ → ℕ
same_day d = d

-- `20260312`.
abbrev day : List ℕ
day = 50 ∷ 48 ∷ 50 ∷ 54 ∷ 48 ∷ 51 ∷ 49 ∷ 50 ∷ []

abbrev bill_in : BillStatus → EnergyBill
bill_in status = record {
  id = 7;
  user_id = 1;
  status = status;
  status_changed_at = none;
  supplier_id = some 3;
  supplier_name = none;
  is_gas = false;
  pod_number = none;
  pdr_number = none;
}

abbrev offer : Offer
offer = record {
  id = 5;
  name = 65 ∷ [];
  offer_status = OfferStatus.active;
  energy_type = EnergyType.electricity;
  market_type = MarketType.fixed;
  price_per_kwh = some 120000;
  price_per_smc = none;
  spread = none;
  supplier_id = some 3;
  target = some UserTarget.both;
  payment_method = none;
}

abbrev empty_columns : Column → Value
empty_columns c = null

abbrev first_case : SwitchCase
first_case = record {
  id = 9;
  user_id = 1;
  bill_id = 7;
  selected_offer_id = 5;
  status = CaseStatus.contract_sent;
  case_number = number_prefix day ++ print_seq 41;
  from_supplier_id = some 3;
  to_supplier_id = some 3;
  activation_date = none;
  expiry_date = none;
  contract_sent_at = some 400;
  columns = empty_columns;
  created_at = 300;
}

abbrev store : BillStatus → List SwitchCase → List SentOffer → Store
store status cases sent = record {
  users =
      record { id = 1; role = UserRole.personal; email = some (97 ∷ []); pec_email = none } ∷ [];
  suppliers =
      record {
        id = 3;
        name = 83 ∷ [];
        status = SupplierStatus.active;
        commodity = some Commodity.dual;
        supplier_code = none;
        scheduled_deletion_date = none;
      }
      ∷ [];
  offers = offer ∷ [];
  bills = bill_in status ∷ [];
  cases = cases;
  verifications = [];
  files = [];
  sent_offers = sent;
  events = [];
  notices = [];
  recipients = 2 ∷ [];
  now = 1000;
  next_id = 20;
}

abbrev activation : TransitionBillStatusDto
activation = record {
  target_status = BillStatus.awaiting_activation;
  message = none;
  activation_date = some 5000;
  expiry_date = some 9000;
}

abbrev signed : Store
signed = store BillStatus.contract_sent (first_case ∷ []) []

transition_bill_status_lem_example : transition_bill_status sends same_day 7 activation 2 signed ≡ (
  moved sends same_day (bill_in BillStatus.contract_sent) activation 2 signed,
  ok (stamp_status BillStatus.awaiting_activation 1000 (bill_in BillStatus.contract_sent)),
)
unfolding refusal assert_activation_dates
transition_bill_status_lem_example =
    transition_bill_status_lem sends same_day 7 activation 2 signed
      (bill_in BillStatus.contract_sent) refl

moved-mirrored_example :
    (d : SwitchCase) × ((find?
          (is_case 9)
          (moved sends same_day (bill_in BillStatus.contract_sent) activation 2 signed).cases
        ≡ some d)
      × ((d.status ≡ CaseStatus.awaiting_activation) × DatesFit BillStatus.awaiting_activation d))
unfolding refusal assert_activation_dates case_status_by_bill_status latest
moved-mirrored_example =
    moved-mirrored same_day (λ a b h. h) sends (bill_in BillStatus.contract_sent) activation 2
      signed first_case (tt, tt) refl refl

number-parse_example : parse_digits 0 (last_part [] (number_prefix day ++ print_seq 41)) ≡ 41
number-parse_example = number-parse day 41

generate_case_number-new_example :
    All (λ c. c.case_number ≢ generate_case_number day signed) (first_case ∷ [])
generate_case_number-new_example =
    generate_case_number-new day signed (inr (41, (refl, omega arith)), tt)

abbrev no_letters : ℕ → List ℕ
no_letters c = []

abbrev no_names : List ℕ → List ℕ → Bool
no_names name other = false

abbrev request : CreateCaseDto
request = record { bill_id = 7; selected_offer_id = 5; pod_number = none; columns = λ c. none }

abbrev proposed : SentOffer
proposed = record {
  id = 8;
  user_id = 1;
  bill_id = 7;
  offer_id = some 5;
  estimated_savings = some 1200;
  display_order = 0;
  created_at = 200;
}

abbrev waiting : Store
waiting = store BillStatus.offer_sent [] (proposed ∷ [])

create_case-Settles_example :
    let r = create_case no_letters no_names day sends 1 request waiting in
    Settles no_letters no_names day sends 1 request waiting r.0 r.1
create_case-Settles_example = create_case-Settles no_letters no_names day sends 1 request waiting

abbrev world : World
world = record {
  upper_beyond = no_letters;
  names = no_names;
  day_of = λ t. day;
  as_day = same_day;
  resolves = sends;
  estimate = λ b o. 0;
}

abbrev calls : List Call
calls =
    propose 7 (record { offer_id = 5; estimated_savings = some 1200 } ∷ [])
    ∷ wait 50
    ∷ reorder 7 (5 ∷ [])
    ∷ ask 7 (63 ∷ [])
    ∷ answer 7 1 none []
    ∷ accept 1 request
    ∷ transition 7 activation 2
    ∷ []

verified-AreSound : AreSound (store BillStatus.verified [] [])
unfolding HaveOne AreOnce
verified-AreSound = record {
  pending = λ b. omega arith;
  once = λ u k. omega arith;
  unique = record { offer_once = λ b o. omega arith; place_once = λ b p. omega arith };
  offers = λ id. ground arith;
  numbered = record { keys = tt; fresh = tt };
}

serve_all-AreSound_example : AreSound (serve_all world calls (store BillStatus.verified [] []))
serve_all-AreSound_example =
    serve_all-AreSound world calls (store BillStatus.verified [] []) verified-AreSound

abbrev second : SentOffer
second = record proposed { id = 12; offer_id = some 6; display_order = 1 }

abbrev two_sent : Store
two_sent = store BillStatus.offer_sent [] (proposed ∷ second ∷ [])

reorder_sent_offers-place_example :
    (row : SentOffer) × ((find?
          (is_row row.id)
          (reorder_sent_offers 7 (6 ∷ 5 ∷ []) two_sent).0.sent_offers
        ≡ some row)
      × ((is_sent_to 7 6 row ≡ true) × (row.display_order ≡ 0)))
unfolding reorder_sent_offers get_bill_by_id_admin reorder_refusal sent_by_offer_id
reorder_sent_offers-place_example =
    reorder_sent_offers-place 7 (6 ∷ 5 ∷ []) two_sent 0 6 ((refl, tt), (tt, tt)) refl refl

two_sent-AreUnique : AreUnique (proposed ∷ second ∷ [])
two_sent-AreUnique = record { offer_once = λ b o. ground arith; place_once = λ b p. ground arith }

reorder_sent_offers-AreUnique_example :
    AreUnique (reorder_sent_offers 7 (6 ∷ []) two_sent).0.sent_offers
reorder_sent_offers-AreUnique_example =
    reorder_sent_offers-AreUnique 7 (6 ∷ []) two_sent ((refl, tt), (tt, tt)) two_sent-AreUnique
