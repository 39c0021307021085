-- ===== src/Switching/Transitions.antt =====
-- The status that an admin picks: `transitionBillStatus` of src/modules/bills/bills.service.ts, with
-- what it writes on the bill's newest case.
pub mod Outcome
pub mod Mirror
use easyrisparmio_backend.Prelude.{
  ℕ, ◌==◌, find?, Bool, true, false, ◌&&◌, ◌||◌, not, Option, none, some, List, [], ◌∷◌, leb,
  if◌then◌else◌,
}
use easyrisparmio_backend.Http.{HttpError, Action, ok, fail, bad_request}
use easyrisparmio_backend.Pipeline.{BillStatus, same, TransitionDirection, get_transition_direction}
use easyrisparmio_backend.Switching.{
  CaseStatus, EnergyBill, SwitchCase, CaseEvent, status_moved, Key, Store, update_where, latest,
  is_case, is_case_of, save_bill, save_case, get_bill_by_id_admin, set_bill_status,
}
use easyrisparmio_backend.Switching.Notices.{bill_milestone}
use easyrisparmio_backend.Switching.Verifications.{close_pending, or_null, request}

pub record TransitionBillStatusDto : Type 0 where
  pub target_status : BillStatus
  pub message : Option (List ℕ)
  pub activation_date : Option ℕ
  pub expiry_date : Option ℕ

-- `!value`, of a text or of a date.
abbrev pub lacks_text : Option (List ℕ) → Bool
lacks_text (some (c ∷ cs)) = false
lacks_text _ = true

abbrev pub lacks : Option ℕ → Bool
lacks none = true
lacks (some d) = false

-- Both dates are given, and the expiry is not after the activation.
abbrev pub is_misordered : Option ℕ → Option ℕ → Bool
is_misordered (some activation) (some expiry) = leb expiry activation
is_misordered _ _ = false

unfoldable pub assert_activation_dates : BillStatus → TransitionBillStatusDto → Option HttpError
assert_activation_dates target dto =
    if same target BillStatus.awaiting_activation
      && (lacks dto.activation_date || lacks dto.expiry_date)
    then some (bad_request "Activation date and expiry date are required when moving the case")
    else if is_misordered dto.activation_date dto.expiry_date
    then some (bad_request "Expiry date must be after the activation date")
    else none

-- The checks before anything is written, in their order.
unfoldable pub refusal : EnergyBill → TransitionBillStatusDto → Option HttpError
refusal b dto =
    if same b.status dto.target_status
    then some (bad_request "Bill is already in status")
    else if same dto.target_status BillStatus.verification_required && lacks_text dto.message
    then some (bad_request "Message is required when moving the case")
    else assert_activation_dates dto.target_status dto

unfoldable pub case_status_by_bill_status : BillStatus → Option CaseStatus
case_status_by_bill_status BillStatus.pending_email = some CaseStatus.opened
case_status_by_bill_status BillStatus.uploaded = some CaseStatus.opened
case_status_by_bill_status BillStatus.analyzing = some CaseStatus.opened
case_status_by_bill_status BillStatus.analyzed = some CaseStatus.opened
case_status_by_bill_status BillStatus.verification_review = some CaseStatus.in_progress
case_status_by_bill_status BillStatus.verification_required = some CaseStatus.documents_pending
case_status_by_bill_status BillStatus.verified = some CaseStatus.in_progress
case_status_by_bill_status BillStatus.offer_sent = some CaseStatus.in_progress
case_status_by_bill_status BillStatus.offer_accepted = some CaseStatus.in_progress
case_status_by_bill_status BillStatus.contract_sent = some CaseStatus.contract_sent
case_status_by_bill_status BillStatus.awaiting_activation = some CaseStatus.awaiting_activation
case_status_by_bill_status BillStatus.activated = some CaseStatus.activated
case_status_by_bill_status BillStatus.cancelled = some CaseStatus.cancelled
case_status_by_bill_status BillStatus.error = none

abbrev pub case_code : CaseStatus → ℕ
case_code CaseStatus.opened = 0
case_code CaseStatus.in_progress = 1
case_code CaseStatus.documents_pending = 2
case_code CaseStatus.contract_sent = 3
case_code CaseStatus.activated = 4
case_code CaseStatus.rejected = 5
case_code CaseStatus.cancelled = 6
case_code CaseStatus.awaiting_activation = 7

abbrev pub same_case : CaseStatus → CaseStatus → Bool
same_case a b = case_code a == case_code b

abbrev pub is_live : BillStatus → Bool
is_live status = same status BillStatus.awaiting_activation || same status BillStatus.activated

-- `if (given) column = new Date(given)`.
abbrev pub given_or : Option ℕ → Option ℕ → Option ℕ
given_or (some d) old = some d
given_or none old = old

-- The instant of the first hand-over; a later one does not replace it.
abbrev pub first_sent : BillStatus → ℕ → Option ℕ → Option ℕ
first_sent status now (some t) = some t
first_sent status now none = if same status BillStatus.contract_sent then some now else none

abbrev pub stored_day : (ℕ → ℕ) → Option ℕ → Option ℕ
stored_day as_day none = none
stored_day as_day (some d) = some (as_day d)

-- `sort(...)[0]` of the bill's cases, the newest first.
abbrev pub active_case : ℕ → Store → Option SwitchCase
active_case bill_id s = latest (λ c. c.created_at) (is_case_of bill_id) s.cases

-- `?? oldCaseStatus`.
abbrev pub mirrored : BillStatus → CaseStatus → CaseStatus
mirrored status old = elim (case_status_by_bill_status status) [ none ↦ old | some new ↦ new ]

module _ (as_day : ℕ → ℕ) where
  unfoldable pub with_dates : BillStatus → TransitionBillStatusDto → ℕ → SwitchCase → SwitchCase
  with_dates status dto now c =
      let sent = first_sent status now c.contract_sent_at in
      if is_live status
      then record c {
        contract_sent_at = sent;
        activation_date = given_or (stored_day as_day dto.activation_date) c.activation_date;
        expiry_date = given_or (stored_day as_day dto.expiry_date) c.expiry_date;
      }
      else record c { contract_sent_at = sent; activation_date = none; expiry_date = none }

  -- `applyActivationDates`: the case is read again by its id.
  unfoldable pub apply_activation_dates : ℕ → BillStatus → TransitionBillStatusDto → Store → Store
  apply_activation_dates case_id status dto s = elim (find? (is_case case_id) s.cases) [
    | none ↦ s
    | some c ↦ save_case (with_dates status dto s.now c) s
  ]

-- `if (newCaseStatus && newCaseStatus !== oldCaseStatus)`.
abbrev pub mirror : BillStatus → CaseStatus → SwitchCase → SwitchCase
mirror to old row = elim (case_status_by_bill_status to) [
  | none ↦ row
  | some new ↦ if same_case new old then row else record row { status = new }
]

-- `logStatusChangeOnCase`.
unfoldable pub log_status_change_on_case :
    SwitchCase → (from to : BillStatus) → ℕ → Option (List ℕ) → Store → Store
unfolding case_status_by_bill_status
log_status_change_on_case c from to admin_id message s = record s {
  cases = update_where (is_case c.id) (mirror to c.status) s.cases;
  events =
      record {
        case_id = c.id;
        title = status_moved (get_transition_direction from to) from to;
        description = or_null message;
        actor_id = admin_id;
        old_status = some c.status;
        new_status = some (mirrored to c.status);
      }
      ∷ s.events;
}

-- `dto.message!`.
abbrev pub text_of : Option (List ℕ) → List ℕ
text_of none = []
text_of (some t) = t

-- The writes on the case that was the newest when the bill was loaded.
unfoldable pub move_case :
    (ℕ → ℕ) → Option SwitchCase → EnergyBill → TransitionBillStatusDto → ℕ → Store → Store
move_case as_day none b dto admin_id s = s
move_case as_day (some c) b dto admin_id s =
    log_status_change_on_case c b.status dto.target_status admin_id dto.message
      (apply_activation_dates as_day c.id dto.target_status dto s)

module _ (resolves : List ℕ → Key → Bool) where
  -- The writes on the bill and its verifications.
  unfoldable pub move_bill : EnergyBill → TransitionBillStatusDto → Store → Store
  move_bill b dto s =
      if same dto.target_status BillStatus.verification_required
      then request resolves b (text_of dto.message) s
      else save_bill (set_bill_status dto.target_status s.now b) (close_pending b.id s)

  -- A request for a document has sent its own notification.
  unfoldable pub announce : EnergyBill → BillStatus → Store → Store
  announce b status s =
      if same status BillStatus.verification_required
      then s
      else bill_milestone resolves b.user_id b.id status s

  unfoldable pub moved : (ℕ → ℕ) → EnergyBill → TransitionBillStatusDto → ℕ → Store → Store
  moved as_day b dto admin_id s =
      announce b dto.target_status
        (move_case as_day (active_case b.id s) b dto admin_id (move_bill b dto s))

  unfoldable pub transition_bill_status :
      (ℕ → ℕ) → ℕ → TransitionBillStatusDto → ℕ → Action Store EnergyBill
  transition_bill_status as_day bill_id dto admin_id s =
      let found = get_bill_by_id_admin bill_id s in
      elim found.1 [
        | fail e ↦ (s, fail e)
        | ok b ↦ elim (refusal b dto) [
          | some e ↦ (s, fail e)
          | none ↦ get_bill_by_id_admin bill_id (moved as_day b dto admin_id s)
        ]
      ]
