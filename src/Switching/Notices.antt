-- ===== src/Switching/Notices.antt =====
-- The notifications of src/modules/notifications/notification-events.service.ts: an event is
-- announced once for each recipient, under its key (`ON CONFLICT DO NOTHING` on the pair of them).
-- A row is what the model keeps of a notification; the push that follows a new row is not kept.
pub mod Once
use easyrisparmio_backend.Prelude.{
  ℕ, ◌==◌, Bool, true, false, ◌&&◌, Option, none, some, List, [], ◌∷◌, any, if◌then◌else◌,
}
use easyrisparmio_backend.Pipeline.{BillStatus}
use easyrisparmio_backend.Switching.{
  CaseStatus, Milestone, offers_available, contract_ready, in_activation, activated, cancelled, Key,
  milestone_of, verification_requested, verification_submitted, case_submitted, Notice, Store,
}

unfoldable pub customer_milestones : BillStatus → Option Milestone
customer_milestones BillStatus.offer_sent = some offers_available
customer_milestones BillStatus.contract_sent = some contract_ready
customer_milestones BillStatus.awaiting_activation = some in_activation
customer_milestones BillStatus.activated = some activated
customer_milestones BillStatus.cancelled = some cancelled
customer_milestones _ = none

abbrev pub same_milestone : Milestone → Milestone → Bool
same_milestone offers_available offers_available = true
same_milestone contract_ready contract_ready = true
same_milestone in_activation in_activation = true
same_milestone activated activated = true
same_milestone cancelled cancelled = true
same_milestone _ _ = false

abbrev pub same_key : Key → Key → Bool
same_key (milestone_of b m) (milestone_of c n) = b == c && same_milestone m n
same_key (verification_requested i) (verification_requested j) = i == j
same_key (verification_submitted i) (verification_submitted j) = i == j
same_key (case_submitted i) (case_submitted j) = i == j
same_key _ _ = false

abbrev pub is_notice : ℕ → Key → Notice → Bool
is_notice user_id key n = n.user_id == user_id && same_key key n.key

-- `insertIgnoringDuplicates`.
unfoldable pub insert_ignoring_duplicates : List ℕ → Key → List Notice → List Notice
insert_ignoring_duplicates [] key notices = notices
insert_ignoring_duplicates (user_id ∷ user_ids) key notices =
    insert_ignoring_duplicates user_ids key (
      if any (is_notice user_id key) notices
      then notices
      else record { user_id = user_id; key = key } ∷ notices)

-- Whether every `{{...}}` of an event's text resolves for its recipients.
module _ (resolves : List ℕ → Key → Bool) where
  -- A text that does not resolve throws; the callers swallow that.
  unfoldable pub send_notification : List ℕ → Key → Store → Store
  send_notification user_ids key s =
      if resolves user_ids key
      then record s { notices = insert_ignoring_duplicates user_ids key s.notices }
      else s

  unfoldable pub bill_milestone : ℕ → ℕ → BillStatus → Store → Store
  bill_milestone user_id bill_id status s = elim (customer_milestones status) [
    | none ↦ s
    | some m ↦ send_notification (user_id ∷ []) (milestone_of bill_id m) s
  ]

  unfoldable pub document_requested : ℕ → ℕ → Store → Store
  document_requested user_id id s = send_notification (user_id ∷ []) (verification_requested id) s

  unfoldable pub admin_document_submitted : ℕ → Store → Store
  admin_document_submitted id s = send_notification s.recipients (verification_submitted id) s

  unfoldable pub admin_application_submitted : ℕ → Store → Store
  admin_application_submitted id s = send_notification s.recipients (case_submitted id) s

  unfoldable pub offers_sent : ℕ → ℕ → Store → Store
  offers_sent user_id bill_id s =
      send_notification (user_id ∷ []) (milestone_of bill_id offers_available) s
