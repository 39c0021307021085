-- ===== src/Switching/Calls.antt =====
-- The calls on bills and cases, in any order, and what they keep: src/modules/bills/bills.service.ts
-- and `createCase` of src/modules/cases/cases.service.ts. Time passes between the calls.
pub mod Writes
pub mod Sound
use easyrisparmio_backend.Prelude.{
  ℕ, ◌+◌, ◌≤◌, ◌==◌, ◌≡◌, refl, sym, ap, ◌∙◌, inl, inr, Bool, true, false, ◌&&◌, Option, none, some,
  List, [], ◌∷◌, find?, arith, Bool-cases, Option-cases,
}
use easyrisparmio_backend.Http.{ok, Result-cases}
use easyrisparmio_backend.Pipeline.{BillStatus, same}
use easyrisparmio_backend.Switching.{
  EnergyBill, BillVerification, SwitchCase, Offer, Key, Store, is_bill, get_bill_by_id_admin,
  get_bill_by_id, latest, is_case, holds_id,
}
use easyrisparmio_backend.Switching.Notices.{
  send_notification, customer_milestones, document_requested, admin_document_submitted,
  admin_application_submitted, offers_sent, bill_milestone,
}
use easyrisparmio_backend.Switching.Notices.Once.{
  AreOnce, send_notification-AreOnce, bill_milestone-AreOnce,
}
use easyrisparmio_backend.Switching.Verifications.{
  request_verification, submit_verification, request, submit, close_pending, is_request_of,
}
use easyrisparmio_backend.Switching.Verifications.Pending.{
  HaveOne, close_pending-HaveOne, request-HaveOne, submit-HaveOne,
}
use easyrisparmio_backend.Switching.Transitions.{
  TransitionBillStatusDto, transition_bill_status, refusal, moved, move_bill, move_case, announce,
  active_case, apply_activation_dates, log_status_change_on_case, text_of,
}
use easyrisparmio_backend.Switching.Transitions.Outcome.{send_notification-rows, announce-rows}
use easyrisparmio_backend.Switching.Acceptance.{CreateCaseDto, admitted}
use easyrisparmio_backend.Switching.Opening.{create_case, opened_case}
use easyrisparmio_backend.Switching.Reordering.{reorder_sent_offers}
use easyrisparmio_backend.Switching.Proposals.{
  SelectedOffer, send_offers_to_user, send, sendable, requested_offers,
}
use easyrisparmio_backend.Switching.Proposals.Unique.{
  AreUnique, AreOffers, send-AreUnique, requested_offers_le,
}

-- What the calls use of the platform around them.
pub record World : Type 0 where
  pub upper_beyond : ℕ → List ℕ
  pub names : List ℕ → List ℕ → Bool
  pub day_of : ℕ → List ℕ
  pub as_day : ℕ → ℕ
  pub resolves : List ℕ → Key → Bool
  pub estimate : EnergyBill → Offer → ℕ

pub data Call : Type 0 where
  transition : (bill_id : ℕ) → TransitionBillStatusDto → (admin_id : ℕ) → Call
  ask : (bill_id : ℕ) → (message : List ℕ) → Call
  answer : (bill_id user_id : ℕ) → (message : Option (List ℕ)) → (file_ids : List ℕ) → Call
  propose : (bill_id : ℕ) → List SelectedOffer → Call
  reorder : (bill_id : ℕ) → (offer_ids : List ℕ) → Call
  accept : (user_id : ℕ) → CreateCaseDto → Call
  wait : (milliseconds : ℕ) → Call

unfoldable pub serve : World → Call → Store → Store
serve w (transition bill_id dto admin_id) s =
    (transition_bill_status w.resolves w.as_day bill_id dto admin_id s).0
serve w (ask bill_id message) s = (request_verification w.resolves bill_id message s).0
serve w (answer bill_id user_id message file_ids) s =
    (submit_verification w.resolves bill_id user_id message file_ids s).0
serve w (propose bill_id xs) s = (send_offers_to_user w.estimate w.resolves bill_id xs s).0
serve w (reorder bill_id ids) s = (reorder_sent_offers bill_id ids s).0
serve w (accept user_id dto) s =
    (create_case w.upper_beyond w.names (w.day_of s.now) w.resolves user_id dto s).0
serve w (wait t) s = record s { now = s.now + t }

unfoldable pub serve_all : World → List Call → Store → Store
serve_all w [] s = s
serve_all w (c ∷ cs) s = serve_all w cs (serve w c s)
