-- ===== src/Switching/Calls/Writes.antt =====
-- What the writes of each call on bills and cases keep (src/modules/bills/bills.service.ts and
-- `createCase` of src/modules/cases/cases.service.ts).
use easyrisparmio_backend.Prelude.{
  ℕ, ◌+◌, inl, inr, Option, none, some, List, find?, arith, Bool-cases, Option-cases,
}
use easyrisparmio_backend.Pipeline.{BillStatus, same}
use easyrisparmio_backend.Switching.{
  EnergyBill, BillVerification, SwitchCase, Offer, Key, Store, is_case,
}
use easyrisparmio_backend.Switching.Notices.{
  send_notification, customer_milestones, document_requested, admin_document_submitted,
  admin_application_submitted, offers_sent, bill_milestone,
}
use easyrisparmio_backend.Switching.Notices.Once.{AreOnce, send_notification-AreOnce}
use easyrisparmio_backend.Switching.Verifications.{request, submit, close_pending}
use easyrisparmio_backend.Switching.Verifications.Pending.{
  HaveOne, close_pending-HaveOne, request-HaveOne, submit-HaveOne,
}
use easyrisparmio_backend.Switching.Transitions.{
  TransitionBillStatusDto, moved, move_bill, move_case, announce, active_case,
  apply_activation_dates, log_status_change_on_case, text_of,
}
use easyrisparmio_backend.Switching.Transitions.Outcome.{send_notification-rows}
use easyrisparmio_backend.Switching.Acceptance.{CreateCaseDto}
use easyrisparmio_backend.Switching.Opening.{opened_case}
use easyrisparmio_backend.Switching.Proposals.{
  SelectedOffer, send, requested_offers, next_position, unsent,
}
use easyrisparmio_backend.Switching.Proposals.Numbered.{
  AreNumbered, AreNumbered-mono, new_records-AreNumbered,
}
use easyrisparmio_backend.Switching.Proposals.Unique.{
  AreUnique, AreOffers, send-AreUnique, requested_offers_le,
}
use easyrisparmio_backend.Switching.Calls.{World}

pub record AreSound (s : Store) : Type 0 where
  pub pending : HaveOne s.verifications
  pub once : AreOnce s.notices
  pub unique : AreUnique s.sent_offers
  pub offers : AreOffers s.offers
  pub numbered : AreNumbered s.next_id s.sent_offers

-- What the writes of a call keep.
unfoldable pub Keeps : Store → Store → Type 0
Keeps s t = AreSound s → AreSound t

module _ (w : World) where
  -- A notification on top of writes that are sound.
  pub noticed-AreSound :
      (ids : List ℕ) (key : Key) (t : Store)
      → AreSound t
      → AreSound (send_notification w.resolves ids key t)
  noticed-AreSound ids key t h =
      let same = send_notification-rows w.resolves ids key t in
      record {
        pending = rw same.verifications h.pending;
        once = send_notification-AreOnce w.resolves ids key t h.once;
        unique = rw same.sent_offers h.unique;
        offers = rw same.offers h.offers;
        numbered = rw (same.next_id, same.sent_offers) h.numbered;
      }

  pub request-Keeps :
      (b : EnergyBill) (message : List ℕ) (s : Store) → Keeps s (request w.resolves b message s)
  unfolding Keeps request document_requested close_pending
  request-Keeps b message s h = record {
    pending = request-HaveOne w.resolves b message s h.pending;
    once = send_notification-AreOnce w.resolves _ _ _ h.once;
    unique = rw (send_notification-rows w.resolves _ _ _).sent_offers h.unique;
    offers = rw (send_notification-rows w.resolves _ _ _).offers h.offers;
    numbered = rw (send_notification-rows w.resolves _ _ _).next_id (
        rw (send_notification-rows w.resolves _ _ _).sent_offers
          (AreNumbered-mono s.next_id (s.next_id + 1) s.sent_offers (omega arith) h.numbered));
  }

  pub submit-Keeps :
      (b : EnergyBill) (v : BillVerification) (message : Option (List ℕ)) (file_ids : List ℕ)
      (s : Store)
      → Keeps s (submit w.resolves b v message file_ids s)
  unfolding Keeps submit admin_document_submitted
  submit-Keeps b v message file_ids s h = record {
    pending = submit-HaveOne w.resolves b v message file_ids s h.pending;
    once = send_notification-AreOnce w.resolves _ _ _ h.once;
    unique = rw (send_notification-rows w.resolves _ _ _).sent_offers h.unique;
    offers = rw (send_notification-rows w.resolves _ _ _).offers h.offers;
    numbered =
        rw (send_notification-rows w.resolves _ _ _).next_id
          (rw (send_notification-rows w.resolves _ _ _).sent_offers h.numbered);
  }

  pub send-Keeps :
      (b : EnergyBill) (xs : List SelectedOffer) (s : Store)
      → Keeps s (send w.estimate w.resolves b xs (requested_offers xs s) s)
  unfolding Keeps send offers_sent
  send-Keeps b xs s h = record {
    pending = rw (send_notification-rows w.resolves _ _ _).verifications h.pending;
    once = send_notification-AreOnce w.resolves _ _ _ h.once;
    unique =
        send-AreUnique w.estimate w.resolves b xs (requested_offers xs s) s
          (λ id. omega (arith, requested_offers_le xs s id, h.offers id)) h.unique;
    offers = rw (send_notification-rows w.resolves _ _ _).offers h.offers;
    numbered = rw (send_notification-rows w.resolves _ _ _).next_id (
        rw (send_notification-rows w.resolves _ _ _).sent_offers (
          new_records-AreNumbered w.estimate b xs s.now s.next_id (next_position b.id s.sent_offers)
            (unsent b (requested_offers xs s) s) s.sent_offers h.numbered));
  }

  pub opened_case-Keeps :
      (b : EnergyBill) (o : Offer) (user_id : ℕ) (dto : CreateCaseDto) (day : List ℕ) (s : Store)
      → Keeps s (opened_case w.upper_beyond w.names day w.resolves b o user_id dto s)
  unfolding Keeps opened_case admin_application_submitted
  opened_case-Keeps b o user_id dto day s h = noticed-AreSound _ _ _ (record {
    pending = h.pending;
    once = h.once;
    unique = h.unique;
    offers = h.offers;
    numbered = AreNumbered-mono s.next_id (s.next_id + 1) s.sent_offers (omega arith) h.numbered;
  })

  pub move_bill-Keeps :
      (b : EnergyBill) (dto : TransitionBillStatusDto) (s : Store)
      → Keeps s (move_bill w.resolves b dto s)
  unfolding Keeps move_bill close_pending
  move_bill-Keeps b dto s h =
      elim (Bool-cases (same dto.target_status BillStatus.verification_required)) [
        | inl e ↦ rw (e, move_bill) (request-Keeps b (text_of dto.message) s h)
        | inr e ↦
            rw (e, move_bill)
              (record {
                pending = close_pending-HaveOne b.id s h.pending;
                once = h.once;
                unique = h.unique;
                offers = h.offers;
                numbered = h.numbered;
              })
      ]

  pub move_case-Keeps :
      (o : Option SwitchCase) (b : EnergyBill) (dto : TransitionBillStatusDto) (admin_id : ℕ)
      (s : Store)
      → Keeps s (move_case w.as_day o b dto admin_id s)
  unfolding Keeps move_case apply_activation_dates log_status_change_on_case
  move_case-Keeps none b dto admin_id s h = h
  move_case-Keeps (some c) b dto admin_id s h = elim (Option-cases (find? (is_case c.id) s.cases)) [
    | inl e ↦
        rw (e, apply_activation_dates)
          (record {
            pending = h.pending;
            once = h.once;
            unique = h.unique;
            offers = h.offers;
            numbered = h.numbered;
          })
    | inr (d, e) ↦
        rw (e, apply_activation_dates)
          (record {
            pending = h.pending;
            once = h.once;
            unique = h.unique;
            offers = h.offers;
            numbered = h.numbered;
          })
  ]

  pub moved-Keeps :
      (b : EnergyBill) (dto : TransitionBillStatusDto) (admin_id : ℕ) (s : Store)
      → Keeps s (moved w.resolves w.as_day b dto admin_id s)
  unfolding Keeps moved announce bill_milestone
  moved-Keeps b dto admin_id s h =
      let t =
        move_case w.as_day (active_case b.id s) b dto admin_id (move_bill w.resolves b dto s) in
      let kept =
        move_case-Keeps (active_case b.id s) b dto admin_id (move_bill w.resolves b dto s)
          (move_bill-Keeps b dto s h) in
      elim (Bool-cases (same dto.target_status BillStatus.verification_required)) [
        | inl e ↦ rw (e, announce) kept
        | inr e ↦ elim (Option-cases (customer_milestones dto.target_status)) [
          | inl f ↦ rw (e, f, announce, bill_milestone) kept
          | inr (m, f) ↦ rw (e, f, announce, bill_milestone) (noticed-AreSound _ _ t kept)
        ]
      ]
