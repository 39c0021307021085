-- ===== src/Switching/Transitions/Outcome.antt =====
-- What `transitionBillStatus` of src/modules/bills/bills.service.ts answers and leaves on the bill.
use easyrisparmio_backend.Prelude.{
  ℕ, ◌≡◌, refl, ◌∙◌, inl, inr, Bool, true, false, Option, none, some, List, find?, arith,
  Bool-cases, Option-cases,
}
use easyrisparmio_backend.Http.{ok, fail}
use easyrisparmio_backend.Pipeline.{BillStatus, same}
use easyrisparmio_backend.Switching.{
  EnergyBill, SwitchCase, Key, Notice, Store, is_bill, get_bill_by_id_admin, set_bill_status,
  is_case, update_where,
}
use easyrisparmio_backend.Switching.Notices.{
  send_notification, bill_milestone, customer_milestones, document_requested,
}
use easyrisparmio_backend.Switching.Verifications.{request, stamp_status, close_pending}
use easyrisparmio_backend.Switching.Transitions.{
  TransitionBillStatusDto, transition_bill_status, refusal, moved, move_bill, move_case, announce,
  apply_activation_dates, log_status_change_on_case, active_case, text_of,
}
use easyrisparmio_backend.Switching.Tables.{find?-update_where, find?-holds}

-- What a notification keeps.
pub record Untouched (s t : Store) : Type 0 where
  pub bills : t.bills ≡ s.bills
  pub cases : t.cases ≡ s.cases
  pub verifications : t.verifications ≡ s.verifications
  pub sent_offers : t.sent_offers ≡ s.sent_offers
  pub offers : t.offers ≡ s.offers
  pub next_id : t.next_id ≡ s.next_id

untouched : (s : Store) (notices : List Notice) → Untouched s (record s { notices = notices })
untouched s notices = record {
  bills = refl;
  cases = refl;
  verifications = refl;
  sent_offers = refl;
  offers = refl;
  next_id = refl;
}

pub send_notification-rows :
    (resolves : List ℕ → Key → Bool) (ids : List ℕ) (key : Key) (s : Store)
    → Untouched s (send_notification resolves ids key s)
unfolding send_notification
send_notification-rows resolves ids key s = elim (Bool-cases (resolves ids key)) [
  | inl e ↦ rw (e, send_notification) (untouched s _)
  | inr e ↦ rw (e, send_notification) (untouched s _)
]

-- A notification touches nothing but the notifications.
pub announce-rows :
    (resolves : List ℕ → Key → Bool) (b : EnergyBill) (status : BillStatus) (s : Store)
    → Untouched s (announce resolves b status s)
unfolding announce bill_milestone
announce-rows resolves b status s =
    elim (Bool-cases (same status BillStatus.verification_required)) [
      | inl e ↦ rw (e, announce) (untouched s s.notices)
      | inr e ↦ elim (Option-cases (customer_milestones status)) [
        | inl f ↦ rw (e, announce, f, bill_milestone) (untouched s s.notices)
        | inr (m, f) ↦ rw (e, announce, f, bill_milestone) (send_notification-rows resolves _ _ s)
      ]
    ]

move_case-bills :
    (as_day : ℕ → ℕ) (o : Option SwitchCase) (b : EnergyBill) (dto : TransitionBillStatusDto)
    (admin_id : ℕ) (s : Store)
    → (move_case as_day o b dto admin_id s).bills ≡ s.bills
unfolding move_case apply_activation_dates log_status_change_on_case
move_case-bills as_day none b dto admin_id s = refl
move_case-bills as_day (some c) b dto admin_id s =
    elim (Option-cases (find? (is_case c.id) s.cases)) [
      | inl e ↦ rw (e, apply_activation_dates) refl
      | inr (d, e) ↦ rw (e, apply_activation_dates) refl
    ]

request-bills :
    (resolves : List ℕ → Key → Bool) (b : EnergyBill) (message : List ℕ) (s : Store)
    → (request resolves b message s).bills
      ≡ update_where (is_bill b.id) (stamp_status BillStatus.verification_required s.now) s.bills
unfolding request document_requested close_pending
request-bills resolves b message s = (send_notification-rows resolves _ _ _).bills

set_bill_status-stamp :
    (status : BillStatus) (now : ℕ) (b : EnergyBill)
    → same b.status status ≡ false
    → set_bill_status status now b ≡ stamp_status status now b
unfolding set_bill_status
set_bill_status-stamp status now b h = rw h refl

is_required :
    (t : BillStatus)
    → same t BillStatus.verification_required ≡ true
    → t ≡ BillStatus.verification_required
is_required BillStatus.verification_required h = refl
is_required _ h = cc

module _ (resolves : List ℕ → Key → Bool) (b : EnergyBill) (dto : TransitionBillStatusDto)
    (s : Store) where
  move_bill-found :
      find? (is_bill b.id) s.bills ≡ some b
      → same b.status dto.target_status ≡ false
      → find? (is_bill b.id) (move_bill resolves b dto s).bills
        ≡ some (stamp_status dto.target_status s.now b)
  unfolding move_bill close_pending
  move_bill-found e moves =
      let own : is_bill b.id b ≡ true = ground arith in
      elim (Bool-cases (same dto.target_status BillStatus.verification_required)) [
        | inl v ↦
            let target : dto.target_status ≡ BillStatus.verification_required =
              is_required dto.target_status v in
            rw (v, move_bill, request-bills resolves b (text_of dto.message) s, target)
              (find?-update_where (is_bill b.id)
                (stamp_status BillStatus.verification_required s.now) s.bills b e own)
        | inr v ↦
            rw (v, move_bill, set_bill_status-stamp dto.target_status s.now b moves)
              (find?-update_where (is_bill b.id) (λ old. stamp_status dto.target_status s.now b)
                s.bills b e own)
      ]

refusal-moves :
    (b : EnergyBill) (dto : TransitionBillStatusDto)
    → refusal b dto ≡ none
    → same b.status dto.target_status ≡ false
unfolding refusal
refusal-moves b dto f = elim (Bool-cases (same b.status dto.target_status)) [
  | inr e ↦ e
  | inl e ↦ absurd (cc (rw (e, refusal) at f))
]

-- No step after it touches the bill.
pub moved-bills :
    (resolves : List ℕ → Key → Bool) (as_day : ℕ → ℕ) (b : EnergyBill)
    (dto : TransitionBillStatusDto) (admin_id : ℕ) (s : Store)
    → (moved resolves as_day b dto admin_id s).bills ≡ (move_bill resolves b dto s).bills
unfolding moved
moved-bills resolves as_day b dto admin_id s =
    (announce-rows resolves b dto.target_status _).bills
    ∙ move_case-bills as_day (active_case b.id s) b dto admin_id (move_bill resolves b dto s)

-- The admin's move of a bill is refused with nothing written, for the first reason that `refusal`
-- gives, or it leaves the bill in the status asked for, stamped with the time of the call, and
-- answers with that bill; no other error can come of it.
pub transition_bill_status_lem :
    (resolves : List ℕ → Key → Bool) (as_day : ℕ → ℕ) (bill_id : ℕ) (dto : TransitionBillStatusDto)
    (admin_id : ℕ) (s : Store) (b : EnergyBill)
    → find? (is_bill bill_id) s.bills ≡ some b
    → transition_bill_status resolves as_day bill_id dto admin_id s ≡ elim (refusal b dto) [
      | some e ↦ (s, fail e)
      | none ↦ (moved resolves as_day b dto admin_id s, ok (stamp_status dto.target_status s.now b))
    ]
unfolding transition_bill_status get_bill_by_id_admin
transition_bill_status_lem resolves as_day bill_id dto admin_id s b e =
    elim (Option-cases (refusal b dto)) [
      | inr (x, f) ↦ rw (e, f, transition_bill_status, get_bill_by_id_admin) refl
      | inl f ↦
          let id : bill_id ≡ b.id = ground (arith, find?-holds (is_bill bill_id) s.bills b e) in
          let own : find? (is_bill b.id) s.bills ≡ some b = rw id at e in
          let found : find? (is_bill bill_id) (moved resolves as_day b dto admin_id s).bills
              ≡ some (stamp_status dto.target_status s.now b) =
            rw (id, moved-bills resolves as_day b dto admin_id s)
              (move_bill-found resolves b dto s own (refusal-moves b dto f)) in
          rw (e, f, found, transition_bill_status, get_bill_by_id_admin) refl
    ]
