-- ===== src/Switching/Transitions/Mirror.antt =====
-- What `transitionBillStatus` of src/modules/bills/bills.service.ts leaves on the bill's newest case.
use easyrisparmio_backend.Prelude.{
  ℕ, ◌≤◌, ◌≡◌, refl, sym, ◌∙◌, inl, inr, Bool, true, ◌&&◌, none, some, List, leb, find?, arith,
  Bool-cases, Option-cases,
}
use easyrisparmio_backend.Pipeline.{BillStatus, same}
use easyrisparmio_backend.Switching.{
  CaseStatus, EnergyBill, SwitchCase, Key, Store, is_case, update_where, is_case_of,
}
use easyrisparmio_backend.Switching.Notices.{document_requested}
use easyrisparmio_backend.Switching.Verifications.{request, close_pending}
use easyrisparmio_backend.Switching.Transitions.{
  TransitionBillStatusDto, refusal, moved, move_bill, move_case, mirrored, mirror, with_dates,
  same_case, assert_activation_dates, lacks_text, is_live, apply_activation_dates,
  log_status_change_on_case, active_case, case_status_by_bill_status,
}
use easyrisparmio_backend.Switching.Transitions.Outcome.{announce-rows, send_notification-rows}
use easyrisparmio_backend.Switching.Tables.{find?-update_where, IsKey, latest-key}

move_bill-cases :
    (resolves : List ℕ → Key → Bool) (b : EnergyBill) (dto : TransitionBillStatusDto) (s : Store)
    → (move_bill resolves b dto s).cases ≡ s.cases
unfolding move_bill request document_requested close_pending
move_bill-cases resolves b dto s =
    elim (Bool-cases (same dto.target_status BillStatus.verification_required)) [
      | inl e ↦ rw (e, move_bill) (send_notification-rows resolves _ _ _).cases
      | inr e ↦ rw (e, move_bill) refl
    ]

-- What the two writes keep of a case.
with_dates-kept :
    (as_day : ℕ → ℕ) (status : BillStatus) (dto : TransitionBillStatusDto) (now : ℕ)
    (c : SwitchCase)
    → let d = with_dates as_day status dto now c in (d.id ≡ c.id) × (d.status ≡ c.status)
unfolding with_dates
with_dates-kept as_day status dto now c = elim (Bool-cases (is_live status)) [
  | inl e ↦ rw (e, with_dates) (refl, refl)
  | inr e ↦ rw (e, with_dates) (refl, refl)
]

same_case-eq : (a b : CaseStatus) → same_case a b ≡ true → a ≡ b
same_case-eq CaseStatus.opened b h = ground arith
same_case-eq _ b h = ground arith

mirror-id : (to : BillStatus) (old : CaseStatus) (c : SwitchCase) → (mirror to old c).id ≡ c.id
mirror-id to old c = elim (Option-cases (case_status_by_bill_status to)) [
  | inl e ↦ rw (e, mirror) refl
  | inr (new, e) ↦ elim (Bool-cases (same_case new old)) [
    | inl f ↦ rw (e, f, mirror) refl
    | inr f ↦ rw (e, f, mirror) refl
  ]
]

-- The dates that a case has in a pipeline status: both in activation, the activation not after the
-- expiry, and none outside a live supply.
abbrev pub DatesFit : BillStatus → SwitchCase → Type 0
DatesFit BillStatus.awaiting_activation d =
    (from : ℕ) × (to : ℕ) × ((d.activation_date ≡ some from)
      × ((d.expiry_date ≡ some to) × (from ≤ to)))
DatesFit BillStatus.activated d = Unit
DatesFit _ d = (d.activation_date ≡ none) × (d.expiry_date ≡ none)

record_status-DatesFit :
    (status : BillStatus) (new : CaseStatus) (c : SwitchCase)
    → DatesFit status c
    → DatesFit status (record c { status = new })
record_status-DatesFit BillStatus.awaiting_activation new c h = h
record_status-DatesFit _ new c h = h

-- Where the status is the one that was read, the case gets the mirrored status and keeps its dates.
mirror-mirrored :
    (to : BillStatus) (old : CaseStatus) (c : SwitchCase)
    → c.status ≡ old
    → DatesFit to c
    → ((mirror to old c).status ≡ mirrored to old) × DatesFit to (mirror to old c)
mirror-mirrored to old c h fit = elim (Option-cases (case_status_by_bill_status to)) [
  | inl e ↦ rw (e, mirror, mirrored) (h, fit)
  | inr (new, e) ↦ elim (Bool-cases (same_case new old)) [
    | inl f ↦ rw (e, f, mirror, mirrored) (h ∙ sym (same_case-eq new old f), fit)
    | inr f ↦ rw (e, f, mirror, mirrored) (refl, record_status-DatesFit to new c fit)
  ]
]

move_case-found :
    (as_day : ℕ → ℕ) (c : SwitchCase) (b : EnergyBill) (dto : TransitionBillStatusDto)
    (admin_id : ℕ) (s : Store)
    → find? (is_case c.id) s.cases ≡ some c
    → find? (is_case c.id) (move_case as_day (some c) b dto admin_id s).cases
      ≡ some (mirror dto.target_status c.status (with_dates as_day dto.target_status dto s.now c))
unfolding move_case apply_activation_dates log_status_change_on_case with_dates
move_case-found as_day c b dto admin_id s e =
    let status = dto.target_status in
    let d = with_dates as_day status dto s.now c in
    let kept = with_dates-kept as_day status dto s.now c in
    let first : find? (is_case c.id) (update_where (is_case d.id) (λ old. d) s.cases) ≡ some d =
      rw kept.0
        (find?-update_where (is_case c.id) (λ old. d) s.cases c e (rw kept.0 (ground arith))) in
    rw (apply_activation_dates, e)
      (find?-update_where (is_case c.id) (mirror status c.status) _ d first
        (rw (mirror-id status c.status d, kept.0) (ground arith)))

module _ (as_day : ℕ → ℕ) (ordered : (a b : ℕ) → a ≤ b → as_day a ≤ as_day b) where
  with_dates-DatesFit :
      (status : BillStatus) (dto : TransitionBillStatusDto) (now : ℕ) (c : SwitchCase)
      → assert_activation_dates status dto ≡ none
      → DatesFit status (with_dates as_day status dto now c)
  unfolding with_dates assert_activation_dates
  with_dates-DatesFit BillStatus.awaiting_activation dto now c h =
      elim (Option-cases dto.activation_date) [
        | inl e ↦ absurd (cc (rw e at h))
        | inr (a, e) ↦ elim (Option-cases dto.expiry_date) [
          | inl f ↦ absurd (cc (rw (e, f) at h))
          | inr (b, f) ↦
              let before : a ≤ b = elim (Bool-cases (leb b a)) [
                | inl g ↦ absurd (cc (rw (e, f, g) at h))
                | inr g ↦ ground arith
              ] in
              (as_day a, as_day b, (rw e refl, (rw f refl, ordered a b before)))
        ]
      ]
  with_dates-DatesFit BillStatus.activated dto now c h = tt
  with_dates-DatesFit _ dto now c h = (refl, refl)

  refusal-dates :
      (b : EnergyBill) (dto : TransitionBillStatusDto)
      → refusal b dto ≡ none
      → assert_activation_dates dto.target_status dto ≡ none
  unfolding refusal
  refusal-dates b dto h = elim (Bool-cases (same b.status dto.target_status)) [
    | inl e ↦ absurd (cc (rw (e, refusal) at h))
    | inr e ↦
        elim (Bool-cases
          (same dto.target_status BillStatus.verification_required && lacks_text dto.message)) [
            | inl f ↦ absurd (cc (rw (e, f, refusal) at h))
            | inr f ↦ rw (e, f, refusal) at h
          ]
  ]

  moved-found :
      (resolves : List ℕ → Key → Bool) (b : EnergyBill) (dto : TransitionBillStatusDto)
      (admin_id : ℕ) (s : Store) (c : SwitchCase)
      → IsKey (λ d. d.id) s.cases
      → active_case b.id s ≡ some c
      → find? (is_case c.id) (moved resolves as_day b dto admin_id s).cases
        ≡ some (
            mirror dto.target_status c.status
              (with_dates as_day dto.target_status dto (move_bill resolves b dto s).now c))
  unfolding moved
  moved-found resolves b dto admin_id s c keys e =
      let found : find? (is_case c.id) (move_bill resolves b dto s).cases ≡ some c =
        rw (move_bill-cases resolves b dto s)
          (latest-key (λ d. d.id) (λ d. d.created_at) (is_case_of b.id) s.cases c keys e) in
      rw e (
        rw
          (announce-rows resolves b dto.target_status
            (move_case as_day (some c) b dto admin_id (move_bill resolves b dto s))).cases
          (move_case-found as_day c b dto admin_id (move_bill resolves b dto s) found))

  -- A move that is not refused leaves the bill's newest case mirroring the new status, where ids are
  -- keys of the cases: its status is the one that the map gives (or the old one, for `error`), it has
  -- no dates unless the supply is live, and in activation it has both, the activation not after the
  -- expiry, provided the conversion of instants to days keeps their order.
  pub moved-mirrored :
      (resolves : List ℕ → Key → Bool) (b : EnergyBill) (dto : TransitionBillStatusDto)
      (admin_id : ℕ) (s : Store) (c : SwitchCase)
      → IsKey (λ d. d.id) s.cases
      → active_case b.id s ≡ some c
      → refusal b dto ≡ none
      → (d : SwitchCase) × ((find? (is_case c.id) (moved resolves as_day b dto admin_id s).cases
            ≡ some d)
          × ((d.status ≡ mirrored dto.target_status c.status) × DatesFit dto.target_status d))
  moved-mirrored resolves b dto admin_id s c keys e allowed =
      let now = (move_bill resolves b dto s).now in
      let d = with_dates as_day dto.target_status dto now c in
      let kept = with_dates-kept as_day dto.target_status dto now c in
      let fit = with_dates-DatesFit dto.target_status dto now c (refusal-dates b dto allowed) in
      (
        mirror dto.target_status c.status d,
        (
          moved-found resolves b dto admin_id s c keys e,
          mirror-mirrored dto.target_status c.status d kept.1 fit,
        ),
      )
