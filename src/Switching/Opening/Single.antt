-- ===== src/Switching/Opening/Single.antt =====
-- A bill that is accepted had no open case and gets one (`createCase` of
-- src/modules/cases/cases.service.ts).
use mathlib.Core.Path.{subst}
use easyrisparmio_backend.Prelude.{
  ℕ, ◌+◌, ◌==◌, ◌≡◌, refl, sym, ◌∙◌, inl, inr, Bool, true, Option, none, some, List, find?, arith,
  Bool-cases, Option-cases,
}
use easyrisparmio_backend.Http.{Result, ok, fail, Result-cases}
use easyrisparmio_backend.Pipeline.{BillStatus}
use easyrisparmio_backend.Switching.{
  EnergyBill, SwitchCase, SentOffer, Offer, Key, Store, is_bill, update_where,
}
use easyrisparmio_backend.Switching.Counts.{count, bit, find?-count}
use easyrisparmio_backend.Switching.Tables.{find?-update_where, find?-holds}
use easyrisparmio_backend.Switching.Notices.{admin_application_submitted}
use easyrisparmio_backend.Switching.Acceptance.{
  CreateCaseDto, admitted, acceptable, is_open_case_of, is_offer, is_closed, was_proposed,
  has_leaving_supplier, is_payment_method_accepted_by, read, has_direct_debit_details,
}
use easyrisparmio_backend.Switching.Opening.{
  create_case, opened_case, new_case, accepted_bill, apply_delivery_point_correction,
}
use easyrisparmio_backend.Cases.Columns.{detail, payment_method}
use easyrisparmio_backend.Switching.Transitions.Outcome.{send_notification-rows}

-- What an accepted request found, and what it leaves: one open case more, the bill's only one.
pub record Opens (dto : CreateCaseDto) (user_id : ℕ) (s t : Store) (c : SwitchCase) : Type 0 where
  pub first : count (is_open_case_of dto.bill_id) s.cases ≡ 0
  pub only :
      (k : ℕ)
      → count (is_open_case_of k) t.cases
        ≡ bit (dto.bill_id == k) + count (is_open_case_of k) s.cases
  pub proposed :
      (row : SentOffer) × (find? (was_proposed dto.bill_id dto.selected_offer_id) s.sent_offers
        ≡ some row)
  pub debitable : has_direct_debit_details dto.columns ≡ true
  pub offer : c.selected_offer_id ≡ dto.selected_offer_id
  pub accepted :
      (b : EnergyBill) × ((find? (is_bill dto.bill_id) t.bills ≡ some b)
        × ((b.status ≡ BillStatus.offer_accepted) × (b.status_changed_at ≡ some s.now)))

-- What the checks found.
record Admits (dto : CreateCaseDto) (s : Store) : Type 0 where
  first : find? (is_open_case_of dto.bill_id) s.cases ≡ none
  proposed :
      (row : SentOffer) × (find? (was_proposed dto.bill_id dto.selected_offer_id) s.sent_offers
        ≡ some row)
  debitable : has_direct_debit_details dto.columns ≡ true

acceptable-proposed :
    (o p : Offer) (dto : CreateCaseDto) (s : Store)
    → acceptable o dto s ≡ ok p
    → (has_direct_debit_details dto.columns ≡ true)
      × ((row : SentOffer) × (find? (was_proposed dto.bill_id dto.selected_offer_id) s.sent_offers
            ≡ some row))
unfolding acceptable
acceptable-proposed o p dto s h = elim (Bool-cases (has_leaving_supplier o s)) [
  | inl e ↦ absurd (cc (rw (e, acceptable) at h))
  | inr e ↦
      elim (Bool-cases
        (is_payment_method_accepted_by o (read dto.columns (detail payment_method)))) [
          | inr f ↦ absurd (cc (rw (e, f, acceptable) at h))
          | inl f ↦ elim (Bool-cases (has_direct_debit_details dto.columns)) [
            | inr g ↦ absurd (cc (rw (e, f, g, acceptable) at h))
            | inl g ↦
                elim (Option-cases
                  (find? (was_proposed dto.bill_id dto.selected_offer_id) s.sent_offers)) [
                    | inl k ↦ absurd (cc (rw (e, f, g, k, acceptable) at h))
                    | inr found ↦ (g, found)
                  ]
          ]
        ]
]

admitted-Admits :
    (b : EnergyBill) (o : Offer) (user_id : ℕ) (dto : CreateCaseDto) (s : Store)
    → admitted b user_id dto s ≡ ok o
    → Admits dto s
unfolding admitted
admitted-Admits b o user_id dto s h = elim (Bool-cases (b.user_id == user_id)) [
  | inr e ↦ absurd (cc (rw (e, admitted) at h))
  | inl e ↦ elim (Option-cases (find? (is_open_case_of dto.bill_id) s.cases)) [
    | inr (c, f) ↦ absurd (cc (rw (e, f, admitted) at h))
    | inl f ↦ elim (Option-cases (find? (is_offer dto.selected_offer_id) s.offers)) [
      | inl g ↦ absurd (cc (rw (e, f, g, admitted) at h))
      | inr (p, g) ↦
          let (debit, row) = acceptable-proposed p o dto s (rw (e, f, g, admitted) at h) in
          record { first = f; proposed = row; debitable = debit }
    ]
  ]
]

-- The corrections keep the bill's id.
accepted_bill-id :
    (point : Option (List ℕ)) (b : EnergyBill) → (apply_delivery_point_correction point b).id ≡ b.id
unfolding apply_delivery_point_correction
accepted_bill-id point b = ground arith

-- A saved bill is found under its id.
save_bill-found :
    (id : ℕ) (old new : EnergyBill) (bills : List EnergyBill)
    → find? (is_bill id) bills ≡ some old
    → new.id ≡ id
    → find? (is_bill id) (update_where (is_bill new.id) (λ row. new) bills) ≡ some new
save_bill-found id old new bills e h =
    subst (λ i. find? (is_bill id) (update_where (is_bill i) (λ row. new) bills) ≡ some new) (sym h)
      (find?-update_where (is_bill id) (λ row. new) bills old e (ground arith))

module _ (upper_beyond : ℕ → List ℕ) (names : List ℕ → List ℕ → Bool) (day : List ℕ)
    (resolves : List ℕ → Key → Bool) (user_id : ℕ) (dto : CreateCaseDto) (s : Store) where
  opened_case-Opens :
      (b : EnergyBill) (o : Offer)
      → find? (is_bill dto.bill_id) s.bills ≡ some b
      → Admits dto s
      → Opens dto user_id s
          (opened_case upper_beyond names day resolves b o user_id dto s)
          (new_case upper_beyond names day b o user_id dto s)
  unfolding opened_case admin_application_submitted new_case is_closed
  opened_case-Opens b o e h = record {
    first = find?-count (is_open_case_of dto.bill_id) s.cases h.first;
    only = λ k. rw (send_notification-rows resolves _ _ _).cases (ground arith);
    proposed = h.proposed;
    debitable = h.debitable;
    offer = refl;
    accepted =
        let kept = accepted_bill names b dto s in
        let own = accepted_bill-id dto.pod_number b in
        let key : b.id ≡ dto.bill_id =
          ground (arith, find?-holds (is_bill dto.bill_id) s.bills b e) in
        (
          kept,
          (
            rw (send_notification-rows resolves _ _ _).bills
                (save_bill-found dto.bill_id b kept s.bills e (own ∙ key)),
            (refl, refl),
          ),
        );
  }

  -- The two ends of a request.
  abbrev pub Settles : Store → Result SwitchCase → Type 0
  Settles t (ok c) = Opens dto user_id s t c
  Settles t (fail e) = t ≡ s

  -- An accepted request to switch found no open case of its bill, an offer that was proposed for the
  -- bill, and the details of a direct debit where one was asked for; it leaves one more open case on that
  -- bill and none on any other, so the bill's only one, on the offer asked for, and the bill
  -- accepted and stamped. A refused request writes nothing.
  pub create_case-Settles :
      let r = create_case upper_beyond names day resolves user_id dto s in Settles r.0 r.1
  unfolding create_case
  create_case-Settles = elim (Option-cases (find? (is_bill dto.bill_id) s.bills)) [
    | inl e ↦ rw (e, create_case) refl
    | inr (b, e) ↦ elim (Result-cases (admitted b user_id dto s)) [
      | inr (x, f) ↦ rw (e, f, create_case) refl
      | inl (o, f) ↦
          rw (e, f, create_case) (opened_case-Opens b o e (admitted-Admits b o user_id dto s f))
    ]
  ]
