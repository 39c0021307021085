-- ===== src/Switching/Calls/Sound.antt =====
-- What the calls on bills and cases keep: src/modules/bills/bills.service.ts and `createCase` of
-- src/modules/cases/cases.service.ts.
use easyrisparmio_backend.Prelude.{
  ℕ, ◌==◌, ◌≡◌, refl, inl, inr, Option, List, [], ◌∷◌, find?, arith, Bool-cases, Option-cases,
  filter,
}
use easyrisparmio_backend.Http.{ok, Result-cases}
use easyrisparmio_backend.Switching.{
  EnergyBill, Offer, Store, is_bill, get_bill_by_id_admin, get_bill_by_id, latest,
}
use easyrisparmio_backend.Switching.Verifications.{
  request_verification, submit_verification, submit, is_request_of,
}
use easyrisparmio_backend.Switching.Transitions.{
  TransitionBillStatusDto, transition_bill_status, refusal, moved,
}
use easyrisparmio_backend.Switching.Acceptance.{CreateCaseDto, admitted}
use easyrisparmio_backend.Switching.Opening.{create_case}
use easyrisparmio_backend.Switching.Reordering.{reorder_sent_offers, reorder_refusal, reordered}
use easyrisparmio_backend.Switching.Reordering.Unique.{
  reorder_sent_offers-AreUnique, reordered-AreNumbered,
}
use easyrisparmio_backend.Switching.Proposals.{is_sent_for}
use easyrisparmio_backend.Switching.Proposals.{
  SelectedOffer, send_offers_to_user, sendable, requested_offers,
}
use easyrisparmio_backend.Switching.Calls.{
  World, Call, transition, ask, answer, propose, reorder, accept, wait, serve, serve_all,
}
use easyrisparmio_backend.Switching.Calls.Writes.{
  AreSound, Keeps, request-Keeps, submit-Keeps, send-Keeps, opened_case-Keeps, moved-Keeps,
}

get_bill_by_id_admin-store : (id : ℕ) (s : Store) → (get_bill_by_id_admin id s).0 ≡ s
unfolding get_bill_by_id_admin
get_bill_by_id_admin-store id s = elim (Option-cases (find? (is_bill id) s.bills)) [
  | inl e ↦ rw (e, get_bill_by_id_admin) refl
  | inr (b, e) ↦ rw (e, get_bill_by_id_admin) refl
]

get_bill_by_id-store : (id user_id : ℕ) (s : Store) → (get_bill_by_id id user_id s).0 ≡ s
unfolding get_bill_by_id
get_bill_by_id-store id user_id s = elim (Option-cases (find? (is_bill id) s.bills)) [
  | inl e ↦ rw (e, get_bill_by_id) refl
  | inr (b, e) ↦ elim (Bool-cases (b.user_id == user_id)) [
    | inl f ↦ rw (e, f, get_bill_by_id) refl
    | inr f ↦ rw (e, f, get_bill_by_id) refl
  ]
]

module _ (w : World) where
  transition-Keeps :
      (bill_id : ℕ) (dto : TransitionBillStatusDto) (admin_id : ℕ) (s : Store)
      → Keeps s (transition_bill_status w.resolves w.as_day bill_id dto admin_id s).0
  unfolding Keeps transition_bill_status get_bill_by_id_admin
  transition-Keeps bill_id dto admin_id s h =
      elim (Option-cases (find? (is_bill bill_id) s.bills)) [
        | inl e ↦ rw (e, transition_bill_status, get_bill_by_id_admin) h
        | inr (b, e) ↦ elim (Option-cases (refusal b dto)) [
          | inr (x, f) ↦ rw (e, f, transition_bill_status, get_bill_by_id_admin) h
          | inl f ↦
              rw (e, f, transition_bill_status, get_bill_by_id_admin)
                (rw
                  (get_bill_by_id_admin-store bill_id (moved w.resolves w.as_day b dto admin_id s))
                  (moved-Keeps w b dto admin_id s h))
        ]
      ]

  ask-Keeps :
      (bill_id : ℕ) (message : List ℕ) (s : Store)
      → Keeps s (request_verification w.resolves bill_id message s).0
  unfolding Keeps request_verification get_bill_by_id_admin
  ask-Keeps bill_id message s h = elim (Option-cases (find? (is_bill bill_id) s.bills)) [
    | inl e ↦ rw (e, request_verification, get_bill_by_id_admin) h
    | inr (b, e) ↦
        rw (e, request_verification, get_bill_by_id_admin) (request-Keeps w b message s h)
  ]

  answer-Keeps :
      (bill_id user_id : ℕ) (message : Option (List ℕ)) (file_ids : List ℕ) (s : Store)
      → Keeps s (submit_verification w.resolves bill_id user_id message file_ids s).0
  unfolding Keeps submit_verification
  answer-Keeps bill_id user_id message file_ids s h =
      let found = get_bill_by_id bill_id user_id s in
      elim (Result-cases found.1) [
        | inr (x, e) ↦ rw (e, submit_verification) h
        | inl (b, e) ↦
            elim (Option-cases
              (latest (λ v. v.created_at) (is_request_of bill_id) s.verifications)) [
                | inl f ↦ rw (e, f, submit_verification) h
                | inr (v, f) ↦
                    rw (e, f, submit_verification)
                      (rw
                        (get_bill_by_id-store b.id user_id
                          (submit w.resolves b v message file_ids s))
                        (submit-Keeps w b v message file_ids s h))
              ]
      ]

  sendable-offers :
      (b : EnergyBill) (xs : List SelectedOffer) (s : Store) (os : List Offer)
      → sendable b xs s ≡ ok os
      → os ≡ requested_offers xs s
  unfolding sendable
  sendable-offers b xs s os h = ground arith

  propose-Keeps :
      (bill_id : ℕ) (xs : List SelectedOffer) (s : Store)
      → Keeps s (send_offers_to_user w.estimate w.resolves bill_id xs s).0
  unfolding Keeps send_offers_to_user get_bill_by_id_admin
  propose-Keeps bill_id xs s h = elim (Option-cases (find? (is_bill bill_id) s.bills)) [
    | inl e ↦ rw (e, send_offers_to_user, get_bill_by_id_admin) h
    | inr (b, e) ↦ elim (Result-cases (sendable b xs s)) [
      | inr (x, f) ↦ rw (e, f, send_offers_to_user, get_bill_by_id_admin) h
      | inl (os, f) ↦
          rw (e, f, send_offers_to_user, get_bill_by_id_admin, sendable-offers b xs s os f)
            (send-Keeps w b xs s h)
    ]
  ]

  accept-Keeps :
      (user_id : ℕ) (dto : CreateCaseDto) (day : List ℕ) (s : Store)
      → Keeps s (create_case w.upper_beyond w.names day w.resolves user_id dto s).0
  unfolding Keeps create_case
  accept-Keeps user_id dto day s h = elim (Option-cases (find? (is_bill dto.bill_id) s.bills)) [
    | inl e ↦ rw (e, create_case) h
    | inr (b, e) ↦ elim (Result-cases (admitted b user_id dto s)) [
      | inr (x, f) ↦ rw (e, f, create_case) h
      | inl (o, f) ↦ rw (e, f, create_case) (opened_case-Keeps w b o user_id dto day s h)
    ]
  ]

  reorder-Keeps :
      (bill_id : ℕ) (ids : List ℕ) (s : Store) → Keeps s (reorder_sent_offers bill_id ids s).0
  unfolding Keeps reorder_sent_offers get_bill_by_id_admin reordered
  reorder-Keeps bill_id ids s h = elim (Option-cases (find? (is_bill bill_id) s.bills)) [
    | inl e ↦ rw (e, reorder_sent_offers, get_bill_by_id_admin) h
    | inr (b, e) ↦
        elim (Option-cases (reorder_refusal ids (filter (is_sent_for b.id) s.sent_offers))) [
          | inr (x, g) ↦ rw (e, g, reorder_sent_offers, get_bill_by_id_admin) h
          | inl g ↦
              let unique = reorder_sent_offers-AreUnique bill_id ids s h.numbered.keys h.unique in
              rw (e, g, reorder_sent_offers, get_bill_by_id_admin)
                (record {
                  pending = h.pending;
                  once = h.once;
                  unique = rw (e, g, reorder_sent_offers, get_bill_by_id_admin) at unique;
                  offers = h.offers;
                  numbered = reordered-AreNumbered b.id ids s h.numbered g;
                })
        ]
  ]

  serve-Keeps : (c : Call) (s : Store) → Keeps s (serve w c s)
  unfolding Keeps serve
  serve-Keeps (transition bill_id dto admin_id) s h = transition-Keeps bill_id dto admin_id s h
  serve-Keeps (ask bill_id message) s h = ask-Keeps bill_id message s h
  serve-Keeps (answer bill_id user_id message file_ids) s h =
      answer-Keeps bill_id user_id message file_ids s h
  serve-Keeps (propose bill_id xs) s h = propose-Keeps bill_id xs s h
  serve-Keeps (reorder bill_id ids) s h = reorder-Keeps bill_id ids s h
  serve-Keeps (accept user_id dto) s h = accept-Keeps user_id dto (w.day_of s.now) s h
  serve-Keeps (wait t) s h = record {
    pending = h.pending;
    once = h.once;
    unique = h.unique;
    offers = h.offers;
    numbered = h.numbered;
  }

  -- Whatever is called on bills and cases, in any order: a bill has at most one request that waits for
  -- its customer, nobody gets two notifications of one event, the offers sent for a bill are all
  -- different and at different places of its list, and the ids of their rows are all different and
  -- below the next id, where this holds at first and ids are keys of the offers.
  pub serve_all-AreSound : (cs : List Call) (s : Store) → AreSound s → AreSound (serve_all w cs s)
  unfolding serve_all Keeps
  serve_all-AreSound [] s h = h
  serve_all-AreSound (c ∷ cs) s h = serve_all-AreSound cs (serve w c s) (serve-Keeps c s h)
