-- ===== src/Suppliers/Edits.antt =====
-- What the changes of offers leave of the cases that are supplied under them: `create`, `update` and
-- `updateStatus` of src/modules/offers/offers.service.ts.
use mathlib.Core.Path.{subst}
use easyrisparmio_backend.Prelude.{
  ℕ, ◌==◌, ◌≡◌, refl, sym, ap, ◌∙◌, inl, inr, Bool, true, false, none, some, List, [], ◌∷◌, ◌++◌,
  find?, any, arith, Bool-cases, Option-cases,
}
use easyrisparmio_backend.Switching.{
  CaseStatus, OfferStatus, Supplier, Offer, SwitchCase, Store, update_where,
}
use easyrisparmio_backend.Switching.Acceptance.{is_supplier, is_closed}
use easyrisparmio_backend.Switching.Tables.{find?-update_where, find?-update_where_other}
use easyrisparmio_backend.Suppliers.{Calendar, is_live_status, is_offer, is_live}
use easyrisparmio_backend.Suppliers.Offers.{
  Database, CreateOfferDto, UpdateOfferDto, is_draft, has_accepted_case,
  check_offer_has_accepted_cases, is_valid_status_transition, status_error, update_status,
  create_error, create_offer, new_offer, assign_offer, update_error, update_offer,
}
use easyrisparmio_backend.Suppliers.Rows.{
  serves, is_served, find?-sound, any-none, and_not, lost_of_served, lost_of_idle,
}
use easyrisparmio_backend.Suppliers.Served.{AreServed, is_lost, kept-AreServed}

find?-append :
    (p : Offer → Bool) (xs ys : List Offer) (o : Offer)
    → find? p xs ≡ some o
    → find? p (xs ++ ys) ≡ some o
find?-append p [] ys o e = absurd (cc)
find?-append p (x ∷ xs) ys o e = elim (Bool-cases (p x)) [
  | inl t ↦ rw (t, find?) (rw (t, find?) at e)
  | inr f ↦ rw (f, find?) (find?-append p xs ys o (rw (f, find?) at e))
]

-- A new offer leaves every case served.
offers-append-is_served :
    (xs ys : List Offer) (suppliers : List Supplier) (c : SwitchCase)
    → is_served xs suppliers c ≡ true
    → is_served (xs ++ ys) suppliers c ≡ true
offers-append-is_served xs ys suppliers c h =
    elim (Option-cases (find? (is_offer c.selected_offer_id) xs)) [
      | inl e ↦ absurd (cc (rw (e, is_served) at h))
      | inr (o, e) ↦
          rw (find?-append (is_offer c.selected_offer_id) xs ys o e, is_served)
            (rw (e, is_served) at h)
    ]

-- A change of another offer.
other-is_served :
    (id : ℕ) (f : Offer → Offer) (offers : List Offer) (suppliers : List Supplier) (c : SwitchCase)
    → ((o : Offer) → (o.id == id) ≡ true → ((f o).id == id) ≡ true)
    → (c.selected_offer_id == id) ≡ false
    → is_served (update_where (is_offer id) f offers) suppliers c ≡ is_served offers suppliers c
other-is_served id f offers suppliers c keeps apart =
    ap (λ r. elim r as (λ x. Bool) [ none ↦ false | some o ↦ serves suppliers o ])
      (find?-update_where_other (is_offer c.selected_offer_id) (is_offer id) f
        (λ o t. let k = keeps o t in (ground arith, ground arith)) offers)

-- A change of the case's own offer that keeps what it serves.
own-is_served :
    (f : Offer → Offer) (offers : List Offer) (suppliers : List Supplier) (c : SwitchCase)
    → ((o : Offer) → (f o).id ≡ o.id)
    → ((o : Offer) → serves suppliers o ≡ true → serves suppliers (f o) ≡ true)
    → is_served offers suppliers c ≡ true
    → is_served (update_where (is_offer c.selected_offer_id) f offers) suppliers c ≡ true
own-is_served f offers suppliers c same keeps h =
    elim (Option-cases (find? (is_offer c.selected_offer_id) offers)) [
      | inl e ↦ absurd (cc (rw (e, is_served) at h))
      | inr (o, e) ↦
          let own = find?-sound c.selected_offer_id offers o e in
          let id_kept = same o in
          rw
            (
              find?-update_where (is_offer c.selected_offer_id) f offers o e (ground arith),
              is_served,
            )
            (keeps o (rw (e, is_served) at h))
    ]

live-open : (st : CaseStatus) → is_live_status st ≡ true → is_closed st ≡ false
unfolding is_closed
live-open CaseStatus.awaiting_activation h = refl
live-open CaseStatus.activated h = refl
live-open _ h = ground arith

-- No case of an offer that no open case names is live.
named_by-none :
    (id : ℕ) (c : SwitchCase)
    → has_accepted_case id c ≡ false
    → is_live_status c.status ≡ true
    → (c.selected_offer_id == id) ≡ false
named_by-none id c h l = let o = live-open c.status l in ground arith

-- A case that is served is not under a draft.
not_draft-named :
    (id : ℕ) (o : Offer) (offers : List Offer) (suppliers : List Supplier) (c : SwitchCase)
    → find? (is_offer id) offers ≡ some o
    → is_draft o.offer_status ≡ true
    → is_served offers suppliers c ≡ true
    → (c.selected_offer_id == id) ≡ false
not_draft-named id o offers suppliers c e d h = elim (Bool-cases (c.selected_offer_id == id)) [
  | inr f ↦ f
  | inl t ↦
      let same : c.selected_offer_id ≡ id = ground arith in
      let found : find? (is_offer c.selected_offer_id) offers ≡ some o =
        subst (λ n. find? (is_offer n) offers ≡ some o) (sym same) e in
      absurd (cc (rw (found, is_served, d) at h))
]

draft_needs :
    (current : OfferStatus) (accepted : Bool)
    → is_valid_status_transition current OfferStatus.draft accepted ≡ true
    → accepted ≡ false
unfolding is_valid_status_transition
draft_needs OfferStatus.active accepted h = ground arith
draft_needs OfferStatus.archived accepted h = ground arith
draft_needs OfferStatus.draft accepted h = absurd (cc)
draft_needs OfferStatus.expiring accepted h = absurd (cc)
draft_needs OfferStatus.expired accepted h = absurd (cc)

is_draft_sound : (st : OfferStatus) → is_draft st ≡ true → st ≡ OfferStatus.draft
is_draft_sound OfferStatus.draft h = refl
is_draft_sound OfferStatus.active h = absurd (cc)
is_draft_sound OfferStatus.archived h = absurd (cc)
is_draft_sound OfferStatus.expiring h = absurd (cc)
is_draft_sound OfferStatus.expired h = absurd (cc)

-- What a change of status that passes the checks says of the cases.
status_error-none :
    (o : Offer) (next : OfferStatus) (s : Store)
    → status_error o next s ≡ none
    → is_draft next ≡ true
    → any (has_accepted_case o.id) s.cases ≡ false
unfolding status_error check_offer_has_accepted_cases
status_error-none o next s e d =
    let draft_next = is_draft_sound next d in
    let accepted = any (has_accepted_case o.id) s.cases in
    elim (Bool-cases (is_valid_status_transition o.offer_status next accepted)) [
      | inl v ↦
          draft_needs o.offer_status accepted
            (subst (λ t. is_valid_status_transition o.offer_status t accepted ≡ true) draft_next v)
      | inr f ↦ absurd (cc (rw (f, status_error) at e))
    ]

update_error-none :
    (database : Database) (dto : UpdateOfferDto) (o : Offer) (s : Store)
    → update_error database dto o s ≡ none
    → is_draft o.offer_status ≡ false
    → any (has_accepted_case o.id) s.cases ≡ false
unfolding update_error check_offer_has_accepted_cases
update_error-none database dto o s e d = elim (Bool-cases (any (has_accepted_case o.id) s.cases)) [
  | inl t ↦ absurd (cc (rw (d, t, update_error) at e))
  | inr f ↦ f
]

module _ (calendar : Calendar) where
  -- A change of an offer that no served live case names.
  unnamed-AreServed :
      (id : ℕ) (f : Offer → Offer) (q : SwitchCase → Bool) (s : Store)
      → ((o : Offer) → (o.id == id) ≡ true → ((f o).id == id) ≡ true)
      → any q s.cases ≡ false
      → ((c : SwitchCase)
          → is_live calendar s.now c ≡ true
          → is_served s.offers s.suppliers c ≡ true
          → q c ≡ false
          → (c.selected_offer_id == id) ≡ false)
      → AreServed calendar s
      → AreServed calendar (record s { offers = update_where (is_offer id) f s.offers })
  unnamed-AreServed id f q s keeps none_q apart a = record {
    served =
        any-none (is_lost calendar s.offers s.suppliers s.now) q _ s.cases
          (λ c l k. elim (Bool-cases (is_live calendar s.now c)) [
            | inl t ↦
                let own = and_not t l in
                lost_of_served _
                  (other-is_served id f s.offers s.suppliers c keeps (apart c t own k) ∙ own)
            | inr i ↦ lost_of_idle _ i
          ])
          a.served none_q;
    days = a.days;
  }

  pub update_status-AreServed :
      (id : ℕ) (next : OfferStatus) (s : Store)
      → AreServed calendar s
      → AreServed calendar (update_status id next s).0
  unfolding update_status
  update_status-AreServed id next s a =
      let f = λ (x : Offer). record x { offer_status = next } in
      elim (Option-cases (find? (is_offer id) s.offers)) [
        | inl e ↦ rw (e, update_status) a
        | inr (o, e) ↦ elim (Option-cases (status_error o next s)) [
          | inr (error, k) ↦ rw (e, update_status, k) a
          | inl k ↦
              let own = find?-sound id s.offers o e in
              rw (e, update_status, k)
                (elim (Bool-cases (is_draft next)) [
                  | inl d ↦
                      unnamed-AreServed id f (has_accepted_case o.id) s (λ x t. t)
                        (status_error-none o next s k d)
                        (λ c t u v.
                          let apart = named_by-none o.id c v (ground arith) in ground arith)
                        a
                  | inr r ↦
                      kept-AreServed calendar (update_where (is_offer id) f s.offers) s.suppliers s
                        (λ c h. elim (Bool-cases (c.selected_offer_id == id)) [
                          | inl t ↦
                              let same : c.selected_offer_id ≡ id = ground arith in
                              subst
                                (λ n.
                                  is_served (update_where (is_offer n) f s.offers) s.suppliers c
                                  ≡ true)
                                same
                                (own-is_served f s.offers s.suppliers c (λ x. refl)
                                  (λ x u. ground arith) h)
                          | inr n ↦ other-is_served id f s.offers s.suppliers c (λ x t. t) n ∙ h
                        ])
                        a
                ])
        ]
      ]

  pub update_offer-AreServed :
      (database : Database) (id : ℕ) (dto : UpdateOfferDto) (s : Store)
      → AreServed calendar s
      → AreServed calendar (update_offer database id dto s).0
  unfolding update_offer
  update_offer-AreServed database id dto s a = elim (Option-cases (find? (is_offer id) s.offers)) [
    | inl e ↦ rw (e, update_offer) a
    | inr (o, e) ↦ elim (Option-cases (update_error database dto o s)) [
      | inr (error, k) ↦ rw (e, update_offer, k) a
      | inl k ↦
          let own = find?-sound id s.offers o e in
          let f = λ (x : Offer). assign_offer database dto o in
          rw (e, update_offer, k)
            (elim (Bool-cases (is_draft o.offer_status)) [
              | inr d ↦
                  unnamed-AreServed id f (has_accepted_case o.id) s (λ x t. own)
                    (update_error-none database dto o s k d)
                    (λ c t u v. let apart = named_by-none o.id c v (ground arith) in ground arith) a
              | inl d ↦
                  unnamed-AreServed id f (is_lost calendar s.offers s.suppliers s.now) s
                    (λ x t. own) a.served
                    (λ c t u v. not_draft-named id o s.offers s.suppliers c e d u) a
            ])
    ]
  ]

  pub create_offer-AreServed :
      (database : Database) (dto : CreateOfferDto) (s : Store)
      → AreServed calendar s
      → AreServed calendar (create_offer database dto s).0
  unfolding create_offer
  create_offer-AreServed database dto s a =
      elim (Option-cases (find? (is_supplier dto.supplier_id) s.suppliers)) [
        | inl e ↦ rw (e, create_offer) a
        | inr (x, e) ↦ elim (Option-cases (create_error database dto x s)) [
          | inr (error, k) ↦ rw (e, create_offer, k) a
          | inl k ↦
              let m =
                kept-AreServed calendar (s.offers ++ new_offer dto s.next_id ∷ []) s.suppliers s
                  (λ c h. offers-append-is_served s.offers _ s.suppliers c h) a in
              rw (e, create_offer, k) (record { served = m.served; days = m.days })
        ]
      ]
