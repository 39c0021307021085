-- ===== src/Suppliers/Calls.antt =====
-- The calls on suppliers and offers, in any order, with the nightly run:
-- src/modules/suppliers/suppliers.service.ts and src/modules/offers/offers.service.ts. Time passes between the calls.

use easyrisparmio_backend.Prelude.{
  ℕ, ◌+◌, ◌==◌, ◌≡◌, refl, ◌∙◌, inl, inr, Bool, ◌&&◌, ◌||◌, not, List, [], ◌∷◌, find?, any, filter,
  Bool-cases, Option-cases,
}
use easyrisparmio_backend.Switching.{OfferStatus, Supplier, SwitchCase, Store, update_where}
use easyrisparmio_backend.Switching.Acceptance.{is_supplier}
use easyrisparmio_backend.Switching.Proposals.{is_empty}
use easyrisparmio_backend.Suppliers.{
  Calendar, has_no_expiry, is_unexpired, is_offer, get_live_utilities_for_supplier,
  is_pending_deletion,
}
use easyrisparmio_backend.Suppliers.Offers.{
  Database, CreateOfferDto, UpdateOfferDto, create_offer, update_offer, update_status, delete_offer,
  is_in_progress, is_activated,
}
use easyrisparmio_backend.Suppliers.Catalogue.{
  SettableStatus, CreateSupplierDto, UpdateSupplierDto, holds_code, assign, create, update,
  toggle_status,
}
use easyrisparmio_backend.Suppliers.Removal.{
  schedule, delete_supplier, cancel_scheduled_deletion, execute_scheduled_deletion, execute_all,
  execute_scheduled_deletions,
}
use easyrisparmio_backend.Suppliers.Rows.{any-none, append-is_served, any_or, or_false}
use easyrisparmio_backend.Suppliers.Edits.{
  create_offer-AreServed, update_offer-AreServed, update_status-AreServed,
}
use easyrisparmio_backend.Suppliers.Served.{
  AreServed, is_lost, is_off_day, execute-AreServed, kept-AreServed, update-is_served,
  cancel-AreServed, wait-AreServed, offer_guard, lost-offer,
}

pub data Call : Type 0 where
  add : CreateSupplierDto → Call
  edit : ℕ → UpdateSupplierDto → Call
  toggle : ℕ → SettableStatus → Call
  remove : ℕ → Call
  keep : ℕ → Call
  remove_offer : ℕ → Call
  add_offer : CreateOfferDto → Call
  edit_offer : ℕ → UpdateOfferDto → Call
  set_status : ℕ → OfferStatus → Call
  night : Call
  wait : ℕ → Call

module _ (calendar : Calendar) where
  -- Suppliers that are changed and keep their ids.
  changed-AreServed :
      (p : Supplier → Bool) (f : Supplier → Supplier) (s : Store)
      → ((x : Supplier) → (f x).id ≡ x.id)
      → AreServed calendar s
      → AreServed calendar (record s { suppliers = update_where p f s.suppliers })
  changed-AreServed p f s h a =
      kept-AreServed calendar s.offers (update_where p f s.suppliers) s
        (λ c k. update-is_served calendar p f s.offers s.suppliers c h ∙ k) a

  edit-AreServed :
      (id : ℕ) (dto : UpdateSupplierDto) (s : Store)
      → AreServed calendar s
      → AreServed calendar (update id dto s).0
  unfolding update
  edit-AreServed id dto s a = elim (Option-cases (find? (is_supplier id) s.suppliers)) [
    | inl e ↦ rw (e, update) a
    | inr (x, e) ↦ elim (Bool-cases (is_pending_deletion x.status)) [
      | inl t ↦ rw (e, update, t) a
      | inr f ↦
          elim (Bool-cases
            (any (λ y. not (y.id == id) && holds_code dto.supplier_code y) s.suppliers)) [
              | inl t ↦ rw (e, update, f, t) a
              | inr g ↦
                  rw (e, update, f, g)
                    (changed-AreServed (is_supplier id) (assign dto) s (λ y. refl) a)
            ]
    ]
  ]

  toggle-AreServed :
      (id : ℕ) (status : SettableStatus) (s : Store)
      → AreServed calendar s
      → AreServed calendar (toggle_status id status s).0
  unfolding toggle_status
  toggle-AreServed id status s a = elim (Option-cases (find? (is_supplier id) s.suppliers)) [
    | inl e ↦ rw (e, toggle_status) a
    | inr (x, e) ↦ elim (Bool-cases (is_pending_deletion x.status)) [
      | inl t ↦ rw (e, toggle_status, t) a
      | inr f ↦ rw (e, toggle_status, f) (changed-AreServed (is_supplier id) _ s (λ y. refl) a)
    ]
  ]

  keep-AreServed :
      (id : ℕ) (s : Store)
      → AreServed calendar s
      → AreServed calendar (cancel_scheduled_deletion id s).0
  unfolding cancel_scheduled_deletion
  keep-AreServed id s a = elim (Option-cases (find? (is_supplier id) s.suppliers)) [
    | inl e ↦ rw (e, cancel_scheduled_deletion) a
    | inr (x, e) ↦ elim (Bool-cases (is_pending_deletion x.status)) [
      | inl t ↦
          rw (e, cancel_scheduled_deletion, t)
            (changed-AreServed (is_supplier id) _ s (λ y. refl) a)
      | inr f ↦ rw (e, cancel_scheduled_deletion, f) a
    ]
  ]

  remove-AreServed :
      (id : ℕ) (s : Store)
      → AreServed calendar s
      → AreServed calendar (delete_supplier calendar id s).0
  unfolding delete_supplier schedule
  remove-AreServed id s a =
      let live = get_live_utilities_for_supplier calendar id s in
      elim (Option-cases (find? (is_supplier id) s.suppliers)) [
        | inl e ↦ rw (e, delete_supplier) a
        | inr (x, e) ↦ elim (Bool-cases (is_pending_deletion x.status)) [
          | inl t ↦ rw (e, delete_supplier, t) a
          | inr f ↦ elim (Bool-cases (is_empty live)) [
            | inl t ↦ rw (e, delete_supplier, f, t) (execute-AreServed calendar id s t a)
            | inr g ↦ elim (Bool-cases (any has_no_expiry live)) [
              | inl t ↦ rw (e, delete_supplier, f, g, t) a
              | inr h ↦
                  rw (e, delete_supplier, f, g, h)
                    (cancel-AreServed calendar id _
                      (changed-AreServed (is_supplier id) _ s (λ y. refl) a))
            ]
          ]
        ]
      ]

  -- One supplier of the nightly run.
  run-AreServed :
      (id : ℕ) (s : Store)
      → AreServed calendar s
      → AreServed calendar (execute_scheduled_deletion calendar id s)
  unfolding execute_scheduled_deletion
  run-AreServed id s a =
      let live = get_live_utilities_for_supplier calendar id s in
      elim (Bool-cases (is_empty live)) [
        | inl t ↦ rw (execute_scheduled_deletion, t) (execute-AreServed calendar id s t a)
        | inr f ↦ elim (Bool-cases (is_empty (filter (λ c. not (has_no_expiry c)) live))) [
          | inl t ↦ rw (execute_scheduled_deletion, f, t) a
          | inr g ↦
              rw (execute_scheduled_deletion, f, g)
                (changed-AreServed (is_supplier id) _ s (λ y. refl) a)
        ]
      ]

  night-AreServed :
      (xs : List Supplier) (s : Store)
      → AreServed calendar s
      → AreServed calendar (execute_all calendar xs s)
  unfolding execute_all
  night-AreServed [] s a = a
  night-AreServed (x ∷ xs) s a = night-AreServed xs _ (run-AreServed x.id s a)

  offer-AreServed :
      (id : ℕ) (s : Store) → AreServed calendar s → AreServed calendar (delete_offer id s).0
  unfolding delete_offer
  offer-AreServed id s a =
      let supplies = λ (c : SwitchCase).
        c.selected_offer_id == id && (is_activated c.status && is_unexpired s.now c.expiry_date) in
      let runs = λ (c : SwitchCase). c.selected_offer_id == id && is_in_progress c.status in
      elim (Option-cases (find? (is_offer id) s.offers)) [
        | inl e ↦ rw (e, delete_offer) a
        | inr (o, e) ↦ elim (Bool-cases (any supplies s.cases)) [
          | inl t ↦ rw (e, delete_offer, t) a
          | inr f ↦ elim (Bool-cases (any runs s.cases)) [
            | inl t ↦ rw (e, delete_offer, f, t) a
            | inr g ↦
                rw (e, delete_offer, f, g)
                  (record {
                    served =
                        any-none (is_lost calendar s.offers s.suppliers s.now)
                          (λ c. is_off_day calendar c || (supplies c || runs c)) _ s.cases
                          (λ c l d.
                            let (x, yz) =
                              or_false (is_off_day calendar c) (supplies c || runs c) d in
                            let (y, z) = or_false (supplies c) (runs c) yz in
                            lost-offer calendar id s c l (offer_guard calendar id s.now c x y z))
                          a.served (any_or _ _ s.cases a.days (any_or _ _ s.cases f g));
                    days = a.days;
                  })
          ]
        ]
      ]

  add-AreServed :
      (dto : CreateSupplierDto) (s : Store)
      → AreServed calendar s
      → AreServed calendar (create dto s).0
  unfolding create
  add-AreServed dto s a = elim (Bool-cases (any (holds_code dto.supplier_code) s.suppliers)) [
    | inl t ↦ rw (create, t) a
    | inr f ↦
        let k =
          kept-AreServed calendar s.offers _ s (λ c h. append-is_served s.offers s.suppliers _ c h)
            a in
        rw (create, f) (record { served = k.served; days = k.days })
  ]

module _ (calendar : Calendar) (database : Database) where
  unfoldable pub serve : Call → Store → Store
  serve (add dto) s = (create dto s).0
  serve (edit id dto) s = (update id dto s).0
  serve (toggle id status) s = (toggle_status id status s).0
  serve (remove id) s = (delete_supplier calendar id s).0
  serve (keep id) s = (cancel_scheduled_deletion id s).0
  serve (remove_offer id) s = (delete_offer id s).0
  serve (add_offer dto) s = (create_offer database dto s).0
  serve (edit_offer id dto) s = (update_offer database id dto s).0
  serve (set_status id next) s = (update_status id next s).0
  serve night s = execute_scheduled_deletions calendar s
  serve (wait t) s = record s { now = s.now + t }

  unfoldable pub serve_all : List Call → Store → Store
  serve_all [] s = s
  serve_all (c ∷ cs) s = serve_all cs (serve c s)

  serve-AreServed : (c : Call) (s : Store) → AreServed calendar s → AreServed calendar (serve c s)
  unfolding serve execute_scheduled_deletions
  serve-AreServed (add dto) s a = add-AreServed calendar dto s a
  serve-AreServed (edit id dto) s a = edit-AreServed calendar id dto s a
  serve-AreServed (toggle id status) s a = toggle-AreServed calendar id status s a
  serve-AreServed (remove id) s a = remove-AreServed calendar id s a
  serve-AreServed (keep id) s a = keep-AreServed calendar id s a
  serve-AreServed (remove_offer id) s a = offer-AreServed calendar id s a
  serve-AreServed (add_offer dto) s a = create_offer-AreServed calendar database dto s a
  serve-AreServed (edit_offer id dto) s a = update_offer-AreServed calendar database id dto s a
  serve-AreServed (set_status id next) s a = update_status-AreServed calendar id next s a
  serve-AreServed night s a = night-AreServed calendar _ s a
  serve-AreServed (wait t) s a = wait-AreServed calendar t s a

  -- Whatever is called of the services of suppliers and of offers (both services' create and update,
  -- toggleStatus, deleteSupplier, cancelScheduledDeletion, the nightly run, updateStatus and
  -- deleteOffer), in any order and with any time between, a case whose supply runs or is being
  -- activated keeps its offer in the table, not as a draft, and the supplier of that offer, where
  -- this holds at first and each expiry is the start of a day. Calls that change cases themselves
  -- are not among them.
  pub serve_all-AreServed :
      (cs : List Call) (s : Store) → AreServed calendar s → AreServed calendar (serve_all cs s)
  unfolding serve_all
  serve_all-AreServed [] s a = a
  serve_all-AreServed (c ∷ cs) s a = serve_all-AreServed cs (serve c s) (serve-AreServed c s a)
