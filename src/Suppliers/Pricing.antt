-- ===== src/Suppliers/Pricing.antt =====
-- Every offer carries a price: `assertPricingComplete` of src/modules/offers/offers.service.ts, and the
-- calls that write offers.
use easyrisparmio_backend.Prelude.{
  ℕ, ◌==◌, ◌≡◌, inl, inr, Bool, true, false, ◌&&◌, not, Option, none, some, List, [], ◌∷◌, ◌++◌,
  find?, arith, Option-cases, All,
}
use easyrisparmio_backend.Switching.{OfferStatus, MarketType, EnergyType, Offer, Supplier, Store}
use easyrisparmio_backend.Switching.Acceptance.{is_supplier}
use easyrisparmio_backend.Switching.Tables.{update_where-All}
use easyrisparmio_backend.Switching.Reordering.Distinct.{All-filter}
use easyrisparmio_backend.Suppliers.{Calendar, is_offer}
use easyrisparmio_backend.Suppliers.Catalogue.{
  SettableStatus, CreateSupplierDto, UpdateSupplierDto, create, update, toggle_status,
}
use easyrisparmio_backend.Suppliers.Offers.{
  Database, CreateOfferDto, UpdateOfferDto, assert_pricing_complete, new_offer, create_error,
  create_offer, assign_offer, update_error, update_offer, update_status, delete_offer,
}
use easyrisparmio_backend.Suppliers.Removal.{
  execute_supplier_deletion, cancel_early_stage_cases, schedule, delete_supplier,
  cancel_scheduled_deletion, execute_scheduled_deletion, execute_all, execute_scheduled_deletions,
}
use easyrisparmio_backend.Suppliers.Calls.{
  Call, add, edit, toggle, remove, keep, remove_offer, add_offer, edit_offer, set_status, night,
  wait, serve, serve_all,
}

abbrev is_given : Option ℕ → Bool
is_given none = false
is_given (some n) = true

-- A fixed offer has a rate for each commodity that it covers, any other a spread.
abbrev pub is_priced : MarketType → EnergyType → (kwh smc spread : Option ℕ) → Bool
is_priced MarketType.fixed EnergyType.electricity kwh smc spread = is_given kwh
is_priced MarketType.fixed EnergyType.gas kwh smc spread = is_given smc
is_priced MarketType.fixed EnergyType.dual kwh smc spread = is_given kwh && is_given smc
is_priced MarketType.variable _ kwh smc spread = is_given spread
is_priced MarketType.indexed _ kwh smc spread = is_given spread

abbrev pub HasPrice : Offer → Type 0
HasPrice o = is_priced o.market_type o.energy_type o.price_per_kwh o.price_per_smc o.spread ≡ true

priced_of :
    (m : MarketType) (e : EnergyType) (kwh smc spread : Option ℕ)
    → assert_pricing_complete m e kwh smc spread ≡ none
    → is_priced m e kwh smc spread ≡ true
unfolding assert_pricing_complete
priced_of MarketType.fixed EnergyType.electricity kwh smc spread h = ground arith
priced_of MarketType.fixed EnergyType.gas kwh smc spread h = ground arith
priced_of MarketType.fixed EnergyType.dual kwh smc spread h = ground arith
priced_of MarketType.variable e kwh smc spread h = ground arith
priced_of MarketType.indexed e kwh smc spread h = ground arith

removed-ArePriced :
    (id : ℕ) (s : Store)
    → All HasPrice s.offers
    → All HasPrice (execute_supplier_deletion id s).offers
unfolding execute_supplier_deletion
removed-ArePriced id s h = All-filter HasPrice _ s.offers h

abbrev pub ArePriced : Store → Type 0
ArePriced s = All HasPrice s.offers

create-ArePriced : (dto : CreateSupplierDto) (s : Store) → ArePriced s → ArePriced (create dto s).0
unfolding create
create-ArePriced dto s h = ground arith

update-ArePriced :
    (id : ℕ) (dto : UpdateSupplierDto) (s : Store) → ArePriced s → ArePriced (update id dto s).0
unfolding update
update-ArePriced id dto s h = ground arith

toggle_status-ArePriced :
    (id : ℕ) (status : SettableStatus) (s : Store)
    → ArePriced s
    → ArePriced (toggle_status id status s).0
unfolding toggle_status
toggle_status-ArePriced id status s h = ground arith

keep-ArePriced : (id : ℕ) (s : Store) → ArePriced s → ArePriced (cancel_scheduled_deletion id s).0
unfolding cancel_scheduled_deletion
keep-ArePriced id s h = ground arith

delete_offer-ArePriced : (id : ℕ) (s : Store) → ArePriced s → ArePriced (delete_offer id s).0
unfolding delete_offer
delete_offer-ArePriced id s h =
    ground (arith, All-filter HasPrice (λ x. not (x.id == id)) s.offers h)

update_status-ArePriced :
    (id : ℕ) (next : OfferStatus) (s : Store) → ArePriced s → ArePriced (update_status id next s).0
unfolding update_status
update_status-ArePriced id next s h = ground (
  arith,
  update_where-All HasPrice (is_offer id) (λ x. record x { offer_status = next }) (λ o t k. k)
      s.offers h,
)

All-last :
    (o : Offer) (xs : List Offer) → All HasPrice xs → HasPrice o → All HasPrice (xs ++ o ∷ [])
All-last o [] h k = (k, tt)
All-last o (x ∷ xs) (h, hs) k = (h, All-last o xs hs k)

module _ (calendar : Calendar) where
  remove-ArePriced :
      (id : ℕ) (s : Store) → ArePriced s → ArePriced (delete_supplier calendar id s).0
  unfolding delete_supplier schedule cancel_early_stage_cases
  remove-ArePriced id s h = ground (arith, removed-ArePriced id s h)

  run-ArePriced :
      (id : ℕ) (s : Store) → ArePriced s → ArePriced (execute_scheduled_deletion calendar id s)
  unfolding execute_scheduled_deletion
  run-ArePriced id s h = ground (arith, removed-ArePriced id s h)

  night-ArePriced :
      (xs : List Supplier) (s : Store) → ArePriced s → ArePriced (execute_all calendar xs s)
  unfolding execute_all
  night-ArePriced [] s h = h
  night-ArePriced (x ∷ xs) s h = night-ArePriced xs _ (run-ArePriced x.id s h)

module _ (database : Database) where
  create_error-HasPrice :
      (dto : CreateOfferDto) (x : Supplier) (s : Store)
      → create_error database dto x s ≡ none
      → HasPrice (new_offer dto s.next_id)
  unfolding create_error
  create_error-HasPrice dto x s h = ground (
    arith,
    priced_of dto.market_type dto.energy_type dto.price_per_kwh dto.price_per_smc dto.spread,
  )

  update_error-HasPrice :
      (dto : UpdateOfferDto) (o : Offer) (s : Store)
      → update_error database dto o s ≡ none
      → HasPrice (assign_offer database dto o)
  unfolding update_error
  update_error-HasPrice dto o s h =
      let new = assign_offer database dto o in
      ground (
        arith,
        priced_of new.market_type new.energy_type new.price_per_kwh new.price_per_smc new.spread,
      )

  create_offer-ArePriced :
      (dto : CreateOfferDto) (s : Store) → ArePriced s → ArePriced (create_offer database dto s).0
  unfolding create_offer
  create_offer-ArePriced dto s h =
      elim (Option-cases (find? (is_supplier dto.supplier_id) s.suppliers)) [
        | inl e ↦ rw (e, create_offer) h
        | inr (x, e) ↦ elim (Option-cases (create_error database dto x s)) [
          | inr (error, k) ↦ rw (e, create_offer, k) h
          | inl k ↦
              rw (e, create_offer, k) (All-last _ s.offers h (create_error-HasPrice dto x s k))
        ]
      ]

  update_offer-ArePriced :
      (id : ℕ) (dto : UpdateOfferDto) (s : Store)
      → ArePriced s
      → ArePriced (update_offer database id dto s).0
  unfolding update_offer
  update_offer-ArePriced id dto s h = elim (Option-cases (find? (is_offer id) s.offers)) [
    | inl e ↦ rw (e, update_offer) h
    | inr (o, e) ↦ elim (Option-cases (update_error database dto o s)) [
      | inr (error, k) ↦ rw (e, update_offer, k) h
      | inl k ↦
          rw (e, update_offer, k)
            (update_where-All HasPrice (is_offer id) (λ x. assign_offer database dto o)
              (λ x t old. update_error-HasPrice dto o s k) s.offers h)
    ]
  ]

module _ (calendar : Calendar) (database : Database) where
  serve-ArePriced : (c : Call) (s : Store) → ArePriced s → ArePriced (serve calendar database c s)
  unfolding serve execute_scheduled_deletions
  serve-ArePriced (add dto) s h = create-ArePriced dto s h
  serve-ArePriced (edit id dto) s h = update-ArePriced id dto s h
  serve-ArePriced (toggle id status) s h = toggle_status-ArePriced id status s h
  serve-ArePriced (remove id) s h = remove-ArePriced calendar id s h
  serve-ArePriced (keep id) s h = keep-ArePriced id s h
  serve-ArePriced (remove_offer id) s h = delete_offer-ArePriced id s h
  serve-ArePriced (add_offer dto) s h = create_offer-ArePriced database dto s h
  serve-ArePriced (edit_offer id dto) s h = update_offer-ArePriced database id dto s h
  serve-ArePriced (set_status id next) s h = update_status-ArePriced id next s h
  serve-ArePriced night s h = night-ArePriced calendar _ s h
  serve-ArePriced (wait t) s h = h

  -- Whatever is called of the services of suppliers and of offers, in any order, every offer in the
  -- table carries the price that its kind needs, where each does at first: a fixed offer a rate for
  -- each commodity that it covers, a variable or indexed one its spread.
  pub serve_all-ArePriced :
      (cs : List Call) (s : Store) → ArePriced s → ArePriced (serve_all calendar database cs s)
  unfolding serve_all
  serve_all-ArePriced [] s h = h
  serve_all-ArePriced (c ∷ cs) s h = serve_all-ArePriced cs _ (serve-ArePriced c s h)
