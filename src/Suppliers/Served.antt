-- ===== src/Suppliers/Served.antt =====
-- No live supply loses its offer or its supplier by one change:
-- src/modules/suppliers/suppliers.service.ts and `deleteOffer` of
-- src/modules/offers/offers.service.ts.

use easyrisparmio_backend.Prelude.{
  ℕ, ◌+◌, ◌==◌, ◌≡◌, refl, ap, ◌∙◌, inl, inr, Bool, true, false, ◌&&◌, not, Option, none, some,
  List, find?, any, filter, ltb, arith, Bool-cases, Option-cases,
}
use easyrisparmio_backend.Switching.{Supplier, Offer, SwitchCase, Store, update_where, holds_id}
use easyrisparmio_backend.Switching.Acceptance.{is_supplier}
use easyrisparmio_backend.Switching.Proposals.{is_empty}
use easyrisparmio_backend.Suppliers.{
  Calendar, is_early_case, is_unexpired, is_offer, is_supplied_by, is_live,
  get_live_utilities_for_supplier,
}
use easyrisparmio_backend.Suppliers.Offers.{is_in_progress, is_activated, is_draft}
use easyrisparmio_backend.Suppliers.Removal.{execute_supplier_deletion, cancel_early_stage_cases}
use easyrisparmio_backend.Suppliers.Rows.{
  serves, is_served, any-none, is_empty-filter, any-update_where, any-update_where_none, and_not,
  and_false, lost_of_served, lost_of_idle, live_status-cases, others-is_served, removal-is_served,
}

module _ (calendar : Calendar) where
  open calendar use {midnight, monotone}

  -- A live supply whose offer is gone or a draft, or whose supplier is gone.
  abbrev pub is_lost : List Offer → List Supplier → ℕ → SwitchCase → Bool
  is_lost offers suppliers now c = is_live calendar now c && not (is_served offers suppliers c)

  -- An expiry that is not the start of a day.
  abbrev pub is_off_day : SwitchCase → Bool
  is_off_day c = elim c.expiry_date [ none ↦ false | some e ↦ not (midnight e == e) ]

  pub record AreServed (s : Store) : Type 0 where
    pub served : any (is_lost s.offers s.suppliers s.now) s.cases ≡ false
    pub days : any is_off_day s.cases ≡ false

  lost-removed :
      (id : ℕ) (s : Store) (c : SwitchCase)
      → is_lost s.offers s.suppliers s.now c ≡ false
      → (is_supplied_by id s.offers c && is_live calendar s.now c) ≡ false
      → is_lost
          (filter (λ o. not (holds_id id o.supplier_id)) s.offers)
          (filter (λ x. not (x.id == id)) s.suppliers)
          s.now
          c
        ≡ false
  lost-removed id s c a b = elim (Bool-cases (is_live calendar s.now c)) [
    | inl t ↦
        let served : is_served s.offers s.suppliers c ≡ true = and_not t a in
        let apart : is_supplied_by id s.offers c ≡ false = and_false t b in
        lost_of_served _ (removal-is_served id s.offers s.suppliers c served apart)
    | inr f ↦ lost_of_idle _ f
  ]

  pub execute-AreServed :
      (id : ℕ) (s : Store)
      → is_empty (get_live_utilities_for_supplier calendar id s) ≡ true
      → AreServed s
      → AreServed (execute_supplier_deletion id s)
  unfolding execute_supplier_deletion get_live_utilities_for_supplier
  execute-AreServed id s e h =
      let q = λ (c : SwitchCase). is_supplied_by id s.offers c && is_live calendar s.now c in
      let none_live : any q s.cases ≡ false = let z = is_empty-filter q s.cases in ground arith in
      record {
        served =
            any-none (is_lost s.offers s.suppliers s.now) q _ s.cases
              (λ c a b. lost-removed id s c a b) h.served none_live;
        days = h.days;
      }

  -- A change that leaves every case as it is, and every served case served.
  pub kept-AreServed :
      (offers : List Offer) (suppliers : List Supplier) (s : Store)
      → ((c : SwitchCase)
          → is_served s.offers s.suppliers c ≡ true
          → is_served offers suppliers c ≡ true)
      → AreServed s
      → AreServed (record s { offers = offers; suppliers = suppliers })
  kept-AreServed offers suppliers s keep h = record {
    served =
        any-none (is_lost s.offers s.suppliers s.now) (is_lost s.offers s.suppliers s.now) _ s.cases
          (λ c a b. lost-kept c a) h.served h.served;
    days = h.days;
  }
    where
      lost-kept :
          (c : SwitchCase)
          → is_lost s.offers s.suppliers s.now c ≡ false
          → is_lost offers suppliers s.now c ≡ false
      lost-kept c a = elim (Bool-cases (is_live calendar s.now c)) [
        | inl t ↦ lost_of_served _ (keep c (and_not t a))
        | inr f ↦ lost_of_idle _ f
      ]

  -- Suppliers that keep their ids serve what they served.
  pub update-is_served :
      (p : Supplier → Bool) (f : Supplier → Supplier) (offers : List Offer)
      (suppliers : List Supplier) (c : SwitchCase)
      → ((x : Supplier) → (f x).id ≡ x.id)
      → is_served offers (update_where p f suppliers) c ≡ is_served offers suppliers c
  update-is_served p f offers suppliers c h = go (find? (is_offer c.selected_offer_id) offers)
    where
      same_any :
          (k : ℕ) → any (is_supplier k) (update_where p f suppliers) ≡ any (is_supplier k) suppliers
      same_any k = any-update_where (is_supplier k) p f suppliers (λ x. ap (λ n. n == k) (h x))

      go_id :
          (ready : Bool) (o : Option ℕ)
          → (ready && elim o as (λ x. Bool) [
            | none ↦ false
            | some k ↦ any (is_supplier k) (update_where p f suppliers)
          ])
            ≡ (ready
                && elim o as (λ x. Bool) [ none ↦ false | some k ↦ any (is_supplier k) suppliers ])
      go_id ready none = refl
      go_id ready (some k) = ap (λ b. ready && b) (same_any k)

      go :
          (o : Option Offer)
          → elim o as (λ x. Bool) [ none ↦ false | some x ↦ serves (update_where p f suppliers) x ]
            ≡ elim o as (λ x. Bool) [ none ↦ false | some x ↦ serves suppliers x ]
      go none = refl
      go (some x) = go_id (not (is_draft x.offer_status)) x.supplier_id

  pub cancel-AreServed :
      (id : ℕ) (s : Store) → AreServed s → AreServed (cancel_early_stage_cases id s)
  unfolding cancel_early_stage_cases
  cancel-AreServed id s h = record {
    served =
        any-update_where_none (is_lost s.offers s.suppliers s.now) (is_early_case id) _ s.cases
          (λ c a. refl) h.served;
    days = any-update_where is_off_day (is_early_case id) _ s.cases (λ c. refl) ∙ h.days;
  }

  pub live-later :
      (now t : ℕ) (c : SwitchCase)
      → is_live calendar now c ≡ false
      → is_live calendar (now + t) c ≡ false
  live-later now t c h =
      let m = monotone now (now + t) (omega arith) in
      elim (Option-cases c.expiry_date) [
        | inl e ↦ rw (e, is_unexpired) (rw (e, is_unexpired) at h)
        | inr (x, e) ↦ ground arith
      ]

  pub wait-AreServed : (t : ℕ) (s : Store) → AreServed s → AreServed (record s { now = s.now + t })
  wait-AreServed t s h = record {
    served =
        any-none (is_lost s.offers s.suppliers s.now) (is_lost s.offers s.suppliers s.now) _ s.cases
          (λ c a b. lost-later c a) h.served h.served;
    days = h.days;
  }
    where
      lost-later :
          (c : SwitchCase)
          → is_lost s.offers s.suppliers s.now c ≡ false
          → is_lost s.offers s.suppliers (s.now + t) c ≡ false
      lost-later c a = elim (Bool-cases (is_live calendar s.now c)) [
        | inl e ↦ lost_of_served _ (and_not e a)
        | inr f ↦ lost_of_idle _ (live-later s.now t c f)
      ]

  unexpired-now :
      (now : ℕ) (o : Option ℕ)
      → elim o as (λ x. Bool) [ none ↦ false | some e ↦ not (midnight e == e) ] ≡ false
      → is_unexpired (midnight now) o ≡ true
      → is_unexpired now o ≡ true
  unexpired-now now none day h = refl
  unexpired-now now (some e) day h = elim (Bool-cases (ltb now e)) [
    | inl t ↦ t
    | inr f ↦ let m = monotone e now (ground arith) in absurd (ground arith)
  ]

  -- An offer with a live case is not deleted.
  pub offer_guard :
      (id now : ℕ) (c : SwitchCase)
      → is_off_day c ≡ false
      → (c.selected_offer_id == id && (is_activated c.status && is_unexpired now c.expiry_date))
        ≡ false
      → (c.selected_offer_id == id && is_in_progress c.status) ≡ false
      → is_live calendar now c ≡ true
      → (c.selected_offer_id == id) ≡ false
  offer_guard id now c day a b t =
      ground (arith, unexpired-now now c.expiry_date day, live_status-cases c.status)

  -- What the deletion of an offer leaves of the cases of other offers.
  pub lost-offer :
      (id : ℕ) (s : Store) (c : SwitchCase)
      → is_lost s.offers s.suppliers s.now c ≡ false
      → (is_live calendar s.now c ≡ true → (c.selected_offer_id == id) ≡ false)
      → is_lost (filter (λ x. not (x.id == id)) s.offers) s.suppliers s.now c ≡ false
  lost-offer id s c a apart = elim (Bool-cases (is_live calendar s.now c)) [
    | inl t ↦ lost_of_served _ (others-is_served id s.offers s.suppliers c (and_not t a) (apart t))
    | inr f ↦ lost_of_idle _ f
  ]
