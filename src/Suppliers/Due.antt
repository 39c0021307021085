-- ===== src/Suppliers/Due.antt =====
-- The nightly run, `executeScheduledDeletions` of src/modules/suppliers/suppliers.service.ts, removes
-- the suppliers that are due and supply nothing.
use mathlib.Core.Path.{subst}
use easyrisparmio_backend.Prelude.{
  ℕ, ◌==◌, ◌≡◌, refl, ap, ◌∙◌, ◌⊎◌, inl, inr, Bool, true, false, ◌&&◌, not, none, List, [], ◌∷◌,
  find?, any, filter, arith, Bool-cases, All,
}
use easyrisparmio_backend.Switching.{Supplier, Offer, SwitchCase, Store, holds_id}
use easyrisparmio_backend.Switching.Tables.{IsKey}
use easyrisparmio_backend.Switching.Reordering.Distinct.{All-filter}
use easyrisparmio_backend.Switching.Acceptance.{is_supplier}
use easyrisparmio_backend.Switching.Proposals.{is_empty}
use easyrisparmio_backend.Suppliers.{
  Calendar, has_no_expiry, is_supplied_by, is_offer, is_live, get_live_utilities_for_supplier,
}
use easyrisparmio_backend.Suppliers.Removal.{
  execute_supplier_deletion, execute_scheduled_deletion, execute_all,
}
use easyrisparmio_backend.Suppliers.Rows.{any-none, is_empty-filter, any-update_where}

missing :
    (n : ℕ) (x : Offer) (q : Offer → Bool) (xs : List Offer)
    → (x.id == n) ≡ true
    → All (λ y. (x.id == y.id) ≡ false) xs
    → find? (is_offer n) (filter q xs) ≡ none
missing n x q [] t h = refl
missing n x q (y ∷ ys) t (h, hs) =
    let other : (y.id == n) ≡ false = ground arith in
    elim (Bool-cases (q y)) [
      | inl k ↦ rw (k, find?, other) (missing n x q ys t hs)
      | inr k ↦ rw k (missing n x q ys t hs)
    ]

quiet_idle : (a b c : Bool) → a ≡ true → (a && b) ≡ false → (c && b) ≡ false
quiet_idle a b c t h = ground arith

-- A filter of rows with a key finds the row that was found, or none.
find?-filter_or :
    (n : ℕ) (q : Offer → Bool) (xs : List Offer)
    → IsKey (λ o. o.id) xs
    → (find? (is_offer n) (filter q xs) ≡ none)
      ⊎ (find? (is_offer n) (filter q xs) ≡ find? (is_offer n) xs)
find?-filter_or n q [] h = inl refl
find?-filter_or n q (x ∷ xs) (h, hs) = elim (Bool-cases (x.id == n)) [
  | inl t ↦ elim (Bool-cases (q x)) [
    | inl k ↦ inr (rw (k, find?, t) refl)
    | inr k ↦ inl (rw k (missing n x q xs t h))
  ]
  | inr f ↦ elim (Bool-cases (q x)) [
    | inl k ↦ rw (k, find?, f) (find?-filter_or n q xs hs)
    | inr k ↦ rw (k, find?, f) (find?-filter_or n q xs hs)
  ]
]

filter-IsKey :
    (q : Offer → Bool) (xs : List Offer) → IsKey (λ o. o.id) xs → IsKey (λ o. o.id) (filter q xs)
filter-IsKey q [] h = tt
filter-IsKey q (x ∷ xs) (h, hs) = elim (Bool-cases (q x)) [
  | inl k ↦ rw k (All-filter _ q xs h, filter-IsKey q xs hs)
  | inr k ↦ rw k (filter-IsKey q xs hs)
]

-- Removals of offers leave no case to a supplier that it did not have.
supplied-filter :
    (id : ℕ) (q : Offer → Bool) (offers : List Offer) (c : SwitchCase)
    → IsKey (λ o. o.id) offers
    → is_supplied_by id offers c ≡ false
    → is_supplied_by id (filter q offers) c ≡ false
supplied-filter id q offers c h k = elim (find?-filter_or c.selected_offer_id q offers h) [
  | inl e ↦ rw (e, is_supplied_by) refl
  | inr e ↦ rw (e, is_supplied_by) k
]

any-filter_none {ℓ} :
    {A : Type ℓ} (p q : A → Bool) (xs : List A) → any p xs ≡ false → any p (filter q xs) ≡ false
any-filter_none p q [] h = h
any-filter_none p q (x ∷ xs) h = ground (arith, any-filter_none p q xs)

any-without :
    (id : ℕ) (xs : List Supplier) → any (is_supplier id) (filter (λ x. not (x.id == id)) xs) ≡ false
any-without id [] = refl
any-without id (x ∷ xs) = ground (arith, any-without id xs)

module _ (calendar : Calendar) where
  open calendar use {midnight, monotone}

  abbrev pub runs_for : ℕ → List Offer → ℕ → SwitchCase → Bool
  runs_for id offers now c = is_supplied_by id offers c && is_live calendar now c

  -- Nothing that the supplier supplies is live.
  pub record IsQuiet (id : ℕ) (s : Store) : Type 0 where
    pub none_live : any (runs_for id s.offers s.now) s.cases ≡ false
    pub keys : IsKey (λ o. o.id) s.offers

  -- The removal of another supplier's offers keeps that.
  removal-IsQuiet :
      (id other : ℕ) (s : Store) → IsQuiet id s → IsQuiet id (execute_supplier_deletion other s)
  unfolding execute_supplier_deletion
  removal-IsQuiet id other s h = record {
    none_live =
        any-none (runs_for id s.offers s.now) (runs_for id s.offers s.now) _ s.cases
          (λ c a b. still_quiet c a) h.none_live h.none_live;
    keys = filter-IsKey _ s.offers h.keys;
  }
    where
      still_quiet :
          (c : SwitchCase)
          → runs_for id s.offers s.now c ≡ false
          → runs_for id (filter (λ o. not (holds_id other o.supplier_id)) s.offers) s.now c ≡ false
      still_quiet c a = elim (Bool-cases (is_supplied_by id s.offers c)) [
        | inl t ↦ quiet_idle (is_supplied_by id s.offers c) (is_live calendar s.now c) _ t a
        | inr f ↦ rw (supplied-filter id _ s.offers c h.keys f) refl
      ]

  run-IsQuiet :
      (id other : ℕ) (s : Store)
      → IsQuiet id s
      → IsQuiet id (execute_scheduled_deletion calendar other s)
  unfolding execute_scheduled_deletion
  run-IsQuiet id other s h =
      let live = get_live_utilities_for_supplier calendar other s in
      elim (Bool-cases (is_empty live)) [
        | inl t ↦ rw (execute_scheduled_deletion, t) (removal-IsQuiet id other s h)
        | inr f ↦ elim (Bool-cases (is_empty (filter (λ c. not (has_no_expiry c)) live))) [
          | inl t ↦ rw (execute_scheduled_deletion, f, t) h
          | inr g ↦
              rw (execute_scheduled_deletion, f, g)
                (record { none_live = h.none_live; keys = h.keys })
        ]
      ]

  -- A supplier that is gone stays gone.
  run-gone :
      (id other : ℕ) (s : Store)
      → any (is_supplier id) s.suppliers ≡ false
      → any (is_supplier id) (execute_scheduled_deletion calendar other s).suppliers ≡ false
  unfolding execute_scheduled_deletion execute_supplier_deletion
  run-gone id other s h =
      let live = get_live_utilities_for_supplier calendar other s in
      elim (Bool-cases (is_empty live)) [
        | inl t ↦
            rw (execute_scheduled_deletion, t)
              (any-filter_none (is_supplier id) (λ x. not (x.id == other)) s.suppliers h)
        | inr f ↦ elim (Bool-cases (is_empty (filter (λ c. not (has_no_expiry c)) live))) [
          | inl t ↦ rw (execute_scheduled_deletion, f, t) h
          | inr g ↦
              rw (execute_scheduled_deletion, f, g)
                (any-update_where (is_supplier id) (is_supplier other) _ s.suppliers (λ x. refl)
                  ∙ h)
        ]
      ]

  -- Where nothing that it supplies is live, its turn in the nightly run removes it.
  run-removes :
      (id : ℕ) (s : Store)
      → IsQuiet id s
      → any (is_supplier id) (execute_scheduled_deletion calendar id s).suppliers ≡ false
  unfolding execute_scheduled_deletion execute_supplier_deletion get_live_utilities_for_supplier
  run-removes id s h =
      let t : is_empty (get_live_utilities_for_supplier calendar id s) ≡ true =
        is_empty-filter (runs_for id s.offers s.now) s.cases ∙ ap not h.none_live in
      rw (execute_scheduled_deletion, t) (any-without id s.suppliers)

  all-gone :
      (id : ℕ) (xs : List Supplier) (s : Store)
      → any (is_supplier id) s.suppliers ≡ false
      → any (is_supplier id) (execute_all calendar xs s).suppliers ≡ false
  unfolding execute_all
  all-gone id [] s h = h
  all-gone id (x ∷ xs) s h = all-gone id xs _ (run-gone id x.id s h)

  pub all-removes :
      (id : ℕ) (xs : List Supplier) (s : Store)
      → IsQuiet id s
      → any (is_supplier id) xs ≡ true
      → any (is_supplier id) (execute_all calendar xs s).suppliers ≡ false
  unfolding execute_all
  all-removes id [] s h k = absurd (cc)
  all-removes id (x ∷ xs) s h k = elim (Bool-cases (x.id == id)) [
    | inl t ↦
        let same : id ≡ x.id = ground arith in
        all-gone id xs _ (
          subst
            (λ n. any (is_supplier id) (execute_scheduled_deletion calendar n s).suppliers ≡ false)
            same (run-removes id s h))
    | inr f ↦ all-removes id xs _ (run-IsQuiet id x.id s h) (ground arith)
  ]
