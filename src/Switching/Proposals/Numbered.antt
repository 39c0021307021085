-- ===== src/Switching/Proposals/Numbered.antt =====
-- Ids are keys of the rows of sent offers, below the next id (src/modules/bills/bills.service.ts).
use easyrisparmio_backend.Prelude.{
  ℕ, suc, ◌+◌, ◌≤◌, ◌<◌, ◌==◌, ◌≡◌, sym, false, List, [], ◌∷◌, ◌++◌, map, All, arith, length,
}
use mathlib.Core.Path.{subst}
use easyrisparmio_backend.Switching.{EnergyBill, Offer, SentOffer}
use easyrisparmio_backend.Switching.Tables.{IsKey}
use easyrisparmio_backend.Switching.Proposals.{SelectedOffer, new_records}

pub record AreNumbered (next : ℕ) (rows : List SentOffer) : Type 0 where
  pub keys : IsKey (λ r. r.id) rows
  pub fresh : All (λ r. r.id < next) rows

fresh_mono :
    (n m : ℕ) (rows : List SentOffer) → n ≤ m → All (λ r. r.id < n) rows → All (λ r. r.id < m) rows
fresh_mono n m [] h k = tt
fresh_mono n m (r ∷ rows) h (k, ks) = (omega (arith, h, k), fresh_mono n m rows h ks)

pub AreNumbered-mono :
    (n m : ℕ) (rows : List SentOffer) → n ≤ m → AreNumbered n rows → AreNumbered m rows
AreNumbered-mono n m rows h k = record { keys = k.keys; fresh = fresh_mono n m rows h k.fresh }

fresh-other :
    (n id : ℕ) (rows : List SentOffer)
    → n ≤ id
    → All (λ r. r.id < n) rows
    → All (λ r. (id == r.id) ≡ false) rows
fresh-other n id [] h k = tt
fresh-other n id (r ∷ rows) h (k, ks) = (ground arith, fresh-other n id rows h ks)

module _ (estimate : EnergyBill → Offer → ℕ) (b : EnergyBill) (xs : List SelectedOffer)
    (now : ℕ) where
  new_records-other :
      (k id position : ℕ) (os : List Offer) (rows : List SentOffer)
      → k < id
      → All (λ r. (k == r.id) ≡ false) rows
      → All (λ r. (k == r.id) ≡ false) (new_records estimate b xs now id position os ++ rows)
  unfolding new_records
  new_records-other k id position [] rows h a = a
  new_records-other k id position (o ∷ os) rows h a =
      (ground arith, new_records-other k (id + 1) (position + 1) os rows (omega (arith, h)) a)

  -- New rows take the next ids in turn.
  pub new_records-AreNumbered :
      (id position : ℕ) (os : List Offer) (rows : List SentOffer)
      → AreNumbered id rows
      → let new = new_records estimate b xs now id position os in
        AreNumbered (id + length new) (new ++ rows)
  unfolding new_records
  new_records-AreNumbered id position [] rows h = AreNumbered-mono id (id + 0) rows (omega arith) h
  new_records-AreNumbered id position (o ∷ os) rows h =
      let rest =
        new_records-AreNumbered (id + 1) (position + 1) os rows
          (AreNumbered-mono id (id + 1) rows (omega arith) h) in
      let new = new_records estimate b xs now (id + 1) (position + 1) os in
      record {
        keys = (
          new_records-other id (id + 1) (position + 1) os rows (omega arith)
              (fresh-other id id rows (omega arith) h.fresh),
          rest.keys,
        );
        fresh = (
          omega arith,
          fresh_mono (id + 1 + length new) (id + suc (length new)) (new ++ rows) (omega arith)
              rest.fresh,
        );
      }

-- A change of rows that keeps their ids.
module _ (g : SentOffer → SentOffer) (same : (r : SentOffer) → (g r).id ≡ r.id) where
  map-other :
      (k : ℕ) (rows : List SentOffer)
      → All (λ r. (k == r.id) ≡ false) rows
      → All (λ r. (k == r.id) ≡ false) (map g rows)
  map-other k [] h = tt
  map-other k (r ∷ rows) (h, hs) =
      (subst (λ i. (k == i) ≡ false) (sym (same r)) h, map-other k rows hs)

  map-IsKey : (rows : List SentOffer) → IsKey (λ r. r.id) rows → IsKey (λ r. r.id) (map g rows)
  map-IsKey [] h = tt
  map-IsKey (r ∷ rows) (h, hs) = (
    subst (λ i. All (λ y. (i == y.id) ≡ false) (map g rows)) (sym (same r)) (map-other r.id rows h),
    map-IsKey rows hs,
  )

  map-fresh :
      (n : ℕ) (rows : List SentOffer) → All (λ r. r.id < n) rows → All (λ r. r.id < n) (map g rows)
  map-fresh n [] h = tt
  map-fresh n (r ∷ rows) (h, hs) = (subst (λ i. i < n) (sym (same r)) h, map-fresh n rows hs)

  pub map-AreNumbered :
      (n : ℕ) (rows : List SentOffer) → AreNumbered n rows → AreNumbered n (map g rows)
  map-AreNumbered n rows h = record {
    keys = map-IsKey rows h.keys;
    fresh = map-fresh n rows h.fresh;
  }
