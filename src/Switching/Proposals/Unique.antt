-- ===== src/Switching/Proposals/Unique.antt =====
-- A bill's list of offers has no offer twice, and no place twice
-- (`sendOffersToUser` of src/modules/bills/bills.service.ts).
use easyrisparmio_backend.Prelude.Sorting.{sort, insert_sorted}
use easyrisparmio_backend.Prelude.{
  ℕ, ◌+◌, ◌≤◌, ◌<◌, ◌==◌, ◌≡◌, refl, ap, ◌∙◌, inl, inr, Bool, true, false, ◌&&◌, not, List, [], ◌∷◌,
  ◌++◌, any, leb, arith, Bool-cases,
}
use easyrisparmio_backend.Switching.{EnergyBill, Offer, SentOffer, Key, Store}
use easyrisparmio_backend.Switching.Counts.{
  count, bit, count-append, count-filter_le, count-filter_zero, any-count,
}
use easyrisparmio_backend.Switching.Notices.{offers_sent}
use easyrisparmio_backend.Switching.Acceptance.{is_offer, has_leaving_supplier}
use easyrisparmio_backend.Switching.Proposals.{
  SelectedOffer, is_sent_to, is_sent_for, next_position, new_records, unsent, send,
  requested_offers, in_order, named, ids_of,
}
use easyrisparmio_backend.Switching.Transitions.Outcome.{send_notification-rows}

module _ {A : Type 0} (q : A → Bool) (before : A → A → Bool) where
  count-insert_sorted :
      (x : A) (xs : List A) → count q (insert_sorted before x xs) ≡ bit (q x) + count q xs
  unfolding insert_sorted
  count-insert_sorted x [] = refl
  count-insert_sorted x (y ∷ ys) = elim (Bool-cases (before y x)) [
    | inl e ↦ rw e (omega (arith, count-insert_sorted x ys))
    | inr e ↦ rw e refl
  ]

  pub count-sort : (xs : List A) → count q (sort before xs) ≡ count q xs
  unfolding sort
  count-sort [] = refl
  count-sort (x ∷ xs) =
      count-insert_sorted x (sort before xs) ∙ ap (λ n. bit (q x) + n) (count-sort xs)

-- A row of a bill at a place of its list.
abbrev pub is_at : ℕ → ℕ → SentOffer → Bool
is_at bill_id position row = row.bill_id == bill_id && row.display_order == position

pub record AreUnique (rows : List SentOffer) : Type 0 where
  pub offer_once : (bill_id offer_id : ℕ) → count (is_sent_to bill_id offer_id) rows ≤ 1
  pub place_once : (bill_id position : ℕ) → count (is_at bill_id position) rows ≤ 1

-- Every place at or after the next one is free.
next_position-free :
    (bill_id position : ℕ) (rows : List SentOffer)
    → next_position bill_id rows ≤ position
    → count (is_at bill_id position) rows ≡ 0
unfolding next_position
next_position-free bill_id position [] h = refl
next_position-free bill_id position (row ∷ rows) h =
    elim (Bool-cases
      (is_sent_for bill_id row && leb (next_position bill_id rows) row.display_order)) [
        | inl e ↦ let bound = rw e at h in ground (arith, next_position-free bill_id position rows)
        | inr e ↦ let bound = rw e at h in ground (arith, next_position-free bill_id position rows)
      ]

module _ (estimate : EnergyBill → Offer → ℕ) (b : EnergyBill) (xs : List SelectedOffer)
    (now : ℕ) where
  new_records-before :
      (k position id start : ℕ) (os : List Offer)
      → position < start
      → count (is_at k position) (new_records estimate b xs now id start os) ≡ 0
  unfolding new_records
  new_records-before k position id start [] h = refl
  new_records-before k position id start (o ∷ os) h =
      ground (arith, new_records-before k position (id + 1) (start + 1) os)

  new_records-place :
      (k position id start : ℕ) (os : List Offer)
      → count (is_at k position) (new_records estimate b xs now id start os) ≤ 1
  unfolding new_records
  new_records-place k position id start [] = omega arith
  new_records-place k position id start (o ∷ os) = ground (
    arith,
    new_records-place k position (id + 1) (start + 1) os,
    new_records-before k position (id + 1) (start + 1) os,
  )

  new_records-offer :
      (k offer_id id start : ℕ) (os : List Offer)
      → count (is_sent_to k offer_id) (new_records estimate b xs now id start os)
        ≤ count (is_offer offer_id) os
  unfolding new_records
  new_records-offer k offer_id id start [] = omega arith
  new_records-offer k offer_id id start (o ∷ os) =
      ground (arith, new_records-offer k offer_id (id + 1) (start + 1) os)

  -- The rows of another bill than the one that the offers are sent for.
  new_records-other_offer :
      (k offer_id id start : ℕ) (os : List Offer)
      → (b.id == k) ≡ false
      → count (is_sent_to k offer_id) (new_records estimate b xs now id start os) ≡ 0
  unfolding new_records
  new_records-other_offer k offer_id id start [] e = refl
  new_records-other_offer k offer_id id start (o ∷ os) e =
      rw e (omega (arith, new_records-other_offer k offer_id (id + 1) (start + 1) os e))

  new_records-other_place :
      (k position id start : ℕ) (os : List Offer)
      → (b.id == k) ≡ false
      → count (is_at k position) (new_records estimate b xs now id start os) ≡ 0
  unfolding new_records
  new_records-other_place k position id start [] e = refl
  new_records-other_place k position id start (o ∷ os) e =
      rw e (omega (arith, new_records-other_place k position (id + 1) (start + 1) os e))

-- An offer that the bill has a row for is not sent again.
unsent_zero :
    (b : EnergyBill) (os : List Offer) (s : Store) (id : ℕ)
    → any (is_sent_to b.id id) s.sent_offers ≡ true
    → count (is_offer id) (unsent b os s) ≡ 0
unsent_zero b os s id h =
    count-filter_zero (is_offer id) (λ o. not (any (is_sent_to b.id o.id) s.sent_offers))
      (λ o e. let same : o.id ≡ id = ground arith in rw (same, h) refl) os

pub requested_offers_le :
    (xs : List SelectedOffer) (s : Store) (id : ℕ)
    → count (is_offer id) (requested_offers xs s) ≤ count (is_offer id) s.offers
unfolding requested_offers
requested_offers_le xs s id = omega (
  arith,
  count-filter_le (is_offer id) (λ o. not (has_leaving_supplier o s))
      (sort (in_order xs) (named xs s)),
  count-sort (is_offer id) (in_order xs) (named xs s),
  count-filter_le (is_offer id) (λ o. any (λ i. o.id == i) (ids_of xs)) s.offers,
)

-- Ids are keys of the offers.
abbrev pub AreOffers : List Offer → Type 0
AreOffers os = (id : ℕ) → count (is_offer id) os ≤ 1

module _ (estimate : EnergyBill → Offer → ℕ) (b : EnergyBill) (xs : List SelectedOffer)
    (os : List Offer) (s : Store) (id : ℕ) where
  abbrev rows : List SentOffer
  rows = new_records estimate b xs s.now id (next_position b.id s.sent_offers) (unsent b os s)

  offer_once :
      (k offer_id : ℕ)
      → AreOffers os
      → count (is_sent_to k offer_id) s.sent_offers ≤ 1
      → count (is_sent_to k offer_id) (rows ++ s.sent_offers) ≤ 1
  offer_once k o keys h =
      let sum = count-append (is_sent_to k o) rows s.sent_offers in
      let place = next_position b.id s.sent_offers in
      let most = new_records-offer estimate b xs s.now k o id place (unsent b os s) in
      elim (Bool-cases (b.id == k)) [
        | inr e ↦ omega (
          arith,
          sum,
          h,
          new_records-other_offer estimate b xs s.now k o id place (unsent b os s) e,
        )
        | inl e ↦ elim (Bool-cases (any (is_sent_to k o) s.sent_offers)) [
          | inr f ↦ omega (
            arith,
            sum,
            most,
            any-count (is_sent_to k o) s.sent_offers f,
            keys o,
            count-filter_le (is_offer o) (λ p. not (any (is_sent_to b.id p.id) s.sent_offers)) os,
          )
          | inl f ↦
              let same : k ≡ b.id = ground arith in
              omega (arith, sum, most, h, unsent_zero b os s o (rw same at f))
        ]
      ]

  place_once :
      (k position : ℕ)
      → count (is_at k position) s.sent_offers ≤ 1
      → count (is_at k position) (rows ++ s.sent_offers) ≤ 1
  place_once k p h =
      let sum = count-append (is_at k p) rows s.sent_offers in
      let place = next_position b.id s.sent_offers in
      elim (Bool-cases (b.id == k)) [
        | inr e ↦ omega (
          arith,
          sum,
          h,
          new_records-other_place estimate b xs s.now k p id place (unsent b os s) e,
        )
        | inl e ↦
            let same : k ≡ b.id = ground arith in
            elim (Bool-cases (leb place p)) [
              | inl f ↦
                  let free : count (is_at k p) s.sent_offers ≡ 0 =
                    rw same (next_position-free b.id p s.sent_offers (ground arith)) in
                  omega (
                    arith,
                    sum,
                    free,
                    new_records-place estimate b xs s.now k p id place (unsent b os s),
                  )
              | inr f ↦ omega (
                arith,
                sum,
                h,
                new_records-before estimate b xs s.now k p id place (unsent b os s) (ground arith),
              )
            ]
      ]

pub send-AreUnique :
    (estimate : EnergyBill → Offer → ℕ) (resolves : List ℕ → Key → Bool) (b : EnergyBill)
    (xs : List SelectedOffer) (os : List Offer) (s : Store)
    → AreOffers os
    → AreUnique s.sent_offers
    → AreUnique (send estimate resolves b xs os s).sent_offers
unfolding send offers_sent
send-AreUnique estimate resolves b xs os s keys h =
    rw (send_notification-rows resolves _ _ _).sent_offers (record {
      offer_once = λ k o. offer_once estimate b xs os s s.next_id k o keys (h.offer_once k o);
      place_once = λ k p. place_once estimate b xs os s s.next_id k p (h.place_once k p);
    })
