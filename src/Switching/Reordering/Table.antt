-- ===== src/Switching/Reordering/Table.antt =====
-- The table after `reorderSentOffers` of src/modules/bills/bills.service.ts: each row at the place
-- that the saved list gives it.

use easyrisparmio_backend.Prelude.{
  ℕ, zero, suc, ◌+◌, ◌≤◌, ◌==◌, ◌≡◌, refl, sym, ap, ◌∙◌, inl, inr, true, false, Option, none, some,
  List, [], ◌∷◌, map, get_elem?, arith, if◌then◌else◌, Bool-cases,
}
use easyrisparmio_backend.Switching.{SentOffer, update_where}
use easyrisparmio_backend.Switching.Counts.{count}
use easyrisparmio_backend.Switching.Reordering.{is_row, save_order}

-- The place that a list, counted from a position, gives to an id.
abbrev pub row_place : ℕ → ℕ → List SentOffer → Option ℕ
row_place k position [] = none
row_place k position (x ∷ xs) =
    let rest = row_place k (position + 1) xs in if x.id == k then some position else rest

abbrev pub set_place : Option ℕ → SentOffer → SentOffer
set_place none r = r
set_place (some q) r = record r { display_order = q }

abbrev pub placed : ℕ → List SentOffer → SentOffer → SentOffer
placed position rows r = set_place (row_place r.id position rows) r

pub row_place-none :
    (k position : ℕ) (rows : List SentOffer)
    → count (is_row k) rows ≡ 0
    → row_place k position rows ≡ none
row_place-none k position [] h = refl
row_place-none k position (x ∷ xs) h = ground (arith, row_place-none k (position + 1) xs)

pub none-row_place :
    (k position : ℕ) (rows : List SentOffer)
    → row_place k position rows ≡ none
    → count (is_row k) rows ≡ 0
none-row_place k position [] h = refl
none-row_place k position (x ∷ xs) h = elim (Bool-cases (x.id == k)) [
  | inl e ↦ absurd (cc (rw e at h))
  | inr e ↦ rw e (omega (arith, none-row_place k (position + 1) xs (rw e at h)))
]

pub row_place-some :
    (k position q : ℕ) (rows : List SentOffer)
    → row_place k position rows ≡ some q
    → (i : ℕ) × (x : SentOffer) × ((q ≡ position + i) × ((get_elem? rows i ≡ some x) × (x.id ≡ k)))
row_place-some k position q [] h = absurd (cc)
row_place-some k position q (x ∷ xs) h = elim (Bool-cases (x.id == k)) [
  | inl e ↦ (zero, x, ((let g = rw e at h in ground arith), (refl, ground arith)))
  | inr e ↦
      let (i, y, r) = row_place-some k (position + 1) q xs (rw e at h) in
      (suc i, y, (omega (arith, r.0), r.1))
]

-- One round of the save, for each row of the table.
save_round :
    (position : ℕ) (x : SentOffer) (xs table : List SentOffer)
    → count (is_row x.id) xs ≡ 0
    → map
        (placed (position + 1) xs)
        (update_where (is_row x.id) (λ r. record r { display_order = position }) table)
      ≡ map (placed position (x ∷ xs)) table
save_round position x xs [] h = refl
save_round position x xs (r ∷ rs) h = elim (Bool-cases (r.id == x.id)) [
  | inl e ↦
      let same : r.id ≡ x.id = ground arith in
      let swapped : (x.id == r.id) ≡ true = ground arith in
      let alone : row_place r.id (position + 1) xs ≡ none =
        row_place-none r.id (position + 1) xs (rw same h) in
      rw (e, swapped, alone)
        (ap (λ t. record r { display_order = position } ∷ t) (save_round position x xs rs h))
  | inr e ↦
      let swapped : (x.id == r.id) ≡ false = ground arith in
      rw (e, swapped) (ap (λ t. placed (position + 1) xs r ∷ t) (save_round position x xs rs h))
]

unplaced : (position : ℕ) (table : List SentOffer) → map (placed position []) table ≡ table
unplaced position [] = refl
unplaced position (r ∷ rs) = ap (λ t. r ∷ t) (unplaced position rs)

-- Saving a list without a row twice puts every row where the list has it.
pub save_order-placed :
    (position : ℕ) (rows table : List SentOffer)
    → ((k : ℕ) → count (is_row k) rows ≤ 1)
    → save_order position rows table ≡ map (placed position rows) table
unfolding save_order
save_order-placed position [] table h = sym (unplaced position table)
save_order-placed position (x ∷ xs) table h =
    save_order-placed (position + 1) xs _ (λ k. let most = h k in ground arith)
    ∙ save_round position x xs table (let most = h x.id in ground arith)
