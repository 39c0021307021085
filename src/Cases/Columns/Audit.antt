-- ===== src/Cases/Columns/Audit.antt =====
-- The changes that an edit of a case reports for its timeline (src/modules/cases/cases.service.ts).
use easyrisparmio_backend.Prelude.{
  ◌≡◌, ◌≢◌, refl, sym, ◌∙◌, ◌⊎◌, inl, inr, ℕ, Option, none, some, List, [], ◌∷◌, map, Bool-cases,
  Option-cases,
}
use mathlib.Core.Path.{subst}
use easyrisparmio_backend.Cases.Columns.{
  Block, supply, residential, shipping, Part, Column, address, same_as_supply, detail, column_eq,
  Value, same_value, Dto, Columns, Change, note_change, Edit, set, stored, write, write_all,
  columns_of, case_address_fields, case_contract_detail_fields, is_truthy, copy_parts, copy_block,
  apply_address_fields, apply_contract_detail_fields,
}
use easyrisparmio_backend.Cases.Columns.Writes.{set-hit, set-miss}

-- The entry of a column in the changes.
abbrev pub recorded : Column → List Change → Option Change
recorded d [] = none
recorded d (c ∷ cs) =
    let rest = recorded d cs in elim (column_eq d c.field) [ yes e ↦ some c | no n ↦ rest ]

recorded-same :
    (d : Column) (c : Change) (cs : List Change) → d ≡ c.field → recorded d (c ∷ cs) ≡ some c
recorded-same d c cs same =
    elim (column_eq d c.field) as (λ x. elim x [ yes e ↦ some c | no n ↦ recorded d cs ] ≡ some c) [
      | yes e ↦ refl
      | no n ↦ absurd (n same)
    ]

recorded-next :
    (d : Column) (c : Change) (cs : List Change) → d ≢ c.field → recorded d (c ∷ cs) ≡ recorded d cs
recorded-next d c cs other =
    elim (column_eq d c.field)
      as (λ x. elim x [ yes e ↦ some c | no n ↦ recorded d cs ] ≡ recorded d cs) [
        | yes e ↦ absurd (other e)
        | no n ↦ refl
      ]

recorded-hit : (n : Change) (cs : List Change) → recorded n.field (note_change n cs) ≡ some n
recorded-hit n [] = recorded-same n.field n [] refl
recorded-hit n (c ∷ cs) =
    elim (column_eq n.field c.field)
      as (λ x.
        recorded n.field (elim x [ yes e ↦ n ∷ cs | no k ↦ c ∷ note_change n cs ]) ≡ some n) [
          | yes e ↦ recorded-same n.field n cs refl
          | no k ↦ recorded-next n.field c (note_change n cs) k ∙ recorded-hit n cs
        ]

recorded-miss :
    (n : Change) (d : Column) (cs : List Change)
    → d ≢ n.field
    → recorded d (note_change n cs) ≡ recorded d cs
recorded-miss n d [] other = recorded-next d n [] other
recorded-miss n d (c ∷ cs) other =
    elim (column_eq n.field c.field)
      as (λ x.
        recorded d (elim x [ yes e ↦ n ∷ cs | no k ↦ c ∷ note_change n cs ])
        ≡ recorded d (c ∷ cs)) [
          | yes e ↦ recorded-next d n cs other ∙ sym (recorded-next d c cs (λ q. other (q ∙ sym e)))
          | no k ↦
              elim (column_eq d c.field)
                as (λ x.
                  elim x [ yes e ↦ some c | no m ↦ recorded d (note_change n cs) ]
                  ≡ elim x [ yes e ↦ some c | no m ↦ recorded d cs ]) [
                    | yes e ↦ refl
                    | no m ↦ recorded-miss n d cs other
                  ]
        ]

change_of : Column → Value → Edit → Change
change_of c v st = record { field = c; old = st.0 c; new = v }

set-changes :
    (c : Column) (v : Value) (st : Edit)
    → (set c v st ≡ st) ⊎ ((set c v st).1 ≡ note_change (change_of c v st) st.1)
unfolding set change_of
set-changes c v (cs, changes) = elim (Bool-cases (same_value (cs c) v)) [
  | inl e ↦ inl (rw (e, set) refl)
  | inr e ↦ inr (rw (e, set) refl)
]

module _ (init : Columns) where
  -- A column without an entry holds what it held at first, and an entry tells what it holds now.
  abbrev pub Tells : Edit → Type 0
  Tells st =
      (d : Column)
      → ((recorded d st.1 ≡ none) × (st.0 d ≡ init d))
        ⊎ ((n : Change) × (recorded d st.1 ≡ some n) × (n.new ≡ st.0 d))

  set-Tells : (c : Column) (v : Value) (st : Edit) → Tells st → Tells (set c v st)
  unfolding change_of
  set-Tells c v st h d = elim (set-changes c v st) [
    | inl same ↦ rw same (h d)
    | inr noted ↦ rw noted (elim (column_eq d c) [
      | yes e ↦ inr (
        change_of c v st,
        subst (λ x. recorded x (note_change (change_of c v st) st.1) ≡ some (change_of c v st))
            (sym e) (recorded-hit (change_of c v st) st.1),
        subst (λ x. v ≡ (set c v st).0 x) (sym e) (sym (set-hit c v st)),
      )
      | no n ↦ rw (recorded-miss (change_of c v st) d st.1 n, set-miss c d v st n) (h d)
    ])
  ]

  copy_parts-Tells :
      (b : Block) (ps : List Part) (st : Edit) → Tells st → Tells (copy_parts b ps st)
  unfolding copy_parts
  copy_parts-Tells b [] st h = h
  copy_parts-Tells b (p ∷ ps) st h =
      copy_parts-Tells b ps (set (address b p) (st.0 (address supply p)) st)
        (set-Tells (address b p) (st.0 (address supply p)) st h)

  copy_block-Tells : (b : Block) (st : Edit) → Tells st → Tells (copy_block b st)
  unfolding copy_block
  copy_block-Tells b st h = elim (Bool-cases (is_truthy (st.0 (same_as_supply b)))) [
    | inl t ↦ rw (t, copy_block) (copy_parts-Tells b case_address_fields st h)
    | inr t ↦ rw (t, copy_block) h
  ]

  module _ (upper_beyond : ℕ → List ℕ) (dto : Dto) where
    write-Tells : (c : Column) (st : Edit) → Tells st → Tells (write upper_beyond dto c st)
    write-Tells c st h = elim (Option-cases (dto c)) [
      | inl e ↦ rw (e, write) h
      | inr (w, e) ↦ rw (e, write) (set-Tells c (stored upper_beyond c w) st h)
    ]

    write_all-Tells :
        (cs : List Column) (st : Edit) → Tells st → Tells (write_all upper_beyond dto cs st)
    unfolding write_all
    write_all-Tells [] st h = h
    write_all-Tells (c ∷ cs) st h =
        write_all-Tells cs (write upper_beyond dto c st) (write-Tells c st h)

    -- The changes that the two writers report tell the whole edit: a column that they do not name
    -- holds what it held before, and for one that they name the new value is what the column holds
    -- now.
    pub apply_fields-Tells :
        Tells (apply_address_fields upper_beyond dto init)
        × Tells (apply_contract_detail_fields upper_beyond dto init)
    unfolding apply_address_fields apply_contract_detail_fields
    apply_fields-Tells = (
      copy_block-Tells shipping _ (
          copy_block-Tells residential _ (
            write_all-Tells (columns_of shipping) _ (
              write_all-Tells (columns_of residential) _
                (write_all-Tells (columns_of supply) (init, []) (λ d. inl (refl, refl)))))),
      write_all-Tells (map detail case_contract_detail_fields) (init, []) (λ d. inl (refl, refl)),
    )
