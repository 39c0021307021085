-- ===== src/Cases/Columns/Coherence.antt =====
-- What a case holds after its addresses or its contract details were written
-- (src/modules/cases/cases.service.ts).
use mathlib.Core.Bool.{false≢true}
use easyrisparmio_backend.Prelude.{
  ℕ, ◌++◌, ◌≡◌, ◌≢◌, refl, sym, ap, inl, inr, ◌∙◌, Bool, true, false, List, [], if◌then◌else◌,
  Bool-cases,
}
use easyrisparmio_backend.Cases.Columns.{
  Block, supply, residential, shipping, Part, street, street_number, city, postal_code, province,
  Column, address, same_as_supply, detail, Detail, column_eq, Value, Dto, Columns, Edit, write_all,
  columns_of, case_address_fields, is_truthy, copy_block, apply_address_fields,
}
use easyrisparmio_backend.Cases.Columns.Writes.{
  mentions, mentions_part, requested, write_all-requested, copy_parts-supply, copy_parts-other,
}

every_part : (p : Part) → mentions_part p case_address_fields ≡ true
every_part street = refl
every_part street_number = refl
every_part city = refl
every_part postal_code = refl
every_part province = refl

module _ (b : Block) (st : Edit) where
  copy_block-supply :
      (p : Part)
      → b ≢ supply
      → (copy_block b st).0 (address b p) ≡ (
          if is_truthy (st.0 (same_as_supply b))
          then st.0 (address supply p)
          else st.0 (address b p))
  unfolding copy_block
  copy_block-supply p other = elim (Bool-cases (is_truthy (st.0 (same_as_supply b)))) [
    | inl t ↦
        rw (t, copy_block)
          (copy_parts-supply b other case_address_fields st p ∙ rw (every_part p) refl)
    | inr t ↦ rw (t, copy_block) refl
  ]

  copy_block-other : (d : Column) → ((p : Part) → d ≢ address b p) → (copy_block b st).0 d ≡ st.0 d
  unfolding copy_block
  copy_block-other d n = elim (Bool-cases (is_truthy (st.0 (same_as_supply b)))) [
    | inl t ↦ rw (t, copy_block) (copy_parts-other b case_address_fields st d n)
    | inr t ↦ rw (t, copy_block) refl
  ]

-- The columns that the first loop reads from the request.
abbrev address_columns : List Column
address_columns = columns_of supply ++ columns_of residential ++ columns_of shipping

every_address : (b : Block) (p : Part) → mentions (address b p) address_columns ≡ true
unfolding column_eq
every_address supply street = refl
every_address supply street_number = refl
every_address supply city = refl
every_address supply postal_code = refl
every_address supply province = refl
every_address residential street = refl
every_address residential street_number = refl
every_address residential city = refl
every_address residential postal_code = refl
every_address residential province = refl
every_address shipping street = refl
every_address shipping street_number = refl
every_address shipping city = refl
every_address shipping postal_code = refl
every_address shipping province = refl

no_detail : (d : Detail) → mentions (detail d) address_columns ≡ false
unfolding column_eq
no_detail d = refl

no_supply_flag : mentions (same_as_supply supply) address_columns ≡ false
unfolding column_eq
no_supply_flag = refl

abbrev is_address : Column → Bool
is_address (address b p) = true
is_address _ = false

module _ (upper_beyond : ℕ → List ℕ) (dto : Dto) (cs : Columns) where
  abbrev written : Column → Value
  written c = requested upper_beyond dto c (cs c)

  -- Every column after an edit of the addresses, said at once: what the request stores or what was
  -- there, but a block that is the same as the supply address is the supply address.
  unfoldable pub coherent : Column → Value
  coherent (address supply p) = written (address supply p)
  coherent (address residential p) =
      if is_truthy (written (same_as_supply residential))
      then written (address supply p)
      else written (address residential p)
  coherent (address shipping p) =
      if is_truthy (written (same_as_supply shipping))
      then written (address supply p)
      else written (address shipping p)
  coherent (same_as_supply supply) = cs (same_as_supply supply)
  coherent (same_as_supply residential) = written (same_as_supply residential)
  coherent (same_as_supply shipping) = written (same_as_supply shipping)
  coherent (detail d) = cs (detail d)

  first_loop : Edit
  first_loop = write_all upper_beyond dto address_columns (cs, [])

  first : (c : Column) → mentions c address_columns ≡ true → first_loop.0 c ≡ written c
  unfolding first_loop
  first c m = write_all-requested upper_beyond dto address_columns (cs, []) c ∙ rw m refl

  untouched : (c : Column) → mentions c address_columns ≡ false → first_loop.0 c ≡ cs c
  unfolding first_loop
  untouched c m = write_all-requested upper_beyond dto address_columns (cs, []) c ∙ rw m refl

  loops :
      apply_address_fields upper_beyond dto cs
      ≡ copy_block shipping (copy_block residential first_loop)
  unfolding apply_address_fields first_loop write_all
  loops = refl

  neither :
      (d : Column)
      → is_address d ≡ false
      → (copy_block shipping (copy_block residential first_loop)).0 d ≡ first_loop.0 d
  neither d h =
      copy_block-other shipping (copy_block residential first_loop) d
        (λ p e. false≢true (sym h ∙ ap is_address e))
      ∙ copy_block-other residential first_loop d (λ p e. false≢true (sym h ∙ ap is_address e))

  loop_flag :
      (b : Block) → b ≢ supply → first_loop.0 (same_as_supply b) ≡ written (same_as_supply b)
  unfolding column_eq
  loop_flag supply n = absurd (n refl)
  loop_flag residential n = first (same_as_supply residential) refl
  loop_flag shipping n = first (same_as_supply shipping) refl

  copied :
      (b : Block) (p : Part)
      → b ≢ supply
      → (copy_block b first_loop).0 (address b p) ≡ (
          if is_truthy (written (same_as_supply b))
          then written (address supply p)
          else written (address b p))
  copied b p n =
      copy_block-supply b first_loop p n
      ∙ rw
          (
            loop_flag b n,
            first (address supply p) (every_address supply p),
            first (address b p) (every_address b p),
          )
          refl

  -- The address writer leaves every column as `coherent` says: a column that the request sends is
  -- stored in its normal form, any other keeps its value, and the residential and the shipping
  -- address are the supply address wherever they are marked as the same.
  pub apply_address_fields-coherent :
      (c : Column) → (apply_address_fields upper_beyond dto cs).0 c ≡ coherent c
  unfolding coherent
  apply_address_fields-coherent (address supply p) = rw loops (
      copy_block-other shipping (copy_block residential first_loop) (address supply p) (λ q e. cc)
      ∙ copy_block-other residential first_loop (address supply p) (λ q e. cc)
      ∙ first (address supply p) (every_address supply p))
  apply_address_fields-coherent (address residential p) = rw loops (
      copy_block-other shipping (copy_block residential first_loop) (address residential p)
        (λ q e. cc)
      ∙ copied residential p (λ e. cc))
  apply_address_fields-coherent (address shipping p) = rw loops (
      copy_block-supply shipping (copy_block residential first_loop) p (λ e. cc)
      ∙ rw
          (
            copy_block-other residential first_loop (same_as_supply shipping) (λ q e. cc),
            copy_block-other residential first_loop (address supply p) (λ q e. cc),
            copy_block-other residential first_loop (address shipping p) (λ q e. cc),
            loop_flag shipping (λ e. cc),
            first (address supply p) (every_address supply p),
            first (address shipping p) (every_address shipping p),
          )
          refl)
  apply_address_fields-coherent (same_as_supply supply) =
      rw loops
        (neither (same_as_supply supply) refl ∙ untouched (same_as_supply supply) no_supply_flag)
  apply_address_fields-coherent (same_as_supply residential) =
      rw loops (neither (same_as_supply residential) refl ∙ loop_flag residential (λ e. cc))
  apply_address_fields-coherent (same_as_supply shipping) =
      rw loops (neither (same_as_supply shipping) refl ∙ loop_flag shipping (λ e. cc))
  apply_address_fields-coherent (detail d) =
      rw loops (neither (detail d) refl ∙ untouched (detail d) (no_detail d))
