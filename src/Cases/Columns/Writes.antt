-- ===== src/Cases/Columns/Writes.antt =====
-- What single writes and lists of writes do to the columns of a case
-- (src/modules/cases/cases.service.ts).
use mathlib.Core.Path.{subst}
use easyrisparmio_backend.Prelude.{
  ℕ, ◌++◌, ◌≡◌, ◌≢◌, refl, sym, ap, ◌∙◌, inl, inr, Bool, true, false, Option, none, some, List, [],
  ◌∷◌, arith, if◌then◌else◌, Bool-cases, Option-cases, text_eq_sound,
}
use easyrisparmio_backend.Cases.Columns.{
  Block, Part, street, Column, column_eq, Value, null, flag, text, same_value, Dto, Edit, set,
  stored, write, write_all, copy_parts, address, supply,
}

same_value_sound : (v w : Value) → same_value v w ≡ true → v ≡ w
same_value_sound null null h = refl
same_value_sound (flag true) (flag true) h = refl
same_value_sound (flag false) (flag false) h = refl
same_value_sound (text t) (text u) h = let e = text_eq_sound t u h in ground arith
same_value_sound _ _ h = absurd (cc)

-- A write sets its column and leaves the others, also when it finds the value there already.
pub set-hit : (c : Column) (v : Value) (st : Edit) → (set c v st).0 c ≡ v
unfolding set
set-hit c v (cs, changes) = elim (Bool-cases (same_value (cs c) v)) [
  | inl e ↦ rw e (same_value_sound (cs c) v e)
  | inr e ↦ rw e (elim (column_eq c c) as (λ x. elim x [ yes p ↦ v | no n ↦ cs c ] ≡ v) [
    | yes p ↦ refl
    | no n ↦ absurd (n refl)
  ])
]

pub set-miss : (c d : Column) (v : Value) (st : Edit) → d ≢ c → (set c v st).0 d ≡ st.0 d
unfolding set
set-miss c d v (cs, changes) n = elim (Bool-cases (same_value (cs c) v)) [
  | inl e ↦ rw e refl
  | inr e ↦ rw e (elim (column_eq d c) as (λ x. elim x [ yes p ↦ v | no k ↦ cs d ] ≡ cs d) [
    | yes p ↦ absurd (n p)
    | no k ↦ refl
  ])
]

abbrev pub mentions : Column → List Column → Bool
mentions d [] = false
mentions d (c ∷ cs) =
    let rest = mentions d cs in elim (column_eq d c) [ yes e ↦ true | no n ↦ rest ]

abbrev pub or_stored : (ℕ → List ℕ) → Column → Option Value → Value → Value
or_stored upper_beyond c none v = v
or_stored upper_beyond c (some w) v = stored upper_beyond c w

or_stored_twice :
    (upper_beyond : ℕ → List ℕ) (c : Column) (o : Option Value) (v : Value)
    → or_stored upper_beyond c o (or_stored upper_beyond c o v) ≡ or_stored upper_beyond c o v
or_stored_twice upper_beyond c none v = refl
or_stored_twice upper_beyond c (some w) v = refl

-- A column after a request: what the request stores in it, or what it held.
unfoldable pub requested : (ℕ → List ℕ) → Dto → Column → Value → Value
requested upper_beyond dto c v = or_stored upper_beyond c (dto c) v

module _ (upper_beyond : ℕ → List ℕ) (dto : Dto) where
  requested_twice :
      (c : Column) (v : Value)
      → requested upper_beyond dto c (requested upper_beyond dto c v)
        ≡ requested upper_beyond dto c v
  unfolding requested
  requested_twice c v = or_stored_twice upper_beyond c (dto c) v

  write-hit :
      (c : Column) (st : Edit)
      → (write upper_beyond dto c st).0 c ≡ requested upper_beyond dto c (st.0 c)
  unfolding requested
  write-hit c st = elim (Option-cases (dto c)) [
    | inl e ↦ rw (e, write, requested) refl
    | inr (w, e) ↦ rw (e, write, requested) (set-hit c (stored upper_beyond c w) st)
  ]

  write-miss : (c d : Column) (st : Edit) → d ≢ c → (write upper_beyond dto c st).0 d ≡ st.0 d
  write-miss c d st n = elim (Option-cases (dto c)) [
    | inl e ↦ rw (e, write) refl
    | inr (w, e) ↦ rw (e, write) (set-miss c d (stored upper_beyond c w) st n)
  ]

  -- A list of writes reaches the columns that it mentions, in whatever order and however often.
  pub write_all-requested :
      (cs : List Column) (st : Edit) (d : Column)
      → (write_all upper_beyond dto cs st).0 d
        ≡ (if mentions d cs then requested upper_beyond dto d (st.0 d) else st.0 d)
  unfolding write_all
  write_all-requested [] st d = refl
  write_all-requested (c ∷ cs) st d =
      let rest = write_all-requested cs (write upper_beyond dto c st) d in
      rest
      ∙ elim (column_eq d c)
          as (λ x.
            (if mentions d cs
              then requested upper_beyond dto d ((write upper_beyond dto c st).0 d)
              else (write upper_beyond dto c st).0 d)
            ≡ (if (elim x [ yes e ↦ true | no n ↦ mentions d cs ])
                then requested upper_beyond dto d (st.0 d)
                else st.0 d)) [
                  | no n ↦ rw (write-miss c d st n) refl
                  | yes e ↦
                      let hit =
                        subst
                          (λ x.
                            (write upper_beyond dto c st).0 x
                            ≡ requested upper_beyond dto x (st.0 x))
                          (sym e) (write-hit c st) in
                      rw hit (elim (Bool-cases (mentions d cs)) [
                        | inl m ↦ rw m (requested_twice d (st.0 d))
                        | inr m ↦ rw m refl
                      ])
                ]

  pub write_all-append :
      (cs ds : List Column) (st : Edit)
      → write_all upper_beyond dto (cs ++ ds) st
        ≡ write_all upper_beyond dto ds (write_all upper_beyond dto cs st)
  unfolding write_all
  write_all-append [] ds st = refl
  write_all-append (c ∷ cs) ds st = write_all-append cs ds (write upper_beyond dto c st)

abbrev part_eq : Discrete Part
part_eq = hlevel

abbrev pub mentions_part : Part → List Part → Bool
mentions_part p [] = false
mentions_part p (q ∷ qs) =
    let rest = mentions_part p qs in elim (part_eq p q) [ yes e ↦ true | no n ↦ rest ]

block_of : Column → Block
block_of (address b p) = b
block_of _ = supply

part_of : Column → Part
part_of (address b p) = p
part_of _ = street

module _ (b : Block) (other : b ≢ supply) where
  -- Copying fills a block from the supply address.
  pub copy_parts-supply :
      (ps : List Part) (st : Edit) (p : Part)
      → (copy_parts b ps st).0 (address b p)
        ≡ (if mentions_part p ps then st.0 (address supply p) else st.0 (address b p))
  unfolding copy_parts block_of part_of
  copy_parts-supply [] st p = refl
  copy_parts-supply (q ∷ qs) st p =
      let source =
        set-miss (address b q) (address supply p) (st.0 (address supply q)) st
          (λ e. other (sym (ap block_of e))) in
      copy_parts-supply qs (set (address b q) (st.0 (address supply q)) st) p
      ∙ rw source
          (elim (part_eq p q)
            as (λ x.
              (if mentions_part p qs
                then st.0 (address supply p)
                else (set (address b q) (st.0 (address supply q)) st).0 (address b p))
              ≡ (if (elim x [ yes e ↦ true | no n ↦ mentions_part p qs ])
                  then st.0 (address supply p)
                  else st.0 (address b p))) [
                    | no n ↦
                        rw
                          (set-miss (address b q) (address b p) (st.0 (address supply q)) st
                            (λ e. n (ap part_of e)))
                          refl
                    | yes e ↦
                        let hit =
                          subst
                            (λ x.
                              (set (address b q) (st.0 (address supply q)) st).0 (address b x)
                              ≡ st.0 (address supply x))
                            (sym e) (set-hit (address b q) (st.0 (address supply q)) st) in
                        rw hit (elim (Bool-cases (mentions_part p qs)) [
                          | inl m ↦ rw m refl
                          | inr m ↦ rw m refl
                        ])
                  ])

pub copy_parts-other :
    (b : Block) (ps : List Part) (st : Edit) (d : Column)
    → ((p : Part) → d ≢ address b p)
    → (copy_parts b ps st).0 d ≡ st.0 d
unfolding copy_parts
copy_parts-other b [] st d n = refl
copy_parts-other b (q ∷ qs) st d n =
    copy_parts-other b qs (set (address b q) (st.0 (address supply q)) st) d n
    ∙ set-miss (address b q) d (st.0 (address supply q)) st (n q)
