-- ===== src/Legal/Ledger.antt =====
-- The ledger of acceptances under inserts that ignore a key that is there: the unique index and
-- `persistAcceptances` of src/modules/legal/legal.service.ts.
use mathlib.Core.Path.{subst}
use mathlib.Core.List.{append-nil, append_assoc}
use easyrisparmio_backend.Prelude.{
  ◌≡◌, refl, sym, ◌∙◌, inl, inr, Bool, true, false, ◌||◌, List, [], ◌∷◌, ◌++◌, any, All,
  text_eq_iff, arith, Bool-cases,
}
use easyrisparmio_backend.Legal.{UserLegalAcceptance}
use easyrisparmio_backend.Legal.Acceptances.{same_key, insert_or_ignore}

-- One row for a user, a document and a version.
abbrev pub AreOnce : List UserLegalAcceptance → Type 0
AreOnce [] = Unit
AreOnce (a ∷ rows) = (any (same_key a) rows ≡ false) × AreOnce rows

-- The rows that were there are there still, unchanged and in their order, before any new ones.
abbrev pub Extends : List UserLegalAcceptance → List UserLegalAcceptance → Type 0
Extends old rows = (new : List UserLegalAcceptance) × (rows ≡ old ++ new)

pub Extends-refl : (rows : List UserLegalAcceptance) → Extends rows rows
Extends-refl rows = ([], sym (append-nil rows))

pub Extends-trans : (a b c : List UserLegalAcceptance) → Extends a b → Extends b c → Extends a c
Extends-trans a b c (x, p) (y, q) = (x ++ y, q ∙ rw p (append_assoc a x y))

any-append {ℓ} :
    {A : Type ℓ} (p : A → Bool) (xs ys : List A) → any p (xs ++ ys) ≡ (any p xs || any p ys)
any-append p [] ys = refl
any-append p (x ∷ xs) ys = ground (arith, any-append p xs ys)

pub any-Extends :
    (p : UserLegalAcceptance → Bool) (old rows : List UserLegalAcceptance)
    → Extends old rows
    → any p old ≡ true
    → any p rows ≡ true
any-Extends p old rows (new, e) h = rw e (ground (arith, any-append p old new))

same_key_comm : (a b : UserLegalAcceptance) → same_key a b ≡ same_key b a
same_key_comm a b = ground (
  arith,
  text_eq_iff a.slug b.slug,
  text_eq_iff b.slug a.slug,
  text_eq_iff a.version b.version,
  text_eq_iff b.version a.version,
)

append-AreOnce :
    (rows : List UserLegalAcceptance) (a : UserLegalAcceptance)
    → AreOnce rows
    → any (same_key a) rows ≡ false
    → AreOnce (rows ++ a ∷ [])
append-AreOnce [] a h k = (refl, tt)
append-AreOnce (b ∷ rows) a (h, hs) k = (
  ground (arith, any-append (same_key b) rows (a ∷ []), same_key_comm b a),
  append-AreOnce rows a hs (ground arith),
)

pub insert_or_ignore-AreOnce :
    (rows table : List UserLegalAcceptance) → AreOnce table → AreOnce (insert_or_ignore rows table)
unfolding insert_or_ignore
insert_or_ignore-AreOnce [] table h = h
insert_or_ignore-AreOnce (a ∷ rows) table h = elim (Bool-cases (any (same_key a) table)) [
  | inl t ↦ rw t (insert_or_ignore-AreOnce rows table h)
  | inr f ↦ rw f (insert_or_ignore-AreOnce rows (table ++ a ∷ []) (append-AreOnce table a h f))
]

pub insert_or_ignore-Extends :
    (rows table : List UserLegalAcceptance) → Extends table (insert_or_ignore rows table)
unfolding insert_or_ignore
insert_or_ignore-Extends [] table = Extends-refl table
insert_or_ignore-Extends (a ∷ rows) table = elim (Bool-cases (any (same_key a) table)) [
  | inl t ↦ rw t (insert_or_ignore-Extends rows table)
  | inr f ↦ rw f (
      Extends-trans table (table ++ a ∷ []) _ (a ∷ [], refl)
        (insert_or_ignore-Extends rows (table ++ a ∷ [])))
]

same_key_refl : (a : UserLegalAcceptance) → same_key a a ≡ true
same_key_refl a = ground (arith, text_eq_iff a.slug a.slug, text_eq_iff a.version a.version)

-- A table has the keys of some rows.
abbrev pub HaveKeys : List UserLegalAcceptance → List UserLegalAcceptance → Type 0
HaveKeys rows table = All (λ a. any (same_key a) table ≡ true) rows

-- Every row of the statement has its key in the table afterwards.
pub insert_or_ignore-HaveKeys :
    (rows table : List UserLegalAcceptance) → HaveKeys rows (insert_or_ignore rows table)
unfolding insert_or_ignore
insert_or_ignore-HaveKeys [] table = tt
insert_or_ignore-HaveKeys (a ∷ rows) table = elim (Bool-cases (any (same_key a) table)) [
  | inl t ↦
      let e : insert_or_ignore (a ∷ rows) table ≡ insert_or_ignore rows table = rw t refl in
      subst (HaveKeys (a ∷ rows)) (sym e) (
        any-Extends (same_key a) table _ (insert_or_ignore-Extends rows table) t,
        insert_or_ignore-HaveKeys rows table,
      )
  | inr f ↦
      let e : insert_or_ignore (a ∷ rows) table ≡ insert_or_ignore rows (table ++ a ∷ []) =
        rw f refl in
      subst (HaveKeys (a ∷ rows)) (sym e) (
        any-Extends (same_key a) (table ++ a ∷ []) _
            (insert_or_ignore-Extends rows (table ++ a ∷ []))
            (ground (arith, any-append (same_key a) table (a ∷ []), same_key_refl a)),
        insert_or_ignore-HaveKeys rows (table ++ a ∷ []),
      )
]
