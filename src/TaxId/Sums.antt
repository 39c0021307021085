-- ===== src/TaxId/Sums.antt =====
-- The sum that both check loops of src/common/validators/is-italian-tax-id.validator.ts make, and
-- the tests of a pattern, at one place of a text.
use native.Mathlib.Nat.{add-zero}
use mathlib.Core.Path.{subst}
use easyrisparmio_backend.Prelude.{
  ◌==◌, Bool-cases, inl, inr, ◌≤◌, ℕ, zero, suc, ◌+◌, ◌<◌, ◌≡◌, refl, ap, Bool, true, ◌&&◌, List,
  [], ◌∷◌, ◌++◌, length, All, &&_true, arith,
}
use easyrisparmio_backend.TaxId.{matches, add_up}

module _ (term : ℕ → ℕ → ℕ) where
  pub add_up-sum : (i sum : ℕ) (cs : List ℕ) → add_up term i sum cs ≡ sum + add_up term i 0 cs
  unfolding add_up
  add_up-sum i sum [] = omega arith
  add_up-sum i sum (c ∷ cs) =
      omega (arith, add_up-sum (i + 1) (sum + term i c) cs, add_up-sum (i + 1) (0 + term i c) cs)

  pub add_up-cons :
      (i c : ℕ) (cs : List ℕ) → add_up term i 0 (c ∷ cs) ≡ term i c + add_up term (i + 1) 0 cs
  unfolding add_up
  add_up-cons i c cs = omega (arith, add_up-sum (i + 1) (0 + term i c) cs)

  add_up-nil : (i : ℕ) → add_up term i 0 [] ≡ 0
  unfolding add_up
  add_up-nil i = refl

  shift : (i n : ℕ) → i + 1 + n ≡ i + suc n
  shift i n = omega arith

  -- The contribution of one place is a summand of its own.
  pub add_up-append :
      (i : ℕ) (xs : List ℕ) (c : ℕ) (ys : List ℕ)
      → add_up term i 0 (xs ++ c ∷ ys)
        ≡ add_up term i 0 xs + term (i + length xs) c + add_up term (i + length xs + 1) 0 ys
  add_up-append i [] c ys = rw (add-zero i, add_up-cons i c ys) (omega (arith, add_up-nil i))
  add_up-append i (x ∷ xs) c ys =
      rw (add_up-cons i x (xs ++ c ∷ ys), add_up-cons i x xs, ← shift i (length xs))
        (omega (arith, add_up-append (i + 1) xs c ys))

-- The place of a pattern where a text holds `c` has a test that `c` passes, and that any other
-- character passes with which the text still matches.
pub matches-place {κ} :
    {P : (ℕ → Bool) → Type κ} (ps : List (ℕ → Bool)) (xs : List ℕ) (c d : ℕ) (ys zs : List ℕ)
    → All P ps
    → matches ps (xs ++ c ∷ ys) ≡ true
    → matches ps (xs ++ d ∷ zs) ≡ true
    → (p : ℕ → Bool) × P p × (p c ≡ true) × (p d ≡ true)
matches-place [] [] c d ys zs h m n = absurd (cc)
matches-place [] (x ∷ xs) c d ys zs h m n = absurd (cc)
matches-place (p ∷ ps) [] c d ys zs h m n = (p, h.0, (&&_true _ _ m).0, (&&_true _ _ n).0)
matches-place (p ∷ ps) (x ∷ xs) c d ys zs h m n =
    matches-place ps xs c d ys zs h.1 (&&_true _ _ m).1 (&&_true _ _ n).1

pub length_of_matches :
    (ps : List (ℕ → Bool)) (cs : List ℕ) → matches ps cs ≡ true → length cs ≡ length ps
length_of_matches [] [] h = refl
length_of_matches [] (c ∷ cs) h = absurd (cc)
length_of_matches (p ∷ ps) [] h = absurd (cc)
length_of_matches (p ∷ ps) (c ∷ cs) h = ap suc (length_of_matches ps cs (&&_true _ _ h).1)

-- A test on the next `left` numbers from `start` on, by evaluation.
unfoldable pub passes : (left start : ℕ) → (ℕ → Bool) → Bool
passes zero start test = true
passes (suc left) start test = test start && passes left (start + 1) test

pub passes-at :
    (left start : ℕ) (test : ℕ → Bool)
    → passes left start test ≡ true
    → (place : ℕ) → start ≤ place
    → place < start + left
    → test place ≡ true
unfolding passes
passes-at zero start test all place from to = absurd (omega arith)
passes-at (suc left) start test all place from to =
    let (first, rest) = &&_true (test start) (passes left (start + 1) test) all in
    elim (Bool-cases (start == place)) [
      | inl e ↦ let same : start ≡ place = ground arith in subst (λ n. test n ≡ true) same first
      | inr e ↦ passes-at left (start + 1) test rest place (ground arith) (omega arith)
    ]
