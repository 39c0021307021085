-- ===== src/TaxId/Luhn.antt =====
-- What the check digit of a Partita IVA catches (`isValidPartitaIva` of
-- src/common/validators/is-italian-tax-id.validator.ts).
use easyrisparmio_backend.Prelude.{
  ℕ, ◌+◌, ◌%◌, ◌<◌, ◌≡◌, ◌⊎◌, Bool, true, false, List, ◌∷◌, ◌++◌, length, replicate, All-replicate,
  arith, ◌==◌, if◌then◌else◌,
}
use easyrisparmio_backend.TaxId.{
  is_digit, matches, strip_it, partita_iva_pattern, normalize_tax_id, add_up, luhn_term,
  is_valid_partita_iva,
}
use easyrisparmio_backend.TaxId.Sums.{add_up-append, add_up-cons, matches-place, length_of_matches}

pub record IsLuhn (cs : List ℕ) : Type 0 where
  pub shape : matches (replicate 11 is_digit) cs ≡ true
  pub total : add_up luhn_term 0 0 cs % 10 ≡ 0

IsLuhn-of :
    (cleaned : List ℕ)
    → (if partita_iva_pattern cleaned
        then add_up luhn_term 0 0 (strip_it cleaned) % 10 == 0
        else false)
      ≡ true
    → IsLuhn (strip_it cleaned)
unfolding partita_iva_pattern
IsLuhn-of cleaned h = ground arith

-- A valid Partita IVA is eleven digits, behind an optional prefix, whose weighted sum is a multiple
-- of ten.
pub is_valid_partita_iva-IsLuhn :
    (upper_beyond : ℕ → List ℕ) (value : List ℕ)
    → is_valid_partita_iva upper_beyond value ≡ true
    → IsLuhn (strip_it (normalize_tax_id upper_beyond value))
unfolding is_valid_partita_iva
is_valid_partita_iva-IsLuhn upper_beyond value h = IsLuhn-of (normalize_tax_id upper_beyond value) h

pub length_of_IsLuhn : (cs : List ℕ) → IsLuhn cs → length cs ≡ 11
length_of_IsLuhn cs v = length_of_matches (replicate 11 is_digit) cs v.shape

-- The two weightings tell the ten digits apart.
luhn_term-injective :
    (i c d : ℕ)
    → is_digit c ≡ true
    → is_digit d ≡ true
    → luhn_term i c % 10 ≡ luhn_term i d % 10
    → c ≡ d
unfolding luhn_term
luhn_term-injective i c d hc hd e = ground arith

luhn_term-lt : (i c : ℕ) → is_digit c ≡ true → luhn_term i c < 10
unfolding luhn_term
luhn_term-lt i c hc = ground arith

-- Two positions with different weights: swapping unequal digits changes the sum, but for 0 and 9.
luhn_term-swap :
    (i c d : ℕ)
    → is_digit c ≡ true
    → is_digit d ≡ true
    → (luhn_term i c + luhn_term (i + 1) d) % 10 ≡ (luhn_term i d + luhn_term (i + 1) c) % 10
    → (c ≡ d) ⊎ ((c ≡ b'0') × (d ≡ b'9')) ⊎ ((c ≡ b'9') × (d ≡ b'0'))
unfolding luhn_term
luhn_term-swap i c d hc hd e = ground arith

-- Every place of the pattern holds a digit.
abbrev IsDigitTest : (ℕ → Bool) → Type 0
IsDigitTest p = (c : ℕ) → p c ≡ true → is_digit c ≡ true

digits_at :
    (xs : List ℕ) (c d : ℕ) (ys zs : List ℕ)
    → IsLuhn (xs ++ c ∷ ys)
    → IsLuhn (xs ++ d ∷ zs)
    → (is_digit c ≡ true) × (is_digit d ≡ true)
digits_at xs c d ys zs v w =
    let (p, digit, hc, hd) =
      matches-place {P = IsDigitTest} (replicate 11 is_digit) xs c d ys zs
        (All-replicate IsDigitTest 11 (λ c h. h)) v.shape w.shape in
    (digit c hc, digit d hd)

substitution_of_IsLuhn :
    (xs : List ℕ) (c d : ℕ) (ys : List ℕ) → IsLuhn (xs ++ c ∷ ys) → IsLuhn (xs ++ d ∷ ys) → c ≡ d
substitution_of_IsLuhn xs c d ys v w =
    let (hc, hd) = digits_at xs c d ys ys v w in
    luhn_term-injective (0 + length xs) c d hc hd (
      omega (
        arith,
        v.total,
        w.total,
        add_up-append luhn_term 0 xs c ys,
        add_up-append luhn_term 0 xs d ys,
      ))

swap_of_IsLuhn :
    (xs : List ℕ) (c d : ℕ) (ys : List ℕ)
    → IsLuhn (xs ++ c ∷ d ∷ ys)
    → IsLuhn (xs ++ d ∷ c ∷ ys)
    → (c ≡ d) ⊎ ((c ≡ b'0') × (d ≡ b'9')) ⊎ ((c ≡ b'9') × (d ≡ b'0'))
swap_of_IsLuhn xs c d ys v w =
    let (hc, hd) = digits_at xs c d (d ∷ ys) (c ∷ ys) v w in
    luhn_term-swap (0 + length xs) c d hc hd (
      omega (
        arith,
        v.total,
        w.total,
        add_up-append luhn_term 0 xs c (d ∷ ys),
        add_up-append luhn_term 0 xs d (c ∷ ys),
        add_up-cons luhn_term (0 + length xs + 1) d ys,
        add_up-cons luhn_term (0 + length xs + 1) c ys,
      ))

module _ (upper_beyond : ℕ → List ℕ) (v w xs ys : List ℕ) (c d : ℕ) where
  -- One mistyped character is always caught: two valid VAT numbers that agree, once normalised and
  -- without their prefix, in every place but one, agree in that place too.
  pub is_valid_partita_iva_substitution :
      strip_it (normalize_tax_id upper_beyond v) ≡ xs ++ c ∷ ys
      → strip_it (normalize_tax_id upper_beyond w) ≡ xs ++ d ∷ ys
      → is_valid_partita_iva upper_beyond v ≡ true
      → is_valid_partita_iva upper_beyond w ≡ true
      → c ≡ d
  is_valid_partita_iva_substitution ev ew hv hw =
      substitution_of_IsLuhn xs c d ys (rw ev at (is_valid_partita_iva-IsLuhn upper_beyond v hv))
        (rw ew at (is_valid_partita_iva-IsLuhn upper_beyond w hw))

  -- Two neighbouring digits typed in the wrong order are caught, but for 0 and 9: two valid VAT
  -- numbers that differ by such a swap hold equal digits there, or 0 and 9.
  pub is_valid_partita_iva_swap :
      strip_it (normalize_tax_id upper_beyond v) ≡ xs ++ c ∷ d ∷ ys
      → strip_it (normalize_tax_id upper_beyond w) ≡ xs ++ d ∷ c ∷ ys
      → is_valid_partita_iva upper_beyond v ≡ true
      → is_valid_partita_iva upper_beyond w ≡ true
      → (c ≡ d) ⊎ ((c ≡ b'0') × (d ≡ b'9')) ⊎ ((c ≡ b'9') × (d ≡ b'0'))
  is_valid_partita_iva_swap ev ew hv hw =
      swap_of_IsLuhn xs c d ys (rw ev at (is_valid_partita_iva-IsLuhn upper_beyond v hv))
        (rw ew at (is_valid_partita_iva-IsLuhn upper_beyond w hw))
