-- ===== src/Switching/CaseNumbers/Order.antt =====
-- The order and the width of printed sequences (`generateCaseNumber` of
-- src/modules/cases/cases.service.ts).

use easyrisparmio_backend.Prelude.{
  ℕ, zero, suc, ◌+◌, ◌-◌, ◌*◌, ◌/◌, ◌%◌, ◌≤◌, ◌<◌, ◌≡◌, refl, inl, inr, true, false, List, [], ◌∷◌,
  ◌++◌, ltb, length, length-append, replicate, arith, Bool-cases, parse_digits,
}
use easyrisparmio_backend.Switching.CaseNumbers.{digits, print_seq, text_ltb}
use easyrisparmio_backend.Switching.CaseNumbers.Print.{AreDigits}

parse-less :
    (a b : ℕ) (xs ys : List ℕ)
    → AreDigits xs
    → AreDigits ys
    → length xs ≡ length ys
    → a < b
    → parse_digits a xs < parse_digits b ys
parse-less a b [] [] h k e l = l
parse-less a b [] (y ∷ ys) h k e l = absurd (omega (arith, e))
parse-less a b (x ∷ xs) [] h k e l = absurd (omega (arith, e))
parse-less a b (x ∷ xs) (y ∷ ys) (h, hs) (k, ks) e l =
    rw (h, k)
      (parse-less (a * 10 + (x - 48)) (b * 10 + (y - 48)) xs ys hs ks (omega (arith, e))
        (ground arith))

-- The order of texts of one length that are all digits is the order of their numbers.
pub parse-order :
    (a : ℕ) (xs ys : List ℕ)
    → AreDigits xs
    → AreDigits ys
    → length xs ≡ length ys
    → text_ltb xs ys ≡ false
    → parse_digits a ys ≤ parse_digits a xs
parse-order a [] [] h k e l = omega arith
parse-order a [] (y ∷ ys) h k e l = absurd (omega (arith, e))
parse-order a (x ∷ xs) [] h k e l = absurd (omega (arith, e))
parse-order a (x ∷ xs) (y ∷ ys) (h, hs) (k, ks) e l = elim (Bool-cases (ltb x y)) [
  | inl f ↦ absurd (cc (rw (f, text_ltb) at l))
  | inr f ↦ elim (Bool-cases (ltb y x)) [
    | inl g ↦
        let less =
          parse-less (a * 10 + (y - 48)) (a * 10 + (x - 48)) ys xs ks hs (omega (arith, e))
            (ground arith) in
        rw (h, k) (omega (arith, less))
    | inr g ↦
        let same : x ≡ y = ground arith in
        rw (h, k, same)
          (parse-order (a * 10 + (y - 48)) xs ys hs ks (omega (arith, e))
            (rw (f, g, text_ltb) at l))
  ]
]

pub text_ltb-append : (ps xs ys : List ℕ) → text_ltb (ps ++ xs) (ps ++ ys) ≡ text_ltb xs ys
text_ltb-append [] xs ys = refl
text_ltb-append (p ∷ ps) xs ys =
    let no : ltb p p ≡ false = ground arith in rw (no, text_ltb) (text_ltb-append ps xs ys)

-- The numbers that print in at most `suc k` digits are below this bound.
abbrev ten_to : ℕ → ℕ
ten_to zero = 10
ten_to (suc k) = ten_to k * 10

length-digits_le : (k fuel n : ℕ) → n < ten_to k → length (digits fuel n) ≤ suc k
length-digits_le k zero n h = omega arith
length-digits_le zero (suc fuel) n h =
    let one : ltb n 10 ≡ true = ground arith in rw (one, digits) (omega arith)
length-digits_le (suc k) (suc fuel) n h =
    let rest = length-digits_le k fuel (n / 10) (omega (arith, h)) in
    elim (Bool-cases (ltb n 10)) [
      | inl e ↦ rw (e, digits) (omega arith)
      | inr e ↦
          rw (e, digits)
            (omega (arith, rest, length-append (digits fuel (n / 10)) ((48 + n % 10) ∷ [])))
    ]

length-replicate : (n : ℕ) → length {A = ℕ} (replicate n 48) ≡ n
length-replicate zero = refl
length-replicate (suc n) = omega (arith, length-replicate n)

-- A sequence below 100,000 takes five places.
pub length-print_seq : (n : ℕ) → n < 100000 → length (print_seq n) ≡ 5
unfolding print_seq
length-print_seq n h =
    let ds = digits (suc n) n in
    let short = length-digits_le 4 (suc n) n h in
    omega (
      arith,
      short,
      length-append (replicate (5 - length ds) 48) ds,
      length-replicate (5 - length ds),
    )

pub text_ltb-asym : (xs ys : List ℕ) → text_ltb xs ys ≡ true → text_ltb ys xs ≡ false
text_ltb-asym [] [] h = refl
text_ltb-asym [] (y ∷ ys) h = refl
text_ltb-asym (x ∷ xs) [] h = absurd (cc)
text_ltb-asym (x ∷ xs) (y ∷ ys) h = elim (Bool-cases (ltb x y)) [
  | inl e ↦ let no : ltb y x ≡ false = ground arith in rw (no, e, text_ltb) refl
  | inr e ↦ elim (Bool-cases (ltb y x)) [
    | inl f ↦ absurd (cc (rw (e, f, text_ltb) at h))
    | inr f ↦ rw (e, f, text_ltb) (text_ltb-asym xs ys (rw (e, f, text_ltb) at h))
  ]
]
