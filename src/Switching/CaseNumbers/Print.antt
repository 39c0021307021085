-- ===== src/Switching/CaseNumbers/Print.antt =====
-- Printing the sequence of a case number and reading it back (`generateCaseNumber` of
-- src/modules/cases/cases.service.ts).
use mathlib.Core.List.{append-nil, append_assoc}
use easyrisparmio_backend.Prelude.{
  ℕ, zero, suc, ◌+◌, ◌-◌, ◌*◌, ◌/◌, ◌%◌, ◌<◌, ◌==◌, ◌≡◌, refl, sym, ap, ◌∙◌, inl, inr, true, false,
  List, [], ◌∷◌, ◌++◌, ltb, length, replicate, All, arith, Bool-cases, is_decimal, parse_digits,
}
use easyrisparmio_backend.Switching.CaseNumbers.{number_prefix, last_part, digits, print_seq}

abbrev pub AreDigits : List ℕ → Type 0
AreDigits xs = All (λ c. is_decimal c ≡ true) xs

AreDigits-append : (xs ys : List ℕ) → AreDigits xs → AreDigits ys → AreDigits (xs ++ ys)
AreDigits-append [] ys h k = k
AreDigits-append (x ∷ xs) ys (h, hs) k = (h, AreDigits-append xs ys hs k)

AreDigits-zeroes : (n : ℕ) → AreDigits (replicate n 48)
AreDigits-zeroes zero = tt
AreDigits-zeroes (suc n) = (refl, AreDigits-zeroes n)

digits-AreDigits : (fuel n : ℕ) → AreDigits (digits fuel n)
digits-AreDigits zero n = tt
digits-AreDigits (suc fuel) n = elim (Bool-cases (ltb n 10)) [
  | inl e ↦ rw (e, digits) (ground arith, tt)
  | inr e ↦
      rw (e, digits)
        (AreDigits-append (digits fuel (n / 10)) _ (digits-AreDigits fuel (n / 10))
          (ground arith, tt))
]

pub print_seq-AreDigits : (n : ℕ) → AreDigits (print_seq n)
unfolding print_seq
print_seq-AreDigits n =
    AreDigits-append (replicate (5 - length (digits (suc n) n)) 48) (digits (suc n) n)
      (AreDigits-zeroes _) (digits-AreDigits (suc n) n)

parse_digits-append :
    (a : ℕ) (xs ys : List ℕ)
    → AreDigits xs
    → parse_digits a (xs ++ ys) ≡ parse_digits (parse_digits a xs) ys
parse_digits-append a [] ys h = refl
parse_digits-append a (x ∷ xs) ys (h, hs) = rw h (parse_digits-append (a * 10 + (x - 48)) xs ys hs)

parse_digits-zeroes :
    (n : ℕ) (ys : List ℕ) → parse_digits 0 (replicate n 48 ++ ys) ≡ parse_digits 0 ys
parse_digits-zeroes zero ys = refl
parse_digits-zeroes (suc n) ys = parse_digits-zeroes n ys

-- Fuel above the number prints all of its digits.
parse_digits-digits : (fuel n : ℕ) → n < fuel → parse_digits 0 (digits fuel n) ≡ n
parse_digits-digits zero n h = absurd (omega (arith, h))
parse_digits-digits (suc fuel) n h = elim (Bool-cases (ltb n 10)) [
  | inl e ↦ rw (e, digits) (ground arith)
  | inr e ↦
      rw (e, digits)
        (parse_digits-append 0 (digits fuel (n / 10)) ((48 + n % 10) ∷ [])
            (digits-AreDigits fuel (n / 10))
          ∙ ground (arith, parse_digits-digits fuel (n / 10) (ground arith)))
]

last_part-skip : (part xs ys : List ℕ) → last_part part (xs ++ 45 ∷ ys) ≡ last_part [] ys
last_part-skip part [] ys = refl
last_part-skip part (x ∷ xs) ys = elim (Bool-cases (x == 45)) [
  | inl e ↦ rw e (last_part-skip [] xs ys)
  | inr e ↦ rw e (last_part-skip (part ++ x ∷ []) xs ys)
]

last_part-digits : (part ys : List ℕ) → AreDigits ys → last_part part ys ≡ part ++ ys
last_part-digits part [] h = sym (append-nil part)
last_part-digits part (y ∷ ys) (h, hs) =
    let no_dash : (y == 45) ≡ false = ground arith in
    rw no_dash (last_part-digits (part ++ y ∷ []) ys hs ∙ append_assoc part (y ∷ []) ys)

pub print_seq-parse : (n : ℕ) → parse_digits 0 (print_seq n) ≡ n
unfolding print_seq
print_seq-parse n =
    parse_digits-zeroes (5 - length (digits (suc n) n)) (digits (suc n) n)
    ∙ parse_digits-digits (suc n) n (omega arith)

-- Reading a case number back gives the sequence that it was printed from, whatever the day and
-- however many digits the sequence has.
pub number-parse :
    (day : List ℕ) (n : ℕ) → parse_digits 0 (last_part [] (number_prefix day ++ print_seq n)) ≡ n
number-parse day n =
    let front = (83 ∷ 87 ∷ 45 ∷ []) ++ day in
    ap (λ t. parse_digits 0 (last_part [] t)) (append_assoc front (45 ∷ []) (print_seq n))
    ∙ ap (parse_digits 0) (
        last_part-skip [] front (print_seq n)
        ∙ last_part-digits [] (print_seq n) (print_seq-AreDigits n))
    ∙ print_seq-parse n
