-- ===== src/Switching/CaseNumbers.antt =====
-- `generateCaseNumber` of src/modules/cases/cases.service.ts. The day's eight digits are a
-- parameter. The database orders the numbers as texts, here by their code points.
pub mod Print
pub mod Order
pub mod Fresh
use easyrisparmio_backend.Prelude.{
  ℕ, zero, suc, ◌+◌, ◌-◌, ◌*◌, ◌/◌, ◌%◌, ◌==◌, Bool, true, false, ◌&&◌, Option, none, some, List,
  [], ◌∷◌, ◌++◌, ltb, leb, length, replicate, if◌then◌else◌, is_decimal, parse_digits,
}
use easyrisparmio_backend.Switching.{SwitchCase, Store}

-- `SW-` and `-`.
abbrev pub number_prefix : List ℕ → List ℕ
number_prefix day = (83 ∷ 87 ∷ 45 ∷ []) ++ day ++ 45 ∷ []

-- `LIKE '${prefix}%'`, of a prefix without a wildcard.
abbrev pub starts_with : List ℕ → List ℕ → Bool
starts_with [] text = true
starts_with (p ∷ ps) [] = false
starts_with (p ∷ ps) (c ∷ cs) = p == c && starts_with ps cs

-- Whether a text comes before another one.
abbrev pub text_ltb : List ℕ → List ℕ → Bool
text_ltb t [] = false
text_ltb [] (d ∷ ds) = true
text_ltb (c ∷ cs) (d ∷ ds) =
    let rest = text_ltb cs ds in if ltb c d then true else if ltb d c then false else rest

later_text : List ℕ → Option (List ℕ) → Option (List ℕ)
later_text t none = some t
later_text t (some u) = if text_ltb t u then some u else some t

-- `orderBy('sc.caseNumber', 'DESC')` and `getOne`.
unfoldable pub last_number : List ℕ → List SwitchCase → Option (List ℕ)
unfolding later_text
last_number prefix [] = none
last_number prefix (c ∷ cs) =
    let rest = last_number prefix cs in
    if starts_with prefix c.case_number then later_text c.case_number rest else rest

-- `split('-').pop()`.
abbrev pub last_part : List ℕ → List ℕ → List ℕ
last_part part [] = part
last_part part (c ∷ cs) = if c == 45 then last_part [] cs else last_part (part ++ c ∷ []) cs

-- `String(n)`, the last digit first, on fuel.
abbrev pub digits : ℕ → ℕ → List ℕ
digits zero n = []
digits (suc fuel) n =
    let rest = digits fuel (n / 10) in (if ltb n 10 then [] else rest) ++ (48 + n % 10) ∷ []

-- `padStart(5, '0')`.
abbrev pub pad_start : List ℕ → List ℕ
pad_start text = replicate (5 - length text) 48 ++ text

-- The number of digits is at most the number itself, plus one.
unfoldable pub print_seq : ℕ → List ℕ
print_seq n = pad_start (digits (suc n) n)

unfoldable pub next_seq : List ℕ → List SwitchCase → ℕ
next_seq prefix cases = elim (last_number prefix cases) [
  | none ↦ 1
  | some number ↦ parse_digits 0 (last_part [] number) + 1
]

unfoldable pub generate_case_number : List ℕ → Store → List ℕ
generate_case_number day s = number_prefix day ++ print_seq (next_seq (number_prefix day) s.cases)
