-- ===== src/Switching/CaseNumbers/Fresh.antt =====
-- The number that `generateCaseNumber` of src/modules/cases/cases.service.ts gives is no case's yet.

use easyrisparmio_backend.Prelude.{
  ℕ, ◌+◌, ◌≤◌, ◌<◌, ◌≡◌, ◌≢◌, refl, sym, ap, ◌∙◌, ◌⊎◌, inl, inr, true, false, Option, none, some,
  List, [], ◌∷◌, ◌++◌, All, arith, Bool-cases, Option-cases, parse_digits,
}
use easyrisparmio_backend.Switching.{SwitchCase, Store}
use easyrisparmio_backend.Switching.CaseNumbers.{
  number_prefix, last_part, print_seq, text_ltb, last_number, later_text, starts_with, next_seq,
  generate_case_number,
}
use easyrisparmio_backend.Switching.CaseNumbers.Print.{
  print_seq-AreDigits, print_seq-parse, number-parse,
}
use easyrisparmio_backend.Switching.CaseNumbers.Order.{
  text_ltb-append, parse-order, length-print_seq, text_ltb-asym,
}

-- A case of another day, or one whose number was printed from a sequence of five places.
abbrev pub IsNumbered : List ℕ → SwitchCase → Type 0
IsNumbered day c =
    (starts_with (number_prefix day) c.case_number ≡ false)
    ⊎ ((k : ℕ) × ((c.case_number ≡ number_prefix day ++ print_seq k) × (k < 100000)))

starts_with-append : (ps xs : List ℕ) → starts_with ps (ps ++ xs) ≡ true
starts_with-append [] xs = refl
starts_with-append (p ∷ ps) xs = ground (arith, starts_with-append ps xs)

module _ (day : List ℕ) where
  abbrev number : ℕ → List ℕ
  number k = number_prefix day ++ print_seq k

  -- Of two numbers of five places, the one that is not before the other has the larger sequence.
  number-order :
      (k m : ℕ) → k < 100000 → m < 100000 → text_ltb (number k) (number m) ≡ false → m ≤ k
  number-order k m h j e =
      let plain : text_ltb (print_seq k) (print_seq m) ≡ false =
        sym (text_ltb-append (number_prefix day) (print_seq k) (print_seq m)) ∙ e in
      let order =
        parse-order 0 (print_seq k) (print_seq m) (print_seq-AreDigits k) (print_seq-AreDigits m)
          (length-print_seq k h ∙ sym (length-print_seq m j)) plain in
      omega (arith, order, print_seq-parse k, print_seq-parse m)

  -- A case of another day, or one whose sequence is at most the given one.
  abbrev IsUpTo : ℕ → SwitchCase → Type 0
  IsUpTo m c =
      (starts_with (number_prefix day) c.case_number ≡ false)
      ⊎ ((k : ℕ) × ((c.case_number ≡ number k) × (k ≤ m)))

  IsUpTo-mono : (m n : ℕ) (cs : List SwitchCase) → m ≤ n → All (IsUpTo m) cs → All (IsUpTo n) cs
  IsUpTo-mono m n [] h a = tt
  IsUpTo-mono m n (c ∷ cs) h (a, hs) = (
    elim a [ inl e ↦ inl e | inr (k, r) ↦ inr (k, (r.0, omega (arith, r.1, h))) ],
    IsUpTo-mono m n cs h hs,
  )

  -- The number that the query gives was printed from the largest sequence of the day.
  abbrev Largest : Option (List ℕ) → List SwitchCase → Type 0
  Largest none cs = All (λ c. starts_with (number_prefix day) c.case_number ≡ false) cs
  Largest (some t) cs = (m : ℕ) × ((t ≡ number m) × ((m < 100000) × All (IsUpTo m) cs))

  none-IsUpTo :
      (m : ℕ) (cs : List SwitchCase)
      → All (λ c. starts_with (number_prefix day) c.case_number ≡ false) cs
      → All (IsUpTo m) cs
  none-IsUpTo m [] h = tt
  none-IsUpTo m (c ∷ cs) (h, hs) = (inl h, none-IsUpTo m cs hs)

  later-Largest :
      (c : SwitchCase) (cs : List SwitchCase) (k : ℕ) (o : Option (List ℕ))
      → c.case_number ≡ number k
      → k < 100000
      → Largest o cs
      → Largest (later_text c.case_number o) (c ∷ cs)
  unfolding later_text
  later-Largest c cs k none e l h = (k, (e, (l, (inr (k, (e, omega arith)), none-IsUpTo k cs h))))
  later-Largest c cs k (some u) e l (m, h) = elim (Bool-cases (text_ltb c.case_number u)) [
    | inl f ↦
        let below =
          number-order m k h.1.0 l (text_ltb-asym (number k) (number m) (rw (e, h.0) at f)) in
        rw (f, later_text) (m, (h.0, (h.1.0, (inr (k, (e, below)), h.1.1))))
    | inr f ↦
        let below = number-order k m l h.1.0 (rw (e, h.0) at f) in
        rw (f, later_text)
          (k, (e, (l, (inr (k, (e, omega arith)), IsUpTo-mono m k cs below h.1.1))))
  ]

  skip-Largest :
      (c : SwitchCase) (cs : List SwitchCase) (o : Option (List ℕ))
      → starts_with (number_prefix day) c.case_number ≡ false
      → Largest o cs
      → Largest o (c ∷ cs)
  skip-Largest c cs none e h = (e, h)
  skip-Largest c cs (some u) e (m, h) = (m, (h.0, (h.1.0, (inl e, h.1.1))))

  last_number-Largest :
      (cs : List SwitchCase)
      → All (IsNumbered day) cs
      → Largest (last_number (number_prefix day) cs) cs
  unfolding last_number
  last_number-Largest [] h = tt
  last_number-Largest (c ∷ cs) (h, hs) =
      let rest = last_number-Largest cs hs in
      elim h [
        | inl e ↦ rw (e, last_number) (skip-Largest c cs _ e rest)
        | inr (k, (e, l)) ↦
            let yes : starts_with (number_prefix day) c.case_number ≡ true =
              rw e (starts_with-append (number_prefix day) (print_seq k)) in
            rw (yes, last_number)
              (later-Largest c cs k (last_number (number_prefix day) cs) e l rest)
      ]

  IsUpTo-new : (m n : ℕ) (c : SwitchCase) → m < n → IsUpTo m c → c.case_number ≢ number n
  IsUpTo-new m n c h (inl e) same =
      let yes : starts_with (number_prefix day) c.case_number ≡ true =
        rw same (starts_with-append (number_prefix day) (print_seq n)) in
      absurd (cc)
  IsUpTo-new m n c h (inr (k, r)) same =
      let equal : number k ≡ number n = sym r.0 ∙ same in
      let sequences : k ≡ n =
        sym (number-parse day k)
        ∙ ap (λ t. parse_digits 0 (last_part [] t)) equal
        ∙ number-parse day n in
      absurd (omega (arith, sequences, r.1, h))

  all-new :
      (m n : ℕ) (cs : List SwitchCase)
      → m < n
      → All (IsUpTo m) cs
      → All (λ c. c.case_number ≢ number n) cs
  all-new m n [] h a = tt
  all-new m n (c ∷ cs) h (a, hs) = (IsUpTo-new m n c h a, all-new m n cs h hs)

  -- A new case's number is no other case's, where every case number of the day was printed from a
  -- sequence below 100,000.
  pub generate_case_number-new :
      (s : Store)
      → All (IsNumbered day) s.cases
      → All (λ c. c.case_number ≢ generate_case_number day s) s.cases
  unfolding generate_case_number next_seq
  generate_case_number-new s h =
      let largest = last_number-Largest s.cases h in
      elim (Option-cases (last_number (number_prefix day) s.cases)) [
        | inl e ↦
            let unused : All (λ c. starts_with (number_prefix day) c.case_number ≡ false) s.cases =
              rw e at largest in
            rw (e, next_seq, generate_case_number)
              (all-new 0 1 s.cases (omega arith) (none-IsUpTo 0 s.cases unused))
        | inr (t, e) ↦
            let (m, r) = rw e at largest in
            let next : next_seq (number_prefix day) s.cases ≡ m + 1 =
              rw (e, next_seq)
                (ap (λ u. parse_digits 0 (last_part [] u) + 1) r.0
                  ∙ omega (arith, number-parse day m)) in
            rw (next, generate_case_number) (all-new m (m + 1) s.cases (omega arith) r.1.1)
      ]
