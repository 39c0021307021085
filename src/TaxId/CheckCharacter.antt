-- ===== src/TaxId/CheckCharacter.antt =====
-- What the check character of a Codice Fiscale catches (`isValidCodiceFiscale` of
-- src/common/validators/is-italian-tax-id.validator.ts).
use easyrisparmio_backend.Prelude.{
  ℕ, zero, suc, ◌+◌, ◌-◌, ◌%◌, ◌≤◌, ◌<◌, ◌≡◌, refl, sym, ◌∙◌, ap, ◌⊎◌, inl, inr, Bool, true, false,
  not, ◌&&◌, ◌||◌, Option, none, some, List, [], ◌∷◌, ◌++◌, length, length-append, take, get_elem?,
  All, arith, ◌==◌, ==_iff, if◌then◌else◌, Bool-cases,
}
use easyrisparmio_backend.TaxId.{
  matches, codice_fiscale_pattern, is_number_place, is_capital, is_month, normalize_tax_id, add_up,
  cin_term, day_of, is_day, is_character, is_valid_codice_fiscale, value_in, odd_values,
  even_values,
}
use easyrisparmio_backend.TaxId.Sums.{
  add_up-append, matches-place, length_of_matches, passes, passes-at,
}

pub record IsCodice (cs : List ℕ) : Type 0 where
  pub shape : matches codice_fiscale_pattern cs ≡ true
  pub day : is_day (day_of cs) ≡ true
  pub character : is_character (get_elem? cs 15) (65 + add_up cin_term 0 0 (take 15 cs) % 26) ≡ true

IsCodice-of :
    (cleaned : List ℕ)
    → (if matches codice_fiscale_pattern cleaned
        then (if is_day (day_of cleaned)
            then is_character
                (get_elem? cleaned 15)
                (65 + add_up cin_term 0 0 (take 15 cleaned) % 26)
            else false)
        else false)
      ≡ true
    → IsCodice cleaned
IsCodice-of cleaned h = ground arith

pub is_valid_codice_fiscale-IsCodice :
    (upper_beyond : ℕ → List ℕ) (value : List ℕ)
    → is_valid_codice_fiscale upper_beyond value ≡ true
    → IsCodice (normalize_tax_id upper_beyond value)
unfolding is_valid_codice_fiscale
is_valid_codice_fiscale-IsCodice upper_beyond value h =
    IsCodice-of (normalize_tax_id upper_beyond value) h

-- The test of one place tells its characters apart by either weight.
abbrev Separates : (ℕ → Bool) → Type 0
Separates p = (i c d : ℕ) → p c ≡ true → p d ≡ true → cin_term i c % 26 ≡ cin_term i d % 26 → c ≡ d

-- The same of the characters with codes 48 to 90, as a test.
separates : (ℕ → Bool) → (ℕ → ℕ) → Bool
separates p weight = passes 43 0 (λ c.
    passes 43 0 (λ d.
      not (p (48 + c) && p (48 + d) && weight (48 + c) % 26 == weight (48 + d) % 26) || c == d))

capital_odd : separates is_capital (value_in odd_values) ≡ true
unfolding separates passes odd_values
capital_odd = refl

capital_even : separates is_capital (value_in even_values) ≡ true
unfolding separates passes even_values
capital_even = refl

number_odd : separates is_number_place (value_in odd_values) ≡ true
unfolding separates passes odd_values
number_odd = refl

number_even : separates is_number_place (value_in even_values) ≡ true
unfolding separates passes even_values
number_even = refl

cell_sound :
    (tc td te : Bool) (c d : ℕ)
    → (not (tc && td && te) || c - 48 == d - 48) ≡ true
    → tc ≡ true
    → td ≡ true
    → te ≡ true
    → 48 ≤ c
    → 48 ≤ d
    → c ≡ d
cell_sound tc td te c d h hc hd he rc rd = ground arith

separates_sound :
    (p : ℕ → Bool) (weight : ℕ → ℕ) (c d : ℕ)
    → separates p weight ≡ true
    → (48 ≤ c) × (c < 91)
    → (48 ≤ d) × (d < 91)
    → p c ≡ true
    → p d ≡ true
    → weight c % 26 ≡ weight d % 26
    → c ≡ d
unfolding separates
separates_sound p weight c d h rc rd hc hd e =
    let row = passes-at 43 0 _ h (c - 48) (omega arith) (omega arith) in
    let cell = passes-at 43 0 _ row (d - 48) (omega arith) (omega arith) in
    let ec : 48 + (c - 48) ≡ c = omega arith in
    let ed : 48 + (d - 48) ≡ d = omega arith in
    cell_sound (p c) (p d) (weight c % 26 == weight d % 26) c d (rw (ec, ed) at cell) hc hd
      ((==_iff _ _).1 e) rc.0 rd.0

capital_range : (c : ℕ) → is_capital c ≡ true → (48 ≤ c) × (c < 91)
capital_range c h = ground arith

number_range : (c : ℕ) → is_number_place c ≡ true → (48 ≤ c) × (c < 91)
number_range c h = ground arith

month-capital : (c : ℕ) → is_month c ≡ true → is_capital c ≡ true
month-capital c h = ground arith

cin_term-even : (i c : ℕ) → (i % 2 == 0) ≡ true → cin_term i c ≡ value_in odd_values c
unfolding cin_term
cin_term-even i c h = rw h

cin_term-odd : (i c : ℕ) → (i % 2 == 0) ≡ false → cin_term i c ≡ value_in even_values c
unfolding cin_term
cin_term-odd i c h = rw h

Separates-of :
    (p : ℕ → Bool)
    → ((c : ℕ) → p c ≡ true → (48 ≤ c) × (c < 91))
    → separates p (value_in odd_values) ≡ true
    → separates p (value_in even_values) ≡ true
    → Separates p
Separates-of p range odd even i c d hc hd e = elim (Bool-cases (i % 2 == 0)) [
  | inl h ↦
      separates_sound p (value_in odd_values) c d odd (range c hc) (range d hd) hc hd
        (rw (cin_term-even i c h, cin_term-even i d h) at e)
  | inr h ↦
      separates_sound p (value_in even_values) c d even (range c hc) (range d hd) hc hd
        (rw (cin_term-odd i c h, cin_term-odd i d h) at e)
]

capital-Separates : Separates is_capital
capital-Separates = Separates-of is_capital capital_range capital_odd capital_even

number-Separates : Separates is_number_place
number-Separates = Separates-of is_number_place number_range number_odd number_even

month-Separates : Separates is_month
month-Separates i c d hc hd e = capital-Separates i c d (month-capital c hc) (month-capital d hd) e

pattern-Separates : All Separates codice_fiscale_pattern
unfolding codice_fiscale_pattern
pattern-Separates = (
  capital-Separates,
  (
    capital-Separates,
    (
      capital-Separates,
      (
        capital-Separates,
        (
          capital-Separates,
          (
            capital-Separates,
            (
              number-Separates,
              (
                number-Separates,
                (
                  month-Separates,
                  (
                    number-Separates,
                    (
                      number-Separates,
                      (
                        capital-Separates,
                        (
                          number-Separates,
                          (number-Separates, (number-Separates, (capital-Separates, tt))),
                        ),
                      ),
                    ),
                  ),
                ),
              ),
            ),
          ),
        ),
      ),
    ),
  ),
)

-- A text with `c` in one place and the text with `d` there, as the check of length `n` reads them:
-- the place is added up, or it is the one behind, which is compared.
abbrev Reads : ℕ → List ℕ → ℕ → ℕ → List ℕ → Type 0
Reads n xs c d ys =
    ((zs : List ℕ) × (take n (xs ++ c ∷ ys) ≡ xs ++ c ∷ zs)
      × (take n (xs ++ d ∷ ys) ≡ xs ++ d ∷ zs)
      × (get_elem? (xs ++ c ∷ ys) n ≡ get_elem? (xs ++ d ∷ ys) n))
    ⊎ ((take n (xs ++ c ∷ ys) ≡ take n (xs ++ d ∷ ys))
        × (get_elem? (xs ++ c ∷ ys) n ≡ some c)
        × (get_elem? (xs ++ d ∷ ys) n ≡ some d))

place-Reads : (n : ℕ) (xs : List ℕ) (c d : ℕ) (ys : List ℕ) → length xs ≤ n → Reads n xs c d ys
place-Reads zero [] c d ys h = inr (refl, refl, refl)
place-Reads zero (x ∷ xs) c d ys h = absurd (omega arith)
place-Reads (suc n) [] c d ys h = inl (take n ys, refl, refl, refl)
place-Reads (suc n) (x ∷ xs) c d ys h = elim (place-Reads n xs c d ys (omega arith)) [
  | inl (zs, tc, td, g) ↦ inl (zs, ap (λ l. x ∷ l) tc, ap (λ l. x ∷ l) td, g)
  | inr (t, gc, gd) ↦ inr (ap (λ l. x ∷ l) t, gc, gd)
]

pub length_of_IsCodice : (cs : List ℕ) → IsCodice cs → length cs ≡ 16
unfolding codice_fiscale_pattern
length_of_IsCodice cs v = length_of_matches codice_fiscale_pattern cs v.shape

eq_of_is_character :
    (o : Option ℕ) (c expected : ℕ) → o ≡ some c → is_character o expected ≡ true → c ≡ expected
eq_of_is_character o c expected e h = ground arith

eq_of_check :
    (o : Option ℕ) (s t : ℕ)
    → is_character o (65 + s % 26) ≡ true
    → is_character o (65 + t % 26) ≡ true
    → s % 26 ≡ t % 26
eq_of_check (some c) s t h k = ground arith
eq_of_check none s t h k = absurd (cc)

substitution_of_IsCodice :
    (xs : List ℕ) (c d : ℕ) (ys : List ℕ)
    → IsCodice (xs ++ c ∷ ys)
    → IsCodice (xs ++ d ∷ ys)
    → c ≡ d
substitution_of_IsCodice xs c d ys v w =
    let size = length_of_IsCodice _ v in
    let (p, apart, hc, hd) =
      matches-place {P = Separates} codice_fiscale_pattern xs c d ys ys pattern-Separates v.shape
        w.shape in
    elim (place-Reads 15 xs c d ys (omega (arith, size, length-append xs (c ∷ ys)))) [
      | inl (zs, tc, td, g) ↦
          let same =
            eq_of_check (get_elem? (xs ++ d ∷ ys) 15) (add_up cin_term 0 0 (xs ++ c ∷ zs))
              (add_up cin_term 0 0 (xs ++ d ∷ zs)) (rw (tc, g) at v.character)
              (rw td at w.character) in
          apart (0 + length xs) c d hc hd (
            omega (arith, same, add_up-append cin_term 0 xs c zs, add_up-append cin_term 0 xs d zs))
      | inr (t, gc, gd) ↦
          eq_of_is_character _ c _ gc (rw t at v.character)
          ∙ sym (eq_of_is_character _ d _ gd w.character)
    ]

module _ (upper_beyond : ℕ → List ℕ) (v w xs ys : List ℕ) (c d : ℕ) where
  -- One mistyped character is always caught: two valid Codici Fiscali that agree, once normalised,
  -- in every place but one, agree in that place too. This holds of every place, those of omocodia
  -- letters and the check character included.
  pub is_valid_codice_fiscale_substitution :
      normalize_tax_id upper_beyond v ≡ xs ++ c ∷ ys
      → normalize_tax_id upper_beyond w ≡ xs ++ d ∷ ys
      → is_valid_codice_fiscale upper_beyond v ≡ true
      → is_valid_codice_fiscale upper_beyond w ≡ true
      → c ≡ d
  is_valid_codice_fiscale_substitution ev ew hv hw =
      substitution_of_IsCodice xs c d ys
        (rw ev at (is_valid_codice_fiscale-IsCodice upper_beyond v hv))
        (rw ew at (is_valid_codice_fiscale-IsCodice upper_beyond w hw))
