-- ===== src/TaxId.antt =====
-- src/common/validators/is-italian-tax-id.validator.ts. A text is the list of its code points.
-- `toUpperCase` is written out for ASCII; beyond it, the mapping is the parameter `upper_beyond`.
-- A pattern anchored at both ends is the list of the tests that its places make.
pub mod Sums
pub mod Luhn
pub mod Issue
pub mod CheckCharacter
pub mod Constraints
mod Tests
use easyrisparmio_backend.Prelude.{
  ℕ, zero, suc, ◌+◌, ◌-◌, ◌*◌, ◌%◌, Bool, true, false, ◌&&◌, ◌||◌, Option, none, some, List, [],
  ◌∷◌, ◌++◌, replicate, get_elem?, take, ltb, leb, ◌==◌, if◌then◌else◌,
}

-- The character class `\s`.
abbrev pub is_space : ℕ → Bool
is_space c =
    (leb 9 c && leb c 13)
    || c == 32
    || c == 160
    || c == 0x1680
    || (leb 0x2000 c && leb c 0x200a)
    || c == 0x2028
    || c == 0x2029
    || c == 0x202f
    || c == 0x205f
    || c == 0x3000
    || c == 0xfeff

-- The character class `[\s.-]`.
unfoldable pub is_separator : ℕ → Bool
is_separator c = is_space c || c == b'.' || c == b'-'

abbrev pub is_digit : ℕ → Bool
is_digit c = leb b'0' c && leb c b'9'

-- The character class `[A-Z]`.
abbrev pub is_capital : ℕ → Bool
is_capital c = leb b'A' c && leb c b'Z'

abbrev is_small : ℕ → Bool
is_small c = leb b'a' c && leb c b'z'

unfoldable pub to_upper_case : (ℕ → List ℕ) → List ℕ → List ℕ
to_upper_case upper_beyond [] = []
to_upper_case upper_beyond (c ∷ cs) =
    (if is_small c then (c - 32) ∷ [] else if ltb c 128 then c ∷ [] else upper_beyond c)
    ++ to_upper_case upper_beyond cs

unfoldable pub remove_separators : List ℕ → List ℕ
unfolding is_separator
remove_separators [] = []
remove_separators (c ∷ cs) =
    let rest = remove_separators cs in if is_separator c then rest else c ∷ rest

unfoldable pub normalize_tax_id : (ℕ → List ℕ) → List ℕ → List ℕ
unfolding to_upper_case remove_separators
normalize_tax_id upper_beyond value = to_upper_case upper_beyond (remove_separators value)

-- Whether a text passes the tests of a pattern's places, one by one and to the end.
abbrev pub matches : List (ℕ → Bool) → List ℕ → Bool
matches [] [] = true
matches [] (_ ∷ _) = false
matches (p ∷ ps) [] = false
matches (p ∷ ps) (c ∷ cs) = p c && matches ps cs

-- `replace(/^IT/, '')`.
unfoldable pub strip_it : List ℕ → List ℕ
strip_it [] = []
strip_it (c ∷ []) = c ∷ []
strip_it (c ∷ d ∷ cs) = if c == b'I' && d == b'T' then cs else c ∷ d ∷ cs

-- `^(IT)?\d{11}$`. The prefix and a digit begin differently, so the optional part is read alone.
unfoldable pub partita_iva_pattern : List ℕ → Bool
unfolding strip_it
partita_iva_pattern cleaned = matches (replicate 11 is_digit) (strip_it cleaned)

-- A loop over the characters of a text that adds what each contributes at its index.
unfoldable pub add_up : (ℕ → ℕ → ℕ) → ℕ → ℕ → List ℕ → ℕ
add_up term i sum [] = sum
add_up term i sum (c ∷ cs) = add_up term (i + 1) (sum + term i c) cs

-- One round of the loop in `isValidPartitaIva`; `parseInt` of a digit is its distance from `0`.
unfoldable pub luhn_term : ℕ → ℕ → ℕ
luhn_term i c =
    let digit = c - b'0' in
    if i % 2 == 0 then digit else if ltb 9 (digit * 2) then digit * 2 - 9 else digit * 2

unfoldable pub is_valid_partita_iva : (ℕ → List ℕ) → List ℕ → Bool
is_valid_partita_iva upper_beyond value =
    let cleaned = normalize_tax_id upper_beyond value in
    if partita_iva_pattern cleaned then add_up luhn_term 0 0 (strip_it cleaned) % 10 == 0 else false

-- A record of numbers by character; a character that is no key gives `none`.
abbrev pub lookup : ℕ → List (ℕ × ℕ) → Option ℕ
lookup c [] = none
lookup c ((k, v) ∷ entries) = if k == c then some v else lookup c entries

-- Keys in the order of the record, with the values beside them.
abbrev pub zip : List ℕ → List ℕ → List (ℕ × ℕ)
zip [] vs = []
zip (k ∷ ks) [] = []
zip (k ∷ ks) (v ∷ vs) = (k, v) ∷ zip ks vs

abbrev digits : List ℕ
digits = b'0' ∷ b'1' ∷ b'2' ∷ b'3' ∷ b'4' ∷ b'5' ∷ b'6' ∷ b'7' ∷ b'8' ∷ b'9' ∷ []

abbrev letters : List ℕ
letters =
    b'A' ∷ b'B' ∷ b'C' ∷ b'D' ∷ b'E' ∷ b'F' ∷ b'G' ∷ b'H' ∷ b'I' ∷ b'J' ∷ b'K' ∷ b'L' ∷ b'M' ∷ b'N'
    ∷ b'O' ∷ b'P' ∷ b'Q' ∷ b'R' ∷ b'S' ∷ b'T' ∷ b'U' ∷ b'V' ∷ b'W' ∷ b'X' ∷ b'Y' ∷ b'Z' ∷ []

unfoldable pub omocodia_digits : List (ℕ × ℕ)
omocodia_digits =
    (b'L', 0)
    ∷ (b'M', 1)
    ∷ (b'N', 2)
    ∷ (b'P', 3)
    ∷ (b'Q', 4)
    ∷ (b'R', 5)
    ∷ (b'S', 6)
    ∷ (b'T', 7)
    ∷ (b'U', 8)
    ∷ (b'V', 9)
    ∷ []

unfoldable pub odd_values : List (ℕ × ℕ)
odd_values =
    zip digits (1 ∷ 0 ∷ 5 ∷ 7 ∷ 9 ∷ 13 ∷ 15 ∷ 17 ∷ 19 ∷ 21 ∷ [])
    ++ zip letters (
        1 ∷ 0 ∷ 5 ∷ 7 ∷ 9 ∷ 13 ∷ 15 ∷ 17 ∷ 19 ∷ 21 ∷ 2 ∷ 4 ∷ 18 ∷ 20 ∷ 11 ∷ 3 ∷ 6 ∷ 8 ∷ 12 ∷ 14 ∷ 16
        ∷ 10 ∷ 22 ∷ 25 ∷ 24 ∷ 23 ∷ [])

unfoldable pub even_values : List (ℕ × ℕ)
even_values =
    zip digits (0 ∷ 1 ∷ 2 ∷ 3 ∷ 4 ∷ 5 ∷ 6 ∷ 7 ∷ 8 ∷ 9 ∷ [])
    ++ zip letters (
        0 ∷ 1 ∷ 2 ∷ 3 ∷ 4 ∷ 5 ∷ 6 ∷ 7 ∷ 8 ∷ 9 ∷ 10 ∷ 11 ∷ 12 ∷ 13 ∷ 14 ∷ 15 ∷ 16 ∷ 17 ∷ 18 ∷ 19 ∷ 20
        ∷ 21 ∷ 22 ∷ 23 ∷ 24 ∷ 25 ∷ [])

-- The class `[\dLMNPQRSTUV]`.
abbrev pub is_number_place : ℕ → Bool
is_number_place c = is_digit c || (leb b'L' c && leb c b'N') || (leb b'P' c && leb c b'V')

-- The class `[ABCDEHLMPRST]`.
abbrev pub is_month : ℕ → Bool
is_month c =
    (leb b'A' c && leb c b'E')
    || c == b'H'
    || c == b'L'
    || c == b'M'
    || c == b'P'
    || (leb b'R' c && leb c b'T')

unfoldable pub codice_fiscale_pattern : List (ℕ → Bool)
codice_fiscale_pattern =
    replicate 6 is_capital
    ++ replicate 2 is_number_place
    ++ is_month ∷ replicate 2 is_number_place
    ++ is_capital ∷ replicate 3 is_number_place
    ++ is_capital ∷ []

-- What a record holds for a character. The pattern of the code admits digits and capitals only, and
-- these are the keys, so the 0 in place of `undefined` is not read.
abbrev pub value_in : List (ℕ × ℕ) → ℕ → ℕ
value_in entries c = elim (lookup c entries) [ some v ↦ v | none ↦ 0 ]

-- `cleaned[index]`, which the pattern keeps in range, and the number that it stands for.
unfoldable pub digit_at : List ℕ → ℕ → ℕ
unfolding omocodia_digits
digit_at cf index = elim (get_elem? cf index) [
  | none ↦ 0
  | some c ↦ elim (lookup c omocodia_digits) [ some v ↦ v | none ↦ c - b'0' ]
]

-- One round of the loop in `isValidCodiceFiscale`.
unfoldable pub cin_term : ℕ → ℕ → ℕ
cin_term i c = if i % 2 == 0 then value_in odd_values c else value_in even_values c

unfoldable pub day_of : List ℕ → ℕ
unfolding digit_at
day_of cleaned = digit_at cleaned 9 * 10 + digit_at cleaned 10

abbrev pub is_day : ℕ → Bool
is_day day = (leb 1 day && leb day 31) || (leb 41 day && leb day 71)

abbrev is_character : Option ℕ → ℕ → Bool
is_character none expected = false
is_character (some c) expected = c == expected

unfoldable pub is_valid_codice_fiscale : (ℕ → List ℕ) → List ℕ → Bool
is_valid_codice_fiscale upper_beyond value =
    let cleaned = normalize_tax_id upper_beyond value in
    if matches codice_fiscale_pattern cleaned
    then (if is_day (day_of cleaned)
        then is_character (get_elem? cleaned 15) (65 + add_up cin_term 0 0 (take 15 cleaned) % 26)
        else false)
    else false

unfoldable pub is_valid_italian_tax_id : (ℕ → List ℕ) → List ℕ → Bool
is_valid_italian_tax_id upper_beyond value =
    is_valid_partita_iva upper_beyond value || is_valid_codice_fiscale upper_beyond value
