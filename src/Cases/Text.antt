-- ===== src/Cases/Text.antt =====
-- `trim`, and the normalisers of src/common/utils/address.utils.ts.
use mathlib.Core.List.{reverse}
use easyrisparmio_backend.Prelude.{
  ℕ, Bool, Option, none, some, List, [], ◌∷◌, replicate, if◌then◌else◌,
}
use easyrisparmio_backend.TaxId.{is_space, is_digit, matches}

abbrev pub drop_spaces : List ℕ → List ℕ
drop_spaces [] = []
drop_spaces (c ∷ cs) = let rest = drop_spaces cs in if is_space c then rest else c ∷ cs

unfoldable pub trim : List ℕ → List ℕ
trim value = reverse (drop_spaces (reverse (drop_spaces value)))

-- `value || null` of a text.
abbrev pub non_empty : List ℕ → Option (List ℕ)
non_empty [] = none
non_empty (c ∷ cs) = some (c ∷ cs)

abbrev pub trimmed : Option (List ℕ) → Option (List ℕ)
trimmed none = none
trimmed (some value) = non_empty (trim value)

unfoldable pub normalize_province : Option (List ℕ) → Option (List ℕ)
normalize_province value = trimmed value

-- `^\d{5}$`.
abbrev pub postal_code_pattern : List ℕ → Bool
postal_code_pattern cap = matches (replicate 5 is_digit) cap

abbrev pub keep_cap : Option (List ℕ) → Option (List ℕ)
keep_cap none = none
keep_cap (some cap) = if postal_code_pattern cap then some cap else none

unfoldable pub normalize_postal_code : Option (List ℕ) → Option (List ℕ)
normalize_postal_code value = keep_cap (trimmed value)
