-- ===== src/Versions.antt =====
-- Document versions, src/common/utils/version.util.ts. A version is a text, the list of its code
-- points; a segment that begins with a sign or a space is not read as `parseInt` reads it, and no
-- version that `VERSION_PATTERN` admits has one.
pub mod Order
pub mod Newest
pub mod Weight
use Prim.Native.Nat.{compare, Ordering}
use easyrisparmio_backend.Prelude.{
  ℕ, zero, suc, ◌==◌, Bool, true, false, ◌&&◌, Option, none, some, List, [], ◌∷◌, ◌++◌, leb, length,
  map, filter, if◌then◌else◌, is_decimal, parse_digits,
}

-- A character before the first part of a split text.
abbrev pub prepend : ℕ → List (List ℕ) → List (List ℕ)
prepend c [] = (c ∷ []) ∷ []
prepend c (part ∷ parts) = (c ∷ part) ∷ parts

-- `split('.')`.
abbrev pub split_dots : List ℕ → List (List ℕ)
split_dots [] = [] ∷ []
split_dots (c ∷ cs) = let rest = split_dots cs in if c == 46 then [] ∷ rest else prepend c rest

-- `segments`; `parseInt` of a text that begins with no digit is NaN, which counts as 0.
unfoldable pub segments : List ℕ → List ℕ
segments value = map (parse_digits 0) (split_dots value)

abbrev pub all : (ℕ → Bool) → List ℕ → Bool
all p [] = true
all p (c ∷ cs) = p c && all p cs

-- `\d{1,3}`.
abbrev pub is_group : List ℕ → Bool
is_group part = leb 1 (length part) && leb (length part) 3 && all is_decimal part

abbrev pub all_groups : List (List ℕ) → Bool
all_groups [] = true
all_groups (part ∷ parts) = is_group part && all_groups parts

-- `^\d{1,3}(\.\d{1,3}){0,2}$`: one to three groups with dots between them.
unfoldable pub is_valid_version : List ℕ → Bool
is_valid_version value = leb (length (split_dots value)) 3 && all_groups (split_dots value)

-- `value || '0'`.
abbrev pub or_zero : List ℕ → List ℕ
or_zero [] = 48 ∷ []
or_zero (c ∷ cs) = c ∷ cs

-- `left[0] ?? 0`, and the segments after the first.
abbrev pub first : List ℕ → ℕ
first [] = 0
first (x ∷ xs) = x

abbrev pub others : List ℕ → List ℕ
others [] = []
others (x ∷ xs) = xs

abbrev pub max : ℕ → ℕ → ℕ
max a b = if leb a b then b else a

-- The loop over as many segments; the sign of the first difference.
unfoldable pub compare_rounds : ℕ → List ℕ → List ℕ → Ordering
compare_rounds zero left right = Ordering.eq
compare_rounds (suc n) left right = elim (compare (first left) (first right)) [
  | Ordering.lt ↦ Ordering.lt
  | Ordering.gt ↦ Ordering.gt
  | Ordering.eq ↦ compare_rounds n (others left) (others right)
]

-- `compareVersions`, by the sign of its number.
unfoldable pub compare_versions : List ℕ → List ℕ → Ordering
compare_versions a b =
    let left = segments (or_zero a) in
    let right = segments (or_zero b) in compare_rounds (max (length left) (length right)) left right

-- `compareVersions(a, b) < 0`.
abbrev pub is_older : List ℕ → List ℕ → Bool
is_older a b = elim (compare_versions a b) [ Ordering.lt ↦ true | _ ↦ false ]

-- `compareVersions(a, b) > 0`.
abbrev pub is_newer : List ℕ → List ℕ → Bool
is_newer a b = elim (compare_versions a b) [ Ordering.gt ↦ true | _ ↦ false ]

-- `compareVersions(a, b) === 0`.
abbrev pub is_same_version : List ℕ → List ℕ → Bool
is_same_version a b = elim (compare_versions a b) [ Ordering.eq ↦ true | _ ↦ false ]

abbrev pub is_given : List ℕ → Bool
is_given [] = false
is_given (c ∷ cs) = true

abbrev pub newer_of : Option (List ℕ) → List ℕ → List ℕ
newer_of none current = current
newer_of (some best) current = if is_newer current best then current else best

-- The `reduce` of `maxVersion`.
unfoldable pub newest_from : Option (List ℕ) → List (List ℕ) → Option (List ℕ)
newest_from best [] = best
newest_from best (v ∷ vs) = newest_from (some (newer_of best v)) vs

abbrev pub or_else : Option (List ℕ) → List ℕ → List ℕ
or_else none fallback = fallback
or_else (some v) fallback = v

-- `'1.0'`.
abbrev pub first_version : List ℕ
first_version = 49 ∷ 46 ∷ 48 ∷ []

-- `maxVersion`, with its fallback.
unfoldable pub max_version : List (List ℕ) → List ℕ
max_version versions = or_else (newest_from none (filter is_given versions)) first_version
