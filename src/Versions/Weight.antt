-- ===== src/Versions/Weight.antt =====
-- Versions as single numbers, in the order of `compareVersions`
-- (src/common/utils/version.util.ts).
use Prim.Native.Nat.{compare}
use easyrisparmio_backend.Prelude.{
  ℕ, suc, ◌+◌, ◌*◌, ◌≤◌, ◌<◌, ◌≡◌, refl, ap, ◌∙◌, true, List, [], ◌∷◌, arith, leb, leb→le, length,
  map, parse_digits, All, &&_true,
}
use easyrisparmio_backend.Versions.{
  split_dots, segments, is_valid_version, all_groups, is_group, or_zero, compare_rounds,
  compare_versions, first, others,
}
use easyrisparmio_backend.Versions.Order.{compare_versions-rounds}

-- The first three segments as digits to the base 1000.
pub weight : List ℕ → ℕ
weight xs = first xs * 1_000_000 + first (others xs) * 1_000 + first (others (others xs))

AreGroups : List ℕ → Type 0
AreGroups xs = All (λ x. x < 1_000) xs

is_group-lt : (part : List ℕ) → is_group part ≡ true → parse_digits 0 part < 1_000
is_group-lt [] h = absurd (cc)
is_group-lt (a ∷ []) h = ground arith
is_group-lt (a ∷ b ∷ []) h = ground arith
is_group-lt (a ∷ b ∷ c ∷ []) h = ground arith
is_group-lt (a ∷ b ∷ c ∷ d ∷ cs) h = absurd (ground arith)

all_groups-AreGroups :
    (parts : List (List ℕ)) → all_groups parts ≡ true → AreGroups (map (parse_digits 0) parts)
unfolding AreGroups
all_groups-AreGroups [] h = tt
all_groups-AreGroups (part ∷ parts) h =
    let (p, q) = &&_true (is_group part) (all_groups parts) h in
    (is_group-lt part p, all_groups-AreGroups parts q)

length-map : (parts : List (List ℕ)) → length (map (parse_digits 0) parts) ≡ length parts
length-map [] = refl
length-map (part ∷ parts) = ap suc (length-map parts)

-- The segments of a version that the pattern admits: at most three, each below a thousand.
pub segments-bounds :
    (v : List ℕ)
    → is_valid_version v ≡ true
    → (length (segments v) ≤ 3) × All (λ x. x < 1_000) (segments v) × (or_zero v ≡ v)
unfolding is_valid_version segments AreGroups
segments-bounds [] h = absurd (cc)
segments-bounds (c ∷ cs) h =
    let parts = split_dots (c ∷ cs) in
    let (p, q) = &&_true (leb (length parts) 3) (all_groups parts) h in
    (omega (arith, length-map parts, leb→le _ _ p), all_groups-AreGroups parts q, refl)

AreGroups-first : (xs : List ℕ) → AreGroups xs → first xs < 1_000
unfolding AreGroups
AreGroups-first [] h = omega arith
AreGroups-first (x ∷ xs) h = h.0

AreGroups-others : (xs : List ℕ) → AreGroups xs → AreGroups (others xs)
unfolding AreGroups
AreGroups-others [] h = tt
AreGroups-others (x ∷ xs) h = h.1

compare_rounds-weight :
    (xs ys : List ℕ)
    → AreGroups xs
    → AreGroups ys
    → compare_rounds 3 xs ys ≡ compare (weight xs) (weight ys)
unfolding compare_rounds weight
compare_rounds-weight xs ys h k = ground (
  arith,
  AreGroups-first (others xs) (AreGroups-others xs h),
  AreGroups-first (others (others xs)) (AreGroups-others (others xs) (AreGroups-others xs h)),
  AreGroups-first (others ys) (AreGroups-others ys k),
  AreGroups-first (others (others ys)) (AreGroups-others (others ys) (AreGroups-others ys k)),
)

-- Versions that the pattern admits compare as the numbers whose digits to the base 1000 are their
-- segments.
pub compare_versions-weight :
    (a b : List ℕ)
    → is_valid_version a ≡ true
    → is_valid_version b ≡ true
    → compare_versions a b ≡ compare (weight (segments a)) (weight (segments b))
unfolding AreGroups
compare_versions-weight a b h k =
    let (la, ba, ea) = segments-bounds a h in
    let (lb, bb, eb) = segments-bounds b k in
    compare_versions-rounds 3 a b (rw ea la) (rw eb lb)
    ∙ rw (ea, eb) (compare_rounds-weight (segments a) (segments b) ba bb)
