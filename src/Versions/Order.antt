-- ===== src/Versions/Order.antt =====
-- The order of document versions, `compareVersions` of src/common/utils/version.util.ts.
use Prim.Native.Nat.{Ordering}
use easyrisparmio_backend.Prelude.{
  ℕ, zero, suc, ◌+◌, ◌≤◌, ◌≡◌, refl, sym, ap, ◌∙◌, Bool, true, false, List, [], ◌∷◌, arith, length,
}
use easyrisparmio_backend.Versions.{
  compare_rounds, compare_versions, segments, or_zero, others, is_newer, is_older, is_same_version,
}

compare_rounds-nil : (n : ℕ) → compare_rounds n [] [] ≡ Ordering.eq
unfolding compare_rounds
compare_rounds-nil zero = refl
compare_rounds-nil (suc n) = compare_rounds-nil n

length-others : (xs : List ℕ) (n : ℕ) → length xs ≤ suc n → length (others xs) ≤ n
length-others [] n h = omega arith
length-others (x ∷ xs) n h = omega (arith, h)

-- Rounds past the last segment decide nothing.
compare_rounds-enough :
    (n m : ℕ) (xs ys : List ℕ)
    → length xs ≤ n
    → length ys ≤ n
    → length xs ≤ m
    → length ys ≤ m
    → compare_rounds n xs ys ≡ compare_rounds m xs ys
unfolding compare_rounds
compare_rounds-enough zero m [] [] a b c d = sym (compare_rounds-nil m)
compare_rounds-enough zero m (x ∷ xs) ys a b c d = absurd (omega (arith, a))
compare_rounds-enough zero m [] (y ∷ ys) a b c d = absurd (omega (arith, b))
compare_rounds-enough (suc n) zero [] [] a b c d = compare_rounds-nil n
compare_rounds-enough (suc n) zero (x ∷ xs) ys a b c d = absurd (omega (arith, c))
compare_rounds-enough (suc n) zero [] (y ∷ ys) a b c d = absurd (omega (arith, d))
compare_rounds-enough (suc n) (suc m) xs ys a b c d = ground (
  arith,
  compare_rounds-enough n m (others xs) (others ys) (length-others xs n a) (length-others ys n b)
      (length-others xs m c) (length-others ys m d),
)

-- As many rounds as the longer version has segments, or more, give the comparison.
pub compare_versions-rounds :
    (n : ℕ) (a b : List ℕ)
    → length (segments (or_zero a)) ≤ n
    → length (segments (or_zero b)) ≤ n
    → compare_versions a b ≡ compare_rounds n (segments (or_zero a)) (segments (or_zero b))
unfolding compare_versions
compare_versions-rounds n a b h k =
    compare_rounds-enough _ n (segments (or_zero a)) (segments (or_zero b)) (ground arith)
      (ground arith) h k

pub opposite : Ordering → Ordering
opposite Ordering.lt = Ordering.gt
opposite Ordering.eq = Ordering.eq
opposite Ordering.gt = Ordering.lt

compare_rounds-opposite :
    (n : ℕ) (xs ys : List ℕ) → compare_rounds n ys xs ≡ opposite (compare_rounds n xs ys)
unfolding compare_rounds opposite
compare_rounds-opposite zero xs ys = refl
compare_rounds-opposite (suc n) xs ys =
    ground (arith, compare_rounds-opposite n (others xs) (others ys))

not_gt : Ordering → Bool
not_gt Ordering.gt = false
not_gt Ordering.lt = true
not_gt Ordering.eq = true

compare_rounds_trans :
    (n : ℕ) (xs ys zs : List ℕ)
    → not_gt (compare_rounds n xs ys) ≡ true
    → not_gt (compare_rounds n ys zs) ≡ true
    → not_gt (compare_rounds n xs zs) ≡ true
unfolding compare_rounds not_gt
compare_rounds_trans zero xs ys zs h k = refl
compare_rounds_trans (suc n) xs ys zs h k =
    ground (arith, compare_rounds_trans n (others xs) (others ys) (others zs))

compare_rounds_refl : (n : ℕ) (xs : List ℕ) → compare_rounds n xs xs ≡ Ordering.eq
unfolding compare_rounds
compare_rounds_refl zero xs = refl
compare_rounds_refl (suc n) xs = ground (arith, compare_rounds_refl n (others xs))

-- Rounds that are enough for three versions.
rounds : List ℕ → List ℕ → List ℕ → ℕ
rounds a b c =
    length (segments (or_zero a)) + length (segments (or_zero b)) + length (segments (or_zero c))

module _ (a b : List ℕ) where
  pub compare_versions-opposite : compare_versions b a ≡ opposite (compare_versions a b)
  unfolding rounds
  compare_versions-opposite =
      compare_versions-rounds (rounds a b a) b a (omega arith) (omega arith)
      ∙ compare_rounds-opposite (rounds a b a) (segments (or_zero a)) (segments (or_zero b))
      ∙ ap opposite (sym (compare_versions-rounds (rounds a b a) a b (omega arith) (omega arith)))

  pub is_older-eq-is_newer : is_older a b ≡ is_newer b a
  unfolding opposite
  is_older-eq-is_newer = ground (arith, compare_versions-opposite)

  pub is_newer_asymm : is_newer a b ≡ true → is_newer b a ≡ false
  unfolding opposite
  is_newer_asymm h = ground (arith, compare_versions-opposite)

  pub same-not_newer : is_same_version a b ≡ true → is_newer b a ≡ false
  unfolding opposite
  same-not_newer h = ground (arith, compare_versions-opposite)

pub is_newer_irrefl : (a : List ℕ) → is_newer a a ≡ false
unfolding rounds
is_newer_irrefl a =
    let e =
      compare_versions-rounds (rounds a a a) a a (omega arith) (omega arith)
      ∙ compare_rounds_refl (rounds a a a) (segments (or_zero a)) in
    ground arith

-- "Not newer" is transitive.
pub is_newer_trans :
    (a b c : List ℕ) → is_newer a b ≡ false → is_newer b c ≡ false → is_newer a c ≡ false
unfolding not_gt rounds
is_newer_trans a b c h k = ground (
  arith,
  compare_versions-rounds (rounds a b c) a b,
  compare_versions-rounds (rounds a b c) b c,
  compare_versions-rounds (rounds a b c) a c,
  compare_rounds_trans (rounds a b c) (segments (or_zero a)) (segments (or_zero b))
      (segments (or_zero c)),
)

compare_rounds-zero : (n : ℕ) (ys : List ℕ) → not_gt (compare_rounds n [] ys) ≡ true
unfolding compare_rounds not_gt
compare_rounds-zero zero ys = refl
compare_rounds-zero (suc n) ys = ground (arith, compare_rounds-zero n (others ys))

-- An empty version is newer than none.
pub not_newer-nil : (v : List ℕ) → is_newer [] v ≡ false
unfolding not_gt rounds compare_rounds segments
not_newer-nil v =
    let n = length (segments (or_zero v)) in
    ground (
      arith,
      compare_versions-rounds (suc n) [] v (omega arith) (omega arith),
      compare_rounds-zero n (others (segments (or_zero v))),
    )
