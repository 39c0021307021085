-- ===== src/Versions/Newest.antt =====
-- The newest of a list of versions, `maxVersion` of src/common/utils/version.util.ts.
use easyrisparmio_backend.Prelude.{
  ℕ, ◌≡◌, refl, ap, ◌⊎◌, inl, inr, true, false, none, some, List, [], ◌∷◌, any, All, filter,
  text_eq, text_eq_iff, arith, Bool-cases,
}
use easyrisparmio_backend.Versions.{
  newest_from, newer_of, max_version, is_newer, is_given, or_else, first_version,
}
use easyrisparmio_backend.Versions.Order.{
  is_newer_trans, is_newer_irrefl, is_newer_asymm, not_newer-nil,
}

-- No version of the list is newer.
abbrev pub IsNewest : List ℕ → List (List ℕ) → Type 0
IsNewest v vs = All (λ u. is_newer u v ≡ false) vs

newer_of-below :
    (best v : List ℕ)
    → (is_newer best (newer_of (some best) v) ≡ false)
      × (is_newer v (newer_of (some best) v) ≡ false)
newer_of-below best v = elim (Bool-cases (is_newer v best)) [
  | inl t ↦ rw t (is_newer_asymm v best t, is_newer_irrefl v)
  | inr f ↦ rw f (is_newer_irrefl best, f)
]

newer_of-member :
    (best u v : List ℕ) (us : List (List ℕ))
    → (v ≡ newer_of (some best) u) ⊎ (any (text_eq v) us ≡ true)
    → (v ≡ best) ⊎ (any (text_eq v) (u ∷ us) ≡ true)
newer_of-member best u v us (inl e) = elim (Bool-cases (is_newer u best)) [
  | inl t ↦ let h : v ≡ u = ground arith in inr (ground (arith, text_eq_iff v u))
  | inr f ↦ inl (ground arith)
]
newer_of-member best u v us (inr h) = inr (ground arith)

newest_from-IsNewest :
    (best : List ℕ) (vs : List (List ℕ))
    → (v : List ℕ) × (newest_from (some best) vs ≡ some v)
      × (is_newer best v ≡ false)
      × IsNewest v vs
      × ((v ≡ best) ⊎ (any (text_eq v) vs ≡ true))
unfolding newest_from
newest_from-IsNewest best [] = (best, refl, is_newer_irrefl best, tt, inl refl)
newest_from-IsNewest best (u ∷ us) =
    let (v, e, b, n, m) = newest_from-IsNewest (newer_of (some best) u) us in
    let (p, q) = newer_of-below best u in
    (
      v,
      e,
      is_newer_trans best _ v p b,
      (is_newer_trans u _ v q b, n),
      newer_of-member best u v us m,
    )

newest_from-cons :
    (vs : List (List ℕ))
    → (u : List ℕ) (us : List (List ℕ)) → vs ≡ u ∷ us
    → (v : List ℕ) × (newest_from none vs ≡ some v) × IsNewest v vs × (any (text_eq v) vs ≡ true)
unfolding newest_from
newest_from-cons [] u us e = absurd (cc)
newest_from-cons (x ∷ xs) u us e =
    let (v, p, b, n, m) = newest_from-IsNewest x xs in
    (v, p, (b, n), elim m [ inl q ↦ ground (arith, text_eq_iff v x) | inr q ↦ ground arith ])

filter-some :
    (vs : List (List ℕ))
    → any is_given vs ≡ true
    → (u : List ℕ) × (us : List (List ℕ)) × (filter is_given vs ≡ u ∷ us)
filter-some [] h = absurd (cc)
filter-some ([] ∷ vs) h = filter-some vs h
filter-some ((c ∷ cs) ∷ vs) h = (c ∷ cs, filter is_given vs, refl)

-- An empty version counts as 0, and nothing is older.
filter-IsNewest :
    (v : List ℕ) (vs : List (List ℕ)) → IsNewest v (filter is_given vs) → IsNewest v vs
filter-IsNewest v [] h = tt
filter-IsNewest v ([] ∷ vs) h = (not_newer-nil v, filter-IsNewest v vs h)
filter-IsNewest v ((c ∷ cs) ∷ vs) (h, hs) = (h, filter-IsNewest v vs hs)

filter-member :
    (v : List ℕ) (vs : List (List ℕ))
    → any (text_eq v) (filter is_given vs) ≡ true
    → any (text_eq v) vs ≡ true
filter-member v [] h = h
filter-member v ([] ∷ vs) h = ground (arith, filter-member v vs h)
filter-member v ((c ∷ cs) ∷ vs) h = ground (arith, filter-member v vs)

-- Of versions of which one is not empty, `maxVersion` takes one that is in the list, and none of
-- the list is newer.
pub max_version-IsNewest :
    (vs : List (List ℕ))
    → any is_given vs ≡ true
    → IsNewest (max_version vs) vs × (any (text_eq (max_version vs)) vs ≡ true)
unfolding max_version
max_version-IsNewest vs h =
    let (u, us, e) = filter-some vs h in
    let (v, p, n, m) = newest_from-cons (filter is_given vs) u us e in
    let q : max_version vs ≡ v = ap (λ o. or_else o first_version) p in
    rw q (filter-IsNewest v vs n, filter-member v vs m)
