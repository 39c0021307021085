-- ===== src/Legal/Grouping.antt =====
-- The pages grouped by their slugs, in `getDocumentStatuses` of src/modules/legal/legal.service.ts.
use easyrisparmio_backend.Prelude.{
  ℕ, ◌≡◌, refl, sym, ap, ◌∙◌, inl, inr, Bool, false, ◌&&◌, ◌||◌, Option, none, some, List, [], ◌∷◌,
  ◌++◌, find?, any, filter, text_eq, text_eq_iff, arith, Bool-cases,
}
use mathlib.Core.Path.{subst}
use mathlib.Core.List.{append-nil, append_assoc}
use easyrisparmio_backend.Legal.{StaticPage, has_slug}
use easyrisparmio_backend.Legal.Statuses.{Bucket, bucket_rows, add_page, by_slug}

abbrev pub at_slug : List ℕ → Bucket → Bool
at_slug slug b = text_eq b.slug slug

abbrev pub rows_at : Option Bucket → List StaticPage
rows_at none = []
rows_at (some b) = bucket_rows b

-- No two entries have one slug.
abbrev pub AreDistinct : List Bucket → Type 0
AreDistinct [] = Unit
AreDistinct (b ∷ bs) = (any (at_slug b.slug) bs ≡ false) × AreDistinct bs

module _ (slug : List ℕ) (page : StaticPage) where
  rows_at-add_page :
      (bs : List Bucket)
      → rows_at (find? (at_slug slug) (add_page page bs))
        ≡ rows_at (find? (at_slug slug) bs) ++ filter (has_slug slug) (page ∷ [])
  unfolding add_page
  rows_at-add_page [] = ground arith
  rows_at-add_page (b ∷ bs) = elim (Bool-cases (text_eq b.slug page.slug)) [
    | inl t ↦
        let e : text_eq page.slug slug ≡ text_eq b.slug slug =
          ground (arith, text_eq_iff b.slug page.slug) in
        elim (Bool-cases (text_eq b.slug slug)) [
          | inl g ↦ rw (t, e, g, find?) refl
          | inr g ↦ rw (t, e, g, find?) (sym (append-nil _))
        ]
    | inr f ↦ elim (Bool-cases (text_eq b.slug slug)) [
      | inl g ↦
          let e : text_eq page.slug slug ≡ false = ground (
            arith,
            text_eq_iff b.slug page.slug,
            text_eq_iff b.slug slug,
            text_eq_iff page.slug slug,
          ) in
          rw (f, e, g, find?) (sym (append-nil _))
      | inr g ↦ rw (f, g, find?) (rows_at-add_page bs)
    ]
  ]

  any-add_page :
      (bs : List Bucket)
      → any (at_slug slug) (add_page page bs) ≡ (any (at_slug slug) bs || text_eq page.slug slug)
  unfolding add_page
  any-add_page [] = ground arith
  any-add_page (b ∷ bs) = ground (
    arith,
    any-add_page bs,
    text_eq_iff b.slug page.slug,
    text_eq_iff b.slug slug,
    text_eq_iff page.slug slug,
  )

text_eq_comm : (t u : List ℕ) → text_eq t u ≡ text_eq u t
text_eq_comm t u = ground (arith, text_eq_iff t u, text_eq_iff u t)

add_page-AreDistinct :
    (page : StaticPage) (bs : List Bucket) → AreDistinct bs → AreDistinct (add_page page bs)
unfolding add_page
add_page-AreDistinct page [] h = (refl, tt)
add_page-AreDistinct page (b ∷ bs) (h, hs) = elim (Bool-cases (text_eq b.slug page.slug)) [
  | inl t ↦ rw t (h, hs)
  | inr f ↦ rw f (
    ground (arith, any-add_page b.slug page bs, text_eq_comm page.slug b.slug),
    add_page-AreDistinct page bs hs,
  )
]

pub by_slug-AreDistinct :
    (bs : List Bucket) (pages : List StaticPage) → AreDistinct bs → AreDistinct (by_slug bs pages)
unfolding by_slug
by_slug-AreDistinct bs [] h = h
by_slug-AreDistinct bs (p ∷ ps) h =
    by_slug-AreDistinct (add_page p bs) ps (add_page-AreDistinct p bs h)

filter-first {ℓ} :
    {A : Type ℓ} (p : A → Bool) (x : A) (xs : List A)
    → filter p (x ∷ []) ++ filter p xs ≡ filter p (x ∷ xs)
filter-first p x xs = ground arith

rows_at-by_slug_from :
    (slug : List ℕ) (bs : List Bucket) (pages : List StaticPage)
    → rows_at (find? (at_slug slug) (by_slug bs pages))
      ≡ rows_at (find? (at_slug slug) bs) ++ filter (has_slug slug) pages
unfolding by_slug
rows_at-by_slug_from slug bs [] = sym (append-nil _)
rows_at-by_slug_from slug bs (p ∷ ps) =
    rows_at-by_slug_from slug (add_page p bs) ps
    ∙ ap (λ rows. rows ++ filter (has_slug slug) ps) (rows_at-add_page slug p bs)
    ∙ append_assoc (rows_at (find? (at_slug slug) bs)) (filter (has_slug slug) (p ∷ [])) _
    ∙ ap (λ rows. rows_at (find? (at_slug slug) bs) ++ rows) (filter-first (has_slug slug) p ps)

-- The entry of a slug holds the pages with that slug, in their order.
pub rows_at-by_slug :
    (slug : List ℕ) (pages : List StaticPage)
    → rows_at (find? (at_slug slug) (by_slug [] pages)) ≡ filter (has_slug slug) pages
rows_at-by_slug slug pages = rows_at-by_slug_from slug [] pages

any-at_slug_none :
    (slug : List ℕ) (q : Bucket → Bool) (bs : List Bucket)
    → any (at_slug slug) bs ≡ false
    → any (λ b. q b && at_slug slug b) bs ≡ false
any-at_slug_none slug q [] h = refl
any-at_slug_none slug q (b ∷ bs) h = ground (arith, any-at_slug_none slug q bs)

-- With distinct slugs, a test on the entries with one slug is a test on the entry found.
pub any-at_slug :
    (slug : List ℕ) (q : Bucket → Bool) (bs : List Bucket)
    → AreDistinct bs
    → any (λ b. q b && at_slug slug b) bs
      ≡ elim (find? (at_slug slug) bs) as (λ o. Bool) [ none ↦ false | some b ↦ q b ]
any-at_slug slug q [] h = refl
any-at_slug slug q (b ∷ bs) (h, hs) = elim (Bool-cases (text_eq b.slug slug)) [
  | inl t ↦
      let e : b.slug ≡ slug = (text_eq_iff b.slug slug).0 t in
      let rest = any-at_slug_none slug q bs (subst (λ k. any (at_slug k) bs ≡ false) e h) in
      rw (t, rest) (ground arith)
  | inr f ↦ rw f (ground (arith, any-at_slug slug q bs hs))
]
