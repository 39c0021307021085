-- ===== src/Legal/Forward.antt =====
-- Versions do not go backwards: `updatePage` of src/modules/static-pages/static-pages.service.ts.
use mathlib.Core.Path.{subst}
use easyrisparmio_backend.Prelude.{
  ℕ, ◌≡◌, refl, ap, ◌∙◌, inl, inr, Bool, true, false, ◌&&◌, some, List, [], ◌∷◌, ◌==◌, find?, any,
  arith, Bool-cases, Option-cases,
}
use easyrisparmio_backend.Versions.{is_newer, is_older}
use easyrisparmio_backend.Versions.Order.{
  is_newer_irrefl, is_older-eq-is_newer, is_newer_trans, same-not_newer,
}
use easyrisparmio_backend.Legal.{StaticPage, Store, has_slug}
use easyrisparmio_backend.Legal.Statuses.{map_option}
use easyrisparmio_backend.Legal.Pages.{
  UpdateStaticPageDto, is_page, is_taken, version_changed, goes_backwards, assigned, is_translation,
  update_page,
}
use easyrisparmio_backend.Legal.Publishing.{
  is_admitted, publishes, row_after, find?-row_after, update_page-pages,
}

assigned-not_older :
    (page : StaticPage) (dto : UpdateStaticPageDto) (s : Store)
    → is_admitted page dto s ≡ true
    → is_newer page.version (assigned dto s.now page).version ≡ false
unfolding assigned
assigned-not_older page dto s h = elim (Option-cases dto.version) [
  | inl e ↦ rw e (is_newer_irrefl page.version)
  | inr (v, e) ↦
      rw (e) (ground (arith, is_older-eq-is_newer v page.version, same-not_newer v page.version))
]

row_after-not_older :
    (page p : StaticPage) (dto : UpdateStaticPageDto) (s : Store)
    → is_admitted page dto s ≡ true
    → ((p.id == page.id) ≡ true → p ≡ page)
    → (has_slug (assigned dto s.now page).slug p ≡ true → is_newer p.version page.version ≡ false)
    → is_newer p.version (row_after page dto s.now p).version ≡ false
unfolding row_after
row_after-not_older page p dto s h same level =
    let v = (assigned dto s.now page).version in
    let up = assigned-not_older page dto s h in
    elim (Bool-cases (p.id == page.id)) [
      | inl t ↦
          let e : (row_after page dto s.now p).version ≡ v = ground arith in
          let old : p.version ≡ page.version = ap (λ q. q.version) (same t) in rw (e, old) up
      | inr f ↦
          elim (Bool-cases
            (publishes page dto s.now && is_translation (assigned dto s.now page) p)) [
              | inl t ↦
                  let e : (row_after page dto s.now p).version ≡ v = ground arith in
                  let own : has_slug (assigned dto s.now page).slug p ≡ true = ground arith in
                  rw e (is_newer_trans p.version page.version v (level own) up)
              | inr g ↦
                  let e : (row_after page dto s.now p).version ≡ p.version = ground arith in
                  rw e (is_newer_irrefl p.version)
            ]
    ]

find?-sound :
    (k : ℕ) (pages : List StaticPage) (p : StaticPage)
    → find? (is_page k) pages ≡ some p
    → (p.id == k) ≡ true
find?-sound k [] p e = absurd (cc)
find?-sound k (x ∷ xs) p e = elim (Bool-cases (x.id == k)) [
  | inl t ↦ let same : x ≡ p = ground arith in subst (λ y. (y.id == k) ≡ true) same t
  | inr f ↦ find?-sound k xs p (rw (f, find?) at e)
]

find?-any :
    (test : StaticPage → Bool) (k : ℕ) (pages : List StaticPage) (p : StaticPage)
    → find? (is_page k) pages ≡ some p
    → any test pages ≡ false
    → test p ≡ false
find?-any test k [] p e h = absurd (cc)
find?-any test k (x ∷ xs) p e h = elim (Bool-cases (x.id == k)) [
  | inl t ↦ let same : x ≡ p = ground arith in subst (λ y. test y ≡ false) same (ground arith)
  | inr f ↦ find?-any test k xs p (rw (f, find?) at e) (ground arith)
]

same-page :
    (page p : StaticPage) (k : ℕ) (pages : List StaticPage)
    → find? (is_page page.id) pages ≡ some page
    → find? (is_page k) pages ≡ some p
    → (p.id == page.id) ≡ true
    → p ≡ page
same-page page p k pages there e t =
    let a = find?-sound k pages p e in
    let ids : k ≡ page.id = ground arith in
    let found : find? (is_page page.id) pages ≡ some p =
      subst (λ n. find? (is_page n) pages ≡ some p) ids e in
    ground arith

update_page-pages_forward :
    (page : StaticPage) (dto : UpdateStaticPageDto) (k : ℕ) (p : StaticPage) (s : Store)
    → find? (is_page page.id) s.pages ≡ some page
    → is_admitted page dto s ≡ true
    → any
        (λ q. has_slug (assigned dto s.now page).slug q && is_newer q.version page.version)
        s.pages
      ≡ false
    → find? (is_page k) s.pages ≡ some p
    → (q : StaticPage) × (find? (is_page k) (update_page page.id dto s).0.pages ≡ some q)
      × (is_older q.version p.version ≡ false)
update_page-pages_forward page dto k p s there admitted level e =
    let q = row_after page dto s.now p in
    let here : find? (is_page k) (update_page page.id dto s).0.pages ≡ some q =
      ap (λ t. find? (is_page k) t.pages) (update_page-pages page dto s there admitted)
      ∙ find?-row_after page dto s.now k s.pages
      ∙ ap (map_option (row_after page dto s.now)) e in
    let own = find?-any _ k s.pages p e level in
    (
      q,
      here,
      is_older-eq-is_newer q.version p.version
          ∙ row_after-not_older page p dto s admitted (same-page page p k s.pages there e)
              (λ h. ground arith),
    )

update_page-refused :
    (page : StaticPage) (dto : UpdateStaticPageDto) (s : Store)
    → find? (is_page page.id) s.pages ≡ some page
    → is_admitted page dto s ≡ false
    → (update_page page.id dto s).0 ≡ s
unfolding update_page
update_page-refused page dto s e h = elim (Bool-cases (is_taken page dto s.pages)) [
  | inl t ↦ rw (e, update_page, t) refl
  | inr f ↦
      let back : (version_changed page dto && goes_backwards page dto) ≡ true = ground arith in
      rw (e, update_page, f, back) refl
]

-- Whatever change of a page is asked for, and whether it is accepted or refused, afterwards every
-- page is in the table at a version that is not older than before, where before it no page of the
-- document that the page belongs to after the change is newer than the page.
pub update_page-forward :
    (page : StaticPage) (dto : UpdateStaticPageDto) (k : ℕ) (p : StaticPage) (s : Store)
    → find? (is_page page.id) s.pages ≡ some page
    → any
        (λ q. has_slug (assigned dto s.now page).slug q && is_newer q.version page.version)
        s.pages
      ≡ false
    → find? (is_page k) s.pages ≡ some p
    → (q : StaticPage) × (find? (is_page k) (update_page page.id dto s).0.pages ≡ some q)
      × (is_older q.version p.version ≡ false)
update_page-forward page dto k p s there level e = elim (Bool-cases (is_admitted page dto s)) [
  | inl admitted ↦ update_page-pages_forward page dto k p s there admitted level e
  | inr refused ↦ (
    p,
    ap (λ t. find? (is_page k) t.pages) (update_page-refused page dto s there refused) ∙ e,
    is_older-eq-is_newer p.version p.version ∙ is_newer_irrefl p.version,
  )
]
