-- ===== src/Legal/Publishing.antt =====
-- What a change of a page does to the versions of its document and to the users who accepted it:
-- `updatePage` of src/modules/static-pages/static-pages.service.ts and the gate of
-- src/modules/legal/legal.service.ts.
use mathlib.Core.Path.{subst}
use easyrisparmio_backend.Prelude.{
  ℕ, ◌≡◌, refl, sym, ap, ◌∙◌, inl, inr, Bool, true, false, ◌&&◌, not, some, List, [], ◌∷◌, ◌==◌,
  map, find?, any, filter, text_eq, text_eq_iff, text_eq_refl, arith, if◌then◌else◌, Bool-cases,
  All, any-filter, any-map,
}
use easyrisparmio_backend.Auth.{UserRole}
use easyrisparmio_backend.Versions.{max_version, is_given}
use easyrisparmio_backend.Versions.Newest.{max_version-IsNewest}
use easyrisparmio_backend.Legal.{StaticPage, Store, has_slug}
use easyrisparmio_backend.Legal.Statuses.{is_bound, map_option, get_pending_documents}
use easyrisparmio_backend.Legal.Pages.{
  UpdateStaticPageDto, is_page, is_taken, version_changed, goes_backwards, assigned, is_translation,
  published, saved_pages, update_page,
}
use easyrisparmio_backend.Legal.Gate.{
  translations, version_in_force, has_agreed, must_accept, is_customer, is_some_page, is_listed,
  get_pending_documents-must_accept,
}

-- The change passes the checks of `updatePage`.
abbrev pub is_admitted : StaticPage → UpdateStaticPageDto → Store → Bool
is_admitted page dto s =
    not (is_taken page dto s.pages) && not (version_changed page dto && goes_backwards page dto)

module _ (page : StaticPage) (dto : UpdateStaticPageDto) (now : ℕ) where
  -- The change publishes a new version of a document.
  unfoldable pub publishes : Bool
  publishes = version_changed page dto && (assigned dto now page).requires_acceptance

  -- What becomes of one row.
  unfoldable pub row_after : StaticPage → StaticPage
  row_after p =
      let saved = assigned dto now page in
      if p.id == page.id
      then saved
      else if publishes && is_translation saved p
      then published dto saved p
      else p

  saved_pages-map : (pages : List StaticPage) → saved_pages page dto now pages ≡ map row_after pages
  unfolding saved_pages row_after publishes assigned
  saved_pages-map [] = ground arith
  saved_pages-map (p ∷ ps) = ground (arith, saved_pages-map ps)

  row_after-id : (p : StaticPage) → (row_after p).id ≡ p.id
  unfolding row_after assigned
  row_after-id p = ground arith

  -- Where a version is published, every page of the document has it afterwards.
  row_after-version :
      (p : StaticPage)
      → publishes ≡ true
      → has_slug (assigned dto now page).slug (row_after p) ≡ true
      → (row_after p).version ≡ (assigned dto now page).version
  unfolding row_after assigned
  row_after-version p h k = ground arith

find?-map :
    (p : StaticPage → Bool) (g : StaticPage → StaticPage) (pages : List StaticPage)
    → ((x : StaticPage) → p (g x) ≡ p x)
    → find? p (map g pages) ≡ map_option g (find? p pages)
find?-map p g [] h = refl
find?-map p g (x ∷ xs) h = elim (Bool-cases (p x)) [
  | inl t ↦ rw (h x, t, find?) refl
  | inr f ↦ rw (h x, f, find?) (find?-map p g xs h)
]

pub find?-row_after :
    (page : StaticPage) (dto : UpdateStaticPageDto) (now k : ℕ) (pages : List StaticPage)
    → find? (is_page k) (map (row_after page dto now) pages)
      ≡ map_option (row_after page dto now) (find? (is_page k) pages)
find?-row_after page dto now k pages =
    find?-map (is_page k) (row_after page dto now) pages
      (λ x. ap (λ n. n == k) (row_after-id page dto now x))

pub update_page-pages :
    (page : StaticPage) (dto : UpdateStaticPageDto) (s : Store)
    → find? (is_page page.id) s.pages ≡ some page
    → is_admitted page dto s ≡ true
    → (update_page page.id dto s).0 ≡ record s { pages = map (row_after page dto s.now) s.pages }
unfolding update_page
update_page-pages page dto s e h =
    let taken : is_taken page dto s.pages ≡ false = ground arith in
    let forward : (version_changed page dto && goes_backwards page dto) ≡ false = ground arith in
    rw (e, taken, forward, update_page)
      (ap (λ ps. record s { pages = ps }) (saved_pages-map page dto s.now s.pages))

-- All versions of a list are one.
member-same :
    (v u : List ℕ) (vs : List (List ℕ)) → All (λ w. w ≡ v) vs → any (text_eq u) vs ≡ true → u ≡ v
member-same v u [] h m = absurd (cc)
member-same v u (w ∷ ws) (h, hs) m = elim (Bool-cases (text_eq u w)) [
  | inl t ↦ (text_eq_iff u w).0 t ∙ h
  | inr f ↦ member-same v u ws hs (ground arith)
]

all-same-max :
    (v : List ℕ) (vs : List (List ℕ))
    → All (λ u. u ≡ v) vs
    → any is_given vs ≡ true
    → max_version vs ≡ v
all-same-max v vs h k =
    let (n, m) = max_version-IsNewest vs k in member-same v (max_version vs) vs h m

any-find? :
    (p : StaticPage → Bool) (g : StaticPage → StaticPage) (k : ℕ) (pages : List StaticPage)
    (page : StaticPage)
    → find? (is_page k) pages ≡ some page
    → p (g page) ≡ true
    → any p (map g pages) ≡ true
any-find? p g k [] page e h = absurd (cc)
any-find? p g k (x ∷ xs) page e h = elim (Bool-cases (x.id == k)) [
  | inl t ↦
      let same : x ≡ page = ground arith in
      let here : p (g x) ≡ true = subst (λ y. p (g y) ≡ true) (sym same) h in rw here refl
  | inr f ↦ ground (arith, any-find? p g k xs page (rw (f, find?) at e) h)
]

is_some_page-any :
    (p : StaticPage → Bool) (pages : List StaticPage)
    → any p pages ≡ true
    → is_some_page pages ≡ true
is_some_page-any p [] h = h
is_some_page-any p (x ∷ xs) h = refl

module _ (page : StaticPage) (dto : UpdateStaticPageDto) (role : UserRole) (s : Store) where
  saved : StaticPage
  saved = assigned dto s.now page

  after : Store
  after = record s { pages = map (row_after page dto s.now) s.pages }

  filtered-versions :
      (pages : List StaticPage)
      → publishes page dto s.now ≡ true
      → All
          (λ v. v ≡ saved.version)
          (map
            (λ p. p.version)
            (filter
              (has_slug saved.slug)
              (filter (is_bound role) (map (row_after page dto s.now) pages))))
  unfolding saved
  filtered-versions [] h = tt
  filtered-versions (p ∷ ps) h =
      let q = row_after page dto s.now p in
      let rest = filtered-versions ps h in
      elim (Bool-cases (is_bound role q)) [
        | inl b ↦ elim (Bool-cases (has_slug saved.slug q)) [
          | inl t ↦ rw (b, filter, t) (row_after-version page dto s.now p h t, rest)
          | inr f ↦ rw (b, filter, f) rest
        ]
        | inr b ↦ rw b rest
      ]

  -- The page itself is found among the rows afterwards.
  saved-there :
      (test : StaticPage → Bool)
      → find? (is_page page.id) s.pages ≡ some page
      → test saved ≡ true
      → any test after.pages ≡ true
  unfolding saved after row_after
  saved-there test e h =
      any-find? test (row_after page dto s.now) page.id s.pages page e (ground arith)

  module _ (there : find? (is_page page.id) s.pages ≡ some page)
      (publishing : publishes page dto s.now ≡ true) (active : is_bound role saved ≡ true)
      (given : is_given saved.version ≡ true) where
    given-there : any (λ p. is_given p.version) (translations role saved.slug after) ≡ true
    unfolding translations
    given-there =
        any-filter _ (has_slug saved.slug) (filter (is_bound role) after.pages)
        ∙ any-filter _ (is_bound role) after.pages
        ∙ saved-there _ there (ground (arith, text_eq_refl saved.slug))

    version_in_force-after : version_in_force role saved.slug after ≡ saved.version
    unfolding version_in_force after translations
    version_in_force-after =
        all-same-max saved.version _ (filtered-versions s.pages publishing)
          (any-map is_given (λ p. p.version) (translations role saved.slug after) ∙ given-there)

    must_accept-after :
        (user_id : ℕ)
        → is_customer role ≡ true
        → has_agreed user_id saved.slug saved.version s.acceptances ≡ false
        → must_accept user_id role saved.slug after ≡ true
    unfolding must_accept after
    must_accept-after user_id c h =
        let some_page = is_some_page-any _ (translations role saved.slug after) given-there in
        rw (c, some_page, version_in_force-after, h) refl

-- When a change publishes a new version of an active document, every customer whom the document
-- binds and who has not accepted that version or a newer one is asked for it.
pub update_page-asks :
    (page : StaticPage) (dto : UpdateStaticPageDto) (user_id : ℕ) (role : UserRole)
    (locale : List ℕ) (s : Store)
    → let saved = assigned dto s.now page in
      find? (is_page page.id) s.pages ≡ some page
      → is_admitted page dto s ≡ true
      → publishes page dto s.now ≡ true
      → is_given saved.version ≡ true
      → is_customer role ≡ true
      → is_bound role saved ≡ true
      → has_agreed user_id saved.slug saved.version s.acceptances ≡ false
      → is_listed saved.slug
          (get_pending_documents user_id role locale (update_page page.id dto s).0).documents
        ≡ true
unfolding saved after
update_page-asks page dto user_id role locale s there admitted publishing given customer active
      old =
    rw (update_page-pages page dto s there admitted) (
      get_pending_documents-must_accept user_id role locale (assigned dto s.now page).slug
        (after page dto role s)
      ∙ must_accept-after page dto role s there publishing active given user_id customer old)
