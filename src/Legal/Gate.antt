-- ===== src/Legal/Gate.antt =====
-- Which documents a user is asked to accept: an independent description of what
-- `getPendingDocuments` of src/modules/legal/legal.service.ts computes.
use mathlib.Core.Path.{subst}
use easyrisparmio_backend.Prelude.{
  ℕ, ◌≡◌, refl, sym, ap, ◌∙◌, inl, inr, Bool, true, false, ◌&&◌, ◌||◌, not, Option, none, some,
  List, [], ◌∷◌, ◌==◌, map, find?, any, filter, text_eq, text_eq_iff, arith, Bool-cases, any-filter,
  any-map, any-cong,
}
use easyrisparmio_backend.Prelude.Sorting.{any-sort}
use easyrisparmio_backend.Auth.{UserRole}
use easyrisparmio_backend.Versions.{max_version, is_older}
use easyrisparmio_backend.Versions.Order.{is_newer_trans, is_newer_asymm, is_older-eq-is_newer}
use easyrisparmio_backend.Legal.{StaticPage, UserLegalAcceptance, Store, has_slug}
use easyrisparmio_backend.Legal.Statuses.{
  LegalDocumentStatus, Bucket, is_bound, by_slug, find_acceptances, is_of, latest_accepted,
  newer_acceptance, state_of, is_unsettled, status_of, current_version, is_shown,
  sort_by_slug_order, document_statuses, get_document_statuses, get_pending_documents,
}
use easyrisparmio_backend.Legal.Grouping.{
  at_slug, rows_at, by_slug-AreDistinct, rows_at-by_slug, any-at_slug,
}

-- The pages that carry a document which binds the role.
unfoldable pub translations : UserRole → List ℕ → Store → List StaticPage
translations role slug s = filter (has_slug slug) (filter (is_bound role) s.pages)

-- The version in force of a document.
unfoldable pub version_in_force : UserRole → List ℕ → Store → List ℕ
version_in_force role slug s = max_version (map (λ p. p.version) (translations role slug s))

abbrev pub covers : List ℕ → List ℕ → UserLegalAcceptance → Bool
covers slug version a = text_eq a.slug slug && not (is_older a.version version)

-- The user has accepted the document at this version or a newer one.
unfoldable pub has_agreed : ℕ → List ℕ → List ℕ → List UserLegalAcceptance → Bool
has_agreed user_id slug version rows = any (λ a. a.user_id == user_id && covers slug version a) rows

abbrev pub is_some_page : List StaticPage → Bool
is_some_page [] = false
is_some_page (p ∷ ps) = true

abbrev pub is_customer : UserRole → Bool
is_customer UserRole.admin = false
is_customer UserRole.personal = true
is_customer UserRole.business = true

-- A customer whom an active document binds that they have not accepted in the version in force.
unfoldable pub must_accept : ℕ → UserRole → List ℕ → Store → Bool
must_accept user_id role slug s =
    is_customer role
    && is_some_page (translations role slug s)
    && not (has_agreed user_id slug (version_in_force role slug s) s.acceptances)

abbrev pub is_listed : List ℕ → List LegalDocumentStatus → Bool
is_listed slug docs = any (λ d. text_eq d.slug slug) docs

-- The best acceptance so far covers a version, if there is one.
abbrev best_covers : Option UserLegalAcceptance → List ℕ → Bool
best_covers none version = false
best_covers (some a) version = not (is_older a.version version)

best_covers-newer :
    (best a : UserLegalAcceptance) (version : List ℕ)
    → best_covers (some (newer_acceptance (some best) a)) version
      ≡ (best_covers (some best) version || not (is_older a.version version))
best_covers-newer best a version = ground (
  arith,
  is_older-eq-is_newer a.version version,
  is_older-eq-is_newer best.version version,
  is_newer_asymm a.version best.version,
  is_newer_trans version best.version a.version,
  is_newer_trans version a.version best.version,
)

latest_accepted-settled :
    (slug version : List ℕ) (best : Option UserLegalAcceptance) (rows : List UserLegalAcceptance)
    → is_unsettled (state_of (latest_accepted slug best rows) version)
      ≡ not (best_covers best version || any (covers slug version) rows)
unfolding latest_accepted
latest_accepted-settled slug version none [] = refl
latest_accepted-settled slug version (some a) [] = ground arith
latest_accepted-settled slug version none (a ∷ rows) = elim (Bool-cases (text_eq a.slug slug)) [
  | inl t ↦ rw t (ground (arith, latest_accepted-settled slug version (some a) rows))
  | inr f ↦ rw f (latest_accepted-settled slug version none rows)
]
latest_accepted-settled slug version (some best) (a ∷ rows) =
    elim (Bool-cases (text_eq a.slug slug)) [
      | inl t ↦ rw t (
          ground (
            arith,
            best_covers-newer best a version,
            latest_accepted-settled slug version (some (newer_acceptance (some best) a)) rows,
          ))
      | inr f ↦ rw f (latest_accepted-settled slug version (some best) rows)
    ]

-- The entry of a slug that a page has.
pub at_slug-any :
    (slug : List ℕ) (bs : List Bucket) (b : Bucket)
    → find? (at_slug slug) bs ≡ some b
    → (text_eq b.slug slug ≡ true) × (any (at_slug slug) bs ≡ true)
at_slug-any slug [] b e = absurd (cc)
at_slug-any slug (x ∷ xs) b e = elim (Bool-cases (text_eq x.slug slug)) [
  | inl t ↦
      let same : x ≡ b = ground arith in (subst (λ y. text_eq y.slug slug ≡ true) same t, rw t refl)
  | inr f ↦ let (p, q) = at_slug-any slug xs b (rw (f, find?) at e) in (p, rw f q)
]

is_of-covers :
    (user_id : ℕ) (slug version : List ℕ) (bs : List Bucket) (a : UserLegalAcceptance)
    → any (at_slug slug) bs ≡ true
    → (is_of user_id bs a && covers slug version a)
      ≡ (a.user_id == user_id && covers slug version a)
is_of-covers user_id slug version bs a h = elim (Bool-cases (text_eq a.slug slug)) [
  | inl t ↦
      let e : a.slug ≡ slug = (text_eq_iff a.slug slug).0 t in
      let k = subst (λ x. any (at_slug x) bs ≡ true) (sym e) h in rw k (ground arith)
  | inr f ↦ rw f (ground arith)
]

-- The rows that are read for a document are all of the user's acceptances of it.
covers-find_acceptances :
    (user_id : ℕ) (slug version : List ℕ) (bs : List Bucket) (rows : List UserLegalAcceptance)
    → any (at_slug slug) bs ≡ true
    → any (covers slug version) (find_acceptances user_id bs rows)
      ≡ has_agreed user_id slug version rows
unfolding find_acceptances has_agreed
covers-find_acceptances user_id slug version bs rows h =
    any-sort (covers slug version) _ (filter (is_of user_id bs) rows)
    ∙ any-filter (covers slug version) (is_of user_id bs) rows
    ∙ any-cong _ _ rows (λ a. is_of-covers user_id slug version bs a h)

-- Whether a document's status is shown among the pending ones.
shown-status_of :
    (locale : List ℕ) (content : Bool) (rows : List UserLegalAcceptance) (b : Bucket)
    → is_shown true (status_of locale content rows b)
      ≡ not (any (covers b.slug (current_version b)) rows)
unfolding status_of
shown-status_of locale content rows b =
    ground (arith, latest_accepted-settled b.slug (current_version b) none rows)

status_of-slug :
    (locale : List ℕ) (content : Bool) (rows : List UserLegalAcceptance) (b : Bucket)
    → (status_of locale content rows b).slug ≡ b.slug
unfolding status_of
status_of-slug locale content rows b = refl

-- The entry of a document, and what stands there of the pages.
module _ (user_id : ℕ) (role : UserRole) (slug : List ℕ) (s : Store) where
  buckets : List Bucket
  buckets = by_slug [] (filter (is_bound role) s.pages)

  unsettled : Bucket → Bool
  unsettled b =
      not (any (covers b.slug (current_version b)) (find_acceptances user_id buckets s.acceptances))

  found-asked :
      (o : Option Bucket)
      → find? (at_slug slug) buckets ≡ o
      → elim o as (λ x. Bool) [ none ↦ false | some b ↦ unsettled b ] ≡ (
          is_some_page (translations role slug s)
          && not (has_agreed user_id slug (version_in_force role slug s) s.acceptances))
  unfolding buckets unsettled translations version_in_force
  found-asked none e =
      let rows = ap rows_at (sym e) ∙ rows_at-by_slug slug (filter (is_bound role) s.pages) in
      rw (← rows) refl
  found-asked (some b) e =
      let rows = ap rows_at (sym e) ∙ rows_at-by_slug slug (filter (is_bound role) s.pages) in
      let (p, q) = at_slug-any slug buckets b e in
      let same : b.slug ≡ slug = (text_eq_iff b.slug slug).0 p in
      rw
        (
          ← rows,
          same,
          covers-find_acceptances user_id slug (current_version b) buckets s.acceptances q,
        )
        refl

  document_statuses-asked :
      (locale : List ℕ) (content : Bool)
      → is_listed slug (document_statuses user_id role locale content true s) ≡ (
          is_some_page (translations role slug s)
          && not (has_agreed user_id slug (version_in_force role slug s) s.acceptances))
  unfolding document_statuses sort_by_slug_order buckets unsettled
  document_statuses-asked locale content =
      let rows = find_acceptances user_id buckets s.acceptances in
      let docs = map (status_of locale content rows) buckets in
      any-sort _ _ (filter (is_shown true) docs)
      ∙ any-filter _ (is_shown true) docs
      ∙ any-map _ (status_of locale content rows) buckets
      ∙ any-cong _ (λ b. unsettled b && at_slug slug b) buckets
          (λ b.
            rw (shown-status_of locale content rows b, status_of-slug locale content rows b) refl)
      ∙ any-at_slug slug unsettled buckets
          (by_slug-AreDistinct [] (filter (is_bound role) s.pages) tt)
      ∙ found-asked (find? (at_slug slug) buckets) refl

-- The gate asks a user for exactly the documents that they must accept: an active document that
-- binds their kind of account, of which they have accepted no version as new as the newest of its
-- translations. Admins are asked for none. Neither the locale nor the order of the rows matters.
pub get_pending_documents-must_accept :
    (user_id : ℕ) (role : UserRole) (locale slug : List ℕ) (s : Store)
    → is_listed slug (get_pending_documents user_id role locale s).documents
      ≡ must_accept user_id role slug s
unfolding get_pending_documents get_document_statuses must_accept
get_pending_documents-must_accept user_id UserRole.admin locale slug s = refl
get_pending_documents-must_accept user_id UserRole.personal locale slug s =
    document_statuses-asked user_id UserRole.personal slug s locale true
get_pending_documents-must_accept user_id UserRole.business locale slug s =
    document_statuses-asked user_id UserRole.business slug s locale true
