-- ===== src/Legal/Consent.antt =====
-- What `acceptDocuments` of src/modules/legal/legal.service.ts admits.
use mathlib.Core.Path.{subst}
use easyrisparmio_backend.Prelude.{
  ℕ, ◌≡◌, refl, sym, ap, ◌∙◌, inl, inr, Bool, true, false, ◌&&◌, ◌||◌, not, Option, none, some,
  List, [], ◌∷◌, map, find?, any, filter, text_eq, text_eq_iff, text_eq_refl, arith, Bool-cases,
  Option-cases, any-filter, any-map,
}
use easyrisparmio_backend.Prelude.Sorting.{any-sort}
use easyrisparmio_backend.Http.{Result, ok, fail}
use easyrisparmio_backend.Auth.{UserRole}
use easyrisparmio_backend.Versions.{is_same_version}
use easyrisparmio_backend.Legal.{Store, default_locale, reacceptance}
use easyrisparmio_backend.Legal.Statuses.{
  Bucket, is_bound, by_slug, find_acceptances, status_of, current_version, is_shown,
  sort_by_slug_order, document_statuses, get_document_statuses,
}
use easyrisparmio_backend.Legal.Grouping.{
  at_slug, rows_at, by_slug-AreDistinct, rows_at-by_slug, any-at_slug,
}
use easyrisparmio_backend.Legal.Acceptances.{
  LegalAcceptanceItemDto, AcceptanceContext, accept_documents, persist_acceptances, is_unknown,
  is_stale, document_of,
}
use easyrisparmio_backend.Legal.Gate.{translations, version_in_force, is_customer, is_some_page}

-- The document is one that the user can accept: it is active and binds them.
unfoldable pub is_offered : UserRole → List ℕ → Store → Bool
is_offered role slug s = is_customer role && is_some_page (translations role slug s)

-- The item names such a document, and the version in force.
unfoldable pub is_current : UserRole → LegalAcceptanceItemDto → Store → Bool
is_current role item s =
    is_offered role item.slug s && is_same_version item.version (version_in_force role item.slug s)

module _ (user_id : ℕ) (role : UserRole) (locale slug : List ℕ) (content : Bool) (s : Store) where
  found-version :
      (q : List ℕ → Bool) (o : Option Bucket)
      → find? (at_slug slug) (by_slug [] (filter (is_bound role) s.pages)) ≡ o
      → elim o as (λ x. Bool) [ none ↦ false | some b ↦ q (current_version b) ]
        ≡ (is_some_page (translations role slug s) && q (version_in_force role slug s))
  unfolding translations version_in_force
  found-version q o e =
      let rows = ap rows_at (sym e) ∙ rows_at-by_slug slug (filter (is_bound role) s.pages) in
      rw (← rows) (ground arith)

  -- A test on the statuses of one slug is a test on the version in force.
  any-statuses :
      (q : List ℕ → Bool)
      → any
          (λ d. q d.version && text_eq d.slug slug)
          (document_statuses user_id role locale content false s)
        ≡ (is_some_page (translations role slug s) && q (version_in_force role slug s))
  unfolding document_statuses sort_by_slug_order status_of
  any-statuses q =
      let buckets = by_slug [] (filter (is_bound role) s.pages) in
      let rows = find_acceptances user_id buckets s.acceptances in
      let docs = map (status_of locale content rows) buckets in
      any-sort _ _ (filter (is_shown false) docs)
      ∙ any-filter _ (is_shown false) docs
      ∙ any-map _ (status_of locale content rows) buckets
      ∙ any-at_slug slug (λ b. q (current_version b)) buckets
          (by_slug-AreDistinct [] (filter (is_bound role) s.pages) tt)
      ∙ found-version q (find? (at_slug slug) buckets) refl

module _ {A : Type 0} (p : A → Bool) where
  find?-none : (xs : List A) → find? p xs ≡ none → any p xs ≡ false
  find?-none [] e = refl
  find?-none (x ∷ xs) e = elim (Bool-cases (p x)) [
    | inl t ↦ absurd (cc (rw (t, find?) at e))
    | inr f ↦ rw f (find?-none xs (rw (f, find?) at e))
  ]

  find?-some :
      (q : A → Bool) (xs : List A) (d : A)
      → find? p xs ≡ some d
      → any (λ x. q x && p x) xs ≡ false
      → (q d ≡ false) × (any p xs ≡ true)
  find?-some q [] d e h = absurd (cc)
  find?-some q (x ∷ xs) d e h = elim (Bool-cases (p x)) [
    | inl t ↦
        let same : x ≡ d = ground arith in (subst (λ y. q y ≡ false) same (ground arith), rw t refl)
    | inr f ↦ let (a, b) = find?-some q xs d (rw (f, find?) at e) (ground arith) in (a, rw f b)
  ]

-- What the checks find of an item is whether it names a document that is offered, and its version.
check-item :
    (user_id : ℕ) (role : UserRole) (item : LegalAcceptanceItemDto) (s : Store)
    → let docs = document_statuses user_id role default_locale false false s in
      (is_unknown docs item || is_stale docs item)
      ≡ not (
          is_some_page (translations role item.slug s)
          && is_same_version item.version (version_in_force role item.slug s))
check-item user_id role item s =
    let docs = document_statuses user_id role default_locale false false s in
    let v = version_in_force role item.slug s in
    let here = any-statuses user_id role default_locale item.slug false s (λ w. true) in
    let other =
      any-statuses user_id role default_locale item.slug false s (λ w. not (text_eq w v)) in
    elim (Option-cases (document_of item.slug docs)) [
      | inl e ↦ let none_there = find?-none (λ d. text_eq d.slug item.slug) docs e in ground arith
      | inr (d, e) ↦
          let (a, b) =
            find?-some (λ d. text_eq d.slug item.slug) (λ d. not (text_eq d.version v)) docs d e
              (other ∙ ground (arith, text_eq_refl v)) in
          let same : d.version ≡ v = (text_eq_iff d.version v).0 (ground arith) in
          let known : is_some_page (translations role item.slug s) ≡ true = ground arith in
          rw (known, ← same) (ground arith)
    ]

abbrev pub every : (LegalAcceptanceItemDto → Bool) → List LegalAcceptanceItemDto → Bool
every p [] = true
every p (x ∷ xs) = p x && every p xs

checked :
    (user_id : ℕ) (role : UserRole) (item : LegalAcceptanceItemDto) (s : Store)
    → let docs = get_document_statuses user_id role default_locale false false s in
      (is_unknown docs item || is_stale docs item) ≡ not (is_current role item s)
unfolding get_document_statuses is_current is_offered
checked user_id UserRole.admin item s = refl
checked user_id UserRole.personal item s = check-item user_id UserRole.personal item s
checked user_id UserRole.business item s = check-item user_id UserRole.business item s

any-every :
    (p q c : LegalAcceptanceItemDto → Bool) (items : List LegalAcceptanceItemDto)
    → ((item : LegalAcceptanceItemDto) → (p item || q item) ≡ not (c item))
    → (any p items || any q items) ≡ not (every c items)
any-every p q c [] h = refl
any-every p q c (x ∷ xs) h = ground (arith, h x, any-every p q c xs h)

abbrev pub succeeded {ℓ} : {A : Type ℓ} → Result A → Bool
succeeded (ok a) = true
succeeded (fail e) = false

module _ (user_id : ℕ) (role : UserRole) (items : List LegalAcceptanceItemDto)
    (context : AcceptanceContext) (s : Store) where
  checks :
      let docs = get_document_statuses user_id role default_locale false false s in
      (any (is_unknown docs) items || any (is_stale docs) items)
      ≡ not (every (λ item. is_current role item s) items)
  checks =
      any-every _ _ (λ item. is_current role item s) items (λ item. checked user_id role item s)

  refused :
      every (λ item. is_current role item s) items ≡ false
      → ((accept_documents user_id role items context s).0 ≡ s)
        × (succeeded (accept_documents user_id role items context s).1 ≡ false)
  unfolding accept_documents
  refused h =
      let docs = get_document_statuses user_id role default_locale false false s in
      elim (Bool-cases (any (is_unknown docs) items)) [
        | inl t ↦ rw t (refl, refl)
        | inr f ↦
            let t : any (is_stale docs) items ≡ true = ground (arith, checks) in
            rw (f, t) (refl, refl)
      ]

  pub admitted :
      every (λ item. is_current role item s) items ≡ true
      → ((accept_documents user_id role items context s).0
          ≡ (persist_acceptances user_id items reacceptance context s).0)
        × (succeeded (accept_documents user_id role items context s).1 ≡ true)
  unfolding accept_documents persist_acceptances
  admitted h =
      let docs = get_document_statuses user_id role default_locale false false s in
      let known : any (is_unknown docs) items ≡ false = ground (arith, checks) in
      let fresh : any (is_stale docs) items ≡ false = ground (arith, checks) in
      rw (known, fresh) (refl, refl)

  -- A request to accept documents is admitted exactly when each item names an active document that
  -- binds the user and the version in force; a request that is refused writes nothing.
  pub accept_documents-admits :
      (succeeded (accept_documents user_id role items context s).1
        ≡ every (λ item. is_current role item s) items)
      × (every (λ item. is_current role item s) items ≡ false
          → (accept_documents user_id role items context s).0 ≡ s)
  accept_documents-admits = (
    elim (Bool-cases (every (λ item. is_current role item s) items)) [
      | inl t ↦ (admitted t).1 ∙ sym t
      | inr f ↦ (refused f).1 ∙ sym f
    ],
    λ h. (refused h).0,
  )
