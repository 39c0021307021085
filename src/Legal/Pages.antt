-- ===== src/Legal/Pages.antt =====
-- The pages that carry the documents: src/modules/static-pages/static-pages.service.ts. A body's
-- field that is not sent is `none`; `null` in place of a column that admits none is outside the
-- model, and so is the title that the error messages quote.
use easyrisparmio_backend.Prelude.{
  ℕ, ◌+◌, ◌==◌, Bool, true, false, ◌&&◌, not, Option, none, some, List, [], ◌∷◌, ◌++◌, map, find?,
  any, filter, text_eq, if◌then◌else◌,
}
use easyrisparmio_backend.Http.{Action, ok, fail, bad_request, not_found}
use easyrisparmio_backend.Versions.{max_version, is_older, is_same_version, first_version}
use easyrisparmio_backend.Switching.{update_where}
use easyrisparmio_backend.Legal.{
  LegalAudience, StaticPage, Store, has_slug, default_locale, legal_slugs,
}
use easyrisparmio_backend.Legal.Acceptances.{locale_or_default, count_acceptances_by_version}

pub record CreateStaticPageDto : Type 0 where
  pub slug : List ℕ
  pub title : List ℕ
  pub content : List ℕ
  pub locale : Option (List ℕ)
  pub is_active : Option Bool
  pub version : Option (List ℕ)
  pub requires_acceptance : Option Bool
  pub audience : Option LegalAudience
  pub change_summary : Option (List ℕ)

-- A `changeSummary` that is sent may be null.
pub record UpdateStaticPageDto : Type 0 where
  pub slug : Option (List ℕ)
  pub title : Option (List ℕ)
  pub content : Option (List ℕ)
  pub locale : Option (List ℕ)
  pub is_active : Option Bool
  pub version : Option (List ℕ)
  pub requires_acceptance : Option Bool
  pub audience : Option LegalAudience
  pub change_summary : Option (Option (List ℕ))

-- `a ?? b`.
abbrev pub or_value {ℓ} : {A : Type ℓ} → Option A → A → A
or_value none b = b
or_value (some a) b = a

abbrev pub is_page_at : List ℕ → List ℕ → StaticPage → Bool
is_page_at slug locale page = text_eq page.slug slug && text_eq page.locale locale

abbrev pub is_page : ℕ → StaticPage → Bool
is_page id page = page.id == id

-- The slugs that a fresh database marks at boot.
abbrev pub is_legal_slug : List ℕ → Bool
is_legal_slug slug = any (text_eq slug) legal_slugs

abbrev pub is_unpublished : StaticPage → Bool
is_unpublished page =
    is_legal_slug page.slug && elim page.published_at [ none ↦ true | some t ↦ false ]

-- `page.version || '1.0'`.
abbrev pub version_or_first : List ℕ → List ℕ
version_or_first [] = first_version
version_or_first (c ∷ cs) = c ∷ cs

abbrev pub marked : StaticPage → StaticPage
marked page = record page {
  requires_acceptance = true;
  audience = LegalAudience.all;
  version = version_or_first page.version;
  published_at = some page.created_at;
}

unfoldable pub on_module_init : Store → Store
on_module_init s = record s { pages = update_where is_unpublished marked s.pages }

unfoldable pub get_page_by_slug : List ℕ → Option (List ℕ) → Action Store StaticPage
get_page_by_slug slug locale s =
    let requested = locale_or_default locale in
    elim (find? (λ p. is_page_at slug requested p && p.is_active) s.pages) [
      | some page ↦ (s, ok page)
      | none ↦
          elim (if text_eq requested default_locale
            then none
            else find? (λ p. is_page_at slug default_locale p && p.is_active) s.pages) [
              | some page ↦ (s, ok page)
              | none ↦ (s, fail (not_found "Page not found"))
            ]
    ]

abbrev pub head_page : List StaticPage → Option StaticPage
head_page [] = none
head_page (p ∷ ps) = some p

-- `dto.version || '1.0'`, of a version that may be missing.
abbrev pub sent_version : Option (List ℕ) → List ℕ
sent_version none = first_version
sent_version (some v) = version_or_first v

-- The version of a new page: the one in force, where there is one.
unfoldable pub joined_version : CreateStaticPageDto → List StaticPage → List ℕ
joined_version dto [] = sent_version dto.version
joined_version dto (p ∷ ps) = max_version (map (λ row. row.version) (p ∷ ps))

unfoldable pub new_page : CreateStaticPageDto → Store → StaticPage
new_page dto s =
    let siblings = filter (has_slug dto.slug) s.pages in
    let requires = or_value dto.requires_acceptance (elim (head_page siblings) [
      | some p ↦ p.requires_acceptance
      | none ↦ is_legal_slug dto.slug
    ]) in
    record {
      id = s.next_id;
      slug = dto.slug;
      title = dto.title;
      content = dto.content;
      locale = locale_or_default dto.locale;
      is_active = or_value dto.is_active true;
      version = joined_version dto siblings;
      requires_acceptance = requires;
      audience =
          or_value dto.audience
            (elim (head_page siblings) [ some p ↦ p.audience | none ↦ LegalAudience.all ]);
      published_at =
          if requires
          then some
              (elim (head_page siblings) [ some p ↦ or_value p.published_at s.now | none ↦ s.now ])
          else none;
      change_summary = dto.change_summary;
      created_at = s.now;
    }

unfoldable pub create_page : CreateStaticPageDto → Action Store StaticPage
create_page dto s =
    if any (is_page_at dto.slug (locale_or_default dto.locale)) s.pages
    then (s, fail (bad_request "A page with this slug already exists for this locale"))
    else (
      record s { pages = s.pages ++ new_page dto s ∷ []; next_id = s.next_id + 1 },
      ok (new_page dto s),
    )

-- `dto.slug || page.slug`.
abbrev pub text_or : Option (List ℕ) → List ℕ → List ℕ
text_or none old = old
text_or (some []) old = old
text_or (some (c ∷ cs)) old = c ∷ cs

-- Whether another page stands at the slug and the locale that the page moves to.
unfoldable pub is_taken : StaticPage → UpdateStaticPageDto → List StaticPage → Bool
is_taken page dto pages =
    let slug = text_or dto.slug page.slug in
    let locale = text_or dto.locale page.locale in
    not (is_page_at slug locale page) && elim (find? (is_page_at slug locale) pages) [
      | none ↦ false
      | some other ↦ not (other.id == page.id)
    ]

abbrev pub version_changed : StaticPage → UpdateStaticPageDto → Bool
version_changed page dto = elim dto.version [
  | none ↦ false
  | some v ↦ not (is_same_version v page.version)
]

abbrev pub goes_backwards : StaticPage → UpdateStaticPageDto → Bool
goes_backwards page dto = elim dto.version [ none ↦ false | some v ↦ is_older v page.version ]

-- `Object.assign(page, dto)`, and the date of a new version.
unfoldable pub assigned : UpdateStaticPageDto → ℕ → StaticPage → StaticPage
assigned dto now page = record page {
  slug = or_value dto.slug page.slug;
  title = or_value dto.title page.title;
  content = or_value dto.content page.content;
  locale = or_value dto.locale page.locale;
  is_active = or_value dto.is_active page.is_active;
  version = or_value dto.version page.version;
  requires_acceptance = or_value dto.requires_acceptance page.requires_acceptance;
  audience = or_value dto.audience page.audience;
  change_summary = or_value dto.change_summary page.change_summary;
  published_at = if version_changed page dto then some now else page.published_at;
}

abbrev pub is_translation : StaticPage → StaticPage → Bool
is_translation saved page = text_eq page.slug saved.slug && not (page.id == saved.id)

-- What a translation takes over from the page that is published.
abbrev pub published : UpdateStaticPageDto → StaticPage → StaticPage → StaticPage
published dto saved page = record page {
  version = saved.version;
  published_at = saved.published_at;
  change_summary = elim dto.change_summary [
    | none ↦ page.change_summary
    | some c ↦ saved.change_summary
  ];
}

-- The save of the page, and of its translations where a new version is published.
unfoldable pub saved_pages :
    StaticPage → UpdateStaticPageDto → ℕ → List StaticPage → List StaticPage
saved_pages page dto now pages =
    let saved = assigned dto now page in
    let rows = update_where (is_page page.id) (λ p. saved) pages in
    if version_changed page dto && saved.requires_acceptance
    then update_where (is_translation saved) (published dto saved) rows
    else rows

unfoldable pub update_page : ℕ → UpdateStaticPageDto → Action Store StaticPage
update_page id dto s = elim (find? (is_page id) s.pages) [
  | none ↦ (s, fail (not_found "Static page not found"))
  | some page ↦
      if is_taken page dto s.pages
      then (s, fail (bad_request "A page with this slug already exists for this locale"))
      else if version_changed page dto && goes_backwards page dto
      then (s, fail (bad_request "Version cannot go backwards"))
      else (record s { pages = saved_pages page dto s.now s.pages }, ok (assigned dto s.now page))
]

unfoldable pub delete_page : ℕ → Action Store (Unit {0})
delete_page id s = elim (find? (is_page id) s.pages) [
  | none ↦ (s, fail (not_found "Static page not found"))
  | some page ↦ (record s { pages = filter (λ p. not (p.id == id)) s.pages }, ok tt)
]

-- `attachAcceptanceCounts`, of one page of the listing.
unfoldable pub accepted_count : StaticPage → Store → Option ℕ
accepted_count page s =
    if page.requires_acceptance
    then some (count_acceptances_by_version page.slug page.version s)
    else none
