-- ===== src/Legal/Statuses.antt =====
-- Where a user stands on each legal document: `getDocumentStatuses`, `getPendingDocuments` and
-- `getUserHistory` of src/modules/legal/legal.service.ts. A map is a list of its entries in the
-- order of insertion.
use easyrisparmio_backend.Prelude.Sorting.{sort}
use easyrisparmio_backend.Prelude.{
  ℕ, Bool, true, false, ◌&&◌, not, Option, none, some, List, [], ◌∷◌, ◌++◌, map, find?, any, filter,
  text_eq, ◌==◌, ltb, if◌then◌else◌,
}
use easyrisparmio_backend.Auth.{UserRole}
use easyrisparmio_backend.Versions.{max_version, is_newer, is_older}
use easyrisparmio_backend.Legal.{
  LegalAudience, StaticPage, UserLegalAcceptance, Store, same_audience, audiences_for,
  privacy_policy, terms_conditions, default_locale,
}

pub data LegalDocumentState : Type 0 where
  accepted never_accepted update_required : LegalDocumentState

pub record LegalDocumentStatus : Type 0 where
  pub slug : List ℕ
  pub title : List ℕ
  pub version : List ℕ
  pub locale : List ℕ
  pub audience : LegalAudience
  pub requires_acceptance : Bool
  pub published_at : Option ℕ
  pub change_summary : Option (List ℕ)
  pub content : Option (List ℕ)
  pub accepted_version : Option (List ℕ)
  pub accepted_at : Option ℕ
  pub state : LegalDocumentState
  pub needs_acceptance : Bool

-- The `where` of the pages.
abbrev pub is_bound : UserRole → StaticPage → Bool
is_bound role page =
    page.is_active
    && page.requires_acceptance
    && any (same_audience page.audience) (audiences_for role)

-- An entry of `bySlug`; its list is never empty.
pub record Bucket : Type 0 where
  pub slug : List ℕ
  pub head : StaticPage
  pub tail : List StaticPage

abbrev pub bucket_rows : Bucket → List StaticPage
bucket_rows b = b.head ∷ b.tail

unfoldable pub add_page : StaticPage → List Bucket → List Bucket
add_page page [] = record { slug = page.slug; head = page; tail = [] } ∷ []
add_page page (b ∷ bs) =
    let rest = add_page page bs in
    if text_eq b.slug page.slug then record b { tail = b.tail ++ page ∷ [] } ∷ bs else b ∷ rest

-- The loop that fills `bySlug`.
unfoldable pub by_slug : List Bucket → List StaticPage → List Bucket
by_slug buckets [] = buckets
by_slug buckets (page ∷ pages) = by_slug (add_page page buckets) pages

abbrev pub is_of : ℕ → List Bucket → UserLegalAcceptance → Bool
is_of user_id buckets a = a.user_id == user_id && any (λ b. text_eq b.slug a.slug) buckets

-- The acceptances of a user, the oldest first.
unfoldable pub find_acceptances :
    ℕ → List Bucket → List UserLegalAcceptance → List UserLegalAcceptance
find_acceptances user_id buckets rows =
    sort (λ a b. ltb a.accepted_at b.accepted_at) (filter (is_of user_id buckets) rows)

abbrev pub newer_acceptance : Option UserLegalAcceptance → UserLegalAcceptance → UserLegalAcceptance
newer_acceptance none a = a
newer_acceptance (some best) a = if is_newer a.version best.version then a else best

-- `latestAccepted.get(slug)` after the loop over the acceptances.
unfoldable pub latest_accepted :
    List ℕ → Option UserLegalAcceptance → List UserLegalAcceptance → Option UserLegalAcceptance
latest_accepted slug best [] = best
latest_accepted slug best (a ∷ rows) =
    latest_accepted slug (if text_eq a.slug slug then some (newer_acceptance best a) else best) rows

abbrev pub state_of : Option UserLegalAcceptance → List ℕ → LegalDocumentState
state_of none current_version = never_accepted
state_of (some a) current_version =
    if is_older a.version current_version then update_required else accepted

abbrev pub is_unsettled : LegalDocumentState → Bool
is_unsettled accepted = false
is_unsettled never_accepted = true
is_unsettled update_required = true

-- `a ?? b` of pages.
abbrev pub page_or : Option StaticPage → StaticPage → StaticPage
page_or none b = b
page_or (some a) b = a

unfoldable pub pick_locale : Bucket → List ℕ → StaticPage
pick_locale b locale =
    page_or (find? (λ row. text_eq row.locale locale) (bucket_rows b))
      (page_or (find? (λ row. text_eq row.locale default_locale) (bucket_rows b)) b.head)

abbrev pub current_version : Bucket → List ℕ
current_version b = max_version (map (λ row. row.version) (bucket_rows b))

abbrev pub map_option {ℓ κ} : {A : Type ℓ} {B : Type κ} → (A → B) → Option A → Option B
map_option f none = none
map_option f (some a) = some (f a)

-- The body of the loop over `bySlug`, for one document.
unfoldable pub status_of : List ℕ → Bool → List UserLegalAcceptance → Bucket → LegalDocumentStatus
status_of locale include_content rows b =
    let page = pick_locale b locale in
    let found = latest_accepted b.slug none rows in
    let state = state_of found (current_version b) in
    record {
      slug = b.slug;
      title = page.title;
      version = current_version b;
      locale = page.locale;
      audience = page.audience;
      requires_acceptance = page.requires_acceptance;
      published_at = page.published_at;
      change_summary = page.change_summary;
      content = if include_content then some page.content else none;
      accepted_version = map_option (λ a. a.version) found;
      accepted_at = map_option (λ a. a.accepted_at) found;
      state = state;
      needs_acceptance = is_unsettled state;
    }

-- `if (options.onlyPending && !needsAcceptance) continue`.
abbrev pub is_shown : Bool → LegalDocumentStatus → Bool
is_shown only_pending d = not (only_pending && not d.needs_acceptance)

-- The place of a slug in the order, the last for the slugs that have none.
unfoldable pub slug_order : List ℕ → ℕ
slug_order slug =
    if text_eq slug privacy_policy then 0 else if text_eq slug terms_conditions then 1 else 2

unfoldable pub sort_by_slug_order : List LegalDocumentStatus → List LegalDocumentStatus
sort_by_slug_order statuses = sort (λ a b. ltb (slug_order a.slug) (slug_order b.slug)) statuses

unfoldable pub document_statuses :
    ℕ → UserRole → List ℕ → (include_content only_pending : Bool) → Store → List LegalDocumentStatus
document_statuses user_id role locale include_content only_pending s =
    let buckets = by_slug [] (filter (is_bound role) s.pages) in
    let rows = find_acceptances user_id buckets s.acceptances in
    sort_by_slug_order
      (filter (is_shown only_pending) (map (status_of locale include_content rows) buckets))

-- Admins are asked nothing.
unfoldable pub get_document_statuses :
    ℕ → UserRole → List ℕ → (include_content only_pending : Bool) → Store → List LegalDocumentStatus
get_document_statuses user_id UserRole.admin locale include_content only_pending s = []
get_document_statuses user_id UserRole.personal locale include_content only_pending s =
    document_statuses user_id UserRole.personal locale include_content only_pending s
get_document_statuses user_id UserRole.business locale include_content only_pending s =
    document_statuses user_id UserRole.business locale include_content only_pending s

pub record PendingDocuments : Type 0 where
  pub requires_action : Bool
  pub documents : List LegalDocumentStatus

abbrev pub is_some_document : List LegalDocumentStatus → Bool
is_some_document [] = false
is_some_document (d ∷ ds) = true

unfoldable pub get_pending_documents : ℕ → UserRole → List ℕ → Store → PendingDocuments
get_pending_documents user_id role locale s =
    let documents = get_document_statuses user_id role locale true true s in
    record { requires_action = is_some_document documents; documents = documents }

unfoldable pub get_user_history : ℕ → Store → List UserLegalAcceptance
get_user_history user_id s =
    sort (λ a b. ltb b.accepted_at a.accepted_at) (filter (λ a. a.user_id == user_id) s.acceptances)
