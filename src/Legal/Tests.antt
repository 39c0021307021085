-- ===== src/Legal/Tests.antt =====
-- Consent and its documents at concrete inputs.
use easyrisparmio_backend.Prelude.{
  ℕ, ◌≤◌, ◌<◌, ◌≡◌, refl, true, false, none, some, List, [], ◌∷◌, find?, any, All, length, text_eq,
}
use Prim.Native.Nat.{compare, Ordering}
use easyrisparmio_backend.Auth.{UserRole}
use easyrisparmio_backend.Versions.{
  segments, or_zero, is_valid_version, compare_versions, compare_rounds, newest_from, max_version,
  is_older,
}
use easyrisparmio_backend.Versions.Newest.{IsNewest, max_version-IsNewest}
use easyrisparmio_backend.Versions.Weight.{weight, segments-bounds, compare_versions-weight}
use easyrisparmio_backend.Legal.{
  LegalAudience, registration, StaticPage, UserLegalAcceptance, Store, privacy_policy,
  terms_conditions, default_locale,
}
use easyrisparmio_backend.Legal.Statuses.{get_pending_documents}
use easyrisparmio_backend.Legal.Acceptances.{
  LegalAcceptanceItemDto, AcceptanceContext, accept_documents, registration_slugs,
}
use easyrisparmio_backend.Legal.Pages.{
  UpdateStaticPageDto, assigned, is_page, update_page, is_taken, saved_pages,
}
use easyrisparmio_backend.Legal.Gate.{
  is_listed, must_accept, has_agreed, translations, version_in_force,
  get_pending_documents-must_accept,
}
use easyrisparmio_backend.Legal.Consent.{
  is_current, is_offered, every, succeeded, accept_documents-admits,
}
use easyrisparmio_backend.Legal.Settling.{accept_documents-settles}
use easyrisparmio_backend.Legal.Calls.{Call, accept, sign_up, update, boot, wait}
use easyrisparmio_backend.Legal.Publishing.{is_admitted, publishes, update_page-asks}
use easyrisparmio_backend.Legal.Forward.{update_page-forward}

-- '1.0', '2.1', '2.10', '2' and '2.0'.
abbrev v1_0 : List ℕ
v1_0 = 49 ∷ 46 ∷ 48 ∷ []

abbrev v2_1 : List ℕ
v2_1 = 50 ∷ 46 ∷ 49 ∷ []

abbrev v2_10 : List ℕ
v2_10 = 50 ∷ 46 ∷ 49 ∷ 48 ∷ []

abbrev v2 : List ℕ
v2 = 50 ∷ []

abbrev v2_0 : List ℕ
v2_0 = 50 ∷ 46 ∷ 48 ∷ []

segments-run : segments v2_10 ≡ 2 ∷ 10 ∷ []
unfolding segments
segments-run = refl

compare_versions-run : compare_versions v2_10 v2_1 ≡ Ordering.gt
unfolding compare_versions compare_rounds segments
compare_versions-run = refl

compare_versions-short : compare_versions v2 v2_0 ≡ Ordering.eq
unfolding compare_versions compare_rounds segments
compare_versions-short = refl

max_version-run : max_version (v2_1 ∷ [] ∷ v2_10 ∷ v1_0 ∷ []) ≡ v2_10
unfolding max_version newest_from compare_versions compare_rounds segments
max_version-run = refl

max_version-none : max_version [] ≡ v1_0
unfolding max_version newest_from
max_version-none = refl

segments-bounds_example :
    (length (segments v2_10) ≤ 3) × All (λ x. x < 1_000) (segments v2_10) × (or_zero v2_10 ≡ v2_10)
unfolding is_valid_version
segments-bounds_example = segments-bounds v2_10 refl

compare_versions-weight_example :
    compare_versions v2_10 v2_1 ≡ compare (weight (segments v2_10)) (weight (segments v2_1))
unfolding is_valid_version
compare_versions-weight_example = compare_versions-weight v2_10 v2_1 refl refl

max_version-IsNewest_example :
    let vs = v2_1 ∷ v2_10 ∷ v1_0 ∷ [] in
    IsNewest (max_version vs) vs × (any (text_eq (max_version vs)) vs ≡ true)
max_version-IsNewest_example = max_version-IsNewest (v2_1 ∷ v2_10 ∷ v1_0 ∷ []) refl

-- 'en'.
abbrev english : List ℕ
english = 101 ∷ 110 ∷ []

abbrev page_of : ℕ → List ℕ → List ℕ → List ℕ → StaticPage
page_of id slug locale version = record {
  id = id;
  slug = slug;
  title = [];
  content = [];
  locale = locale;
  is_active = true;
  version = version;
  requires_acceptance = true;
  audience = LegalAudience.all;
  published_at = some 5;
  change_summary = none;
  created_at = 4;
}

abbrev terms_page : StaticPage
terms_page = page_of 1 terms_conditions default_locale v2_1

abbrev terms_english : StaticPage
terms_english = page_of 2 terms_conditions english v2_1

abbrev privacy_page : StaticPage
privacy_page = page_of 3 privacy_policy default_locale v1_0

-- A user who accepted the first terms, and the pages of two documents.
abbrev old_row : UserLegalAcceptance
old_row = record {
  user_id = 7;
  slug = terms_conditions;
  version = v1_0;
  locale = default_locale;
  accepted_at = 6;
  source = registration;
  ip_address = none;
  user_agent = none;
}

abbrev store : Store
store = record {
  pages = terms_page ∷ terms_english ∷ privacy_page ∷ [];
  acceptances = old_row ∷ [];
  now = 20;
  next_id = 4;
}

abbrev context : AcceptanceContext
context = record { ip_address = none; user_agent = none }

abbrev item : List ℕ → List ℕ → LegalAcceptanceItemDto
item slug version = record { slug = slug; version = version; locale = none }

abbrev items : List LegalAcceptanceItemDto
items = item terms_conditions v2_1 ∷ item privacy_policy v1_0 ∷ []

get_pending_documents-must_accept_example :
    is_listed terms_conditions (get_pending_documents 7 UserRole.personal english store).documents
    ≡ must_accept 7 UserRole.personal terms_conditions store
get_pending_documents-must_accept_example =
    get_pending_documents-must_accept 7 UserRole.personal english terms_conditions store

must_accept-run : must_accept 7 UserRole.personal terms_conditions store ≡ true
unfolding must_accept translations version_in_force has_agreed max_version newest_from
    compare_versions compare_rounds segments
must_accept-run = refl

accept_documents-admits_example :
    (succeeded (accept_documents 7 UserRole.business items context store).1
      ≡ every (λ x. is_current UserRole.business x store) items)
    × (every (λ x. is_current UserRole.business x store) items ≡ false
        → (accept_documents 7 UserRole.business items context store).0 ≡ store)
accept_documents-admits_example = accept_documents-admits 7 UserRole.business items context store

items_current : every (λ x. is_current UserRole.business x store) items ≡ true
unfolding is_current is_offered translations version_in_force max_version newest_from
    compare_versions compare_rounds segments
items_current = refl

accept_documents-settles_example :
    let t = (accept_documents 7 UserRole.business items context store).0 in
    All
      (λ x.
        is_listed x.slug (get_pending_documents 7 UserRole.business english t).documents ≡ false)
      items
accept_documents-settles_example =
    accept_documents-settles 7 UserRole.business items context english store items_current

-- A new version of the terms.
abbrev publish : UpdateStaticPageDto
publish = record {
  slug = none;
  title = none;
  content = none;
  locale = none;
  is_active = none;
  version = some v2_10;
  requires_acceptance = none;
  audience = none;
  change_summary = none;
}

publish_admitted : is_admitted terms_page publish store ≡ true
unfolding is_taken compare_versions compare_rounds segments
publish_admitted = refl

update_page-asks_example :
    is_listed
      (assigned publish 20 terms_page).slug
      (get_pending_documents 7 UserRole.personal english (update_page 1 publish store).0).documents
    ≡ true
unfolding assigned publishes has_agreed compare_versions compare_rounds segments
update_page-asks_example =
    update_page-asks terms_page publish 7 UserRole.personal english store refl publish_admitted refl
      refl refl refl refl

update_page-forward_example :
    (q : StaticPage) × (find? (is_page 2) (update_page 1 publish store).0.pages ≡ some q)
    × (is_older q.version v2_1 ≡ false)
unfolding assigned compare_versions compare_rounds segments
update_page-forward_example =
    update_page-forward terms_page publish 2 terms_english store refl refl refl

abbrev calls : List Call
calls =
    accept 7 UserRole.personal items context
    ∷ wait 9
    ∷ update 1 publish
    ∷ sign_up 8 UserRole.personal registration_slugs registration default_locale context
    ∷ boot
    ∷ []

-- A page of another language that lags behind takes the whole document back to its new version.
abbrev lagging : Store
lagging = record store {
  pages =
      page_of 1 terms_conditions default_locale v2_10
      ∷ page_of 2 terms_conditions english v1_0
      ∷ [];
}

abbrev publish_old : UpdateStaticPageDto
publish_old = record publish { version = some v2_1 }

update_page-backwards :
    version_in_force UserRole.personal terms_conditions (update_page 2 publish_old lagging).0 ≡ v2_1
unfolding update_page is_taken saved_pages assigned version_in_force translations max_version
    newest_from compare_versions compare_rounds segments
update_page-backwards = refl
