-- ===== src/Legal/Acceptances.antt =====
-- Recording consent: `acceptDocuments`, `recordAcceptanceFor`, `registrationSlugs`,
-- `persistAcceptances` and `countAcceptancesByVersion` of src/modules/legal/legal.service.ts. The
-- lists of documents in the messages of the refusals are left out.
use easyrisparmio_backend.Prelude.{
  ℕ, ◌+◌, ◌==◌, Bool, true, false, ◌&&◌, not, Option, none, some, List, [], ◌∷◌, ◌++◌, map, find?,
  any, filter, take, text_eq, if◌then◌else◌,
}
use easyrisparmio_backend.Http.{Action, bad_request, return, throw_if, ◌>>=◌, ◌>>◌}
use easyrisparmio_backend.Auth.{UserRole}
use easyrisparmio_backend.Versions.{is_same_version}
use easyrisparmio_backend.Legal.{
  LegalAcceptanceSource, reacceptance, UserLegalAcceptance, Store, default_locale, legal_slugs,
}
use easyrisparmio_backend.Legal.Statuses.{
  LegalDocumentStatus, get_document_statuses, is_some_document, map_option,
}

pub record LegalAcceptanceItemDto : Type 0 where
  pub slug : List ℕ
  pub version : List ℕ
  pub locale : Option (List ℕ)

pub record AcceptanceContext : Type 0 where
  pub ip_address : Option (List ℕ)
  pub user_agent : Option (List ℕ)

pub record AcceptReply : Type 0 where
  pub accepted : List UserLegalAcceptance
  pub requires_action : Bool
  pub documents : List LegalDocumentStatus

-- `item.locale || DEFAULT_LOCALE`.
abbrev pub locale_or_default : Option (List ℕ) → List ℕ
locale_or_default none = default_locale
locale_or_default (some []) = default_locale
locale_or_default (some (c ∷ cs)) = c ∷ cs

module _ (user_id : ℕ) where
  abbrev pub new_acceptance :
      LegalAcceptanceSource → AcceptanceContext → ℕ → LegalAcceptanceItemDto → UserLegalAcceptance
  new_acceptance source context now item = record {
    user_id = user_id;
    slug = item.slug;
    version = item.version;
    locale = locale_or_default item.locale;
    accepted_at = now;
    source = source;
    ip_address = context.ip_address;
    user_agent = map_option (λ agent. take 512 agent) context.user_agent;
  }

  abbrev pub is_acceptance_of : LegalAcceptanceItemDto → UserLegalAcceptance → Bool
  is_acceptance_of item a =
      a.user_id == user_id && text_eq a.slug item.slug && text_eq a.version item.version

-- Equal in the columns of the unique index.
abbrev pub same_key : UserLegalAcceptance → UserLegalAcceptance → Bool
same_key a b = b.user_id == a.user_id && text_eq b.slug a.slug && text_eq b.version a.version

-- `insert().orIgnore()`: a row whose key is there already, or earlier in the statement, is skipped.
unfoldable pub insert_or_ignore :
    List UserLegalAcceptance → List UserLegalAcceptance → List UserLegalAcceptance
insert_or_ignore [] table = table
insert_or_ignore (row ∷ rows) table =
    insert_or_ignore rows (if any (same_key row) table then table else table ++ row ∷ [])

unfoldable pub persist_acceptances :
    ℕ
    → List LegalAcceptanceItemDto
    → LegalAcceptanceSource
    → AcceptanceContext
    → Action Store (List UserLegalAcceptance)
persist_acceptances user_id items source context s =
    let rows = map (new_acceptance user_id source context s.now) items in
    let table = insert_or_ignore rows s.acceptances in
    return (filter (λ a. any (λ item. is_acceptance_of user_id item a) items) table)
      (record s { acceptances = table })

-- `bySlug.get(item.slug)`.
abbrev pub document_of : List ℕ → List LegalDocumentStatus → Option LegalDocumentStatus
document_of slug docs = find? (λ d. text_eq d.slug slug) docs

abbrev pub is_unknown : List LegalDocumentStatus → LegalAcceptanceItemDto → Bool
is_unknown docs item = elim (document_of item.slug docs) [ none ↦ true | some d ↦ false ]

abbrev pub is_stale : List LegalDocumentStatus → LegalAcceptanceItemDto → Bool
is_stale docs item = elim (document_of item.slug docs) [
  | none ↦ false
  | some d ↦ not (is_same_version item.version d.version)
]

unfoldable pub accept_documents :
    ℕ → UserRole → List LegalAcceptanceItemDto → AcceptanceContext → Action Store AcceptReply
accept_documents user_id role items context s =
    let applicable = get_document_statuses user_id role default_locale false false s in
    (do
      throw_if (any (is_unknown applicable) items)
          (bad_request "Not a legal document for this account")
      throw_if (any (is_stale applicable) items)
          (bad_request "A newer version has been published, please reload")
      accepted ← persist_acceptances user_id items reacceptance context
      λ t.
          let documents = get_document_statuses user_id role default_locale false true t in
          return
            (record {
              accepted = accepted;
              requires_action = is_some_document documents;
              documents = documents;
            })
            t)
      s

abbrev pub item_of : LegalDocumentStatus → LegalAcceptanceItemDto
item_of d = record { slug = d.slug; version = d.version; locale = some d.locale }

-- The calls of the database that fail are only logged; here none fails.
unfoldable pub record_acceptance_for :
    ℕ
    → UserRole
    → List (List ℕ)
    → LegalAcceptanceSource
    → List ℕ
    → AcceptanceContext
    → Store
    → Store
record_acceptance_for user_id role slugs source locale context s =
    let applicable = get_document_statuses user_id role locale false false s in
    let items = map item_of (filter (λ d. any (text_eq d.slug) slugs) applicable) in
    (persist_acceptances user_id items source context s).0

abbrev pub registration_slugs : List (List ℕ)
registration_slugs = legal_slugs

-- How many users are among the rows: `COUNT(DISTINCT acceptance.userId)`.
unfoldable pub count_users : List UserLegalAcceptance → ℕ
count_users [] = 0
count_users (a ∷ rows) =
    let rest = count_users rows in if any (λ b. b.user_id == a.user_id) rows then rest else rest + 1

-- `counts.get(slug@version) ?? 0`; no slug or version is admitted that has an `@` in it.
unfoldable pub count_acceptances_by_version : List ℕ → List ℕ → Store → ℕ
count_acceptances_by_version slug version s =
    count_users (filter (λ a. text_eq a.slug slug && text_eq a.version version) s.acceptances)
