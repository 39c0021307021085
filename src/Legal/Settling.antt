-- ===== src/Legal/Settling.antt =====
-- What a request that `acceptDocuments` of src/modules/legal/legal.service.ts admits settles.

use easyrisparmio_backend.Prelude.{
  ℕ, ◌≡◌, ◌∙◌, Bool, true, false, ◌&&◌, List, [], ◌∷◌, ◌==◌, map, any, text_eq, text_eq_iff, arith,
  All,
}
use easyrisparmio_backend.Auth.{UserRole}
use easyrisparmio_backend.Versions.{is_older, is_same_version}
use easyrisparmio_backend.Legal.{UserLegalAcceptance, Store, reacceptance}
use easyrisparmio_backend.Legal.Statuses.{get_pending_documents}
use easyrisparmio_backend.Legal.Acceptances.{
  LegalAcceptanceItemDto, AcceptanceContext, accept_documents, persist_acceptances, same_key,
  new_acceptance,
}
use easyrisparmio_backend.Legal.Ledger.{HaveKeys, insert_or_ignore-HaveKeys}
use easyrisparmio_backend.Legal.Gate.{
  translations, version_in_force, has_agreed, must_accept, is_listed,
  get_pending_documents-must_accept, covers,
}
use easyrisparmio_backend.Legal.Consent.{is_current, every, admitted}

any-implies :
    (p q : UserLegalAcceptance → Bool) (rows : List UserLegalAcceptance)
    → ((a : UserLegalAcceptance) → p a ≡ true → q a ≡ true)
    → any p rows ≡ true
    → any q rows ≡ true
any-implies p q [] h k = k
any-implies p q (a ∷ rows) h k = ground (arith, h a, any-implies p q rows h)

-- A row with the key of a new one covers the version that the new one has.
same_key-covers :
    (b a : UserLegalAcceptance) (version : List ℕ)
    → is_same_version b.version version ≡ true
    → same_key b a ≡ true
    → (a.user_id == b.user_id && covers b.slug version a) ≡ true
same_key-covers b a version h k =
    let e : text_eq a.version b.version ≡ true = ground arith in
    let same : a.version ≡ b.version = (text_eq_iff a.version b.version).0 e in
    let older : is_older a.version version ≡ false = rw same (ground arith) in ground arith

All-implies {κ μ} :
    {P : LegalAcceptanceItemDto → Type κ} {Q : LegalAcceptanceItemDto → Type μ}
    (items : List LegalAcceptanceItemDto)
    → ((item : LegalAcceptanceItemDto) → P item → Q item)
    → All P items
    → All Q items
All-implies [] h k = tt
All-implies (x ∷ xs) h (k, ks) = (h x k, All-implies xs h ks)

agreed-accepted :
    (user_id : ℕ) (role : UserRole) (slug : List ℕ) (s : Store) (table : List UserLegalAcceptance)
    → has_agreed user_id slug (version_in_force role slug s) table ≡ true
    → must_accept user_id role slug (record s { acceptances = table }) ≡ false
unfolding must_accept version_in_force translations
agreed-accepted user_id role slug s table h = rw h (ground arith)

HaveKeys-agreed :
    (user_id : ℕ) (role : UserRole) (context : AcceptanceContext) (now : ℕ) (s : Store)
    (items : List LegalAcceptanceItemDto) (table : List UserLegalAcceptance)
    → every (λ item. is_current role item s) items ≡ true
    → HaveKeys (map (new_acceptance user_id reacceptance context now) items) table
    → All
        (λ item. must_accept user_id role item.slug (record s { acceptances = table }) ≡ false)
        items
unfolding is_current has_agreed
HaveKeys-agreed user_id role context now s [] table h k = tt
HaveKeys-agreed user_id role context now s (x ∷ xs) table h (k, ks) =
    let b = new_acceptance user_id reacceptance context now x in
    let v = version_in_force role x.slug s in
    let same : is_same_version x.version v ≡ true = ground arith in
    (
      agreed-accepted user_id role x.slug s table (
          any-implies (same_key b) (λ a. a.user_id == user_id && covers x.slug v a) table
            (λ a e. same_key-covers b a v same e) k),
      HaveKeys-agreed user_id role context now s xs table (ground arith) ks,
    )

-- After a request that names the versions in force, the user is asked for none of the documents
-- that it names.
pub accept_documents-settles :
    (user_id : ℕ) (role : UserRole) (items : List LegalAcceptanceItemDto)
    (context : AcceptanceContext) (locale : List ℕ) (s : Store)
    → every (λ item. is_current role item s) items ≡ true
    → let t = (accept_documents user_id role items context s).0 in
      All
        (λ item.
          is_listed item.slug (get_pending_documents user_id role locale t).documents ≡ false)
        items
unfolding persist_acceptances
accept_documents-settles user_id role items context locale s h =
    let t = (persist_acceptances user_id items reacceptance context s).0 in
    let (e, ok') = admitted user_id role items context s h in
    let settled =
      HaveKeys-agreed user_id role context s.now s items t.acceptances h
        (insert_or_ignore-HaveKeys _ s.acceptances) in
    rw e (
      All-implies items
        (λ item k. get_pending_documents-must_accept user_id role locale item.slug t ∙ k) settled)
