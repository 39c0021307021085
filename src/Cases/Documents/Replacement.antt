-- ===== src/Cases/Documents/Replacement.antt =====
-- Replaced documents (src/modules/cases/cases.service.ts).

use mathlib.Core.Path.{◌∙◌}
use easyrisparmio_backend.Prelude.{
  ℕ, ◌≡◌, refl, inl, inr, true, Option, some, List, [], ◌∷◌, find?, arith, Bool-cases, Option-cases,
}
use easyrisparmio_backend.Http.{Result-cases, ok}
use easyrisparmio_backend.Cases.{CaseDocument, Store, DocumentRejectionReason, DocumentType}
use easyrisparmio_backend.Cases.Documents.{
  find_reviewable_document, verify_document, reject_document, upload_document, replaced_document,
  is_document, replaces, handle, handle_all, Call, upload, verify, reject, Uploader, uploaded,
}
use easyrisparmio_backend.Cases.Documents.Review.{upload-table, Refuses}
use easyrisparmio_backend.Cases.Documents.Ids.{
  is_replaced, HasIds, save-any, reviewable_fails, reviewable-find, saved-HasIds, grown-HasIds,
}

-- What every call keeps of the table, for a document that has been replaced.
Keeps : (case_id doc_id : ℕ) → Store → Store → Type 0
Keeps case_id doc_id s t =
    HasIds s
    → is_replaced case_id doc_id s ≡ true
    → HasIds t × (is_replaced case_id doc_id t ≡ true)

module _ (case_id doc_id : ℕ) where
  verify-Keeps : (c i a : ℕ) (s : Store) → Keeps case_id doc_id s (verify_document c i a s).0
  unfolding Keeps verify_document
  verify-Keeps c i a s h r = elim (Result-cases (find_reviewable_document c i s)) [
    | inr (x, e) ↦ rw (e, verify_document) (h, r)
    | inl (d, e) ↦
        let found = reviewable-find c i s d e in
        let (u, b) = saved-HasIds _ d (is_document c i) s refl h found in
        rw (e, verify_document)
          (
            record { distinct = u; below = b },
            save-any (replaces case_id doc_id) (is_document c i) _ d s.documents refl refl
                  h.distinct found
                ∙ r,
          )
  ]

  reject-Keeps :
      (c i a : ℕ) (why : DocumentRejectionReason) (remark : Option (List ℕ)) (s : Store)
      → Keeps case_id doc_id s (reject_document c i a why remark s).0
  unfolding Keeps reject_document
  reject-Keeps c i a why remark s h r = elim (Result-cases (find_reviewable_document c i s)) [
    | inr (x, e) ↦ rw (e, reject_document) (h, r)
    | inl (d, e) ↦
        let found = reviewable-find c i s d e in
        let (u, b) = saved-HasIds _ d (is_document c i) s refl h found in
        rw (e, reject_document)
          (
            record { distinct = u; below = b },
            save-any (replaces case_id doc_id) (is_document c i) _ d s.documents refl refl
                  h.distinct found
                ∙ r,
          )
  ]

  upload-Keeps :
      (c : ℕ) (u : Uploader) (ty : DocumentType) (url name : ℕ) (old : Option ℕ) (s : Store)
      → Keeps case_id doc_id s (upload_document c u ty url name old s).0
  unfolding Keeps
  upload-Keeps c u ty url name old s = elim (upload-table c u ty url name old s) [
    | inl (e, refused) ↦ rw e (λ h r. (h, r))
    | inr (d, accepted, grown, next) ↦ λ h r. (
      grown-HasIds (uploaded c u ty url name d s) s _ refl grown next h,
      rw grown (ground (arith, r)),
    )
  ]

  handle_all-Keeps : (cs : List Call) (s : Store) → Keeps case_id doc_id s (handle_all cs s)
  unfolding Keeps handle_all handle
  handle_all-Keeps [] s h r = (h, r)
  handle_all-Keeps (upload c u ty url name old ∷ cs) s h r =
      let (k, q) = upload-Keeps c u ty url name old s h r in handle_all-Keeps cs _ k q
  handle_all-Keeps (verify c i a ∷ cs) s h r =
      let (k, q) = verify-Keeps c i a s h r in handle_all-Keeps cs _ k q
  handle_all-Keeps (reject c i a why remark ∷ cs) s h r =
      let (k, q) = reject-Keeps c i a why remark s h r in handle_all-Keeps cs _ k q

  replaced-Refuses :
      (admin : ℕ) (why : DocumentRejectionReason) (remark : Option (List ℕ)) (t : Store)
      → is_replaced case_id doc_id t ≡ true
      → Refuses (verify_document case_id doc_id admin) t
        × Refuses (reject_document case_id doc_id admin why remark) t
  unfolding verify_document reject_document
  replaced-Refuses admin why remark t r =
      elim (Result-cases (find_reviewable_document case_id doc_id t)) [
        | inl (d, e) ↦ absurd (reviewable_fails case_id doc_id t d r e)
        | inr (x, e) ↦ ((ground arith, λ d h. ground arith), (ground arith, λ d h. ground arith))
      ]

found-id :
    (c i : ℕ) (ds : List CaseDocument) (d : CaseDocument)
    → find? (is_document c i) ds ≡ some d
    → d.id ≡ i
found-id c i [] d e = absurd (cc)
found-id c i (x ∷ xs) d e = elim (Bool-cases (is_document c i x)) [
  | inl t ↦ ground arith
  | inr t ↦ found-id c i xs d (ground arith)
]

replaced_document-id :
    (c i : ℕ) (s : Store) (r : Option CaseDocument)
    → replaced_document c (some i) s ≡ ok r
    → (x : CaseDocument) × (r ≡ some x) × (x.id ≡ i)
unfolding replaced_document
replaced_document-id c i s r e = elim (Option-cases (find? (is_document c i) s.documents)) [
  | inl missing ↦ absurd (ground arith)
  | inr (x, f) ↦ elim (Option-cases x.rejected_at) [
    | inl pending ↦ absurd (ground arith)
    | inr (at, g) ↦ (x, ground arith, found-id c i s.documents x f)
  ]
]

accepted-upload :
    (case_id doc_id : ℕ) (u : Uploader) (type : DocumentType) (url name : ℕ) (s : Store)
    (d : CaseDocument)
    → HasIds s
    → (upload_document case_id u type url name (some doc_id) s).1 ≡ ok d
    → let t = (upload_document case_id u type url name (some doc_id) s).0 in
      HasIds t × (is_replaced case_id doc_id t ≡ true)
accepted-upload case_id doc_id u type url name s d h accepted =
    elim (upload-table case_id u type url name (some doc_id) s) [
      | inl (e, refused) ↦ absurd (refused d accepted)
      | inr (r, e, grown, next) ↦
          let (x, same, id) = replaced_document-id case_id doc_id s r e in
          (
            grown-HasIds (uploaded case_id u type url name r s) s _ refl grown next h,
            rw grown (ground arith),
          )
    ]

-- An upload that names a document to replace and is accepted settles that document for good: no
-- matter which requests come after it, verifying or rejecting the replaced document is refused and
-- writes nothing. The table is one whose rows have ids of their own, below the next id.
pub replaced-handle_all-Refuses :
    (case_id doc_id : ℕ) (u : Uploader) (type : DocumentType) (url name : ℕ) (s : Store)
    (d : CaseDocument)
    → HasIds s
    → (upload_document case_id u type url name (some doc_id) s).1 ≡ ok d
    → (cs : List Call) (admin : ℕ) (why : DocumentRejectionReason) (remark : Option (List ℕ))
    → let t = handle_all cs (upload_document case_id u type url name (some doc_id) s).0 in
      Refuses (verify_document case_id doc_id admin) t
      × Refuses (reject_document case_id doc_id admin why remark) t
unfolding Keeps
replaced-handle_all-Refuses case_id doc_id u type url name s d h accepted cs admin why remark =
    let (k, r) = accepted-upload case_id doc_id u type url name s d h accepted in
    let (_, q) = handle_all-Keeps case_id doc_id cs _ k r in
    replaced-Refuses case_id doc_id admin why remark _ q
