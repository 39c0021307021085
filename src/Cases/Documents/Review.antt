-- ===== src/Cases/Documents/Review.antt =====
-- The states of review that a document of a case can be in (src/modules/cases/cases.service.ts).
use easyrisparmio_backend.Prelude.{
  ℕ, ◌+◌, ◌≡◌, ◌≢◌, refl, ◌⊎◌, inl, inr, true, false, not, ◌&&◌, Option, none, some, List, [], ◌∷◌,
  All, find?, arith, ◌==◌, Bool-cases, Option-cases,
}
use easyrisparmio_backend.Http.{Action, Result-cases, ok}
use easyrisparmio_backend.Cases.{
  is_admin, CaseDocument, Store, DocumentRejectionReason, DocumentType,
}
use easyrisparmio_backend.Cases.Documents.{
  uploaded, is_case, find_reviewable_document, verify_document, reject_document, upload_document,
  replaced_document, save_document, handle, handle_all, Call, upload, verify, reject, Uploader,
}

-- Nobody has ruled on the document yet.
pub record IsPending (d : CaseDocument) : Type 0 where
  pub verified : d.verified ≡ false
  pub verified_by : d.verified_by_id ≡ none
  pub verified_at : d.verified_at ≡ none
  pub rejected_at : d.rejected_at ≡ none
  pub rejected_by : d.rejected_by_id ≡ none
  pub reason : d.rejection_reason ≡ none
  pub note : d.rejection_note ≡ none

-- An admin verified it at a time, and no trace of a rejection is left.
pub record IsVerified (d : CaseDocument) : Type 0 where
  pub admin : ℕ
  pub at : ℕ
  pub verified : d.verified ≡ true
  pub verified_by : d.verified_by_id ≡ some admin
  pub verified_at : d.verified_at ≡ some at
  pub rejected_at : d.rejected_at ≡ none
  pub rejected_by : d.rejected_by_id ≡ none
  pub reason : d.rejection_reason ≡ none
  pub note : d.rejection_note ≡ none

-- An admin rejected it at a time for a reason, and no trace of a verification is left.
pub record IsRejected (d : CaseDocument) : Type 0 where
  pub admin : ℕ
  pub at : ℕ
  pub why : DocumentRejectionReason
  pub verified : d.verified ≡ false
  pub verified_by : d.verified_by_id ≡ none
  pub verified_at : d.verified_at ≡ none
  pub rejected_at : d.rejected_at ≡ some at
  pub rejected_by : d.rejected_by_id ≡ some admin
  pub reason : d.rejection_reason ≡ some why

abbrev pub IsReviewed : CaseDocument → Type 0
IsReviewed d = IsPending d ⊎ IsVerified d ⊎ IsRejected d

pub save_document-All {κ} :
    (P : CaseDocument → Type κ) (saved : CaseDocument) (ds : List CaseDocument)
    → P saved
    → All P ds
    → All P (save_document saved ds)
save_document-All P saved [] h hs = tt
save_document-All P saved (d ∷ ds) h (k, ks) = elim (Bool-cases (d.id == saved.id)) [
  | inl e ↦ (rw e h, save_document-All P saved ds h ks)
  | inr e ↦ (rw e k, save_document-All P saved ds h ks)
]

abbrev pub AreReviewed : Store → Type 0
AreReviewed s = All IsReviewed s.documents

verify-AreReviewed :
    (case_id doc_id admin : ℕ) (s : Store)
    → AreReviewed s
    → AreReviewed (verify_document case_id doc_id admin s).0
unfolding verify_document
verify-AreReviewed case_id doc_id admin s h =
    elim (Result-cases (find_reviewable_document case_id doc_id s)) [
      | inr (x, e) ↦ rw (e, verify_document) h
      | inl (d, e) ↦
          rw (e, verify_document)
            (save_document-All IsReviewed _ s.documents
              (inr (
                inl (record {
                  admin = admin;
                  at = s.now;
                  verified = refl;
                  verified_by = refl;
                  verified_at = refl;
                  rejected_at = refl;
                  rejected_by = refl;
                  reason = refl;
                  note = refl;
                })))
              h)
    ]

reject-AreReviewed :
    (case_id doc_id admin : ℕ) (why : DocumentRejectionReason) (remark : Option (List ℕ))
    (s : Store)
    → AreReviewed s
    → AreReviewed (reject_document case_id doc_id admin why remark s).0
unfolding reject_document
reject-AreReviewed case_id doc_id admin why remark s h =
    elim (Result-cases (find_reviewable_document case_id doc_id s)) [
      | inr (x, e) ↦ rw (e, reject_document) h
      | inl (d, e) ↦
          rw (e, reject_document)
            (save_document-All IsReviewed _ s.documents
              (inr (
                inr (record {
                  admin = admin;
                  at = s.now;
                  why = why;
                  verified = refl;
                  verified_by = refl;
                  verified_at = refl;
                  rejected_at = refl;
                  rejected_by = refl;
                  reason = refl;
                })))
              h)
    ]

-- A call that refuses leaves the store as it was.
abbrev pub Refuses : {A : Type 0} → Action Store A → Store → Type 0
Refuses {A} call t = ((call t).0 ≡ t) × ((a : A) → (call t).1 ≢ ok a)

-- An upload is refused and writes nothing, or it adds one row.
pub upload-table :
    (case_id : ℕ) (uploader : Uploader) (type : DocumentType) (url name : ℕ) (old : Option ℕ)
    (s : Store)
    → Refuses (upload_document case_id uploader type url name old) s
      ⊎ ((d : Option CaseDocument) × (replaced_document case_id old s ≡ ok d)
          × ((upload_document case_id uploader type url name old s).0.documents
              ≡ uploaded case_id uploader type url name d s ∷ s.documents)
          × ((upload_document case_id uploader type url name old s).0.next_id ≡ s.next_id + 1))
unfolding upload_document
upload-table case_id uploader type url name old s =
    elim (Result-cases (replaced_document case_id old s)) [
      | inr (x, e) ↦ inl (ground arith, λ d h. ground arith)
      | inl (d, e) ↦ elim (Option-cases (find? (is_case case_id) s.cases)) [
        | inl missing ↦ inl (ground arith, λ d h. ground arith)
        | inr (c, f) ↦
            elim (Bool-cases (not (is_admin uploader.role) && not (c.user_id == uploader.id))) [
              | inl denied ↦ inl (ground arith, λ d h. ground arith)
              | inr allowed ↦ inr (d, e, ground arith, ground arith)
            ]
      ]
    ]

upload-AreReviewed :
    (case_id : ℕ) (uploader : Uploader) (type : DocumentType) (url name : ℕ) (old : Option ℕ)
    (s : Store)
    → AreReviewed s
    → AreReviewed (upload_document case_id uploader type url name old s).0
upload-AreReviewed case_id uploader type url name old s h =
    elim (upload-table case_id uploader type url name old s) [
      | inl (e, refused) ↦ rw e h
      | inr (d, accepted, e, next) ↦ rw e (
        inl (record {
          verified = refl;
          verified_by = refl;
          verified_at = refl;
          rejected_at = refl;
          rejected_by = refl;
          reason = refl;
          note = refl;
        }),
        h,
      )
    ]

pub handle-AreReviewed : (c : Call) (s : Store) → AreReviewed s → AreReviewed (handle c s)
unfolding handle
handle-AreReviewed (upload case_id uploader type url name old) s h =
    upload-AreReviewed case_id uploader type url name old s h
handle-AreReviewed (verify case_id doc_id admin) s h = verify-AreReviewed case_id doc_id admin s h
handle-AreReviewed (reject case_id doc_id admin why remark) s h =
    reject-AreReviewed case_id doc_id admin why remark s h

-- Whatever requests arrive and in whatever order, every document stays in one of three states of
-- review: pending, verified with nothing of a rejection, or rejected with nothing of a verification.
pub handle_all-AreReviewed :
    (cs : List Call) (s : Store) → AreReviewed s → AreReviewed (handle_all cs s)
unfolding handle_all
handle_all-AreReviewed [] s h = h
handle_all-AreReviewed (c ∷ cs) s h =
    handle_all-AreReviewed cs (handle c s) (handle-AreReviewed c s h)
