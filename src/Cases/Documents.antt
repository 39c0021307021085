-- ===== src/Cases/Documents.antt =====
-- The documents of a case: `uploadDocument`, `verifyDocument`, `rejectDocument` and
-- `findReviewableDocument` of src/modules/cases/cases.service.ts.
pub mod Review
pub mod Ids
pub mod Replacement
use easyrisparmio_backend.Prelude.{
  ℕ, ◌+◌, Bool, true, false, not, ◌&&◌, ◌||◌, Option, none, some, List, [], ◌∷◌, find?, ◌==◌,
  if◌then◌else◌,
}
use easyrisparmio_backend.Http.{
  Action, Result, ok, fail, bad_request, not_found, forbidden, ◌>>=◌, ◌>>◌, return, throw_if,
  found_or,
}
use easyrisparmio_backend.Cases.{
  UserRole, is_admin, DocumentType, DocumentRejectionReason, CaseDocument, DocumentEvent,
  document_uploaded, document_verified, document_rejected, Notice, admin_document_resubmitted,
  document_rejected_notice, CaseOwner, Store,
}
use easyrisparmio_backend.Cases.Text.{trimmed}

abbrev pub is_case : ℕ → CaseOwner → Bool
is_case id c = c.id == id

-- `{ id: docId, caseId }`.
abbrev pub is_document : ℕ → ℕ → CaseDocument → Bool
is_document case_id id d = d.id == id && d.case_id == case_id

abbrev pub is_id : ℕ → Option ℕ → Bool
is_id id none = false
is_id id (some n) = n == id

-- `{ caseId, replacesDocumentId: docId }`.
abbrev pub replaces : ℕ → ℕ → CaseDocument → Bool
replaces case_id id d = d.case_id == case_id && is_id id d.replaces_document_id

-- `save` of a loaded document: the row with its id is written.
abbrev pub save_document : CaseDocument → List CaseDocument → List CaseDocument
save_document saved [] = []
save_document saved (d ∷ ds) = (if d.id == saved.id then saved else d) ∷ save_document saved ds

unfoldable pub find_reviewable_document : ℕ → ℕ → Store → Result CaseDocument
find_reviewable_document case_id doc_id s = elim (find? (is_document case_id doc_id) s.documents) [
  | none ↦ fail (not_found "Document not found")
  | some document ↦ elim (find? (replaces case_id doc_id) s.documents) [
    | some replacement ↦ fail (bad_request "This document has already been replaced")
    | none ↦ ok document
  ]
]

unfoldable pub verify_document : ℕ → ℕ → ℕ → Action Store CaseDocument
verify_document case_id doc_id verified_by_id s = elim (find_reviewable_document case_id doc_id s) [
  | fail e ↦ (s, fail e)
  | ok document ↦
      let saved = record document {
        verified = true;
        verified_by_id = some verified_by_id;
        verified_at = some s.now;
        rejected_at = none;
        rejected_by_id = none;
        rejection_reason = none;
        rejection_note = none;
      } in
      (
        record s {
          documents = save_document saved s.documents;
          events = document_verified case_id verified_by_id doc_id ∷ s.events;
        },
        ok saved,
      )
]

abbrev rejection_notices : ℕ → ℕ → Option CaseOwner → List Notice → List Notice
rejection_notices doc_id case_id none notices = notices
rejection_notices doc_id case_id (some _) notices =
    document_rejected_notice doc_id case_id ∷ notices

unfoldable pub reject_document :
    ℕ → ℕ → ℕ → DocumentRejectionReason → Option (List ℕ) → Action Store CaseDocument
reject_document case_id doc_id rejected_by_id reason note s =
    elim (find_reviewable_document case_id doc_id s) [
      | fail e ↦ (s, fail e)
      | ok document ↦
          let saved = record document {
            verified = false;
            verified_by_id = none;
            verified_at = none;
            rejected_at = some s.now;
            rejected_by_id = some rejected_by_id;
            rejection_reason = some reason;
            rejection_note = trimmed note;
          } in
          (
            record s {
              documents = save_document saved s.documents;
              events =
                  document_rejected case_id rejected_by_id doc_id reason saved.rejection_note
                  ∷ s.events;
              notices =
                  rejection_notices doc_id case_id (find? (is_case case_id) s.cases) s.notices;
            },
            ok saved,
          )
    ]

pub record Uploader : Type 0 where
  pub id : ℕ
  pub role : UserRole

-- The rejected document that an upload replaces, if it names one.
unfoldable pub replaced_document : ℕ → Option ℕ → Store → Result (Option CaseDocument)
replaced_document case_id none s = ok none
replaced_document case_id (some id) s = elim (find? (is_document case_id id) s.documents) [
  | none ↦ fail (not_found "Document not found")
  | some d ↦ elim d.rejected_at [
    | none ↦ fail (bad_request "Only a rejected document can be replaced")
    | some at ↦ ok (some d)
  ]
]

abbrev id_of : Option CaseDocument → Option ℕ
id_of none = none
id_of (some d) = some d.id

abbrev upload_notices : Option CaseDocument → Uploader → ℕ → List Notice → List Notice
upload_notices none uploader case_id notices = notices
upload_notices (some d) uploader case_id notices =
    if is_admin uploader.role then notices else admin_document_resubmitted d.id case_id ∷ notices

-- The row that an upload saves.
abbrev pub uploaded :
    ℕ → Uploader → DocumentType → ℕ → ℕ → Option CaseDocument → Store → CaseDocument
uploaded case_id uploader document_type file_url file_name replaced s = record {
  id = s.next_id;
  case_id = case_id;
  document_type = document_type;
  file_url = file_url;
  file_name = file_name;
  uploaded_by_id = uploader.id;
  verified = false;
  verified_by_id = none;
  verified_at = none;
  rejected_at = none;
  rejected_by_id = none;
  rejection_reason = none;
  rejection_note = none;
  replaces_document_id = id_of replaced;
}

unfoldable pub upload_document :
    ℕ → Uploader → DocumentType → ℕ → ℕ → Option ℕ → Action Store CaseDocument
upload_document case_id uploader document_type file_url file_name replaces_document_id s =
    elim (find? (is_case case_id) s.cases) [
      | none ↦ (s, fail (not_found "Case not found"))
      | some switch_case ↦
          if not (is_admin uploader.role) && not (switch_case.user_id == uploader.id)
          then (s, fail (forbidden "Access denied"))
          else elim (replaced_document case_id replaces_document_id s) [
            | fail e ↦ (s, fail e)
            | ok replaced ↦
                let document =
                  uploaded case_id uploader document_type file_url file_name replaced s in
                (
                  record s {
                    documents = document ∷ s.documents;
                    events =
                        document_uploaded case_id uploader.id document.id (id_of replaced)
                        ∷ s.events;
                    notices = upload_notices replaced uploader case_id s.notices;
                    next_id = s.next_id + 1;
                  },
                  ok document,
                )
          ]
    ]

-- Rows are prepended, so those of a case come newest first, as the query orders them.
abbrev of_case : ℕ → List CaseDocument → List CaseDocument
of_case id [] = []
of_case id (d ∷ ds) = let rest = of_case id ds in if d.case_id == id then d ∷ rest else rest

unfoldable pub get_documents : ℕ → Store → Result (List CaseDocument)
get_documents case_id s = elim (find? (is_case case_id) s.cases) [
  | none ↦ fail (not_found "Case not found")
  | some switch_case ↦ ok (of_case case_id s.documents)
]

-- The calls that change documents, as requests that arrive in some order.
pub data Call : Type 0 where
  upload : ℕ → Uploader → DocumentType → (file_url file_name : ℕ) → Option ℕ → Call
  verify : (case_id doc_id admin : ℕ) → Call
  reject : (case_id doc_id admin : ℕ) → DocumentRejectionReason → Option (List ℕ) → Call

unfoldable pub handle : Call → Store → Store
handle (upload case_id uploader type url name old) s =
    (upload_document case_id uploader type url name old s).0
handle (verify case_id doc_id admin) s = (verify_document case_id doc_id admin s).0
handle (reject case_id doc_id admin reason note) s =
    (reject_document case_id doc_id admin reason note s).0

unfoldable pub handle_all : List Call → Store → Store
handle_all [] s = s
handle_all (c ∷ cs) s = handle_all cs (handle c s)
