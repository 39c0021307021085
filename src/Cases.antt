-- ===== src/Cases.antt =====
-- src/modules/cases: the rows that the case service reads and writes.
-- A uuid is a number; times are milliseconds; a text is the list of its code points.
pub mod Text
pub mod Documents
pub mod Columns
mod Tests
use easyrisparmio_backend.Prelude.{ℕ, Bool, true, false, Option, none, some, List, ◌==◌}

pub data UserRole : Type 0 where
  personal business admin : UserRole

abbrev pub is_admin : UserRole → Bool
is_admin admin = true
is_admin _ = false

pub data DocumentType : Type 0 where
  bill id_card codice_fiscale contract signed_contract partita_iva identity_document : DocumentType

pub data DocumentRejectionReason : Type 0 where
  expired unreadable incomplete wrong_document other : DocumentRejectionReason

-- The columns of a document that the service writes. `fileUrl` and `fileName` are opaque.
pub record CaseDocument : Type 0 where
  pub id : ℕ
  pub case_id : ℕ
  pub document_type : DocumentType
  pub file_url : ℕ
  pub file_name : ℕ
  pub uploaded_by_id : ℕ
  pub verified : Bool
  pub verified_by_id : Option ℕ
  pub verified_at : Option ℕ
  pub rejected_at : Option ℕ
  pub rejected_by_id : Option ℕ
  pub rejection_reason : Option DocumentRejectionReason
  pub rejection_note : Option (List ℕ)
  pub replaces_document_id : Option ℕ

-- A timeline entry about a document.
pub data DocumentEvent : Type 0 where
  document_uploaded : (case actor document : ℕ) → (replaces : Option ℕ) → DocumentEvent
  document_verified : (case actor document : ℕ) → DocumentEvent
  document_rejected :
      (case actor document : ℕ) → DocumentRejectionReason → Option (List ℕ) → DocumentEvent

-- A notification that a call raises.
pub data Notice : Type 0 where
  admin_document_resubmitted : (document case : ℕ) → Notice
  document_rejected_notice : (document case : ℕ) → Notice

-- The owner of a case is what the document calls read of it.
pub record CaseOwner : Type 0 where
  pub id : ℕ
  pub user_id : ℕ

pub record Store : Type 0 where
  pub cases : List CaseOwner
  pub documents : List CaseDocument
  pub events : List DocumentEvent
  pub notices : List Notice
  pub now : ℕ
  pub next_id : ℕ  -- the uuid that the database gives the next row
