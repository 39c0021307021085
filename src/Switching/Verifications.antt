-- ===== src/Switching/Verifications.antt =====
-- Requests for a better document: `requestVerification` and `submitVerification` of
-- src/modules/bills/bills.service.ts.
pub mod Pending
use easyrisparmio_backend.Prelude.{
  ℕ, ◌==◌, ◌+◌, Bool, true, false, ◌&&◌, Option, none, some, List, [], ◌∷◌, any, if◌then◌else◌,
}
use easyrisparmio_backend.Http.{Action, ok, fail, not_found}
use easyrisparmio_backend.Pipeline.{BillStatus}
use easyrisparmio_backend.Switching.{
  VerificationStatus, pending, submitted, resolved, VerificationType, of_bill, of_contract,
  EnergyBill, BillVerification, BillFile, Key, Store, update_where, latest, is_bill, save_bill,
  get_bill_by_id_admin, get_bill_by_id, set_bill_status,
}
use easyrisparmio_backend.Switching.Notices.{document_requested, admin_document_submitted}

abbrev pub is_pending : VerificationStatus → Bool
is_pending pending = true
is_pending _ = false

abbrev pub is_of_bill : VerificationType → Bool
is_of_bill of_bill = true
is_of_bill of_contract = false

-- `{ billId, status: PENDING }`.
abbrev pub is_pending_of : ℕ → BillVerification → Bool
is_pending_of bill_id v = v.bill_id == bill_id && is_pending v.status

abbrev pub is_request_of : ℕ → BillVerification → Bool
is_request_of bill_id v = is_of_bill v.type && is_pending_of bill_id v

abbrev pub is_verification : ℕ → BillVerification → Bool
is_verification id v = v.id == id

abbrev pub resolve : ℕ → BillVerification → BillVerification
resolve now v = record v { status = resolved; resolved_at = some now }

unfoldable pub close_pending : ℕ → Store → Store
close_pending bill_id s = record s {
  verifications = update_where (is_pending_of bill_id) (resolve s.now) s.verifications;
}

abbrev pub or_null : Option (List ℕ) → Option (List ℕ)
or_null none = none
or_null (some []) = none
or_null (some (c ∷ cs)) = some (c ∷ cs)

abbrev pub new_verification : ℕ → List ℕ → Store → BillVerification
new_verification bill_id message s = record {
  id = s.next_id;
  bill_id = bill_id;
  admin_message = message;
  type = of_bill;
  status = pending;
  user_message = none;
  resolved_at = none;
  created_at = s.now;
}

abbrev pub insert_verification : BillVerification → Store → Store
insert_verification v s = record s { verifications = v ∷ s.verifications; next_id = s.next_id + 1 }

-- `update(billId, { status, statusChangedAt })`: stamped whatever the status was.
abbrev pub stamp_status : BillStatus → ℕ → EnergyBill → EnergyBill
stamp_status status now b = record b { status = status; status_changed_at = some now }

abbrev pub update_bill_status : ℕ → BillStatus → Store → Store
update_bill_status bill_id status s = record s {
  bills = update_where (is_bill bill_id) (stamp_status status s.now) s.bills;
}

abbrev pub is_named_file : List ℕ → ℕ → BillFile → Bool
is_named_file ids bill_id f = any (λ id. f.id == id) ids && f.bill_id == bill_id

-- `billFileRepository.update({ id: In(fileIds), billId }, { verificationId })`.
abbrev pub link_files : List ℕ → ℕ → ℕ → Store → Store
link_files ids bill_id id s = record s {
  files =
      update_where (is_named_file ids bill_id) (λ f. record f { verification_id = some id })
        s.files;
}

abbrev pub save_verification : BillVerification → Store → Store
save_verification v s = record s {
  verifications = update_where (is_verification v.id) (λ old. v) s.verifications;
}

abbrev pub answered : Option (List ℕ) → BillVerification → BillVerification
answered message v = record v { status = submitted; user_message = or_null message }

module _ (resolves : List ℕ → Key → Bool) where
  -- The writes of `requestVerification`, in their order.
  unfoldable pub request : EnergyBill → List ℕ → Store → Store
  request b message s =
      let t = close_pending b.id s in
      let v = new_verification b.id message t in
      document_requested resolves b.user_id v.id
        (update_bill_status b.id BillStatus.verification_required (insert_verification v t))

  unfoldable pub request_verification : ℕ → List ℕ → Action Store BillVerification
  request_verification bill_id message s =
      let found = get_bill_by_id_admin bill_id s in
      elim found.1 [
        | fail e ↦ (s, fail e)
        | ok b ↦ (request b message s, ok (new_verification b.id message s))
      ]

  -- The writes of `submitVerification` for the request that it found.
  unfoldable pub submit : EnergyBill → BillVerification → Option (List ℕ) → List ℕ → Store → Store
  submit b v message file_ids s = admin_document_submitted resolves v.id (
      save_bill (set_bill_status BillStatus.verification_review s.now b)
        (link_files file_ids b.id v.id (save_verification (answered message v) s)))

  unfoldable pub submit_verification : ℕ → ℕ → Option (List ℕ) → List ℕ → Action Store EnergyBill
  submit_verification bill_id user_id message file_ids s =
      let found = get_bill_by_id bill_id user_id s in
      elim found.1 [
        | fail e ↦ (s, fail e)
        | ok b ↦ elim (latest (λ v. v.created_at) (is_request_of bill_id) s.verifications) [
          | none ↦ (s, fail (not_found "No pending verification request found"))
          | some v ↦ get_bill_by_id b.id user_id (submit b v message file_ids s)
        ]
      ]
