-- ===== src/Switching/Verifications/Pending.antt =====
-- A bill has at most one request that waits for its customer: `requestVerification`,
-- `submitVerification` and the requests that `transitionBillStatus` closes
-- (src/modules/bills/bills.service.ts).
use easyrisparmio_backend.Prelude.{
  ℕ, ◌≤◌, ◌==◌, ◌≡◌, inl, inr, Bool, Option, List, arith, Bool-cases,
}
use easyrisparmio_backend.Switching.{EnergyBill, BillVerification, Key, Store, update_where}
use easyrisparmio_backend.Switching.Counts.{count, count-update_where_le, count-update_where_zero}
use easyrisparmio_backend.Switching.Notices.{document_requested, admin_document_submitted}
use easyrisparmio_backend.Switching.Verifications.{
  is_pending_of, is_verification, resolve, close_pending, request, submit, answered,
}
use easyrisparmio_backend.Switching.Transitions.Outcome.{send_notification-rows}

unfoldable pub HaveOne : List BillVerification → Type 0
HaveOne vs = (bill_id : ℕ) → count (is_pending_of bill_id) vs ≤ 1

close_pending_le :
    (k bill_id now : ℕ) (vs : List BillVerification)
    → count (is_pending_of k) (update_where (is_pending_of bill_id) (resolve now) vs)
      ≤ count (is_pending_of k) vs
close_pending_le k bill_id now vs =
    count-update_where_le (is_pending_of k) (is_pending_of bill_id) (resolve now)
      (λ v e f. ground arith) vs

close_pending_zero :
    (bill_id now : ℕ) (vs : List BillVerification)
    → count (is_pending_of bill_id) (update_where (is_pending_of bill_id) (resolve now) vs) ≡ 0
close_pending_zero bill_id now vs =
    count-update_where_zero (is_pending_of bill_id) (resolve now) (λ v. ground arith) vs

pub close_pending-HaveOne :
    (bill_id : ℕ) (s : Store)
    → HaveOne s.verifications
    → HaveOne (close_pending bill_id s).verifications
unfolding close_pending HaveOne
close_pending-HaveOne bill_id s h k =
    omega (arith, h k, close_pending_le k bill_id s.now s.verifications)

-- Closing the open requests makes room for the new one.
pub request-HaveOne :
    (resolves : List ℕ → Key → Bool) (b : EnergyBill) (message : List ℕ) (s : Store)
    → HaveOne s.verifications
    → HaveOne (request resolves b message s).verifications
unfolding request document_requested close_pending HaveOne
request-HaveOne resolves b message s h k =
    let rows = update_where (is_pending_of b.id) (resolve s.now) s.verifications in
    rw (send_notification-rows resolves _ _ _).verifications (elim (Bool-cases (b.id == k)) [
      | inr e ↦ ground (arith, h k, close_pending_le k b.id s.now s.verifications)
      | inl e ↦
          let same : k ≡ b.id = ground arith in
          let empty : count (is_pending_of k) rows ≡ 0 =
            rw same (close_pending_zero b.id s.now s.verifications) in
          ground (arith, empty)
    ])

pub submit-HaveOne :
    (resolves : List ℕ → Key → Bool) (b : EnergyBill) (v : BillVerification)
    (message : Option (List ℕ)) (file_ids : List ℕ) (s : Store)
    → HaveOne s.verifications
    → HaveOne (submit resolves b v message file_ids s).verifications
unfolding submit admin_document_submitted HaveOne
submit-HaveOne resolves b v message file_ids s h k =
    rw (send_notification-rows resolves _ _ _).verifications (
      omega (
        arith,
        h k,
        count-update_where_le (is_pending_of k) (is_verification v.id) (λ old. answered message v)
            (λ x e f. ground arith) s.verifications,
      ))
