-- ===== src/Suppliers/Removal.antt =====
-- The removal of a supplier, at once or when the last supply has run out:
-- src/modules/suppliers/suppliers.service.ts.
use easyrisparmio_backend.Prelude.{
  ℕ, ◌==◌, Bool, false, ◌&&◌, not, Option, none, some, List, [], ◌∷◌, find?, any, filter, length,
  leb, if◌then◌else◌,
}
use easyrisparmio_backend.Http.{Action, ok, fail, bad_request, not_found}
use easyrisparmio_backend.Switching.{
  CaseStatus, SupplierStatus, Supplier, Store, update_where, holds_id,
}
use easyrisparmio_backend.Switching.Acceptance.{is_supplier}
use easyrisparmio_backend.Switching.Proposals.{is_empty}
use easyrisparmio_backend.Suppliers.{
  Calendar, is_pending_deletion, has_no_expiry, latest_expiry, is_early_case,
  get_live_utilities_for_supplier,
}

pub data DeletionReply : Type 0 where
  already_scheduled : (date : Option ℕ) → DeletionReply
  deleted : DeletionReply
  scheduled : (date cancelled_cases : ℕ) → DeletionReply

pub record DeletionStatus : Type 0 where
  pub status : SupplierStatus
  pub scheduled_deletion_date : Option ℕ
  pub active_contracts_count : ℕ

-- Soft removal of the supplier's offers, then of the supplier.
unfoldable pub execute_supplier_deletion : ℕ → Store → Store
execute_supplier_deletion id s = record s {
  offers = filter (λ o. not (holds_id id o.supplier_id)) s.offers;
  suppliers = filter (λ x. not (x.id == id)) s.suppliers;
}

unfoldable pub cancel_early_stage_cases : ℕ → Store → Store
cancel_early_stage_cases id s = record s {
  cases = update_where (is_early_case id) (λ c. record c { status = CaseStatus.cancelled }) s.cases;
}

unfoldable pub cancel_scheduled_deletion : ℕ → Action Store (Unit {0})
cancel_scheduled_deletion id s = elim (find? (is_supplier id) s.suppliers) [
  | none ↦ (s, fail (not_found "Supplier not found"))
  | some x ↦
      if is_pending_deletion x.status
      then (
        record s {
          suppliers =
              update_where (is_supplier id)
                (λ y. record y { status = SupplierStatus.inactive; scheduled_deletion_date = none })
                s.suppliers;
        },
        ok tt,
      )
      else (s, fail (bad_request "Supplier is not pending deletion"))
]

abbrev pub reschedule : ℕ → ℕ → Store → Store
reschedule id date s = record s {
  suppliers =
      update_where (is_supplier id) (λ y. record y { scheduled_deletion_date = some date })
        s.suppliers;
}

-- `scheduledDeletionDate <= today`.
abbrev pub is_due : ℕ → Supplier → Bool
is_due today x =
    is_pending_deletion x.status
    && elim x.scheduled_deletion_date [ none ↦ false | some date ↦ leb date today ]

module _ (calendar : Calendar) where
  open calendar use {midnight}

  -- The save of the date, and the cancellation of the cases that have not gone far.
  unfoldable pub schedule : ℕ → ℕ → Store → Store
  schedule id date s = cancel_early_stage_cases id (record s {
    suppliers =
        update_where (is_supplier id)
          (λ y. record y {
            status = SupplierStatus.pending_deletion;
            scheduled_deletion_date = some date;
          })
          s.suppliers;
  })

  unfoldable pub delete_supplier : ℕ → Action Store DeletionReply
  delete_supplier id s = elim (find? (is_supplier id) s.suppliers) [
    | none ↦ (s, fail (not_found "Supplier not found"))
    | some x ↦
        let live = get_live_utilities_for_supplier calendar id s in
        let date = latest_expiry 0 live in
        if is_pending_deletion x.status
        then (s, ok (already_scheduled x.scheduled_deletion_date))
        else if is_empty live
        then (execute_supplier_deletion id s, ok deleted)
        else if any has_no_expiry live
        then (
          s,
          fail (bad_request "Cannot schedule deletion: live utilities have no expiry date set"),
        )
        else (schedule id date s, ok (scheduled date (length (filter (is_early_case id) s.cases))))
  ]

  unfoldable pub get_deletion_status : ℕ → Action Store DeletionStatus
  get_deletion_status id s = elim (find? (is_supplier id) s.suppliers) [
    | none ↦ (s, fail (not_found "Supplier not found"))
    | some x ↦ (
      s,
      ok (record {
        status = x.status;
        scheduled_deletion_date = x.scheduled_deletion_date;
        active_contracts_count = length (get_live_utilities_for_supplier calendar id s);
      }),
    )
  ]

  -- One supplier of the nightly run.
  unfoldable pub execute_scheduled_deletion : ℕ → Store → Store
  execute_scheduled_deletion id s =
      let live = get_live_utilities_for_supplier calendar id s in
      let dated = filter (λ c. not (has_no_expiry c)) live in
      if is_empty live
      then execute_supplier_deletion id s
      else if is_empty dated
      then s
      else reschedule id (latest_expiry 0 dated) s

  unfoldable pub execute_all : List Supplier → Store → Store
  execute_all [] s = s
  execute_all (x ∷ xs) s = execute_all xs (execute_scheduled_deletion x.id s)

  unfoldable pub execute_scheduled_deletions : Store → Store
  execute_scheduled_deletions s = execute_all (filter (is_due (midnight s.now)) s.suppliers) s
