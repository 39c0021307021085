-- ===== src/Suppliers/Catalogue.antt =====
-- Suppliers as an administrator enters and changes them: src/modules/suppliers/suppliers.service.ts.
use easyrisparmio_backend.Prelude.{
  ℕ, ◌+◌, ◌==◌, Bool, false, ◌&&◌, not, Option, none, some, List, [], ◌∷◌, ◌++◌, find?, any,
  text_eq, if◌then◌else◌,
}
use easyrisparmio_backend.Http.{Action, ok, fail, bad_request, not_found, conflict}
use easyrisparmio_backend.Switching.{Commodity, SupplierStatus, Supplier, Store, update_where}
use easyrisparmio_backend.Switching.Acceptance.{is_supplier}
use easyrisparmio_backend.Suppliers.{is_pending_deletion}

-- `ADMIN_SETTABLE_SUPPLIER_STATUSES`.
pub data SettableStatus : Type 0 where
  active inactive : SettableStatus

abbrev pub status_value : SettableStatus → SupplierStatus
status_value active = SupplierStatus.active
status_value inactive = SupplierStatus.inactive

pub record CreateSupplierDto : Type 0 where
  pub name : List ℕ
  pub status : SettableStatus
  pub commodity : Commodity
  pub supplier_code : Option (List ℕ)

pub record UpdateSupplierDto : Type 0 where
  pub name : Option (List ℕ)
  pub status : Option SettableStatus
  pub commodity : Option Commodity
  pub supplier_code : Option (List ℕ)

-- A row with the same code, which the unique index refuses.
abbrev pub holds_code : Option (List ℕ) → Supplier → Bool
holds_code none x = false
holds_code (some code) x = elim x.supplier_code [ none ↦ false | some other ↦ text_eq other code ]

unfoldable pub create : CreateSupplierDto → Action Store Supplier
create dto s =
    let x : Supplier = record {
      id = s.next_id;
      name = dto.name;
      status = status_value dto.status;
      commodity = some dto.commodity;
      supplier_code = dto.supplier_code;
      scheduled_deletion_date = none;
    } in
    if any (holds_code dto.supplier_code) s.suppliers
    then (s, fail (conflict "A supplier with this supplier code already exists"))
    else (record s { suppliers = s.suppliers ++ x ∷ []; next_id = s.next_id + 1 }, ok x)

-- `Object.assign(supplier, dto)`.
abbrev pub assign : UpdateSupplierDto → Supplier → Supplier
assign dto x = record x {
  name = elim dto.name [ none ↦ x.name | some n ↦ n ];
  status = elim dto.status [ none ↦ x.status | some t ↦ status_value t ];
  commodity = elim dto.commodity [ none ↦ x.commodity | some k ↦ some k ];
  supplier_code = elim dto.supplier_code [ none ↦ x.supplier_code | some k ↦ some k ];
}

unfoldable pub update : ℕ → UpdateSupplierDto → Action Store Supplier
update id dto s = elim (find? (is_supplier id) s.suppliers) [
  | none ↦ (s, fail (not_found "Supplier not found"))
  | some x ↦
      if is_pending_deletion x.status
      then (
        s,
        fail (bad_request "Cannot modify a supplier pending deletion. Cancel the deletion first."),
      )
      else if any (λ y. not (y.id == id) && holds_code dto.supplier_code y) s.suppliers
      then (s, fail (conflict "A supplier with this supplier code already exists"))
      else (
        record s { suppliers = update_where (is_supplier id) (assign dto) s.suppliers },
        ok (assign dto x),
      )
]

unfoldable pub toggle_status : ℕ → SettableStatus → Action Store (Unit {0})
toggle_status id status s = elim (find? (is_supplier id) s.suppliers) [
  | none ↦ (s, fail (not_found "Supplier not found"))
  | some x ↦
      if is_pending_deletion x.status
      then (
        s,
        fail (bad_request "Cannot modify a supplier pending deletion. Cancel the deletion first."),
      )
      else (
        record s {
          suppliers =
              update_where (is_supplier id) (λ y. record y { status = status_value status })
                s.suppliers;
        },
        ok tt,
      )
]
