-- ===== src/Suppliers/Deletion.antt =====
-- A deletion that is scheduled comes about: `deleteSupplier` and `executeScheduledDeletions` of
-- src/modules/suppliers/suppliers.service.ts.
use mathlib.Core.Path.{subst}
use easyrisparmio_backend.Prelude.{
  ℕ, ◌+◌, ◌≤◌, ◌==◌, ◌≡◌, refl, sym, ap, ◌∙◌, inl, inr, Bool, true, false, ◌&&◌, none, some, List,
  [], ◌∷◌, find?, any, ltb, arith, if◌then◌else◌, Bool-cases, Option-cases, any-filter,
}
use easyrisparmio_backend.Http.{ok}
use easyrisparmio_backend.Switching.{SupplierStatus, Supplier, SwitchCase, Store, update_where}
use easyrisparmio_backend.Switching.Tables.{IsKey}
use easyrisparmio_backend.Switching.Acceptance.{is_supplier}
use easyrisparmio_backend.Switching.Proposals.{is_empty}
use easyrisparmio_backend.Suppliers.{
  Calendar, has_no_expiry, is_early_case, is_supplied_by, is_unexpired, is_live, latest_expiry,
  get_live_utilities_for_supplier, is_pending_deletion,
}
use easyrisparmio_backend.Suppliers.Removal.{
  scheduled, cancel_early_stage_cases, schedule, delete_supplier, execute_scheduled_deletions,
  is_due,
}
use easyrisparmio_backend.Suppliers.Rows.{any-none, any-update_where_none}
use easyrisparmio_backend.Suppliers.Served.{live-later}
use easyrisparmio_backend.Suppliers.Due.{IsQuiet, runs_for, all-removes}

latest_expiry_le : (l : ℕ) (cs : List SwitchCase) → l ≤ latest_expiry l cs
unfolding latest_expiry
latest_expiry_le l [] = omega arith
latest_expiry_le l (c ∷ cs) = elim (Option-cases c.expiry_date) [
  | inl e ↦ rw (e) (latest_expiry_le l cs)
  | inr (x, e) ↦ elim (Bool-cases (ltb l x)) [
    | inl t ↦ rw (e, t) (let m = latest_expiry_le x cs in ground arith)
    | inr f ↦ rw (e, f) (latest_expiry_le l cs)
  ]
]

-- A case whose expiry is after a date, or that has none.
abbrev exceeds : ℕ → SwitchCase → Bool
exceeds date c = is_unexpired date c.expiry_date

top-bounds : (l x m date : ℕ) → (if ltb l x then x else l) ≤ m → m ≤ date → ltb date x ≡ false
top-bounds l x m date h k = ground arith

latest_expiry-bounds :
    (l date : ℕ) (cs : List SwitchCase)
    → latest_expiry l cs ≤ date
    → any has_no_expiry cs ≡ false
    → any (exceeds date) cs ≡ false
unfolding latest_expiry
latest_expiry-bounds l date [] h n = refl
latest_expiry-bounds l date (c ∷ cs) h n = elim (Option-cases c.expiry_date) [
  | inl e ↦ absurd (ground arith)
  | inr (x, e) ↦
      let top = if ltb l x then x else l in
      let step : latest_expiry l (c ∷ cs) ≡ latest_expiry top cs =
        ap
          (λ o.
            latest_expiry (elim o as (λ y. ℕ) [ none ↦ l | some k ↦ if ltb l k then k else l ]) cs)
          e in
      let rest = latest_expiry-bounds top date cs (subst (λ k. k ≤ date) step h) (ground arith) in
      let above = latest_expiry_le top cs in
      let head : exceeds date c ≡ false =
        rw (e, is_unexpired)
          (top-bounds l x (latest_expiry top cs) date above (subst (λ k. k ≤ date) step h)) in
      rw (head, rest) refl
]

due-there :
    (id date today : ℕ) (xs : List Supplier)
    → date ≤ today
    → any (is_supplier id) xs ≡ true
    → any
        (λ x. is_due today x && is_supplier id x)
        (update_where
          (is_supplier id)
          (λ y. record y {
            status = SupplierStatus.pending_deletion;
            scheduled_deletion_date = some date;
          })
          xs)
      ≡ true
due-there id date today [] h k = k
due-there id date today (x ∷ xs) h k = elim (Bool-cases (x.id == id)) [
  | inl t ↦ ground arith
  | inr f ↦ ground (arith, due-there id date today xs)
]

find?-any :
    (id : ℕ) (xs : List Supplier) (x : Supplier)
    → find? (is_supplier id) xs ≡ some x
    → any (is_supplier id) xs ≡ true
find?-any id [] x e = absurd (cc)
find?-any id (y ∷ ys) x e = elim (Bool-cases (y.id == id)) [
  | inl t ↦ rw t refl
  | inr f ↦ rw f (find?-any id ys x (rw (f, find?) at e))
]

and_no : (b : Bool) → (b && false) ≡ false
and_no true = refl
and_no false = refl

not_supplied : (a b c : Bool) → b ≡ true → c ≡ true → ((a && b) && c) ≡ false → a ≡ false
not_supplied true b c h k e = cc
not_supplied false b c h k e = refl

module _ (calendar : Calendar) where
  open calendar use {midnight, monotone}

  -- A case that is live at the later time exceeds every date before it.
  live-exceeds :
      (date now t : ℕ) (c : SwitchCase)
      → date ≤ midnight (now + t)
      → is_live calendar (now + t) c ≡ true
      → exceeds date c ≡ true
  live-exceeds date now t c h l = elim (Option-cases c.expiry_date) [
    | inl e ↦ rw (e, is_unexpired) refl
    | inr (x, e) ↦ ground arith
  ]

  later-quiet :
      (id date t : ℕ) (s : Store) (c : SwitchCase)
      → date ≤ midnight (s.now + t)
      → (runs_for calendar id s.offers s.now c && exceeds date c) ≡ false
      → runs_for calendar id s.offers (s.now + t) c ≡ false
  later-quiet id date t s c h a = elim (Bool-cases (is_live calendar (s.now + t) c)) [
    | inr f ↦ rw f (ground arith)
    | inl l ↦
        let over = live-exceeds date s.now t c h l in
        elim (Bool-cases (is_live calendar s.now c)) [
          | inl m ↦
              let apart = not_supplied (is_supplied_by id s.offers c) _ _ m over a in rw apart refl
          | inr f ↦ absurd (cc (live-later calendar s.now t c f))
        ]
  ]

  schedule-IsQuiet :
      (id t : ℕ) (s : Store)
      → IsKey (λ o. o.id) s.offers
      → let live = get_live_utilities_for_supplier calendar id s in
        let date = latest_expiry 0 live in
        any has_no_expiry live ≡ false
        → date ≤ midnight (s.now + t)
        → IsQuiet calendar id (record (schedule calendar id date s) { now = s.now + t })
  unfolding schedule cancel_early_stage_cases get_live_utilities_for_supplier
  schedule-IsQuiet id t s keys dated h =
      let live = get_live_utilities_for_supplier calendar id s in
      let date = latest_expiry 0 live in
      let bound : any (exceeds date) live ≡ false =
        latest_expiry-bounds 0 date live (omega arith) dated in
      let all_bound =
        sym (any-filter (exceeds date) (runs_for calendar id s.offers s.now) s.cases) ∙ bound in
      let quiet =
        any-none _ _ (runs_for calendar id s.offers (s.now + t)) s.cases
          (λ c a b. later-quiet id date t s c h a) all_bound all_bound in
      record {
        none_live =
            any-update_where_none (runs_for calendar id s.offers (s.now + t)) (is_early_case id) _
              s.cases (λ c a. and_no _) quiet;
        keys = keys;
      }

  -- When a deletion is scheduled for a date, the nightly run of a day that is not before the date
  -- removes the supplier, where ids are keys of the offers and nothing else is called in between.
  pub delete_supplier-removed :
      (id date cancelled t : ℕ) (s : Store)
      → IsKey (λ o. o.id) s.offers
      → (delete_supplier calendar id s).1 ≡ ok (scheduled date cancelled)
      → date ≤ midnight (s.now + t)
      → any
          (is_supplier id)
          (execute_scheduled_deletions calendar
            (record (delete_supplier calendar id s).0 { now = s.now + t })).suppliers
        ≡ false
  unfolding delete_supplier execute_scheduled_deletions schedule cancel_early_stage_cases
  delete_supplier-removed id date cancelled t s keys r h =
      let live = get_live_utilities_for_supplier calendar id s in
      elim (Option-cases (find? (is_supplier id) s.suppliers)) [
        | inl e ↦ absurd (cc (rw (e, delete_supplier) at r))
        | inr (x, e) ↦ elim (Bool-cases (is_pending_deletion x.status)) [
          | inl p ↦ absurd (cc (rw (e, delete_supplier, p) at r))
          | inr f ↦ elim (Bool-cases (is_empty live)) [
            | inl p ↦ absurd (cc (rw (e, delete_supplier, f, p) at r))
            | inr g ↦ elim (Bool-cases (any has_no_expiry live)) [
              | inl p ↦ absurd (cc (rw (e, delete_supplier, f, g, p) at r))
              | inr k ↦
                  let when : latest_expiry 0 live ≡ date =
                    cc (rw (e, delete_supplier, f, g, k) at r) in
                  let due : latest_expiry 0 live ≤ midnight (s.now + t) = omega (arith, when, h) in
                  rw (e, delete_supplier, f, g, k)
                    (all-removes calendar id _ _ (schedule-IsQuiet id t s keys k due) (
                      any-filter (is_supplier id) (is_due (midnight (s.now + t))) (
                        update_where (is_supplier id)
                          (λ y. record y {
                            status = SupplierStatus.pending_deletion;
                            scheduled_deletion_date = some (latest_expiry 0 live);
                          })
                          s.suppliers)
                      ∙ due-there id (latest_expiry 0 live) (midnight (s.now + t)) s.suppliers due
                          (find?-any id s.suppliers x e)))
            ]
          ]
        ]
      ]
