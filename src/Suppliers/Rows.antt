-- ===== src/Suppliers/Rows.antt =====
-- Cases and the offers and suppliers that serve them, when rows are changed or removed
-- (src/modules/suppliers/suppliers.service.ts).
use mathlib.Core.Path.{subst}
use easyrisparmio_backend.Prelude.{
  ℕ, ◌==◌, ◌≡◌, refl, sym, ap, ◌∙◌, inl, inr, Bool, true, false, ◌&&◌, ◌||◌, not, none, some, List,
  [], ◌∷◌, ◌++◌, find?, any, filter, arith, Bool-cases, Option-cases,
}
use easyrisparmio_backend.Switching.{
  CaseStatus, Supplier, Offer, SwitchCase, update_where, holds_id,
}
use easyrisparmio_backend.Switching.Acceptance.{is_supplier}
use easyrisparmio_backend.Switching.Proposals.{is_empty}
use easyrisparmio_backend.Suppliers.{is_live_status, is_offer, is_supplied_by}
use easyrisparmio_backend.Suppliers.Offers.{is_in_progress, is_activated, is_draft}

-- The offer is no draft, and its supplier is there.
abbrev pub serves : List Supplier → Offer → Bool
serves suppliers o =
    not (is_draft o.offer_status)
    && elim o.supplier_id [ none ↦ false | some k ↦ any (is_supplier k) suppliers ]

-- The case's offer is there and no draft, and the supplier of that offer is there.
abbrev pub is_served : List Offer → List Supplier → SwitchCase → Bool
is_served offers suppliers c = elim (find? (is_offer c.selected_offer_id) offers) [
  | none ↦ false
  | some o ↦ serves suppliers o
]

module _ {A : Type 0} where
  pub any-none :
      (p q r : A → Bool) (xs : List A)
      → ((x : A) → p x ≡ false → q x ≡ false → r x ≡ false)
      → any p xs ≡ false
      → any q xs ≡ false
      → any r xs ≡ false
  any-none p q r [] h a b = refl
  any-none p q r (x ∷ xs) h a b = ground (arith, h x, any-none p q r xs h)

  pub is_empty-filter : (p : A → Bool) (xs : List A) → is_empty (filter p xs) ≡ not (any p xs)
  is_empty-filter p [] = refl
  is_empty-filter p (x ∷ xs) = ground (arith, is_empty-filter p xs)

  pub any-update_where :
      (q p : A → Bool) (f : A → A) (xs : List A)
      → ((x : A) → q (f x) ≡ q x)
      → any q (update_where p f xs) ≡ any q xs
  any-update_where q p f [] h = refl
  any-update_where q p f (x ∷ xs) h = ground (arith, h x, any-update_where q p f xs h)

  pub any-update_where_none :
      (q p : A → Bool) (f : A → A) (xs : List A)
      → ((x : A) → q x ≡ false → q (f x) ≡ false)
      → any q xs ≡ false
      → any q (update_where p f xs) ≡ false
  any-update_where_none q p f [] h a = refl
  any-update_where_none q p f (x ∷ xs) h a = ground (arith, h x, any-update_where_none q p f xs h)

  pub find?-filter :
      (p q : A → Bool) (xs : List A) (x : A)
      → find? p xs ≡ some x
      → q x ≡ true
      → find? p (filter q xs) ≡ some x
  find?-filter p q [] x e h = e
  find?-filter p q (y ∷ ys) x e h = elim (Bool-cases (p y)) [
    | inl t ↦
        let same : y ≡ x = ground arith in
        let k : q y ≡ true = subst (λ z. q z ≡ true) (sym same) h in rw (k, find?, t) (ap some same)
    | inr f ↦
        let rest = find?-filter p q ys x (rw (f, find?) at e) h in
        elim (Bool-cases (q y)) [ inl k ↦ rw (k, find?, f) rest | inr k ↦ rw k rest ]
  ]

pub and_not : {a b : Bool} → a ≡ true → (a && not b) ≡ false → b ≡ true
and_not {a} {b} t h = ground arith

pub and_false : {a b : Bool} → a ≡ true → (b && a) ≡ false → b ≡ false
and_false {a} {b} t h = ground arith

pub lost_of_served : {b : Bool} (a : Bool) → b ≡ true → (a && not b) ≡ false
lost_of_served {b} a h = ground arith

pub lost_of_idle : {a : Bool} (b : Bool) → a ≡ false → (a && not b) ≡ false
lost_of_idle {a} b h = ground arith

pub find?-sound :
    (id : ℕ) (offers : List Offer) (o : Offer)
    → find? (is_offer id) offers ≡ some o
    → (o.id == id) ≡ true
find?-sound id [] o e = absurd (cc)
find?-sound id (x ∷ xs) o e = elim (Bool-cases (x.id == id)) [
  | inl t ↦ let same : x ≡ o = ground arith in subst (λ y. (y.id == id) ≡ true) same t
  | inr f ↦ find?-sound id xs o (rw (f, find?) at e)
]

pub live_status-cases :
    (st : CaseStatus) → is_live_status st ≡ true → (is_activated st || is_in_progress st) ≡ true
live_status-cases CaseStatus.awaiting_activation h = refl
live_status-cases CaseStatus.activated h = refl
live_status-cases CaseStatus.opened h = absurd (cc)
live_status-cases CaseStatus.in_progress h = absurd (cc)
live_status-cases CaseStatus.documents_pending h = absurd (cc)
live_status-cases CaseStatus.contract_sent h = absurd (cc)
live_status-cases CaseStatus.rejected h = absurd (cc)
live_status-cases CaseStatus.cancelled h = absurd (cc)

-- The deletion of one offer leaves the other offers' cases served.
pub others-is_served :
    (id : ℕ) (offers : List Offer) (suppliers : List Supplier) (c : SwitchCase)
    → is_served offers suppliers c ≡ true
    → (c.selected_offer_id == id) ≡ false
    → is_served (filter (λ x. not (x.id == id)) offers) suppliers c ≡ true
others-is_served id offers suppliers c h k =
    elim (Option-cases (find? (is_offer c.selected_offer_id) offers)) [
      | inl e ↦ absurd (cc (rw (e, is_served) at h))
      | inr (o, e) ↦
          let own = find?-sound c.selected_offer_id offers o e in
          let other : not (o.id == id) ≡ true = ground arith in
          let found =
            find?-filter (is_offer c.selected_offer_id) (λ x. not (x.id == id)) offers o e other in
          rw (found, is_served) (rw (e, is_served) at h)
    ]

pub any-others :
    (id k : ℕ) (suppliers : List Supplier)
    → (k == id) ≡ false
    → any (is_supplier k) (filter (λ x. not (x.id == id)) suppliers) ≡ any (is_supplier k) suppliers
any-others id k [] h = refl
any-others id k (x ∷ xs) h = ground (arith, any-others id k xs h)

-- What a supplier's removal leaves of the others.
pub removal-is_served :
    (id : ℕ) (offers : List Offer) (suppliers : List Supplier) (c : SwitchCase)
    → is_served offers suppliers c ≡ true
    → is_supplied_by id offers c ≡ false
    → is_served
        (filter (λ o. not (holds_id id o.supplier_id)) offers)
        (filter (λ x. not (x.id == id)) suppliers)
        c
      ≡ true
removal-is_served id offers suppliers c h k =
    elim (Option-cases (find? (is_offer c.selected_offer_id) offers)) [
      | inl e ↦ absurd (cc (rw (e, is_served) at h))
      | inr (o, e) ↦ elim (Option-cases o.supplier_id) [
        | inl g ↦ absurd (ground arith)
        | inr (n, g) ↦
            let other : holds_id id o.supplier_id ≡ false = ground arith in
            let found =
              find?-filter (is_offer c.selected_offer_id) (λ x. not (holds_id id x.supplier_id))
                offers o e (rw other refl) in
            let apart : (n == id) ≡ false = rw (g, holds_id) at other in
            let there : any (is_supplier n) suppliers ≡ true = ground arith in
            let ready : is_draft o.offer_status ≡ false = ground arith in
            rw (found, g, is_served, ready) (any-others id n suppliers apart ∙ there)
      ]
    ]

any-supplier-append :
    (k : ℕ) (xs ys : List Supplier)
    → any (is_supplier k) xs ≡ true
    → any (is_supplier k) (xs ++ ys) ≡ true
any-supplier-append k [] ys h = absurd (cc)
any-supplier-append k (x ∷ xs) ys h = ground (arith, any-supplier-append k xs ys)

-- A new supplier leaves every case served.
pub append-is_served :
    (offers : List Offer) (xs ys : List Supplier) (c : SwitchCase)
    → is_served offers xs c ≡ true
    → is_served offers (xs ++ ys) c ≡ true
append-is_served offers xs ys c h =
    elim (Option-cases (find? (is_offer c.selected_offer_id) offers)) [
      | inl e ↦ absurd (cc (rw (e, is_served) at h))
      | inr (o, e) ↦ elim (Option-cases o.supplier_id) [
        | inl g ↦ absurd (ground arith)
        | inr (n, g) ↦
            let there : any (is_supplier n) xs ≡ true = ground arith in
            let ready : is_draft o.offer_status ≡ false = ground arith in
            rw (e, is_served, g, ready) (any-supplier-append n xs ys there)
      ]
    ]

pub any_or {ℓ} :
    {A : Type ℓ} (p q : A → Bool) (xs : List A)
    → any p xs ≡ false
    → any q xs ≡ false
    → any (λ x. p x || q x) xs ≡ false
any_or p q [] a b = refl
any_or p q (x ∷ xs) a b = ground (arith, any_or p q xs)

pub or_false : (a b : Bool) → (a || b) ≡ false → (a ≡ false) × (b ≡ false)
or_false a b h = ground arith
