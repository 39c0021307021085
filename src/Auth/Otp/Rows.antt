-- ===== src/Auth/Otp/Rows.antt =====
-- Counting and finding the rows of one-time codes.
use easyrisparmio_backend.Prelude.{
  ℕ, ◌+◌, ◌≤◌, ◌<◌, ◌≡◌, ◌≢◌, refl, ◌⊎◌, inl, inr, Bool, true, Option, none, some, List, [], ◌∷◌,
  All, arith, ◌==◌, if◌then◌else◌, Bool-cases, Option-cases,
}
use mathlib.Core.Path.{subst}
use easyrisparmio_backend.Auth.{
  OtpCode, OtpType, same_type, email_verification, phone_verification, password_reset,
}
use easyrisparmio_backend.Auth.Otp.{newest, is_unused, is_live, update_rows, delete_rows, mark_used}

-- How many codes of a user and a type are unused.
abbrev pub unused : ℕ → OtpType → List OtpCode → ℕ
unused user_id type [] = 0
unused user_id type (o ∷ os) = (if is_unused user_id type o then 1 else 0) + unused user_id type os

abbrev pub remap : (OtpCode → Bool) → (OtpCode → OtpCode) → OtpCode → OtpCode
remap q f o = if q o then f o else o

abbrev pub map_some : (OtpCode → OtpCode) → Option OtpCode → Option OtpCode
map_some f none = none
map_some f (some o) = some (f o)

-- Changing columns that a query does not read changes the found row in the same way.
pub newest-update_rows :
    (p q : OtpCode → Bool) (f : OtpCode → OtpCode)
    → ((o : OtpCode) → p (f o) ≡ p o)
    → ((o : OtpCode) → (f o).created_at ≡ o.created_at)
    → (os : List OtpCode) → newest p (update_rows q f os) ≡ map_some (remap q f) (newest p os)
newest-update_rows p q f hp hc [] = refl
newest-update_rows p q f hp hc (o ∷ os) = elim (Option-cases (newest p os)) [
  | inl e ↦ ground (arith, hp o, newest-update_rows p q f hp hc os)
  | inr (r, e) ↦ ground (arith, hp o, hc o, hc r, newest-update_rows p q f hp hc os)
]

pub newest-test :
    (p : OtpCode → Bool) (os : List OtpCode) (r : OtpCode) → newest p os ≡ some r → p r ≡ true
newest-test p [] r h = absurd (cc)
newest-test p (o ∷ os) r h = ground (arith, newest-test p os r)

newest-none_narrow :
    (p q : OtpCode → Bool) (os : List OtpCode) (t : OtpCode)
    → ((o : OtpCode) → q o ≡ true → p o ≡ true)
    → newest p os ≡ none
    → newest q os ≡ some t
    → ⊥
newest-none_narrow p q [] t h e f = absurd (cc)
newest-none_narrow p q (o ∷ os) t h e f = elim (Option-cases (newest p os)) [
  | inl a ↦ elim (Option-cases (newest q os)) [
    | inl b ↦ ground (arith, h o)
    | inr (v, b) ↦ newest-none_narrow p q os v h a b
  ]
  | inr (u, a) ↦ ground arith
]

-- The row that a wider query found is at least as new as what a narrower one finds.
newest-narrow_le :
    (p q : OtpCode → Bool) (os : List OtpCode) (r t : OtpCode)
    → ((o : OtpCode) → q o ≡ true → p o ≡ true)
    → newest p os ≡ some r
    → newest q os ≡ some t
    → t.created_at ≤ r.created_at
newest-narrow_le p q [] r t h e f = absurd (cc)
newest-narrow_le p q (o ∷ os) r t h e f = elim (Option-cases (newest p os)) [
  | inl a ↦ elim (Option-cases (newest q os)) [
    | inl b ↦ ground (arith, h o)
    | inr (v, b) ↦ ground (arith, h o, newest-none_narrow p q os v h a)
  ]
  | inr (u, a) ↦ elim (Option-cases (newest q os)) [
    | inl b ↦ ground (arith, h o)
    | inr (v, b) ↦ ground (arith, h o, newest-narrow_le p q os u v h a b)
  ]
]

-- A query that passes the row that a wider one found finds it too.
pub newest-narrow :
    (p q : OtpCode → Bool) (os : List OtpCode) (r : OtpCode)
    → ((o : OtpCode) → q o ≡ true → p o ≡ true)
    → newest p os ≡ some r
    → q r ≡ true
    → newest q os ≡ some r
newest-narrow p q [] r h e k = absurd (cc)
newest-narrow p q (o ∷ os) r h e k = elim (Option-cases (newest p os)) [
  | inl a ↦ elim (Option-cases (newest q os)) [
    | inl b ↦ ground arith
    | inr (v, b) ↦ absurd (newest-none_narrow p q os v h a b)
  ]
  | inr (u, a) ↦ elim (Option-cases (newest q os)) [
    | inl b ↦ ground (arith, h o, newest-narrow p q os u h a)
    | inr (v, b) ↦
        ground (arith, h o, newest-narrow_le p q os u v h a b, newest-narrow p q os u h a)
  ]
]

pub newest-none :
    (user_id : ℕ) (type : OtpType) (now : ℕ) (os : List OtpCode)
    → unused user_id type os ≡ 0
    → newest (is_live user_id type now) os ≡ none
newest-none user_id type now [] h = refl
newest-none user_id type now (o ∷ os) h = ground (arith, newest-none user_id type now os)

-- Marking rows never adds an unused one.
pub unused-mark_le :
    (user_id : ℕ) (type : OtpType) (q : OtpCode → Bool) (os : List OtpCode)
    → unused user_id type (update_rows q mark_used os) ≤ unused user_id type os
unused-mark_le user_id type q [] = omega arith
unused-mark_le user_id type q (o ∷ os) = ground (arith, unused-mark_le user_id type q os)

pub unused-mark_all :
    (user_id : ℕ) (type : OtpType) (os : List OtpCode)
    → unused user_id type (update_rows (is_unused user_id type) mark_used os) ≡ 0
unused-mark_all user_id type [] = refl
unused-mark_all user_id type (o ∷ os) = ground (arith, unused-mark_all user_id type os)

pub unused-delete_le :
    (user_id : ℕ) (type : OtpType) (q : OtpCode → Bool) (os : List OtpCode)
    → unused user_id type (delete_rows q os) ≤ unused user_id type os
unused-delete_le user_id type q [] = omega arith
unused-delete_le user_id type q (o ∷ os) = ground (arith, unused-delete_le user_id type q os)

-- Marking the row that a query for live codes found leaves fewer unused ones.
pub unused-mark_newest :
    (user_id : ℕ) (type : OtpType) (now : ℕ) (os : List OtpCode) (r : OtpCode)
    → newest (is_live user_id type now) os ≡ some r
    → unused user_id type (update_rows (λ o. o.id == r.id) mark_used os) < unused user_id type os
unused-mark_newest user_id type now [] r h = absurd (cc)
unused-mark_newest user_id type now (o ∷ os) r h = ground (
  arith,
  unused-mark_newest user_id type now os r,
  unused-mark_le user_id type (λ x. x.id == r.id) os,
)

-- Deleting a row that is not there.
pub delete_rows_none :
    (id : ℕ) (os : List OtpCode) → All (λ o. o.id ≢ id) os → delete_rows (λ o. o.id == id) os ≡ os
delete_rows_none id [] h = refl
delete_rows_none id (o ∷ os) (h, hs) = ground (arith, delete_rows_none id os hs)

-- A property of a column that marking leaves alone holds of the marked rows.
pub All-mark {κ} :
    (P : OtpCode → Type κ) (q : OtpCode → Bool) (os : List OtpCode)
    → ((o : OtpCode) → P o → P (mark_used o))
    → All P os
    → All P (update_rows q mark_used os)
All-mark P q [] keep h = tt
All-mark P q (o ∷ os) keep (h, hs) = elim (Bool-cases (q o)) [
  | inl e ↦ (rw e (keep o h), All-mark P q os keep hs)
  | inr e ↦ (rw e h, All-mark P q os keep hs)
]

newest-cons :
    (p : OtpCode → Bool) (o : OtpCode) (os : List OtpCode) (r : OtpCode)
    → newest p (o ∷ os) ≡ some r
    → (o ≡ r) ⊎ (newest p os ≡ some r)
newest-cons p o os r e = ground arith

pub newest-All {κ} :
    (P : OtpCode → Type κ) (p : OtpCode → Bool) (os : List OtpCode) (r : OtpCode)
    → All P os
    → newest p os ≡ some r
    → P r
newest-All P p [] r h e = absurd (cc)
newest-All P p (o ∷ os) r (h, hs) e = elim (newest-cons p o os r e) [
  | inl same ↦ subst P same h
  | inr later ↦ newest-All P p os r hs later
]

pub same_type_refl : (type : OtpType) → same_type type type ≡ true
same_type_refl email_verification = refl
same_type_refl phone_verification = refl
same_type_refl password_reset = refl

abbrev pub bump : OtpCode → OtpCode
bump o = record o { attempts = o.attempts + 1 }

-- Counting a failed guess uses no code up.
pub unused-bump :
    (user_id : ℕ) (type : OtpType) (q : OtpCode → Bool) (os : List OtpCode)
    → unused user_id type (update_rows q bump os) ≡ unused user_id type os
unused-bump user_id type q [] = refl
unused-bump user_id type q (o ∷ os) = ground (arith, unused-bump user_id type q os)
