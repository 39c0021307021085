-- ===== src/Referrals.antt =====
-- Referrals: src/modules/referrals/referrals.service.ts and the row of
-- src/modules/referrals/entities/referral.entity.ts. Codes, emails and telephone numbers are lists
-- of code points, times are milliseconds, an amount is in cents. `findOne` and `getOne` without an
-- order give the first row of the table that the condition fits.
pub mod Calls
pub mod Lifecycle
pub mod Registration
pub mod Ownership
pub mod Invites
mod Tests
use easyrisparmio_backend.Prelude.{
  ℕ, ◌≤◌, ◌==◌, Bool, true, false, ◌&&◌, not, ◌||◌, Option, none, some, List, [], ◌∷◌, find?,
  length, text_eq, leb, ltb, if◌then◌else◌, suc, zero, ◌+◌, ◌*◌, get_elem?,
}
use easyrisparmio_backend.Http.{Action, Result, ok, fail, bad_request, not_found}

pub data ReferralStatus : Type 0 where
  pending registered qualified rewarded expired : ReferralStatus

pub record Referral : Type 0 where
  pub id : ℕ
  pub referrer_id : ℕ
  pub referral_code : List ℕ
  pub referred_user_id : Option ℕ
  pub referred_email : Option (List ℕ)
  pub referred_phone : Option (List ℕ)
  pub status : ReferralStatus
  pub reward_amount : Option ℕ
  pub reward_credited_at : Option ℕ
  pub expires_at : Option ℕ

-- What the service reads and writes of a user.
pub record Referrer : Type 0 where
  pub id : ℕ
  pub referral_code : Option (List ℕ)

-- `referralSucceeded` sends a notification for two statuses, and none for the others.
pub data Notice : Type 0 where
  referral_qualified : (referral referrer : ℕ) → Notice
  referral_rewarded : (referral referrer amount : ℕ) → Notice

pub record Store : Type 0 where
  pub users : List Referrer
  pub referrals : List Referral
  pub notices : List Notice
  pub now : ℕ
  pub next_id : ℕ

abbrev pub is_status : ReferralStatus → ReferralStatus → Bool
is_status pending pending = true
is_status registered registered = true
is_status qualified qualified = true
is_status rewarded rewarded = true
is_status expired expired = true
is_status _ _ = false

-- `validTransitions[currentStatus]?.includes(newStatus)`.
unfoldable pub is_valid_transition : ReferralStatus → ReferralStatus → Bool
is_valid_transition pending registered = true
is_valid_transition pending expired = true
is_valid_transition registered qualified = true
is_valid_transition registered expired = true
is_valid_transition qualified rewarded = true
is_valid_transition qualified expired = true
is_valid_transition _ _ = false

-- An optional text equals a given one; SQL's null equals nothing.
abbrev pub holds_text : List ℕ → Option (List ℕ) → Bool
holds_text t none = false
holds_text t (some u) = text_eq u t

abbrev pub holds_id : ℕ → Option ℕ → Bool
holds_id n none = false
holds_id n (some m) = m == n

abbrev pub is_none {ℓ} : {A : Type ℓ} → Option A → Bool
is_none none = true
is_none (some a) = false

-- A loaded row is changed and saved: the row that the query gave is written.
abbrev pub save_found : (Referral → Bool) → (Referral → Referral) → List Referral → List Referral
save_found p f [] = []
save_found p f (r ∷ rs) = let rest = save_found p f rs in if p r then f r ∷ rs else r ∷ rest

-- `users.service.ts`, `findByReferralCode`.
abbrev pub has_code : List ℕ → Referrer → Bool
has_code code u = holds_text code u.referral_code

unfoldable pub find_by_referral_code : List ℕ → Store → Option Referrer
find_by_referral_code code s = find? (has_code code) s.users

abbrev pub is_referrer : ℕ → Referrer → Bool
is_referrer id u = u.id == id

abbrev pub with_code : ℕ → List ℕ → List Referrer → List Referrer
with_code id code [] = []
with_code id code (u ∷ us) =
    (if u.id == id then record u { referral_code = some code } else u) ∷ with_code id code us

-- `ABCDEFGHJKLMNPQRSTUVWXYZ23456789`.
abbrev pub chars : List ℕ
chars =
    65 ∷ 66 ∷ 67 ∷ 68 ∷ 69 ∷ 70 ∷ 71 ∷ 72 ∷ 74 ∷ 75 ∷ 76 ∷ 77 ∷ 78 ∷ 80 ∷ 81 ∷ 82 ∷ 83 ∷ 84 ∷ 85
    ∷ 86 ∷ 87 ∷ 88 ∷ 89 ∷ 90 ∷ 50 ∷ 51 ∷ 52 ∷ 53 ∷ 54 ∷ 55 ∷ 56 ∷ 57 ∷ []
