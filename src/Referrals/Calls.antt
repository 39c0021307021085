-- ===== src/Referrals/Calls.antt =====
-- The calls of src/modules/referrals/referrals.service.ts that write.
use easyrisparmio_backend.Prelude.{
  ℕ, ◌==◌, Bool, true, false, ◌&&◌, not, Option, none, some, List, [], ◌∷◌, ◌++◌, find?, leb, ltb,
  if◌then◌else◌, suc, zero, ◌+◌, ◌*◌, get_elem?,
}
use easyrisparmio_backend.Http.{Action, Result, ok, fail, bad_request, not_found}
use easyrisparmio_backend.Referrals.{
  ReferralStatus, pending, registered, qualified, rewarded, expired, Referral, Referrer, Notice,
  referral_qualified, referral_rewarded, Store, is_status, is_valid_transition, holds_text,
  holds_id, is_none, save_found, find_by_referral_code, is_referrer, with_code, chars,
}

-- `chars.charAt(index)`.
abbrev pub char_at : ℕ → List ℕ
char_at index = elim (get_elem? chars index) [ none ↦ [] | some c ↦ c ∷ [] ]

-- The code of an attempt, from what `randomInt` gave for each of its places.
unfoldable pub draw_code : (ℕ → ℕ) → (left place : ℕ) → List ℕ
draw_code random zero place = []
draw_code random (suc left) place = char_at (random place) ++ draw_code random left (place + 1)

unfoldable pub try_codes : (ℕ → ℕ → ℕ) → (left attempt : ℕ) → Store → Result (List ℕ)
try_codes random zero attempt s =
    fail (bad_request "Failed to generate unique referral code. Please try again.")
try_codes random (suc left) attempt s =
    let code = draw_code (random attempt) 8 0 in
    let rest = try_codes random left (attempt + 1) s in
    elim (find_by_referral_code code s) [ none ↦ ok code | some existing ↦ rest ]

unfoldable pub generate_unique_code : (ℕ → ℕ → ℕ) → Store → Result (List ℕ)
generate_unique_code random s = try_codes random 5 0 s

-- Ninety days, where the server's clock is not put forward or back.
abbrev ninety_days : ℕ
ninety_days = 90 * 86400000

-- The user's code, made and stored first where there is none.
unfoldable pub ensure_code : (ℕ → ℕ → ℕ) → Referrer → Action Store (List ℕ)
ensure_code random user s = elim user.referral_code [
  | some code ↦ (s, ok code)
  | none ↦ elim (generate_unique_code random s) [
    | fail e ↦ (s, fail e)
    | ok code ↦ (record s { users = with_code user.id code s.users }, ok code)
  ]
]

-- `{ referrerId, referredEmail, status: PENDING }`.
abbrev pub is_invite : ℕ → List ℕ → Referral → Bool
is_invite user_id email r =
    r.referrer_id == user_id && (holds_text email r.referred_email && is_status r.status pending)

abbrev pub new_invite : ℕ → List ℕ → Option (List ℕ) → Option (List ℕ) → Store → Referral
new_invite user_id code email phone s = record {
  id = s.next_id;
  referrer_id = user_id;
  referral_code = code;
  referred_user_id = none;
  referred_email = email;
  referred_phone = phone;
  status = pending;
  reward_amount = none;
  reward_credited_at = none;
  expires_at = some (s.now + ninety_days);
}

abbrev insert : Referral → Store → Store
insert r s = record s { referrals = r ∷ s.referrals; next_id = s.next_id + 1 }

abbrev pub existing_invite : ℕ → Option (List ℕ) → Store → Option Referral
existing_invite user_id none s = none
existing_invite user_id (some email) s = find? (is_invite user_id email) s.referrals

-- `dto.referredEmail` and `dto.referredPhone`; an empty text counts as none.
unfoldable pub invite : ℕ → List ℕ → Option (List ℕ) → Option (List ℕ) → Action Store Referral
invite user_id code email phone s = elim (existing_invite user_id email s) [
  | some r ↦ (s, ok r)
  | none ↦ let r = new_invite user_id code email phone s in (insert r s, ok r)
]

abbrev pub or_null : Option (List ℕ) → Option (List ℕ)
or_null none = none
or_null (some []) = none
or_null (some (c ∷ cs)) = some (c ∷ cs)

unfoldable pub create_invite :
    (ℕ → ℕ → ℕ) → ℕ → Option (List ℕ) → Option (List ℕ) → Action Store Referral
create_invite random user_id email phone s = elim (find? (is_referrer user_id) s.users) [
  | none ↦ (s, fail (not_found "User not found"))
  | some user ↦
      let coded = ensure_code random user s in
      elim coded.1 [
        | fail e ↦ (coded.0, fail e)
        | ok code ↦ invite user_id code (or_null email) (or_null phone) coded.0
      ]
]

abbrev pub is_referral : ℕ → Referral → Bool
is_referral id r = r.id == id

-- What the row becomes, with the credit that a reward brings.
abbrev pub with_status : ReferralStatus → Option ℕ → ℕ → Referral → Referral
with_status rewarded amount now r = record r {
  status = rewarded;
  reward_amount = amount;
  reward_credited_at = some now;
}
with_status status amount now r = record r { status = status }

abbrev or_zero : Option ℕ → ℕ
or_zero none = 0
or_zero (some n) = n

-- `notification-events.service.ts`, `referralSucceeded`.
unfoldable pub referral_succeeded : Referral → ReferralStatus → Option ℕ → List Notice → List Notice
referral_succeeded r qualified amount notices = referral_qualified r.id r.referrer_id ∷ notices
referral_succeeded r rewarded amount notices =
    referral_rewarded r.id r.referrer_id (or_zero amount) ∷ notices
referral_succeeded r _ amount notices = notices

unfoldable pub update_status : ℕ → ReferralStatus → Option ℕ → Action Store Referral
update_status id status amount s = elim (find? (is_referral id) s.referrals) [
  | none ↦ (s, fail (not_found "Referral not found"))
  | some r ↦
      if not (is_valid_transition r.status status)
      then (s, fail (bad_request "Cannot transition"))
      else if is_status status rewarded && is_none amount
      then (s, fail (bad_request "rewardAmount is required when setting status to REWARDED"))
      else let saved = with_status status amount s.now r in
        (
          record s {
            referrals = save_found (is_referral id) (with_status status amount s.now) s.referrals;
            notices = referral_succeeded saved status amount s.notices;
          },
          ok saved,
        )
]

-- The three statuses of a referral that a user has signed up with.
abbrev pub is_active : ReferralStatus → Bool
is_active registered = true
is_active qualified = true
is_active rewarded = true
is_active _ = false

abbrev pub is_active_of : ℕ → Referral → Bool
is_active_of user_id r = holds_id user_id r.referred_user_id && is_active r.status

abbrev is_open : ℕ → Referral → Bool
is_open now r =
    is_status r.status pending && elim r.expires_at [ none ↦ true | some at ↦ ltb now at ]

abbrev has_code : List ℕ → Referral → Bool
has_code code r = holds_text code (some r.referral_code)

-- The two queries for an open invite: one addressed to the email, then one addressed to nobody.
abbrev pub is_targeted : List ℕ → List ℕ → ℕ → Referral → Bool
is_targeted code email now r =
    has_code code r && (holds_text email r.referred_email && is_open now r)

abbrev pub is_generic : List ℕ → ℕ → Referral → Bool
is_generic code now r = has_code code r && (is_none r.referred_email && is_open now r)

abbrev pub claimed : ℕ → List ℕ → Referral → Referral
claimed user_id email r = record r {
  referred_user_id = some user_id;
  referred_email = some email;
  status = registered;
}

abbrev pub signed_up : ℕ → List ℕ → ℕ → List ℕ → Store → Referral
signed_up referrer_id code user_id email s = record {
  id = s.next_id;
  referrer_id = referrer_id;
  referral_code = code;
  referred_user_id = some user_id;
  referred_email = some email;
  referred_phone = none;
  status = registered;
  reward_amount = none;
  reward_credited_at = none;
  expires_at = none;
}

-- `if (referral && !referral.referredUserId)`, for the row that one of the queries gave.
abbrev pub claim_or_insert : (Referral → Bool) → Referral → ℕ → ℕ → List ℕ → List ℕ → Store → Store
claim_or_insert p r referrer_id user_id code email s =
    if is_none r.referred_user_id
    then record s { referrals = save_found p (claimed user_id email) s.referrals }
    else insert (signed_up referrer_id code user_id email s) s

-- The transaction of the sign-up.
unfoldable pub sign_up : (referrer_id user_id : ℕ) → (code email : List ℕ) → Store → Store
sign_up referrer_id user_id code email s = elim (find? (is_targeted code email s.now) s.referrals) [
  | some r ↦ claim_or_insert (is_targeted code email s.now) r referrer_id user_id code email s
  | none ↦ elim (find? (is_generic code s.now) s.referrals) [
    | some r ↦ claim_or_insert (is_generic code s.now) r referrer_id user_id code email s
    | none ↦ insert (signed_up referrer_id code user_id email s) s
  ]
]

unfoldable pub process_referral_code : (code : List ℕ) → ℕ → (email : List ℕ) → Action Store Unit
process_referral_code code user_id email s = elim (find? (is_active_of user_id) s.referrals) [
  | some r ↦ (s, ok tt)
  | none ↦ elim (find_by_referral_code code s) [
    | none ↦ (s, fail (bad_request "Invalid referral code"))
    | some referrer ↦
        if referrer.id == user_id
        then (s, fail (bad_request "Cannot use your own referral code"))
        else (sign_up referrer.id user_id code email s, ok tt)
  ]
]

abbrev pub is_stale : ℕ → Referral → Bool
is_stale now r =
    is_status r.status pending && elim r.expires_at [ none ↦ false | some at ↦ leb at now ]

abbrev pub expire_rows : ℕ → List Referral → List Referral
expire_rows now [] = []
expire_rows now (r ∷ rs) =
    (if is_stale now r then record r { status = expired } else r) ∷ expire_rows now rs

unfoldable pub expire_stale_referrals : Store → Store
expire_stale_referrals s = record s { referrals = expire_rows s.now s.referrals }
