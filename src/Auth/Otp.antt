-- ===== src/Auth/Otp.antt =====
-- One-time codes of src/modules/auth/auth.service.ts: issue, cooldown, consumption.
pub mod Rows
pub mod Issue
pub mod Consume
use Prim.Native.String.{String}
use easyrisparmio_backend.Prelude.{
  ℕ, ◌+◌, ◌-◌, ◌*◌, ◌/◌, ◌%◌, Bool, true, false, not, ◌&&◌, ◌||◌, Option, none, some, List, [], ◌∷◌,
  ltb, leb, ◌==◌, if◌then◌else◌,
}
use easyrisparmio_backend.Http.{Action, Result, ok, fail, bad_request, unavailable}
use easyrisparmio_backend.Auth.{
  Text, User, OtpCode, OtpType, email_verification, password_reset, phone_verification, same_type,
  Env, Store, Mail,
}

abbrev pub max_otp_attempts : ℕ
max_otp_attempts = 5

abbrev pub otp_ttl_minutes : ℕ
otp_ttl_minutes = 10

abbrev pub otp_cooldown_seconds : ℕ
otp_cooldown_seconds = 60

abbrev pub invalid_code : String
invalid_code = "Invalid or expired OTP code"

abbrev pub locked_out : String
locked_out = "Too many failed attempts. Please request a new code."

abbrev pub mail_failed : String
mail_failed = "We could not send the email right now. Please try again in a moment."

-- The rows that a query for a user's codes of one type finds.
abbrev pub is_of : ℕ → OtpType → OtpCode → Bool
is_of user_id type o = o.user_id == user_id && same_type o.type type

abbrev pub is_unused : ℕ → OtpType → OtpCode → Bool
is_unused user_id type o = is_of user_id type o && not o.used

abbrev pub is_live : ℕ → OtpType → ℕ → OtpCode → Bool
is_live user_id type now o = is_unused user_id type o && ltb now o.expires_at

-- `findOne` ordered by `createdAt` descending; of two rows of one moment, the later saved.
abbrev pub newest : (OtpCode → Bool) → List OtpCode → Option OtpCode
newest p [] = none
newest p (o ∷ os) =
    let rest = newest p os in
    if p o
    then elim rest [
      | none ↦ some o
      | some r ↦ if leb r.created_at o.created_at then some o else some r
    ]
    else rest

-- `update` of the rows that pass a test, and `delete` of the row with an id.
abbrev pub update_rows : (OtpCode → Bool) → (OtpCode → OtpCode) → List OtpCode → List OtpCode
update_rows p f [] = []
update_rows p f (o ∷ os) = (if p o then f o else o) ∷ update_rows p f os

abbrev pub delete_rows : (OtpCode → Bool) → List OtpCode → List OtpCode
delete_rows p [] = []
delete_rows p (o ∷ os) = let rest = delete_rows p os in if p o then rest else o ∷ rest

abbrev pub mark_used : OtpCode → OtpCode
mark_used o = record o { used = true }

-- `toString().padStart(6, '0')` of a number below 1,000,000: its six digits.
unfoldable pub code_of : ℕ → Text
code_of n =
    (48 + n / 100000 % 10)
    ∷ (48 + n / 10000 % 10)
    ∷ (48 + n / 1000 % 10)
    ∷ (48 + n / 100 % 10)
    ∷ (48 + n / 10 % 10)
    ∷ (48 + n % 10)
    ∷ []

abbrev pub is_mailed : OtpType → Bool
is_mailed phone_verification = false
is_mailed _ = true

-- Seconds, rounded up. The clock may stand behind the row's, so the two sides are added up.
unfoldable pub otp_cooldown_remaining : ℕ → OtpType → Store → ℕ
otp_cooldown_remaining user_id type s = elim (newest (is_of user_id type) s.otps) [
  | none ↦ 0
  | some last_otp ↦
      if leb (last_otp.created_at + otp_cooldown_seconds * 1000) s.now
      then 0
      else (last_otp.created_at + otp_cooldown_seconds * 1000 - s.now + 999) / 1000
]

module _ (env : Env) where
  -- The row that a call of `generateAndSaveOtp` saves.
  abbrev pub fresh_otp : User → OtpType → Store → OtpCode
  fresh_otp user type s = record {
    id = env.random s.draws;
    code_hash = env.hash (code_of (env.random_code s.draws)) s.draws;
    type = type;
    expires_at = s.now + otp_ttl_minutes * 60000;
    used = false;
    attempts = 0;
    user_id = user.id;
    created_at = s.now;
  }

  -- The locale only chooses the wording of the mail.
  unfoldable pub generate_and_save_otp : User → OtpType → Action Store Text
  generate_and_save_otp user type s =
      let code = code_of (env.random_code s.draws) in
      let otp_code = fresh_otp user type s in
      let invalidated = update_rows (is_unused user.id type) mark_used s.otps in
      let saved = record s { otps = otp_code ∷ invalidated; draws = s.draws + 1 } in
      if is_mailed type
      then (if env.delivers s.draws
          then (
            record saved { mails = record { to = user.email; code = code; type = type } ∷ s.mails },
            ok code,
          )
          else (
            record saved { otps = delete_rows (λ o. o.id == otp_code.id) saved.otps },
            fail (unavailable mail_failed),
          ))
      else (saved, ok code)

  -- What `consumeOtp` does once it has found a row.
  check_otp : OtpCode → Text → Action Store OtpCode
  check_otp otp_code code s =
      let is_it = λ (o : OtpCode). o.id == otp_code.id in
      if leb max_otp_attempts otp_code.attempts
      then (record s { otps = update_rows is_it mark_used s.otps }, fail (bad_request locked_out))
      else if not (env.compare code otp_code.code_hash)
      then (
        record s { otps = update_rows is_it (λ o. record o { attempts = o.attempts + 1 }) s.otps },
        fail (bad_request invalid_code),
      )
      else (record s { otps = update_rows is_it mark_used s.otps }, ok (mark_used otp_code))

  unfoldable pub consume_otp : User → OtpType → Text → Action Store OtpCode
  unfolding check_otp
  consume_otp user type code s = elim (newest (is_live user.id type s.now) s.otps) [
    | none ↦ (s, fail (bad_request invalid_code))
    | some otp_code ↦ check_otp otp_code code s
  ]
