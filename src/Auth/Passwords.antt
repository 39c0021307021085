-- ===== src/Auth/Passwords.antt =====
-- Verification and reset by one-time codes, and changes of a password, of
-- src/modules/auth/auth.service.ts. The comparisons with a dummy hash, made only for their duration,
-- have no effect and are left out.
pub mod Reset
pub mod Replies
use Prim.Native.String.{String}
use text.Mathlib.Text.{◌==◌ as str_eq}
use easyrisparmio_backend.Prelude.{
  ℕ, ◌+◌, Bool, true, false, not, ◌&&◌, ◌||◌, Option, none, some, List, [], ◌∷◌, find?, ◌==◌,
  text_eq, if◌then◌else◌,
}
use easyrisparmio_backend.Http.{
  Action, Result, ok, fail, bad_request, unauthorized, ◌>>=◌, ◌>>◌, return, throw_if, found_or,
}
use easyrisparmio_backend.Auth.{
  Text, User, UserStatus, active, is_suspended, is_pending, OtpCode, OtpType, email_verification,
  phone_verification, password_reset, same_type, OtpClaim, uuid, malformed, Payload, Env, Store,
  truthy, without_password, find_by_email, find_by_email_with_password, find_by_id_with_password,
  update_user,
}
use easyrisparmio_backend.Auth.Otp.{
  generate_and_save_otp, otp_cooldown_remaining, consume_otp, delete_rows, is_of, invalid_code,
}
use easyrisparmio_backend.Auth.Sessions.{
  Tokens, no_meta, generate_tokens, revoke_all, resolve_email_from_token, account_suspended,
  is_purpose,
}

abbrev pub forgot_password_reply : String
forgot_password_reply = "If the email is registered, a password reset code has been sent"

abbrev pub resend_otp_reply : String
resend_otp_reply = "If the email is registered, a new verification code has been sent"

abbrev pub invalid_reset_token : String
invalid_reset_token = "Invalid or expired reset token"

abbrev pub email_required : String
email_required = "Either email or verificationToken is required"

pub record VerifyOtpDto : Type 0 where
  pub email : Option String
  pub verification_token : Option String
  pub code : Text
  pub type : OtpType

pub record ResendOtpDto : Type 0 where
  pub email : Option String
  pub verification_token : Option String
  pub type : OtpType

pub record ResetPasswordDto : Type 0 where
  pub reset_token : Option String
  pub email : Option String
  pub code : Option Text
  pub new_password : Text

pub record ChangePasswordDto : Type 0 where
  pub current_password : Text
  pub new_password : Text
  pub confirm_password : Text

-- The replies of `verifyOtp`, all with the message "OTP verified successfully".
pub data Verified : Type 0 where
  signed_in : User → Tokens → Verified
  reset_granted : String → Verified
  confirmed : Verified

abbrev pub activate : UserStatus → UserStatus
activate status = if is_pending status then active else status

-- A user who may receive or use a code: an account that exists and is not suspended.
abbrev pub reachable : Option User → Option User
reachable none = none
reachable (some u) = if is_suspended u.status then none else some u

-- The row that a reset token names: used up by `verifyOtp`, and deleted by a reset.
abbrev pub is_granted : ℕ → ℕ → OtpCode → Bool
is_granted otp sub o = o.id == otp && (is_of sub password_reset o && o.used)

-- The claims of a reset token that pass the checks on it: its user and its code.
unfoldable pub reset_claims : Payload → Option (ℕ × ℕ)
reset_claims payload =
    if not (is_purpose "password_reset" payload.purpose) then none else elim payload.sub [
      | none ↦ none
      | some sub ↦ elim payload.otp [ some (uuid otp) ↦ some (sub, otp) | _ ↦ none ]
    ]

-- An empty code counts as absent.
abbrev given_code : Option Text → Option Text
given_code (some (c ∷ cs)) = some (c ∷ cs)
given_code _ = none

module _ (env : Env) where
  unfoldable pub validate_user : String → Text → Store → Option User
  validate_user email password s = elim (find_by_email_with_password env email s.users) [
    | none ↦ none
    | some user ↦ elim user.password_hash [
      | none ↦ none
      | some hash ↦ if env.compare password hash then some user else none
    ]
  ]

  -- `dto.verificationToken ? this.resolveEmailFromToken(…) : dto.email`, then `if (!email) throw`.
  unfoldable pub requested_email : Option String → Option String → Action Store String
  requested_email token email s = elim (truthy token) [
    | some t ↦ elim (resolve_email_from_token env t s) [
      | ok found ↦ found_or (truthy found) (bad_request email_required) s
      | fail e ↦ (s, fail e)
    ]
    | none ↦ found_or (truthy email) (bad_request email_required) s
  ]

  -- What `verifyOtp` does with the code that it consumed.
  after_otp : OtpType → User → OtpCode → Action Store Verified
  after_otp email_verification user otp_code = do
    verified ←
        update_user user.id (λ u. record u { email_verified = true; status = activate user.status })
    tokens ← generate_tokens env verified no_meta
    return (signed_in (without_password verified) tokens)
  after_otp phone_verification user otp_code = do
    update_user user.id (λ u. record u { phone_verified = true })
    return confirmed
  after_otp password_reset user otp_code = λ s. (
    s,
    ok (
        reset_granted (
          env.sign
            (record {
              sub = some user.id;
              email = none;
              role = none;
              purpose = some "password_reset";
              otp = some (uuid otp_code.id);
            })
            600000 s.now)),
  )

  unfoldable pub verify_otp : VerifyOtpDto → Action Store Verified
  unfolding after_otp
  verify_otp dto = do
    email ← requested_email dto.verification_token dto.email
    user ← λ s. found_or (reachable (find_by_email env email s.users)) (bad_request invalid_code) s
    otp_code ← consume_otp env user dto.type dto.code
    after_otp dto.type user otp_code

  -- The last part of `resendOtp` and `forgotPassword`: silent within the cooldown.
  send_unless_cooling : User → OtpType → String → Action Store String
  send_unless_cooling user type reply s =
      if not (otp_cooldown_remaining user.id type s == 0)
      then (s, ok reply)
      else (generate_and_save_otp env user type >>= λ _. return reply) s

  resend_to : OtpType → Option User → Action Store String
  unfolding send_unless_cooling
  resend_to type none s = (s, ok resend_otp_reply)
  resend_to type (some user) s =
      if same_type type email_verification && not (is_pending user.status)
      then (s, ok resend_otp_reply)
      else send_unless_cooling user type resend_otp_reply s

  unfoldable pub resend_otp : ResendOtpDto → Action Store String
  unfolding resend_to
  resend_otp dto = do
    throw_if (same_type dto.type phone_verification)
        (bad_request "Phone verification OTP cannot be resent via this endpoint")
    email ← requested_email dto.verification_token dto.email
    λ s. resend_to dto.type (reachable (find_by_email env email s.users)) s

  forgot_for : Option User → Action Store String
  unfolding send_unless_cooling
  forgot_for none s = (s, ok forgot_password_reply)
  forgot_for (some user) s = send_unless_cooling user password_reset forgot_password_reply s

  unfoldable pub forgot_password : String → Action Store String
  unfolding forgot_for
  forgot_password email s = forgot_for (reachable (find_by_email env email s.users)) s

  unfoldable pub user_from_reset_token : String → Store → Result User
  user_from_reset_token token s = elim (env.verify token s.now) [
    | none ↦ fail (bad_request invalid_reset_token)
    | some payload ↦ elim (reset_claims payload) [
      | none ↦ fail (bad_request invalid_reset_token)
      | some (sub, otp) ↦ elim (find? (is_granted otp sub) s.otps) [
        | none ↦ fail (bad_request invalid_reset_token)
        | some row ↦ elim (find_by_id_with_password sub s.users) [
          | none ↦ fail (bad_request invalid_reset_token)
          | some user ↦ ok user
        ]
      ]
    ]
  ]

  unfoldable pub user_from_otp_code : ResetPasswordDto → Action Store User
  user_from_otp_code dto = do
    email ← found_or (truthy dto.email) (bad_request "Either resetToken or email+code is required")
    code ←
        found_or (given_code dto.code) (bad_request "Either resetToken or email+code is required")
    user ← λ s.
        found_or (reachable (find_by_email_with_password env email s.users))
          (bad_request invalid_code) s
    consume_otp env user password_reset code
    return user

  abbrev pub same_password : Text → Option String → Bool
  same_password password none = false
  same_password password (some hash) = env.compare password hash

  -- `resetPassword` once the user is known.
  unfoldable pub reset_to : Text → User → Action Store String
  reset_to new_password user = do
    throw_if (is_suspended user.status) (unauthorized account_suspended)
    throw_if (same_password new_password user.password_hash)
        (bad_request "New password must be different from your current password")
    salt ← λ s. (record s { draws = s.draws + 1 }, ok s.draws)
    update_user user.id (λ u. record u {
      password_hash = some (env.hash new_password salt);
      email_verified = true;
      status = activate user.status;
    })
    λ s. (
      record s {
        otps = delete_rows (is_of user.id password_reset) s.otps;
        tokens = revoke_all user.id s.tokens;
      },
      ok "Password reset successfully",
    )

  unfoldable pub reset_password : ResetPasswordDto → Action Store String
  reset_password dto s = elim (truthy dto.reset_token) [
    | some token ↦ elim (user_from_reset_token token s) [
      | ok user ↦ reset_to dto.new_password user s
      | fail e ↦ (s, fail e)
    ]
    | none ↦ (user_from_otp_code dto >>= reset_to dto.new_password) s
  ]

  unfoldable pub change_password : ℕ → ChangePasswordDto → Action Store Tokens
  change_password user_id dto = do
    throw_if (not (text_eq dto.new_password dto.confirm_password))
        (bad_request "New password and confirmation do not match")
    user ← λ s. found_or (find_by_id_with_password user_id s.users) (bad_request "User not found") s
    hash ←
        found_or user.password_hash (bad_request "Cannot change password for social login accounts")
    throw_if (not (env.compare dto.current_password hash))
        (bad_request "Current password is incorrect")
    throw_if (env.compare dto.new_password hash)
        (bad_request "New password must be different from current password")
    salt ← λ s. (record s { draws = s.draws + 1 }, ok s.draws)
    update_user user.id (λ u. record u { password_hash = some (env.hash dto.new_password salt) })
    λ s. (record s { tokens = revoke_all user.id s.tokens }, ok tt)
    generate_tokens env user no_meta
