-- ===== src/Auth/Passwords/Replies.antt =====
-- The replies that must not tell whether an address has an account (`forgotPassword`, `resendOtp`,
-- `verifyOtp` of src/modules/auth/auth.service.ts).
use Prim.Native.String.{String}
use easyrisparmio_backend.Prelude.{
  ◌≡◌, refl, sym, ap, ◌∙◌, inl, inr, true, Option, none, some, List, [], arith, if◌then◌else◌,
}
use easyrisparmio_backend.Http.{Result-cases, Result, ok, fail, bad_request}
use easyrisparmio_backend.Auth.{
  same_type, Env, Store, User, OtpType, phone_verification, password_reset, find_by_email,
}
use easyrisparmio_backend.Auth.Otp.{code_of, generate_and_save_otp}
use easyrisparmio_backend.Auth.Sessions.{resolve_email_from_token}
use easyrisparmio_backend.Auth.Passwords.{
  forgot_password, forgot_for, resend_otp, resend_to, send_unless_cooling, requested_email,
  reachable, forgot_password_reply, resend_otp_reply, ResendOtpDto,
}

generate_delivered :
    (env : Env) (user : User) (type : OtpType) (s : Store)
    → env.delivers s.draws ≡ true
    → (generate_and_save_otp env user type s).1 ≡ ok (code_of (env.random_code s.draws))
unfolding generate_and_save_otp
generate_delivered env user type s h = ground arith

cooling-reply :
    (env : Env) (user : User) (type : OtpType) (reply : String) (s : Store)
    → env.delivers s.draws ≡ true
    → (send_unless_cooling env user type reply s).1 ≡ ok reply
unfolding send_unless_cooling
cooling-reply env user type reply s h = ground (arith, generate_delivered env user type s h)

forgot-reply :
    (env : Env) (o : Option User) (s : Store)
    → env.delivers s.draws ≡ true
    → (forgot_for env o s).1 ≡ ok forgot_password_reply
unfolding forgot_for
forgot-reply env none s h = refl
forgot-reply env (some user) s h = cooling-reply env user password_reset forgot_password_reply s h

resend-reply :
    (env : Env) (type : OtpType) (o : Option User) (s : Store)
    → env.delivers s.draws ≡ true
    → (resend_to env type o s).1 ≡ ok resend_otp_reply
unfolding resend_to
resend-reply env type none s h = refl
resend-reply env type (some user) s h =
    ground (arith, cooling-reply env user type resend_otp_reply s h)

-- The address that a request names is read without the table of users.
requested-store :
    (env : Env) (token email : Option String) (s : Store) (users : List User)
    → (requested_email env token email (record s { users = users })).1
      ≡ (requested_email env token email s).1
unfolding requested_email resolve_email_from_token
requested-store env token email s users = ground arith

requested-same :
    (env : Env) (token email : Option String) (s : Store)
    → (requested_email env token email s).0 ≡ s
unfolding requested_email
requested-same env token email s = ground arith

abbrev answer : ResendOtpDto → Result String → Result String
answer dto r =
    if same_type dto.type phone_verification
    then fail (bad_request "Phone verification OTP cannot be resent via this endpoint")
    else elim r [ ok email ↦ ok resend_otp_reply | fail e ↦ fail e ]

resend-answer :
    (env : Env) (dto : ResendOtpDto) (s : Store)
    → env.delivers s.draws ≡ true
    → (resend_otp env dto s).1
      ≡ answer dto (requested_email env dto.verification_token dto.email s).1
unfolding resend_otp
resend-answer env dto s h =
    elim (Result-cases (requested_email env dto.verification_token dto.email s).1) [
      | inl (email, e) ↦ ground (
        arith,
        requested-same env dto.verification_token dto.email s,
        resend-reply env dto.type (reachable (find_by_email env email s.users)) s h,
      )
      | inr (x, e) ↦ ground arith
    ]

module _ (env : Env) (s : Store) where
  -- While the mail transport accepts messages, a request to reset a password is answered the same
  -- way as it would be with no user at all, so the answer does not tell whether the address has an
  -- account.
  pub forgot_password-uniform :
      (email : String)
      → env.delivers s.draws ≡ true
      → (forgot_password env email s).1 ≡ (forgot_password env email (record s { users = [] })).1
  unfolding forgot_password
  forgot_password-uniform email h =
      forgot-reply env (reachable (find_by_email env email s.users)) s h
      ∙ sym (forgot-reply env (reachable (find_by_email env email [])) (record s { users = [] }) h)

  -- While the mail transport accepts messages, a request to send a code again is answered as it
  -- would be with no user at all.
  pub resend_otp-uniform :
      (dto : ResendOtpDto)
      → env.delivers s.draws ≡ true
      → (resend_otp env dto s).1 ≡ (resend_otp env dto (record s { users = [] })).1
  resend_otp-uniform dto h =
      resend-answer env dto s h
      ∙ ap (λ r. answer dto r) (sym (requested-store env dto.verification_token dto.email s []))
      ∙ sym (resend-answer env dto (record s { users = [] }) h)
