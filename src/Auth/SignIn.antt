-- ===== src/Auth/SignIn.antt =====
-- `login` of src/modules/auth/auth.service.ts.
pub mod Gate
use Prim.Native.String.{String}
use easyrisparmio_backend.Prelude.{ℕ, Bool, true, false, Option, none, some, ◌==◌, if◌then◌else◌}
use easyrisparmio_backend.Http.{
  Action, Result, ok, fail, forbidden_with, unauthorized, ◌>>=◌, ◌>>◌, return, attempt,
}
use easyrisparmio_backend.Auth.{
  Text, User, is_suspended, is_pending, email_verification, Env, Store, without_password,
  update_user,
}
use easyrisparmio_backend.Auth.Otp.{generate_and_save_otp, otp_cooldown_remaining}
use easyrisparmio_backend.Auth.Sessions.{
  Tokens, Meta, generate_tokens, generate_verification_token, account_suspended,
}

pub record SignedIn : Type 0 where
  pub user : User
  pub tokens : Tokens

abbrev pub not_verified : String
not_verified = "Your email is not verified. A verification code has been sent to your email."

module _ (env : Env) where
  -- A pending account is sent a code outside its cooldown, and a refused mail changes nothing of
  -- the answer.
  unfoldable pub remind : User → Action Store (Option Text)
  remind user s =
      if otp_cooldown_remaining user.id email_verification s == 0
      then attempt (generate_and_save_otp env user email_verification) s
      else (s, ok none)

  unfoldable pub login : User → Meta → Action Store SignedIn
  login user meta s =
      if is_pending user.status
      then (let reminded = (remind user s).0 in
          (
            reminded,
            fail
                (forbidden_with not_verified (generate_verification_token env user.email reminded)),
          ))
      else if is_suspended user.status
      then (s, fail (unauthorized account_suspended))
      else (do
        update_user user.id (λ u. record u { last_login_at = some s.now })
        tokens ← generate_tokens env user meta
        return (record { user = without_password user; tokens = tokens }))
          s
