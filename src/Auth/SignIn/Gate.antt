-- ===== src/Auth/SignIn/Gate.antt =====
-- Who is given a session (`login`, `verifyOtp` of src/modules/auth/auth.service.ts).
use easyrisparmio_backend.Prelude.{
  ℕ, suc, ◌<◌, ◌≡◌, not, ◌&&◌, ◌||◌, some, arith, ◌==◌, if◌then◌else◌,
}
use easyrisparmio_backend.Auth.{
  Env, Store, User, find_by_id, update_user, is_suspended, is_pending, email_verification, OtpType,
}
use easyrisparmio_backend.Auth.Otp.{generate_and_save_otp}
use easyrisparmio_backend.Auth.Sessions.{Meta, generate_tokens}
use easyrisparmio_backend.Auth.Sessions.Rotation.{sessions}
use easyrisparmio_backend.Auth.SignIn.{login, remind}

generate-tokens :
    (env : Env) (user : User) (type : OtpType) (s : Store)
    → (generate_and_save_otp env user type s).0.tokens ≡ s.tokens
unfolding generate_and_save_otp
generate-tokens env user type s = ground arith

module _ (env : Env) (user : User) (meta : Meta) (s : Store) where
  remind-tokens : (remind env user s).0.tokens ≡ s.tokens
  unfolding remind
  remind-tokens = ground (arith, generate-tokens env user email_verification s)

  -- A login with a checked password opens one session, of that user and no other, for an active or
  -- inactive account; a pending or suspended account gets none, and no session of anyone changes.
  -- Assumed are that the user's row is in the table and that tokens have a lifetime.
  pub login-sessions :
      (id : ℕ) (u : User)
      → find_by_id user.id s.users ≡ some u
      → 0 < env.refresh_days
      → sessions id s.now (login env user meta s).0.tokens ≡ (
          if user.id == id && not (is_pending user.status || is_suspended user.status)
          then suc (sessions id s.now s.tokens)
          else sessions id s.now s.tokens)
  unfolding login update_user generate_tokens
  login-sessions id u e days = ground (arith, remind-tokens)
