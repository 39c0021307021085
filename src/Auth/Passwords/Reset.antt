-- ===== src/Auth/Passwords/Reset.antt =====
-- What a password reset leaves behind (`resetPassword`, `verifyOtp` of
-- src/modules/auth/auth.service.ts).
use Prim.Native.String.{String}
use easyrisparmio_backend.Prelude.{
  ℕ, ◌≡◌, ◌≢◌, refl, ap, ◌∙◌, ◌⊎◌, inl, inr, true, false, none, some, List, [], ◌∷◌, find?, arith,
  ◌==◌, if◌then◌else◌, Option-cases,
}
use easyrisparmio_backend.Http.{Result-cases, ok, fail, bad_request}
use easyrisparmio_backend.Auth.{
  Env, Store, User, RefreshToken, OtpCode, password_reset, Text, Payload, find_by_id,
  find_by_id_with_password, update_user, is_suspended, truthy, is_pending,
}
use easyrisparmio_backend.Auth.Find.{find-id, find-patch_row}
use easyrisparmio_backend.Auth.Otp.{delete_rows, is_of}
use easyrisparmio_backend.Auth.Sessions.{revoke_all}
use easyrisparmio_backend.Auth.Sessions.Rotation.{sessions}
use easyrisparmio_backend.Auth.Passwords.{
  ResetPasswordDto, reset_to, reset_password, activate, user_from_reset_token, is_granted,
  invalid_reset_token, reset_claims,
}

sessions-revoke_all : (id now : ℕ) (rs : List RefreshToken) → sessions id now (revoke_all id rs) ≡ 0
sessions-revoke_all id now [] = refl
sessions-revoke_all id now (r ∷ rs) = ground (arith, sessions-revoke_all id now rs)

sessions-revoke_all_ne :
    (id other now : ℕ) (rs : List RefreshToken)
    → other ≢ id
    → sessions other now (revoke_all id rs) ≡ sessions other now rs
sessions-revoke_all_ne id other now [] h = refl
sessions-revoke_all_ne id other now (r ∷ rs) h =
    ground (arith, sessions-revoke_all_ne id other now rs h)

find-deleted :
    (otp sub : ℕ) (os : List OtpCode)
    → find? (is_granted otp sub) (delete_rows (is_of sub password_reset) os) ≡ none
find-deleted otp sub [] = refl
find-deleted otp sub (o ∷ os) = ground (arith, find-deleted otp sub os)

module _ (env : Env) (password : Text) (user : User) (s : Store) (reply : String) where
  -- A reset that succeeds ends every session of its user and touches no other user's.
  pub sessions-reset_to :
      (id now : ℕ)
      → (reset_to env password user s).1 ≡ ok reply
      → sessions id now (reset_to env password user s).0.tokens
        ≡ (if id == user.id then 0 else sessions id now s.tokens)
  unfolding reset_to update_user
  sessions-reset_to id now h = ground (
    arith,
    sessions-revoke_all user.id now s.tokens,
    sessions-revoke_all_ne user.id id now s.tokens,
  )

  -- A reset that succeeds sets the new password and confirms the address, and the account is
  -- neither pending nor suspended after it.
  pub user-reset_to :
      (reset_to env password user s).1 ≡ ok reply
      → (u : User) × (find_by_id_with_password user.id (reset_to env password user s).0.users
          ≡ some u)
        × (u.password_hash ≡ some (env.hash password s.draws))
        × (u.email_verified ≡ true)
        × (is_pending u.status ≡ false)
        × (is_suspended u.status ≡ false)
  unfolding reset_to update_user find_by_id
  user-reset_to h = elim (Option-cases (find_by_id_with_password user.id s.users)) [
    | inl e ↦ absurd (ground arith)
    | inr (u, e) ↦ (
      record u {
        password_hash = some (env.hash password s.draws);
        email_verified = true;
        status = activate user.status;
      },
      ground (
        arith,
        find-patch_row user.id user.id
            (λ x. record x {
              password_hash = some (env.hash password s.draws);
              email_verified = true;
              status = activate user.status;
            })
            s.users (λ x. refl),
      ),
      refl,
      refl,
      ground arith,
      ground arith,
    )
  ]

reset_to-otps :
    (env : Env) (password : Text) (user : User) (s : Store) (reply : String)
    → (reset_to env password user s).1 ≡ ok reply
    → (reset_to env password user s).0.otps ≡ delete_rows (is_of user.id password_reset) s.otps
unfolding reset_to update_user
reset_to-otps env password user s reply h = ground arith

module _ (env : Env) (token : String) where
  -- The claims by which a reset token was accepted.
  record Accepted (s : Store) (user : User) : Type 0 where
    payload : Payload
    otp : ℕ
    read : env.verify token s.now ≡ some payload
    claims : reset_claims payload ≡ some (user.id, otp)

  accepted :
      (s : Store) (user : User) → user_from_reset_token env token s ≡ ok user → Accepted s user
  unfolding user_from_reset_token
  accepted s user h = elim (Option-cases (env.verify token s.now)) [
    | inl e ↦ absurd (ground arith)
    | inr (payload, e) ↦ elim (Option-cases (reset_claims payload)) [
      | inl c ↦ absurd (ground arith)
      | inr ((sub, otp), c) ↦ elim (Option-cases (find_by_id_with_password sub s.users)) [
        | inl f ↦ absurd (ground arith)
        | inr (u, f) ↦ record {
          payload = payload;
          otp = otp;
          read = e;
          claims = ground (arith, find-id sub s.users u f);
        }
      ]
    ]
  ]

  -- With the rows of the user's reset codes gone, the claims name nothing.
  refused_without :
      (s after : Store) (user : User)
      → Accepted s user
      → (env.verify token after.now ≡ none) ⊎ (env.verify token after.now ≡ env.verify token s.now)
      → after.otps ≡ delete_rows (is_of user.id password_reset) s.otps
      → user_from_reset_token env token after ≡ fail (bad_request invalid_reset_token)
  unfolding user_from_reset_token
  refused_without s after user a stable gone =
      ground (arith, a.read, a.claims, find-deleted a.otp user.id s.otps)

reset_password_refused :
    (env : Env) (dto : ResetPasswordDto) (token : String) (s : Store)
    → truthy dto.reset_token ≡ some token
    → user_from_reset_token env token s ≡ fail (bad_request invalid_reset_token)
    → reset_password env dto s ≡ (s, fail (bad_request invalid_reset_token))
unfolding reset_password
reset_password_refused env dto token s e h = ground arith

module _ (env : Env) (dto again : ResetPasswordDto) (token reply : String) (s : Store)
    (later : ℕ) where
  -- A reset token works once: after a successful reset with it, presenting it again at any time is refused
  -- and writes nothing. Assumed is that the library reads the same claims from one token at all
  -- times, or refuses it.
  pub reset_token_once :
      truthy dto.reset_token ≡ some token
      → truthy again.reset_token ≡ some token
      → (env.verify token later ≡ none) ⊎ (env.verify token later ≡ env.verify token s.now)
      → (reset_password env dto s).1 ≡ ok reply
      → let after = record ((reset_password env dto s).0) { now = later } in
        reset_password env again after ≡ (after, fail (bad_request invalid_reset_token))
  unfolding reset_password
  reset_token_once e e' stable h = elim (Result-cases (user_from_reset_token env token s)) [
    | inr (x, f) ↦ absurd (ground arith)
    | inl (user, f) ↦
        let done : (reset_to env dto.new_password user s).1 ≡ ok reply = ground arith in
        let same : (reset_password env dto s).0 ≡ (reset_to env dto.new_password user s).0 =
          ground arith in
        let after = record ((reset_password env dto s).0) { now = later } in
        reset_password_refused env again token after e' (
          refused_without env token s after user (accepted env token s user f) stable (
            ap (λ (x : Store). x.otps) same ∙ reset_to-otps env dto.new_password user s reply done))
  ]
