-- ===== src/Auth/Sessions.antt =====
-- Access and refresh tokens of src/modules/auth/auth.service.ts, and the check of an access token in
-- src/modules/auth/strategies/jwt.strategy.ts. An expiry of n days is n times 24 hours.
pub mod Rotation
use Prim.Native.String.{String}
use text.Mathlib.Text.{◌==◌ as str_eq}
use easyrisparmio_backend.Prelude.{
  ℕ, ◌+◌, ◌*◌, Bool, true, false, not, ◌&&◌, Option, none, some, List, [], ◌∷◌, find?, ltb, ◌==◌,
  if◌then◌else◌,
}
use easyrisparmio_backend.Http.{Action, Result, ok, fail, bad_request, unauthorized, internal}
use easyrisparmio_backend.Auth.{
  User, RefreshToken, Payload, Env, Store, suspended, is_suspended, find_by_id, truthy,
}

pub record Tokens : Type 0 where
  pub access_token : String
  pub refresh_token : ℕ

pub record Meta : Type 0 where
  pub ip_address : Option String
  pub device_info : Option String

abbrev pub no_meta : Meta
no_meta = record { ip_address = none; device_info = none }

abbrev pub invalid_refresh : String
invalid_refresh = "Invalid or expired refresh token"

abbrev pub account_suspended : String
account_suspended = "Your account has been suspended. Please contact support for assistance."

-- The row that a query for an unrevoked token finds, and for one that has not expired either.
abbrev pub is_unrevoked : ℕ → RefreshToken → Bool
is_unrevoked token r = r.token == token && not r.revoked

abbrev pub is_live_token : ℕ → ℕ → RefreshToken → Bool
is_live_token token now r = is_unrevoked token r && ltb now r.expires_at

-- `save` of the row that `findOne` returned, with `revoked` set.
abbrev pub revoke_found : (RefreshToken → Bool) → List RefreshToken → List RefreshToken
revoke_found p [] = []
revoke_found p (r ∷ rs) = elim (p r) [
  | true ↦ record r { revoked = true } ∷ rs
  | false ↦ r ∷ revoke_found p rs
]

-- `update({ userId, revoked: false }, { revoked: true })`.
abbrev pub revoke_all : ℕ → List RefreshToken → List RefreshToken
revoke_all user_id [] = []
revoke_all user_id (r ∷ rs) =
    (if r.user_id == user_id && not r.revoked then record r { revoked = true } else r)
    ∷ revoke_all user_id rs

abbrev pub access_payload : User → Payload
access_payload user = record {
  sub = some user.id;
  email = some user.email;
  role = some user.role;
  purpose = none;
  otp = none;
}

-- `payload.purpose === purpose`.
abbrev pub is_purpose : String → Option String → Bool
is_purpose purpose none = false
is_purpose purpose (some p) = str_eq p purpose

module _ (env : Env) where
  abbrev pub fresh_token : User → Meta → Store → RefreshToken
  fresh_token user meta s = record {
    token = env.random s.draws;
    user_id = user.id;
    expires_at = s.now + env.refresh_days * 86400000;
    revoked = false;
    ip_address = truthy meta.ip_address;
    device_info = truthy meta.device_info;
  }

  unfoldable pub generate_tokens : User → Meta → Action Store Tokens
  generate_tokens user meta s = (
    record s { tokens = fresh_token user meta s ∷ s.tokens; draws = s.draws + 1 },
    ok (record {
      access_token = env.sign (access_payload user) env.access_ttl s.now;
      refresh_token = env.random s.draws;
    }),
  )

  -- The owner of the found row comes by the relation; where it is missing, reading its id throws.
  rotate : ℕ → Meta → Option User → Action Store Tokens
  rotate token meta none s = (s, fail internal)
  rotate token meta (some user) s = (
    record s {
      tokens = fresh_token user meta s ∷ revoke_found (is_live_token token s.now) s.tokens;
      draws = s.draws + 1;
    },
    ok (record {
      access_token = env.sign (access_payload user) env.access_ttl s.now;
      refresh_token = env.random s.draws;
    }),
  )

  unfoldable pub refresh_token : ℕ → Meta → Action Store Tokens
  unfolding rotate
  refresh_token token meta s = elim (find? (is_live_token token s.now) s.tokens) [
    | none ↦ (s, fail (unauthorized invalid_refresh))
    | some existing ↦ rotate token meta (find_by_id existing.user_id s.users) s
  ]

  -- The guard of every authenticated endpoint, given the claims of a token whose signature holds.
  unfoldable pub validate : ℕ → Store → Result User
  validate sub s = elim (find_by_id sub s.users) [
    | none ↦ fail (unauthorized "User not found")
    | some user ↦
        if is_suspended user.status then fail (unauthorized account_suspended) else ok user
  ]

  unfoldable pub generate_verification_token : String → Store → String
  generate_verification_token email s =
      env.sign
        (record {
          sub = none;
          email = some email;
          role = none;
          purpose = some "otp_verification";
          otp = none;
        })
        600000 s.now

  unfoldable pub resolve_email_from_token : String → Store → Result (Option String)
  resolve_email_from_token token s = elim (env.verify token s.now) [
    | none ↦ fail (bad_request "Invalid or expired verification token")
    | some payload ↦
        if is_purpose "otp_verification" payload.purpose
        then ok payload.email
        else fail (bad_request "Invalid verification token")
  ]

unfoldable pub logout : ℕ → Action Store String
logout token s =
    (record s { tokens = revoke_found (is_unrevoked token) s.tokens }, ok "Logged out successfully")
