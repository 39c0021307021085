-- ===== src/Auth.antt =====
-- src/modules/auth: the rows that the service reads and writes, the libraries and the outside world
-- that it calls, and the finders of src/modules/users/users.service.ts that it uses.
-- A uuid is a number; only equality is used of it. Times are milliseconds.
pub mod Find
pub mod Otp
pub mod Sessions
pub mod Passwords
pub mod SignIn
mod Tests
use Prim.Native.String.{String}
use text.Mathlib.Text.{◌==◌ as str_eq}
use easyrisparmio_backend.Prelude.{
  ℕ, Bool, true, false, ◌&&◌, Option, none, some, List, [], ◌∷◌, map, find?, ◌==◌, if◌then◌else◌,
}
use easyrisparmio_backend.Http.{Action, not_found, fail, ok}

pub data UserStatus : Type 0 where
  active inactive suspended pending_verification : UserStatus

pub data UserRole : Type 0 where
  personal business admin : UserRole

pub data OtpType : Type 0 where
  email_verification phone_verification password_reset : OtpType

pub data AuthProvider : Type 0 where
  local google apple : AuthProvider

abbrev pub same_type : OtpType → OtpType → Bool
same_type email_verification email_verification = true
same_type phone_verification phone_verification = true
same_type password_reset password_reset = true
same_type _ _ = false

abbrev pub is_suspended : UserStatus → Bool
is_suspended suspended = true
is_suspended _ = false

abbrev pub is_pending : UserStatus → Bool
is_pending pending_verification = true
is_pending _ = false

-- A password or a code: the list of its code points.
abbrev pub Text : Type 0
Text = List ℕ

-- The columns of a user that authentication reads or writes.
pub record User : Type 0 where
  pub id : ℕ
  pub email : String
  pub password_hash : Option String
  pub first_name : String
  pub last_name : String
  pub avatar : Option String
  pub auth_provider : AuthProvider
  pub firebase_uid : Option String
  pub role : UserRole
  pub status : UserStatus
  pub email_verified : Bool
  pub phone_verified : Bool
  pub last_login_at : Option ℕ

pub record OtpCode : Type 0 where
  pub id : ℕ
  pub code_hash : String
  pub type : OtpType
  pub expires_at : ℕ
  pub used : Bool
  pub attempts : ℕ
  pub user_id : ℕ
  pub created_at : ℕ

pub record RefreshToken : Type 0 where
  pub token : ℕ
  pub user_id : ℕ
  pub expires_at : ℕ
  pub revoked : Bool
  pub ip_address : Option String
  pub device_info : Option String

-- The claim `otp` of a reset token: a text that passes the test for a uuid, or another.
pub data OtpClaim : Type 0 where
  uuid : ℕ → OtpClaim
  malformed : OtpClaim

-- The claims of the tokens that the service signs; `none` where a token lacks one.
pub record Payload : Type 0 where
  pub sub : Option ℕ
  pub email : Option String
  pub role : Option UserRole
  pub purpose : Option String
  pub otp : Option OtpClaim

-- What the service calls and does not implement. The n-th draw of randomness gives the uuid
-- `random n`, the code `random_code n` below 1,000,000, and the salt of a hash; the mail that goes
-- with it is accepted by the transport if `delivers n`.
pub record Env : Type 0 where
  pub lower : String → String  -- Postgres `LOWER`
  pub trim : String → String
  pub hash : Text → ℕ → String  -- bcrypt
  pub compare : Text → String → Bool
  pub sign : Payload → ℕ → ℕ → String  -- claims, lifetime, time of signing
  pub verify : String → ℕ → Option Payload  -- `none` where the library throws
  pub random : ℕ → ℕ
  pub random_code : ℕ → ℕ
  pub delivers : ℕ → Bool
  pub access_ttl : ℕ
  pub refresh_days : ℕ  -- JWT_REFRESH_EXPIRATION_DAYS

pub record Mail : Type 0 where
  pub to : String
  pub code : Text
  pub type : OtpType

-- The tables (`users` without the soft-deleted rows, which no finder returns), the mails sent, the
-- clock, and the number of draws made.
pub record Store : Type 0 where
  pub users : List User
  pub otps : List OtpCode
  pub tokens : List RefreshToken
  pub mails : List Mail
  pub now : ℕ
  pub draws : ℕ

-- A user as the ordinary finders load it: `passwordHash` is not selected.
abbrev pub without_password : User → User
without_password u = record u { password_hash = none }

abbrev pub hide : Option User → Option User
hide none = none
hide (some u) = some (without_password u)

-- An empty text counts as absent.
abbrev pub truthy : Option String → Option String
truthy none = none
truthy (some t) = if str_eq t "" then none else some t

module _ (env : Env) where
  unfoldable pub find_by_email_with_password : String → List User → Option User
  find_by_email_with_password email users =
      if str_eq email ""
      then none
      else find? (λ u. str_eq (env.lower u.email) (env.lower (env.trim email))) users

  unfoldable pub find_by_email : String → List User → Option User
  find_by_email email users = hide (find_by_email_with_password email users)

unfoldable pub find_by_id_with_password : ℕ → List User → Option User
find_by_id_with_password id users = find? (λ u. u.id == id) users

unfoldable pub find_by_id : ℕ → List User → Option User
find_by_id id users = hide (find_by_id_with_password id users)

abbrev is_uid : String → Option String → Bool
is_uid uid none = false
is_uid uid (some v) = str_eq v uid

unfoldable pub find_by_firebase_uid : String → List User → Option User
find_by_firebase_uid uid users = hide (find? (λ u. is_uid uid u.firebase_uid) users)

-- Writes the columns that a patch sets on the row with this id.
abbrev pub patch_row : ℕ → (User → User) → List User → List User
patch_row id patch [] = []
patch_row id patch (u ∷ us) = (if u.id == id then patch u else u) ∷ patch_row id patch us

-- `UsersService.update`. The hash is not loaded, so it is written only where the patch sets it.
unfoldable pub update_user : ℕ → (User → User) → Action Store User
update_user id patch s = elim (find_by_id id s.users) [
  | none ↦ (s, fail (not_found "User not found"))
  | some u ↦ (record s { users = patch_row id patch s.users }, ok (patch u))
]
