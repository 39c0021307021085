-- ===== src/Auth/Tests.antt =====
-- Concrete sign-ins, codes and sessions.
use mathlib.Core.List.{[], ◌∷◌}
use Prim.Native.String.{String}
use text.Mathlib.Text.{◌==◌ as str_eq}
use native.Mathlib.Omega.{arith}
use easyrisparmio_backend.Prelude.{
  List, ℕ, ◌≡◌, ◌≤◌, ◌↔◌, refl, inr, Bool, true, false, Option, none, some, text_eq, ◌==◌, ◌+◌,
  if◌then◌else◌,
}
use easyrisparmio_backend.Http.{fail, bad_request, unauthorized}
use easyrisparmio_backend.Auth.{
  email_verification, Text, User, OtpCode, OtpType, password_reset, RefreshToken, Payload, uuid,
  Env, Store, local, personal, active, find_by_id, find_by_id_with_password, update_user,
}
use easyrisparmio_backend.Auth.Otp.{
  generate_and_save_otp, otp_cooldown_remaining, consume_otp, invalid_code, locked_out, code_of,
}
use easyrisparmio_backend.Auth.Otp.Issue.{cooldown-generate_iff}
use easyrisparmio_backend.Auth.Otp.Consume.{Attempt, consume_once, guess_all_locks, guess_all}
use easyrisparmio_backend.Auth.Sessions.{
  Tokens, no_meta, refresh_token, logout, invalid_refresh, fresh_token,
}
use easyrisparmio_backend.Auth.Sessions.Rotation.{sessions, refresh_once, refresh-logout}
use easyrisparmio_backend.Auth.Passwords.{
  ResetPasswordDto, ResendOtpDto, reset_to, reset_password, user_from_reset_token, reset_claims,
  forgot_password, invalid_reset_token,
}
use easyrisparmio_backend.Auth.Passwords.Reset.{sessions-reset_to, reset_token_once}
use easyrisparmio_backend.Auth.Passwords.Replies.{forgot_password-uniform}

abbrev code : Text
code = 49 ∷ 50 ∷ 51 ∷ 52 ∷ 53 ∷ 54 ∷ []

abbrev wrong : Text
wrong = 48 ∷ 48 ∷ 48 ∷ 48 ∷ 48 ∷ 48 ∷ []

abbrev secret : Text
secret = 115 ∷ 51 ∷ []

abbrev hash : Text → String
hash t = if text_eq t code then "h(code)" else if text_eq t secret then "h(secret)" else "h(other)"

abbrev reset_payload : Payload
reset_payload = record {
  sub = some 1;
  email = none;
  role = none;
  purpose = some "password_reset";
  otp = some (uuid 7);
}

abbrev verify : String → Option Payload
verify token = if str_eq token "reset" then some reset_payload else none

abbrev env_with : Bool → Env
env_with delivers = record {
  lower = λ t. t;
  trim = λ t. t;
  hash = λ t salt. hash t;
  compare = λ t h. str_eq (hash t) h;
  sign = λ payload ttl now. "signed";
  verify = λ token now. verify token;
  random = λ n. n + 100;
  random_code = λ n. 123456;
  delivers = λ n. delivers;
  access_ttl = 900000;
  refresh_days = 30;
}

abbrev env : Env
env = env_with true

abbrev alice : User
alice = record {
  id = 1;
  email = "alice@example.it";
  password_hash = some "h(secret)";
  first_name = "Alice";
  last_name = "Rossi";
  avatar = none;
  auth_provider = local;
  firebase_uid = none;
  role = personal;
  status = active;
  email_verified = true;
  phone_verified = false;
  last_login_at = none;
}

abbrev otp : OtpType → Bool → OtpCode
otp type used = record {
  id = 7;
  code_hash = "h(code)";
  type = type;
  expires_at = 700000;
  used = used;
  attempts = 0;
  user_id = 1;
  created_at = 100000;
}

abbrev session : RefreshToken
session = record {
  token = 55;
  user_id = 1;
  expires_at = 90000000;
  revoked = false;
  ip_address = none;
  device_info = none;
}

abbrev store : Bool → Store
store used = record {
  users = alice ∷ [];
  otps = otp password_reset used ∷ [];
  tokens = session ∷ [];
  mails = [];
  now = 200000;
  draws = 0;
}

cooldown-generate_iff_example :
    (otp_cooldown_remaining 1 password_reset
        (record ((generate_and_save_otp env alice password_reset (store false)).0) {
          now = 200000 + 60000;
        })
      ≡ 0)
    ↔ (60000 ≤ 60000)
unfolding generate_and_save_otp code_of
cooldown-generate_iff_example =
    cooldown-generate_iff env alice password_reset (store false) 60000 code refl (omega arith, tt)

abbrev consumed : ℕ → Store
consumed later = record (store true) { now = later }

-- The code again, and a code of another type, tried in between.
abbrev attempts : List Attempt
attempts =
    record { user = alice; type = password_reset; code = code; at = 200001 }
    ∷ record { user = alice; type = email_verification; code = wrong; at = 200002 }
    ∷ []

consume_once_example :
    consume_otp env alice password_reset code (consumed 200003)
    ≡ (consumed 200003, fail (bad_request invalid_code))
unfolding consume_otp
consume_once_example =
    consume_once env alice password_reset code code (store false) (otp password_reset true) attempts
      200003 (omega arith) refl

-- Wrong guesses, a second apart.
abbrev guesses : List (ℕ × Text)
guesses =
    (200000, wrong) ∷ (201000, wrong) ∷ (202000, wrong) ∷ (203000, wrong) ∷ (204000, wrong) ∷ []

guess_all_locks_example :
    (consume_otp env alice password_reset code
      (record (guess_all env alice password_reset guesses (store false)) { now = 205000 })).1
    ≡ fail (bad_request locked_out)
guess_all_locks_example =
    guess_all_locks env alice password_reset guesses (store false) (otp password_reset false) code
      205000 refl
      (
        (omega arith, refl),
        (
          (omega arith, refl),
          ((omega arith, refl), ((omega arith, refl), ((omega arith, refl), tt))),
        ),
      )
      refl (omega arith)

abbrev issued : Tokens
issued = record { access_token = "signed"; refresh_token = 100 }

abbrev refreshed : ℕ → Store
refreshed later = record (store true) {
  tokens = fresh_token env alice no_meta (store true) ∷ record session { revoked = true } ∷ [];
  draws = 1;
  now = later;
}

refresh_once_example :
    refresh_token env 55 no_meta (refreshed 200005)
    ≡ (refreshed 200005, fail (unauthorized invalid_refresh))
unfolding refresh_token find_by_id find_by_id_with_password
refresh_once_example =
    refresh_once env 55 no_meta no_meta (store true) issued 200005 (omega arith)
      (λ e. omega (arith, e)) refl

abbrev logged_out : Store
logged_out = record (store true) { tokens = record session { revoked = true } ∷ [] }

refresh-logout_example :
    refresh_token env 55 no_meta logged_out ≡ (logged_out, fail (unauthorized invalid_refresh))
unfolding logout
refresh-logout_example = refresh-logout env 55 no_meta (store true) 200000 (omega arith)

abbrev reset_reply : String
reset_reply = "Password reset successfully"

sessions-reset_to_example :
    sessions 1 200000 (reset_to env wrong alice (store true)).0.tokens
    ≡ (if 1 == 1 then 0 else sessions 1 200000 (store true).tokens)
unfolding reset_to update_user find_by_id find_by_id_with_password
sessions-reset_to_example = sessions-reset_to env wrong alice (store true) reset_reply 1 200000 refl

abbrev reset_dto : ResetPasswordDto
reset_dto = record { reset_token = some "reset"; email = none; code = none; new_password = wrong }

reset_token_once_example :
    let after = record ((reset_password env reset_dto (store true)).0) { now = 200005 } in
    reset_password env reset_dto after ≡ (after, fail (bad_request invalid_reset_token))
unfolding reset_password reset_to update_user find_by_id find_by_id_with_password
    user_from_reset_token reset_claims
reset_token_once_example =
    reset_token_once env reset_dto reset_dto "reset" reset_reply (store true) 200005 refl refl
      (inr refl) refl

forgot_password-uniform_example :
    (forgot_password env "alice@example.it" (store true)).1
    ≡ (forgot_password env "alice@example.it" (record (store true) { users = [] })).1
forgot_password-uniform_example = forgot_password-uniform env (store true) "alice@example.it" refl

abbrev resend_dto : ResendOtpDto
resend_dto = record {
  email = some "alice@example.it";
  verification_token = none;
  type = password_reset;
}
