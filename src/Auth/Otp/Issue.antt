-- ===== src/Auth/Otp/Issue.antt =====
-- What issuing a code leaves behind (`generateAndSaveOtp`, `otpCooldownRemaining` of
-- src/modules/auth/auth.service.ts).
use easyrisparmio_backend.Prelude.{
  ℕ, ◌+◌, ◌≤◌, ◌≡◌, ◌≢◌, refl, ◌↔◌, inl, inr, Bool, true, false, some, List, ◌∷◌, All, arith, ◌==◌,
  Option-cases,
}
use easyrisparmio_backend.Http.{ok, fail, unavailable}
use easyrisparmio_backend.Auth.{Env, Store, User, OtpCode, OtpType, Text}
use easyrisparmio_backend.Auth.Otp.{
  generate_and_save_otp, otp_cooldown_remaining, fresh_otp, newest, is_of, is_unused, is_mailed,
  update_rows, mark_used, mail_failed,
}
use easyrisparmio_backend.Auth.Otp.Rows.{
  map_some, remap, unused, unused-mark_all, unused-delete_le, delete_rows_none, All-mark,
  newest-All, same_type_refl, newest-update_rows,
}

cooldown-mark :
    (type : OtpType) (id : ℕ) (q : OtpCode → Bool) (s : Store) (draws : ℕ)
    → otp_cooldown_remaining id type
        (record s { otps = update_rows q mark_used s.otps; draws = draws })
      ≡ otp_cooldown_remaining id type s
unfolding otp_cooldown_remaining
cooldown-mark type id q s draws = elim (Option-cases (newest (is_of id type) s.otps)) [
  | inl e ↦ ground (arith, marked)
  | inr (r, e) ↦ ground (arith, marked)
]
  where
    marked :
        newest (is_of id type) (update_rows q mark_used s.otps)
        ≡ map_some (remap q mark_used) (newest (is_of id type) s.otps)
    marked = newest-update_rows (is_of id type) q mark_used (λ o. refl) (λ o. refl) s.otps

newest_first :
    (p : OtpCode → Bool) (o : OtpCode) (os : List OtpCode)
    → p o ≡ true
    → All (λ x. x.created_at ≤ o.created_at) os
    → newest p (o ∷ os) ≡ some o
newest_first p o os h past = elim (Option-cases (newest p os)) [
  | inl e ↦ ground arith
  | inr (r, e) ↦ ground (arith, newest-All (λ x. x.created_at ≤ o.created_at) p os r past e)
]

module _ (env : Env) (user : User) (type : OtpType) (s : Store) where
  -- Of a user's codes of one type at most the new one is unused after an issue, whatever the table
  -- held before, and also when the mail was refused.
  pub unused-generate_le : unused user.id type (generate_and_save_otp env user type s).0.otps ≤ 1
  unfolding generate_and_save_otp
  unused-generate_le = ground (
    arith,
    same_type_refl type,
    unused-mark_all user.id type s.otps,
    unused-delete_le user.id type (λ o. o.id == env.random s.draws)
        (update_rows (is_unused user.id type) mark_used s.otps),
  )

  -- For a type of code that is mailed, a refused mail leaves no code behind: the call throws, its row is gone again, and the user may
  -- ask again as soon as before. Assumed is that the row's id was not in use.
  pub generate_refused :
      is_mailed type ≡ true
      → env.delivers s.draws ≡ false
      → All (λ o. o.id ≢ env.random s.draws) s.otps
      → ((generate_and_save_otp env user type s).1 ≡ fail (unavailable mail_failed))
        × ((generate_and_save_otp env user type s).0.otps
            ≡ update_rows (is_unused user.id type) mark_used s.otps)
        × (otp_cooldown_remaining user.id type (generate_and_save_otp env user type s).0
            ≡ otp_cooldown_remaining user.id type s)
  unfolding generate_and_save_otp
  generate_refused mailed refused fresh =
      let gone =
        delete_rows_none (env.random s.draws)
          (update_rows (is_unused user.id type) mark_used s.otps)
          (All-mark (λ o. o.id ≢ env.random s.draws) (is_unused user.id type) s.otps (λ o h. h)
            fresh) in
      (
        ground arith,
        ground (arith, gone),
        ground (arith, gone, cooldown-mark type user.id (is_unused user.id type) s (s.draws + 1)),
      )

  -- The cooldown of an issued code: it lasts sixty seconds to the millisecond. Assumed is that no
  -- row lies in the future.
  pub cooldown-generate_iff :
      (later : ℕ) (code : Text)
      → (generate_and_save_otp env user type s).1 ≡ ok code
      → All (λ o. o.created_at ≤ s.now) s.otps
      → (otp_cooldown_remaining user.id type
            (record ((generate_and_save_otp env user type s).0) { now = s.now + later })
          ≡ 0)
        ↔ (60000 ≤ later)
  unfolding generate_and_save_otp otp_cooldown_remaining
  cooldown-generate_iff later code issued past = ground (
    arith,
    same_type_refl type,
    newest_first (is_of user.id type) (fresh_otp env user type s)
        (update_rows (is_unused user.id type) mark_used s.otps)
        (ground (arith, same_type_refl type))
        (All-mark (λ o. o.created_at ≤ s.now) (is_unused user.id type) s.otps (λ o h. h) past),
  )
