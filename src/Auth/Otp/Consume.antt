-- ===== src/Auth/Otp/Consume.antt =====
-- A code is accepted once, and refused after five wrong guesses (`consumeOtp` of
-- src/modules/auth/auth.service.ts).
use easyrisparmio_backend.Prelude.{
  ℕ, ◌+◌, ◌≤◌, ◌<◌, ◌≡◌, refl, inl, inr, false, Option, some, List, [], ◌∷◌, All, length, arith,
  ◌==◌, Option-cases,
}
use easyrisparmio_backend.Http.{ok, fail, bad_request}
use easyrisparmio_backend.Auth.{Env, Store, User, OtpCode, OtpType, Text}
use easyrisparmio_backend.Auth.Otp.{
  consume_otp, newest, is_live, is_unused, max_otp_attempts, invalid_code, locked_out,
}
use easyrisparmio_backend.Auth.Otp.Rows.{
  unused, unused-mark_le, unused-bump, bump, unused-mark_newest, newest-none, newest-update_rows,
  newest-narrow, newest-test,
}

module _ (env : Env) (user : User) (type : OtpType) where
  -- No guess makes another code live.
  pub unused-consume_le :
      (id : ℕ) (other : OtpType) (code : Text) (s : Store)
      → unused id other (consume_otp env user type code s).0.otps ≤ unused id other s.otps
  unfolding consume_otp
  unused-consume_le id other code s =
      elim (Option-cases (newest (is_live user.id type s.now) s.otps)) [
        | inl e ↦ ground arith
        | inr (r, e) ↦ ground (
          arith,
          unused-mark_le id other (λ o. o.id == r.id) s.otps,
          unused-bump id other (λ o. o.id == r.id) s.otps,
        )
      ]

  consume-unused :
      (code : Text) (s : Store) (o : OtpCode)
      → (consume_otp env user type code s).1 ≡ ok o
      → unused user.id type (consume_otp env user type code s).0.otps < unused user.id type s.otps
  unfolding consume_otp
  consume-unused code s o h = elim (Option-cases (newest (is_live user.id type s.now) s.otps)) [
    | inl e ↦ ground arith
    | inr (r, e) ↦ ground (arith, unused-mark_newest user.id type s.now s.otps r e)
  ]

  consume_without :
      (code : Text) (s : Store)
      → unused user.id type s.otps ≡ 0
      → consume_otp env user type code s ≡ (s, fail (bad_request invalid_code))
  unfolding consume_otp
  consume_without code s h = ground (arith, newest-none user.id type s.now s.otps h)

  -- Guesses made one after the other, each at a time of its own.
  abbrev pub guess_all : List (ℕ × Text) → Store → Store
  guess_all [] s = s
  guess_all ((at, g) ∷ gs) s = guess_all gs (consume_otp env user type g (record s { now = at })).0

  -- The row that guesses are compared with while it lives.
  abbrev pub pending : Store → Option OtpCode
  pending s = newest (is_unused user.id type) s.otps

  pending-live :
      (s : Store) (o : OtpCode)
      → pending s ≡ some o
      → s.now < o.expires_at
      → newest (is_live user.id type s.now) s.otps ≡ some o
  pending-live s o e alive =
      newest-narrow (is_unused user.id type) (is_live user.id type s.now) s.otps o
        (λ x h. ground arith) e
        (let h = newest-test (is_unused user.id type) s.otps o e in ground arith)

  pending-wrong :
      (g : Text) (s : Store) (o : OtpCode)
      → pending s ≡ some o
      → s.now < o.expires_at
      → o.attempts < max_otp_attempts
      → env.compare g o.code_hash ≡ false
      → pending (consume_otp env user type g s).0 ≡ some (bump o)
  unfolding consume_otp
  pending-wrong g s o e alive few wrong = ground (
    arith,
    pending-live s o e alive,
    newest-update_rows (is_unused user.id type) (λ x. x.id == o.id) bump (λ x. refl) (λ x. refl)
        s.otps,
  )

  pending-locked :
      (g : Text) (s : Store) (o : OtpCode)
      → pending s ≡ some o
      → s.now < o.expires_at
      → max_otp_attempts ≤ o.attempts
      → (consume_otp env user type g s).1 ≡ fail (bad_request locked_out)
  unfolding consume_otp
  pending-locked g s o e alive many = ground (arith, pending-live s o e alive)

  -- Five guesses are all that a code allows. After as many wrong guesses at a user's newest unused
  -- code as bring its counter to five, each at any time before the code expires, the next guess
  -- before it expires is refused as one too many, even if it is the right code.
  pub guess_all_locks :
      (gs : List (ℕ × Text)) (s : Store) (o : OtpCode) (g : Text) (later : ℕ)
      → pending s ≡ some o
      → All (λ x. (x.0 < o.expires_at) × (env.compare x.1 o.code_hash ≡ false)) gs
      → o.attempts + length gs ≡ max_otp_attempts
      → later < o.expires_at
      → (consume_otp env user type g (record (guess_all gs s) { now = later })).1
        ≡ fail (bad_request locked_out)
  guess_all_locks [] s o g later e wrong full alive =
      pending-locked g (record s { now = later }) o e alive (omega arith)
  guess_all_locks ((at, x) ∷ xs) s o g later e ((soon, w), ws) full alive =
      let t = record s { now = at } in
      guess_all_locks xs (consume_otp env user type x t).0 (bump o) g later
        (pending-wrong x t o e soon (omega arith) w) ws (omega arith) alive

-- An attempt at a code: whose code, of which type, what is entered, and when.
pub record Attempt : Type 0 where
  pub user : User
  pub type : OtpType
  pub code : Text
  pub at : ℕ

module _ (env : Env) where
  abbrev pub attempt_all : List Attempt → Store → Store
  attempt_all [] s = s
  attempt_all (a ∷ gs) s =
      attempt_all gs (consume_otp env a.user a.type a.code (record s { now = a.at })).0

  unused-attempt_all_le :
      (id : ℕ) (type : OtpType) (gs : List Attempt) (s : Store)
      → unused id type (attempt_all gs s).otps ≤ unused id type s.otps
  unused-attempt_all_le id type [] s = omega arith
  unused-attempt_all_le id type (a ∷ gs) s =
      let t = record s { now = a.at } in
      let one = unused-consume_le env a.user a.type id type a.code t in
      let rest = unused-attempt_all_le id type gs (consume_otp env a.user a.type a.code t).0 in
      omega (arith, one, rest)

  -- A code is accepted at most once. With at most one unused code of this type, as every issue
  -- leaves, once a code was accepted, and whatever codes of whatever users are tried after it while
  -- none is issued, any further code for this user and type is refused, at any time and whatever it
  -- is, and the refusal writes nothing.
  pub consume_once :
      (user : User) (type : OtpType) (code again : Text) (s : Store) (o : OtpCode)
      (gs : List Attempt) (later : ℕ)
      → unused user.id type s.otps ≤ 1
      → (consume_otp env user type code s).1 ≡ ok o
      → let after = record (attempt_all gs (consume_otp env user type code s).0) { now = later } in
        consume_otp env user type again after ≡ (after, fail (bad_request invalid_code))
  consume_once user type code again s o gs later few accepted =
      let left = unused-attempt_all_le user.id type gs (consume_otp env user type code s).0 in
      consume_without env user type again
        (record (attempt_all gs (consume_otp env user type code s).0) { now = later })
        (omega (arith, left, consume-unused env user type code s o accepted))
