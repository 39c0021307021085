-- ===== src/Auth/Sessions/Rotation.antt =====
-- Refresh tokens are used once (`refreshToken`, `logout` of src/modules/auth/auth.service.ts).
use easyrisparmio_backend.Prelude.{
  ℕ, ◌+◌, ◌≤◌, ◌<◌, ◌≡◌, ◌≢◌, refl, inl, inr, not, ◌&&◌, none, some, List, [], ◌∷◌, find?, arith,
  ltb, ◌==◌, if◌then◌else◌, Option-cases,
}
use easyrisparmio_backend.Http.{ok, fail, unauthorized}
use easyrisparmio_backend.Auth.Find.{find_by_id-id}
use easyrisparmio_backend.Auth.{Env, Store, RefreshToken, find_by_id}
use easyrisparmio_backend.Auth.Sessions.{
  Tokens, Meta, refresh_token, logout, is_live_token, is_unrevoked, revoke_found, invalid_refresh,
}

-- How many rows hold a token that was not revoked.
abbrev pub unrevoked : ℕ → List RefreshToken → ℕ
unrevoked token [] = 0
unrevoked token (r ∷ rs) = (if is_unrevoked token r then 1 else 0) + unrevoked token rs

-- How many rows give a user a session: neither revoked nor expired.
abbrev pub sessions : ℕ → ℕ → List RefreshToken → ℕ
sessions user_id now [] = 0
sessions user_id now (r ∷ rs) =
    (if r.user_id == user_id && not r.revoked && ltb now r.expires_at then 1 else 0)
    + sessions user_id now rs

revoke_live :
    (token now : ℕ) (rs : List RefreshToken) (r : RefreshToken)
    → find? (is_live_token token now) rs ≡ some r
    → unrevoked token (revoke_found (is_live_token token now) rs) < unrevoked token rs
revoke_live token now [] r h = absurd (cc)
revoke_live token now (x ∷ rs) r h = ground (arith, revoke_live token now rs r)

revoke_first :
    (token : ℕ) (rs : List RefreshToken)
    → unrevoked token rs ≤ 1
    → unrevoked token (revoke_found (is_unrevoked token) rs) ≡ 0
revoke_first token [] h = refl
revoke_first token (x ∷ rs) h = ground (arith, revoke_first token rs)

find-none :
    (token now : ℕ) (rs : List RefreshToken)
    → unrevoked token rs ≡ 0
    → find? (is_live_token token now) rs ≡ none
find-none token now [] h = refl
find-none token now (x ∷ rs) h = ground (arith, find-none token now rs)

sessions-revoke :
    (id token now : ℕ) (rs : List RefreshToken) (r : RefreshToken)
    → find? (is_live_token token now) rs ≡ some r
    → sessions id now (revoke_found (is_live_token token now) rs)
        + (if r.user_id == id then 1 else 0)
      ≡ sessions id now rs
sessions-revoke id token now [] r h = absurd (cc)
sessions-revoke id token now (x ∷ rs) r h = ground (arith, sessions-revoke id token now rs r)

module _ (env : Env) where
  refresh_without :
      (token : ℕ) (meta : Meta) (s : Store)
      → unrevoked token s.tokens ≡ 0
      → refresh_token env token meta s ≡ (s, fail (unauthorized invalid_refresh))
  unfolding refresh_token
  refresh_without token meta s h = ground (arith, find-none token s.now s.tokens h)

  refresh-unrevoked :
      (token : ℕ) (meta : Meta) (s : Store) (t : Tokens)
      → (refresh_token env token meta s).1 ≡ ok t
      → env.random s.draws ≢ token
      → unrevoked token (refresh_token env token meta s).0.tokens < unrevoked token s.tokens
  unfolding refresh_token
  refresh-unrevoked token meta s t h new =
      elim (Option-cases (find? (is_live_token token s.now) s.tokens)) [
        | inl e ↦ ground arith
        | inr (r, e) ↦ ground (arith, revoke_live token s.now s.tokens r e)
      ]

  -- A refresh token is exchanged once: after a successful exchange, presenting the same token again,
  -- at any later time and from anywhere, is refused and writes nothing. Assumed are that at most one
  -- unrevoked row holds the token and that the new token differs from it.
  pub refresh_once :
      (token : ℕ) (meta other : Meta) (s : Store) (t : Tokens) (later : ℕ)
      → unrevoked token s.tokens ≤ 1
      → env.random s.draws ≢ token
      → (refresh_token env token meta s).1 ≡ ok t
      → let after = record ((refresh_token env token meta s).0) { now = later } in
        refresh_token env token other after ≡ (after, fail (unauthorized invalid_refresh))
  refresh_once token meta other s t later one new h =
      refresh_without token other (record ((refresh_token env token meta s).0) { now = later })
        (omega (arith, refresh-unrevoked token meta s t h new))

  -- After a logout the token is refused at every later time, if at most one unrevoked row held it.
  pub refresh-logout :
      (token : ℕ) (meta : Meta) (s : Store) (later : ℕ)
      → unrevoked token s.tokens ≤ 1
      → let after = record ((logout token s).0) { now = later } in
        refresh_token env token meta after ≡ (after, fail (unauthorized invalid_refresh))
  unfolding logout
  refresh-logout token meta s later one =
      refresh_without token meta (record ((logout token s).0) { now = later })
        (revoke_first token s.tokens one)

  -- An exchange opens no session and closes none: every user has as many live refresh tokens after
  -- it as before. Assumed is that tokens have a lifetime.
  pub refresh-sessions :
      (token : ℕ) (meta : Meta) (s : Store) (t : Tokens) (id : ℕ)
      → (refresh_token env token meta s).1 ≡ ok t
      → 0 < env.refresh_days
      → sessions id s.now (refresh_token env token meta s).0.tokens ≡ sessions id s.now s.tokens
  unfolding refresh_token
  refresh-sessions token meta s t id h days =
      elim (Option-cases (find? (is_live_token token s.now) s.tokens)) [
        | inl e ↦ ground arith
        | inr (r, e) ↦ elim (Option-cases (find_by_id r.user_id s.users)) [
          | inl lost ↦ ground arith
          | inr (u, found) ↦ ground (
            arith,
            sessions-revoke id token s.now s.tokens r e,
            find_by_id-id r.user_id s.users u found,
          )
        ]
      ]
