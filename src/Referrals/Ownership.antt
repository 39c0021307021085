-- ===== src/Referrals/Ownership.antt =====
-- One active referral per user, whatever requests arrive
-- (src/modules/referrals/referrals.service.ts).
use mathlib.Core.Path.{subst}
use easyrisparmio_backend.Prelude.{
  ℕ, ◌≤◌, ◌≡◌, ◌≢◌, refl, inl, inr, none, some, List, [], ◌∷◌, find?, arith, ◌==◌, Bool-cases,
  Option-cases,
}
use easyrisparmio_backend.Http.{ok}
use easyrisparmio_backend.Referrals.{Referral, Store, find_by_referral_code}
use easyrisparmio_backend.Referrals.Calls.{process_referral_code, is_active_of}
use easyrisparmio_backend.Referrals.Lifecycle.{
  Call, invite_friend, move_to, register_with, expire_stale, wait, handle, handle_all, active_count,
  AreSound, Keeps, update-AreSound,
}
use easyrisparmio_backend.Referrals.Registration.{
  same-AreSound, create_invite-AreSound, expire-AreSound, sign_up-Joins, Joins,
}

none_active :
    (u : ℕ) (rs : List Referral) → find? (is_active_of u) rs ≡ none → active_count u rs ≡ 0
none_active u [] e = refl
none_active u (r ∷ rs) e = elim (Bool-cases (is_active_of u r)) [
  | inl t ↦ absurd (ground arith)
  | inr t ↦ ground (arith, none_active u rs (ground arith))
]

one_active :
    (u : ℕ) (rs : List Referral) (r : Referral)
    → find? (is_active_of u) rs ≡ some r
    → 1 ≤ active_count u rs
one_active u [] r e = absurd (cc)
one_active u (x ∷ xs) r e = elim (Bool-cases (is_active_of u x)) [
  | inl t ↦ ground arith
  | inr t ↦ ground (arith, one_active u xs r (ground arith))
]

Joins-AreSound :
    (user_id : ℕ) (s t : Store)
    → Joins user_id s t
    → find? (is_active_of user_id) s.referrals ≡ none
    → Keeps s t
unfolding Keeps
Joins-AreSound user_id s t j e h = record {
  rows = j.rows h.rows;
  once = λ u.
      let k = j.count h.rows u in
      let o = h.once u in
      let z = none_active user_id s.referrals e in
      elim (Bool-cases (user_id == u)) [
        | inl q ↦
            let same : user_id ≡ u = ground arith in
            let zu = subst (λ n. active_count n s.referrals ≡ 0) same z in ground arith
        | inr q ↦ ground arith
      ];
}

process-AreSound :
    (code : List ℕ) (user_id : ℕ) (email : List ℕ) (s : Store)
    → Keeps s (process_referral_code code user_id email s).0
unfolding Keeps process_referral_code
process-AreSound code user_id email s h =
    elim (Option-cases (find? (is_active_of user_id) s.referrals)) [
      | inr (r, e) ↦ rw (e, process_referral_code) h
      | inl e ↦ elim (Option-cases (find_by_referral_code code s)) [
        | inl f ↦ rw (e, f, process_referral_code) h
        | inr (referrer, f) ↦ elim (Bool-cases (referrer.id == user_id)) [
          | inl g ↦ rw (e, f, g, process_referral_code) h
          | inr g ↦
              rw (e, f, g, process_referral_code)
                (Joins-AreSound user_id s _ (sign_up-Joins referrer.id user_id code email s) e h)
        ]
      ]
    ]

-- A registration with a referral code that succeeds leaves the new user with exactly one active
-- referral and every other user with as many as before, in a store whose rows are sound and that
-- holds at most one active referral per user.
pub process_referral_code-active_count :
    (code : List ℕ) (user_id : ℕ) (email : List ℕ) (s : Store) (u : ℕ)
    → AreSound s
    → u ≢ user_id
    → (process_referral_code code user_id email s).1 ≡ ok tt
    → let t = (process_referral_code code user_id email s).0 in
      (active_count user_id t.referrals ≡ 1)
      × (active_count u t.referrals ≡ active_count u s.referrals)
unfolding process_referral_code
process_referral_code-active_count code user_id email s u h other accepted =
    elim (Option-cases (find? (is_active_of user_id) s.referrals)) [
      | inr (r, e) ↦
          rw (e, process_referral_code)
            (omega (arith, h.once user_id, one_active user_id s.referrals r e), refl)
      | inl e ↦ elim (Option-cases (find_by_referral_code code s)) [
        | inl f ↦ absurd (ground arith)
        | inr (referrer, f) ↦ elim (Bool-cases (referrer.id == user_id)) [
          | inl g ↦ absurd (ground arith)
          | inr g ↦
              let j = sign_up-Joins referrer.id user_id code email s in
              let k = j.count h.rows in
              rw (e, f, g, process_referral_code)
                (ground (arith, k user_id, none_active user_id s.referrals e), ground (arith, k u))
        ]
      ]
    ]

handle-AreSound : (c : Call) (s : Store) → Keeps s (handle c s)
unfolding handle
handle-AreSound (invite_friend random user_id email phone) s =
    create_invite-AreSound random user_id email phone s
handle-AreSound (move_to id status amount) s = update-AreSound id status amount s
handle-AreSound (register_with code user_id email) s = process-AreSound code user_id email s
handle-AreSound expire_stale s = expire-AreSound s
handle-AreSound (wait t) s = same-AreSound s _ refl

-- Invites, status changes, registrations and midnight jobs, in any order and at any times, keep the
-- table sound: a user has at most one referral that is registered, qualified or rewarded, a pending
-- referral is nobody's, and exactly the rewarded ones have an amount and a time of credit.
pub handle_all-AreSound : (cs : List Call) (s : Store) → AreSound s → AreSound (handle_all cs s)
unfolding handle_all Keeps
handle_all-AreSound [] s h = h
handle_all-AreSound (c ∷ cs) s h = handle_all-AreSound cs (handle c s) (handle-AreSound c s h)
