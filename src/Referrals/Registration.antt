-- ===== src/Referrals/Registration.antt =====
-- Sign-ups through a referral code, and what every request keeps
-- (src/modules/referrals/referrals.service.ts).

use easyrisparmio_backend.Prelude.{
  ℕ, ◌≡◌, refl, inl, inr, Bool, true, Option, some, List, [], ◌∷◌, All, find?, arith, ◌==◌, ◌+◌,
  Bool-cases, Option-cases,
}
use easyrisparmio_backend.Http.{Result-cases}
use easyrisparmio_backend.Referrals.{
  is_referrer, pending, Referral, Store, Referrer, is_status, is_none,
}
use easyrisparmio_backend.Referrals.Calls.{
  create_invite, ensure_code, invite, existing_invite, or_null, new_invite, expire_stale_referrals,
  expire_rows, is_stale, sign_up, signed_up, claimed, claim_or_insert, is_targeted, is_generic,
  generate_unique_code,
}
use easyrisparmio_backend.Referrals.Lifecycle.{
  bit, active_count, IsSound, find-All, find-holds, save_found-All, save_found-count, Keeps,
  grown-AreSound,
}

invite-AreSound :
    (user_id : ℕ) (code : List ℕ) (email phone : Option (List ℕ)) (s : Store)
    → Keeps s (invite user_id code email phone s).0
unfolding invite Keeps
invite-AreSound user_id code email phone s h =
    elim (Option-cases (existing_invite user_id email s)) [
      | inr (r, e) ↦ rw (e, invite) h
      | inl e ↦
          grown-AreSound (new_invite user_id code email phone s) s _ (rw (e, invite) refl)
            ((λ e. refl), refl, refl) (λ u. refl) h
    ]

ensure_code-referrals :
    (random : ℕ → ℕ → ℕ) (user : Referrer) (s : Store)
    → (ensure_code random user s).0.referrals ≡ s.referrals
unfolding ensure_code
ensure_code-referrals random user s = elim (Option-cases user.referral_code) [
  | inr (c, e) ↦ rw (e, ensure_code) refl
  | inl e ↦ elim (Result-cases (generate_unique_code random s)) [
    | inl (c, f) ↦ rw (e, f, ensure_code) refl
    | inr (x, f) ↦ rw (e, f, ensure_code) refl
  ]
]

-- Only the referrals matter.
pub same-AreSound : (s t : Store) → t.referrals ≡ s.referrals → Keeps s t
unfolding Keeps
same-AreSound s t e h = record { rows = rw e h.rows; once = λ u. rw e (h.once u) }

pub create_invite-AreSound :
    (random : ℕ → ℕ → ℕ) (user_id : ℕ) (email phone : Option (List ℕ)) (s : Store)
    → Keeps s (create_invite random user_id email phone s).0
unfolding create_invite Keeps
create_invite-AreSound random user_id email phone s h =
    elim (Option-cases (find? (is_referrer user_id) s.users)) [
      | inl e ↦ rw (e, create_invite) h
      | inr (user, e) ↦
          let kept = same-AreSound s _ (ensure_code-referrals random user s) h in
          elim (Result-cases (ensure_code random user s).1) [
            | inr (x, f) ↦ rw (e, f, create_invite) kept
            | inl (code, f) ↦
                rw (e, f, create_invite)
                  (invite-AreSound user_id code (or_null email) (or_null phone) _ kept)
          ]
    ]

expire_rows-All : (now : ℕ) (rs : List Referral) → All IsSound rs → All IsSound (expire_rows now rs)
expire_rows-All now [] h = tt
expire_rows-All now (r ∷ rs) (h, hs) = elim (Bool-cases (is_stale now r)) [
  | inr e ↦ rw e (h, expire_rows-All now rs hs)
  | inl e ↦
      let (unclaimed, paid, credited) = h in
      rw e (((λ q. ground arith), ground arith, ground arith), expire_rows-All now rs hs)
]

expire_rows-count :
    (u now : ℕ) (rs : List Referral) → active_count u (expire_rows now rs) ≡ active_count u rs
expire_rows-count u now [] = refl
expire_rows-count u now (r ∷ rs) = elim (Bool-cases (is_stale now r)) [
  | inr e ↦ rw e (omega (arith, expire_rows-count u now rs))
  | inl e ↦ rw e (ground (arith, expire_rows-count u now rs))
]

pub expire-AreSound : (s : Store) → Keeps s (expire_stale_referrals s)
unfolding Keeps expire_stale_referrals
expire-AreSound s h = record {
  rows = expire_rows-All s.now s.referrals h.rows;
  once = λ u. rw (expire_rows-count u s.now s.referrals) (h.once u);
}

-- What a sign-up does to the table: the user has one more active referral, everyone else as many.
pub record Joins (user_id : ℕ) (s t : Store) : Type 0 where
  pub rows : All IsSound s.referrals → All IsSound t.referrals
  pub count :
      All IsSound s.referrals
      → (u : ℕ) → active_count u t.referrals ≡ active_count u s.referrals + bit (user_id == u)

claim-Joins :
    (p : Referral → Bool) (r : Referral) (referrer_id user_id : ℕ) (code email : List ℕ) (s : Store)
    → find? p s.referrals ≡ some r
    → is_status r.status pending ≡ true
    → Joins user_id s (claim_or_insert p r referrer_id user_id code email s)
claim-Joins p r referrer_id user_id code email s e is_pending =
    elim (Bool-cases (is_none r.referred_user_id)) [
      | inr t ↦ rw t (record {
        rows = λ h. (((λ q. ground arith), refl, refl), h);
        count = λ h u. ground arith;
      })
      | inl t ↦ rw t (record {
        rows = λ h.
            let (unclaimed, paid, credited) = find-All IsSound p s.referrals r h e in
            save_found-All IsSound p (claimed user_id email) s.referrals r h e
              ((λ q. ground arith), ground arith, ground arith);
        count = λ h u.
            let k = save_found-count u p (claimed user_id email) s.referrals r e in ground arith;
      })
    ]

insert-Joins :
    (referrer_id user_id : ℕ) (code email : List ℕ) (s t : Store)
    → t.referrals ≡ signed_up referrer_id code user_id email s ∷ s.referrals
    → Joins user_id s t
insert-Joins referrer_id user_id code email s t e = record {
  rows = λ h. rw e (((λ q. ground arith), refl, refl), h);
  count = λ h u. rw e (ground arith);
}

pub sign_up-Joins :
    (referrer_id user_id : ℕ) (code email : List ℕ) (s : Store)
    → Joins user_id s (sign_up referrer_id user_id code email s)
unfolding sign_up
sign_up-Joins referrer_id user_id code email s =
    elim (Option-cases (find? (is_targeted code email s.now) s.referrals)) [
      | inr (r, e) ↦
          let q = find-holds (is_targeted code email s.now) s.referrals r e in
          rw (e, sign_up)
            (claim-Joins (is_targeted code email s.now) r referrer_id user_id code email s e
              (ground arith))
      | inl e ↦ elim (Option-cases (find? (is_generic code s.now) s.referrals)) [
        | inr (r, f) ↦
            let q = find-holds (is_generic code s.now) s.referrals r f in
            rw (e, f, sign_up)
              (claim-Joins (is_generic code s.now) r referrer_id user_id code email s f
                (ground arith))
        | inl f ↦ rw (e, f, sign_up) (insert-Joins referrer_id user_id code email s _ refl)
      ]
    ]
