-- ===== src/Referrals/Lifecycle.antt =====
-- Who a referral belongs to over its life (src/modules/referrals/referrals.service.ts): the
-- requests that write referrals, in any order, and what they keep.
use mathlib.Core.Path.{subst, sym}
use easyrisparmio_backend.Prelude.{
  ℕ, ◌≤◌, ◌≡◌, refl, ◌⊎◌, inl, inr, Bool, true, false, not, ◌&&◌, Option, none, some, List, [], ◌∷◌,
  All, find?, arith, ◌+◌, Bool-cases, Option-cases,
}
use easyrisparmio_backend.Referrals.{
  ReferralStatus, pending, registered, qualified, rewarded, expired, Referral, Store, is_status,
  is_valid_transition, is_none, save_found,
}
use easyrisparmio_backend.Referrals.Calls.{
  create_invite, update_status, process_referral_code, expire_stale_referrals, is_referral,
  with_status, is_active_of,
}

-- The requests, and the job of every midnight. Time passes between them.
pub data Call : Type 0 where
  invite_friend : (ℕ → ℕ → ℕ) → (user_id : ℕ) → (email phone : Option (List ℕ)) → Call
  move_to : (id : ℕ) → ReferralStatus → (amount : Option ℕ) → Call
  register_with : (code : List ℕ) → (user_id : ℕ) → (email : List ℕ) → Call
  expire_stale : Call
  wait : (milliseconds : ℕ) → Call

unfoldable pub handle : Call → Store → Store
handle (invite_friend random user_id email phone) s = (create_invite random user_id email phone s).0
handle (move_to id status amount) s = (update_status id status amount s).0
handle (register_with code user_id email) s = (process_referral_code code user_id email s).0
handle expire_stale s = expire_stale_referrals s
handle (wait t) s = record s { now = s.now + t }

unfoldable pub handle_all : List Call → Store → Store
handle_all [] s = s
handle_all (c ∷ cs) s = handle_all cs (handle c s)

-- How many referrals a user has signed up with.
abbrev pub bit : Bool → ℕ
bit true = 1
bit false = 0

abbrev pub active_count : ℕ → List Referral → ℕ
active_count user_id [] = 0
active_count user_id (r ∷ rs) = bit (is_active_of user_id r) + active_count user_id rs

-- A pending referral is nobody's yet; exactly a rewarded one has an amount and a time of credit.
abbrev pub IsSound : Referral → Type 0
IsSound r =
    (r.status ≡ pending → r.referred_user_id ≡ none)
    × (is_none r.reward_amount ≡ not (is_status r.status rewarded))
    × (is_none r.reward_credited_at ≡ not (is_status r.status rewarded))

pub record AreSound (s : Store) : Type 0 where
  pub rows : All IsSound s.referrals
  pub once : (user_id : ℕ) → active_count user_id s.referrals ≤ 1

pub find-All {κ} :
    (P : Referral → Type κ) (p : Referral → Bool) (rs : List Referral) (r : Referral)
    → All P rs
    → find? p rs ≡ some r
    → P r
find-All P p [] r h e = absurd (cc)
find-All P p (x ∷ xs) r (h, hs) e = elim (Bool-cases (p x)) [
  | inl t ↦ let same : x ≡ r = ground arith in subst P same h
  | inr t ↦ find-All P p xs r hs (ground arith)
]

pub find-holds :
    (p : Referral → Bool) (rs : List Referral) (r : Referral) → find? p rs ≡ some r → p r ≡ true
find-holds p [] r e = absurd (cc)
find-holds p (x ∷ xs) r e = elim (Bool-cases (p x)) [
  | inl t ↦ let same : x ≡ r = ground arith in subst (λ y. p y ≡ true) same t
  | inr t ↦ find-holds p xs r (ground arith)
]

pub save_found-All :
    (P : Referral → Type 0) (p : Referral → Bool) (f : Referral → Referral) (rs : List Referral)
    (r : Referral)
    → All P rs
    → find? p rs ≡ some r
    → P (f r)
    → All P (save_found p f rs)
save_found-All P p f [] r h e k = tt
save_found-All P p f (x ∷ xs) r (h, hs) e k = elim (Bool-cases (p x)) [
  | inl t ↦ let same : x ≡ r = ground arith in rw t (subst (λ y. P (f y)) (sym same) k, hs)
  | inr t ↦ rw t (h, save_found-All P p f xs r hs (ground arith) k)
]

pub save_found-count :
    (u : ℕ) (p : Referral → Bool) (f : Referral → Referral) (rs : List Referral) (r : Referral)
    → find? p rs ≡ some r
    → active_count u (save_found p f rs) + bit (is_active_of u r)
      ≡ active_count u rs + bit (is_active_of u (f r))
save_found-count u p f [] r e = absurd (cc)
save_found-count u p f (x ∷ xs) r e = elim (Bool-cases (p x)) [
  | inl t ↦
      let same : x ≡ r = ground arith in
      rw t (
        subst
          (λ y.
            active_count u (f y ∷ xs) + bit (is_active_of u r)
            ≡ active_count u (y ∷ xs) + bit (is_active_of u (f r)))
          (sym same) (omega arith))
  | inr t ↦ rw t (omega (arith, save_found-count u p f xs r (ground arith)))
]

-- What a call keeps.
unfoldable pub Keeps : Store → Store → Type 0
Keeps s t = AreSound s → AreSound t

-- A query that finds a row, and a change that nobody's count notices.
saved-AreSound :
    (p : Referral → Bool) (f : Referral → Referral) (r : Referral) (s t : Store)
    → find? p s.referrals ≡ some r
    → t.referrals ≡ save_found p f s.referrals
    → IsSound (f r)
    → ((u : ℕ) → is_active_of u (f r) ≡ is_active_of u r ⊎ is_active_of u (f r) ≡ false)
    → Keeps s t
unfolding Keeps
saved-AreSound p f r s t found same sound active h = record {
  rows = rw same (save_found-All IsSound p f s.referrals r h.rows found sound);
  once = λ u. rw same (
      let k = save_found-count u p f s.referrals r found in
      let o = h.once u in elim (active u) [ inl e ↦ ground arith | inr e ↦ ground arith ]);
}

-- Where a transition starts, for each status that one leads to.
Source : ReferralStatus → ReferralStatus → Type 0
Source old pending = ⊥
Source old registered = old ≡ pending
Source old qualified = old ≡ registered
Source old rewarded = old ≡ qualified
Source old expired = is_status old rewarded ≡ false

source : (old status : ReferralStatus) → is_valid_transition old status ≡ true → Source old status
unfolding Source is_valid_transition
source pending status v = ground arith
source registered status v = ground arith
source qualified status v = ground arith
source rewarded status v = ground arith
source expired status v = ground arith

-- A row that a transition of the table reached.
with_status-IsSound :
    (status : ReferralStatus) (amount : Option ℕ) (now : ℕ) (r : Referral)
    → IsSound r
    → Source r.status status
    → (is_status status rewarded && is_none amount) ≡ false
    → IsSound (with_status status amount now r)
      × ((u : ℕ)
          → is_active_of u (with_status status amount now r) ≡ is_active_of u r
            ⊎ is_active_of u (with_status status amount now r) ≡ false)
unfolding Source
with_status-IsSound pending amount now r h v a = absurd v
with_status-IsSound registered amount now r (none_yet, paid, credited) v a =
    (((λ e. ground arith), ground arith, ground arith), λ u. inr (ground arith))
with_status-IsSound qualified amount now r (none_yet, paid, credited) v a =
    (((λ e. ground arith), ground arith, ground arith), λ u. inl (ground arith))
with_status-IsSound rewarded amount now r (none_yet, paid, credited) v a =
    (((λ e. ground arith), ground arith, ground arith), λ u. inl (ground arith))
with_status-IsSound expired amount now r (none_yet, paid, credited) v a =
    (((λ e. ground arith), ground arith, ground arith), λ u. inr (ground arith))

pub update-AreSound :
    (id : ℕ) (status : ReferralStatus) (amount : Option ℕ) (s : Store)
    → Keeps s (update_status id status amount s).0
unfolding Keeps update_status
update-AreSound id status amount s h = elim (Option-cases (find? (is_referral id) s.referrals)) [
  | inl e ↦ rw (e, update_status) h
  | inr (r, e) ↦ elim (Bool-cases (is_valid_transition r.status status)) [
    | inr v ↦ rw (e, v, update_status) h
    | inl v ↦ elim (Bool-cases (is_status status rewarded && is_none amount)) [
      | inl a ↦ rw (e, v, a, update_status) h
      | inr a ↦
          let (sound, active) =
            with_status-IsSound status amount s.now r
              (find-All IsSound (is_referral id) s.referrals r h.rows e) (source r.status status v)
              a in
          saved-AreSound (is_referral id) (with_status status amount s.now) r s _ e
            (rw (e, v, a, update_status) refl) sound active h
    ]
  ]
]

-- A new row that is nobody's yet.
pub grown-AreSound :
    (r : Referral) (s t : Store)
    → t.referrals ≡ r ∷ s.referrals
    → IsSound r
    → ((u : ℕ) → is_active_of u r ≡ false)
    → Keeps s t
unfolding Keeps
grown-AreSound r s t grown sound active h = record {
  rows = rw grown (sound, h.rows);
  once = λ u. rw (grown, active u) (omega (arith, h.once u));
}
