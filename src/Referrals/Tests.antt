-- ===== src/Referrals/Tests.antt =====
-- Concrete referrals.
use mathlib.Core.List.{List, [], ◌∷◌}
use native.Mathlib.Omega.{arith}
use easyrisparmio_backend.Prelude.{ℕ, ◌≡◌, refl, Option, none, some}
use easyrisparmio_backend.Referrals.{Store, qualified, rewarded, find_by_referral_code}
use easyrisparmio_backend.Referrals.Calls.{process_referral_code}
use easyrisparmio_backend.Referrals.Lifecycle.{
  Call, invite_friend, move_to, register_with, expire_stale, wait, handle_all, active_count,
  AreSound,
}
use easyrisparmio_backend.Referrals.Ownership.{
  handle_all-AreSound, process_referral_code-active_count,
}

abbrev my_code : List ℕ
my_code = 65 ∷ 65 ∷ 65 ∷ 65 ∷ 65 ∷ 65 ∷ 65 ∷ 65 ∷ []

abbrev zeroes : ℕ → ℕ → ℕ
zeroes attempt place = 0

abbrev friend : List ℕ
friend = 102 ∷ 64 ∷ []

-- One user without a code and one with it, and no referral yet.
abbrev store : Option (List ℕ) → Store
store code = record {
  users = record { id = 1; referral_code = code } ∷ record { id = 2; referral_code = none } ∷ [];
  referrals = [];
  notices = [];
  now = 1000;
  next_id = 10;
}

store-AreSound : AreSound (store (some my_code))
store-AreSound = record { rows = tt; once = λ u. omega arith }

abbrev calls : List Call
calls =
    invite_friend zeroes 1 (some friend) none
    ∷ wait 500
    ∷ register_with my_code 2 friend
    ∷ move_to 10 qualified none
    ∷ move_to 10 rewarded (some 2500)
    ∷ expire_stale
    ∷ []

handle_all-AreSound_example : AreSound (handle_all calls (store (some my_code)))
handle_all-AreSound_example = handle_all-AreSound calls (store (some my_code)) store-AreSound

process_referral_code-active_count_example :
    let t = (process_referral_code my_code 2 friend (store (some my_code))).0 in
    (active_count 2 t.referrals ≡ 1) × (active_count 1 t.referrals ≡ 0)
unfolding process_referral_code find_by_referral_code
process_referral_code-active_count_example =
    process_referral_code-active_count my_code 2 friend (store (some my_code)) 1 store-AreSound
      (λ e. omega (arith, e)) refl

abbrev coded : Store
coded = store (some my_code)
