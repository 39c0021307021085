-- ===== src/Referrals/Invites.antt =====
-- Referral codes and invites (src/modules/referrals/referrals.service.ts).
use mathlib.Core.Path.{subst, ap, ◌∙◌}
use easyrisparmio_backend.Prelude.{
  ℕ, ◌<◌, ◌≡◌, refl, inl, inr, true, Option, none, some, List, [], ◌∷◌, ◌++◌, All, any, find?,
  length, get_elem?, arith, ◌==◌, ◌+◌, suc, zero, Bool-cases, Option-cases, text_eq_refl,
}
use easyrisparmio_backend.Http.{Result-cases, ok}
use easyrisparmio_backend.Referrals.{
  Referral, Referrer, Store, is_referrer, with_code, find_by_referral_code, chars,
}
use easyrisparmio_backend.Referrals.Calls.{
  char_at, draw_code, try_codes, generate_unique_code, ensure_code, invite, existing_invite,
  is_invite, new_invite, create_invite, or_null,
}

-- A code as the service makes them: eight letters and digits of `chars`, and nobody's yet.
abbrev IsOfChars : ℕ → Type 0
IsOfChars c = any (λ x. x == c) chars ≡ true

abbrev pub IsNewCode : List ℕ → Store → Type 0
IsNewCode code s = (find_by_referral_code code s ≡ none) × (length code ≡ 8) × All IsOfChars code

get_elem?-lt :
    (xs : List ℕ) (i : ℕ)
    → i < length xs
    → (c : ℕ) × (get_elem? xs i ≡ some c) × (any (λ x. x == c) xs ≡ true)
get_elem?-lt [] i h = absurd (omega (arith, h))
get_elem?-lt (x ∷ xs) zero h = (x, refl, ground arith)
get_elem?-lt (x ∷ xs) (suc i) h =
    let (c, e, q) = get_elem?-lt xs i (omega (arith, h)) in (c, e, ground arith)

All-append {κ} : (P : ℕ → Type κ) (xs ys : List ℕ) → All P xs → All P ys → All P (xs ++ ys)
All-append P [] ys h k = k
All-append P (x ∷ xs) ys (h, hs) k = (h, All-append P xs ys hs k)

draw_code-IsOfChars :
    (random : ℕ → ℕ)
    → ((place : ℕ) → random place < 32)
    → (left place : ℕ)
    → (length (draw_code random left place) ≡ left) × All IsOfChars (draw_code random left place)
unfolding draw_code
draw_code-IsOfChars random below zero place = (refl, tt)
draw_code-IsOfChars random below (suc left) place =
    let (n, all) = draw_code-IsOfChars random below left (place + 1) in
    let (c, e, q) = get_elem?-lt chars (random place) (below place) in
    rw (e, char_at) (omega (arith, n), (q, all))

module _ (random : ℕ → ℕ → ℕ) (below : (attempt place : ℕ) → random attempt place < 32) where
  try_codes-IsNewCode :
      (left attempt : ℕ) (s : Store) (code : List ℕ)
      → try_codes random left attempt s ≡ ok code
      → IsNewCode code s
  unfolding try_codes
  try_codes-IsNewCode zero attempt s code e = absurd (ground arith)
  try_codes-IsNewCode (suc left) attempt s code e =
      elim (Option-cases (find_by_referral_code (draw_code (random attempt) 8 0) s)) [
        | inl f ↦
            let same : draw_code (random attempt) 8 0 ≡ code = ground arith in
            let (n, all) = draw_code-IsOfChars (random attempt) (below attempt) 8 0 in
            subst (λ c. IsNewCode c s) same (f, n, all)
        | inr (u, f) ↦ try_codes-IsNewCode left (attempt + 1) s code (ground arith)
      ]

  -- A referral code that the service generates is no user's, is eight long, and has only the
  -- letters and digits of the alphabet, where the random source keeps below its bound of 32.
  pub generate_unique_code-IsNewCode :
      (s : Store) (code : List ℕ) → generate_unique_code random s ≡ ok code → IsNewCode code s
  unfolding generate_unique_code
  generate_unique_code-IsNewCode s code e = try_codes-IsNewCode 5 0 s code e

find_referrer-id :
    (id : ℕ) (us : List Referrer) (u : Referrer) → find? (is_referrer id) us ≡ some u → u.id ≡ id
find_referrer-id id [] u e = absurd (cc)
find_referrer-id id (x ∷ xs) u e = elim (Bool-cases (x.id == id)) [
  | inl t ↦ ground arith
  | inr t ↦ find_referrer-id id xs u (ground arith)
]

find-with_code :
    (id : ℕ) (code : List ℕ) (us : List Referrer) (u : Referrer)
    → find? (is_referrer id) us ≡ some u
    → find? (is_referrer id) (with_code id code us) ≡ some (record u { referral_code = some code })
find-with_code id code [] u e = absurd (cc)
find-with_code id code (x ∷ xs) u e = elim (Bool-cases (x.id == id)) [
  | inl t ↦ let same : x ≡ u = ground arith in ground arith
  | inr t ↦ ground (arith, find-with_code id code xs u (ground arith))
]

-- Once a user has a code, it is the one that the next call takes.
ensure_code_again :
    (random : ℕ → ℕ → ℕ) (id : ℕ) (s : Store) (u : Referrer) (code : List ℕ)
    → find? (is_referrer id) s.users ≡ some u
    → (ensure_code random u s).1 ≡ ok code
    → let t = (ensure_code random u s).0 in
      (v : Referrer) × (find? (is_referrer id) t.users ≡ some v) × (v.referral_code ≡ some code)
unfolding ensure_code
ensure_code_again random id s u code e f = elim (Option-cases u.referral_code) [
  | inr (c, g) ↦ (u, ground arith, ground arith)
  | inl g ↦ elim (Result-cases (generate_unique_code random s)) [
    | inr (x, h) ↦ absurd (ground arith)
    | inl (c, h) ↦
        let same : c ≡ code = ground arith in
        let mine = find_referrer-id id s.users u e in
        let found = find-with_code id code s.users u e in
        (record u { referral_code = some code }, ground arith, refl)
  ]
]

invite-users :
    (user_id : ℕ) (code : List ℕ) (email phone : Option (List ℕ)) (s : Store)
    → (invite user_id code email phone s).0.users ≡ s.users
unfolding invite
invite-users user_id code email phone s = elim (Option-cases (existing_invite user_id email s)) [
  | inl e ↦ ground arith
  | inr (r, e) ↦ ground arith
]

invite_again :
    (user_id : ℕ) (code email : List ℕ) (phone other : Option (List ℕ)) (s : Store) (r : Referral)
    → (invite user_id code (some email) phone s).1 ≡ ok r
    → let t = (invite user_id code (some email) phone s).0 in
      invite user_id code (some email) other t ≡ (t, ok r)
unfolding invite
invite_again user_id code email phone other s r e =
    elim (Option-cases (find? (is_invite user_id email) s.referrals)) [
      | inr (x, f) ↦ let same : x ≡ r = ground arith in ground arith
      | inl f ↦
          let hit : is_invite user_id email (new_invite user_id code (some email) phone s) ≡ true =
            ground (arith, text_eq_refl email) in
          ground arith
    ]

create_invite-eq :
    (random : ℕ → ℕ → ℕ) (id : ℕ) (email phone : Option (List ℕ)) (s : Store) (u : Referrer)
    (code : List ℕ)
    → find? (is_referrer id) s.users ≡ some u
    → (ensure_code random u s).1 ≡ ok code
    → create_invite random id email phone s
      ≡ invite id code (or_null email) (or_null phone) (ensure_code random u s).0
unfolding create_invite
create_invite-eq random id email phone s u code e f = rw (e, f, create_invite) refl

ensure_code-known :
    (random : ℕ → ℕ → ℕ) (s : Store) (u : Referrer) (code : List ℕ)
    → u.referral_code ≡ some code
    → ensure_code random u s ≡ (s, ok code)
unfolding ensure_code
ensure_code-known random s u code f = rw (f, ensure_code) refl

-- A user with a code, whose code the call takes as it is.
create_invite-known :
    (random : ℕ → ℕ → ℕ) (id : ℕ) (email phone : Option (List ℕ)) (s : Store) (u : Referrer)
    (code : List ℕ)
    → find? (is_referrer id) s.users ≡ some u
    → u.referral_code ≡ some code
    → create_invite random id email phone s ≡ invite id code (or_null email) (or_null phone) s
create_invite-known random id email phone s u code e f =
    let known = ensure_code-known random s u code f in
    create_invite-eq random id email phone s u code e (ap (λ x. x.1) known)
    ∙ ap (λ x. invite id code (or_null email) (or_null phone) x.0) known

create_invite-ok :
    (random : ℕ → ℕ → ℕ) (id : ℕ) (email phone : Option (List ℕ)) (s : Store) (r : Referral)
    → (create_invite random id email phone s).1 ≡ ok r
    → (u : Referrer) × (code : List ℕ) × (find? (is_referrer id) s.users ≡ some u)
      × ((ensure_code random u s).1 ≡ ok code)
unfolding create_invite
create_invite-ok random id email phone s r h =
    elim (Option-cases (find? (is_referrer id) s.users)) [
      | inl e ↦ absurd (ground arith)
      | inr (u, e) ↦ elim (Result-cases (ensure_code random u s).1) [
        | inr (x, f) ↦ absurd (ground arith)
        | inl (code, f) ↦ (u, code, e, f)
      ]
    ]

-- Inviting the same email twice makes one invite: the second call, whatever code it would draw and
-- whatever telephone number it names, writes nothing and returns the invite of the first one, when
-- that succeeded and the email is not empty.
pub create_invite_twice :
    (random again : ℕ → ℕ → ℕ) (user_id c : ℕ) (cs : List ℕ) (phone other : Option (List ℕ))
    (s : Store) (r : Referral)
    → (create_invite random user_id (some (c ∷ cs)) phone s).1 ≡ ok r
    → let t = (create_invite random user_id (some (c ∷ cs)) phone s).0 in
      create_invite again user_id (some (c ∷ cs)) other t ≡ (t, ok r)
create_invite_twice random again user_id c cs phone other s r h =
    let (u, code, e, f) = create_invite-ok random user_id (some (c ∷ cs)) phone s r h in
    let (v, found, known) = ensure_code_again random user_id s u code e f in
    let same = create_invite-eq random user_id (some (c ∷ cs)) phone s u code e f in
    rw same (
      create_invite-known again user_id (some (c ∷ cs)) other _ v code
        (rw (invite-users user_id code (some (c ∷ cs)) (or_null phone) (ensure_code random u s).0)
          found)
        known
      ∙ invite_again user_id code (c ∷ cs) (or_null phone) (or_null other)
          (ensure_code random u s).0 r (subst (λ x. x.1 ≡ ok r) same h))
