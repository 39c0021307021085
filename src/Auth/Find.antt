-- ===== src/Auth/Find.antt =====
-- What the finders of src/modules/users/users.service.ts return.
use easyrisparmio_backend.Prelude.{
  ℕ, ◌≡◌, refl, inl, inr, none, some, List, [], ◌∷◌, arith, ◌==◌, if◌then◌else◌, Option-cases,
}
use easyrisparmio_backend.Auth.{User, find_by_id, find_by_id_with_password, patch_row}

pub find-id :
    (id : ℕ) (us : List User) (u : User) → find_by_id_with_password id us ≡ some u → u.id ≡ id
unfolding find_by_id_with_password
find-id id [] u h = absurd (cc)
find-id id (x ∷ us) u h = ground (arith, find-id id us u)

pub find_by_id-id : (id : ℕ) (us : List User) (u : User) → find_by_id id us ≡ some u → u.id ≡ id
unfolding find_by_id
find_by_id-id id us u h = elim (Option-cases (find_by_id_with_password id us)) [
  | inl e ↦ absurd (ground arith)
  | inr (v, e) ↦ ground (arith, find-id id us v e)
]

-- A row is found again after a patch that leaves ids alone, with the patch applied.
pub find-patch_row :
    (id other : ℕ) (patch : User → User) (us : List User)
    → ((u : User) → (patch u).id ≡ u.id)
    → find_by_id_with_password other (patch_row id patch us)
      ≡ elim (find_by_id_with_password other us) [
        | none ↦ none
        | some u ↦ some (if other == id then patch u else u)
      ]
unfolding find_by_id_with_password
find-patch_row id other patch [] keep = refl
find-patch_row id other patch (x ∷ us) keep =
    ground (arith, keep x, find-patch_row id other patch us keep)
