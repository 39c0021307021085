-- ===== src/Http.antt =====
-- The exceptions that the services throw, and computations that change a store and may throw.
-- An exception keeps what was written before it; a transaction is written out where there is one.
use Prim.Native.String.{String}
use easyrisparmio_backend.Prelude.{◌≡◌, refl, ◌⊎◌, inl, inr, Bool, true, false, Option, none, some}

-- The exception classes of NestJS, with their messages.
pub data HttpError : Type 0 where
  bad_request not_found forbidden conflict unauthorized unavailable : String → HttpError
  -- The 403 whose body carries a verification token beside the message.
  forbidden_with : String → String → HttpError
  -- Any other error, which the framework answers with a 500.
  internal : HttpError

pub data Result {ℓ} (A : Type ℓ) : Type ℓ where
  ok : A → Result A
  fail : HttpError → Result A

pub Result-cases {ℓ} :
    {A : Type ℓ} (r : Result A) → ((a : A) × (r ≡ ok a)) ⊎ ((e : HttpError) × (r ≡ fail e))
Result-cases (ok a) = inl (a, refl)
Result-cases (fail e) = inr (e, refl)

-- A call on a store: the store after it, and its result.
abbrev pub Action : Type 0 → Type 0 → Type 0
Action S A = S → S × Result A

module _ {S : Type 0} where
  abbrev pub return : {A : Type 0} → A → Action S A
  return a s = (s, ok a)

  abbrev pub throw : {A : Type 0} → HttpError → Action S A
  throw e s = (s, fail e)

  infixl 5 ◌>>=◌ ◌>>◌
  abbrev pub ◌>>=◌ : {A B : Type 0} → Action S A → (A → Action S B) → Action S B
  ◌>>=◌ m f s = let r = m s in elim r.1 [ ok a ↦ f a r.0 | fail e ↦ (r.0, fail e) ]

  abbrev pub ◌>>◌ : {A B : Type 0} → Action S A → Action S B → Action S B
  m >> k = m >>= λ _. k

  -- `try { … } catch` that goes on after an error.
  abbrev pub attempt : {A : Type 0} → Action S A → Action S (Option A)
  attempt m s = let r = m s in elim r.1 [ ok a ↦ (r.0, ok (some a)) | fail e ↦ (r.0, ok none) ]

  -- `if (test) throw`.
  abbrev pub throw_if : Bool → HttpError → Action S (Unit {0})
  throw_if true e s = (s, fail e)
  throw_if false e s = (s, ok tt)

  -- `if (!found) throw`.
  abbrev pub found_or : {A : Type 0} → Option A → HttpError → Action S A
  found_or none e s = (s, fail e)
  found_or (some a) e s = (s, ok a)
