-- ===== src/Prelude/Texts.antt =====
-- Texts, each the list of its code points.
use Prim.Native.Nat.{ℕ, ◌+◌, ◌-◌, ◌*◌}
use mathlib.Core.Path.{◌≡◌, refl, ap, subst}
use mathlib.Core.Logic.{◌↔◌}
use mathlib.Core.Bool.{Bool, true, false, ◌&&◌}
use mathlib.Core.List.{List, [], ◌∷◌}
use native.Mathlib.Omega.{arith}
use easyrisparmio_backend.Prelude.Tests.{◌==◌, leb, if◌then◌else◌, &&_true}

-- `===` on two texts, each the list of its code points.
abbrev pub text_eq : List ℕ → List ℕ → Bool
text_eq [] [] = true
text_eq [] (_ ∷ _) = false
text_eq (_ ∷ _) [] = false
text_eq (c ∷ cs) (d ∷ ds) = c == d && text_eq cs ds

pub text_eq_refl : (t : List ℕ) → text_eq t t ≡ true
text_eq_refl [] = refl
text_eq_refl (c ∷ cs) = ground (arith, text_eq_refl cs)

pub text_eq_sound : (t u : List ℕ) → text_eq t u ≡ true → t ≡ u
text_eq_sound [] [] h = refl
text_eq_sound [] (_ ∷ _) h = absurd (cc)
text_eq_sound (_ ∷ _) [] h = absurd (cc)
text_eq_sound (c ∷ cs) (d ∷ ds) h =
    let (p, q) = &&_true (c == d) (text_eq cs ds) h in
    let b : c ≡ d = ground arith in
    subst (λ x. c ∷ cs ≡ x ∷ ds) b (ap (λ xs. c ∷ xs) (text_eq_sound cs ds q))

pub text_eq_iff : (t u : List ℕ) → (text_eq t u ≡ true) ↔ (t ≡ u)
text_eq_iff t u = (text_eq_sound t u, λ e. subst (λ v. text_eq t v ≡ true) e (text_eq_refl t))

abbrev pub is_decimal : ℕ → Bool
is_decimal c = leb 48 c && leb c 57

-- `parseInt(text, 10)` of a text that begins with a digit: up to the first other character.
abbrev pub parse_digits : ℕ → List ℕ → ℕ
parse_digits n [] = n
parse_digits n (c ∷ cs) = if is_decimal c then parse_digits (n * 10 + (c - 48)) cs else n
