-- ===== src/TaxId/Issue.antt =====
-- Plain digits through `isValidPartitaIva`, and the check digit that completes ten of them.
use mathlib.Core.Path.{subst}
use easyrisparmio_backend.Prelude.{
  ℕ, ◌+◌, ◌-◌, ◌%◌, ◌≡◌, refl, ap, ◌↔◌, true, false, List, [], ◌∷◌, ◌++◌, length, length-append,
  replicate, All, arith, ◌==◌,
}
use easyrisparmio_backend.TaxId.{
  is_digit, is_separator, matches, strip_it, partita_iva_pattern, normalize_tax_id, to_upper_case,
  remove_separators, add_up, luhn_term, is_valid_partita_iva,
}
use easyrisparmio_backend.TaxId.Sums.{add_up-append}

digit-no_separator : (c : ℕ) → is_digit c ≡ true → is_separator c ≡ false
unfolding is_separator
digit-no_separator c h = ground arith

abbrev pub IsDigits : List ℕ → Type 0
IsDigits cs = All (λ c. is_digit c ≡ true) cs

remove_separators_digits : (cs : List ℕ) → IsDigits cs → remove_separators cs ≡ cs
unfolding remove_separators
remove_separators_digits [] h = refl
remove_separators_digits (c ∷ cs) (h, hs) =
    rw (digit-no_separator c h) (ap (λ l. c ∷ l) (remove_separators_digits cs hs))

to_upper_case_digits :
    (upper_beyond : ℕ → List ℕ) (cs : List ℕ) → IsDigits cs → to_upper_case upper_beyond cs ≡ cs
unfolding to_upper_case
to_upper_case_digits upper_beyond [] h = refl
to_upper_case_digits upper_beyond (c ∷ cs) (h, hs) =
    ground (arith, to_upper_case_digits upper_beyond cs hs)

strip_it_digits : (cs : List ℕ) → IsDigits cs → strip_it cs ≡ cs
unfolding strip_it
strip_it_digits [] h = refl
strip_it_digits (c ∷ []) h = refl
strip_it_digits (c ∷ d ∷ cs) (h, hs) = ground arith

normalize_digits :
    (upper_beyond : ℕ → List ℕ) (cs : List ℕ) → IsDigits cs → normalize_tax_id upper_beyond cs ≡ cs
unfolding normalize_tax_id
normalize_digits upper_beyond cs h =
    rw (remove_separators_digits cs h) (to_upper_case_digits upper_beyond cs h)

matches_digits : (cs : List ℕ) → IsDigits cs → matches (replicate (length cs) is_digit) cs ≡ true
matches_digits [] h = refl
matches_digits (c ∷ cs) (h, hs) = rw h (matches_digits cs hs)

IsDigits-append : (cs : List ℕ) (d : ℕ) → IsDigits cs → is_digit d ≡ true → IsDigits (cs ++ d ∷ [])
IsDigits-append [] d h k = (k, tt)
IsDigits-append (c ∷ cs) d (h, hs) k = (h, IsDigits-append cs d hs k)

-- The digit that brings the weighted sum of ten digits to a multiple of ten.
unfoldable pub check_digit : List ℕ → ℕ
check_digit cs = b'0' + (10 - add_up luhn_term 0 0 cs % 10) % 10

eleven : (cs : List ℕ) → IsDigits cs → length cs ≡ 11 → matches (replicate 11 is_digit) cs ≡ true
eleven cs h size = subst (λ n. matches (replicate n is_digit) cs ≡ true) size (matches_digits cs h)

-- On eleven plain digits the verdict is that of the weighted sum.
is_valid_partita_iva-digits :
    (upper_beyond : ℕ → List ℕ) (cs : List ℕ)
    → IsDigits cs
    → length cs ≡ 11
    → is_valid_partita_iva upper_beyond cs ≡ (add_up luhn_term 0 0 cs % 10 == 0)
unfolding is_valid_partita_iva partita_iva_pattern
is_valid_partita_iva-digits upper_beyond cs h size =
    rw (normalize_digits upper_beyond cs h, strip_it_digits cs h, eleven cs h size)

add_up_check :
    (cs : List ℕ) (d : ℕ)
    → length cs ≡ 10
    → is_digit d ≡ true
    → add_up luhn_term 0 0 (cs ++ d ∷ []) + b'0' ≡ add_up luhn_term 0 0 cs + d
unfolding luhn_term
add_up_check cs d size h =
    let whole = rw size at (add_up-append luhn_term 0 cs d []) in
    let last : luhn_term (0 + 10) d + b'0' ≡ d = ground arith in
    let end : add_up luhn_term (0 + 10 + 1) 0 [] ≡ 0 = unfold add_up in refl in
    omega (arith, whole, last, end)

-- Ten digits are completed to a valid VAT number by exactly one digit, `check_digit`.
pub is_valid_partita_iva-check_digit_iff :
    (upper_beyond : ℕ → List ℕ) (cs : List ℕ) (d : ℕ)
    → IsDigits cs
    → length cs ≡ 10
    → is_digit d ≡ true
    → (is_valid_partita_iva upper_beyond (cs ++ d ∷ []) ≡ true) ↔ (d ≡ check_digit cs)
unfolding check_digit
is_valid_partita_iva-check_digit_iff upper_beyond cs d h size k =
    rw
      (is_valid_partita_iva-digits upper_beyond (cs ++ d ∷ []) (IsDigits-append cs d h k)
        (omega (arith, size, length-append cs (d ∷ []))))
      (ground (arith, add_up_check cs d size k))
