-- ===== src/TaxId/Tests.antt =====
-- Concrete tax identifiers.
use mathlib.Core.List.{List, [], ◌∷◌, ◌++◌}
use Prim.Native.Char.{code}
use Prim.Native.String.{String}
use easyrisparmio_backend.Prelude.{ℕ, ◌≡◌, ◌≢◌, refl, ◌↔◌, true, false}
use easyrisparmio_backend.TaxId.{
  normalize_tax_id, strip_it, is_valid_partita_iva, is_valid_codice_fiscale,
  is_valid_italian_tax_id, partita_iva_pattern, add_up, luhn_term, codice_fiscale_pattern, day_of,
  cin_term, odd_values, even_values,
}
use easyrisparmio_backend.TaxId.Luhn.{is_valid_partita_iva_substitution}
use easyrisparmio_backend.TaxId.Issue.{check_digit, is_valid_partita_iva-check_digit_iff}
use easyrisparmio_backend.TaxId.CheckCharacter.{is_valid_codice_fiscale_substitution}
use easyrisparmio_backend.TaxId.Constraints.{
  text, is_blank, targets_business, validate_personal_tax_code, validate_business_tax_id,
  tax_ids_differ, business,
}

abbrev codes : String → List ℕ
codes String.[] = []
codes (String.◌∷◌ c s) = code c ∷ codes s

abbrev plain : ℕ → List ℕ
plain c = c ∷ []

abbrev rossi : List ℕ
rossi = codes "rss mra 85t10-a562s"

abbrev nine : ℕ
nine = b'9'

abbrev zero : ℕ
zero = b'0'

abbrev company : List ℕ
company = codes "IT12345678903"

rossi_valid : is_valid_codice_fiscale plain rossi ≡ true
unfolding is_valid_codice_fiscale normalize_tax_id codice_fiscale_pattern day_of cin_term add_up
    odd_values even_values
rossi_valid = refl

company_valid : is_valid_partita_iva plain company ≡ true
unfolding is_valid_partita_iva normalize_tax_id partita_iva_pattern strip_it add_up luhn_term
company_valid = refl

swapped_valid : is_valid_partita_iva plain (codes "1234567 8093") ≡ true
unfolding is_valid_partita_iva normalize_tax_id partita_iva_pattern strip_it add_up luhn_term
swapped_valid = refl

wrong_check_digit : is_valid_italian_tax_id plain (codes "12345678901") ≡ false
unfolding is_valid_italian_tax_id is_valid_partita_iva is_valid_codice_fiscale normalize_tax_id
    codice_fiscale_pattern partita_iva_pattern strip_it add_up luhn_term
wrong_check_digit = refl

is_valid_partita_iva_substitution_example : ◌≡◌ {A = ℕ} b'3' b'3'
unfolding normalize_tax_id strip_it
is_valid_partita_iva_substitution_example =
    is_valid_partita_iva_substitution plain company company (codes "12") (codes "45678903") b'3'
      b'3' refl refl company_valid company_valid

is_valid_partita_iva-check_digit_iff_example :
    (is_valid_partita_iva plain (codes "1234567890" ++ b'3' ∷ []) ≡ true)
    ↔ (b'3' ≡ check_digit (codes "1234567890"))
is_valid_partita_iva-check_digit_iff_example =
    is_valid_partita_iva-check_digit_iff plain (codes "1234567890") b'3'
      (refl, (refl, (refl, (refl, (refl, (refl, (refl, (refl, (refl, (refl, tt)))))))))) refl refl

is_valid_codice_fiscale_substitution_example : ◌≡◌ {A = ℕ} b'M' b'M'
unfolding normalize_tax_id
is_valid_codice_fiscale_substitution_example =
    is_valid_codice_fiscale_substitution plain rossi rossi (codes "RSS") (codes "RA85T10A562S") b'M'
      b'M' refl refl rossi_valid rossi_valid

-- A business account that carries its VAT number and its owner's code.
tax_ids_differ_example : normalize_tax_id plain rossi ≢ normalize_tax_id plain company
unfolding validate_personal_tax_code validate_business_tax_id is_blank targets_business
tax_ids_differ_example =
    tax_ids_differ plain rossi company (text business) refl rossi_valid company_valid
