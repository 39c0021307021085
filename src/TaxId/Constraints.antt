-- ===== src/TaxId/Constraints.antt =====
-- The validator constraints of src/common/validators/is-italian-tax-id.validator.ts.
use easyrisparmio_backend.Prelude.{
  ℕ, ◌≡◌, ◌≢◌, ap, refl, sym, ◌∙◌, inl, inr, Bool, true, false, List, [], ◌∷◌, text_eq, arith,
  if◌then◌else◌, Bool-cases, length,
}
use easyrisparmio_backend.TaxId.Luhn.{is_valid_partita_iva-IsLuhn, length_of_IsLuhn}
use easyrisparmio_backend.TaxId.CheckCharacter.{
  is_valid_codice_fiscale-IsCodice, length_of_IsCodice,
}
use easyrisparmio_backend.TaxId.{
  normalize_tax_id, strip_it, is_valid_partita_iva, is_valid_codice_fiscale,
  is_valid_italian_tax_id,
}

-- A value of type `unknown`; `other` stands for every value that is no text and not absent.
pub data Value : Type 0 where
  undefined null other : Value
  text : List ℕ → Value

pub data AccountTaxIdKind : Type 0 where
  codice_fiscale partita_iva : AccountTaxIdKind

unfoldable pub tax_id_kind_for_role : Bool → AccountTaxIdKind
tax_id_kind_for_role is_business = if is_business then partita_iva else codice_fiscale

unfoldable pub is_blank : Value → Bool
is_blank undefined = true
is_blank null = true
is_blank (text []) = true
is_blank (text (_ ∷ _)) = false
is_blank other = false

abbrev pub business : List ℕ
business = b'b' ∷ b'u' ∷ b's' ∷ b'i' ∷ b'n' ∷ b'e' ∷ b's' ∷ b's' ∷ []

-- The argument is the `role` of the object that is validated.
unfoldable pub targets_business : Value → Bool
targets_business (text role) = text_eq role business
targets_business _ = false

module _ (upper_beyond : ℕ → List ℕ) where
  unfoldable pub is_valid_tax_id_for_role : Bool → List ℕ → Bool
  is_valid_tax_id_for_role is_business value =
      if is_business
      then is_valid_partita_iva upper_beyond value
      else is_valid_codice_fiscale upper_beyond value

  -- `typeof value === 'string' && check(value)`.
  abbrev when_text : (List ℕ → Bool) → Value → Bool
  when_text check (text value) = check value
  when_text check _ = false

  unfoldable pub validate_italian_tax_id : Value → Bool
  validate_italian_tax_id value = when_text (is_valid_italian_tax_id upper_beyond) value

  unfoldable pub validate_codice_fiscale : Value → Bool
  validate_codice_fiscale value = when_text (is_valid_codice_fiscale upper_beyond) value

  unfoldable pub validate_partita_iva : Value → Bool
  validate_partita_iva value = when_text (is_valid_partita_iva upper_beyond) value

  unfoldable pub validate_personal_tax_code : Value → Bool
  validate_personal_tax_code value =
      if is_blank value then true else when_text (is_valid_codice_fiscale upper_beyond) value

  unfoldable pub validate_business_tax_id : Value → Value → Bool
  validate_business_tax_id value role =
      if targets_business role
      then when_text (is_valid_partita_iva upper_beyond) value
      else is_blank value

sizes_differ : (cs : List ℕ) → length (strip_it cs) ≡ 11 → length cs ≡ 16 → ⊥
unfolding strip_it
sizes_differ [] h k = omega arith
sizes_differ (c ∷ []) h k = omega arith
sizes_differ (c ∷ d ∷ cs) h k = ground arith

-- What identifies one kind of account never passes for the other.
pub is_valid_tax_id_for_role-exclusive :
    (upper_beyond : ℕ → List ℕ) (value : List ℕ)
    → is_valid_tax_id_for_role upper_beyond true value ≡ true
    → is_valid_tax_id_for_role upper_beyond false value ≡ false
unfolding is_valid_tax_id_for_role
is_valid_tax_id_for_role-exclusive upper_beyond value h =
    elim (Bool-cases (is_valid_codice_fiscale upper_beyond value)) [
      | inr invalid ↦ invalid
      | inl valid ↦ absurd (
          sizes_differ (normalize_tax_id upper_beyond value)
            (length_of_IsLuhn _ (is_valid_partita_iva-IsLuhn upper_beyond value h))
            (length_of_IsCodice _ (is_valid_codice_fiscale-IsCodice upper_beyond value valid)))
    ]

length-blank :
    (upper_beyond : ℕ → List ℕ) (value : List ℕ)
    → is_blank (text value) ≡ true
    → length (normalize_tax_id upper_beyond value) ≡ 0
unfolding is_blank normalize_tax_id
length-blank upper_beyond [] h = refl
length-blank upper_beyond (c ∷ cs) h = absurd (cc)

-- Where an object passes both constraints, gives a personal code, and holds a text for its VAT
-- number, the two are different once normalised, whichever role it has: no text serves an account as
-- both identifiers.
pub tax_ids_differ :
    (upper_beyond : ℕ → List ℕ) (personal company : List ℕ) (role : Value)
    → is_blank (text personal) ≡ false
    → validate_personal_tax_code upper_beyond (text personal) ≡ true
    → validate_business_tax_id upper_beyond (text company) role ≡ true
    → normalize_tax_id upper_beyond personal ≢ normalize_tax_id upper_beyond company
unfolding validate_personal_tax_code validate_business_tax_id
tax_ids_differ upper_beyond personal company role given code vat same =
    let sixteen : length (normalize_tax_id upper_beyond personal) ≡ 16 =
      length_of_IsCodice _
        (is_valid_codice_fiscale-IsCodice upper_beyond personal (rw given at code)) in
    elim (Bool-cases (targets_business role)) [
      | inl business_role ↦
          sizes_differ (normalize_tax_id upper_beyond company)
            (length_of_IsLuhn _
              (is_valid_partita_iva-IsLuhn upper_beyond company (rw business_role at vat)))
            (ap length (sym same) ∙ sixteen)
      | inr other_role ↦
          let none_given : length (normalize_tax_id upper_beyond company) ≡ 0 =
            length-blank upper_beyond company (rw other_role at vat) in
          absurd (omega (arith, sym sixteen ∙ ap length same ∙ none_given))
    ]
