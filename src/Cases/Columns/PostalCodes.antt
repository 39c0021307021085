-- ===== src/Cases/Columns/PostalCodes.antt =====
-- Postal codes and contract details after an edit (src/modules/cases/cases.service.ts).
use easyrisparmio_backend.Prelude.{
  ℕ, ◌≡◌, refl, ◌∙◌, inl, inr, Bool, true, false, Option, none, some, List, [], map, if◌then◌else◌,
  Bool-cases,
}
use easyrisparmio_backend.Cases.Text.{trimmed, keep_cap, normalize_postal_code, postal_code_pattern}
use easyrisparmio_backend.Cases.Columns.{
  Block, supply, residential, shipping, Part, postal_code, Column, address, same_as_supply, detail,
  Detail, column_eq, Value, null, flag, text, or_null, normalize, stored, Dto, Columns, is_truthy,
  case_contract_detail_fields, apply_address_fields, apply_contract_detail_fields, payment_method,
  invoice_delivery, invoice_email, iban, iban_same_as_contract, iban_holder_first_name,
  iban_holder_last_name, iban_holder_tax_code,
}
use easyrisparmio_backend.Cases.Columns.Writes.{mentions, requested, or_stored, write_all-requested}
use easyrisparmio_backend.Cases.Columns.Coherence.{apply_address_fields-coherent, coherent}

-- A CAP is five digits or nothing.
abbrev pub is_cap : Value → Bool
is_cap null = true
is_cap (flag b) = false
is_cap (text t) = postal_code_pattern t

keep_cap-is_cap : (t : Option (List ℕ)) → is_cap (or_null (keep_cap t)) ≡ true
keep_cap-is_cap none = refl
keep_cap-is_cap (some t) = elim (Bool-cases (postal_code_pattern t)) [
  | inl e ↦ rw e e
  | inr e ↦ rw e refl
]

module _ (upper_beyond : ℕ → List ℕ) where
  stored-is_cap :
      (b : Block) (v : Value) → is_cap (stored upper_beyond (address b postal_code) v) ≡ true
  unfolding stored normalize normalize_postal_code
  stored-is_cap b null = keep_cap-is_cap (trimmed none)
  stored-is_cap b (flag f) = keep_cap-is_cap (trimmed none)
  stored-is_cap b (text t) = keep_cap-is_cap (trimmed (some t))

  or_stored-is_cap :
      (b : Block) (o : Option Value) (v : Value)
      → is_cap v ≡ true
      → is_cap (or_stored upper_beyond (address b postal_code) o v) ≡ true
  or_stored-is_cap b none v h = h
  or_stored-is_cap b (some w) v h = stored-is_cap b w

  module _ (dto : Dto) (cs : Columns) where
    abbrev cap_of : Block → Value
    cap_of b = requested upper_beyond dto (address b postal_code) (cs (address b postal_code))

    written-is_cap :
        (b : Block) → is_cap (cs (address b postal_code)) ≡ true → is_cap (cap_of b) ≡ true
    unfolding requested
    written-is_cap b h =
        or_stored-is_cap b (dto (address b postal_code)) (cs (address b postal_code)) h

    either_cap :
        (test : Bool) (v w : Value)
        → is_cap v ≡ true
        → is_cap w ≡ true
        → is_cap (if test then v else w) ≡ true
    either_cap true v w h k = h
    either_cap false v w h k = k

    -- Whatever a request sends, a postal code that is stored on a case is five digits or nothing,
    -- where this held of the case before.
    pub apply_address_fields-is_cap :
        ((b : Block) → is_cap (cs (address b postal_code)) ≡ true)
        → (b : Block)
        → is_cap ((apply_address_fields upper_beyond dto cs).0 (address b postal_code)) ≡ true
    unfolding coherent
    apply_address_fields-is_cap h supply =
        rw (apply_address_fields-coherent upper_beyond dto cs (address supply postal_code))
          (written-is_cap supply (h supply))
    apply_address_fields-is_cap h residential =
        rw (apply_address_fields-coherent upper_beyond dto cs (address residential postal_code)) (
          either_cap
            (is_truthy (
              requested upper_beyond dto (same_as_supply residential)
                (cs (same_as_supply residential))))
            (cap_of supply) (cap_of residential) (written-is_cap supply (h supply))
            (written-is_cap residential (h residential)))
    apply_address_fields-is_cap h shipping =
        rw (apply_address_fields-coherent upper_beyond dto cs (address shipping postal_code)) (
          either_cap
            (is_truthy
              (requested upper_beyond dto (same_as_supply shipping) (cs (same_as_supply shipping))))
            (cap_of supply) (cap_of shipping) (written-is_cap supply (h supply))
            (written-is_cap shipping (h shipping)))

    -- The columns that the other writer reads from the request.
    abbrev detail_columns : List Column
    detail_columns = map detail case_contract_detail_fields

    every_detail : (d : Detail) → mentions (detail d) detail_columns ≡ true
    unfolding column_eq
    every_detail payment_method = refl
    every_detail invoice_delivery = refl
    every_detail invoice_email = refl
    every_detail iban = refl
    every_detail iban_same_as_contract = refl
    every_detail iban_holder_first_name = refl
    every_detail iban_holder_last_name = refl
    every_detail iban_holder_tax_code = refl

    no_address : (b : Block) (p : Part) → mentions (address b p) detail_columns ≡ false
    unfolding column_eq
    no_address b p = refl

    -- The writer of the contract details stores every detail that the request sends in its normal
    -- form and keeps the others, and it leaves all addresses alone.
    pub apply_contract_detail_fields-requested :
        ((d : Detail)
          → (apply_contract_detail_fields upper_beyond dto cs).0 (detail d)
            ≡ requested upper_beyond dto (detail d) (cs (detail d)))
        × ((b : Block) (p : Part)
            → (apply_contract_detail_fields upper_beyond dto cs).0 (address b p) ≡ cs (address b p))
    unfolding apply_contract_detail_fields
    apply_contract_detail_fields-requested = (
      λ d.
          write_all-requested upper_beyond dto detail_columns (cs, []) (detail d)
          ∙ rw (every_detail d) refl,
      λ b p.
          write_all-requested upper_beyond dto detail_columns (cs, []) (address b p)
          ∙ rw (no_address b p) refl,
    )
