-- ===== src/Cases/Columns.antt =====
-- The writers of a case's addresses and contract details: `applyAddressFields` and
-- `applyContractDetailFields` of src/modules/cases/cases.service.ts, with the names of the columns
-- from src/modules/cases/dto. A column that the code names by a computed text is a constructor with
-- the parts of that text as arguments.
pub mod Writes
pub mod Coherence
pub mod PostalCodes
pub mod Audit
use easyrisparmio_backend.Prelude.{
  ℕ, ◌≡◌, Bool, true, false, Option, none, some, List, [], ◌∷◌, ◌++◌, map, text_eq, if◌then◌else◌,
}
use easyrisparmio_backend.TaxId.{is_space, to_upper_case}
use easyrisparmio_backend.Cases.Text.{
  trim, trimmed, non_empty, normalize_postal_code, normalize_province,
}

pub data Block : Type 0 where
  supply residential shipping : Block

pub data Part : Type 0 where
  street street_number city postal_code province : Part

pub data Detail : Type 0 where
  payment_method invoice_delivery invoice_email iban iban_same_as_contract : Detail
  iban_holder_first_name iban_holder_last_name iban_holder_tax_code : Detail

-- `${block}${field}`, `${block}SameAsSupply`, and the contract fields.
pub data Column : Type 0 where
  address : Block → Part → Column
  same_as_supply : Block → Column
  detail : Detail → Column

unfoldable pub column_eq : Discrete Column
column_eq = hlevel

pub data Value : Type 0 where
  null : Value
  flag : Bool → Value
  text : List ℕ → Value

-- `===`.
abbrev pub same_value : Value → Value → Bool
same_value null null = true
same_value (flag true) (flag true) = true
same_value (flag false) (flag false) = true
same_value (text t) (text u) = text_eq t u
same_value _ _ = false

-- What a request holds for a column: `none` where it is undefined.
abbrev pub Dto : Type 0
Dto = Column → Option Value

abbrev pub Columns : Type 0
Columns = Column → Value

pub record Change : Type 0 where
  pub field : Column
  pub old : Value
  pub new : Value

abbrev pub put : Column → Value → Columns → Columns
put c v cs d = elim (column_eq d c) [ yes e ↦ v | no n ↦ cs d ]

-- `changes[field] = …` of an object: a key that is there keeps its place.
abbrev pub note_change : Change → List Change → List Change
note_change n [] = n ∷ []
note_change n (c ∷ cs) =
    let rest = note_change n cs in
    elim (column_eq n.field c.field) [ yes e ↦ n ∷ cs | no k ↦ c ∷ rest ]

-- A case under edit: its columns, and the changes so far.
abbrev pub Edit : Type 0
Edit = Columns × List Change

unfoldable pub set : Column → Value → Edit → Edit
set field value (cs, changes) = if same_value (cs field) value then (cs, changes) else (
  put field value cs,
  note_change (record { field = field; old = cs field; new = value }) changes,
)

-- A text or null, as a value.
abbrev pub or_null : Option (List ℕ) → Value
or_null none = null
or_null (some t) = text t

-- `normalize` of `applyAddressFields`.
unfoldable pub normalize : Part → Option (List ℕ) → Value
normalize postal_code value = or_null (normalize_postal_code value)
normalize province value = or_null (normalize_province value)
normalize _ value = or_null (trimmed value)

-- `replace(/\s+/g, '')`.
abbrev pub remove_spaces : List ℕ → List ℕ
remove_spaces [] = []
remove_spaces (c ∷ cs) = let rest = remove_spaces cs in if is_space c then rest else c ∷ rest

abbrev pub is_identifier : Detail → Bool
is_identifier iban = true
is_identifier iban_holder_tax_code = true
is_identifier _ = false

module _ (upper_beyond : ℕ → List ℕ) where
  -- What is stored for a value that a request holds. Of an address, a validated request holds a text
  -- or null.
  unfoldable pub stored : Column → Value → Value
  stored (address block part) (text t) = normalize part (some t)
  stored (address block part) _ = normalize part none
  stored (same_as_supply block) v = v
  stored (detail field) (text t) = or_null (
      non_empty
        (if is_identifier field then to_upper_case upper_beyond (remove_spaces t) else trim t))
  stored (detail field) v = v

  abbrev pub write : Dto → Column → Edit → Edit
  write dto c st = elim (dto c) [ none ↦ st | some v ↦ set c (stored c v) st ]

  unfoldable pub write_all : Dto → List Column → Edit → Edit
  write_all dto [] st = st
  write_all dto (c ∷ cs) st = write_all dto cs (write dto c st)

abbrev pub case_address_blocks : List Block
case_address_blocks = supply ∷ residential ∷ shipping ∷ []

abbrev pub case_address_fields : List Part
case_address_fields = street ∷ street_number ∷ city ∷ postal_code ∷ province ∷ []

-- The columns that a round of the first loop reads from the request, in its order.
abbrev pub columns_of : Block → List Column
columns_of supply = map (address supply) case_address_fields
columns_of block = same_as_supply block ∷ map (address block) case_address_fields

abbrev pub case_contract_detail_fields : List Detail
case_contract_detail_fields =
    payment_method ∷ invoice_delivery ∷ invoice_email ∷ iban ∷ iban_same_as_contract
    ∷ iban_holder_first_name ∷ iban_holder_last_name ∷ iban_holder_tax_code ∷ []

abbrev pub is_truthy : Value → Bool
is_truthy null = false
is_truthy (flag b) = b
is_truthy (text []) = false
is_truthy (text (c ∷ cs)) = true

unfoldable pub copy_parts : Block → List Part → Edit → Edit
copy_parts block [] st = st
copy_parts block (p ∷ ps) st =
    copy_parts block ps (set (address block p) (st.0 (address supply p)) st)

-- One round of the second loop.
unfoldable pub copy_block : Block → Edit → Edit
copy_block block st =
    if is_truthy (st.0 (same_as_supply block)) then copy_parts block case_address_fields st else st

module _ (upper_beyond : ℕ → List ℕ) where
  unfoldable pub apply_address_fields : Dto → Columns → Edit
  apply_address_fields dto cs = copy_block shipping (
      copy_block residential (
        write_all upper_beyond dto (columns_of shipping) (
          write_all upper_beyond dto (columns_of residential)
            (write_all upper_beyond dto (columns_of supply) (cs, [])))))

  unfoldable pub apply_contract_detail_fields : Dto → Columns → Edit
  apply_contract_detail_fields dto cs =
      write_all upper_beyond dto (map detail case_contract_detail_fields) (cs, [])
