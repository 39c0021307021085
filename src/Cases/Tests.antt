-- ===== src/Cases/Tests.antt =====
-- A concrete case and its documents.
use mathlib.Core.List.{List, [], ◌∷◌}
use native.Mathlib.Omega.{arith}
use easyrisparmio_backend.Prelude.{ℕ, ◌≡◌, true, refl, false, none, some}
use easyrisparmio_backend.Cases.{personal, id_card, unreadable, expired, CaseDocument, Store}
use easyrisparmio_backend.Cases.Documents.{
  upload_document, replaced_document, verify_document, reject_document, uploaded, Uploader, Call,
  upload, verify, reject, handle_all,
}
use easyrisparmio_backend.Cases.Documents.Review.{AreReviewed, Refuses, handle_all-AreReviewed}
use easyrisparmio_backend.Cases.Documents.Replacement.{replaced-handle_all-Refuses}
use easyrisparmio_backend.Cases.Text.{trim}
use easyrisparmio_backend.Cases.Columns.{
  Block, supply, residential, city, postal_code, iban, address, same_as_supply, detail, null, flag,
  text, Dto, Columns, normalize, stored, apply_address_fields, apply_contract_detail_fields,
}
use easyrisparmio_backend.Cases.Columns.{column_eq, write_all, set, copy_block, copy_parts}
use easyrisparmio_backend.Cases.Columns.Audit.{Tells, recorded, apply_fields-Tells}
use easyrisparmio_backend.Cases.Columns.Writes.{requested}
use easyrisparmio_backend.Cases.Columns.Coherence.{coherent, apply_address_fields-coherent}
use easyrisparmio_backend.Cases.Columns.PostalCodes.{is_cap}

abbrev customer : Uploader
customer = record { id = 1; role = personal }

abbrev rejected_card : CaseDocument
rejected_card = record {
  id = 5;
  case_id = 3;
  document_type = id_card;
  file_url = 0;
  file_name = 0;
  uploaded_by_id = 1;
  verified = false;
  verified_by_id = none;
  verified_at = none;
  rejected_at = some 900;
  rejected_by_id = some 2;
  rejection_reason = some unreadable;
  rejection_note = none;
  replaces_document_id = none;
}

abbrev store_with : List CaseDocument → Store
store_with documents = record {
  cases = record { id = 3; user_id = 1 } ∷ [];
  documents = documents;
  events = [];
  notices = [];
  now = 1000;
  next_id = 6;
}

abbrev calls : List Call
calls = upload 3 customer id_card 0 0 none ∷ verify 3 6 2 ∷ reject 3 6 2 expired none ∷ []

handle_all-AreReviewed_example : AreReviewed (handle_all calls (store_with []))
handle_all-AreReviewed_example = handle_all-AreReviewed calls (store_with []) tt

replaced-handle_all-Refuses_example :
    let t =
      handle_all calls
        (upload_document 3 customer id_card 0 0 (some 5) (store_with (rejected_card ∷ []))).0 in
    Refuses (verify_document 3 5 2) t × Refuses (reject_document 3 5 2 expired none) t
unfolding upload_document replaced_document
replaced-handle_all-Refuses_example =
    replaced-handle_all-Refuses 3 5 customer id_card 0 0 (store_with (rejected_card ∷ []))
      (uploaded 3 customer id_card 0 0 (some rejected_card) (store_with (rejected_card ∷ [])))
      (record { distinct = (tt, tt); below = (omega arith, tt) }) refl calls 2 expired none

-- An edit that corrects the supply address of a case whose residence is the same.
abbrev moved : Dto
moved (address supply city) = some (text (32 ∷ 82 ∷ 111 ∷ 109 ∷ 97 ∷ []))
moved (address supply postal_code) = some (text (48 ∷ 48 ∷ 49 ∷ []))
moved (detail iban) = some (text (105 ∷ 116 ∷ 32 ∷ 54 ∷ 48 ∷ []))
moved _ = none

abbrev at_home : Columns
at_home (same_as_supply residential) = flag true
at_home _ = null

abbrev plain : ℕ → List ℕ
plain c = c ∷ []

apply_address_fields-coherent_example :
    (apply_address_fields plain moved at_home).0 (address residential city)
    ≡ text (82 ∷ 111 ∷ 109 ∷ 97 ∷ [])
unfolding coherent requested stored normalize trim
apply_address_fields-coherent_example =
    apply_address_fields-coherent plain moved at_home (address residential city)

every_cap : (b : Block) → is_cap (at_home (address b postal_code)) ≡ true
every_cap b = refl

apply_fields-Tells_example :
    Tells at_home (apply_address_fields plain moved at_home)
    × Tells at_home (apply_contract_detail_fields plain moved at_home)
apply_fields-Tells_example = apply_fields-Tells at_home plain moved

-- A residential city sent along with the mark that the residence is the supply address: nothing
-- moves, and the edit still reports a change, from a value that the case never held.
abbrev both : Dto
both (address residential city) = some (text (66 ∷ []))
both _ = none

both_reported :
    recorded (address residential city) (apply_address_fields plain both at_home).1
    ≡ some (record { field = address residential city; old = text (66 ∷ []); new = null })
unfolding apply_address_fields write_all set stored normalize trim copy_block copy_parts column_eq
both_reported = refl
