-- ===== src/Pipeline/Journey.antt =====
-- Sequences of valid status changes of src/common/utils/bill-status-transitions.ts.
use easyrisparmio_backend.Prelude.{
  ◌≡◌, refl, ◌⊎◌, inl, inr, Bool, true, false, arith, ◌↔◌, Bool-cases,
}
use mathlib.Core.Bool.{false≢true}
use easyrisparmio_backend.Pipeline.{
  BillStatus, pending_email, uploaded, analyzing, analyzed, error, verification_review,
  verification_required, verified, offer_sent, offer_accepted, contract_sent, awaiting_activation,
  activated, cancelled, is_valid_transition,
}

infix 40 ◌⟶*◌
-- A sequence of changes that the table recommends. Administrators are not bound to the table.
pub data ◌⟶*◌ : BillStatus → BillStatus → Type 0 where
  here : {s : BillStatus} → s ⟶* s
  step : {s t u : BillStatus} → is_valid_transition s t ≡ true → t ⟶* u → s ⟶* u

last_steps : awaiting_activation ⟶* activated
unfolding is_valid_transition
last_steps = step refl here

accepted : offer_accepted ⟶* activated
unfolding is_valid_transition
accepted = step {t = contract_sent} refl (step {t = awaiting_activation} refl last_steps)

sale : verified ⟶* activated
unfolding is_valid_transition
sale = step {t = offer_sent} refl (step {t = offer_accepted} refl accepted)

-- The statuses of a contract under way or in force.
abbrev pub is_contract : BillStatus → Bool
is_contract contract_sent = true
is_contract awaiting_activation = true
is_contract activated = true
is_contract _ = false

-- One recommended change into the contract statuses starts at an accepted offer or inside them.
contract_needs :
    (s t : BillStatus)
    → is_valid_transition s t ≡ true
    → is_contract t ≡ true
    → (s ≡ offer_accepted) ⊎ (is_contract s ≡ true)
unfolding is_valid_transition
contract_needs uploaded t h c = ground arith
contract_needs _ t h c = ground arith

abbrev pub Passes : {s t : BillStatus} → BillStatus → s ⟶* t → Type 0
Passes x (here {s = s}) = s ≡ x
Passes x (step {s = s} h r) = (s ≡ x) ⊎ Passes x r

-- A sequence of recommended changes that ends at a contract passes through `offer_accepted`, if it
-- begins outside the contract statuses. It says nothing of an administrator's change, which need not
-- be a recommended one.
pub contract-Passes :
    {s t : BillStatus} (r : s ⟶* t)
    → is_contract s ≡ false
    → is_contract t ≡ true
    → Passes offer_accepted r
contract-Passes here h c = absurd (cc)
contract-Passes (step {s} {t} v r) h c = elim (Bool-cases (is_contract t)) [
  | inl inside ↦ ground (arith, contract_needs s t v inside)
  | inr outside ↦ inr (contract-Passes r outside c)
]

-- The statuses from which no recommended change leads to activation.
abbrev pub is_dead : BillStatus → Bool
is_dead cancelled = true
is_dead error = true
is_dead pending_email = true
is_dead _ = false

dead_stays :
    (s t : BillStatus) → is_valid_transition s t ≡ true → is_dead s ≡ true → is_dead t ≡ true
unfolding is_valid_transition
dead_stays uploaded t v h = ground arith
dead_stays _ t v h = ground arith

dead_journey : {s t : BillStatus} → s ⟶* t → is_dead s ≡ true → is_dead t ≡ true
dead_journey here h = h
dead_journey (step {s} {t} v r) h = dead_journey r (dead_stays s t v h)

review : verification_review ⟶* activated
unfolding is_valid_transition
review = step {t = verified} refl sale

live_journey : (s : BillStatus) → is_dead s ≡ false → s ⟶* activated
unfolding is_valid_transition
live_journey uploaded h = step {t = verification_review} refl review
live_journey analyzing h = step {t = verification_review} refl review
live_journey analyzed h = step {t = verification_review} refl review
live_journey verification_required h = step {t = verification_review} refl review
live_journey verification_review h = review
live_journey verified h = sale
live_journey offer_sent h = step {t = offer_accepted} refl accepted
live_journey offer_accepted h = accepted
live_journey contract_sent h = step {t = awaiting_activation} refl last_steps
live_journey awaiting_activation h = last_steps
live_journey activated h = here
live_journey cancelled h = absurd (cc)
live_journey error h = absurd (cc)
live_journey pending_email h = absurd (cc)

-- A bill can be brought to activation by recommended changes exactly when it is not cancelled, its
-- analysis has not failed, and it has an owner (it is not a placeholder for an e-mailed bill).
pub activated-reachable_iff : (s : BillStatus) → (s ⟶* activated) ↔ (is_dead s ≡ false)
activated-reachable_iff s = (
  λ r. elim (Bool-cases (is_dead s)) [ inl h ↦ absurd (false≢true (dead_journey r h)) | inr h ↦ h ],
  live_journey s,
)
