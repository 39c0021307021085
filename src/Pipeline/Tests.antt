-- ===== src/Pipeline/Tests.antt =====
-- Concrete bills in the pipeline of src/common/utils/bill-status-transitions.ts.
use easyrisparmio_backend.Prelude.{◌≡◌, refl, ◌↔◌, false}
use easyrisparmio_backend.Pipeline.{
  verification_required, offer_sent, offer_accepted, contract_sent, activated, is_valid_transition,
}
use easyrisparmio_backend.Pipeline.Journey.{
  ◌⟶*◌, here, step, Passes, is_dead, contract-Passes, activated-reachable_iff,
}

abbrev sold : offer_sent ⟶* contract_sent
unfolding is_valid_transition
sold = step {t = offer_accepted} refl (step {t = contract_sent} refl here)

contract-Passes_example : Passes offer_accepted sold
contract-Passes_example = contract-Passes sold refl refl

activated-reachable_iff_example :
    (verification_required ⟶* activated) ↔ (is_dead verification_required ≡ false)
activated-reachable_iff_example = activated-reachable_iff verification_required
