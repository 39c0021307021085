-- ===== src/Pipeline/Order.antt =====
-- How the transition table, the list of next steps, the actors and the pipeline order of
-- src/common/utils/bill-status-transitions.ts fit together.
use easyrisparmio_backend.Prelude.{◌≡◌, ◌↔◌, ◌⊎◌, true, some, arith}
use easyrisparmio_backend.Pipeline.{
  BillStatus, uploaded, analyzing, analyzed, error, verification_review, verification_required,
  cancelled, includes, is_valid_transition, get_available_transitions, TransitionActor,
  transition_actors, forward, backward, get_transition_direction,
}

-- The advisory test and the list of next steps agree on every pair of statuses: a transition is
-- valid exactly when its target is in the list that is offered for its source.
pub is_valid_transition-eq-includes :
    (from to : BillStatus)
    → is_valid_transition from to ≡ includes (get_available_transitions from) to
unfolding is_valid_transition get_available_transitions
is_valid_transition-eq-includes uploaded to = ground arith
is_valid_transition-eq-includes _ to = ground arith

-- The steps that do not go up the pipeline order.
pub data IsDetour : BillStatus → BillStatus → Type 0 where
  cancel : {s : BillStatus} → IsDetour s cancelled
  fail : IsDetour analyzing error
  resubmit : IsDetour verification_required verification_review

-- A valid transition goes forward in the pipeline order, but for a cancellation, a failed analysis
-- and the return of a bill to review after the customer's corrections.
pub is_valid_transition-forward :
    (from to : BillStatus)
    → is_valid_transition from to ≡ true
    → (get_transition_direction from to ≡ forward) ⊎ IsDetour from to
unfolding is_valid_transition get_transition_direction
is_valid_transition-forward uploaded to h = grind (arith, cancel, fail, resubmit)
is_valid_transition-forward _ to h = grind (arith, cancel, fail, resubmit)

-- A status change and its reverse have opposite directions.
pub get_transition_direction_opposite :
    (from to : BillStatus)
    → (get_transition_direction from to ≡ forward) ↔ (get_transition_direction to from ≡ backward)
unfolding get_transition_direction
get_transition_direction_opposite uploaded to = ground arith
get_transition_direction_opposite _ to = ground arith

-- Every transition that an actor is named for is valid, but for analyzing to analyzed.
pub transition_actors-valid :
    (from to : BillStatus) (actor : TransitionActor)
    → transition_actors from to ≡ some actor
    → (is_valid_transition from to ≡ true) ⊎ ((from ≡ analyzing) × (to ≡ analyzed))
unfolding is_valid_transition transition_actors
transition_actors-valid uploaded uploaded actor h = ground arith
transition_actors-valid _ to actor h = ground arith
