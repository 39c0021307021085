-- ===== src/Pipeline.antt =====
-- src/common/utils/bill-status-transitions.ts and the statuses of src/common/enums/bill.enum.ts.
-- A map with string keys is a function by clauses; `includes` and `indexOf` compare statuses.
pub mod Order
pub mod Journey
mod Tests
use easyrisparmio_backend.Prelude.{
  ℕ, zero, suc, ◌+◌, ◌≡◌, Bool, true, false, ◌||◌, Option, none, some, List, [], ◌∷◌, ◌++◌, any,
  ltb, ◌==◌, if◌then◌else◌,
}

pub data BillStatus : Type 0 where
  pending_email uploaded analyzing analyzed error verification_review : BillStatus
  verification_required verified offer_sent offer_accepted contract_sent : BillStatus
  awaiting_activation activated cancelled : BillStatus

pub BillStatus-discrete : Discrete BillStatus
BillStatus-discrete = hlevel

-- The place of a constructor in the enumeration; `===` on two statuses compares these.
abbrev pub code : BillStatus → ℕ
code pending_email = 0
code uploaded = 1
code analyzing = 2
code analyzed = 3
code error = 4
code verification_review = 5
code verification_required = 6
code verified = 7
code offer_sent = 8
code offer_accepted = 9
code contract_sent = 10
code awaiting_activation = 11
code activated = 12
code cancelled = 13

abbrev pub same : BillStatus → BillStatus → Bool
same a b = code a == code b

abbrev pub includes : List BillStatus → BillStatus → Bool
includes xs s = any (λ x. same x s) xs

unfoldable pub allowed_transitions : BillStatus → Option (List BillStatus)
allowed_transitions uploaded = some (analyzing ∷ verification_review ∷ [])
allowed_transitions analyzing = some (verification_review ∷ error ∷ [])
allowed_transitions analyzed = some (verification_review ∷ [])
allowed_transitions verification_review = some (verified ∷ verification_required ∷ [])
allowed_transitions verification_required = some (verification_review ∷ [])
allowed_transitions verified = some (offer_sent ∷ [])
allowed_transitions offer_sent = some (offer_accepted ∷ [])
allowed_transitions offer_accepted = some (contract_sent ∷ [])
allowed_transitions contract_sent = some (awaiting_activation ∷ [])
allowed_transitions awaiting_activation = some (activated ∷ [])
allowed_transitions _ = none

unfoldable pub terminal_statuses : List BillStatus
terminal_statuses = activated ∷ cancelled ∷ error ∷ []

unfoldable pub is_valid_transition : BillStatus → BillStatus → Bool
unfolding allowed_transitions terminal_statuses
is_valid_transition from to =
    if includes terminal_statuses from
    then false
    else if same to cancelled
    then true
    else elim (allowed_transitions from) [ some allowed ↦ includes allowed to | none ↦ false ]

unfoldable pub get_available_transitions : BillStatus → List BillStatus
unfolding allowed_transitions terminal_statuses
get_available_transitions status =
    if includes terminal_statuses status then [] else elim (allowed_transitions status) [
      | some allowed ↦ allowed ++ cancelled ∷ []
      | none ↦ cancelled ∷ []
    ]

pub data TransitionActor : Type 0 where
  auto admin user : TransitionActor

-- The map's keys are pairs `from->to`; a pair that is no key gives `undefined`.
unfoldable pub transition_actors : BillStatus → BillStatus → Option TransitionActor
transition_actors uploaded analyzing = some auto
transition_actors analyzing analyzed = some auto
transition_actors analyzed verification_review = some auto
transition_actors verification_review verified = some admin
transition_actors verification_review verification_required = some admin
transition_actors verified offer_sent = some admin
transition_actors offer_accepted contract_sent = some admin
transition_actors contract_sent awaiting_activation = some admin
transition_actors awaiting_activation activated = some admin
transition_actors offer_sent offer_accepted = some user
transition_actors verification_required verification_review = some user
transition_actors _ _ = none

unfoldable pub pipeline_status_order : List BillStatus
pipeline_status_order =
    uploaded ∷ analyzing ∷ analyzed ∷ verification_review ∷ verification_required ∷ verified
    ∷ offer_sent ∷ offer_accepted ∷ contract_sent ∷ awaiting_activation ∷ activated ∷ []

unfoldable pub admin_selectable_statuses : List BillStatus
unfolding pipeline_status_order
admin_selectable_statuses = pipeline_status_order ++ cancelled ∷ []

pub data TransitionDirection : Type 0 where
  forward backward lateral : TransitionDirection

-- `indexOf`, with `none` for the -1 of a status that is not in the list.
abbrev pub index_of : List BillStatus → BillStatus → Option ℕ
index_of [] s = none
index_of (x ∷ xs) s = elim (same x s) [
  | true ↦ some 0
  | false ↦ elim (index_of xs s) [ none ↦ none | some i ↦ some (suc i) ]
]

compare_indices : Option ℕ → Option ℕ → TransitionDirection
compare_indices (some i) (some j) =
    if i == j then lateral else if ltb i j then forward else backward
compare_indices _ _ = lateral

unfoldable pub get_transition_direction : BillStatus → BillStatus → TransitionDirection
unfolding pipeline_status_order compare_indices
get_transition_direction from to =
    compare_indices (index_of pipeline_status_order from) (index_of pipeline_status_order to)
