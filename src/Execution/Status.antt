-- ===== src/Execution/Status.antt =====
-- internal/execution/model.go and statemachine.go: the order statuses and their transitions.
use go_be_arbitrage.Prelude.{
  ℕ, ◌+◌, Bool, true, false, Option, none, some, List, [], ◌∷◌, ◌==◌, if◌then◌else◌,
}

-- `OrderStatus` is a Go string. The ten constants have a constructor each; `other n` is any other
-- string, numbered.
pub data OrderStatus : Type 0 where
  created submitting opened partially_filled filled canceling canceled rejected expired :
      OrderStatus
  unknown : OrderStatus
  other : ℕ → OrderStatus

-- A number for each string, by which statuses are compared.
abbrev pub code : OrderStatus → ℕ
code created = 0
code submitting = 1
code opened = 2
code partially_filled = 3
code filled = 4
code canceling = 5
code canceled = 6
code rejected = 7
code expired = 8
code unknown = 9
code (other n) = 10 + n

-- `s == t` on the strings.
abbrev pub same : OrderStatus → OrderStatus → Bool
same s t = code s == code t

-- `ValidOrderTransitions`; `none` is a key that the map lacks.
unfoldable pub valid_order_transitions : OrderStatus → Option (List OrderStatus)
valid_order_transitions created = some (submitting ∷ [])
valid_order_transitions submitting = some (opened ∷ rejected ∷ unknown ∷ [])
valid_order_transitions opened =
    some (partially_filled ∷ filled ∷ canceling ∷ expired ∷ unknown ∷ [])
valid_order_transitions partially_filled = some (filled ∷ canceling ∷ unknown ∷ [])
valid_order_transitions canceling = some (canceled ∷ unknown ∷ [])
valid_order_transitions canceled = some []
valid_order_transitions rejected = some []
valid_order_transitions expired = some []
valid_order_transitions unknown = some (canceling ∷ submitting ∷ [])
valid_order_transitions filled = some []
valid_order_transitions (other n) = none

-- The loop of `CanTransition`.
unfoldable pub listed : List OrderStatus → OrderStatus → Bool
listed [] to = false
listed (s ∷ ss) to = if same s to then true else listed ss to

unfoldable pub can_transition : OrderStatus → OrderStatus → Bool
unfolding valid_order_transitions listed
can_transition from to = elim (valid_order_transitions from) [
  | none ↦ false
  | some allowed ↦ listed allowed to
]
