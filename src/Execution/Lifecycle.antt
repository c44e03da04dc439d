-- ===== src/Execution/Lifecycle.antt =====
-- internal/execution/statemachine.go: what any sequence of requested transitions does to an order.
use mathlib.Core.List.{Memᴰ}
use go_be_arbitrage.Prelude.{
  ◌≡◌, refl, sym, Bool, true, false, List, [], ◌∷◌, arith, ◌⊎◌, inl, inr, Bool-cases,
}
use go_be_arbitrage.Execution.Status.{
  OrderStatus, created, submitting, opened, partially_filled, filled, canceling, canceled, rejected,
  expired, unknown, other, can_transition,
}
use go_be_arbitrage.Execution.Model.{Order}
use go_be_arbitrage.Execution.Store.{Store, Outcome, ok, err}
use go_be_arbitrage.Execution.Engine.{transition_order}

-- A caller of `TransitionOrder` keeps the order, which a refusal leaves as it was.
abbrev kept : {F : Type 0} → Order F → Outcome F (Order F) → Order F
kept o (ok o' s) = o'
kept o (err e s) = o

module _ {F : Type 0} (s : Store F) where
  -- One requested transition, and a sequence of them.
  unfoldable pub attempt : Order F → OrderStatus → Order F
  unfolding transition_order
  attempt o to = kept o (transition_order o to s)

  unfoldable pub attempts : Order F → List OrderStatus → Order F
  attempts o [] = o
  attempts o (to ∷ tos) = attempts (attempt o to) tos

  attempt_refused :
      (o : Order F) (to : OrderStatus) → can_transition o.status to ≡ false → attempt o to ≡ o
  unfolding attempt
  attempt_refused o to h = rw h

  attempt_taken :
      (o : Order F) (to : OrderStatus)
      → can_transition o.status to ≡ true
      → attempt o to ≡ record o { status = to }
  unfolding attempt
  attempt_taken o to h = rw h

abbrev pub IsTerminal : OrderStatus → Type 0
IsTerminal st = (st ≡ filled) ⊎ (st ≡ canceled) ⊎ (st ≡ rejected) ⊎ (st ≡ expired)

terminal_stuck : (st to : OrderStatus) → IsTerminal st → can_transition st to ≡ false
unfolding can_transition
terminal_stuck st to h = ground arith

-- An order that is filled, canceled, rejected or expired is left exactly as it is by every
-- sequence of requested transitions.
terminal_absorbs :
    {F : Type 0} (s : Store F) (o : Order F) (tos : List OrderStatus)
    → IsTerminal o.status
    → attempts s o tos ≡ o
unfolding attempts
terminal_absorbs s o [] h = refl
terminal_absorbs s o (to ∷ tos) h =
    rw (attempt_refused s o to (terminal_stuck o.status to h)) (terminal_absorbs s o tos h)

-- The statuses of an order that has not rested in the book.
abbrev is_unopened : OrderStatus → Bool
is_unopened created = true
is_unopened submitting = true
is_unopened rejected = true
is_unopened unknown = true
is_unopened canceling = true
is_unopened canceled = true
is_unopened _ = false

unopened_step :
    (st to : OrderStatus)
    → is_unopened st ≡ true
    → can_transition st to ≡ true
    → (to ≡ opened) ⊎ (is_unopened to ≡ true)
unfolding can_transition
unopened_step st to h c = ground arith

-- An order cannot become FILLED or EXPIRED, or PARTIALLY_FILLED, without a request that opens it.
unopened_needs_open :
    {F : Type 0} (s : Store F) (o : Order F) (tos : List OrderStatus)
    → is_unopened o.status ≡ true
    → is_unopened (attempts s o tos).status ≡ false
    → Memᴰ opened tos
unfolding attempts
unopened_needs_open s o [] u f = cc
unopened_needs_open s o (to ∷ tos) u f = elim (Bool-cases (can_transition o.status to)) [
  | inr no_edge ↦
      Memᴰ.tail (unopened_needs_open s o tos u (ground (arith, attempt_refused s o to no_edge)))
  | inl edge ↦
      let f' : is_unopened (attempts s (record o { status = to }) tos).status ≡ false =
        ground (arith, attempt_taken s o to edge) in
      elim (unopened_step o.status to u edge) [
        | inl e ↦ Memᴰ.head (sym e)
        | inr u' ↦ Memᴰ.tail (unopened_needs_open s (record o { status = to }) tos u' f')
      ]
]

-- A newly created order that ends up FILLED, PARTIALLY_FILLED or EXPIRED after any sequence of
-- requested transitions was asked to become OPEN.
pub filled_needs_open :
    {F : Type 0} (s : Store F) (o : Order F) (tos : List OrderStatus)
    → o.status ≡ created
    → ((attempts s o tos).status ≡ filled)
      ⊎ ((attempts s o tos).status ≡ partially_filled)
      ⊎ ((attempts s o tos).status ≡ expired)
    → Memᴰ opened tos
filled_needs_open s o tos c h = unopened_needs_open s o tos (ground arith) (ground arith)

-- A canceling request, and then the confirmation, from where they are allowed.
abbrev pub way_out : OrderStatus → List OrderStatus
way_out created = submitting ∷ rejected ∷ []
way_out submitting = rejected ∷ []
way_out opened = canceling ∷ canceled ∷ []
way_out partially_filled = canceling ∷ canceled ∷ []
way_out canceling = canceled ∷ []
way_out unknown = canceling ∷ canceled ∷ []
way_out _ = []

abbrev pub is_known : OrderStatus → Bool
is_known (other n) = false
is_known _ = true

-- From each of the ten known statuses at most two requested transitions bring an order to a
-- terminal status, and leave its other fields alone.
pub way_out-IsTerminal :
    {F : Type 0} (s : Store F) (o : Order F)
    → is_known o.status ≡ true
    → IsTerminal (attempts s o (way_out o.status)).status
      × (attempts s o (way_out o.status)
          ≡ record o { status = (attempts s o (way_out o.status)).status })
unfolding attempts attempt can_transition
way_out-IsTerminal s o h = (ground arith, ground arith)
