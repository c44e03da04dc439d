-- ===== src/Execution/Create.antt =====
-- internal/execution/engine.go: `CreateExecution` writes the execution and then its legs, each by a
-- statement of its own.
use mathlib.Core.List.{append_assoc, append-nil}
use go_be_arbitrage.Prelude.{
  ℕ, suc, ◌+◌, ◌<◌, ◌≡◌, refl, sym, ◌∙◌, some, List, [], ◌∷◌, ◌++◌, arith, ◌⊎◌, inl, inr, length,
  take,
}
use go_be_arbitrage.Execution.Model.{
  LegStatus, IntentLeg, CreateExecutionRequest, Execution, ExecutionLeg,
}
use go_be_arbitrage.Execution.Store.{
  Env, Store, wrap, create_leg_failed, create_execution_failed, insert_leg_row, insert_execution,
  new_uuid, time_now,
}
use go_be_arbitrage.Execution.Engine.{new_execution, create_legs, create_execution}
use go_be_arbitrage.Execution.Outcomes.{
  Ends, Ends-bind, Ends-mono, Ends-wrap, insert_leg_row-Ends, insert_execution-Ends,
}

-- The row of an intent's leg: its index, its fields, and in `target_notional` the leg's price.
pub record IsRow {F : Type 0} (exec_id i : ℕ) (req : IntentLeg F) (leg : ExecutionLeg F)
    : Type 0 where
  pub of_execution : leg.execution_id ≡ exec_id
  pub at_index : leg.leg_index ≡ i
  pub same_account : leg.venue_account_id ≡ req.venue_account_id
  pub same_instrument : leg.instrument_id ≡ req.instrument_id
  pub same_side : leg.target_side ≡ req.side
  pub same_quantity : leg.target_quantity ≡ some req.quantity
  pub notional_is_price : leg.target_notional ≡ some req.price
  pub is_pending : leg.status ≡ LegStatus.pending

-- The rows of the legs of an intent, from index `i` on.
abbrev pub Rows : {F : Type 0} → ℕ → ℕ → List (IntentLeg F) → List (ExecutionLeg F) → Type 0
Rows exec_id i [] [] = Unit
Rows exec_id i [] (l ∷ ls) = ⊥
Rows exec_id i (r ∷ rs) [] = ⊥
Rows exec_id i (r ∷ rs) (l ∷ ls) = IsRow exec_id i r l × Rows exec_id (i + 1) rs ls

-- The legs of the first `n` requests were added, and nothing else.
abbrev pub Added : {F : Type 0} → ℕ → ℕ → List (IntentLeg F) → Store F → Store F → Type 0
Added {F} exec_id i reqs s t =
    (ls : List (ExecutionLeg F)) × (t.legs ≡ s.legs ++ ls)
    × Rows exec_id i reqs ls
    × (t.executions ≡ s.executions)
    × (t.orders ≡ s.orders)

abbrev pub SomeAdded : {F : Type 0} → ℕ → ℕ → List (IntentLeg F) → Store F → Store F → Type 0
SomeAdded exec_id i reqs s t = (n : ℕ) × (n < length reqs) × Added exec_id i (take n reqs) s t

module _ {F : Type 0} (env : Env) where
  -- The row that the loop of `CreateExecution` inserts.
  abbrev row : ℕ → ℕ → IntentLeg F → ℕ → ExecutionLeg F
  row exec_id i req leg_id = record {
    id = leg_id;
    execution_id = exec_id;
    leg_index = i;
    venue_account_id = req.venue_account_id;
    instrument_id = req.instrument_id;
    target_side = req.side;
    target_quantity = some req.quantity;
    target_notional = some req.price;
    status = LegStatus.pending;
  }

  row-IsRow :
      (exec_id i : ℕ) (req : IntentLeg F) (leg_id : ℕ)
      → IsRow exec_id i req (row exec_id i req leg_id)
  row-IsRow exec_id i req leg_id = ground arith

  Added-cons :
      (exec_id i : ℕ) (req : IntentLeg F) (reqs : List (IntentLeg F)) (leg_id : ℕ)
      (s s' t : Store F)
      → s'.legs ≡ s.legs ++ row exec_id i req leg_id ∷ []
      → s'.executions ≡ s.executions
      → s'.orders ≡ s.orders
      → Added exec_id (i + 1) reqs s' t
      → Added exec_id i (req ∷ reqs) s t
  Added-cons exec_id i req reqs leg_id s s' t l x o (ls, tl, rows, tx, to) = (
    row exec_id i req leg_id ∷ ls,
    tl ∙ (rw (l, append_assoc) refl),
    (row-IsRow exec_id i req leg_id, rows),
    tx ∙ x,
    to ∙ o,
  )

  create_legs-Ends :
      (short : ℕ → ℕ) (exec_id i : ℕ) (reqs : List (IntentLeg F)) (s : Store F)
      → Ends
          (λ e t. SomeAdded exec_id i reqs s t)
          (λ _ t. Added exec_id i reqs s t)
          (create_legs env short exec_id i reqs s)
  unfolding create_legs new_uuid
  create_legs-Ends short exec_id i [] s = ([], sym (append-nil s.legs), tt, refl, refl)
  create_legs-Ends short exec_id i (req ∷ reqs) s =
      let leg = row exec_id i req (env.uuid s.effects) in
      let s1 = record s { effects = s.effects + 1 } in
      let s2 = record s { legs = s.legs ++ leg ∷ []; effects = s.effects + 1 + 1 } in
      Ends-bind _ _ (wrap create_leg_failed (insert_leg_row env leg)) _ s1 (
        Ends-wrap _ _ create_leg_failed (insert_leg_row env leg s1) (
          Ends-mono _ _ _ _ (insert_leg_row env leg s1)
            (λ e t h. (0, omega arith, ([], h.1 ∙ sym (append-nil s.legs), tt, h.0, h.2)))
            (λ a t h. rw h.1 (
              Ends-mono _ _ _ _ (create_legs env short exec_id (i + 1) reqs s2)
                (λ e t k. (
                  suc k.0,
                  omega (arith, k.1),
                  Added-cons exec_id i req (take k.0 reqs) leg.id s s2 t refl refl refl k.2,
                ))
                (λ a t k. Added-cons exec_id i req reqs leg.id s s2 t refl refl refl k)
                (create_legs-Ends short exec_id (i + 1) reqs s2)))
            (insert_leg_row-Ends env leg s1)))

  -- The execution that the call makes, with the id and the time of its first two effects.
  abbrev made : (short : ℕ → ℕ) → ℕ → CreateExecutionRequest F → Store F → Execution F
  made short tenant_id req s =
      new_execution env short tenant_id req (env.uuid s.effects) (env.clock (s.effects + 1))

  -- A successful `CreateExecution` adds one CREATED execution with the request's mode, strategy and
  -- intent, and one pending leg row for each leg of the intent, in order and indexed from 0; it
  -- makes no order. A failed one is not undone: either nothing was added, or the execution was and
  -- with it the rows of the legs before the one that failed.
  pub create_execution-Ends :
      (short : ℕ → ℕ) (tenant_id : ℕ) (req : CreateExecutionRequest F) (s : Store F)
      → let x = made short tenant_id req s in
        let s' = record s { executions = s.executions ++ x ∷ [] } in
        Ends
          (λ e t.
            ((t.executions ≡ s.executions) × (t.legs ≡ s.legs) × (t.orders ≡ s.orders))
            ⊎ SomeAdded x.id 0 req.legs s' t)
          (λ y t. (y ≡ x) × Added x.id 0 req.legs s' t)
          (create_execution env short tenant_id req s)
  unfolding create_execution new_uuid time_now
  create_execution-Ends short tenant_id req s =
      let x = made short tenant_id req s in
      let s1 = record s { effects = s.effects + 1 + 1 } in
      let s2 = record s { executions = s.executions ++ x ∷ []; effects = s.effects + 1 + 1 + 1 } in
      Ends-bind _ _ (wrap create_execution_failed (insert_execution env x)) _ s1 (
        Ends-wrap _ _ create_execution_failed (insert_execution env x s1) (
          Ends-mono _ _ _ _ (insert_execution env x s1) (λ e t h. inl h)
            (λ a t h. rw h (
              Ends-bind _ _ (create_legs env short x.id 0 req.legs) _ s2 (
                Ends-mono _ _ _ _ (create_legs env short x.id 0 req.legs s2) (λ e t k. inr k)
                  (λ a t k. (refl, k)) (create_legs-Ends short x.id 0 req.legs s2))))
            (insert_execution-Ends env x s1)))
