-- ===== src/Execution/Outcomes.antt =====
-- Pre- and postconditions of the repository's statements (internal/execution/repository.go).
use go_be_arbitrage.Prelude.{ℕ, ◌+◌, ◌≡◌, false, true, some, [], ◌∷◌, ◌++◌, arith, ◌⊎◌}
use go_be_arbitrage.Execution.Status.{OrderStatus}
use go_be_arbitrage.Execution.Model.{ExecutionStatus, Order, Execution, ExecutionLeg}
use go_be_arbitrage.Execution.Store.{
  Env, Store, Error, Outcome, ok, err, M, ◌>>=◌, insert_order, update_order_status,
  update_execution_status, order_taken, set_order_status, set_execution_status, insert_leg_row,
  insert_execution, leg_taken, find_execution, legs_of, list_legs_by_execution, get_execution_by_id,
}

-- A call ends in an error and a store that satisfy `E`, or in a result and a store that satisfy `O`.
abbrev pub Ends :
    {F A : Type 0} → (Error → Store F → Type 0) → (A → Store F → Type 0) → Outcome F A → Type 0
Ends E O (ok a t) = O a t
Ends E O (err e t) = E e t

module _ {F A B : Type 0} (E : Error → Store F → Type 0) (O : B → Store F → Type 0) where
  Ends-elim :
      (r : Outcome F A) (f : A → M F B)
      → Ends E (λ a t. Ends E O (f a t)) r
      → Ends E O (elim r [ ok a t ↦ f a t | err e t ↦ err e t ])
  Ends-elim (ok a t) f h = h
  Ends-elim (err e t) f h = h

  -- The rule for a chain of calls.
  pub Ends-bind :
      (m : M F A) (f : A → M F B) (s : Store F)
      → Ends E (λ a t. Ends E O (f a t)) (m s)
      → Ends E O ((m >>= f) s)
  Ends-bind m f s h = Ends-elim (m s) f h

-- The rule for an error that is wrapped.
pub Ends-wrap :
    {F A : Type 0} (E : Error → Store F → Type 0) (O : A → Store F → Type 0) (f : Error → Error)
    (r : Outcome F A)
    → Ends (λ e t. E (f e) t) O r
    → Ends E O (elim r [ ok a t ↦ ok a t | err e t ↦ err (f e) t ])
Ends-wrap E O f (ok a t) h = h
Ends-wrap E O f (err e t) h = h

-- The rule of consequence.
pub Ends-mono :
    {F A : Type 0} (E E' : Error → Store F → Type 0) (O O' : A → Store F → Type 0) (r : Outcome F A)
    → ((e : Error) (t : Store F) → E e t → E' e t)
    → ((a : A) (t : Store F) → O a t → O' a t)
    → Ends E O r
    → Ends E' O' r
Ends-mono E E' O O' (ok a t) he ho h = ho a t h
Ends-mono E E' O O' (err e t) he ho h = he e t h

-- The server refused some statement.
abbrev pub Refused : Env → Type 0
Refused env = (n : ℕ) × (env.down n ≡ true)

-- The store after a statement that wrote nothing.
abbrev pub Counted : {F : Type 0} → Store F → Store F → Type 0
Counted s t = (t.executions ≡ s.executions) × (t.legs ≡ s.legs) × (t.orders ≡ s.orders)

module _ {F : Type 0} (env : Env) where
  pub insert_order-Ends :
      (o : Order F) (s : Store F)
      → Ends
          (λ e t. Counted s t × ((env.down s.effects ≡ true) ⊎ (order_taken o s.orders ≡ true)))
          (λ _ t.
            (order_taken o s.orders ≡ false)
            × (t ≡ record s { orders = s.orders ++ o ∷ []; effects = s.effects + 1 }))
          (insert_order env o s)
  unfolding insert_order
  insert_order-Ends o s = ground arith

  pub update_order_status-Ends :
      (i : ℕ) (st : OrderStatus) (s : Store F)
      → Ends
          (λ e t. Counted s t × (env.down (s.effects + 1) ≡ true))
          (λ _ t. t ≡ record s {
            orders = set_order_status i st (env.clock s.effects) s.orders;
            effects = s.effects + 1 + 1;
          })
          (update_order_status env i st s)
  unfolding update_order_status
  update_order_status-Ends i st s = ground arith

  pub update_execution_status-Ends :
      (i : ℕ) (st : ExecutionStatus) (s : Store F)
      → Ends
          (λ e t. Counted s t × (env.down s.effects ≡ true))
          (λ _ t. t ≡ record s {
            executions = set_execution_status i st s.executions;
            effects = s.effects + 1;
          })
          (update_execution_status env i st s)
  unfolding update_execution_status
  update_execution_status-Ends i st s = ground arith

  pub list_legs-Ends :
      (i : ℕ) (s : Store F)
      → Ends
          (λ e t. Counted s t × (env.down s.effects ≡ true))
          (λ legs t. (legs ≡ legs_of i s.legs) × (t ≡ record s { effects = s.effects + 1 }))
          (list_legs_by_execution env i s)
  unfolding list_legs_by_execution
  list_legs-Ends i s = ground arith

  pub get_execution-Ends :
      (i : ℕ) (s : Store F)
      → Ends
          (λ e t. Counted s t)
          (λ x t.
            (find_execution i s.executions ≡ some x) × (t ≡ record s { effects = s.effects + 1 }))
          (get_execution_by_id env i s)
  unfolding get_execution_by_id
  get_execution-Ends i s = ground arith

  pub insert_leg_row-Ends :
      (leg : ExecutionLeg F) (s : Store F)
      → Ends
          (λ e t. Counted s t)
          (λ _ t.
            (leg_taken leg s.legs ≡ false)
            × (t ≡ record s { legs = s.legs ++ leg ∷ []; effects = s.effects + 1 }))
          (insert_leg_row env leg s)
  unfolding insert_leg_row
  insert_leg_row-Ends leg s = ground arith

  pub insert_execution-Ends :
      (x : Execution F) (s : Store F)
      → Ends
          (λ e t. Counted s t)
          (λ _ t. t ≡ record s { executions = s.executions ++ x ∷ []; effects = s.effects + 1 })
          (insert_execution env x s)
  unfolding insert_execution
  insert_execution-Ends x s = ground arith
