-- ===== src/Execution/Paper.antt =====
-- internal/execution/engine.go: what becomes of a paper execution.
use go_be_arbitrage.Prelude.{
  ℕ, ◌+◌, ◌≡◌, refl, ◌∙◌, Bool, true, false, List, [], ◌∷◌, ◌++◌, arith, ◌⊎◌, inl, inr,
  if◌then◌else◌,
}
use go_be_arbitrage.Execution.Status.{OrderStatus, submitting, filled, can_transition}
use go_be_arbitrage.Execution.Model.{ExecutionStatus, Execution, ExecutionLeg, Order}
use go_be_arbitrage.Execution.Store.{
  Env, Store, Error, invalid_transition, Outcome, ◌>>=◌, new_uuid, time_now, insert_order,
  update_order_status, update_execution_status, list_legs_by_execution, legs_of, order_taken,
  set_order_status, set_execution_status,
}
use go_be_arbitrage.Execution.Outcomes.{
  Ends, Refused, list_legs-Ends, Ends-bind, Ends-mono, insert_order-Ends, update_order_status-Ends,
  update_execution_status-Ends,
}
use go_be_arbitrage.Execution.Engine.{
  transition_order, paper_order, fill_leg, fill_legs, execute_paper,
}

-- The call returned an error, and the store it left satisfies `P`.
abbrev pub Fails : {F A : Type 0} → (Error → Store F → Type 0) → Outcome F A → Type 0
Fails P = Ends P (λ _ _. ⊥)

-- How many orders of the store are FILLED.
abbrev is_filled : OrderStatus → Bool
is_filled filled = true
is_filled _ = false

unfoldable pub filled_count : {F : Type 0} → List (Order F) → ℕ
filled_count [] = 0
filled_count (o ∷ os) = (if is_filled o.status then 1 else 0) + filled_count os

module _ {F : Type 0} where
  pub filled_count-append :
      (xs ys : List (Order F)) → filled_count (xs ++ ys) ≡ filled_count xs + filled_count ys
  unfolding filled_count
  filled_count-append [] ys = omega arith
  filled_count-append (x ∷ xs) ys = omega (arith, filled_count-append xs ys)

  set_order_status-append :
      (i : ℕ) (st : OrderStatus) (at : ℕ) (xs ys : List (Order F))
      → set_order_status i st at (xs ++ ys)
        ≡ set_order_status i st at xs ++ set_order_status i st at ys
  unfolding set_order_status
  set_order_status-append i st at [] ys = refl
  set_order_status-append i st at (x ∷ xs) ys = rw (set_order_status-append i st at xs ys)

  set_order_status_fresh :
      (o : Order F) (st : OrderStatus) (at : ℕ) (xs : List (Order F))
      → order_taken o xs ≡ false
      → set_order_status o.id st at xs ≡ xs
  unfolding set_order_status order_taken
  set_order_status_fresh o st at [] h = refl
  set_order_status_fresh o st at (x ∷ xs) h = ground (arith, set_order_status_fresh o st at xs)

Refused-or : (env : Env) {X : Type 0} {n : ℕ} → (env.down n ≡ true) ⊎ X → Refused env ⊎ X
Refused-or env {n = n} (inl d) = inl (n, d)
Refused-or env (inr x) = inr x

module _ {F : Type 0} (env : Env) (short : ℕ → ℕ) where
  -- The order that `fill_leg` makes, with the ids and times of its three first effects.
  abbrev pub drafted : Execution F → ExecutionLeg F → Store F → Order F
  drafted exec leg s =
      let n = s.effects in
      paper_order env short exec leg (env.uuid n) (env.clock (n + 1)) (env.clock (n + 1 + 1))

  abbrev pub sent : Execution F → ExecutionLeg F → Store F → Order F
  sent exec leg s = record (drafted exec leg s) {
    status = submitting;
    updated_at = env.clock (s.effects + 1 + 1 + 1 + 1);
  }

  -- Nothing was written, or one order was: left CREATED, or left SUBMITTING.
  abbrev LegFails : Execution F → ExecutionLeg F → Store F → Error → Store F → Type 0
  LegFails exec leg s e t =
      (((t.orders ≡ s.orders) × (Refused env ⊎ (order_taken (drafted exec leg s) s.orders ≡ true)))
        ⊎ ((t.orders ≡ s.orders ++ drafted exec leg s ∷ []) × Refused env)
        ⊎ ((t.orders ≡ s.orders ++ sent exec leg s ∷ [])
            × (e ≡ invalid_transition submitting filled)))
      × (t.executions ≡ s.executions)
      × (t.legs ≡ s.legs)

  sent_row :
      (exec : Execution F) (leg : ExecutionLeg F) (s : Store F)
      → let o = drafted exec leg s in
        order_taken o s.orders ≡ false
        → set_order_status o.id submitting
            (env.clock (s.effects + 1 + 1 + 1 + 1))
            (s.orders ++ o ∷ [])
          ≡ s.orders ++ sent exec leg s ∷ []
  unfolding set_order_status paper_order
  sent_row exec leg s free =
      let o = drafted exec leg s in
      let at = env.clock (s.effects + 1 + 1 + 1 + 1) in
      ground (
        arith,
        set_order_status-append o.id submitting at s.orders (o ∷ []),
        set_order_status_fresh o submitting at s.orders free,
      )

  fill_leg-Fails :
      (exec : Execution F) (leg : ExecutionLeg F) (s : Store F)
      → Fails (LegFails exec leg s) (fill_leg env short exec leg s)
  unfolding fill_leg new_uuid time_now transition_order can_transition
  fill_leg-Fails exec leg s =
      let o = drafted exec leg s in
      let s1 = record s { effects = s.effects + 1 + 1 + 1 } in
      let s2 = record s1 { orders = s.orders ++ o ∷ []; effects = s.effects + 1 + 1 + 1 + 1 } in
      Ends-bind _ _ (insert_order env o) _ s1 (
        Ends-mono _ _ _ _ (insert_order env o s1)
          (λ e t h. (inl (h.0.2, Refused-or env h.1), h.0.0, h.0.1))
          (λ a t h. rw h.1 (
            Ends-bind _ _ (update_order_status env o.id submitting) _ s2 (
              Ends-mono _ _ _ _ (update_order_status env o.id submitting s2)
                (λ e t k. (inr (inl (k.0.2, (_, k.1))), k.0.0, k.0.1))
                (λ a t k. rw k (inr (inr (sent_row exec leg s h.0, refl)), refl, refl))
                (update_order_status-Ends env o.id submitting s2))))
          (insert_order-Ends env o s1))

  -- What a paper execution with a leg leaves: its first leg's order at most, and the execution's
  -- row at most set to SUBMITTING.
  abbrev pub PaperFails : Execution F → ExecutionLeg F → Store F → Error → Store F → Type 0
  PaperFails exec leg s e t =
      let s' = record s { effects = s.effects + 1 + 1 } in
      (((t.orders ≡ s.orders) × (Refused env ⊎ (order_taken (drafted exec leg s') s.orders ≡ true)))
        ⊎ ((t.orders ≡ s.orders ++ drafted exec leg s' ∷ []) × Refused env)
        ⊎ ((t.orders ≡ s.orders ++ sent exec leg s' ∷ [])
            × (e ≡ invalid_transition submitting filled)
            × (t.executions
                ≡ set_execution_status exec.id ExecutionStatus.submitting s.executions)))
      × ((t.executions ≡ s.executions)
          ⊎ (t.executions ≡ set_execution_status exec.id ExecutionStatus.submitting s.executions))
      × (t.legs ≡ s.legs)

  first_fails :
      (exec : Execution F) (leg : ExecutionLeg F) (s : Store F) (e : Error) (t : Store F)
      → LegFails exec leg
          (record s {
            executions = set_execution_status exec.id ExecutionStatus.submitting s.executions;
            effects = s.effects + 1 + 1;
          })
          e
          t
      → PaperFails exec leg s e t
  first_fails exec leg s e t (inl h, k, l) = (inl h, inr k, l)
  first_fails exec leg s e t (inr (inl h), k, l) = (inr (inl h), inr k, l)
  first_fails exec leg s e t (inr (inr h), k, l) = (inr (inr (h.0, h.1, k)), inr k, l)

  pub execute_paper-Fails :
      (exec : Execution F) (leg : ExecutionLeg F) (rest : List (ExecutionLeg F)) (s : Store F)
      → legs_of exec.id s.legs ≡ leg ∷ rest
      → Fails (PaperFails exec leg s) (execute_paper env short exec s)
  unfolding execute_paper fill_legs
  execute_paper-Fails exec leg rest s found =
      let rows = set_execution_status exec.id ExecutionStatus.submitting s.executions in
      let s1 = record s { executions = rows; effects = s.effects + 1 } in
      let s2 = record s { executions = rows; effects = s.effects + 1 + 1 } in
      let loop : Fails (PaperFails exec leg s) (
          (fill_legs env short exec (leg ∷ rest) >>= λ _.
          update_execution_status env exec.id ExecutionStatus.completed)
            s2) =
        Ends-bind _ _ (fill_legs env short exec (leg ∷ rest)) _ s2 (
          Ends-bind _ _ (fill_leg env short exec leg) (λ _. fill_legs env short exec rest) s2
            (Ends-mono _ _ _ _ (fill_leg env short exec leg s2)
              (λ e t k. first_fails exec leg s e t k) (λ a t h. absurd h)
              (fill_leg-Fails exec leg s2))) in
      Ends-bind _ _ (update_execution_status env exec.id ExecutionStatus.submitting) _ s (
        Ends-mono _ _ _ _ (update_execution_status env exec.id ExecutionStatus.submitting s)
          (λ e t h. (inl (h.0.2, inl (_, h.1)), inl h.0.0, h.0.1))
          (λ a t h. rw h (
            Ends-bind _ _ (list_legs_by_execution env exec.id) _ s1 (
              Ends-mono _ _ _ _ (list_legs_by_execution env exec.id s1)
                (λ e t k. (inl (k.0.2, inl (_, k.1)), inr k.0.0, k.0.1))
                (λ ls t k. rw (k.0 ∙ found, k.1) (loop)) (list_legs-Ends env exec.id s1))))
          (update_execution_status-Ends env exec.id ExecutionStatus.submitting s))
