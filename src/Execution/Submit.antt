-- ===== src/Execution/Submit.antt =====
-- internal/execution/engine.go: `SubmitExecution` on paper executions, over every environment.
use go_be_arbitrage.Prelude.{
  ℕ, ◌+◌, ◌≡◌, refl, ap, ◌∙◌, true, false, some, List, [], ◌∷◌, ◌++◌, arith, ◌≢◌, ◌⊎◌, inl, inr,
}
use go_be_arbitrage.Execution.Status.{submitting, filled}
use go_be_arbitrage.Execution.Model.{ExecutionStatus, Execution, ExecutionLeg}
use go_be_arbitrage.Execution.Store.{
  Env, Store, Error, invalid_transition, find_execution, legs_of, order_taken, set_execution_status,
  get_execution_by_id, update_execution_status, list_legs_by_execution,
}
use go_be_arbitrage.Execution.Engine.{
  is_paper, fill_legs, execute_paper, submit_execution, paper_order,
}
use go_be_arbitrage.Execution.Outcomes.{
  Ends, Refused, Ends-bind, Ends-mono, get_execution-Ends, list_legs-Ends,
  update_execution_status-Ends,
}
use go_be_arbitrage.Execution.Paper.{
  Fails, filled_count, filled_count-append, drafted, sent, PaperFails, execute_paper-Fails,
}

-- No order became FILLED, the legs are as they were, and so are the executions, but that the one
-- submitted may be set to SUBMITTING.
abbrev pub NothingFilled : {F : Type 0} → Execution F → Store F → Error → Store F → Type 0
NothingFilled exec s e t =
    (filled_count t.orders ≡ filled_count s.orders)
    × (t.legs ≡ s.legs)
    × ((t.executions ≡ s.executions)
        ⊎ (t.executions ≡ set_execution_status exec.id ExecutionStatus.submitting s.executions))

module _ {F : Type 0} (env : Env) (short : ℕ → ℕ) where
  filled_count_unchanged :
      (exec : Execution F) (leg : ExecutionLeg F) (s : Store F) (e : Error) (t : Store F)
      → PaperFails env short exec leg s e t
      → NothingFilled exec s e t
  unfolding filled_count paper_order
  filled_count_unchanged exec leg s e t (inl h, k, l) = (ap filled_count h.0, l, k)
  filled_count_unchanged exec leg s e t (inr (inl h), k, l) =
      let o = drafted env short exec leg (record s { effects = s.effects + 1 + 1 }) in
      (ap filled_count h.0 ∙ omega (arith, filled_count-append s.orders (o ∷ [])), l, k)
  filled_count_unchanged exec leg s e t (inr (inr h), k, l) =
      let o = sent env short exec leg (record s { effects = s.effects + 1 + 1 }) in
      (ap filled_count h.0 ∙ omega (arith, filled_count-append s.orders (o ∷ [])), l, k)

  execute_paper_unfilled :
      (exec : Execution F) (s : Store F) (ls : List (ExecutionLeg F))
      → legs_of exec.id s.legs ≡ ls
      → ls ≢ []
      → Fails (NothingFilled exec s) (execute_paper env short exec s)
  execute_paper_unfilled exec s [] e nonempty = absurd (nonempty refl)
  execute_paper_unfilled exec s (leg ∷ rest) e nonempty =
      Ends-mono _ _ _ _ (execute_paper env short exec s) (filled_count_unchanged exec leg s)
        (λ a t h. h) (execute_paper-Fails env short exec leg rest s e)

  -- A paper execution with at least one leg never completes: whatever the database, the clock and
  -- the ids do, `SubmitExecution` returns an error, no order becomes FILLED, the legs are as they
  -- were, and so are the executions, but that the one submitted may be set to SUBMITTING.
  pub submit_paper-Fails :
      (i : ℕ) (s : Store F) (exec : Execution F)
      → find_execution i s.executions ≡ some exec
      → is_paper exec.execution_mode ≡ true
      → legs_of exec.id s.legs ≢ []
      → Fails (NothingFilled exec s) (submit_execution env short i s)
  unfolding submit_execution
  submit_paper-Fails i s exec found paper nonempty =
      let s1 = record s { effects = s.effects + 1 } in
      Ends-bind _ _ (get_execution_by_id env i) _ s (
        Ends-mono _ _ _ _ (get_execution_by_id env i s)
          (λ e t h. (ap filled_count h.2, h.1, inl h.0))
          (λ x t h.
            let same : x ≡ exec = cc in
            rw (same, h.1, paper)
              (execute_paper_unfilled exec s1 (legs_of exec.id s.legs) refl nonempty))
          (get_execution-Ends env i s))

  -- If no statement is refused and the first leg's client order id and drawn order id are new, a
  -- paper execution stops with "invalid state transition: SUBMITTING -> FILLED", and leaves the
  -- order of its first leg and its own row at SUBMITTING.
  pub execute_paper_stuck :
      (exec : Execution F) (leg : ExecutionLeg F) (rest : List (ExecutionLeg F)) (s : Store F)
      → ((n : ℕ) → env.down n ≡ false)
      → legs_of exec.id s.legs ≡ leg ∷ rest
      → order_taken (drafted env short exec leg (record s { effects = s.effects + 1 + 1 })) s.orders
        ≡ false
      → Fails
          (λ e t.
            (e ≡ invalid_transition submitting filled)
            × (t.orders
                ≡ s.orders
                  ++ sent env short exec leg (record s { effects = s.effects + 1 + 1 }) ∷ [])
            × (t.executions ≡ set_execution_status exec.id ExecutionStatus.submitting s.executions))
          (execute_paper env short exec s)
  execute_paper_stuck exec leg rest s up found free =
      Ends-mono _ _ _ _ (execute_paper env short exec s) (only_last up free) (λ a t h. h)
        (execute_paper-Fails env short exec leg rest s found)
    where
      never : ((n : ℕ) → env.down n ≡ false) → Refused env → ⊥
      never up (n, d) = cc (up n)

      only_last :
          ((n : ℕ) → env.down n ≡ false)
          → order_taken
              (drafted env short exec leg (record s { effects = s.effects + 1 + 1 }))
              s.orders
            ≡ false
          → (e : Error) (t : Store F) → PaperFails env short exec leg s e t
          → (e ≡ invalid_transition submitting filled)
            × (t.orders
                ≡ s.orders
                  ++ sent env short exec leg (record s { effects = s.effects + 1 + 1 }) ∷ [])
            × (t.executions ≡ set_execution_status exec.id ExecutionStatus.submitting s.executions)
      only_last up free e t (inl (h, inl r), k, l) = absurd (never up r)
      only_last up free e t (inl (h, inr taken), k, l) = cc
      only_last up free e t (inr (inl h), k, l) = absurd (never up h.1)
      only_last up free e t (inr (inr h), k, l) = (h.1, h.0, h.2)

  -- A paper execution without legs completes: it is an error only where the server refuses a
  -- statement, and else its row was set to SUBMITTING and then COMPLETED, with no order made.
  pub execute_paper_empty :
      (exec : Execution F) (s : Store F)
      → legs_of exec.id s.legs ≡ []
      → Ends
          (λ e t. Refused env)
          (λ _ t.
            (t.executions
              ≡ set_execution_status exec.id ExecutionStatus.completed
                  (set_execution_status exec.id ExecutionStatus.submitting s.executions))
            × (t.orders ≡ s.orders))
          (execute_paper env short exec s)
  unfolding execute_paper fill_legs
  execute_paper_empty exec s none_there =
      let rows = set_execution_status exec.id ExecutionStatus.submitting s.executions in
      let s1 = record s { executions = rows; effects = s.effects + 1 } in
      let s2 = record s { executions = rows; effects = s.effects + 1 + 1 } in
      Ends-bind _ _ (update_execution_status env exec.id ExecutionStatus.submitting) _ s (
        Ends-mono _ _ _ _ (update_execution_status env exec.id ExecutionStatus.submitting s)
          (λ e t h. (_, h.1))
          (λ a t h. rw h (
            Ends-bind _ _ (list_legs_by_execution env exec.id) _ s1 (
              Ends-mono _ _ _ _ (list_legs_by_execution env exec.id s1) (λ e t k. (_, k.1))
                (λ ls t k.
                  rw (k.0 ∙ none_there, k.1)
                    (Ends-mono _ _ _ _
                      (update_execution_status env exec.id ExecutionStatus.completed s2)
                      (λ e t m. (_, m.1)) (λ a t m. rw m (refl, refl))
                      (update_execution_status-Ends env exec.id ExecutionStatus.completed s2)))
                (list_legs-Ends env exec.id s1))))
          (update_execution_status-Ends env exec.id ExecutionStatus.submitting s))
