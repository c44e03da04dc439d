-- ===== src/Execution/Store.antt =====
-- internal/execution/repository.go, over the tables of migrations/000010_execution_engine.up.sql.
-- The database is a record of tables; what the program cannot foresee is an environment.
use go_be_arbitrage.Prelude.{
  ℕ, ◌+◌, Bool, false, ◌&&◌, ◌||◌, Option, none, some, List, [], ◌∷◌, ◌++◌, ◌==◌, leb,
  if◌then◌else◌,
}
use go_be_arbitrage.Execution.Status.{OrderStatus}
use go_be_arbitrage.Execution.Model.{
  ExecutionStatus, ClientOrderId, paper_id, client_id, Execution, ExecutionLeg, Order,
}

-- The n-th effect of a run: the id that `uuid.New` draws, the time that `time.Now` reads, and
-- whether the server refuses the statement for a reason outside the model (a lost connection, a
-- foreign key, a check on a column).
pub record Env : Type 0 where
  pub uuid : ℕ → ℕ
  pub clock : ℕ → ℕ
  pub down : ℕ → Bool

pub record Store (F : Type 0) : Type 0 where
  pub executions : List (Execution F)
  pub legs : List (ExecutionLeg F)
  pub orders : List (Order F)
  pub effects : ℕ

pub data Error : Type 0 where
  refused no_rows duplicate_key : Error
  invalid_transition : OrderStatus → OrderStatus → Error
  create_execution_failed create_leg_failed : Error → Error

pub data Outcome (F A : Type 0) : Type 0 where
  ok : A → Store F → Outcome F A
  err : Error → Store F → Outcome F A

abbrev pub M : Type 0 → Type 0 → Type 0
M F A = Store F → Outcome F A

infixl 5 ◌>>=◌ ◌>>◌
abbrev pub ◌>>=◌ : {F A B : Type 0} → M F A → (A → M F B) → M F B
◌>>=◌ m f s = elim (m s) [ ok a t ↦ f a t | err e t ↦ err e t ]

abbrev pub ◌>>◌ : {F B : Type 0} → M F (Unit {0}) → M F B → M F B
m >> k = m >>= λ _. k

abbrev pub return : {F A : Type 0} → A → M F A
return a s = ok a s

abbrev pub raise : {F A : Type 0} → Error → M F A
raise e s = err e s

-- `fmt.Errorf("…: %w", err)`.
abbrev pub wrap : {F A : Type 0} → (Error → Error) → M F A → M F A
wrap f m s = elim (m s) [ ok a t ↦ ok a t | err e t ↦ err (f e) t ]

abbrev pub same_client : ClientOrderId → ClientOrderId → Bool
same_client (paper_id a i) (paper_id b j) = (a == b) && (i == j)
same_client (client_id a) (client_id b) = a == b
same_client _ _ = false

module _ {F : Type 0} (env : Env) where
  unfoldable pub new_uuid : M F ℕ
  new_uuid s = ok (env.uuid s.effects) (record s { effects = s.effects + 1 })

  unfoldable pub time_now : M F ℕ
  time_now s = ok (env.clock s.effects) (record s { effects = s.effects + 1 })

  -- One statement: refused by the server, or run on the tables.
  unfoldable pub statement : {A : Type 0} → M F A → M F A
  statement run s =
      let t = record s { effects = s.effects + 1 } in
      if env.down s.effects then err refused t else run t

module _ {F : Type 0} where
  unfoldable pub find_execution : ℕ → List (Execution F) → Option (Execution F)
  find_execution i [] = none
  find_execution i (x ∷ xs) = if x.id == i then some x else find_execution i xs

  unfoldable pub set_execution_status :
      ℕ → ExecutionStatus → List (Execution F) → List (Execution F)
  set_execution_status i st [] = []
  set_execution_status i st (x ∷ xs) =
      (if x.id == i then record x { status = st } else x) ∷ set_execution_status i st xs

  -- A row with the new leg's primary key, or with its execution and index, is there.
  unfoldable pub leg_taken : ExecutionLeg F → List (ExecutionLeg F) → Bool
  leg_taken leg [] = false
  leg_taken leg (x ∷ xs) =
      (x.id == leg.id)
      || ((x.execution_id == leg.execution_id) && (x.leg_index == leg.leg_index))
      || leg_taken leg xs

  -- A row with the new order's primary key, or with its account and client id, is there.
  unfoldable pub order_taken : Order F → List (Order F) → Bool
  order_taken o [] = false
  order_taken o (x ∷ xs) =
      (x.id == o.id)
      || ((x.venue_account_id == o.venue_account_id)
          && same_client x.client_order_id o.client_order_id)
      || order_taken o xs

  unfoldable pub set_order_status : ℕ → OrderStatus → ℕ → List (Order F) → List (Order F)
  set_order_status i st at [] = []
  set_order_status i st at (x ∷ xs) =
      (if x.id == i then record x { status = st; updated_at = at } else x)
      ∷ set_order_status i st at xs

  -- `WHERE execution_id = $1 ORDER BY leg_index`: the rows are put in by index.
  unfoldable pub insert_leg : ExecutionLeg F → List (ExecutionLeg F) → List (ExecutionLeg F)
  insert_leg leg [] = leg ∷ []
  insert_leg leg (x ∷ xs) =
      if leb leg.leg_index x.leg_index then leg ∷ x ∷ xs else x ∷ insert_leg leg xs

  unfoldable pub legs_of : ℕ → List (ExecutionLeg F) → List (ExecutionLeg F)
  unfolding insert_leg
  legs_of i [] = []
  legs_of i (x ∷ xs) =
      let rest = legs_of i xs in if x.execution_id == i then insert_leg x rest else rest

module _ {F : Type 0} (env : Env) where
  unfoldable pub insert_execution : Execution F → M F (Unit {0})
  unfolding find_execution statement
  insert_execution x = statement env λ s. elim (find_execution x.id s.executions) [
    | none ↦ ok tt (record s { executions = s.executions ++ x ∷ [] })
    | some _ ↦ err duplicate_key s
  ]

  unfoldable pub get_execution_by_id : ℕ → M F (Execution F)
  unfolding find_execution statement
  get_execution_by_id i =
      statement env
        λ s. elim (find_execution i s.executions) [ none ↦ err no_rows s | some x ↦ ok x s ]

  -- An UPDATE that meets no row is no error.
  unfoldable pub update_execution_status : ℕ → ExecutionStatus → M F (Unit {0})
  unfolding set_execution_status statement
  update_execution_status i st =
      statement env λ s. ok tt (record s { executions = set_execution_status i st s.executions })

  unfoldable pub insert_leg_row : ExecutionLeg F → M F (Unit {0})
  unfolding leg_taken statement
  insert_leg_row leg = statement env λ s.
      if leg_taken leg s.legs
      then err duplicate_key s
      else ok tt (record s { legs = s.legs ++ leg ∷ [] })

  unfoldable pub list_legs_by_execution : ℕ → M F (List (ExecutionLeg F))
  unfolding legs_of statement
  list_legs_by_execution i = statement env λ s. ok (legs_of i s.legs) s

  unfoldable pub insert_order : Order F → M F (Unit {0})
  unfolding order_taken statement
  insert_order o = statement env λ s.
      if order_taken o s.orders
      then err duplicate_key s
      else ok tt (record s { orders = s.orders ++ o ∷ [] })

  unfoldable pub update_order_status : ℕ → OrderStatus → M F (Unit {0})
  unfolding set_order_status statement time_now
  update_order_status i st = time_now env >>= λ at.
      statement env λ s. ok tt (record s { orders = set_order_status i st at s.orders })
