-- ===== src/Execution/Engine.antt =====
-- internal/execution/engine.go, policy.go and the transition of statemachine.go.
use go_be_arbitrage.Prelude.{
  ℕ, ◌+◌, Bool, true, false, some, List, [], ◌∷◌, length, leb, if◌then◌else◌,
}
use go_be_arbitrage.Execution.Status.{OrderStatus, created, submitting, filled, can_transition}
use go_be_arbitrage.Execution.Model.{
  ExecutionMode, paper, ExecutionStatus, LegStatus, paper_id, IntentLeg, CreateExecutionRequest,
  Execution, ExecutionLeg, Order,
}
use go_be_arbitrage.Execution.Store.{
  Env, invalid_transition, create_execution_failed, create_leg_failed, ok, err, M, ◌>>=◌, ◌>>◌,
  return, wrap, new_uuid, time_now, insert_execution, get_execution_by_id, update_execution_status,
  insert_leg_row, list_legs_by_execution, insert_order, update_order_status,
}

pub data ExecutionPolicy : Type 0 where
  parallel sequential : ExecutionPolicy

-- `PolicySelector.Select`.
unfoldable pub select : {F : Type 0} → List (IntentLeg F) → ExecutionPolicy
select legs = if leb (length legs) 1 then parallel else sequential

-- `TransitionOrder`: the order moves, or the error carries both statuses.
unfoldable pub transition_order : {F : Type 0} → Order F → OrderStatus → M F (Order F)
transition_order order to s =
    if can_transition order.status to
    then ok (record order { status = to }) s
    else err (invalid_transition order.status to) s

abbrev pub is_paper : ExecutionMode → Bool
is_paper paper = true
is_paper _ = false

-- The first eight characters of an execution's id are all of it here: they are only compared.
module _ {F : Type 0} (env : Env) (short : ℕ → ℕ) where
  -- The loop of `CreateExecution`, from the leg with index `i` on.
  unfoldable pub create_legs : ℕ → ℕ → List (IntentLeg F) → M F (Unit {0})
  create_legs exec_id i [] = return tt
  create_legs exec_id i (req ∷ reqs) = new_uuid env >>= λ leg_id.
      wrap create_leg_failed (
        insert_leg_row env (record {
          id = leg_id;
          execution_id = exec_id;
          leg_index = i;
          venue_account_id = req.venue_account_id;
          instrument_id = req.instrument_id;
          target_side = req.side;
          target_quantity = some req.quantity;
          target_notional = some req.price;
          status = LegStatus.pending;
        }))
      >> create_legs exec_id (i + 1) reqs

  -- The execution of a request, given its id and time.
  abbrev pub new_execution : ℕ → CreateExecutionRequest F → ℕ → ℕ → Execution F
  new_execution tenant_id req exec_id now = record {
    id = exec_id;
    tenant_id = tenant_id;
    strategy_instance_id = req.strategy_instance_id;
    execution_mode = req.execution_mode;
    status = ExecutionStatus.created;
    intent = req.legs;
    created_at = now;
  }

  unfoldable pub create_execution : ℕ → CreateExecutionRequest F → M F (Execution F)
  unfolding create_legs
  create_execution tenant_id req = do
    exec_id ← new_uuid env
    now ← time_now env
    let exec = new_execution tenant_id req exec_id now
    wrap create_execution_failed (insert_execution env exec)
    create_legs exec_id 0 req.legs
    return exec

  unfoldable pub paper_order : Execution F → ExecutionLeg F → ℕ → ℕ → ℕ → Order F
  paper_order exec leg order_id created_at updated_at = record {
    id = order_id;
    execution_leg_id = some leg.id;
    venue_account_id = leg.venue_account_id;
    instrument_id = leg.instrument_id;
    client_order_id = paper_id (short exec.id) leg.leg_index;
    side = leg.target_side;
    requested_quantity = leg.target_quantity;
    requested_price = leg.target_notional;
    status = created;
    created_at = created_at;
    updated_at = updated_at;
  }

  -- The body of the loop of `executePaper`.
  unfoldable pub fill_leg : Execution F → ExecutionLeg F → M F (Unit {0})
  unfolding paper_order
  fill_leg exec leg = do
    order_id ← new_uuid env
    created_at ← time_now env
    updated_at ← time_now env
    let order = paper_order exec leg order_id created_at updated_at
    insert_order env order
    order' ← transition_order order submitting
    update_order_status env order'.id submitting
    order'' ← transition_order order' filled
    update_order_status env order''.id filled

  unfoldable pub fill_legs : Execution F → List (ExecutionLeg F) → M F (Unit {0})
  unfolding fill_leg
  fill_legs exec [] = return tt
  fill_legs exec (leg ∷ legs) = fill_leg exec leg >> fill_legs exec legs

  unfoldable pub execute_paper : Execution F → M F (Unit {0})
  unfolding fill_legs
  execute_paper exec = do
    update_execution_status env exec.id ExecutionStatus.submitting
    legs ← list_legs_by_execution env exec.id
    fill_legs exec legs
    update_execution_status env exec.id ExecutionStatus.completed

  unfoldable pub submit_execution : ℕ → M F (Unit {0})
  submit_execution exec_id = do
    exec ← get_execution_by_id env exec_id
    if is_paper exec.execution_mode
        then execute_paper exec
        else update_execution_status env exec_id ExecutionStatus.submitting

  unfoldable pub cancel_execution : ℕ → M F (Unit {0})
  cancel_execution exec_id = update_execution_status env exec_id ExecutionStatus.canceled

  unfoldable pub get_execution : ℕ → M F (Execution F)
  get_execution exec_id = get_execution_by_id env exec_id
