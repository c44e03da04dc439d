-- ===== src/Execution/Model.antt =====
-- internal/execution/model.go: executions, legs, orders and intents. `F` is the type of a float64,
-- which this package only passes on; ids and texts that are only compared are numbers.
use go_be_arbitrage.Prelude.{ℕ, Option, List}
use go_be_arbitrage.Execution.Status.{OrderStatus}

-- The three modes, and any other string.
pub data ExecutionMode : Type 0 where
  paper live_manual live_auto : ExecutionMode
  other_mode : ℕ → ExecutionMode

pub data ExecutionStatus : Type 0 where
  created risk_approved awaiting_approval planned submitting partial completed : ExecutionStatus
  recovery failed canceled : ExecutionStatus

pub data LegStatus : Type 0 where
  pending submitting opened partial filled failed canceled recovery : LegStatus

pub data Side : Type 0 where
  buy sell : Side

-- `fmt.Sprintf("paper-%s-%d", …)` of the engine, from the execution id's first eight characters
-- and the leg index; or the text of a client.
pub data ClientOrderId : Type 0 where
  paper_id : ℕ → ℕ → ClientOrderId
  client_id : ℕ → ClientOrderId

pub record IntentLeg (F : Type 0) : Type 0 where
  pub venue_account_id : ℕ
  pub instrument_id : ℕ
  pub side : Side
  pub quantity : F
  pub price : F

pub record CreateExecutionRequest (F : Type 0) : Type 0 where
  pub strategy_instance_id : ℕ
  pub execution_mode : ExecutionMode
  pub legs : List (IntentLeg F)

-- The columns that the queries write and read; the intent is kept as its legs.
pub record Execution (F : Type 0) : Type 0 where
  pub id : ℕ
  pub tenant_id : ℕ
  pub strategy_instance_id : ℕ
  pub execution_mode : ExecutionMode
  pub status : ExecutionStatus
  pub intent : List (IntentLeg F)
  pub created_at : ℕ

pub record ExecutionLeg (F : Type 0) : Type 0 where
  pub id : ℕ
  pub execution_id : ℕ
  pub leg_index : ℕ
  pub venue_account_id : ℕ
  pub instrument_id : ℕ
  pub target_side : Side
  pub target_quantity : Option F
  pub target_notional : Option F
  pub status : LegStatus

pub record Order (F : Type 0) : Type 0 where
  pub id : ℕ
  pub execution_leg_id : Option ℕ
  pub venue_account_id : ℕ
  pub instrument_id : ℕ
  pub client_order_id : ClientOrderId
  pub side : Side
  pub requested_quantity : Option F
  pub requested_price : Option F
  pub status : OrderStatus
  pub created_at : ℕ
  pub updated_at : ℕ
