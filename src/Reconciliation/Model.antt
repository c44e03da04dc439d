-- ===== src/Reconciliation/Model.antt =====
-- internal/reconciliation/model.go. Ids, symbols and other texts that are only compared are numbers;
-- `F` is the type of a float64.
use go_be_arbitrage.Prelude.{ℕ, Bool, Option, List}

pub data RunStatus : Type 0 where
  running matched mismatched failed : RunStatus

pub data EntityType : Type 0 where
  balance position order fill margin : EntityType

pub data ItemResult : Type 0 where
  matches mismatch missing_internal missing_external unresolved : ItemResult

pub record BalanceState (F : Type 0) : Type 0 where
  pub asset : ℕ
  pub amount : F
  pub reserved : F

pub record PositionState (F : Type 0) : Type 0 where
  pub symbol : ℕ
  pub side : ℕ
  pub quantity : F
  pub avg_price : F

pub record OrderState (F : Type 0) : Type 0 where
  pub order_id : ℕ
  pub quantity : F
  pub status : ℕ
  pub filled_qty : F

pub record MarginState (F : Type 0) : Type 0 where
  pub used_margin : F
  pub available_margin : F
  pub margin_ratio : F

pub record FillState (F : Type 0) : Type 0 where
  pub fill_id : ℕ
  pub quantity : F
  pub price : F

-- What an item shows of one side.
pub data State (F : Type 0) : Type 0 where
  of_balance : BalanceState F → State F
  of_position : PositionState F → State F
  of_order : OrderState F → State F
  of_margin : MarginState F → State F
  of_fills : List (FillState F) → State F
  of_count : ℕ → State F

-- The `diff` of a mismatch, with the values of its keys.
pub data Diff (F : Type 0) : Type 0 where
  balance_diff : F → F → F → F → Diff F
  position_diff : Bool → F → F → Diff F
  order_diff : Bool → F → F → Diff F
  margin_diff : F → F → F → Diff F
  count_diff : ℕ → ℕ → Diff F

-- The id, the run and the creation time of an item are kept where it is stored.
pub record ReconciliationItem (F : Type 0) : Type 0 where
  pub entity_type : EntityType
  pub result : ItemResult
  pub internal_state : Option (State F)
  pub external_state : Option (State F)
  pub diff : Option (Diff F)

pub record RunSummary : Type 0 where
  pub total_items : ℕ
  pub matched_items : ℕ
  pub mismatched_items : ℕ
  pub missing_int : ℕ
  pub missing_ext : ℕ

pub record ReconciliationRun : Type 0 where
  pub id : ℕ
  pub status : RunStatus
  pub started_at : ℕ
  pub completed_at : Option ℕ
  pub summary : Option RunSummary
