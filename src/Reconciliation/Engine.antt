-- ===== src/Reconciliation/Engine.antt =====
-- internal/reconciliation/engine.go and the statements of repository.go that it runs. `Adapter` is
-- what the exchange answers during a run, with `none` for an error.
use go_be_arbitrage.Prelude.{
  ℕ, ◌+◌, Bool, true, false, Option, none, some, List, [], ◌∷◌, ◌++◌, ◌==◌, if◌then◌else◌,
}
use go_be_arbitrage.Floats.{Float}
use go_be_arbitrage.Reconciliation.Model.{
  RunStatus, running, BalanceState, PositionState, OrderState, MarginState, FillState,
  ReconciliationItem, RunSummary, ReconciliationRun,
}
use go_be_arbitrage.Reconciliation.Comparator.{
  compare_balance, compare_position, compare_order, compare_margin, compare_fills, summarize_items,
  overall_status,
}

pub record Adapter (F : Type 0) : Type 0 where
  pub get_balance : ℕ → Option (F × F)
  pub get_position : ℕ → Option (Option (PositionState F))
  pub get_open_orders : Option (List (OrderState F))
  pub get_fills : ℕ → Option (List (FillState F))
  pub get_margin_state : Option (Option (MarginState F))

-- The arguments of `RunChecks`.
pub record Internal (F : Type 0) : Type 0 where
  pub balances : List (BalanceState F)
  pub positions : List (PositionState F)
  pub orders : List (OrderState F)
  pub fills : List (FillState F)
  pub margin_state : Option (MarginState F)

module _ {F : Type 0} (f : Float F) where
  abbrev pub margin_items :
      Option (MarginState F) → Option (Option (MarginState F)) → List (ReconciliationItem F)
  margin_items internal none = []
  margin_items internal (some external) = compare_margin f internal external ∷ []

  abbrev pub balance_item : BalanceState F → Option (F × F) → List (ReconciliationItem F)
  balance_item b none = []
  balance_item b (some (amount, reserved)) =
      compare_balance f (some b)
        (some (record { asset = b.asset; amount = amount; reserved = reserved }))
      ∷ []

  unfoldable pub balance_items :
      (ℕ → Option (F × F)) → List (BalanceState F) → List (ReconciliationItem F)
  balance_items get [] = []
  balance_items get (b ∷ bs) = balance_item b (get b.asset) ++ balance_items get bs

  abbrev pub position_item :
      PositionState F → Option (Option (PositionState F)) → List (ReconciliationItem F)
  position_item p none = []
  position_item p (some external) = compare_position f (some p) external ∷ []

  unfoldable pub position_items :
      (ℕ → Option (Option (PositionState F))) → List (PositionState F) → List (ReconciliationItem F)
  position_items get [] = []
  position_items get (p ∷ ps) = position_item p (get p.symbol) ++ position_items get ps

  -- `extOrderMap[id]`: the last order with the id, or nil.
  unfoldable pub ext_order : ℕ → List (OrderState F) → Option (OrderState F)
  ext_order id [] = none
  ext_order id (x ∷ xs) = elim (ext_order id xs) [
    | some y ↦ some y
    | none ↦ if x.order_id == id then some x else none
  ]

  unfoldable pub order_items :
      List (OrderState F) → List (OrderState F) → List (ReconciliationItem F)
  unfolding ext_order
  order_items external [] = []
  order_items external (o ∷ os) =
      compare_order f (some o) (ext_order o.order_id external) ∷ order_items external os

  abbrev pub all_order_items :
      List (OrderState F) → Option (List (OrderState F)) → List (ReconciliationItem F)
  all_order_items internal none = []
  all_order_items internal (some external) = order_items external internal

  abbrev pub fill_items :
      List (FillState F) → Option (List (FillState F)) → List (ReconciliationItem F)
  fill_items internal none = []
  fill_items internal (some external) = compare_fills f internal external ∷ []

  -- The items of a run, in the order in which they are appended.
  unfoldable pub items_of : Adapter F → Internal F → ReconciliationRun → List (ReconciliationItem F)
  unfolding balance_items position_items order_items
  items_of adapter internal run =
      margin_items internal.margin_state adapter.get_margin_state
      ++ (balance_items adapter.get_balance internal.balances
          ++ (position_items adapter.get_position internal.positions
              ++ (all_order_items internal.orders adapter.get_open_orders
                  ++ fill_items internal.fills (adapter.get_fills run.started_at))))

-- The tables, and the number of statements run; an item is stored with its run's id.
pub record Store (F : Type 0) : Type 0 where
  pub runs : List ReconciliationRun
  pub items : List (ℕ × ReconciliationItem F)
  pub statements : ℕ

pub data RunError : Type 0 where
  get_run_failed run_not_running create_item_failed update_run_failed : RunError

unfoldable pub find_run : ℕ → List ReconciliationRun → Option ReconciliationRun
find_run id [] = none
find_run id (x ∷ xs) = if x.id == id then some x else find_run id xs

unfoldable pub finish_run :
    ℕ → RunStatus → RunSummary → ℕ → List ReconciliationRun → List ReconciliationRun
finish_run id status summary now [] = []
finish_run id status summary now (x ∷ xs) =
    (if x.id == id
      then record x { status = status; completed_at = some now; summary = some summary }
      else x)
    ∷ finish_run id status summary now xs

abbrev pub is_running : RunStatus → Bool
is_running running = true
is_running _ = false

-- `down n`: the server refuses the n-th statement; `now` is the time of the update.
module _ {F : Type 0} (down : ℕ → Bool) where
  abbrev pub counted : Store F → Store F
  counted s = record s { statements = s.statements + 1 }

  -- The loop of `CreateItem` calls; the flag says that none was refused.
  unfoldable pub create_items : ℕ → List (ReconciliationItem F) → Store F → Store F × Bool
  create_items run_id [] s = (s, true)
  create_items run_id (x ∷ xs) s =
      let rest =
        create_items run_id xs (record (counted s) { items = s.items ++ (run_id, x) ∷ [] }) in
      if down s.statements then (counted s, false) else rest

  -- `UpdateRunStatus`.
  unfoldable pub update_run_status :
      ℕ → RunStatus → RunSummary → ℕ → Store F → Store F × Option RunError
  unfolding finish_run
  update_run_status run_id status summary now s =
      if down s.statements
      then (counted s, some update_run_failed)
      else (record (counted s) { runs = finish_run run_id status summary now s.runs }, none)

  -- The end of `RunChecks`, from the items on.
  unfoldable pub store_results :
      ℕ → List (ReconciliationItem F) → ℕ → Store F → Store F × Option RunError
  unfolding create_items update_run_status summarize_items overall_status
  store_results run_id items now s =
      let (t, all_stored) = create_items run_id items s in
      let summary = summarize_items items in
      if all_stored
      then update_run_status run_id (overall_status summary) summary now t
      else (t, some create_item_failed)

  -- `RunChecks`, given the items that the run's comparisons make.
  unfoldable pub check_run :
      ℕ
      → (ReconciliationRun → List (ReconciliationItem F))
      → ℕ
      → Store F
      → Store F × Option RunError
  unfolding store_results find_run
  check_run run_id items now s =
      if down s.statements
      then (counted s, some get_run_failed)
      else elim (find_run run_id s.runs) [
        | none ↦ (counted s, some get_run_failed)
        | some run ↦
            if is_running run.status
            then store_results run_id (items run) now (counted s)
            else (counted s, some run_not_running)
      ]

  unfoldable pub run_checks :
      Float F → ℕ → Adapter F → Internal F → ℕ → Store F → Store F × Option RunError
  unfolding check_run items_of
  run_checks f run_id adapter internal = check_run run_id (items_of f adapter internal)
