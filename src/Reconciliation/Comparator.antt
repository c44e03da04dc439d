-- ===== src/Reconciliation/Comparator.antt =====
-- internal/reconciliation/comparator.go.
use go_be_arbitrage.Prelude.{
  ℕ, ◌+◌, Bool, true, false, ◌&&◌, ◌||◌, not, Option, none, some, List, [], ◌∷◌, length, ltb, ◌==◌,
  if◌then◌else◌,
}
use go_be_arbitrage.Floats.{Float}
use go_be_arbitrage.Reconciliation.Model.{
  RunStatus, matched, mismatched, EntityType, balance, position, order, fill, margin, ItemResult,
  matches, mismatch, missing_internal, missing_external, unresolved, BalanceState, PositionState,
  OrderState, MarginState, FillState, State, of_balance, of_position, of_order, of_margin, of_fills,
  of_count, Diff, balance_diff, position_diff, order_diff, margin_diff, count_diff,
  ReconciliationItem, RunSummary,
}

abbrev pub new_item :
    {F : Type 0}
    → EntityType
    → ItemResult
    → Option (State F)
    → Option (State F)
    → Option (Diff F)
    → ReconciliationItem F
new_item entity result internal external diff = record {
  entity_type = entity;
  result = result;
  internal_state = internal;
  external_state = external;
  diff = diff;
}

-- The shape that four of the comparisons share: the nil checks, the test, and else the mismatch.
unfoldable pub compare_with :
    {F A : Type 0}
    → EntityType
    → (A → State F)
    → (A → A → Bool)
    → (A → A → Diff F)
    → Option A
    → Option A
    → ReconciliationItem F
compare_with entity show close diff none none = new_item entity matches none none none
compare_with entity show close diff none (some e) =
    new_item entity missing_internal none (some (show e)) none
compare_with entity show close diff (some i) none =
    new_item entity missing_external (some (show i)) none none
compare_with entity show close diff (some i) (some e) =
    if close i e
    then new_item entity matches (some (show i)) (some (show e)) none
    else new_item entity mismatch (some (show i)) (some (show e)) (some (diff i e))

module _ {F : Type 0} (f : Float F) where
  open f use {lit, sub, abs, lt}

  -- `math.Abs(a-b) < t`.
  abbrev pub within : F → F → F → Bool
  within t a b = lt (abs (sub a b)) t

  abbrev pub balance_close : BalanceState F → BalanceState F → Bool
  balance_close i e = within (lit 1 4) i.amount e.amount && within (lit 1 4) i.reserved e.reserved

  unfoldable pub compare_balance :
      Option (BalanceState F) → Option (BalanceState F) → ReconciliationItem F
  unfolding compare_with
  compare_balance =
      compare_with balance of_balance balance_close
        λ i e. balance_diff (sub i.amount e.amount) (sub i.reserved e.reserved) i.amount e.amount

  abbrev pub position_close : PositionState F → PositionState F → Bool
  position_close i e =
      (i.side == e.side)
      && within (lit 1 4) i.quantity e.quantity
      && within (lit 1 4) i.avg_price e.avg_price

  unfoldable pub compare_position :
      Option (PositionState F) → Option (PositionState F) → ReconciliationItem F
  unfolding compare_with
  compare_position = compare_with position of_position position_close λ i e.
      position_diff (not (i.side == e.side)) (sub i.quantity e.quantity)
        (sub i.avg_price e.avg_price)

  abbrev pub order_close : OrderState F → OrderState F → Bool
  order_close i e =
      (i.status == e.status)
      && within (lit 1 4) i.quantity e.quantity
      && within (lit 1 4) i.filled_qty e.filled_qty

  unfoldable pub compare_order :
      Option (OrderState F) → Option (OrderState F) → ReconciliationItem F
  unfolding compare_with
  compare_order = compare_with order of_order order_close λ i e.
      order_diff (not (i.status == e.status)) (sub i.quantity e.quantity)
        (sub i.filled_qty e.filled_qty)

  abbrev pub margin_close : MarginState F → MarginState F → Bool
  margin_close i e =
      within (lit 1 2) i.used_margin e.used_margin
      && within (lit 1 2) i.available_margin e.available_margin
      && within (lit 1 3) i.margin_ratio e.margin_ratio

  unfoldable pub compare_margin :
      Option (MarginState F) → Option (MarginState F) → ReconciliationItem F
  unfolding compare_with
  compare_margin = compare_with margin of_margin margin_close λ i e.
      margin_diff (sub i.margin_ratio e.margin_ratio) (sub i.used_margin e.used_margin)
        (sub i.available_margin e.available_margin)

  -- `extMap[id]`: the last fill with the id.
  unfoldable pub ext_fill : ℕ → List (FillState F) → Option (FillState F)
  ext_fill id [] = none
  ext_fill id (x ∷ xs) = elim (ext_fill id xs) [
    | some y ↦ some y
    | none ↦ if x.fill_id == id then some x else none
  ]

  -- The test of the loop's body.
  unfoldable pub fill_agrees : List (FillState F) → FillState F → Bool
  unfolding ext_fill
  fill_agrees external i = elim (ext_fill i.fill_id external) [
    | none ↦ false
    | some e ↦
        not (
          lt (lit 1 4) (abs (sub i.quantity e.quantity))
          || lt (lit 1 4) (abs (sub i.price e.price)))
  ]

  -- `allMatch` after the loop, which stops at the first fill that does not agree.
  unfoldable pub all_match : List (FillState F) → List (FillState F) → Bool
  unfolding fill_agrees
  all_match [] external = true
  all_match (i ∷ is) external = if fill_agrees external i then all_match is external else false

  unfoldable pub compare_fills : List (FillState F) → List (FillState F) → ReconciliationItem F
  unfolding all_match
  compare_fills [] [] = new_item fill matches none none none
  compare_fills [] (e ∷ es) =
      new_item fill missing_internal none (some (of_count (length (e ∷ es)))) none
  compare_fills (i ∷ is) [] =
      new_item fill missing_external (some (of_count (length (i ∷ is)))) none none
  compare_fills (i ∷ is) (e ∷ es) =
      if all_match (i ∷ is) (e ∷ es)
      then new_item fill matches (some (of_fills (i ∷ is))) (some (of_fills (e ∷ es))) none
      else new_item fill mismatch (some (of_fills (i ∷ is))) (some (of_fills (e ∷ es)))
          (some (count_diff (length (i ∷ is)) (length (e ∷ es))))

-- One item counted.
abbrev pub tally : ItemResult → RunSummary → RunSummary
tally matches s = record s { matched_items = s.matched_items + 1 }
tally mismatch s = record s { mismatched_items = s.mismatched_items + 1 }
tally missing_internal s = record s { missing_int = s.missing_int + 1 }
tally missing_external s = record s { missing_ext = s.missing_ext + 1 }
tally unresolved s = s

-- The loop of `SummarizeItems`.
unfoldable pub tallies : {F : Type 0} → List (ReconciliationItem F) → RunSummary → RunSummary
tallies [] s = s
tallies (x ∷ xs) s = tallies xs (tally x.result s)

unfoldable pub summarize_items : {F : Type 0} → List (ReconciliationItem F) → RunSummary
unfolding tallies
summarize_items items = tallies items (record {
  total_items = length items;
  matched_items = 0;
  mismatched_items = 0;
  missing_int = 0;
  missing_ext = 0;
})

unfoldable pub overall_status : RunSummary → RunStatus
overall_status s =
    if ltb 0 s.mismatched_items || ltb 0 s.missing_int || ltb 0 s.missing_ext
    then mismatched
    else matched
