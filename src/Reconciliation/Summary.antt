-- ===== src/Reconciliation/Summary.antt =====
-- internal/reconciliation/comparator.go: the counters of a run and its status.
use go_be_arbitrage.Prelude.{
  ℕ, ◌+◌, ◌≡◌, ◌≢◌, ◌↔◌, refl, Option, none, some, List, [], ◌∷◌, ◌++◌, arith, ◌==◌, if◌then◌else◌,
  length, All, All-append,
}
use go_be_arbitrage.Floats.{Float}
use go_be_arbitrage.Reconciliation.Model.{
  matched, ItemResult, matches, mismatch, missing_internal, missing_external, unresolved,
  BalanceState, PositionState, OrderState, MarginState, FillState, ReconciliationItem,
  ReconciliationRun, RunSummary,
}
use go_be_arbitrage.Reconciliation.Comparator.{
  compare_with, compare_balance, compare_position, compare_order, compare_margin, compare_fills,
  tallies, tally, summarize_items, overall_status,
}
use go_be_arbitrage.Reconciliation.Engine.{
  Adapter, Internal, balance_items, balance_item, position_items, position_item, order_items,
  ext_order, margin_items, all_order_items, fill_items, items_of,
}

abbrev rank : ItemResult → ℕ
rank matches = 0
rank mismatch = 1
rank missing_internal = 2
rank missing_external = 3
rank unresolved = 4

-- How many items have the result.
pub count_of : {F : Type 0} → ItemResult → List (ReconciliationItem F) → ℕ
count_of r [] = 0
count_of r (x ∷ xs) = (if rank x.result == rank r then 1 else 0) + count_of r xs

tallies-count_of :
    {F : Type 0} (xs : List (ReconciliationItem F)) (s : RunSummary)
    → ((tallies xs s).total_items ≡ s.total_items)
      × ((tallies xs s).matched_items ≡ s.matched_items + count_of matches xs)
      × ((tallies xs s).mismatched_items ≡ s.mismatched_items + count_of mismatch xs)
      × ((tallies xs s).missing_int ≡ s.missing_int + count_of missing_internal xs)
      × ((tallies xs s).missing_ext ≡ s.missing_ext + count_of missing_external xs)
unfolding tallies count_of
tallies-count_of [] s = (refl, omega arith, omega arith, omega arith, omega arith)
tallies-count_of (x ∷ xs) s =
    let (a, b, c, d, e) = tallies-count_of xs (tally x.result s) in
    (ground arith, ground arith, ground arith, ground arith, ground arith)

length-count_of :
    {F : Type 0} (xs : List (ReconciliationItem F))
    → length xs
      ≡ count_of matches xs
        + count_of mismatch xs
        + count_of missing_internal xs
        + count_of missing_external xs
        + count_of unresolved xs
unfolding count_of
length-count_of [] = refl
length-count_of (x ∷ xs) = ground (arith, length-count_of xs)

-- Every item is a match.
abbrev pub AllMatch : {F : Type 0} → List (ReconciliationItem F) → Type 0
AllMatch = All (λ x. x.result ≡ matches)

abbrev pub NoneUnresolved : {F : Type 0} → List (ReconciliationItem F) → Type 0
NoneUnresolved = All (λ x. x.result ≢ unresolved)

NoneUnresolved-append :
    {F : Type 0} (xs ys : List (ReconciliationItem F))
    → NoneUnresolved xs
    → NoneUnresolved ys
    → NoneUnresolved (xs ++ ys)
NoneUnresolved-append xs ys hx hy = All-append (λ x. x.result ≢ unresolved) xs ys hx hy

AllMatch-count_of :
    {F : Type 0} (xs : List (ReconciliationItem F))
    → NoneUnresolved xs
    → AllMatch xs
      ↔ (count_of mismatch xs + count_of missing_internal xs + count_of missing_external xs ≡ 0)
unfolding count_of
AllMatch-count_of [] n = (λ _. refl, λ _. tt)
AllMatch-count_of (x ∷ xs) n =
    let ih = AllMatch-count_of xs n.1 in
    (λ h. ground (arith, ih, h, n.0), λ h. ground (arith, ih, h, n.0))

-- The summary of items counts each result: its four counters are the numbers of matches,
-- mismatches and one-sided items, and together with the unresolved items they add up to the total.
pub summarize_items-count_of :
    {F : Type 0} (xs : List (ReconciliationItem F))
    → let s = summarize_items xs in
      (s.matched_items ≡ count_of matches xs)
      × (s.mismatched_items ≡ count_of mismatch xs)
      × (s.missing_int ≡ count_of missing_internal xs)
      × (s.missing_ext ≡ count_of missing_external xs)
      × (s.total_items
          ≡ s.matched_items
            + s.mismatched_items
            + s.missing_int
            + s.missing_ext
            + count_of unresolved xs)
unfolding summarize_items
summarize_items-count_of xs =
    let (a, b, c, d, e) = tallies-count_of xs (record {
      total_items = length xs;
      matched_items = 0;
      mismatched_items = 0;
      missing_int = 0;
      missing_ext = 0;
    }) in
    let total = length-count_of xs in
    (omega arith, omega arith, omega arith, omega arith, omega arith)

-- The status of a list of items without unresolved ones is MATCHED exactly when each is a match.
pub overall_status_iff :
    {F : Type 0} (xs : List (ReconciliationItem F))
    → NoneUnresolved xs
    → (overall_status (summarize_items xs) ≡ matched) ↔ AllMatch xs
unfolding overall_status
overall_status_iff xs n =
    let (a, b, c, d, e) = summarize_items-count_of xs in
    let all = AllMatch-count_of xs n in
    (λ h. all.1 (ground arith), λ h. (let zero_bad = all.0 h in ground arith))

module _ {F : Type 0} (f : Float F) where
  compare_balance-resolved :
      (a b : Option (BalanceState F)) → (compare_balance f a b).result ≢ unresolved
  unfolding compare_balance compare_with
  compare_balance-resolved none none = λ e. cc
  compare_balance-resolved none (some y) = λ e. cc
  compare_balance-resolved (some x) none = λ e. cc
  compare_balance-resolved (some x) (some y) = ground arith

  compare_position-resolved :
      (a b : Option (PositionState F)) → (compare_position f a b).result ≢ unresolved
  unfolding compare_position compare_with
  compare_position-resolved none none = λ e. cc
  compare_position-resolved none (some y) = λ e. cc
  compare_position-resolved (some x) none = λ e. cc
  compare_position-resolved (some x) (some y) = ground arith

  compare_order-resolved : (a b : Option (OrderState F)) → (compare_order f a b).result ≢ unresolved
  unfolding compare_order compare_with
  compare_order-resolved none none = λ e. cc
  compare_order-resolved none (some y) = λ e. cc
  compare_order-resolved (some x) none = λ e. cc
  compare_order-resolved (some x) (some y) = ground arith

  compare_margin-resolved :
      (a b : Option (MarginState F)) → (compare_margin f a b).result ≢ unresolved
  unfolding compare_margin compare_with
  compare_margin-resolved none none = λ e. cc
  compare_margin-resolved none (some y) = λ e. cc
  compare_margin-resolved (some x) none = λ e. cc
  compare_margin-resolved (some x) (some y) = ground arith

  compare_fills-resolved :
      (is es : List (FillState F)) → (compare_fills f is es).result ≢ unresolved
  unfolding compare_fills
  compare_fills-resolved [] [] = λ e. cc
  compare_fills-resolved [] (e ∷ es) = λ e. cc
  compare_fills-resolved (i ∷ is) [] = λ e. cc
  compare_fills-resolved (i ∷ is) (e ∷ es) = ground arith

  balance_items-NoneUnresolved :
      (get : ℕ → Option (F × F)) (bs : List (BalanceState F))
      → NoneUnresolved (balance_items f get bs)
  unfolding balance_items
  balance_items-NoneUnresolved get [] = tt
  balance_items-NoneUnresolved get (b ∷ bs) =
      NoneUnresolved-append (balance_item f b (get b.asset)) (balance_items f get bs)
        (one (get b.asset)) (balance_items-NoneUnresolved get bs)
    where
      one : (r : Option (F × F)) → NoneUnresolved (balance_item f b r)
      one none = tt
      one (some (x, y)) = (compare_balance-resolved (some b) (some _), tt)

  position_items-NoneUnresolved :
      (get : ℕ → Option (Option (PositionState F))) (ps : List (PositionState F))
      → NoneUnresolved (position_items f get ps)
  unfolding position_items
  position_items-NoneUnresolved get [] = tt
  position_items-NoneUnresolved get (p ∷ ps) =
      NoneUnresolved-append (position_item f p (get p.symbol)) (position_items f get ps)
        (one (get p.symbol)) (position_items-NoneUnresolved get ps)
    where
      one : (r : Option (Option (PositionState F))) → NoneUnresolved (position_item f p r)
      one none = tt
      one (some x) = (compare_position-resolved (some p) x, tt)

  order_items-NoneUnresolved :
      (external os : List (OrderState F)) → NoneUnresolved (order_items f external os)
  unfolding order_items
  order_items-NoneUnresolved external [] = tt
  order_items-NoneUnresolved external (o ∷ os) = (
    compare_order-resolved (some o) (ext_order f o.order_id external),
    order_items-NoneUnresolved external os,
  )

  all_order_items-NoneUnresolved :
      (os : List (OrderState F)) (r : Option (List (OrderState F)))
      → NoneUnresolved (all_order_items f os r)
  all_order_items-NoneUnresolved os none = tt
  all_order_items-NoneUnresolved os (some external) = order_items-NoneUnresolved external os

  margin_items-NoneUnresolved :
      (m : Option (MarginState F)) (r : Option (Option (MarginState F)))
      → NoneUnresolved (margin_items f m r)
  margin_items-NoneUnresolved m none = tt
  margin_items-NoneUnresolved m (some x) = (compare_margin-resolved m x, tt)

  fill_items-NoneUnresolved :
      (is : List (FillState F)) (r : Option (List (FillState F)))
      → NoneUnresolved (fill_items f is r)
  fill_items-NoneUnresolved is none = tt
  fill_items-NoneUnresolved is (some es) = (compare_fills-resolved is es, tt)

  -- No comparison of a run leaves an item unresolved.
  pub items_of-NoneUnresolved :
      (a : Adapter F) (i : Internal F) (run : ReconciliationRun)
      → NoneUnresolved (items_of f a i run)
  unfolding items_of
  items_of-NoneUnresolved a i run =
      NoneUnresolved-append _ _ (margin_items-NoneUnresolved i.margin_state a.get_margin_state) (
        NoneUnresolved-append _ _ (balance_items-NoneUnresolved a.get_balance i.balances) (
          NoneUnresolved-append _ _ (position_items-NoneUnresolved a.get_position i.positions) (
            NoneUnresolved-append _ _ (all_order_items-NoneUnresolved i.orders a.get_open_orders)
              (fill_items-NoneUnresolved i.fills (a.get_fills run.started_at)))))
