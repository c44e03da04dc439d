-- ===== src/Reconciliation/Tests.antt =====
-- Tests of internal/reconciliation: the theorems at concrete inputs, with decimals for float64.
use go_be_arbitrage.Prelude.{ℕ, ◌≡◌, ◌≢◌, ◌↔◌, refl, false, none, some, List, [], ◌∷◌, ◌⊎◌, ◌==◌}
use go_be_arbitrage.Prelude.Int.{ℤ, pos}
use go_be_arbitrage.Floats.{decimal_float, decimal_abs_sub}
use go_be_arbitrage.Reconciliation.Model.{
  matches, running, matched, BalanceState, PositionState, OrderState, MarginState, FillState,
  ReconciliationItem, ReconciliationRun,
}
use go_be_arbitrage.Reconciliation.Comparator.{
  compare_balance, compare_position, compare_order, compare_margin, compare_fills, summarize_items,
  overall_status,
}
use go_be_arbitrage.Reconciliation.Engine.{
  Adapter, Internal, Store, items_of, find_run, finish_run, run_checks,
}
use go_be_arbitrage.Reconciliation.Mirror.{mirror, compare-mirror}
use go_be_arbitrage.Reconciliation.Extra.{
  AllAgree, done, takes_left, takes_right, extra_fills_ignored, extra_orders_ignored, NoneIn,
  NoOrderIn,
}
use go_be_arbitrage.Reconciliation.Summary.{AllMatch}
use go_be_arbitrage.Reconciliation.Runs.{
  Finished, Stopped, run_checks-Finished, silent, silent_matches,
}

abbrev decimal : ℕ → ℤ
decimal n = decimal_float.of_int (pos n)

abbrev wallet : ℕ → BalanceState ℤ
wallet n = record { asset = 1; amount = decimal n; reserved = decimal 0 }

abbrev holding : PositionState ℤ
holding = record { symbol = 2; side = 0; quantity = decimal 3; avg_price = decimal 50 }

abbrev ticket : ℕ → OrderState ℤ
ticket n = record { order_id = n; quantity = decimal 3; status = 1; filled_qty = decimal 1 }

abbrev cover : MarginState ℤ
cover = record { used_margin = decimal 5; available_margin = decimal 6; margin_ratio = decimal 1 }

abbrev trade : ℕ → FillState ℤ
trade n = record { fill_id = n; quantity = decimal 3; price = decimal 50 }

compare-mirror_example :
    ((compare_balance decimal_float none (some (wallet 7))).result
      ≡ mirror (compare_balance decimal_float (some (wallet 7)) none).result)
    × ((compare_position decimal_float (some holding) (some holding)).result
        ≡ mirror (compare_position decimal_float (some holding) (some holding)).result)
    × ((compare_order decimal_float (some (ticket 2)) none).result
        ≡ mirror (compare_order decimal_float none (some (ticket 2))).result)
    × ((compare_margin decimal_float none (some cover)).result
        ≡ mirror (compare_margin decimal_float (some cover) none).result)
compare-mirror_example =
    compare-mirror decimal_float (some (wallet 7)) none (some holding) (some holding) none
      (some (ticket 2)) (some cover) none decimal_abs_sub

no_fill_shared : NoneIn decimal_float (trade 1 ∷ []) (trade 2 ∷ [])
no_fill_shared = ((refl, tt), tt)

extra_fills_ignored_example :
    ((compare_fills decimal_float (trade 1 ∷ []) (trade 2 ∷ trade 1 ∷ [])).result
      ≡ (compare_fills decimal_float (trade 1 ∷ []) (trade 1 ∷ [])).result)
    × ((compare_fills decimal_float (trade 1 ∷ []) (trade 2 ∷ trade 1 ∷ [])).result ≡ matches
        ↔ AllAgree decimal_float (trade 1 ∷ []) (trade 1 ∷ []))
extra_fills_ignored_example =
    extra_fills_ignored decimal_float (trade 1) (trade 1) (trade 2) [] [] (trade 1 ∷ [])
      (takes_right (trade 2) (takes_left (trade 1) done)) no_fill_shared

abbrev known : Internal ℤ
known = record {
  balances = wallet 7 ∷ [];
  positions = holding ∷ [];
  orders = ticket 1 ∷ [];
  fills = trade 1 ∷ [];
  margin_state = some cover;
}

abbrev answering : Adapter ℤ
answering = record {
  get_balance = λ a. some (decimal 7, decimal 0);
  get_position = λ p. some (some holding);
  get_open_orders = some (ticket 1 ∷ []);
  get_fills = λ t. some (trade 1 ∷ []);
  get_margin_state = some (some cover);
}

abbrev started : ReconciliationRun
started = record { id = 4; status = running; started_at = 9; completed_at = none; summary = none }

abbrev tables : Store ℤ
tables = record { runs = started ∷ []; items = []; statements = 0 }

find_started : find_run 4 tables.runs ≡ some started
unfolding find_run
find_started = refl

find_missing : find_run 5 tables.runs ≡ none
unfolding find_run
find_missing = refl

no_order_shared : NoOrderIn decimal_float known.orders (ticket 2 ∷ [])
no_order_shared = ((refl, tt), tt)

extra_orders_ignored_example :
    run_checks
      (λ n. false)
      decimal_float
      4
      (record answering { get_open_orders = some (ticket 2 ∷ ticket 1 ∷ []) })
      known
      20
      tables
    ≡ run_checks
        (λ n. false)
        decimal_float
        4
        (record answering { get_open_orders = some (ticket 1 ∷ []) })
        known
        20
        tables
extra_orders_ignored_example =
    extra_orders_ignored decimal_float (λ n. false) 4 20 answering known tables
      (takes_right (ticket 2) (takes_left (ticket 1) done)) no_order_shared

abbrev sample_items : List (ReconciliationItem ℤ)
sample_items =
    compare_balance decimal_float (some (wallet 7)) none
    ∷ compare_position decimal_float (some holding) none
    ∷ []

run_checks-Finished_example :
    let (t, e) = run_checks (λ n. n == 3) decimal_float 4 answering known 20 tables in
    let items = items_of decimal_float answering known started in
    (((e ≡ none) × Finished (λ n. n == 3) 4 items 20 tables t)
      ⊎ ((e ≢ none) × Stopped (λ n. n == 3) 4 items tables t))
    × ((overall_status (summarize_items items) ≡ matched) ↔ AllMatch items)
run_checks-Finished_example =
    run_checks-Finished (λ n. n == 3) decimal_float 4 answering known 20 tables started find_started
      refl refl

silent_matches_example :
    let (t, e) = run_checks (λ n. false) decimal_float 4 silent known 20 tables in
    (e ≡ none)
    × (t.items ≡ [])
    × (t.runs
        ≡ finish_run 4 matched
            (record {
              total_items = 0;
              matched_items = 0;
              mismatched_items = 0;
              missing_int = 0;
              missing_ext = 0;
            })
            20
            tables.runs)
silent_matches_example = silent_matches decimal_float 4 known 20 tables started find_started refl
