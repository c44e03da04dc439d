-- ===== src/Trader/Tests.antt =====
-- Tests of internal/trader/reconstruct.go: the theorems at concrete inputs, with decimals for float64
-- and with fills that are already in order.
use mathlib.Core.List.Permᴰ
use go_be_arbitrage.Prelude.{
  ◌^◌, ℕ, ◌+◌, ◌*◌, ◌-◌, ◌≡◌, ◌↔◌, refl, Bool, true, false, none, some, List, [], ◌∷◌, ◌++◌, arith,
  length, All,
}
use go_be_arbitrage.Prelude.Int.{ℤ, pos, negsuc, pos_part, neg_part, ◌+ℤ◌, ◌-ℤ◌}
use go_be_arbitrage.Floats.{decimal_float, scale}
use go_be_arbitrage.Trader.Model.{Fill, CompletedTrade}
use go_be_arbitrage.Trader.Reconstruct.{reconstruct_trades, apply_fills, no_books, zero_f}
use go_be_arbitrage.Trader.Watcher.{
  live, WatcherManager, on_order, resynced, order_created, no_snapshot,
}
use go_be_arbitrage.Trader.References.{
  ManagerCall, subscribes, unsubscribes, retains, releases, connects, resyncs, fills, counts,
  run_calls, no_watchers, IsCounted,
}
use go_be_arbitrage.Trader.Kept.{run_calls-IsCounted}
use go_be_arbitrage.Trader.Resync.{order_created_again}
use go_be_arbitrage.Trader.Counts.{fill_count, trade_fills, cycle_fills, fill_count-booked}
use go_be_arbitrage.Trader.Exact.{IsExact}
use go_be_arbitrage.Trader.Room.{IsWhole}
use go_be_arbitrage.Trader.Balance.{IsBalanced, Fits, reconstruct_trades-IsBalanced}
use go_be_arbitrage.Trader.Rollup.{Agrees, rollup_day, win_rate_pct, rollup_day-Agrees}

decimal_IsExact : IsExact decimal_float
unfolding decimal_float ◌+ℤ◌ ◌-ℤ◌
decimal_IsExact = record {
  number = λ x. Unit;
  up = pos_part;
  down = neg_part;
  bound = 2 ^ 53;
  zero_number = tt;
  zero_parts = refl;
  neg_number = λ x n. tt;
  neg_parts = λ x n. ground arith;
  add_exact = λ x y n k a b. (tt, ground arith);
  lt_parts = λ x y n k. ground arith;
  eq_parts = λ x y n k. ground arith;
}

-- A long of 3 that turns at 200 into a short of 1 (a fill of 4), which the last fill closes.
abbrev fill : Bool → ℕ → ℕ → ℕ → ℤ → Fill ℤ
fill buy n qty price result = record {
  tid = n;
  market = 1;
  filled_at = n;
  buy = buy;
  quantity = pos (qty * scale);
  price = pos (price * scale);
  closed_pnl = result;
  fee = pos 5;
}

abbrev some_fills : List (Fill ℤ)
some_fills =
    fill true 1 2 100 (pos 0)
    ∷ fill true 2 1 130 (pos 0)
    ∷ fill false 3 4 200 (pos 270)
    ∷ fill true 4 1 210 (negsuc 9)
    ∷ []

abbrev as_given : (Fill ℤ → Fill ℤ → Bool) → List (Fill ℤ) → List (Fill ℤ)
as_given less xs = xs

-- The turn closes the long, and the last fill the short.
two_trades : length (reconstruct_trades decimal_float as_given some_fills) ≡ 2
unfolding reconstruct_trades decimal_float
two_trades = refl

fill_count-booked_example :
    trade_fills 1 (reconstruct_trades decimal_float as_given some_fills)
      + cycle_fills ((apply_fills decimal_float (no_books decimal_float) some_fills).open_cycles 1)
    ≡ fill_count decimal_float 1 some_fills
fill_count-booked_example =
    fill_count-booked decimal_float as_given some_fills 1 (Permᴰ.refl some_fills)

some_fills-Fits : Fits decimal_float decimal_IsExact 0 some_fills
unfolding decimal_IsExact
some_fills-Fits = ground arith

reconstruct_trades-IsBalanced_example :
    IsBalanced decimal_float decimal_IsExact
      (apply_fills decimal_float (no_books decimal_float) some_fills)
    × All (λ t. IsWhole t) (reconstruct_trades decimal_float as_given some_fills)
reconstruct_trades-IsBalanced_example =
    reconstruct_trades-IsBalanced decimal_float decimal_IsExact as_given some_fills some_fills-Fits

abbrev elapsed : ℕ → ℕ → ℤ
elapsed u t = pos ((t - u) * scale)

abbrev some_trades : List (CompletedTrade ℤ)
unfolding reconstruct_trades
some_trades = reconstruct_trades decimal_float as_given some_fills

zero_not_above :
    (x : ℤ)
    → decimal_float.eq x (zero_f decimal_float) ≡ true
    → decimal_float.lt (zero_f decimal_float) x ≡ false
unfolding decimal_float
zero_not_above x e = ground arith

rollup_day-Agrees_example :
    let s = rollup_day decimal_float elapsed some_fills some_trades in
    Agrees decimal_float s
    × (s.trade_count ≡ length some_trades)
    × (win_rate_pct decimal_float s.win_count s.loss_count ≡ none
        ↔ s.breakeven_count ≡ length some_trades)
rollup_day-Agrees_example =
    rollup_day-Agrees decimal_float elapsed some_fills some_trades zero_not_above

-- Two browsers and a notifier at wallet 7; all leave while wallet 8 stays.
abbrev some_calls : List (ManagerCall ℕ ℕ ℕ)
some_calls =
    subscribes 7
    ∷ connects 0
    ∷ subscribes 8
    ∷ fills 7 3
    ∷ subscribes 7
    ∷ resyncs 0 no_snapshot
    ∷ retains 7
    ∷ unsubscribes 7
    ∷ unsubscribes 7
    ∷ releases 7
    ∷ []

run_calls-IsCounted_example :
    IsCounted (run_calls some_calls no_watchers) (λ x. counts x some_calls (0, 0))
run_calls-IsCounted_example = run_calls-IsCounted some_calls

abbrev watched : WatcherManager ℕ ℕ ℕ
watched = record no_watchers { watchers = λ x. some 0; next = 1 }

order_created_again_example :
    let m1 = on_order 7 5 50 watched in
    let m2 = resynced 0 no_snapshot m1 in
    ((m2.heap 0).snapshot ≡ no_snapshot)
    × ((m2.heap 0).state ≡ live)
    × ((on_order 7 5 51 m2).log ≡ m2.log ++ (7, order_created 51 live) ∷ [])
order_created_again_example = order_created_again watched 0 7 5 50 51 no_snapshot refl refl
