-- ===== src/Trader/Rollup.antt =====
-- internal/trader/reconstruct.go: `RollupDay` and the ratios made of its sums. `seconds` is
-- `CloseTime.Sub(OpenTime).Seconds()`; the wallet, the venue and the date are left out.
use go_be_arbitrage.Prelude.{
  ℕ, ◌+◌, ◌≤◌, ◌≡◌, ◌↔◌, ◌==◌, refl, Bool, true, false, Option, none, some, List, [], ◌∷◌, arith,
  ltb, length, if◌then◌else◌,
}
use go_be_arbitrage.Prelude.Int.{pos}
use go_be_arbitrage.Floats.{Float}
use go_be_arbitrage.Trader.Model.{Fill, CompletedTrade}
use go_be_arbitrage.Trader.Reconstruct.{abs_f, zero_f}

pub record DailyStats (F : Type 0) : Type 0 where
  pub trade_count : ℕ
  pub win_count : ℕ
  pub loss_count : ℕ
  pub breakeven_count : ℕ
  pub realized_pnl : F
  pub fees : F
  pub volume : F
  pub gross_profit : F
  pub gross_loss : F
  pub long_count : ℕ
  pub long_wins : ℕ
  pub short_count : ℕ
  pub short_wins : ℕ
  pub holding_time_sec_sum : F
  pub holding_time_sec_count : ℕ
  pub last_trade_at : Option ℕ

abbrev pub one_if : Bool → ℕ
one_if b = if b then 1 else 0

abbrev pub later : Option ℕ → ℕ → Option ℕ
later none t = some t
later (some u) t = if ltb u t then some t else some u

module _ {F : Type 0} (f : Float F) where
  open f use {lit, of_int, add, sub, mul, div, neg, lt, eq}

  unfoldable pub net : CompletedTrade F → F
  net t = sub t.pnl t.fees

  unfoldable pub win : CompletedTrade F → Bool
  unfolding net
  win t = lt (zero_f f) (net t)

  unfoldable pub breakeven : CompletedTrade F → Bool
  unfolding net
  breakeven t = eq (net t) (zero_f f)

  -- The body of the loop over the trades.
  unfoldable pub add_trade : (ℕ → ℕ → F) → CompletedTrade F → DailyStats F → DailyStats F
  unfolding win breakeven
  add_trade seconds t s =
      let n = net t in
      let won = win t in
      let even = breakeven t in
      record s {
        trade_count = s.trade_count + 1;
        breakeven_count = s.breakeven_count + one_if even;
        win_count = s.win_count + (if even then 0 else one_if won);
        loss_count = s.loss_count + (if even then 0 else (if won then 0 else 1));
        realized_pnl = add s.realized_pnl n;
        gross_profit = (if lt (zero_f f) n then add s.gross_profit n else s.gross_profit);
        gross_loss =
            (if lt (zero_f f) n
              then s.gross_loss
              else (if lt n (zero_f f) then add s.gross_loss n else s.gross_loss));
        long_count = s.long_count + one_if t.long;
        long_wins = s.long_wins + (if t.long then one_if won else 0);
        short_count = s.short_count + (if t.long then 0 else 1);
        short_wins = s.short_wins + (if t.long then 0 else one_if won);
        holding_time_sec_sum = add s.holding_time_sec_sum (seconds t.open_time t.close_time);
        holding_time_sec_count = s.holding_time_sec_count + 1;
        last_trade_at = later s.last_trade_at t.close_time;
      }

  unfoldable pub add_trades : (ℕ → ℕ → F) → List (CompletedTrade F) → DailyStats F → DailyStats F
  unfolding add_trade
  add_trades seconds [] s = s
  add_trades seconds (t ∷ ts) s = add_trades seconds ts (add_trade seconds t s)

  unfoldable pub add_day_fills : List (Fill F) → DailyStats F → DailyStats F
  add_day_fills [] s = s
  add_day_fills (x ∷ xs) s = add_day_fills xs (record s {
    volume = add s.volume (abs_f f (mul x.quantity x.price));
    fees = add s.fees x.fee;
  })

  abbrev pub no_stats : DailyStats F
  no_stats = record {
    trade_count = 0;
    win_count = 0;
    loss_count = 0;
    breakeven_count = 0;
    realized_pnl = zero_f f;
    fees = zero_f f;
    volume = zero_f f;
    gross_profit = zero_f f;
    gross_loss = zero_f f;
    long_count = 0;
    long_wins = 0;
    short_count = 0;
    short_wins = 0;
    holding_time_sec_sum = zero_f f;
    holding_time_sec_count = 0;
    last_trade_at = none;
  }

  unfoldable pub rollup_day : (ℕ → ℕ → F) → List (Fill F) → List (CompletedTrade F) → DailyStats F
  unfolding add_trades add_day_fills
  rollup_day seconds fills trades = add_day_fills fills (add_trades seconds trades no_stats)

  abbrev of_ℕ : ℕ → F
  of_ℕ n = of_int (pos n)

  unfoldable pub win_rate_pct : ℕ → ℕ → Option F
  win_rate_pct wins losses =
      if wins + losses == 0
      then none
      else some (div (mul (lit 100 0) (of_ℕ wins)) (of_ℕ (wins + losses)))

  unfoldable pub profit_factor : Option F → Option F → Option F
  profit_factor (some gain) (some loss) =
      if eq loss (zero_f f)
      then none
      else some (div gain (if lt loss (zero_f f) then neg loss else loss))
  profit_factor _ _ = none

  unfoldable pub avg_trade_pnl : Option F → ℕ → Option F
  avg_trade_pnl none n = none
  avg_trade_pnl (some pnl) n = if n == 0 then none else some (div pnl (of_ℕ n))

  unfoldable pub avg_holding_sec : F → ℕ → Option F
  avg_holding_sec sum n = if n == 0 then none else some (div sum (of_ℕ n))

  unfoldable pub fallback_roi_pct : Option F → Option F → Option F
  fallback_roi_pct (some pnl) (some volume) =
      if eq volume (zero_f f) then none else some (div (mul (lit 100 0) pnl) volume)
  fallback_roi_pct _ _ = none

  -- The counters of the statistics agree.
  pub record Agrees (s : DailyStats F) : Type 0 where
    pub decided : s.trade_count ≡ s.win_count + s.loss_count + s.breakeven_count
    pub sided : s.trade_count ≡ s.long_count + s.short_count
    pub held : s.trade_count ≡ s.holding_time_sec_count
    pub won : s.win_count ≡ s.long_wins + s.short_wins
    pub longs : s.long_wins ≤ s.long_count
    pub shorts : s.short_wins ≤ s.short_count

  add_trade-Agrees :
      (seconds : ℕ → ℕ → F) (t : CompletedTrade F) (s : DailyStats F)
      → ((x : F) → eq x (zero_f f) ≡ true → lt (zero_f f) x ≡ false)
      → Agrees s
      → Agrees (add_trade seconds t s)
  unfolding add_trade
  add_trade-Agrees seconds t s law a = ground (arith, law (net t))

  add_trades-Agrees :
      (seconds : ℕ → ℕ → F) (ts : List (CompletedTrade F)) (s : DailyStats F)
      → ((x : F) → eq x (zero_f f) ≡ true → lt (zero_f f) x ≡ false)
      → Agrees s
      → Agrees (add_trades seconds ts s)
        × ((add_trades seconds ts s).trade_count ≡ s.trade_count + length ts)
  unfolding add_trades
  add_trades-Agrees seconds [] s law a = (a, omega arith)
  add_trades-Agrees seconds (t ∷ ts) s law a =
      let (b, n) =
        add_trades-Agrees seconds ts (add_trade seconds t s) law
          (add_trade-Agrees seconds t s law a) in
      let one : (add_trade seconds t s).trade_count ≡ s.trade_count + 1 =
        unfold add_trade in refl in
      (b, omega (arith, n, one))

  add_day_fills-Agrees :
      (xs : List (Fill F)) (s : DailyStats F)
      → Agrees s
      → Agrees (add_day_fills xs s) × ((add_day_fills xs s).trade_count ≡ s.trade_count)
  unfolding add_day_fills
  add_day_fills-Agrees [] s a = (a, refl)
  add_day_fills-Agrees (x ∷ xs) s a =
      add_day_fills-Agrees xs
        (record s {
          volume = add s.volume (abs_f f (mul x.quantity x.price));
          fees = add s.fees x.fee;
        })
        (record {
          decided = a.decided;
          sided = a.sided;
          held = a.held;
          won = a.won;
          longs = a.longs;
          shorts = a.shorts;
        })

  -- Where no number that equals zero is above it, the statistics of a day count each of its trades
  -- once: as a win, a loss or a breakeven, as a long or a short, and in the holding time; the wins are
  -- the winning longs and the winning shorts, neither more than the longs or the shorts; and the
  -- win rate is missing exactly when every trade broke even.
  pub rollup_day-Agrees :
      (seconds : ℕ → ℕ → F) (fills : List (Fill F)) (trades : List (CompletedTrade F))
      → ((x : F) → eq x (zero_f f) ≡ true → lt (zero_f f) x ≡ false)
      → let s = rollup_day seconds fills trades in
        Agrees s
        × (s.trade_count ≡ length trades)
        × (win_rate_pct s.win_count s.loss_count ≡ none ↔ s.breakeven_count ≡ length trades)
  unfolding rollup_day win_rate_pct
  rollup_day-Agrees seconds fills trades law =
      let start : Agrees no_stats = record {
        decided = refl;
        sided = refl;
        held = refl;
        won = refl;
        longs = ground arith;
        shorts = ground arith;
      } in
      let (a, n) = add_trades-Agrees seconds trades no_stats law start in
      let (b, m) = add_day_fills-Agrees fills (add_trades seconds trades no_stats) a in
      let count : (rollup_day seconds fills trades).trade_count ≡ length trades =
        ground (arith, n, m) in
      (b, count, ((λ e. ground (arith, b.decided)), (λ e. ground (arith, b.decided))))
