-- ===== src/Risk/Tests.antt =====
-- Tests of internal/risk: the theorems at concrete inputs, with decimals for float64.
use go_be_arbitrage.Prelude.{ℕ, ◌≡◌, ◌↔◌, true, false, none, [], ◌∷◌}
use go_be_arbitrage.Prelude.Int.{ℤ, pos}
use go_be_arbitrage.Floats.{decimal_float}
use go_be_arbitrage.Risk.Calculator.{approve, reject}
use go_be_arbitrage.Risk.Engine.{
  Engine, PreTradeCheckRequest, evaluate_pre_trade, enable_kill_switch, RiskConfig, RiskPolicy,
  global, active,
}
use go_be_arbitrage.Risk.Decision.{IsApproved, approve_iff, removes, changes, killed_rejects}

abbrev decimal : ℕ → ℤ
decimal n = decimal_float.of_int (pos n)

abbrev limits : ℕ → RiskConfig ℤ
limits n = record {
  max_position_per_instrument = "1000";
  max_notional_per_trade = "500";
  max_leverage = decimal n;
  max_portfolio_exposure = "5000";
  max_venue_concentration = decimal 1;
  min_market_depth_usd = "100";
  max_funding_rate_percent = decimal 1;
  kill_switch_enabled = true;
}

abbrev policy : RiskPolicy ℤ
policy = record { id = 1; name = "small"; policy_type = global; config = limits 1; status = active }

abbrev running : Engine ℤ
running = record {
  config = limits 3;
  policies = policy ∷ [];
  kill_switch = record { enabled = false; enabled_at = none; reason = none };
}

abbrev trade : PreTradeCheckRequest ℤ
trade = record { notional = decimal 20_000 }

approve_iff_example :
    ((evaluate_pre_trade decimal_float running trade
        (decimal 30_000)
        (decimal 0)
        (decimal 2)
        (decimal 0)
        true
        true).action
      ≡ approve)
    ↔ IsApproved decimal_float running
        (decimal 20_000)
        (decimal 30_000)
        (decimal 0)
        (decimal 2)
        true
        true
approve_iff_example =
    approve_iff decimal_float running trade (decimal 30_000) (decimal 0) (decimal 2) (decimal 0)
      true true

killed_rejects_example :
    (evaluate_pre_trade decimal_float
      (changes (enable_kill_switch 5 6 running) (removes 1 ∷ []))
      trade
      (decimal 30_000)
      (decimal 0)
      (decimal 2)
      (decimal 0)
      true
      true).action
    ≡ reject
killed_rejects_example =
    killed_rejects decimal_float running 5 6 (removes 1 ∷ []) trade (decimal 30_000) (decimal 0)
      (decimal 2) (decimal 0) true true tt
