-- ===== src/Risk/Calculator.antt =====
-- internal/risk/model.go and calculator.go: the single checks. A check's id and creation time are
-- left out.
use go_be_arbitrage.Prelude.{Bool, not, ◌||◌, Option, none, some, if◌then◌else◌}
use go_be_arbitrage.Floats.{Float}

pub data CheckResult : Type 0 where
  pass fail warn skip : CheckResult

pub data RiskAction : Type 0 where
  approve reject restrict halt : RiskAction

pub data CheckType : Type 0 where
  balance position_limit notional_limit leverage market_health venue_health : CheckType
  concentration funding_rate kill_switch strategy_allocation : CheckType

-- An `interface{}` that holds a number, or a map with one flag.
pub data Observed (F : Type 0) : Type 0 where
  number : F → Observed F
  flag : Bool → Observed F

pub record RiskCheck (F : Type 0) : Type 0 where
  pub check_type : CheckType
  pub result : CheckResult
  pub observed_value : Observed F
  pub threshold_value : Option F

-- `result := PASS; if … { result = FAIL }`.
abbrev pub fail_if : Bool → CheckResult
fail_if b = if b then fail else pass

module _ {F : Type 0} (f : Float F) where
  open f use {lt, le, neg}

  unfoldable pub balance_check : F → F → RiskCheck F
  balance_check available_balance notional = record {
    check_type = balance;
    result = fail_if (lt available_balance notional);
    observed_value = number available_balance;
    threshold_value = some notional;
  }

  unfoldable pub position_limit_check : F → F → RiskCheck F
  position_limit_check current_position max_position = record {
    check_type = position_limit;
    result = fail_if (le max_position current_position);
    observed_value = number current_position;
    threshold_value = some max_position;
  }

  unfoldable pub notional_limit_check : F → F → RiskCheck F
  notional_limit_check trade_notional max_notional = record {
    check_type = notional_limit;
    result = fail_if (lt max_notional trade_notional);
    observed_value = number trade_notional;
    threshold_value = some max_notional;
  }

  unfoldable pub leverage_check : F → F → RiskCheck F
  leverage_check current_leverage max_leverage = record {
    check_type = leverage;
    result = fail_if (lt max_leverage current_leverage);
    observed_value = number current_leverage;
    threshold_value = some max_leverage;
  }

  unfoldable pub market_health_check : Bool → RiskCheck F
  market_health_check is_healthy = record {
    check_type = market_health;
    result = fail_if (not is_healthy);
    observed_value = flag is_healthy;
    threshold_value = none;
  }

  unfoldable pub venue_health_check : Bool → RiskCheck F
  venue_health_check is_healthy = record {
    check_type = venue_health;
    result = fail_if (not is_healthy);
    observed_value = flag is_healthy;
    threshold_value = none;
  }

  unfoldable pub concentration_check : F → F → RiskCheck F
  concentration_check current_concentration max_concentration = record {
    check_type = concentration;
    result = fail_if (lt max_concentration current_concentration);
    observed_value = number current_concentration;
    threshold_value = some max_concentration;
  }

  unfoldable pub funding_rate_check : F → F → RiskCheck F
  funding_rate_check rate max_rate = record {
    check_type = funding_rate;
    result = fail_if (lt max_rate rate || lt rate (neg max_rate));
    observed_value = number rate;
    threshold_value = some max_rate;
  }

  unfoldable pub kill_switch_check : Bool → RiskCheck F
  kill_switch_check enabled = record {
    check_type = kill_switch;
    result = fail_if enabled;
    observed_value = flag enabled;
    threshold_value = none;
  }

  unfoldable pub strategy_allocation_check : F → F → RiskCheck F
  strategy_allocation_check used limit = record {
    check_type = strategy_allocation;
    result = fail_if (le limit used);
    observed_value = number used;
    threshold_value = some limit;
  }
