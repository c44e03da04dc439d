-- ===== src/Risk/Engine.antt =====
-- internal/risk/engine.go: the policies, the kill switch and `EvaluatePreTrade`.
use Prim.Native.String.{String}
use go_be_arbitrage.Prelude.{
  ℕ, Bool, true, false, Option, none, some, List, [], ◌∷◌, ◌++◌, ◌==◌, if◌then◌else◌,
}
use go_be_arbitrage.Floats.{Float}
use go_be_arbitrage.Risk.Calculator.{
  CheckResult, fail, RiskAction, approve, reject, RiskCheck, balance_check, position_limit_check,
  notional_limit_check, leverage_check, market_health_check, venue_health_check, kill_switch_check,
}

pub data PolicyType : Type 0 where
  global strategy venue account instrument : PolicyType

pub data PolicyStatus : Type 0 where
  active disabled : PolicyStatus

-- The limits; those that the source keeps as texts are texts.
pub record RiskConfig (F : Type 0) : Type 0 where
  pub max_position_per_instrument : String
  pub max_notional_per_trade : String
  pub max_leverage : F
  pub max_portfolio_exposure : String
  pub max_venue_concentration : F
  pub min_market_depth_usd : String
  pub max_funding_rate_percent : F
  pub kill_switch_enabled : Bool

-- The tenant and the times are left out.
pub record RiskPolicy (F : Type 0) : Type 0 where
  pub id : ℕ
  pub name : String
  pub policy_type : PolicyType
  pub config : RiskConfig F
  pub status : PolicyStatus

-- When it was enabled, and the number of the reason.
pub record KillSwitch : Type 0 where
  pub enabled : Bool
  pub enabled_at : Option ℕ
  pub reason : Option ℕ

-- `config` is the one that the calculator holds.
pub record Engine (F : Type 0) : Type 0 where
  pub config : RiskConfig F
  pub policies : List (RiskPolicy F)
  pub kill_switch : KillSwitch

-- `delete(e.policies, id)` on the map, kept as a list with one entry for each id.
unfoldable pub without : {F : Type 0} → ℕ → List (RiskPolicy F) → List (RiskPolicy F)
without id [] = []
without id (p ∷ ps) = (if p.id == id then [] else p ∷ []) ++ without id ps

module _ {F : Type 0} where
  unfoldable pub new_engine : RiskConfig F → Engine F
  new_engine config = record {
    config = config;
    policies = [];
    kill_switch = record { enabled = false; enabled_at = none; reason = none };
  }

  unfoldable pub add_policy : RiskPolicy F → Engine F → Engine F
  unfolding without
  add_policy p e = record e { policies = p ∷ without p.id e.policies }

  unfoldable pub remove_policy : ℕ → Engine F → Engine F
  unfolding without
  remove_policy id e = record e { policies = without id e.policies }

  unfoldable pub enable_kill_switch : ℕ → ℕ → Engine F → Engine F
  enable_kill_switch now reason e = record e {
    kill_switch = record { enabled = true; enabled_at = some now; reason = some reason };
  }

  unfoldable pub disable_kill_switch : Engine F → Engine F
  disable_kill_switch e = record e {
    kill_switch = record { enabled = false; enabled_at = none; reason = none };
  }

-- The fields of the request that the evaluation reads.
pub record PreTradeCheckRequest (F : Type 0) : Type 0 where
  pub notional : F

pub data Reason : Type 0 where
  kill_switch_active insufficient_balance position_limit_exceeded : Reason
  notional_limit_exceeded leverage_limit_exceeded market_unhealthy venue_unhealthy : Reason

pub record PreTradeCheckResult (F : Type 0) : Type 0 where
  pub action : RiskAction
  pub checks : List (RiskCheck F)
  pub reasons : List Reason

abbrev pub is_fail : CheckResult → Bool
is_fail fail = true
is_fail _ = false

-- `if check.Result == FAIL { reasons = append(reasons, …) }`.
abbrev pub reason_if : {F : Type 0} → RiskCheck F → Reason → List Reason
reason_if check r = if is_fail check.result then r ∷ [] else []

-- The loop that determines the action.
unfoldable pub action_of : {F : Type 0} → List (RiskCheck F) → RiskAction
action_of [] = approve
action_of (c ∷ cs) = if is_fail c.result then reject else action_of cs

module _ {F : Type 0} (f : Float F) where
  unfoldable pub evaluate_pre_trade :
      Engine F
      → PreTradeCheckRequest F
      → (balance current_position current_leverage market_depth : F)
      → (market_healthy venue_healthy : Bool) → PreTradeCheckResult F
  unfolding kill_switch_check balance_check position_limit_check notional_limit_check leverage_check
      market_health_check venue_health_check action_of
  evaluate_pre_trade e req balance position lev depth market_ok venue_ok =
      let ks = kill_switch_check f e.kill_switch.enabled in
      let bal = balance_check f balance req.notional in
      let pos = position_limit_check f position (f.lit 100000 0) in
      let notional = notional_limit_check f req.notional (f.lit 50000 0) in
      let level = leverage_check f lev (f.lit 10 0) in
      let mkt = market_health_check f market_ok in
      let venue = venue_health_check f venue_ok in
      let checks = ks ∷ bal ∷ pos ∷ notional ∷ level ∷ mkt ∷ venue ∷ [] in
      record {
        action = action_of checks;
        checks = checks;
        reasons =
            reason_if ks kill_switch_active
            ++ (reason_if bal insufficient_balance
                ++ (reason_if pos position_limit_exceeded
                    ++ (reason_if notional notional_limit_exceeded
                        ++ (reason_if level leverage_limit_exceeded
                            ++ (reason_if mkt market_unhealthy
                                ++ reason_if venue venue_unhealthy)))));
      }
