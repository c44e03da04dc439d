-- ===== src/Opportunity/Model.antt =====
-- internal/opportunity/model.go. Ids and venue codes, which are only compared, are numbers; times are
-- nanoseconds; an `int` is a ℤ.
use Prim.Native.String.{String}
use go_be_arbitrage.Prelude.{ℕ, Option, List}
use go_be_arbitrage.Prelude.Int.{ℤ}
pub use go_be_arbitrage.UnifiedState.Model.{
  VenueHealthStatus, healthy, stale, unhealthy, unknown, FundingState, VenueMarketState,
}

pub data OpportunityType : Type 0 where
  price_arb funding_arb basis_arb : OpportunityType

pub data LegSide : Type 0 where
  buy sell : LegSide

pub data MarketQuality : Type 0 where
  good degraded unusable : MarketQuality

pub record FeeModel : Type 0 where
  pub maker_fee_bps : ℤ
  pub taker_fee_bps : ℤ

pub record ScannerConfig (F : Type 0) : Type 0 where
  pub min_gross_edge_bps : ℤ
  pub min_net_edge_bps : ℤ
  pub min_confidence : F
  pub opportunity_ttl : ℕ
  pub fee_models : ℕ → Option FeeModel
  pub max_slippage_bps : ℤ
  pub depth_threshold : F
  pub max_notional_per_trade : String
  pub min_trade_size_usd : String

pub record OpportunityLeg : Type 0 where
  pub side : LegSide
  pub venue_id : ℕ
  pub venue_code : ℕ
  pub target_size : String
  pub target_notional : String
  pub expected_price : String
  pub fee_bps : ℤ
  pub estimated_slippage_bps : ℤ

pub record Opportunity (F : Type 0) : Type 0 where
  pub opportunity_type : OpportunityType
  pub instrument_id : ℕ
  pub detected_at : ℕ
  pub expires_at : ℕ
  pub buy_venue_id : ℕ
  pub buy_venue_code : ℕ
  pub sell_venue_id : ℕ
  pub sell_venue_code : ℕ
  pub gross_edge : String
  pub gross_edge_bps : ℤ
  pub estimated_fees : String
  pub estimated_slippage : String
  pub expected_net_edge : String
  pub expected_net_edge_bps : ℤ
  pub expected_net_pnl : String
  pub suggested_size : String
  pub suggested_notional : String
  pub expected_holding_secs : ℕ
  pub confidence : F
  pub market_quality : MarketQuality
  pub legs : List OpportunityLeg

pub data CalculationError : Type 0 where
  venue_not_healthy insufficient_depth invalid_price below_min_edge : CalculationError
  below_min_confidence no_funding_data : CalculationError

pub data Calculation (F : Type 0) : Type 0 where
  found : Opportunity F → Calculation F
  refused : CalculationError → Calculation F
