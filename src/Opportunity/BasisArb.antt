-- ===== src/Opportunity/BasisArb.antt =====
-- internal/opportunity/calculator.go: `CalculateBasisArb`. The ids of the opportunity and its legs and
-- the fixed texts are left out.
use Prim.Native.String.{String}
use go_be_arbitrage.Prelude.{
  ℕ, ◌+◌, Bool, true, false, ◌&&◌, ◌||◌, not, Option, none, some, [], ◌∷◌, ltb, if◌then◌else◌,
}
use go_be_arbitrage.Prelude.Int.{ℤ, pos, ltb_ℤ, ◌-ℤ◌, ◌*ℤ◌}
use go_be_arbitrage.Floats.{Float}
use go_be_arbitrage.Opportunity.Model.{
  VenueMarketState, basis_arb, buy, sell, ScannerConfig, Opportunity, CalculationError,
  MarketQuality, good, degraded, unusable, venue_not_healthy, insufficient_depth, invalid_price,
  below_min_edge, below_min_confidence, Calculation, refused,
}
use go_be_arbitrage.Opportunity.Estimates.{
  is_healthy, age_ms, get_fee_model, estimate_slippage_single, calculate_sizing, capped, add_if,
  has_levels,
}
use go_be_arbitrage.Opportunity.PriceArb.{conclude}

pub record BasisArbInput : Type 0 where
  pub instrument_id : ℕ
  pub venue : Option VenueMarketState
  pub venue_id : ℕ
  pub venue_code : ℕ

-- The local variables.
pub record Basis (F : Type 0) : Type 0 where
  pub mark_price : F
  pub index_price : F
  pub gross_edge_abs : F
  pub abs_basis_bps : ℤ
  pub fee_amount : F
  pub slippage_bps : ℤ
  pub slippage_amount : F
  pub net_edge : F
  pub net_edge_bps : ℤ
  pub confidence : F

abbrev abs_ℤ : ℤ → ℤ
abs_ℤ x = if ltb_ℤ x (pos 0) then pos 0 -ℤ x else x

abbrev pub has_text : Option String → Bool
has_text none = false
has_text (some s) = true

module _ {F : Type 0} (f : Float F) (parse : String → F) (format : F → String)
    (c : ScannerConfig F) where
  open f use {lit, of_int, to_int, add, sub, mul, div, neg, lt, le}

  unfoldable pub calculate_basis_confidence : ℕ → VenueMarketState → ℤ → F
  calculate_basis_confidence now v net_bps =
      let s1 = add_if f parse c (is_healthy v.health) (lit 2 1) (lit 5 1) in
      let age = age_ms now v.last_update in
      let s2 =
        (if ltb age 5_000
          then add s1 (lit 15 2)
          else add_if f parse c (ltb age 30_000) (lit 5 2) s1) in
      let s3 = add_if f parse c (has_text v.mark_price && has_text v.index_price) (lit 1 1) s2 in
      capped f parse c (add_if f parse c (ltb_ℤ (pos 20) net_bps) (lit 5 2) s3)

  unfoldable pub assess_market_quality_single : ℕ → VenueMarketState → MarketQuality
  assess_market_quality_single now v =
      if not (is_healthy v.health)
      then unusable
      else if ltb 30_000 (age_ms now v.last_update)
      then degraded
      else if not (has_levels f parse c 2 v)
      then degraded
      else good

  unfoldable pub basis_of : BasisArbInput → ℕ → VenueMarketState → String → String → Basis F
  unfolding calculate_basis_confidence
  basis_of input now v mark index =
      let mark_price = parse mark in
      let index_price = parse index in
      let basis = sub mark_price index_price in
      let bps = to_int (mul (div basis index_price) (lit 10_000 0)) in
      let fees = (get_fee_model f parse c input.venue_code).taker_fee_bps *ℤ pos 2 in
      let fee = div (mul index_price (of_int fees)) (lit 10_000 0) in
      let slip_bps = estimate_slippage_single f parse c v in
      let slip = div (mul index_price (of_int slip_bps)) (lit 10_000 0) in
      let gross = (if lt basis (lit 0 0) then neg basis else basis) in
      let net = sub (sub gross fee) slip in
      let net_bps = to_int (mul (div net index_price) (lit 10_000 0)) in
      record {
        mark_price = mark_price;
        index_price = index_price;
        gross_edge_abs = gross;
        abs_basis_bps = abs_ℤ bps;
        fee_amount = fee;
        slippage_bps = slip_bps;
        slippage_amount = slip;
        net_edge = net;
        net_edge_bps = net_bps;
        confidence = calculate_basis_confidence now v net_bps;
      }

  -- The returns between the prices and the opportunity, in order.
  unfoldable pub basis_refusal : Basis F → Option CalculationError
  basis_refusal b =
      if le b.mark_price (lit 0 0) || le b.index_price (lit 0 0)
      then some invalid_price
      else if ltb_ℤ b.abs_basis_bps c.min_gross_edge_bps
      then some below_min_edge
      else if ltb_ℤ b.net_edge_bps c.min_net_edge_bps
      then some below_min_edge
      else if lt b.confidence c.min_confidence
      then some below_min_confidence
      else none

  unfoldable pub basis_opportunity :
      BasisArbInput → ℕ → VenueMarketState → String → String → Basis F → Opportunity F
  unfolding assess_market_quality_single
  basis_opportunity input now v mark index b =
      let (size, notional) = calculate_sizing f parse c b.index_price in
      let fee = (get_fee_model f parse c input.venue_code).taker_fee_bps in
      record {
        opportunity_type = basis_arb;
        instrument_id = input.instrument_id;
        detected_at = now;
        expires_at = now + c.opportunity_ttl;
        buy_venue_id = input.venue_id;
        buy_venue_code = input.venue_code;
        sell_venue_id = input.venue_id;
        sell_venue_code = input.venue_code;
        gross_edge = format b.gross_edge_abs;
        gross_edge_bps = b.abs_basis_bps;
        estimated_fees = format b.fee_amount;
        estimated_slippage = format b.slippage_amount;
        expected_net_edge = format b.net_edge;
        expected_net_edge_bps = b.net_edge_bps;
        expected_net_pnl = format (mul b.net_edge size);
        suggested_size = format size;
        suggested_notional = format notional;
        expected_holding_secs = 3600;
        confidence = b.confidence;
        market_quality = assess_market_quality_single now v;
        legs =
            record {
              side = buy;
              venue_id = input.venue_id;
              venue_code = input.venue_code;
              target_size = format size;
              target_notional = format notional;
              expected_price = mark;
              fee_bps = fee;
              estimated_slippage_bps = b.slippage_bps;
            }
            ∷ record {
              side = sell;
              venue_id = input.venue_id;
              venue_code = input.venue_code;
              target_size = format size;
              target_notional = format notional;
              expected_price = index;
              fee_bps = fee;
              estimated_slippage_bps = b.slippage_bps;
            }
            ∷ [];
      }

  unfoldable pub based :
      BasisArbInput → ℕ → VenueMarketState → Option String → Option String → Calculation F
  unfolding basis_of basis_refusal basis_opportunity
  based input now v (some mark) (some index) =
      let b = basis_of input now v mark index in
      conclude f parse format c (basis_refusal b) (basis_opportunity input now v mark index b)
  based input now v _ _ = refused insufficient_depth

  unfoldable pub on_venue : BasisArbInput → ℕ → Option VenueMarketState → Calculation F
  unfolding based
  on_venue input now (some v) =
      if not (is_healthy v.health)
      then refused venue_not_healthy
      else based input now v v.mark_price v.index_price
  on_venue input now none = refused venue_not_healthy

  unfoldable pub calculate_basis_arb : BasisArbInput → ℕ → Calculation F
  unfolding on_venue
  calculate_basis_arb input now = on_venue input now input.venue
