-- ===== src/Opportunity/FundingArb.antt =====
-- internal/opportunity/calculator.go: `CalculateFundingArb`. The ids of the opportunity and its legs
-- and the fixed texts are left out.
use Prim.Native.String.{String}
use go_be_arbitrage.Prelude.{
  ℕ, ◌+◌, Bool, ◌&&◌, ◌||◌, not, Option, none, some, [], ◌∷◌, if◌then◌else◌,
}
use go_be_arbitrage.Prelude.Int.{ℤ, pos, ltb_ℤ, ◌+ℤ◌}
use go_be_arbitrage.Floats.{Float}
use go_be_arbitrage.Opportunity.Model.{
  FundingState, VenueMarketState, funding_arb, buy, sell, ScannerConfig, Opportunity,
  CalculationError, venue_not_healthy, no_funding_data, below_min_edge, below_min_confidence,
  Calculation, refused,
}
use go_be_arbitrage.Opportunity.Estimates.{
  is_healthy, get_fee_model, estimate_slippage, calculate_sizing, calculate_funding_confidence,
  assess_market_quality,
}
use go_be_arbitrage.Opportunity.PriceArb.{conclude}

pub record FundingArbInput : Type 0 where
  pub instrument_id : ℕ
  pub venue_a : Option VenueMarketState
  pub venue_b : Option VenueMarketState
  pub venue_a_id : ℕ
  pub venue_a_code : ℕ
  pub venue_b_id : ℕ
  pub venue_b_code : ℕ

-- `derefStr`.
abbrev pub deref_str : Option String → String
deref_str none = ""
deref_str (some s) = s

-- An interval that is not positive counts as an hour.
abbrev pub interval_or_hour : ℤ → ℤ
interval_or_hour i = if ltb_ℤ (pos 0) i then i else pos 3600

-- The local variables.
pub record Rates (F : Type 0) : Type 0 where
  pub both_zero : Bool
  pub rate_a_hourly : F
  pub rate_b_hourly : F
  pub net_rate_hourly : F
  pub net_edge_bps : ℤ
  pub fee_amount : F
  pub slippage_bps : ℤ
  pub slippage_amount : F
  pub net_edge : F
  pub confidence : F

module _ {F : Type 0} (f : Float F) (parse : String → F) (format : F → String)
    (c : ScannerConfig F) where
  open f use {lit, of_int, to_int, sub, mul, div, neg, lt, le, eq}

  abbrev pub hourly : FundingState → F
  hourly x =
      div (mul (parse x.funding_rate) (lit 3600 0)) (of_int (interval_or_hour x.interval_seconds))

  unfoldable pub rates_of :
      FundingArbInput
      → ℕ
      → VenueMarketState
      → VenueMarketState
      → FundingState
      → FundingState
      → Rates F
  rates_of input now va vb fa fb =
      let zero = eq (parse fa.funding_rate) (lit 0 0) && eq (parse fb.funding_rate) (lit 0 0) in
      let difference = sub (hourly fa) (hourly fb) in
      let net_rate = (if lt difference (lit 0 0) then neg difference else difference) in
      let bps = to_int (mul net_rate (lit 10_000 0)) in
      let fees =
        (get_fee_model f parse c input.venue_a_code).taker_fee_bps
        +ℤ (get_fee_model f parse c input.venue_b_code).taker_fee_bps in
      let fee = div (mul net_rate (of_int fees)) (lit 10_000 0) in
      let slip_bps = estimate_slippage f parse c va vb in
      let slip = div (mul net_rate (of_int slip_bps)) (lit 10_000 0) in
      record {
        both_zero = zero;
        rate_a_hourly = hourly fa;
        rate_b_hourly = hourly fb;
        net_rate_hourly = net_rate;
        net_edge_bps = bps;
        fee_amount = fee;
        slippage_bps = slip_bps;
        slippage_amount = slip;
        net_edge = sub (sub net_rate fee) slip;
        confidence = calculate_funding_confidence f parse c now va vb bps;
      }

  -- The returns between the rates and the opportunity, in order.
  unfoldable pub funding_refusal : Rates F → Option CalculationError
  funding_refusal r =
      if r.both_zero
      then some below_min_edge
      else if ltb_ℤ r.net_edge_bps c.min_gross_edge_bps
      then some below_min_edge
      else if le r.net_edge (lit 0 0)
      then some below_min_edge
      else if lt r.confidence c.min_confidence
      then some below_min_confidence
      else none

  unfoldable pub funding_opportunity :
      FundingArbInput → ℕ → VenueMarketState → VenueMarketState → Rates F → Opportunity F
  funding_opportunity input now va vb r =
      let (size, notional) = calculate_sizing f parse c (lit 1 0) in
      let a_long = lt r.rate_a_hourly r.rate_b_hourly in
      let long_id = (if a_long then input.venue_a_id else input.venue_b_id) in
      let long_code = (if a_long then input.venue_a_code else input.venue_b_code) in
      let short_id = (if a_long then input.venue_b_id else input.venue_a_id) in
      let short_code = (if a_long then input.venue_b_code else input.venue_a_code) in
      record {
        opportunity_type = funding_arb;
        instrument_id = input.instrument_id;
        detected_at = now;
        expires_at = now + c.opportunity_ttl;
        buy_venue_id = long_id;
        buy_venue_code = long_code;
        sell_venue_id = short_id;
        sell_venue_code = short_code;
        gross_edge = format r.net_rate_hourly;
        gross_edge_bps = r.net_edge_bps;
        estimated_fees = format r.fee_amount;
        estimated_slippage = format r.slippage_amount;
        expected_net_edge = format r.net_edge;
        expected_net_edge_bps = to_int (mul r.net_edge (lit 10_000 0));
        expected_net_pnl = format (mul r.net_edge notional);
        suggested_size = format size;
        suggested_notional = format notional;
        expected_holding_secs = 3600;
        confidence = r.confidence;
        market_quality = assess_market_quality f parse c now va vb;
        legs =
            record {
              side = buy;
              venue_id = long_id;
              venue_code = long_code;
              target_size = format size;
              target_notional = format notional;
              expected_price = deref_str va.best_ask;
              fee_bps = (get_fee_model f parse c input.venue_a_code).taker_fee_bps;
              estimated_slippage_bps = r.slippage_bps;
            }
            ∷ record {
              side = sell;
              venue_id = short_id;
              venue_code = short_code;
              target_size = format size;
              target_notional = format notional;
              expected_price = deref_str vb.best_bid;
              fee_bps = (get_fee_model f parse c input.venue_b_code).taker_fee_bps;
              estimated_slippage_bps = r.slippage_bps;
            }
            ∷ [];
      }

  unfoldable pub funded :
      FundingArbInput
      → ℕ
      → VenueMarketState
      → VenueMarketState
      → Option FundingState
      → Option FundingState
      → Calculation F
  unfolding rates_of funding_refusal funding_opportunity
  funded input now va vb (some fa) (some fb) =
      let r = rates_of input now va vb fa fb in
      conclude f parse format c (funding_refusal r) (funding_opportunity input now va vb r)
  funded input now va vb _ _ = refused no_funding_data

  unfoldable pub across :
      FundingArbInput → ℕ → Option VenueMarketState → Option VenueMarketState → Calculation F
  unfolding funded
  across input now (some va) (some vb) =
      if not (is_healthy va.health) || not (is_healthy vb.health)
      then refused venue_not_healthy
      else funded input now va vb va.funding vb.funding
  across input now _ _ = refused venue_not_healthy

  unfoldable pub calculate_funding_arb : FundingArbInput → ℕ → Calculation F
  unfolding across
  calculate_funding_arb input now = across input now input.venue_a input.venue_b
