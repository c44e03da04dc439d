-- ===== src/Opportunity/PriceArb.antt =====
-- internal/opportunity/calculator.go: `CalculatePriceArb`. `format` is `formatFloat`, the text of a
-- number. The ids of the opportunity and its legs, the metadata and the fixed texts are left out.
use Prim.Native.String.{String}
use go_be_arbitrage.Prelude.{ℕ, ◌+◌, ◌||◌, not, Option, none, some, [], ◌∷◌, if◌then◌else◌}
use go_be_arbitrage.Prelude.Int.{ℤ, ltb_ℤ, ◌+ℤ◌}
use go_be_arbitrage.Floats.{Float}
use go_be_arbitrage.Opportunity.Model.{
  VenueMarketState, price_arb, buy, sell, ScannerConfig, Opportunity, CalculationError,
  venue_not_healthy, insufficient_depth, invalid_price, below_min_edge, below_min_confidence,
  Calculation, found, refused,
}
use go_be_arbitrage.Opportunity.Estimates.{
  is_healthy, get_fee_model, estimate_slippage, calculate_sizing, calculate_confidence,
  assess_market_quality,
}

pub record PriceArbInput : Type 0 where
  pub instrument_id : ℕ
  pub buy_venue : Option VenueMarketState
  pub sell_venue : Option VenueMarketState
  pub buy_venue_id : ℕ
  pub buy_venue_code : ℕ
  pub sell_venue_id : ℕ
  pub sell_venue_code : ℕ

-- The local variables.
pub record Edges (F : Type 0) : Type 0 where
  pub buy_price : F
  pub sell_price : F
  pub gross_edge : F
  pub gross_edge_bps : ℤ
  pub fee_amount : F
  pub slippage_bps : ℤ
  pub slippage_amount : F
  pub net_edge : F
  pub net_edge_bps : ℤ
  pub confidence : F

module _ {F : Type 0} (f : Float F) (parse : String → F) (format : F → String)
    (c : ScannerConfig F) where
  open f use {lit, of_int, to_int, add, sub, mul, div, lt, le}

  unfoldable pub edges_of :
      PriceArbInput → ℕ → VenueMarketState → VenueMarketState → String → String → Edges F
  edges_of input now bv sv ask bid =
      let buy_price = parse ask in
      let sell_price = parse bid in
      let gross = sub sell_price buy_price in
      let gross_bps = to_int (mul (div gross buy_price) (lit 10_000 0)) in
      let fees =
        (get_fee_model f parse c input.buy_venue_code).taker_fee_bps
        +ℤ (get_fee_model f parse c input.sell_venue_code).taker_fee_bps in
      let fee = div (mul buy_price (of_int fees)) (lit 10_000 0) in
      let slip_bps = estimate_slippage f parse c bv sv in
      let slip = div (mul buy_price (of_int slip_bps)) (lit 10_000 0) in
      let net = sub (sub gross fee) slip in
      let net_bps = to_int (mul (div net buy_price) (lit 10_000 0)) in
      record {
        buy_price = buy_price;
        sell_price = sell_price;
        gross_edge = gross;
        gross_edge_bps = gross_bps;
        fee_amount = fee;
        slippage_bps = slip_bps;
        slippage_amount = slip;
        net_edge = net;
        net_edge_bps = net_bps;
        confidence = calculate_confidence f parse c now bv sv gross_bps net_bps;
      }

  -- The returns between the prices and the opportunity, in order.
  unfoldable pub refusal : Edges F → Option CalculationError
  refusal e =
      if le e.buy_price (lit 0 0) || le e.sell_price (lit 0 0)
      then some invalid_price
      else if le e.sell_price e.buy_price
      then some below_min_edge
      else if ltb_ℤ e.gross_edge_bps c.min_gross_edge_bps
      then some below_min_edge
      else if ltb_ℤ e.net_edge_bps c.min_net_edge_bps
      then some below_min_edge
      else if lt e.confidence c.min_confidence
      then some below_min_confidence
      else none

  unfoldable pub price_opportunity :
      PriceArbInput
      → ℕ
      → VenueMarketState
      → VenueMarketState
      → String
      → String
      → Edges F
      → Opportunity F
  price_opportunity input now bv sv ask bid e =
      let (size, notional) = calculate_sizing f parse c e.buy_price in
      record {
        opportunity_type = price_arb;
        instrument_id = input.instrument_id;
        detected_at = now;
        expires_at = now + c.opportunity_ttl;
        buy_venue_id = input.buy_venue_id;
        buy_venue_code = input.buy_venue_code;
        sell_venue_id = input.sell_venue_id;
        sell_venue_code = input.sell_venue_code;
        gross_edge = format e.gross_edge;
        gross_edge_bps = e.gross_edge_bps;
        estimated_fees = format e.fee_amount;
        estimated_slippage = format e.slippage_amount;
        expected_net_edge = format e.net_edge;
        expected_net_edge_bps = e.net_edge_bps;
        expected_net_pnl = format (mul e.net_edge size);
        suggested_size = format size;
        suggested_notional = format notional;
        expected_holding_secs = 1;
        confidence = e.confidence;
        market_quality = assess_market_quality f parse c now bv sv;
        legs =
            record {
              side = buy;
              venue_id = input.buy_venue_id;
              venue_code = input.buy_venue_code;
              target_size = format size;
              target_notional = format notional;
              expected_price = ask;
              fee_bps = (get_fee_model f parse c input.buy_venue_code).taker_fee_bps;
              estimated_slippage_bps = e.slippage_bps;
            }
            ∷ record {
              side = sell;
              venue_id = input.sell_venue_id;
              venue_code = input.sell_venue_code;
              target_size = format size;
              target_notional = format notional;
              expected_price = bid;
              fee_bps = (get_fee_model f parse c input.sell_venue_code).taker_fee_bps;
              estimated_slippage_bps = e.slippage_bps;
            }
            ∷ [];
      }

  -- `found`, or what `refusal` gives.
  abbrev pub conclude : Option CalculationError → Opportunity F → Calculation F
  conclude none o = found o
  conclude (some err) o = refused err

  unfoldable pub priced :
      PriceArbInput
      → ℕ
      → VenueMarketState
      → VenueMarketState
      → Option String
      → Option String
      → Calculation F
  unfolding edges_of refusal price_opportunity
  priced input now bv sv (some ask) (some bid) =
      let e = edges_of input now bv sv ask bid in
      conclude (refusal e) (price_opportunity input now bv sv ask bid e)
  priced input now bv sv _ _ = refused insufficient_depth

  unfoldable pub between :
      PriceArbInput → ℕ → Option VenueMarketState → Option VenueMarketState → Calculation F
  unfolding priced
  between input now (some bv) (some sv) =
      if not (is_healthy bv.health) || not (is_healthy sv.health)
      then refused venue_not_healthy
      else priced input now bv sv bv.best_ask sv.best_bid
  between input now _ _ = refused venue_not_healthy

  unfoldable pub calculate_price_arb : PriceArbInput → ℕ → Calculation F
  unfolding between
  calculate_price_arb input now = between input now input.buy_venue input.sell_venue
