-- ===== src/Opportunity/Estimates.antt =====
-- internal/opportunity/calculator.go: fees, slippage, sizes, confidence and quality. `parse` is the
-- number that math/big reads in a text, 0 where it reads none; `now` is the time of the call.
use Prim.Native.String.{String}
use go_be_arbitrage.Prelude.{
  ℕ, ◌-◌, ◌/◌, Bool, true, false, ◌&&◌, ◌||◌, not, Option, none, some, List, [], ◌∷◌, length, ltb,
  leb, if◌then◌else◌,
}
use go_be_arbitrage.Prelude.Int.{ℤ, pos, ltb_ℤ}
use go_be_arbitrage.Floats.{Float, quot}
use go_be_arbitrage.OrderBook.Model.{PriceLevel}
use go_be_arbitrage.Opportunity.Model.{
  VenueHealthStatus, healthy, FundingState, VenueMarketState, MarketQuality, good, degraded,
  unusable, FeeModel, ScannerConfig,
}

abbrev pub is_healthy : VenueHealthStatus → Bool
is_healthy healthy = true
is_healthy _ = false

-- `time.Since(t).Milliseconds()`; no time read is before an update.
abbrev pub age_ms : ℕ → ℕ → ℕ
age_ms now t = (now - t) / 1_000_000

module _ {F : Type 0} (f : Float F) (parse : String → F) (c : ScannerConfig F) where
  open f use {lit, of_int, to_int, add, mul, div, lt, le}

  abbrev fee_or_default : Option FeeModel → FeeModel
  fee_or_default (some fee) = fee
  fee_or_default none = record { maker_fee_bps = pos 5; taker_fee_bps = pos 10 }

  unfoldable pub get_fee_model : ℕ → FeeModel
  get_fee_model venue_code = fee_or_default (c.fee_models venue_code)

  -- The loops that add up the quantities.
  unfoldable pub total_depth : List PriceLevel → F → F
  total_depth [] total = total
  total_depth (l ∷ ls) total = total_depth ls (add total (parse l.quantity))

  unfoldable pub estimate_slippage_single : VenueMarketState → ℤ
  unfolding total_depth
  estimate_slippage_single venue =
      let total = total_depth venue.ask_depth (total_depth venue.bid_depth (lit 0 0)) in
      if lt total c.depth_threshold
      then c.max_slippage_bps
      else (let ratio = div c.depth_threshold total in
          to_int (mul (of_int c.max_slippage_bps) (if lt (lit 1 0) ratio then lit 1 0 else ratio)))

  unfoldable pub estimate_slippage : VenueMarketState → VenueMarketState → ℤ
  unfolding estimate_slippage_single
  estimate_slippage a b =
      let x = estimate_slippage_single a in
      let y = estimate_slippage_single b in if ltb_ℤ y x then x else y

  -- The size and the notional.
  unfoldable pub calculate_sizing : F → F × F
  calculate_sizing price =
      let given = parse c.max_notional_per_trade in
      let least = parse c.min_trade_size_usd in
      let max_notional = (if le given (lit 0 0) then lit 100_000 0 else given) in
      let min_trade = (if le least (lit 0 0) then lit 100 0 else least) in
      if le price (lit 0 0) || lt max_notional min_trade
      then (lit 0 0, lit 0 0)
      else (div max_notional price, max_notional)

  abbrev pub capped : F → F
  capped score = if lt (lit 1 0) score then lit 1 0 else score

  abbrev pub add_if : Bool → F → F → F
  add_if b x score = if b then add score x else score

  abbrev pub has_levels : ℕ → VenueMarketState → Bool
  has_levels n v = leb n (length v.bid_depth) && leb n (length v.ask_depth)

  unfoldable pub calculate_confidence : ℕ → VenueMarketState → VenueMarketState → ℤ → ℤ → F
  calculate_confidence now a b gross_bps net_bps =
      let s1 = add_if (is_healthy a.health && is_healthy b.health) (lit 2 1) (lit 5 1) in
      let age_a = age_ms now a.last_update in
      let age_b = age_ms now b.last_update in
      let s2 =
        (if ltb age_a 5_000 && ltb age_b 5_000
          then add s1 (lit 15 2)
          else add_if (ltb age_a 30_000 && ltb age_b 30_000) (lit 5 2) s1) in
      let s3 = add_if (ltb_ℤ (quot gross_bps 2) net_bps) (lit 1 1) s2 in
      capped (add_if (has_levels 3 a && has_levels 3 b) (lit 5 2) s3)

  abbrev funding_score : ℕ → Option FundingState → Option FundingState → F → F
  funding_score now (some x) (some y) score =
      let age_a = age_ms now x.received_at in
      let age_b = age_ms now y.received_at in
      if ltb age_a 300_000 && ltb age_b 300_000
      then add score (lit 2 1)
      else add_if (ltb age_a 900_000 && ltb age_b 900_000) (lit 1 1) score
  funding_score now _ _ score = score

  unfoldable pub calculate_funding_confidence : ℕ → VenueMarketState → VenueMarketState → ℤ → F
  calculate_funding_confidence now a b net_bps =
      let s1 = add_if (is_healthy a.health && is_healthy b.health) (lit 2 1) (lit 5 1) in
      let s2 = funding_score now a.funding b.funding s1 in
      capped (add_if (ltb_ℤ (pos 50) net_bps) (lit 1 1) s2)

  unfoldable pub assess_market_quality : ℕ → VenueMarketState → VenueMarketState → MarketQuality
  assess_market_quality now a b =
      if not (is_healthy a.health) || not (is_healthy b.health)
      then unusable
      else if ltb 30_000 (age_ms now a.last_update) || ltb 30_000 (age_ms now b.last_update)
      then degraded
      else if not (has_levels 2 a && has_levels 2 b)
      then degraded
      else good
