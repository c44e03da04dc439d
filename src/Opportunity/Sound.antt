-- ===== src/Opportunity/Sound.antt =====
-- internal/opportunity/calculator.go: what an opportunity of `CalculatePriceArb` rests on.
use Prim.Native.String.{String}
use mathlib.Core.Path.{subst}
use go_be_arbitrage.Prelude.{
  ℕ, ◌≡◌, refl, ap, sym, ◌∙◌, ◌↔◌, true, false, Option, none, some, [], ◌∷◌,
}
use go_be_arbitrage.Prelude.Int.{ltb_ℤ, ◌+ℤ◌}
use go_be_arbitrage.Floats.{Float}
use go_be_arbitrage.Opportunity.Model.{
  healthy, VenueMarketState, ScannerConfig, Opportunity, found, buy, sell,
}
use go_be_arbitrage.Opportunity.Estimates.{is_healthy, get_fee_model, estimate_slippage}
use go_be_arbitrage.Opportunity.PriceArb.{
  PriceArbInput, edges_of, refusal, price_opportunity, priced, between, calculate_price_arb,
}
use go_be_arbitrage.Opportunity.Found.{Passes, refusal-Passes, Between, between_found}

module _ {F : Type 0} (f : Float F) (parse : String → F) (format : F → String)
    (c : ScannerConfig F) where
  open f use {lit, lt, le, sub, mul, div, of_int}

  -- What an opportunity rests on: two healthy venues, with an ask at the one and a bid at the other
  -- that pass every test, and the opportunity that the code makes of them.
  pub record Rests (input : PriceArbInput) (now : ℕ) (o : Opportunity F) : Type 0 where
    pub bv : VenueMarketState
    pub sv : VenueMarketState
    pub ask : String
    pub bid : String
    pub buys_there : input.buy_venue ≡ some bv
    pub sells_there : input.sell_venue ≡ some sv
    pub buy_healthy : bv.health ≡ healthy
    pub sell_healthy : sv.health ≡ healthy
    pub has_ask : bv.best_ask ≡ some ask
    pub has_bid : sv.best_bid ≡ some bid
    pub ask_positive : le (parse ask) (lit 0 0) ≡ false
    pub bid_positive : le (parse bid) (lit 0 0) ≡ false
    pub bid_above_ask : le (parse bid) (parse ask) ≡ false
    pub enough_gross : ltb_ℤ o.gross_edge_bps c.min_gross_edge_bps ≡ false
    pub enough_net : ltb_ℤ o.expected_net_edge_bps c.min_net_edge_bps ≡ false
    pub enough_confidence : lt o.confidence c.min_confidence ≡ false
    -- The two legs, with the prices that the venues offer and the venues' own ids and fees.
    pub two_legs :
        o.legs
        ≡ record {
          side = buy;
          venue_id = input.buy_venue_id;
          venue_code = input.buy_venue_code;
          target_size = o.suggested_size;
          target_notional = o.suggested_notional;
          expected_price = ask;
          fee_bps = (get_fee_model f parse c input.buy_venue_code).taker_fee_bps;
          estimated_slippage_bps = estimate_slippage f parse c bv sv;
        }
          ∷ record {
            side = sell;
            venue_id = input.sell_venue_id;
            venue_code = input.sell_venue_code;
            target_size = o.suggested_size;
            target_notional = o.suggested_notional;
            expected_price = bid;
            fee_bps = (get_fee_model f parse c input.sell_venue_code).taker_fee_bps;
            estimated_slippage_bps = estimate_slippage f parse c bv sv;
          }
          ∷ []
    pub buys_at : (o.buy_venue_id ≡ input.buy_venue_id) × (o.buy_venue_code ≡ input.buy_venue_code)
    pub sells_at :
        (o.sell_venue_id ≡ input.sell_venue_id) × (o.sell_venue_code ≡ input.sell_venue_code)
    pub edge_is : o.gross_edge ≡ format (sub (parse bid) (parse ask))
    pub fees_are :
        o.estimated_fees
        ≡ format (
            div
              (mul (parse ask) (
                of_int (
                  (get_fee_model f parse c input.buy_venue_code).taker_fee_bps
                  +ℤ (get_fee_model f parse c input.sell_venue_code).taker_fee_bps)))
              (lit 10_000 0))
    pub made :
        o
        ≡ price_opportunity f parse format c input now bv sv ask bid
            (edges_of f parse format c input now bv sv ask bid)

  Rests-of :
      (input : PriceArbInput) (now : ℕ) (o : Opportunity F)
      → Between f parse format c input now o input.buy_venue input.sell_venue
      → Rests input now o
  unfolding edges_of price_opportunity
  Rests-of input now o (bv, sv, ask, bid, b, s, hb, hs, a, d, passed, made) = record {
    bv = bv;
    sv = sv;
    ask = ask;
    bid = bid;
    buys_there = b;
    sells_there = s;
    buy_healthy = hb;
    sell_healthy = hs;
    has_ask = a;
    has_bid = d;
    ask_positive = passed.0;
    bid_positive = passed.1;
    bid_above_ask = passed.2;
    enough_gross = rw made passed.3;
    enough_net = rw made passed.4;
    enough_confidence = rw made passed.5;
    two_legs = rw made refl;
    buys_at = rw made (refl, refl);
    sells_at = rw made (refl, refl);
    edge_is = rw made refl;
    fees_are = rw made refl;
    made = made;
  }

  priced_of :
      (input : PriceArbInput) (now : ℕ) (bv sv : VenueMarketState) (a b : Option String)
      (ask bid : String)
      → a ≡ some ask
      → b ≡ some bid
      → refusal f parse format c (edges_of f parse format c input now bv sv ask bid) ≡ none
      → priced f parse format c input now bv sv a b
        ≡ found (
            price_opportunity f parse format c input now bv sv ask bid
              (edges_of f parse format c input now bv sv ask bid))
  unfolding priced
  priced_of input now bv sv a b ask bid ea eb passed = rw (ea, eb, passed) refl

  between_of :
      (input : PriceArbInput) (now : ℕ) (b s : Option VenueMarketState) (bv sv : VenueMarketState)
      → b ≡ some bv
      → s ≡ some sv
      → is_healthy bv.health ≡ true
      → is_healthy sv.health ≡ true
      → between f parse format c input now b s
        ≡ priced f parse format c input now bv sv bv.best_ask sv.best_bid
  unfolding between
  between_of input now b s bv sv eb es hb hs = rw (eb, es, hb, hs) refl

  found_of :
      (input : PriceArbInput) (now : ℕ) (o : Opportunity F)
      → Rests input now o
      → calculate_price_arb f parse format c input now ≡ found o
  unfolding calculate_price_arb
  found_of input now o r =
      let e = edges_of f parse format c input now r.bv r.sv r.ask r.bid in
      let passes : Passes f parse format c e =
        (unfold edges_of price_opportunity in
          (
            r.ask_positive,
            r.bid_positive,
            r.bid_above_ask,
            subst (λ (x : Opportunity F). ltb_ℤ x.gross_edge_bps c.min_gross_edge_bps ≡ false)
                r.made r.enough_gross,
            subst (λ (x : Opportunity F). ltb_ℤ x.expected_net_edge_bps c.min_net_edge_bps ≡ false)
                r.made r.enough_net,
            subst (λ (x : Opportunity F). lt x.confidence c.min_confidence ≡ false) r.made
                r.enough_confidence,
          )) in
      let passed : refusal f parse format c e ≡ none =
        (refusal-Passes f parse format c e).1 passes in
      between_of input now input.buy_venue input.sell_venue r.bv r.sv r.buys_there r.sells_there
        (ap is_healthy r.buy_healthy) (ap is_healthy r.sell_healthy)
      ∙ priced_of input now r.bv r.sv r.bv.best_ask r.sv.best_bid r.ask r.bid r.has_ask r.has_bid
          passed
      ∙ ap found (sym r.made)

  -- `CalculatePriceArb` returns an opportunity exactly when both venues are there and healthy, with
  -- an ask at the one and a bid at the other, both positive and the bid above the ask, and the gross
  -- edge, the net edge and the confidence not below their minima. It then has two legs: it buys
  -- at that ask and sells at that bid, the same size on both legs, each at its own venue and with that
  -- venue's fee; its gross edge is the bid less the ask, and its fees are both venues' fees of the ask.
  pub calculate_price_arb_iff :
      (input : PriceArbInput) (now : ℕ) (o : Opportunity F)
      → (calculate_price_arb f parse format c input now ≡ found o) ↔ Rests input now o
  unfolding calculate_price_arb
  calculate_price_arb_iff input now o = (
    λ h.
        Rests-of input now o
          (between_found f parse format c input now input.buy_venue input.sell_venue o h),
    λ r. found_of input now o r,
  )
