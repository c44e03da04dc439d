-- ===== src/Opportunity/Tests.antt =====
-- Tests of internal/opportunity: the theorems at concrete inputs, with decimals for float64.
use Prim.Native.String.{String}
use Prim.Native.Char.{code}
use go_be_arbitrage.Prelude.{
  ℕ, ◌+◌, ◌-◌, ◌*◌, ◌≡◌, ◌↔◌, refl, false, none, some, List, [], ◌∷◌, All, arith,
}
use go_be_arbitrage.Prelude.Int.{ℤ, pos, ◌+ℤ◌, ◌-ℤ◌, ◌*ℤ◌}
use go_be_arbitrage.Floats.{decimal_float}
use mathlib.Core.List.{Memᴰ}
use go_be_arbitrage.UnifiedState.Engine.{new_engine, no_instrument_state}
use go_be_arbitrage.UnifiedState.Snapshot.{Venue, Instrument, get_snapshot}
use go_be_arbitrage.UnifiedState.Calls.{create_venue, create_instrument, update, ticker, run_calls}
use go_be_arbitrage.Opportunity.Engine.{scan_prices, scan_bases}
use go_be_arbitrage.Opportunity.Scan.{Tried, IsRange, scan_prices_iff}
use go_be_arbitrage.Opportunity.Unmarked.{no_basis_found}
use go_be_arbitrage.Opportunity.Model.{
  healthy, FundingState, VenueMarketState, ScannerConfig, Opportunity, found,
}
use go_be_arbitrage.Opportunity.PriceArb.{
  PriceArbInput, edges_of, price_opportunity, calculate_price_arb,
}
use go_be_arbitrage.Opportunity.Estimates.{
  get_fee_model, estimate_slippage, calculate_funding_confidence,
}
use go_be_arbitrage.Opportunity.FundingArb.{
  FundingArbInput, rates_of, funding_opportunity, funded, across, funding_refusal,
  calculate_funding_arb,
}
use go_be_arbitrage.Opportunity.Legs.{Crossed, legs_of_a_and_b}
use go_be_arbitrage.Opportunity.Sound.{Rests, calculate_price_arb_iff}

abbrev digits : ℕ → String → ℕ
digits n String.[] = n
digits n (String.◌∷◌ c s) = digits (n * 10 + (code c - 48)) s

abbrev parse_digits : String → ℤ
parse_digits s = decimal_float.of_int (pos (digits 0 s))

abbrev no_text : ℤ → String
no_text x = ""

abbrev sample_config : ScannerConfig ℤ
sample_config = record {
  min_gross_edge_bps = pos 10;
  min_net_edge_bps = pos 5;
  min_confidence = decimal_float.lit 5 1;
  opportunity_ttl = 30;
  fee_models = λ v. none;
  max_slippage_bps = pos 5;
  depth_threshold = decimal_float.lit 1 2;
  max_notional_per_trade = "100000";
  min_trade_size_usd = "100";
}

abbrev venue : String → String → VenueMarketState
venue bid ask = record {
  venue_code = 3;
  last_price = none;
  spread = none;
  mark_price = none;
  index_price = none;
  best_bid = some bid;
  best_ask = some ask;
  bid_depth = record { price = bid; quantity = "3" } ∷ [];
  ask_depth = record { price = ask; quantity = "3" } ∷ [];
  funding = none;
  health = healthy;
  last_update = 5;
}

abbrev sample_input : PriceArbInput
sample_input = record {
  instrument_id = 1;
  buy_venue = some (venue "99" "100");
  sell_venue = some (venue "110" "111");
  buy_venue_id = 2;
  buy_venue_code = 3;
  sell_venue_id = 4;
  sell_venue_code = 5;
}

abbrev sample_opportunity : Opportunity ℤ
sample_opportunity =
    price_opportunity decimal_float parse_digits no_text sample_config sample_input 9
      (venue "99" "100") (venue "110" "111") "100" "110"
      (edges_of decimal_float parse_digits no_text sample_config sample_input 9 (venue "99" "100")
        (venue "110" "111") "100" "110")

calculate_price_arb_iff_example :
    (calculate_price_arb decimal_float parse_digits no_text sample_config sample_input 9
      ≡ found sample_opportunity)
    ↔ Rests decimal_float parse_digits no_text sample_config sample_input 9 sample_opportunity
calculate_price_arb_iff_example =
    calculate_price_arb_iff decimal_float parse_digits no_text sample_config sample_input 9
      sample_opportunity

abbrev funding_of : String → FundingState
funding_of rate = record { funding_rate = rate; interval_seconds = pos 3600; received_at = 5 }

abbrev funded_venue : String → VenueMarketState
funded_venue rate = record (venue "99" "100") { funding = some (funding_of rate) }

abbrev funding_input : FundingArbInput
funding_input = record {
  instrument_id = 1;
  venue_a = some (funded_venue "5");
  venue_b = some (funded_venue "2");
  venue_a_id = 2;
  venue_a_code = 3;
  venue_b_id = 4;
  venue_b_code = 5;
}

not_refused :
    funding_refusal decimal_float parse_digits no_text sample_config (
      rates_of decimal_float parse_digits no_text sample_config funding_input 9
        (funded_venue "5")
        (funded_venue "2")
        (funding_of "5")
        (funding_of "2"))
    ≡ none
unfolding funding_refusal rates_of decimal_float ◌+ℤ◌ ◌-ℤ◌ ◌*ℤ◌ get_fee_model estimate_slippage
    calculate_funding_confidence
not_refused = refl

abbrev sample_funding : Opportunity ℤ
sample_funding =
    funding_opportunity decimal_float parse_digits no_text sample_config funding_input 9
      (funded_venue "5") (funded_venue "2")
      (rates_of decimal_float parse_digits no_text sample_config funding_input 9 (funded_venue "5")
        (funded_venue "2") (funding_of "5") (funding_of "2"))

funding_found :
    calculate_funding_arb decimal_float parse_digits no_text sample_config funding_input 9
    ≡ found sample_funding
unfolding calculate_funding_arb across funded
funding_found = rw not_refused refl

legs_of_a_and_b_example :
    Crossed decimal_float parse_digits no_text sample_config funding_input sample_funding
legs_of_a_and_b_example =
    legs_of_a_and_b decimal_float parse_digits no_text sample_config funding_input 9 sample_funding
      funding_found

abbrev sample_instrument : Instrument
sample_instrument = record {
  instrument_id = 1;
  state = no_instrument_state;
  venue_states = (2, venue "99" "100") ∷ (4, venue "110" "111") ∷ [];
}

abbrev in_turn : ℕ → List Venue → List Venue
in_turn n vs = vs

in_turn-IsRange : IsRange in_turn
in_turn-IsRange = record { meets = λ n vs v. (λ m. m, λ m. m); apart = λ n vs d. d }

scan_prices_iff_example :
    Memᴰ sample_opportunity
      (scan_prices decimal_float parse_digits no_text sample_config in_turn 9 sample_instrument)
    ↔ Tried decimal_float parse_digits no_text sample_config 9 sample_instrument sample_opportunity
scan_prices_iff_example =
    scan_prices_iff decimal_float parse_digits no_text sample_config in_turn 9 in_turn-IsRange
      sample_instrument sample_opportunity (((λ e. ground arith), tt), (tt, tt))

no_basis_found_example :
    All
      (λ i. scan_bases decimal_float parse_digits no_text sample_config in_turn 9 i ≡ [])
      (get_snapshot
        (run_calls
          (λ x y. false)
          (λ x y. false)
          (λ x y. "")
          (λ x y. "")
          (λ less xs. xs)
          (λ n ks. ks)
          (create_instrument 1
            ∷ create_venue 2 1 3
            ∷ update (ticker 5 (some "99") (some "100") none none) 2 1
            ∷ [])
          new_engine)
        (1 ∷ []))
no_basis_found_example =
    no_basis_found decimal_float parse_digits no_text sample_config in_turn 9 in_turn-IsRange
      (λ x y. false) (λ x y. false) (λ x y. "") (λ x y. "") (λ less xs. xs) (λ n ks. ks)
      (create_instrument 1
        ∷ create_venue 2 1 3
        ∷ update (ticker 5 (some "99") (some "100") none none) 2 1
        ∷ [])
      (1 ∷ [])
