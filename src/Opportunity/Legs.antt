-- ===== src/Opportunity/Legs.antt =====
-- internal/opportunity/calculator.go: the legs of an opportunity of `CalculateFundingArb`.
use Prim.Native.String.{String}
use go_be_arbitrage.Prelude.{
  ℕ, ◌≡◌, refl, true, false, Option, none, some, [], ◌∷◌, ◌⊎◌, inl, inr, Bool-cases,
}
use go_be_arbitrage.Floats.{Float}
use go_be_arbitrage.Opportunity.Model.{
  healthy, FundingState, VenueMarketState, buy, sell, ScannerConfig, Opportunity, found,
}
use go_be_arbitrage.Opportunity.Estimates.{is_healthy, get_fee_model, estimate_slippage}
use go_be_arbitrage.Opportunity.FundingArb.{
  FundingArbInput, deref_str, hourly, rates_of, funding_refusal, funding_opportunity, funded,
  across, calculate_funding_arb,
}
use go_be_arbitrage.Opportunity.Found.{conclude_found, guarded_found, is_healthy_healthy}

module _ {F : Type 0} (f : Float F) (parse : String → F) (format : F → String)
    (c : ScannerConfig F) where
  open f use {lt}

  -- What an opportunity of two venues rests on, and the legs that it has.
  pub record Crossed (input : FundingArbInput) (o : Opportunity F) : Type 0 where
    pub va : VenueMarketState
    pub vb : VenueMarketState
    pub fa : FundingState
    pub fb : FundingState
    pub at_a : input.venue_a ≡ some va
    pub at_b : input.venue_b ≡ some vb
    pub a_healthy : va.health ≡ healthy
    pub b_healthy : vb.health ≡ healthy
    pub a_funding : va.funding ≡ some fa
    pub b_funding : vb.funding ≡ some fb
    -- The venue with the lower hourly rate is the one to buy at, and the other the one to sell at.
    pub direction :
        ((lt (hourly f parse format c fa) (hourly f parse format c fb) ≡ true)
          × (o.buy_venue_id ≡ input.venue_a_id)
          × (o.sell_venue_id ≡ input.venue_b_id))
        ⊎ ((lt (hourly f parse format c fa) (hourly f parse format c fb) ≡ false)
            × (o.buy_venue_id ≡ input.venue_b_id)
            × (o.sell_venue_id ≡ input.venue_a_id))
    -- The prices and fees of the legs are those of A's ask and B's bid in either case.
    pub two_legs :
        o.legs
        ≡ record {
          side = buy;
          venue_id = o.buy_venue_id;
          venue_code = o.buy_venue_code;
          target_size = o.suggested_size;
          target_notional = o.suggested_notional;
          expected_price = deref_str va.best_ask;
          fee_bps = (get_fee_model f parse c input.venue_a_code).taker_fee_bps;
          estimated_slippage_bps = estimate_slippage f parse c va vb;
        }
          ∷ record {
            side = sell;
            venue_id = o.sell_venue_id;
            venue_code = o.sell_venue_code;
            target_size = o.suggested_size;
            target_notional = o.suggested_notional;
            expected_price = deref_str vb.best_bid;
            fee_bps = (get_fee_model f parse c input.venue_b_code).taker_fee_bps;
            estimated_slippage_bps = estimate_slippage f parse c va vb;
          }
          ∷ []

  made-direction :
      (input : FundingArbInput) (now : ℕ) (va vb : VenueMarketState) (fa fb : FundingState)
      → let o =
          funding_opportunity f parse format c input now va vb
            (rates_of f parse format c input now va vb fa fb) in
        ((lt (hourly f parse format c fa) (hourly f parse format c fb) ≡ true)
          × (o.buy_venue_id ≡ input.venue_a_id)
          × (o.sell_venue_id ≡ input.venue_b_id))
        ⊎ ((lt (hourly f parse format c fa) (hourly f parse format c fb) ≡ false)
            × (o.buy_venue_id ≡ input.venue_b_id)
            × (o.sell_venue_id ≡ input.venue_a_id))
  unfolding funding_opportunity rates_of
  made-direction input now va vb fa fb =
      elim (Bool-cases (lt (hourly f parse format c fa) (hourly f parse format c fb))) [
        | inl below ↦ inl (below, rw below refl, rw below refl)
        | inr above ↦ inr (above, rw above refl, rw above refl)
      ]

  funded-Crossed :
      (input : FundingArbInput) (now : ℕ) (va vb : VenueMarketState) (a b : Option FundingState)
      (o : Opportunity F)
      → input.venue_a ≡ some va
      → input.venue_b ≡ some vb
      → va.health ≡ healthy
      → vb.health ≡ healthy
      → va.funding ≡ a
      → vb.funding ≡ b
      → funded f parse format c input now va vb a b ≡ found o
      → Crossed input o
  unfolding funded
  funded-Crossed input now va vb none b o ea eb ha hb ga gb h = cc
  funded-Crossed input now va vb (some fa) none o ea eb ha hb ga gb h = cc
  funded-Crossed input now va vb (some fa) (some fb) o ea eb ha hb ga gb h =
      let r = rates_of f parse format c input now va vb fa fb in
      let (passed, made) =
        conclude_found f parse format c (funding_refusal f parse format c r)
          (funding_opportunity f parse format c input now va vb r) o h in
      record {
        va = va;
        vb = vb;
        fa = fa;
        fb = fb;
        at_a = ea;
        at_b = eb;
        a_healthy = ha;
        b_healthy = hb;
        a_funding = ga;
        b_funding = gb;
        direction = rw made (made-direction input now va vb fa fb);
        two_legs = unfold funding_opportunity rates_of in rw made refl;
      }

  across-Crossed :
      (input : FundingArbInput) (now : ℕ) (a b : Option VenueMarketState) (o : Opportunity F)
      → input.venue_a ≡ a
      → input.venue_b ≡ b
      → across f parse format c input now a b ≡ found o
      → Crossed input o
  unfolding across
  across-Crossed input now none b o ea eb h = cc
  across-Crossed input now (some va) none o ea eb h = cc
  across-Crossed input now (some va) (some vb) o ea eb h =
      let (x, y, p) =
        guarded_found f parse format c (is_healthy va.health) (is_healthy vb.health)
          (funded f parse format c input now va vb va.funding vb.funding) o h in
      funded-Crossed input now va vb va.funding vb.funding o ea eb
        (is_healthy_healthy f parse format c va.health x)
        (is_healthy_healthy f parse format c vb.health y) refl refl p

  -- Every funding opportunity rests on two healthy venues with funding; it buys at A and sells at B
  -- where the hourly rate of A is below that of B, and else buys at B and sells at A. But in either
  -- case the buy leg has the ask and the fee of venue A, and the sell leg the bid and the fee of venue
  -- B, also where it is B that it buys at.
  pub legs_of_a_and_b :
      (input : FundingArbInput) (now : ℕ) (o : Opportunity F)
      → calculate_funding_arb f parse format c input now ≡ found o
      → Crossed input o
  unfolding calculate_funding_arb
  legs_of_a_and_b input now o h = across-Crossed input now input.venue_a input.venue_b o refl refl h
