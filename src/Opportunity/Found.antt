-- ===== src/Opportunity/Found.antt =====
-- internal/opportunity/calculator.go: what `CalculatePriceArb` has found where it returns an opportunity.
use Prim.Native.String.{String}
use go_be_arbitrage.Prelude.{
  ℕ, ◌≡◌, refl, ◌↔◌, Bool, true, false, Option, none, some, arith, not, ◌||◌, if◌then◌else◌,
}
use go_be_arbitrage.Prelude.Int.{ltb_ℤ}
use go_be_arbitrage.Floats.{Float}
use go_be_arbitrage.Opportunity.Model.{
  VenueHealthStatus, healthy, VenueMarketState, ScannerConfig, Opportunity, CalculationError,
  Calculation, found, refused, venue_not_healthy,
}
use go_be_arbitrage.Opportunity.Estimates.{is_healthy}
use go_be_arbitrage.Opportunity.PriceArb.{
  PriceArbInput, Edges, edges_of, refusal, price_opportunity, conclude, priced, between,
}

module _ {F : Type 0} (f : Float F) (parse : String → F) (format : F → String)
    (c : ScannerConfig F) where
  open f use {lit, lt, le}

  -- Every test between the prices and the opportunity lets them through.
  abbrev pub Passes : Edges F → Type 0
  Passes e =
      (le e.buy_price (lit 0 0) ≡ false)
      × (le e.sell_price (lit 0 0) ≡ false)
      × (le e.sell_price e.buy_price ≡ false)
      × (ltb_ℤ e.gross_edge_bps c.min_gross_edge_bps ≡ false)
      × (ltb_ℤ e.net_edge_bps c.min_net_edge_bps ≡ false)
      × (lt e.confidence c.min_confidence ≡ false)

  pub refusal-Passes : (e : Edges F) → (refusal f parse format c e ≡ none) ↔ Passes e
  unfolding refusal
  refusal-Passes e = (λ h. ground arith, λ h. ground arith)

  pub conclude_found :
      (r : Option CalculationError) (o o' : Opportunity F)
      → conclude f parse format c r o ≡ found o'
      → (r ≡ none) × (o' ≡ o)
  conclude_found none o o' h = (refl, cc)
  conclude_found (some e) o o' h = cc

  pub is_healthy_healthy : (h : VenueHealthStatus) → is_healthy h ≡ true → h ≡ healthy
  is_healthy_healthy h e = ground arith

  priced_found :
      (input : PriceArbInput) (now : ℕ) (bv sv : VenueMarketState) (a b : Option String)
      (o : Opportunity F)
      → priced f parse format c input now bv sv a b ≡ found o
      → (ask bid : String) × (a ≡ some ask)
        × (b ≡ some bid)
        × Passes (edges_of f parse format c input now bv sv ask bid)
        × (o
            ≡ price_opportunity f parse format c input now bv sv ask bid
                (edges_of f parse format c input now bv sv ask bid))
  unfolding priced
  priced_found input now bv sv none b o h = cc
  priced_found input now bv sv (some ask) none o h = cc
  priced_found input now bv sv (some ask) (some bid) o h =
      let e = edges_of f parse format c input now bv sv ask bid in
      let (passed, made) =
        conclude_found (refusal f parse format c e)
          (price_opportunity f parse format c input now bv sv ask bid e) o h in
      (ask, bid, refl, refl, (refusal-Passes e).0 passed, made)

  -- The facts that `between` finds of two venues.
  abbrev pub Between :
      PriceArbInput → ℕ → Opportunity F → Option VenueMarketState → Option VenueMarketState → Type 0
  Between input now o b s =
      (bv sv : VenueMarketState) × (ask bid : String) × (b ≡ some bv)
      × (s ≡ some sv)
      × (bv.health ≡ healthy)
      × (sv.health ≡ healthy)
      × (bv.best_ask ≡ some ask)
      × (sv.best_bid ≡ some bid)
      × Passes (edges_of f parse format c input now bv sv ask bid)
      × (o
          ≡ price_opportunity f parse format c input now bv sv ask bid
              (edges_of f parse format c input now bv sv ask bid))

  pub guarded_found :
      (x y : Bool) (r : Calculation F) (o : Opportunity F)
      → (if not x || not y then refused venue_not_healthy else r) ≡ found o
      → (x ≡ true) × (y ≡ true) × (r ≡ found o)
  guarded_found true true r o h = (refl, refl, h)
  guarded_found true false r o h = cc
  guarded_found false y r o h = cc

  pub between_found :
      (input : PriceArbInput) (now : ℕ) (b s : Option VenueMarketState) (o : Opportunity F)
      → between f parse format c input now b s ≡ found o
      → Between input now o b s
  unfolding between
  between_found input now none s o h = cc
  between_found input now (some bv) none o h = cc
  between_found input now (some bv) (some sv) o h =
      let (x, y, p) =
        guarded_found (is_healthy bv.health) (is_healthy sv.health)
          (priced f parse format c input now bv sv bv.best_ask sv.best_bid) o h in
      let (ask, bid, a, b, passed, made) =
        priced_found input now bv sv bv.best_ask sv.best_bid o p in
      (
        bv,
        sv,
        ask,
        bid,
        refl,
        refl,
        is_healthy_healthy bv.health x,
        is_healthy_healthy sv.health y,
        a,
        b,
        passed,
        made,
      )
