-- ===== src/UnifiedState/Calls.antt =====
-- internal/unifiedstate/service.go: the calls that change the engine, and runs of them.
use Prim.Native.String.{String}
use go_be_arbitrage.Prelude.{ℕ, Bool, true, false, Option, List, [], ◌∷◌}
use go_be_arbitrage.OrderBook.Model.{PriceLevel}
use go_be_arbitrage.UnifiedState.Model.{
  VenueHealthStatus, DepthLevel, FundingState, VenueMarketState, update_ticker, update_order_book,
  update_funding, update_health,
}
use go_be_arbitrage.UnifiedState.Engine.{
  Engine, get_or_create_venue_state, get_or_create_instrument_state, exclude_stale_venues,
  update_venue,
}

-- What `UpdateVenueTicker`, `UpdateVenueOrderBook`, `UpdateVenueFunding` and `UpdateVenueHealth` do to
-- the state of the venue, with the time of the call.
pub data Change : Type 0 where
  ticker : ℕ → Option String → Option String → Option String → Option String → Change
  order_book : ℕ → List PriceLevel → List PriceLevel → Option String → Option String → Change
  funding : ℕ → Option FundingState → Change
  health : VenueHealthStatus → Change

unfoldable pub apply_change : Change → VenueMarketState → VenueMarketState
unfolding update_ticker update_order_book update_funding update_health
apply_change (ticker now bid ask last spread) v = update_ticker now bid ask last spread v
apply_change (order_book now bids asks bid ask) v = update_order_book now bids asks bid ask v
apply_change (funding now x) v = update_funding now x v
apply_change (health h) v = update_health h v

pub data Call : Type 0 where
  create_venue : ℕ → ℕ → ℕ → Call
  create_instrument : ℕ → Call
  update : Change → ℕ → ℕ → Call
  exclude : ℕ → ℕ → Call

abbrev pub excludes : Call → Bool
excludes (exclude now threshold) = true
excludes _ = false

module _ (greater less : String → String → Bool) (difference product : String → String → String)
    (sort : (DepthLevel → DepthLevel → Bool) → List DepthLevel → List DepthLevel)
    (order : ℕ → List ℕ → List ℕ) where
  unfoldable pub run_call : Call → Engine → Engine
  unfolding get_or_create_venue_state get_or_create_instrument_state exclude_stale_venues
      update_venue apply_change
  run_call (create_venue venue inst code) e = get_or_create_venue_state venue inst code e
  run_call (create_instrument inst) e = get_or_create_instrument_state inst e
  run_call (update c venue inst) e =
      update_venue greater less difference product sort order (apply_change c) venue inst e
  run_call (exclude now threshold) e = (exclude_stale_venues now threshold e).1

  unfoldable pub run_calls : List Call → Engine → Engine
  unfolding run_call
  run_calls [] e = e
  run_calls (c ∷ cs) e = run_calls cs (run_call c e)
