-- ===== src/UnifiedState/Model.antt =====
-- internal/unifiedstate/model.go. Ids and venue codes, which are only compared, are numbers; times are
-- nanoseconds; an `int` is a ℤ. The symbol and the assets of an instrument, the times that are only
-- written and the age, which is always 0, are left out.
use Prim.Native.String.{String}
use go_be_arbitrage.Prelude.{ℕ, Bool, Option, none, some, List}
use go_be_arbitrage.Prelude.Int.{ℤ}
use go_be_arbitrage.OrderBook.Model.{PriceLevel}

pub data VenueHealthStatus : Type 0 where
  healthy stale unhealthy unknown : VenueHealthStatus

pub record DepthLevel : Type 0 where
  pub price : String
  pub quantity : String
  pub notional : String

pub record FundingState : Type 0 where
  pub funding_rate : String
  pub interval_seconds : ℤ
  pub received_at : ℕ

pub record VenueMarketState : Type 0 where
  pub venue_code : ℕ
  pub best_bid : Option String
  pub best_ask : Option String
  pub last_price : Option String
  pub spread : Option String
  pub bid_depth : List PriceLevel
  pub ask_depth : List PriceLevel
  pub funding : Option FundingState
  pub mark_price : Option String
  pub index_price : Option String
  pub health : VenueHealthStatus
  pub last_update : ℕ

-- `now` is the time of the call.
unfoldable pub update_ticker :
    ℕ
    → Option String
    → Option String
    → Option String
    → Option String
    → VenueMarketState
    → VenueMarketState
update_ticker now bid ask last spread v = record v {
  best_bid = bid;
  best_ask = ask;
  last_price = last;
  spread = spread;
  last_update = now;
}

abbrev pub given_or : {A : Type 0} → Option A → Option A → Option A
given_or none old = old
given_or (some x) old = some x

unfoldable pub update_order_book :
    ℕ
    → List PriceLevel
    → List PriceLevel
    → Option String
    → Option String
    → VenueMarketState
    → VenueMarketState
update_order_book now bids asks bid ask v = record v {
  bid_depth = bids;
  ask_depth = asks;
  best_bid = given_or bid v.best_bid;
  best_ask = given_or ask v.best_ask;
  last_update = now;
}

unfoldable pub update_funding : ℕ → Option FundingState → VenueMarketState → VenueMarketState
update_funding now funding v = record v { funding = funding; last_update = now }

unfoldable pub update_health : VenueHealthStatus → VenueMarketState → VenueMarketState
update_health health v = record v { health = health }

-- The two fields of a best price, which are set together; `venue_states` lists the keys of the map:
-- the state under a key is the one that the engine keeps for the venue and the instrument.
pub record InstrumentState : Type 0 where
  pub best_bid : Option (ℕ × String)
  pub best_ask : Option (ℕ × String)
  pub spread : Option String
  pub bid_depth : List DepthLevel
  pub ask_depth : List DepthLevel
  pub funding : Option (ℕ × FundingState)
  pub venue_states : List ℕ
  pub healthy_venues : ℕ
  pub total_venues : ℕ
  pub is_stale : Bool
