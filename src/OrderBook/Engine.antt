-- ===== src/OrderBook/Engine.antt =====
-- internal/orderbook/engine.go: the operations on one book. `sort` is `sort.Slice`; `below a b` is
-- `af.Cmp(bf) < 0` on the numbers that math/big reads in two price texts; `difference` and
-- `product` are the texts, with 8 decimals, of the difference and the product of two numbers.
-- `now` is the time that the call reads.
use Prim.Native.String.{String}
use go_be_arbitrage.Prelude.{
  ℕ, ◌+◌, ◌-◌, ◌/◌, Bool, true, false, ◌&&◌, ◌||◌, not, Option, none, some, List, [], ◌∷◌, map,
  take, ltb, leb, ◌==◌, if◌then◌else◌,
}
use go_be_arbitrage.OrderBook.Model.{
  BookState, healthy, stale, desynced, resyncing, disconnected, Side, bid, ask, PriceLevel,
  OrderBookSnapshot, OrderBookDelta, OrderBook, OrderBookHealth, DepthLevel, OrderBookDepth,
  is_healthy, is_desynced, is_down,
}
use go_be_arbitrage.OrderBook.Levels.{apply_levels}
use go_be_arbitrage.OrderBook.Sorting.{Less}
use go_be_arbitrage.OrderBook.Text.{trim_trailing_zeros}

pub data EngineError : Type 0 where
  sequence_mismatch : EngineError

-- The book that `GetOrCreateBook` puts under a new key.
unfoldable pub new_book : ℕ → ℕ → OrderBook
new_book stale_threshold sync_threshold = record {
  bids = [];
  asks = [];
  sequence = 0;
  state = disconnected;
  last_update = 0;
  last_snapshot = 0;
  last_delta = 0;
  gap_count = 0;
  resync_count = 0;
  stale_threshold = stale_threshold;
  sync_threshold = sync_threshold;
}

module _ (sort : Less → List PriceLevel → List PriceLevel) (below : String → String → Bool) where
  abbrev pub price_greater : Less
  price_greater a b = below b.price a.price

  abbrev pub price_less : Less
  price_less a b = below a.price b.price

  unfoldable pub sort_book : OrderBook → OrderBook
  sort_book book = record book {
    bids = sort price_greater book.bids;
    asks = sort price_less book.asks;
  }

  unfoldable pub apply_snapshot : OrderBook → OrderBookSnapshot → ℕ → OrderBook
  unfolding sort_book
  apply_snapshot book snapshot now =
      let taken = record book {
        bids = snapshot.bids;
        asks = snapshot.asks;
        sequence = snapshot.sequence;
        last_snapshot = now;
        last_update = now;
      } in
      sort_book
        (if is_down book.state then record taken { state = healthy; gap_count = 0 } else taken)

  unfoldable pub apply_delta : OrderBook → OrderBookDelta → ℕ → OrderBook × Option EngineError
  unfolding sort_book
  apply_delta book delta now =
      if leb delta.to_sequence book.sequence
      then (book, none)
      else if not (delta.from_sequence == book.sequence)
      then (
        record book { state = desynced; gap_count = book.gap_count + 1 },
        some sequence_mismatch,
      )
      else (
        sort_book (record book {
          bids = apply_levels book.bids delta.bids;
          asks = apply_levels book.asks delta.asks;
          sequence = delta.to_sequence;
          last_delta = now;
          last_update = now;
          state = (if is_desynced book.state then healthy else book.state);
        }),
        none,
      )

-- `time.Since(book.LastUpdate)`; no time read is before an update.
abbrev pub age : OrderBook → ℕ → ℕ
age book now = now - book.last_update

unfoldable pub check_freshness : OrderBook → ℕ → OrderBook × BookState
check_freshness book now =
    if is_down book.state
    then (book, book.state)
    else if ltb book.stale_threshold (age book now)
    then (record book { state = stale }, stale)
    else (book, healthy)

unfoldable pub get_health : OrderBook → ℕ → OrderBookHealth
get_health book now =
    let state =
      (if not (is_down book.state) && ltb book.stale_threshold (age book now)
        then stale
        else book.state) in
    record {
      state = state;
      sequence = book.sequence;
      last_update = book.last_update;
      age_ms = age book now / 1_000_000;
      gap_count = book.gap_count;
      resync_count = book.resync_count;
      is_healthy = is_healthy state;
    }

unfoldable pub request_resync : OrderBook → OrderBook
request_resync book = record book { state = resyncing; resync_count = book.resync_count + 1 }

unfoldable pub reset_book : OrderBook → OrderBook
reset_book book = record book {
  bids = [];
  asks = [];
  sequence = 0;
  state = resyncing;
  gap_count = 0;
  resync_count = book.resync_count + 1;
}

-- `&levels[0].Price`, or nil.
abbrev pub first_price : List PriceLevel → Option String
first_price [] = none
first_price (x ∷ xs) = some x.price

unfoldable pub get_best_prices : OrderBook → Option String × Option String
get_best_prices book = (first_price book.bids, first_price book.asks)

abbrev pub is_bid : Side → Bool
is_bid bid = true
is_bid ask = false

-- The quantity is not looked at.
unfoldable pub get_executable_price : OrderBook → Side → String → Option String
get_executable_price book side quantity = first_price (if is_bid side then book.asks else book.bids)

abbrev pub is_nil : List PriceLevel → Bool
is_nil [] = true
is_nil (x ∷ xs) = false

unfoldable pub is_tradable : OrderBook → ℕ → Bool
is_tradable book now =
    if not (is_healthy book.state)
    then false
    else if is_nil book.bids || is_nil book.asks
    then false
    else not (ltb book.sync_threshold (age book now))

module _ (difference product : String → String → String) where
  unfoldable pub calculate_spread : String → String → String
  calculate_spread best_bid best_ask = trim_trailing_zeros (difference best_ask best_bid)

  unfoldable pub calculate_notional : String → String → String
  calculate_notional price quantity = trim_trailing_zeros (product price quantity)

  unfoldable pub depth_level : PriceLevel → DepthLevel
  unfolding calculate_notional
  depth_level l = record {
    price = l.price;
    quantity = l.quantity;
    notional = calculate_notional l.price l.quantity;
  }

  abbrev pub spread_of : Option String → Option String → Option String
  spread_of (some b) (some a) = some (calculate_spread b a)
  spread_of _ _ = none

  -- A depth below 1 gives no levels.
  unfoldable pub get_depth : OrderBook → ℕ → OrderBookDepth
  unfolding depth_level
  get_depth book depth = record {
    best_bid = first_price book.bids;
    best_ask = first_price book.asks;
    spread = spread_of (first_price book.bids) (first_price book.asks);
    bid_depth = map depth_level (take depth book.bids);
    ask_depth = map depth_level (take depth book.asks);
  }
