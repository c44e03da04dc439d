-- ===== src/OrderBook/Model.antt =====
-- internal/orderbook/model.go. Times and durations are nanoseconds; ids and sequence numbers, which
-- are only compared, are numbers; prices and quantities are texts, as in the source.
use Prim.Native.String.{String}
use go_be_arbitrage.Prelude.{ℕ, Bool, true, false, Option, List}

pub data BookState : Type 0 where
  healthy stale desynced resyncing disconnected : BookState

pub data Side : Type 0 where
  bid ask : Side

pub record PriceLevel : Type 0 where
  pub price : String
  pub quantity : String

pub record OrderBookSnapshot : Type 0 where
  pub sequence : ℕ
  pub bids : List PriceLevel
  pub asks : List PriceLevel

pub record OrderBookDelta : Type 0 where
  pub from_sequence : ℕ
  pub to_sequence : ℕ
  pub bids : List PriceLevel
  pub asks : List PriceLevel

pub record OrderBook : Type 0 where
  pub bids : List PriceLevel
  pub asks : List PriceLevel
  pub sequence : ℕ
  pub state : BookState
  pub last_update : ℕ
  pub last_snapshot : ℕ
  pub last_delta : ℕ
  pub gap_count : ℕ
  pub resync_count : ℕ
  pub stale_threshold : ℕ
  pub sync_threshold : ℕ

pub record OrderBookHealth : Type 0 where
  pub state : BookState
  pub sequence : ℕ
  pub last_update : ℕ
  pub age_ms : ℕ
  pub gap_count : ℕ
  pub resync_count : ℕ
  pub is_healthy : Bool

pub record DepthLevel : Type 0 where
  pub price : String
  pub quantity : String
  pub notional : String

pub record OrderBookDepth : Type 0 where
  pub best_bid : Option String
  pub best_ask : Option String
  pub spread : Option String
  pub bid_depth : List DepthLevel
  pub ask_depth : List DepthLevel

-- Comparisons of a state with a constant.
abbrev pub is_healthy : BookState → Bool
is_healthy healthy = true
is_healthy _ = false

abbrev pub is_desynced : BookState → Bool
is_desynced desynced = true
is_desynced _ = false

-- DISCONNECTED or RESYNCING.
abbrev pub is_down : BookState → Bool
is_down disconnected = true
is_down resyncing = true
is_down _ = false
