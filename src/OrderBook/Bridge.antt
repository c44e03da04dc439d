-- ===== src/OrderBook/Bridge.antt =====
-- internal/orderbook/bridge.go: the handler that feeds one book from a venue's events.
use Prim.Native.String.{String}
use go_be_arbitrage.Prelude.{
  ℕ, ◌+◌, Bool, true, Option, none, some, List, [], ◌∷◌, leb, ◌==◌, if◌then◌else◌, not,
}
use go_be_arbitrage.OrderBook.Model.{
  disconnected, PriceLevel, OrderBook, OrderBookSnapshot, OrderBookDelta,
}
use go_be_arbitrage.OrderBook.Sorting.{Less}
use go_be_arbitrage.OrderBook.Engine.{EngineError, apply_snapshot, apply_delta, request_resync}

-- exchange.OrderBookEvent, of internal/exchange/adapter.go.
pub record OrderBookEvent : Type 0 where
  pub bids : List PriceLevel
  pub asks : List PriceLevel
  pub is_snapshot : Bool
  pub sequence : ℕ
  pub from_sequence : ℕ

-- The handler's counters, the `gotSnapshot` of its loop, and the book that it holds.
pub record SymbolHandler : Type 0 where
  pub gap_count : ℕ
  pub last_seq : ℕ
  pub got_snapshot : Bool
  pub book : OrderBook

unfoldable pub convert_snapshot : OrderBookEvent → OrderBookSnapshot
convert_snapshot event = record { sequence = event.sequence; bids = event.bids; asks = event.asks }

unfoldable pub convert_delta : SymbolHandler → OrderBookEvent → OrderBookDelta
convert_delta h event = record {
  from_sequence = (if event.from_sequence == 0 then h.last_seq else event.from_sequence);
  to_sequence = event.sequence;
  bids = event.bids;
  asks = event.asks;
}

-- The end of `processEvent`, on what `ApplyDelta` returned.
abbrev pub after_delta :
    SymbolHandler → OrderBookEvent → OrderBook → Option EngineError → SymbolHandler
after_delta h event book (some e) =
    let gaps = h.gap_count + 1 in
    record h { gap_count = gaps; book = (if leb 3 gaps then request_resync book else book) }
after_delta h event book none = record h { last_seq = event.sequence; gap_count = 0; book = book }

module _ (sort : Less → List PriceLevel → List PriceLevel) (below : String → String → Bool) where
  unfoldable pub process_event : SymbolHandler → OrderBookEvent → ℕ → SymbolHandler
  unfolding convert_snapshot convert_delta
  process_event h event now =
      if event.is_snapshot
      then record h {
        book = apply_snapshot sort below h.book (convert_snapshot event) now;
        last_seq = event.sequence;
        got_snapshot = true;
        gap_count = 0;
      }
      else if not h.got_snapshot
      then h
      else (let (book, e) = apply_delta sort below h.book (convert_delta h event) now in
          after_delta h event book e)

  -- The events of the channel until it is closed, with the time of each.
  unfoldable pub consume_events : SymbolHandler → List (OrderBookEvent × ℕ) → SymbolHandler
  unfolding process_event
  consume_events h [] = h
  consume_events h ((event, now) ∷ rest) = consume_events (process_event h event now) rest

-- The channel was closed.
unfoldable pub handle_disconnect : SymbolHandler → SymbolHandler
handle_disconnect h = record h { book = record h.book { state = disconnected } }
