-- ===== src/Exchange/Binance.antt =====
-- internal/exchange/adapter_binance_ws.go: depth messages into order book events, and what the
-- bridge of internal/orderbook makes of them.
use Prim.Native.String.{String}
use go_be_arbitrage.Prelude.{
  ℕ, ◌≤◌, ◌<◌, ◌≡◌, ◌≢◌, refl, Bool, true, false, not, none, List, [], ◌∷◌, ◌++◌, arith,
  if◌then◌else◌,
}
use go_be_arbitrage.OrderBook.Model.{PriceLevel, OrderBookDelta}
use go_be_arbitrage.OrderBook.Sorting.{Less, IsSort, IsStrictWeak}
use go_be_arbitrage.OrderBook.View.{quantity_at, overwrites}
use go_be_arbitrage.OrderBook.Engine.{apply_delta, price_greater, price_less}
use go_be_arbitrage.OrderBook.Refinement.{IsBook, apply_delta-overwrites}
use go_be_arbitrage.OrderBook.Bridge.{
  OrderBookEvent, SymbolHandler, convert_delta, process_event, consume_events,
}

-- The fields that the handler reads; `is_depth_update` is `msg.E == "depthUpdate"` of a message
-- that json.Unmarshal accepts.
pub record BinanceDepthMessage : Type 0 where
  pub is_depth_update : Bool
  pub first_id : ℕ
  pub final_id : ℕ
  pub bids : List (List String)
  pub asks : List (List String)

-- The rows with a price and a quantity.
unfoldable pub levels : List (List String) → List PriceLevel
levels [] = []
levels ((p ∷ q ∷ more) ∷ rows) = record { price = p; quantity = q } ∷ levels rows
levels (_ ∷ rows) = levels rows

abbrev is_nil : {A : Type 0} → List A → Bool
is_nil [] = true
is_nil (x ∷ xs) = false

abbrev side_event : BinanceDepthMessage → List PriceLevel → List PriceLevel → OrderBookEvent
side_event msg bids asks = record {
  bids = bids;
  asks = asks;
  is_snapshot = false;
  sequence = msg.final_id;
  from_sequence = msg.first_id;
}

-- `select { case ch <- event: default: }`: the event is dropped if the channel has no room.
abbrev offer : Bool → OrderBookEvent → List OrderBookEvent
offer room event = if room then event ∷ [] else []

-- The events that one message puts on the channel, with room for the first and for the second.
unfoldable pub handle_depth_message : Bool → Bool → BinanceDepthMessage → List OrderBookEvent
unfolding levels
handle_depth_message room room' msg =
    if not msg.is_depth_update
    then []
    else ((if is_nil msg.bids then [] else offer room (side_event msg (levels msg.bids) []))
        ++ (if is_nil msg.asks then [] else offer room' (side_event msg [] (levels msg.asks))))

-- The snapshot that `fetchAndSendSnapshot` sends.
unfoldable pub snapshot_event : ℕ → List (List String) → List (List String) → OrderBookEvent
unfolding levels
snapshot_event last_update_id bids asks = record {
  bids = levels bids;
  asks = levels asks;
  is_snapshot = true;
  sequence = last_update_id;
  from_sequence = 0;
}

-- The channel's events, all read at one time.
abbrev pub at_time : ℕ → List OrderBookEvent → List (OrderBookEvent × ℕ)
at_time now [] = []
at_time now (e ∷ es) = (e, now) ∷ at_time now es

module _ (sort : Less → List PriceLevel → List PriceLevel) (below : String → String → Bool) where
  -- The delta that the first of a message's two events makes.
  abbrev bids_only : BinanceDepthMessage → OrderBookDelta
  bids_only msg = record {
    from_sequence = msg.first_id;
    to_sequence = msg.final_id;
    bids = levels msg.bids;
    asks = [];
  }

  bids_event :
      (h : SymbolHandler) (msg : BinanceDepthMessage) (now : ℕ)
      → h.got_snapshot ≡ true
      → msg.first_id ≢ 0
      → (apply_delta sort below h.book (bids_only msg) now).1 ≡ none
      → process_event sort below h (side_event msg (levels msg.bids) []) now ≡ record h {
        last_seq = msg.final_id;
        gap_count = 0;
        book = (apply_delta sort below h.book (bids_only msg) now).0;
      }
  unfolding process_event
  bids_event h msg now g nz fine =
      let same : convert_delta h (side_event msg (levels msg.bids) []) ≡ bids_only msg =
        unfold convert_delta in ground arith in
      ground (arith, same)

  asks_event :
      (h : SymbolHandler) (msg : BinanceDepthMessage) (now : ℕ)
      → h.got_snapshot ≡ true
      → msg.final_id ≤ h.book.sequence
      → (process_event sort below h (side_event msg [] (levels msg.asks)) now).book ≡ h.book
  unfolding process_event apply_delta
  asks_event h msg now g old = ground arith

  two_events :
      (msg : BinanceDepthMessage)
      → msg.is_depth_update ≡ true
      → is_nil msg.bids ≡ false
      → is_nil msg.asks ≡ false
      → handle_depth_message true true msg
        ≡ side_event msg (levels msg.bids) [] ∷ side_event msg [] (levels msg.asks) ∷ []
  unfolding handle_depth_message
  two_events msg u nb na = rw (u, nb, na)

  module _ (sorts : IsSort sort) (greater_weak : IsStrictWeak (price_greater sort below))
      (less_weak : IsStrictWeak (price_less sort below)) where
    -- Where `sort` sorts and the price comparisons are ones that it accepts, and the handler has
    -- its snapshot and a book in which no price stands twice: a Binance message that changes both
    -- sides, names a predecessor and continues the book's sequence, with room on the channel, is
    -- sent as two events, the first with its bids and the second with its asks, both with the
    -- message's final sequence number. After the first the book's bids are overwritten by the
    -- message's and its sequence number is that number; the second leaves the book exactly as it is.
    -- So every ask of the book stays as it was, whatever asks the message has.
    pub asks_dropped :
        (h : SymbolHandler) (msg : BinanceDepthMessage) (now : ℕ) (p : String)
        → IsBook h.book
        → h.got_snapshot ≡ true
        → msg.is_depth_update ≡ true
        → is_nil msg.bids ≡ false
        → is_nil msg.asks ≡ false
        → msg.first_id ≢ 0
        → msg.first_id ≡ h.book.sequence
        → h.book.sequence < msg.final_id
        → let h' = consume_events sort below h (at_time now (handle_depth_message true true msg)) in
          ((e : OrderBookEvent) × (e' : OrderBookEvent) × (handle_depth_message true true msg
              ≡ e ∷ e' ∷ [])
            × (e.bids ≡ levels msg.bids)
            × (e.asks ≡ [])
            × (e'.bids ≡ [])
            × (e'.asks ≡ levels msg.asks)
            × (e.sequence ≡ msg.final_id)
            × (e'.sequence ≡ msg.final_id)
            × ((process_event sort below h e now).book.sequence ≡ msg.final_id)
            × ((process_event sort below (process_event sort below h e now) e' now).book
                ≡ (process_event sort below h e now).book))
          × (quantity_at p h'.book.bids
              ≡ overwrites p (levels msg.bids) (quantity_at p h.book.bids))
          × (quantity_at p h'.book.asks ≡ quantity_at p h.book.asks)
          × (h'.book.sequence ≡ msg.final_id)
    unfolding consume_events
    asks_dropped h msg now p b g u nb na nz fits newer =
        let (fine, vb, va, ib, io, seq) =
          apply_delta-overwrites sort below sorts greater_weak less_weak h.book (bids_only msg) now
            p b newer fits in
        let next = (apply_delta sort below h.book (bids_only msg) now).0 in
        let h1 = record h { last_seq = msg.final_id; gap_count = 0; book = next } in
        let first = side_event msg (levels msg.bids) [] in
        let second = side_event msg [] (levels msg.asks) in
        let sent = two_events msg u nb na in
        let made = bids_event h msg now g nz fine in
        let kept = asks_event h1 msg now g (omega arith) in
        (
          (first, second, sent, refl, refl, refl, refl, refl, refl, rw made seq, rw made kept),
          rw (sent, made, kept) vb,
          rw (sent, made, kept) va,
          rw (sent, made, kept) seq,
        )
