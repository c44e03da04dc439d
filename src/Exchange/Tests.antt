-- ===== src/Exchange/Tests.antt =====
-- Tests of internal/exchange: the theorems at concrete inputs.
use go_be_arbitrage.Prelude.{◌≡◌, refl, true, [], ◌∷◌, arith}
use go_be_arbitrage.OrderBook.View.{quantity_at, overwrites, Distinct}
use go_be_arbitrage.OrderBook.Refinement.{IsBook}
use go_be_arbitrage.OrderBook.Bridge.{OrderBookEvent, SymbolHandler, process_event, consume_events}
use go_be_arbitrage.OrderBook.Sample.{
  insertion_sort, insertion_sort-IsSort, below, price_greater-IsStrictWeak, price_less-IsStrictWeak,
  sample_book,
}
use go_be_arbitrage.Exchange.Binance.{
  BinanceDepthMessage, levels, handle_depth_message, at_time, asks_dropped,
}

abbrev synced : SymbolHandler
synced = record { gap_count = 0; last_seq = 10; got_snapshot = true; book = sample_book }

abbrev message : BinanceDepthMessage
message = record {
  is_depth_update = true;
  first_id = 10;
  final_id = 12;
  bids = ("99" ∷ "6" ∷ []) ∷ [];
  asks = ("101" ∷ "8" ∷ []) ∷ ("102" ∷ "0" ∷ []) ∷ [];
}

synced_bids-Distinct : Distinct sample_book.bids
unfolding quantity_at
synced_bids-Distinct = (refl, (refl, tt))

synced_asks-Distinct : Distinct sample_book.asks
unfolding quantity_at
synced_asks-Distinct = (refl, (refl, tt))

synced-IsBook : IsBook sample_book
synced-IsBook = record {
  bids_distinct = synced_bids-Distinct;
  asks_distinct = synced_asks-Distinct;
}

asks_dropped_example :
    let h' =
      consume_events insertion_sort below synced
        (at_time 120 (handle_depth_message true true message)) in
    ((e : OrderBookEvent) × (e' : OrderBookEvent) × (handle_depth_message true true message
        ≡ e ∷ e' ∷ [])
      × (e.bids ≡ levels message.bids)
      × (e.asks ≡ [])
      × (e'.bids ≡ [])
      × (e'.asks ≡ levels message.asks)
      × (e.sequence ≡ 12)
      × (e'.sequence ≡ 12)
      × ((process_event insertion_sort below synced e 120).book.sequence ≡ 12)
      × ((process_event insertion_sort below
            (process_event insertion_sort below synced e 120)
            e'
            120).book
          ≡ (process_event insertion_sort below synced e 120).book))
    × (quantity_at "101" h'.book.bids
        ≡ overwrites "101" (levels message.bids) (quantity_at "101" sample_book.bids))
    × (quantity_at "101" h'.book.asks ≡ quantity_at "101" sample_book.asks)
    × (h'.book.sequence ≡ 12)
asks_dropped_example =
    asks_dropped insertion_sort below insertion_sort-IsSort price_greater-IsStrictWeak
      price_less-IsStrictWeak synced message 120 "101" synced-IsBook refl refl refl refl
      (λ e. omega arith) refl (omega arith)
