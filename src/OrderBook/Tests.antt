-- ===== src/OrderBook/Tests.antt =====
-- Tests of internal/orderbook: the theorems at concrete inputs.
use go_be_arbitrage.Prelude.{ℕ, ◌-◌, ◌≡◌, ◌≤◌, refl, Bool, true, false, none, [], ◌∷◌, arith}
use go_be_arbitrage.OrderBook.Model.{
  healthy, stale, desynced, disconnected, OrderBook, OrderBookSnapshot, OrderBookDelta,
}
use go_be_arbitrage.OrderBook.View.{quantity_at, overwrites, Distinct}
use go_be_arbitrage.OrderBook.Engine.{apply_snapshot, apply_delta, is_tradable, check_freshness}
use go_be_arbitrage.OrderBook.Refinement.{
  IsBook, IsOrdered, apply_delta-overwrites, apply_snapshot-quantity_at,
}
use go_be_arbitrage.OrderBook.Health.{
  calls, deltas, checks, NoGap, stale_untradable, gap_heals_down,
}
use go_be_arbitrage.OrderBook.Bridge.{OrderBookEvent, SymbolHandler, consume_events}
use go_be_arbitrage.OrderBook.Feed.{consume_events_resyncs, old_event_desyncs}
use go_be_arbitrage.OrderBook.Sample.{
  insertion_sort, insertion_sort-IsSort, below, price_greater-IsStrictWeak, price_less-IsStrictWeak,
  level, sample_book,
}

abbrev sample_delta : OrderBookDelta
sample_delta = record {
  from_sequence = 10;
  to_sequence = 11;
  bids = level "99" "0" ∷ level "100" "5" ∷ [];
  asks = level "101" "7" ∷ [];
}

abbrev sample_snapshot : OrderBookSnapshot
sample_snapshot = record {
  sequence = 20;
  bids = level "97" "1" ∷ level "98" "2" ∷ [];
  asks = level "103" "1" ∷ [];
}

sample_bids-Distinct : Distinct sample_book.bids
unfolding quantity_at
sample_bids-Distinct = (refl, (refl, tt))

sample_asks-Distinct : Distinct sample_book.asks
unfolding quantity_at
sample_asks-Distinct = (refl, (refl, tt))

snapshot_bids-Distinct : Distinct sample_snapshot.bids
unfolding quantity_at
snapshot_bids-Distinct = (refl, (refl, tt))

snapshot_asks-Distinct : Distinct sample_snapshot.asks
unfolding quantity_at
snapshot_asks-Distinct = (refl, tt)

sample_book-IsBook : IsBook sample_book
sample_book-IsBook = record {
  bids_distinct = sample_bids-Distinct;
  asks_distinct = sample_asks-Distinct;
}

apply_delta-overwrites_example :
    let (next, e) = apply_delta insertion_sort below sample_book sample_delta 120 in
    (e ≡ none)
    × (quantity_at "100" next.bids
        ≡ overwrites "100" sample_delta.bids (quantity_at "100" sample_book.bids))
    × (quantity_at "100" next.asks
        ≡ overwrites "100" sample_delta.asks (quantity_at "100" sample_book.asks))
    × IsBook next
    × IsOrdered insertion_sort below next
    × (next.sequence ≡ 11)
apply_delta-overwrites_example =
    apply_delta-overwrites insertion_sort below insertion_sort-IsSort price_greater-IsStrictWeak
      price_less-IsStrictWeak sample_book sample_delta 120 "100" sample_book-IsBook (omega arith)
      refl

apply_snapshot-quantity_at_example :
    let next = apply_snapshot insertion_sort below sample_book sample_snapshot 120 in
    (quantity_at "98" next.bids ≡ quantity_at "98" sample_snapshot.bids)
    × (quantity_at "98" next.asks ≡ quantity_at "98" sample_snapshot.asks)
    × IsBook next
    × IsOrdered insertion_sort below next
    × (next.sequence ≡ 20)
apply_snapshot-quantity_at_example =
    apply_snapshot-quantity_at insertion_sort below insertion_sort-IsSort price_greater-IsStrictWeak
      price_less-IsStrictWeak sample_book sample_snapshot 120 "98" snapshot_bids-Distinct
      snapshot_asks-Distinct

abbrev gap_delta : OrderBookDelta
gap_delta = record { from_sequence = 14; to_sequence = 15; bids = []; asks = [] }

abbrev stale_book : OrderBook
stale_book = record sample_book { state = stale }

no_gap : NoGap insertion_sort below stale_book (deltas sample_delta 120 ∷ checks 121 ∷ [])
unfolding apply_delta
no_gap = (refl, tt)

fed_is_fresh :
    121
      - (calls insertion_sort below stale_book
          (deltas sample_delta 120 ∷ checks 121 ∷ [])).last_update
    ≤ (calls insertion_sort below stale_book
        (deltas sample_delta 120 ∷ checks 121 ∷ [])).stale_threshold
unfolding calls apply_delta check_freshness
fed_is_fresh = omega arith

stale_untradable_example :
    (is_tradable
        (calls insertion_sort below stale_book (deltas sample_delta 120 ∷ checks 121 ∷ []))
        121
      ≡ false)
    × ((check_freshness
          (calls insertion_sort below stale_book (deltas sample_delta 120 ∷ checks 121 ∷ []))
          121).1
        ≡ healthy)
stale_untradable_example =
    stale_untradable insertion_sort below stale_book (deltas sample_delta 120 ∷ checks 121 ∷ []) 121
      refl (refl, (refl, tt)) no_gap fed_is_fresh

gap_heals_down_example :
    (calls insertion_sort below
      (record sample_book { state = disconnected })
      (deltas gap_delta 120 ∷ deltas sample_delta 121 ∷ [])).state
    ≡ healthy
gap_heals_down_example =
    gap_heals_down insertion_sort below (record sample_book { state = disconnected }) gap_delta
      sample_delta 120 121 refl (omega arith) (λ e. omega arith) (omega arith) refl

abbrev event : ℕ → ℕ → OrderBookEvent
event from to = record {
  bids = level "100" "5" ∷ [];
  asks = [];
  is_snapshot = false;
  sequence = to;
  from_sequence = from;
}

abbrev handler : Bool → SymbolHandler
handler got = record { gap_count = 0; last_seq = 10; got_snapshot = got; book = sample_book }

consume_events_resyncs_example :
    let h' =
      consume_events insertion_sort below
        (handler true)
        ((event 12 13, 120) ∷ (event 13 14, 121) ∷ (event 14 15, 122) ∷ []) in
    (h'.gap_count ≡ 3)
    × (h'.book.gap_count ≡ 3)
    × (h'.book.sequence ≡ 10)
    × (h'.book.bids ≡ sample_book.bids)
    × (h'.book.asks ≡ sample_book.asks)
    × (h'.book.resync_count ≡ 1)
consume_events_resyncs_example =
    consume_events_resyncs insertion_sort below (handler true)
      ((event 12 13, 120) ∷ (event 13 14, 121) ∷ (event 14 15, 122) ∷ []) refl refl (ground arith)

old_event_desyncs_example :
    let h' =
      consume_events insertion_sort below
        (handler true)
        ((event 7 8, 120) ∷ (event 0 12, 121) ∷ []) in
    let alone = consume_events insertion_sort below (handler true) ((event 0 12, 121) ∷ []) in
    (h'.book.state ≡ desynced)
    × (h'.book.bids ≡ sample_book.bids)
    × (h'.book.asks ≡ sample_book.asks)
    × (alone.book.sequence ≡ 12)
    × (alone.book.gap_count ≡ 0)
old_event_desyncs_example =
    old_event_desyncs insertion_sort below (handler true) (event 7 8) (event 0 12) 120 121 refl refl
      refl (omega arith) refl refl (omega arith)
