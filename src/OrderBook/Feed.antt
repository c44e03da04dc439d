-- ===== src/OrderBook/Feed.antt =====
-- internal/orderbook/bridge.go: what sequences of venue events make of a handler and its book.
use Prim.Native.String.{String}
use mathlib.Core.Path.{subst}
use go_be_arbitrage.Prelude.{
  ℕ, zero, suc, ◌+◌, ◌-◌, ◌<◌, ◌≡◌, ◌≢◌, refl, ◌∙◌, sym, Bool, true, false, List, [], ◌∷◌, arith,
  length, leb, if◌then◌else◌,
}
use go_be_arbitrage.OrderBook.Model.{desynced, resyncing, PriceLevel}
use go_be_arbitrage.OrderBook.Sorting.{Less}
use go_be_arbitrage.OrderBook.Engine.{apply_delta, request_resync}
use go_be_arbitrage.OrderBook.Bridge.{OrderBookEvent, SymbolHandler, process_event, consume_events}

abbrev pub Events : Type 0
Events = List (OrderBookEvent × ℕ)

abbrev pub NoSnapshot : Events → Type 0
NoSnapshot [] = Unit
NoSnapshot ((event, now) ∷ rest) = (event.is_snapshot ≡ false) × NoSnapshot rest

-- Each event is newer than the sequence number and says that it continues another one.
abbrev pub AllGap : ℕ → Events → Type 0
AllGap sequence [] = Unit
AllGap sequence ((event, now) ∷ rest) =
    ((event.is_snapshot ≡ false)
      × (sequence < event.sequence)
      × (event.from_sequence ≢ 0)
      × (event.from_sequence ≢ sequence))
    × AllGap sequence rest

-- The resyncs of `n` further gaps, when `g` were counted.
abbrev pub resyncs_after : ℕ → ℕ → ℕ
resyncs_after g zero = 0
resyncs_after g (suc n) = (if leb 3 (g + 1) then 1 else 0) + resyncs_after (g + 1) n

resyncs_after-sub : (g n : ℕ) → resyncs_after g n ≡ n - (2 - g)
resyncs_after-sub g zero = omega arith
resyncs_after-sub g (suc n) = ground (arith, resyncs_after-sub (g + 1) n)

module _ (sort : Less → List PriceLevel → List PriceLevel) (below : String → String → Bool) where
  -- Until the first snapshot, a handler ignores every event, and its book stays as it is.
  pub consume_events_before :
      (h : SymbolHandler) (events : Events)
      → h.got_snapshot ≡ false
      → NoSnapshot events
      → consume_events sort below h events ≡ h
  unfolding consume_events
  consume_events_before h [] g n = refl
  consume_events_before h ((event, now) ∷ rest) g n =
      let same : process_event sort below h event now ≡ h = unfold process_event in ground arith in
      rw same (consume_events_before h rest g n.1)

  process_event_gap :
      (h : SymbolHandler) (event : OrderBookEvent) (now : ℕ)
      → h.got_snapshot ≡ true
      → event.is_snapshot ≡ false
      → h.book.sequence < event.sequence
      → event.from_sequence ≢ 0
      → event.from_sequence ≢ h.book.sequence
      → let h' = process_event sort below h event now in
        (h'.got_snapshot ≡ true)
        × (h'.gap_count ≡ h.gap_count + 1)
        × (h'.book.sequence ≡ h.book.sequence)
        × (h'.book.gap_count ≡ h.book.gap_count + 1)
        × (h'.book.bids ≡ h.book.bids)
        × (h'.book.asks ≡ h.book.asks)
        × (h'.book.state ≡ (if leb 3 (h.gap_count + 1) then resyncing else desynced))
        × (h'.book.resync_count ≡ h.book.resync_count + (if leb 3 (h.gap_count + 1) then 1 else 0))
  unfolding process_event apply_delta request_resync
  process_event_gap h event now g s newer named gap = ground arith

  consume_events_gaps :
      (h : SymbolHandler) (events : Events)
      → h.got_snapshot ≡ true
      → AllGap h.book.sequence events
      → let h' = consume_events sort below h events in
        (h'.gap_count ≡ h.gap_count + length events)
        × (h'.book.gap_count ≡ h.book.gap_count + length events)
        × (h'.book.sequence ≡ h.book.sequence)
        × (h'.book.bids ≡ h.book.bids)
        × (h'.book.asks ≡ h.book.asks)
        × (h'.book.resync_count ≡ h.book.resync_count + resyncs_after h.gap_count (length events))
  unfolding consume_events
  consume_events_gaps h [] g n = (omega arith, omega arith, refl, refl, refl, omega arith)
  consume_events_gaps h ((event, now) ∷ rest) g (one, n) =
      let (a, b, c, d, e, f, st, r) = process_event_gap h event now g one.0 one.1 one.2 one.3 in
      let h' = process_event sort below h event now in
      let (k, l, m, o, p, q) =
        consume_events_gaps h' rest a (subst (λ x. AllGap x rest) (sym c) n) in
      (omega arith, omega arith, m ∙ c, o ∙ e, p ∙ f, q ∙ rw (b, r) (omega arith))

  -- A run of n events that are newer than the book and each name another predecessor than its
  -- sequence number, for a handler that has its snapshot and counts no gap, leaves the levels and
  -- the sequence number as they are, counts n gaps on the handler and n more on the book, and asks
  -- for n - 2 resyncs: each gap from the third on asks for one.
  pub consume_events_resyncs :
      (h : SymbolHandler) (events : Events)
      → h.got_snapshot ≡ true
      → h.gap_count ≡ 0
      → AllGap h.book.sequence events
      → let h' = consume_events sort below h events in
        (h'.gap_count ≡ length events)
        × (h'.book.gap_count ≡ h.book.gap_count + length events)
        × (h'.book.sequence ≡ h.book.sequence)
        × (h'.book.bids ≡ h.book.bids)
        × (h'.book.asks ≡ h.book.asks)
        × (h'.book.resync_count ≡ h.book.resync_count + (length events - 2))
  consume_events_resyncs h events g zero_gaps n =
      let (a, b, c, d, e, f) = consume_events_gaps h events g n in
      (omega arith, b, c, d, e, f ∙ omega (arith, resyncs_after-sub h.gap_count (length events)))

  -- For a handler that has its snapshot and is in step with its book, an old event resets the
  -- handler's sequence number below the book's, so that the next newer event that names no
  -- predecessor, and would be accepted without the old one, is taken for a gap: the book is
  -- DESYNCED and keeps its levels.
  pub old_event_desyncs :
      (h : SymbolHandler) (old next : OrderBookEvent) (now now' : ℕ)
      → h.got_snapshot ≡ true
      → h.last_seq ≡ h.book.sequence
      → old.is_snapshot ≡ false
      → old.sequence < h.book.sequence
      → next.is_snapshot ≡ false
      → next.from_sequence ≡ 0
      → h.book.sequence < next.sequence
      → let h' = consume_events sort below h ((old, now) ∷ (next, now') ∷ []) in
        let alone = consume_events sort below h ((next, now') ∷ []) in
        (h'.book.state ≡ desynced)
        × (h'.book.bids ≡ h.book.bids)
        × (h'.book.asks ≡ h.book.asks)
        × (alone.book.sequence ≡ next.sequence)
        × (alone.book.gap_count ≡ h.book.gap_count)
  unfolding consume_events apply_delta
  old_event_desyncs h old next now now' g l s older s' nameless newer = ground arith
