-- ===== src/OrderBook/Health.antt =====
-- internal/orderbook/engine.go: the states of a book under its operations.
use Prim.Native.String.{String}
use go_be_arbitrage.Prelude.{
  ℕ, suc, ◌+◌, ◌≤◌, ◌<◌, ◌≡◌, ◌≢◌, Bool, true, false, Option, none, some, List, [], ◌∷◌, arith,
}
use go_be_arbitrage.OrderBook.Model.{
  healthy, stale, PriceLevel, OrderBook, OrderBookSnapshot, OrderBookDelta, is_down,
}
use go_be_arbitrage.OrderBook.Sorting.{Less}
use go_be_arbitrage.OrderBook.Engine.{
  apply_snapshot, apply_delta, check_freshness, request_resync, reset_book, is_tradable,
  EngineError, age,
}

-- A call on a book, with what it is given and the time that it reads.
pub data Call : Type 0 where
  snapshots : OrderBookSnapshot → ℕ → Call
  deltas : OrderBookDelta → ℕ → Call
  checks : ℕ → Call
  resyncs resets : Call

module _ (sort : Less → List PriceLevel → List PriceLevel) (below : String → String → Bool) where
  unfoldable pub call : OrderBook → Call → OrderBook
  call book (snapshots s now) = apply_snapshot sort below book s now
  call book (deltas d now) = (apply_delta sort below book d now).0
  call book (checks now) = (check_freshness book now).0
  call book resyncs = request_resync book
  call book resets = reset_book book

  unfoldable pub calls : OrderBook → List Call → OrderBook
  unfolding call
  calls book [] = book
  calls book (c ∷ cs) = calls (call book c) cs

-- Calls that feed a book or look at it, and do not ask for a resync.
abbrev pub is_feed : Call → Bool
is_feed (snapshots s now) = true
is_feed (deltas d now) = true
is_feed (checks now) = true
is_feed _ = false

abbrev pub AllFeed : List Call → Type 0
AllFeed [] = Unit
AllFeed (c ∷ cs) = (is_feed c ≡ true) × AllFeed cs

abbrev is_ok : Option EngineError → Bool
is_ok none = true
is_ok (some e) = false

-- How many calls count up `ResyncCount`.
abbrev resync_calls : List Call → ℕ
resync_calls [] = 0
resync_calls (resyncs ∷ cs) = suc (resync_calls cs)
resync_calls (resets ∷ cs) = suc (resync_calls cs)
resync_calls (_ ∷ cs) = resync_calls cs

-- Calls that neither replace the book nor empty it.
abbrev pub is_incremental : Call → Bool
is_incremental (snapshots s now) = false
is_incremental resets = false
is_incremental _ = true

abbrev pub AllIncremental : List Call → Type 0
AllIncremental [] = Unit
AllIncremental (c ∷ cs) = (is_incremental c ≡ true) × AllIncremental cs

module _ (sort : Less → List PriceLevel → List PriceLevel) (below : String → String → Bool) where
  -- No delta of the calls meets a sequence gap.
  abbrev pub NoGap : OrderBook → List Call → Type 0
  NoGap book [] = Unit
  NoGap book (deltas d now ∷ cs) =
      (is_ok (apply_delta sort below book d now).1 ≡ true)
      × NoGap (call sort below book (deltas d now)) cs
  NoGap book (c ∷ cs) = NoGap (call sort below book c) cs

  stale_call :
      (book : OrderBook) (c : Call)
      → book.state ≡ stale
      → is_feed c ≡ true
      → NoGap book (c ∷ [])
      → (call sort below book c).state ≡ stale
  unfolding call apply_snapshot apply_delta check_freshness
  stale_call book (snapshots s now) st f g = ground arith
  stale_call book (deltas d now) st f g = ground arith
  stale_call book (checks now) st f g = ground arith
  stale_call book resyncs st f g = cc
  stale_call book resets st f g = cc

  stale_calls :
      (book : OrderBook) (cs : List Call)
      → book.state ≡ stale
      → AllFeed cs
      → NoGap book cs
      → (calls sort below book cs).state ≡ stale
  unfolding calls
  stale_calls book [] st f g = st
  stale_calls book (deltas d now ∷ cs) st f g =
      stale_calls (call sort below book (deltas d now)) cs
        (stale_call book (deltas d now) st f.0 (g.0, tt)) f.1 g.1
  stale_calls book (snapshots s now ∷ cs) st f g =
      stale_calls (call sort below book (snapshots s now)) cs
        (stale_call book (snapshots s now) st f.0 tt) f.1 g
  stale_calls book (checks now ∷ cs) st f g =
      stale_calls (call sort below book (checks now)) cs (stale_call book (checks now) st f.0 tt)
        f.1 g
  stale_calls book (resyncs ∷ cs) st f g = cc f.0
  stale_calls book (resets ∷ cs) st f g = cc f.0

  -- A book marked STALE is never tradable again while it is only fed and checked and no delta meets
  -- a sequence gap, however fresh it is: fed again within its threshold, `CheckFreshness` reports
  -- it HEALTHY and `IsTradable` still refuses it.
  pub stale_untradable :
      (book : OrderBook) (cs : List Call) (now : ℕ)
      → book.state ≡ stale
      → AllFeed cs
      → NoGap book cs
      → age (calls sort below book cs) now ≤ (calls sort below book cs).stale_threshold
      → (is_tradable (calls sort below book cs) now ≡ false)
        × ((check_freshness (calls sort below book cs) now).1 ≡ healthy)
  unfolding is_tradable check_freshness
  stale_untradable book cs now st f g fresh =
      let after = stale_calls book cs st f g in (ground arith, ground arith)

  -- A DISCONNECTED or RESYNCING book that meets a delta with a sequence gap, and then one that
  -- continues its own sequence, is HEALTHY, though it was given no snapshot.
  pub gap_heals_down :
      (book : OrderBook) (d d' : OrderBookDelta) (now now' : ℕ)
      → is_down book.state ≡ true
      → book.sequence < d.to_sequence
      → d.from_sequence ≢ book.sequence
      → book.sequence < d'.to_sequence
      → d'.from_sequence ≡ book.sequence
      → (calls sort below book (deltas d now ∷ deltas d' now' ∷ [])).state ≡ healthy
  unfolding calls apply_delta
  gap_heals_down book d d' now now' down newer gap newer' fits = ground arith

  call-resync_count :
      (book : OrderBook) (c : Call) (cs : List Call)
      → (call sort below book c).resync_count + resync_calls cs
        ≡ book.resync_count + resync_calls (c ∷ cs)
  unfolding call apply_snapshot apply_delta check_freshness request_resync reset_book
  call-resync_count book (snapshots s now) cs = ground arith
  call-resync_count book (deltas d now) cs = ground arith
  call-resync_count book (checks now) cs = ground arith
  call-resync_count book resyncs cs = ground arith
  call-resync_count book resets cs = ground arith

  call-sequence :
      (book : OrderBook) (c : Call)
      → is_incremental c ≡ true
      → book.sequence ≤ (call sort below book c).sequence
  unfolding call apply_delta check_freshness request_resync
  call-sequence book (snapshots s now) i = cc
  call-sequence book (deltas d now) i = ground arith
  call-sequence book (checks now) i = ground arith
  call-sequence book resyncs i = ground arith
  call-sequence book resets i = cc

  -- Over any calls `ResyncCount` grows by exactly the number of resyncs and resets.
  pub calls-resync_count :
      (book : OrderBook) (cs : List Call)
      → (calls sort below book cs).resync_count ≡ book.resync_count + resync_calls cs
  unfolding calls
  calls-resync_count book [] = omega arith
  calls-resync_count book (c ∷ cs) =
      omega (arith, calls-resync_count (call sort below book c) cs, call-resync_count book c cs)

  -- Over any calls that are no snapshot and no reset, the book's sequence number never falls.
  pub calls-sequence :
      (book : OrderBook) (cs : List Call)
      → AllIncremental cs
      → book.sequence ≤ (calls sort below book cs).sequence
  unfolding calls
  calls-sequence book [] i = omega arith
  calls-sequence book (c ∷ cs) i =
      omega (arith, calls-sequence (call sort below book c) cs i.1, call-sequence book c i.0)
