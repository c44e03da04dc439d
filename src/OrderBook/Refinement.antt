-- ===== src/OrderBook/Refinement.antt =====
-- internal/orderbook/engine.go: a book as two maps from prices to quantities, best price first.
use Prim.Native.String.{String}
use mathlib.Core.Path.{subst}
use go_be_arbitrage.Prelude.{
  sym, ap, ℕ, ◌≤◌, ◌<◌, ◌≡◌, refl, ◌∙◌, Bool, none, some, List, arith, ◌⊎◌, ◌≢◌, ◌+◌, if◌then◌else◌,
}
use go_be_arbitrage.OrderBook.Model.{
  PriceLevel, healthy, desynced, is_desynced, is_down, OrderBook, OrderBookSnapshot, OrderBookDelta,
}
use go_be_arbitrage.OrderBook.Levels.{apply_levels}
use go_be_arbitrage.OrderBook.View.{quantity_at, Distinct, overwrites, apply_levels-overwrites}
use go_be_arbitrage.OrderBook.Sorting.{Less, IsStrictWeak, IsSort, Sorted, quantity_at-Permᴰ}
use go_be_arbitrage.OrderBook.Engine.{
  apply_snapshot, apply_delta, sort_book, sequence_mismatch, price_greater, price_less,
}

-- No price stands twice on a side.
pub record IsBook (book : OrderBook) : Type 0 where
  pub bids_distinct : Distinct book.bids
  pub asks_distinct : Distinct book.asks

-- The book of an accepted delta, before it is sorted.
abbrev applied : OrderBook → OrderBookDelta → ℕ → OrderBook
applied book d now = record book {
  bids = apply_levels book.bids d.bids;
  asks = apply_levels book.asks d.asks;
  sequence = d.to_sequence;
  last_delta = now;
  last_update = now;
  state = (if is_desynced book.state then healthy else book.state);
}

-- The book of a snapshot, before it is sorted.
abbrev loaded : OrderBook → OrderBookSnapshot → ℕ → OrderBook
loaded book x now =
    let taken = record book {
      bids = x.bids;
      asks = x.asks;
      sequence = x.sequence;
      last_snapshot = now;
      last_update = now;
    } in
    if is_down book.state then record taken { state = healthy; gap_count = 0 } else taken

loaded_fields :
    (book : OrderBook) (x : OrderBookSnapshot) (now : ℕ)
    → ((loaded book x now).bids ≡ x.bids)
      × ((loaded book x now).asks ≡ x.asks)
      × ((loaded book x now).sequence ≡ x.sequence)
loaded_fields book x now = ground arith

loaded-IsBook :
    (book : OrderBook) (x : OrderBookSnapshot) (now : ℕ)
    → Distinct x.bids
    → Distinct x.asks
    → IsBook (loaded book x now)
loaded-IsBook book x now db da =
    let (eb, ea, es) = loaded_fields book x now in
    record {
      bids_distinct = subst Distinct (sym eb) db;
      asks_distinct = subst Distinct (sym ea) da;
    }

applied-IsBook :
    (book : OrderBook) (d : OrderBookDelta) (now : ℕ) → IsBook book → IsBook (applied book d now)
applied-IsBook book d now b = record {
  bids_distinct = (apply_levels-overwrites d.bids book.bids b.bids_distinct).0;
  asks_distinct = (apply_levels-overwrites d.asks book.asks b.asks_distinct).0;
}

module _ (sort : Less → List PriceLevel → List PriceLevel) (below : String → String → Bool) where
  apply_snapshot-loaded :
      (book : OrderBook) (x : OrderBookSnapshot) (now : ℕ)
      → apply_snapshot sort below book x now ≡ sort_book sort below (loaded book x now)
  unfolding apply_snapshot
  apply_snapshot-loaded book x now = refl

  apply_delta_accepted :
      (book : OrderBook) (d : OrderBookDelta) (now : ℕ)
      → book.sequence < d.to_sequence
      → d.from_sequence ≡ book.sequence
      → apply_delta sort below book d now ≡ (sort_book sort below (applied book d now), none)
  unfolding apply_delta
  apply_delta_accepted book d now newer fits = ground arith

  -- The best price stands first on both sides.
  pub record IsOrdered (book : OrderBook) : Type 0 where
    pub bids_sorted : Sorted (price_greater sort below) book.bids
    pub asks_sorted : Sorted (price_less sort below) book.asks

  module _ (sorts : IsSort sort) (greater_weak : IsStrictWeak (price_greater sort below))
      (less_weak : IsStrictWeak (price_less sort below)) where
    sort_book-IsOrdered : (book : OrderBook) → IsOrdered (sort_book sort below book)
    unfolding sort_book
    sort_book-IsOrdered book = record {
      bids_sorted = sorts.ordered (price_greater sort below) book.bids greater_weak;
      asks_sorted = sorts.ordered (price_less sort below) book.asks less_weak;
    }

    sort_book-IsBook : (book : OrderBook) → IsBook book → IsBook (sort_book sort below book)
    unfolding sort_book
    sort_book-IsBook book b = record {
      bids_distinct =
          (quantity_at-Permᴰ "" (sorts.arranged (price_greater sort below) book.bids)
            b.bids_distinct).0;
      asks_distinct =
          (quantity_at-Permᴰ "" (sorts.arranged (price_less sort below) book.asks)
            b.asks_distinct).0;
    }

    bids_view :
        (p : String) (x : OrderBook)
        → IsBook x
        → quantity_at p (sort_book sort below x).bids ≡ quantity_at p x.bids
    unfolding sort_book
    bids_view p x b =
        (quantity_at-Permᴰ p (sorts.arranged (price_greater sort below) x.bids) b.bids_distinct).1

    asks_view :
        (p : String) (x : OrderBook)
        → IsBook x
        → quantity_at p (sort_book sort below x).asks ≡ quantity_at p x.asks
    unfolding sort_book
    asks_view p x b =
        (quantity_at-Permᴰ p (sorts.arranged (price_less sort below) x.asks) b.asks_distinct).1

    -- Where `sort` sorts and the price comparisons are ones that it accepts, a delta that continues
    -- the sequence of a book in which no price stands twice is accepted: the quantity at each
    -- price, on both sides, is what the delta's last level for the price says, and else the old
    -- one; no price stands twice, the best prices stand first, and the sequence number is the
    -- delta's.
    pub apply_delta-overwrites :
        (book : OrderBook) (d : OrderBookDelta) (now : ℕ) (p : String)
        → IsBook book
        → book.sequence < d.to_sequence
        → d.from_sequence ≡ book.sequence
        → let (next, e) = apply_delta sort below book d now in
          (e ≡ none)
          × (quantity_at p next.bids ≡ overwrites p d.bids (quantity_at p book.bids))
          × (quantity_at p next.asks ≡ overwrites p d.asks (quantity_at p book.asks))
          × IsBook next
          × IsOrdered next
          × (next.sequence ≡ d.to_sequence)
    apply_delta-overwrites book d now p b newer fits =
        let next = applied book d now in
        let b' = applied-IsBook book d now b in
        rw (apply_delta_accepted book d now newer fits) (
          refl,
          bids_view p next b' ∙ (apply_levels-overwrites d.bids book.bids b.bids_distinct).1 p,
          asks_view p next b' ∙ (apply_levels-overwrites d.asks book.asks b.asks_distinct).1 p,
          sort_book-IsBook next b',
          sort_book-IsOrdered next,
          (unfold sort_book in refl),
        )

    -- Where `sort` sorts and the price comparisons are ones that it accepts, a snapshot in which no
    -- price stands twice replaces the book: both sides give each price the snapshot's quantity, no
    -- price stands twice, the best prices stand first, and the sequence number is the snapshot's.
    pub apply_snapshot-quantity_at :
        (book : OrderBook) (x : OrderBookSnapshot) (now : ℕ) (p : String)
        → Distinct x.bids
        → Distinct x.asks
        → let next = apply_snapshot sort below book x now in
          (quantity_at p next.bids ≡ quantity_at p x.bids)
          × (quantity_at p next.asks ≡ quantity_at p x.asks)
          × IsBook next
          × IsOrdered next
          × (next.sequence ≡ x.sequence)
    apply_snapshot-quantity_at book x now p db da =
        let b = loaded-IsBook book x now db da in
        let next = loaded book x now in
        let (eb, ea, es) = loaded_fields book x now in
        rw (apply_snapshot-loaded book x now) (
          bids_view p next b ∙ ap (quantity_at p) eb,
          asks_view p next b ∙ ap (quantity_at p) ea,
          sort_book-IsBook next b,
          sort_book-IsOrdered next,
          (unfold sort_book in es),
        )

  -- A delta that is old leaves the book as it is, without an error; one with a sequence gap leaves
  -- it but for the state, which becomes DESYNCED, and the gap count, with the mismatch as error.
  pub apply_delta_refused :
      (book : OrderBook) (d : OrderBookDelta) (now : ℕ)
      → (d.to_sequence ≤ book.sequence) ⊎ (d.from_sequence ≢ book.sequence)
      → ((d.to_sequence ≤ book.sequence) × (apply_delta sort below book d now ≡ (book, none)))
        ⊎ ((book.sequence < d.to_sequence)
            × (apply_delta sort below book d now ≡ (
              record book { state = desynced; gap_count = book.gap_count + 1 },
              some sequence_mismatch,
            )))
  unfolding apply_delta
  apply_delta_refused book d now h = ground arith
