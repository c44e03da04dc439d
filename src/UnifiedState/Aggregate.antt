-- ===== src/UnifiedState/Aggregate.antt =====
-- internal/unifiedstate/engine.go: what an instrument's state is computed from its venues'. `greater`
-- and `less` are `priceGreater` and `priceLess` on texts that math/big reads (on another text the
-- code stops); `difference` and `product` are the texts with eight places that it prints; `sort` is
-- `sort.Slice`; `order` is the order in which the n-th loop of `MergeVenueState` ranges over the map.
use Prim.Native.String.{String}
use Prim.Native.Char.{code}
use text.Mathlib.Text.{◌==◌ as str_eq}
use go_be_arbitrage.Prelude.{
  ℕ, ◌+◌, Bool, true, false, ◌&&◌, Option, none, some, List, [], ◌∷◌, take, ltb, ◌==◌,
  if◌then◌else◌,
}
use go_be_arbitrage.OrderBook.Model.{PriceLevel}
use go_be_arbitrage.OrderBook.Text.{is_empty, trim_right}
use go_be_arbitrage.UnifiedState.Model.{
  VenueHealthStatus, healthy, DepthLevel, FundingState, VenueMarketState, InstrumentState,
}

abbrev pub is_healthy : VenueHealthStatus → Bool
is_healthy healthy = true
is_healthy _ = false

abbrev drop_dot : String → String
drop_dot String.[] = String.[]
drop_dot (String.◌∷◌ x xs) =
    let rest = drop_dot xs in
    if is_empty xs && (code x == b'.') then String.[] else String.◌∷◌ x rest

unfoldable pub trim_trailing_zeros : String → String
trim_trailing_zeros s = let t = drop_dot (trim_right b'0' s) in if is_empty t then "0" else t

-- The entries of a map under the keys.
abbrev pub entry : {V : Type 0} → ℕ → Option V → List (ℕ × V) → List (ℕ × V)
entry k none rest = rest
entry k (some v) rest = (k, v) ∷ rest

unfoldable pub entries : {V : Type 0} → (ℕ → Option V) → List ℕ → List (ℕ × V)
entries m [] = []
entries m (k ∷ ks) = entry k (m k) (entries m ks)

-- One round of the loops that keep the best of what healthy venues have.
abbrev pub keep_better :
    {A : Type 0} → (A → A → Bool) → Bool → ℕ → Option A → Option (ℕ × A) → Option (ℕ × A)
keep_better better ok k none best = best
keep_better better ok k (some x) none = if ok then some (k, x) else none
keep_better better ok k (some x) (some (j, y)) =
    if ok && better x y then some (k, x) else some (j, y)

unfoldable pub best_of :
    {A : Type 0}
    → (A → A → Bool)
    → (VenueMarketState → Option A)
    → List (ℕ × VenueMarketState)
    → Option (ℕ × A)
    → Option (ℕ × A)
best_of better quote [] best = best
best_of better quote ((k, v) ∷ es) best =
    best_of better quote es (keep_better better (is_healthy v.health) k (quote v) best)

abbrev pub later_funding : FundingState → FundingState → Bool
later_funding x y = ltb y.received_at x.received_at

unfoldable pub recalculate_health : List (ℕ × VenueMarketState) → ℕ
recalculate_health [] = 0
recalculate_health ((k, v) ∷ es) = (if is_healthy v.health then 1 else 0) + recalculate_health es

module _ (greater less : String → String → Bool) (difference product : String → String → String)
    (sort : (DepthLevel → DepthLevel → Bool) → List DepthLevel → List DepthLevel)
    (order : ℕ → List ℕ → List ℕ) where
  unfoldable pub calculate_spread : String → String → String
  unfolding trim_trailing_zeros
  calculate_spread bid ask = trim_trailing_zeros (difference ask bid)

  unfoldable pub calculate_notional : String → String → String
  unfolding trim_trailing_zeros
  calculate_notional price quantity = trim_trailing_zeros (product price quantity)

  -- The spread, which stays where a side has no price.
  abbrev pub spread_of : Option (ℕ × String) → Option (ℕ × String) → Option String → Option String
  spread_of (some (j, bid)) (some (k, ask)) old = some (calculate_spread bid ask)
  spread_of _ _ old = old

  unfoldable pub recalculate_best_bid_ask :
      List (ℕ × VenueMarketState) → InstrumentState → InstrumentState
  unfolding best_of
  recalculate_best_bid_ask es s =
      let bid = best_of greater (λ v. v.best_bid) es none in
      let ask = best_of less (λ v. v.best_ask) es none in
      record s { best_bid = bid; best_ask = ask; spread = spread_of bid ask s.spread }

  unfoldable pub recalculate_funding :
      List (ℕ × VenueMarketState) → InstrumentState → InstrumentState
  unfolding best_of
  recalculate_funding es s = record s { funding = best_of later_funding (λ v. v.funding) es none }

  unfoldable pub merge_depth_level : List DepthLevel → PriceLevel → List DepthLevel
  unfolding calculate_notional
  merge_depth_level [] l =
      record {
        price = l.price;
        quantity = l.quantity;
        notional = calculate_notional l.price l.quantity;
      }
      ∷ []
  merge_depth_level (x ∷ xs) l =
      if str_eq x.price l.price
      then record x { quantity = l.quantity; notional = calculate_notional l.price l.quantity } ∷ xs
      else x ∷ merge_depth_level xs l

  unfoldable pub merge_levels : List DepthLevel → List PriceLevel → List DepthLevel
  unfolding merge_depth_level
  merge_levels levels [] = levels
  merge_levels levels (l ∷ ls) = merge_levels (merge_depth_level levels l) ls

  unfoldable pub merge_venues :
      (VenueMarketState → List PriceLevel)
      → List (ℕ × VenueMarketState)
      → List DepthLevel
      → List DepthLevel
  unfolding merge_levels
  merge_venues side [] levels = levels
  merge_venues side ((k, v) ∷ es) levels =
      merge_venues side es (if is_healthy v.health then merge_levels levels (side v) else levels)

  unfoldable pub recalculate_depth : List (ℕ × VenueMarketState) → InstrumentState → InstrumentState
  unfolding merge_venues
  recalculate_depth es s = record s {
    bid_depth =
        take 10 (sort (λ x y. greater x.price y.price) (merge_venues (λ v. v.bid_depth) es []));
    ask_depth =
        take 10 (sort (λ x y. less x.price y.price) (merge_venues (λ v. v.ask_depth) es []));
  }

  -- The four recalculations, on the entries as each loop meets them.
  unfoldable pub recalculate : (ℕ → Option VenueMarketState) → InstrumentState → InstrumentState
  unfolding recalculate_best_bid_ask recalculate_funding recalculate_depth entries
      recalculate_health
  recalculate m s =
      let es : ℕ → List (ℕ × VenueMarketState) = λ n. entries m (order n s.venue_states) in
      let s1 = recalculate_best_bid_ask (es 0) s in
      let s2 = recalculate_funding (es 1) s1 in
      let s3 = recalculate_depth (es 2) s2 in
      let n = recalculate_health (es 3) in record s3 { healthy_venues = n; is_stale = n == 0 }
