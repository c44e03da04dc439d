-- ===== src/UnifiedState/Stale.antt =====
-- internal/unifiedstate: what the summaries do not follow, and what no call sets.
use Prim.Native.String.{String}
use mathlib.Core.Option
use text.Mathlib.Text.{◌==◌ as str_eq}
use text.Mathlib.TextEquality.{eq_iff}
use go_be_arbitrage.Prelude.{
  ℕ, ◌-◌, ◌≡◌, refl, Bool, true, false, ◌&&◌, Option, none, some, List, [], ◌∷◌, arith, ltb, ◌==◌,
  if◌then◌else◌, Bool-cases, inl, inr, sym, ◌∙◌,
}
use go_be_arbitrage.OrderBook.Model.{PriceLevel}
use go_be_arbitrage.UnifiedState.Model.{
  stale, DepthLevel, VenueMarketState, InstrumentState, update_ticker, update_order_book,
  update_funding, update_health,
}
use go_be_arbitrage.UnifiedState.Aggregate.{
  is_healthy, merge_depth_level, merge_levels, merge_venues,
}
use go_be_arbitrage.UnifiedState.Engine.{
  Engine, no_venue_state, created, get_or_create_venue_state, get_or_create_instrument_state,
  aged_health, exclude_stale_venues, merge_venue_state, changed, update_venue, get_executable_depth,
}
use go_be_arbitrage.UnifiedState.Calls.{
  Change, ticker, order_book, funding, health, apply_change, Call, create_venue, create_instrument,
  update, exclude, run_call, run_calls,
}

-- The quantity at a price.
unfoldable pub depth_at : String → List DepthLevel → Option String
depth_at p [] = none
depth_at p (x ∷ xs) = if str_eq x.price p then some x.quantity else depth_at p xs

-- The last quantity that the levels have at a price.
unfoldable pub last_at : String → List PriceLevel → Option String → Option String
last_at p [] old = old
last_at p (l ∷ ls) old = last_at p ls (if str_eq l.price p then some l.quantity else old)

-- The last quantity that the healthy venues have at a price.
unfoldable pub last_of :
    (VenueMarketState → List PriceLevel)
    → String
    → List (ℕ × VenueMarketState)
    → Option String
    → Option String
unfolding last_at
last_of side p [] old = old
last_of side p ((k, v) ∷ es) old =
    last_of side p es (if is_healthy v.health then last_at p (side v) old else old)

abbrev pub mark_of : Option VenueMarketState → Option String
mark_of none = none
mark_of (some v) = v.mark_price

module _ (greater less : String → String → Bool) (difference product : String → String → String)
    (sort : (DepthLevel → DepthLevel → Bool) → List DepthLevel → List DepthLevel)
    (order : ℕ → List ℕ → List ℕ) where
  depth_at-merge_depth_level :
      (p : String) (l : PriceLevel) (xs : List DepthLevel)
      → depth_at p (merge_depth_level greater less difference product sort order xs l)
        ≡ (if str_eq l.price p then some l.quantity else depth_at p xs)
  unfolding depth_at merge_depth_level
  depth_at-merge_depth_level p l [] = refl
  depth_at-merge_depth_level p l (x ∷ xs) = ground (
    arith,
    depth_at-merge_depth_level p l xs,
    eq_iff x.price p,
    eq_iff x.price l.price,
    eq_iff l.price p,
  )

  depth_at-merge_levels :
      (p : String) (ls : List PriceLevel) (xs : List DepthLevel)
      → depth_at p (merge_levels greater less difference product sort order xs ls)
        ≡ last_at p ls (depth_at p xs)
  unfolding merge_levels last_at
  depth_at-merge_levels p [] xs = refl
  depth_at-merge_levels p (l ∷ ls) xs = rw (sym (depth_at-merge_depth_level p l xs)) (
      depth_at-merge_levels p ls
        (merge_depth_level greater less difference product sort order xs l))

  -- At every price, the depth of an instrument before it is sorted and cut has the quantity of the
  -- last healthy venue met that has the price, whatever the others have there.
  pub depth_at-merge_venues :
      (side : VenueMarketState → List PriceLevel) (p : String) (es : List (ℕ × VenueMarketState))
      (xs : List DepthLevel)
      → depth_at p (merge_venues greater less difference product sort order side es xs)
        ≡ last_of side p es (depth_at p xs)
  unfolding merge_venues last_of
  depth_at-merge_venues side p [] xs = refl
  depth_at-merge_venues side p ((k, v) ∷ es) xs = elim (Bool-cases (is_healthy v.health)) [
    | inl e ↦
        rw (e, sym (depth_at-merge_levels p (side v) xs))
          (depth_at-merge_venues side p es
            (merge_levels greater less difference product sort order xs (side v)))
    | inr e ↦ rw e (depth_at-merge_venues side p es xs)
  ]

  -- Where the best bid of an instrument is from a venue whose last update is older than the threshold,
  -- ExcludeStaleVenues marks the venue as stale, and still the depth to trade on offers the bid.
  pub stale_bid_stays :
      (e : Engine) (venue inst now threshold depth : ℕ) (p : String) (v : VenueMarketState)
      (s : InstrumentState)
      → e.venue_states venue inst ≡ some v
      → ltb threshold (now - v.last_update) ≡ true
      → e.instruments inst ≡ some s
      → s.best_bid ≡ some (venue, p)
      → let e' = (exclude_stale_venues now threshold e).1 in
        (Option.map (λ w. w.health) (e'.venue_states venue inst) ≡ some stale)
        × (Option.map
              (λ d. d.best_bid)
              (get_executable_depth greater less difference product sort order inst depth e')
            ≡ some (some p))
  unfolding exclude_stale_venues aged_health get_executable_depth update_health
  stale_bid_stays e venue inst now threshold depth p v s here old there best =
      (rw (here, old) refl, rw (there, best) refl)

  apply_change-mark :
      (c : Change) (v : VenueMarketState) → (apply_change c v).mark_price ≡ v.mark_price
  unfolding apply_change update_ticker update_order_book update_funding update_health
  apply_change-mark (ticker now b a l s) v = refl
  apply_change-mark (order_book now bids asks b a) v = refl
  apply_change-mark (funding now x) v = refl
  apply_change-mark (health h) v = refl

  -- No state has a mark price.
  abbrev pub IsUnmarked : Engine → Type 0
  IsUnmarked e = (k i : ℕ) → mark_of (e.venue_states k i) ≡ none

  if_mark :
      (b : Bool) (x y : Option VenueMarketState)
      → mark_of x ≡ none
      → mark_of y ≡ none
      → mark_of (if b then x else y) ≡ none
  if_mark true x y h g = h
  if_mark false x y h g = g

  created-IsUnmarked :
      (venue inst code : ℕ) (o : Option VenueMarketState) (e : Engine)
      → IsUnmarked e
      → IsUnmarked (created venue inst code o e)
  created-IsUnmarked venue inst code (some v) e h = h
  created-IsUnmarked venue inst code none e h = λ k i.
      if_mark ((k == venue) && (i == inst)) (some (no_venue_state code)) (e.venue_states k i) refl
        (h k i)

  changed-IsUnmarked :
      (c : Change) (venue inst : ℕ) (o : Option VenueMarketState) (e : Engine)
      → mark_of o ≡ none
      → IsUnmarked e
      → IsUnmarked
          (changed greater less difference product sort order (apply_change c) venue inst o e)
  unfolding merge_venue_state
  changed-IsUnmarked c venue inst none e g h = h
  changed-IsUnmarked c venue inst (some v) e g h = λ k i.
      if_mark ((k == venue) && (i == inst)) (some (apply_change c v)) (e.venue_states k i)
        (apply_change-mark c v ∙ g) (h k i)

  aged-mark :
      (now threshold : ℕ) (o : Option VenueMarketState)
      → mark_of o ≡ none
      → mark_of (Option.map (λ v. update_health (aged_health now threshold v) v) o) ≡ none
  unfolding update_health
  aged-mark now threshold none h = h
  aged-mark now threshold (some v) h = h

  run_call-IsUnmarked :
      (c : Call) (e : Engine)
      → IsUnmarked e
      → IsUnmarked (run_call greater less difference product sort order c e)
  unfolding run_call get_or_create_venue_state get_or_create_instrument_state update_venue
      exclude_stale_venues
  run_call-IsUnmarked (create_venue venue inst code) e h =
      created-IsUnmarked venue inst code (e.venue_states venue inst) e h
  run_call-IsUnmarked (create_instrument inst) e h = h
  run_call-IsUnmarked (update c venue inst) e h =
      changed-IsUnmarked c venue inst (e.venue_states venue inst) e (h venue inst) h
  run_call-IsUnmarked (exclude now threshold) e h =
      λ k i. aged-mark now threshold (e.venue_states k i) (h k i)

  pub run_calls-IsUnmarked :
      (cs : List Call) (e : Engine)
      → IsUnmarked e
      → IsUnmarked (run_calls greater less difference product sort order cs e)
  unfolding run_calls
  run_calls-IsUnmarked [] e h = h
  run_calls-IsUnmarked (c ∷ cs) e h =
      run_calls-IsUnmarked cs (run_call greater less difference product sort order c e)
        (run_call-IsUnmarked c e h)
