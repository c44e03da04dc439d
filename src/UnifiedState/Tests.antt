-- ===== src/UnifiedState/Tests.antt =====
-- Tests of internal/unifiedstate: the theorems at concrete inputs, with texts of digits.
use Prim.Native.String.{String}
use Prim.Native.Char.{code}
use mathlib.Core.List.Permᴰ
use mathlib.Core.Option
use go_be_arbitrage.Prelude.{
  ℕ, ◌+◌, ◌-◌, ◌*◌, ◌≡◌, refl, Bool, true, false, none, some, List, [], ◌∷◌, arith, ltb,
}
use go_be_arbitrage.UnifiedState.Model.{DepthLevel, VenueMarketState, healthy, stale}
use go_be_arbitrage.UnifiedState.Aggregate.{merge_venues}
use go_be_arbitrage.UnifiedState.Engine.{
  Engine, new_engine, no_venue_state, no_instrument_state, exclude_stale_venues,
  get_executable_depth,
}
use go_be_arbitrage.UnifiedState.Calls.{
  Call, create_venue, create_instrument, update, ticker, health, run_calls,
}
use go_be_arbitrage.UnifiedState.Best.{IsRanking}
use go_be_arbitrage.UnifiedState.Summary.{IsConsistent, run_calls-IsConsistent}
use go_be_arbitrage.UnifiedState.Stale.{depth_at, last_of, depth_at-merge_venues, stale_bid_stays}

abbrev digits : ℕ → String → ℕ
digits n String.[] = n
digits n (String.◌∷◌ c s) = digits (n * 10 + (code c - 48)) s

abbrev above : String → String → Bool
above x y = ltb (digits 0 y) (digits 0 x)

abbrev below : String → String → Bool
below x y = ltb (digits 0 x) (digits 0 y)

abbrev no_text : String → String → String
no_text x y = ""

abbrev as_given : (DepthLevel → DepthLevel → Bool) → List DepthLevel → List DepthLevel
as_given less xs = xs

abbrev in_turn : ℕ → List ℕ → List ℕ
in_turn n ks = ks

ranking :
    (x y z : ℕ)
    → (ltb x y ≡ true → ltb y x ≡ false) × (ltb x y ≡ false → ltb y z ≡ false → ltb x z ≡ false)
ranking x y z = (λ h. ground arith, λ h g. ground arith)

above-IsRanking : IsRanking above
above-IsRanking = record {
  asym = λ x y. (ranking (digits 0 y) (digits 0 x) 0).0;
  neg_trans = λ x y z h g. (ranking (digits 0 z) (digits 0 y) (digits 0 x)).1 g h;
}

below-IsRanking : IsRanking below
below-IsRanking = record {
  asym = λ x y. (ranking (digits 0 x) (digits 0 y) 0).0;
  neg_trans = λ x y z. (ranking (digits 0 x) (digits 0 y) (digits 0 z)).1;
}

-- Two venues of one instrument; the second one has the better bid and is not marked as healthy.
abbrev some_calls : List Call
some_calls =
    create_instrument 1
    ∷ create_venue 7 1 70
    ∷ create_venue 8 1 80
    ∷ update (health healthy) 7 1
    ∷ update (ticker 5 (some "100") (some "102") none none) 7 1
    ∷ update (ticker 6 (some "101") (some "103") none none) 8 1
    ∷ []

run_calls-IsConsistent_example :
    IsConsistent above below no_text no_text as_given in_turn
      (run_calls above below no_text no_text as_given in_turn some_calls new_engine)
run_calls-IsConsistent_example =
    run_calls-IsConsistent above below no_text no_text as_given in_turn above-IsRanking
      below-IsRanking (λ n ks. Permᴰ.refl ks) some_calls
      (refl, (refl, (refl, (refl, (refl, (refl, tt))))))

abbrev quoting : VenueMarketState
quoting = record (no_venue_state 70) {
  health = healthy;
  best_bid = some "100";
  bid_depth = record { price = "100"; quantity = "2" } ∷ [];
}

abbrev one_venue : Engine
one_venue = record {
  instruments = λ i. some (record no_instrument_state { best_bid = some (7, "100") });
  venue_states = λ k i. some quoting;
  venue_keys = (7, 1) ∷ [];
}

stale_bid_stays_example :
    let e' = (exclude_stale_venues 50 20 one_venue).1 in
    (Option.map (λ w. w.health) (e'.venue_states 7 1) ≡ some stale)
    × (Option.map
          (λ d. d.best_bid)
          (get_executable_depth above below no_text no_text as_given in_turn 1 5 e')
        ≡ some (some "100"))
stale_bid_stays_example =
    stale_bid_stays above below no_text no_text as_given in_turn one_venue 7 1 50 20 5 "100" quoting
      (record no_instrument_state { best_bid = some (7, "100") }) refl refl refl refl

depth_at-merge_venues_example :
    depth_at "100" (
      merge_venues above below no_text no_text as_given in_turn
        (λ v. v.bid_depth)
        ((7, quoting) ∷ (8, quoting) ∷ [])
        [])
    ≡ last_of (λ v. v.bid_depth) "100" ((7, quoting) ∷ (8, quoting) ∷ []) (depth_at "100" [])
depth_at-merge_venues_example =
    depth_at-merge_venues above below no_text no_text as_given in_turn (λ v. v.bid_depth) "100"
      ((7, quoting) ∷ (8, quoting) ∷ []) []
