-- ===== src/UnifiedState/Engine.antt =====
-- internal/unifiedstate/engine.go: the maps of the engine and their operations, and the updates of
-- service.go. The parameters are those of the recalculations.
use Prim.Native.String.{String}
use Prim.Native.Char.{code}
use mathlib.Core.Option
use go_be_arbitrage.Prelude.{
  ℕ, ◌-◌, Bool, false, ◌&&◌, ◌||◌, Option, none, some, List, [], ◌∷◌, length, take, ltb, ◌==◌,
  if◌then◌else◌,
}
use go_be_arbitrage.UnifiedState.Model.{
  VenueHealthStatus, healthy, stale, unhealthy, unknown, DepthLevel, VenueMarketState,
  InstrumentState, update_health,
}
use go_be_arbitrage.UnifiedState.Aggregate.{recalculate, spread_of}

-- The maps: the instruments, and the state of each venue for each instrument with the list of the
-- keys, a venue and an instrument, that it has.
pub record Engine : Type 0 where
  pub instruments : ℕ → Option InstrumentState
  pub venue_states : ℕ → ℕ → Option VenueMarketState
  pub venue_keys : List (ℕ × ℕ)

abbrev pub has_key : ℕ → List ℕ → Bool
has_key k [] = false
has_key k (j ∷ js) = (j == k) || has_key k js

-- `m[k] = v` on the keys of a map.
abbrev pub put_key : ℕ → List ℕ → List ℕ
put_key k ks = if has_key k ks then ks else k ∷ ks

abbrev pub no_venue_state : ℕ → VenueMarketState
no_venue_state code = record {
  venue_code = code;
  best_bid = none;
  best_ask = none;
  last_price = none;
  spread = none;
  bid_depth = [];
  ask_depth = [];
  funding = none;
  mark_price = none;
  index_price = none;
  health = unknown;
  last_update = 0;
}

abbrev pub no_instrument_state : InstrumentState
no_instrument_state = record {
  best_bid = none;
  best_ask = none;
  spread = none;
  bid_depth = [];
  ask_depth = [];
  funding = none;
  venue_states = [];
  healthy_venues = 0;
  total_venues = 0;
  is_stale = false;
}

abbrev pub new_engine : Engine
new_engine = record { instruments = λ i. none; venue_states = λ k i. none; venue_keys = [] }

-- What the pointer under a key is changed to.
abbrev pub write_state : ℕ → ℕ → VenueMarketState → Engine → Engine
write_state venue inst v e = record e {
  venue_states = λ k i. if (k == venue) && (i == inst) then some v else e.venue_states k i;
}

abbrev pub created : ℕ → ℕ → ℕ → Option VenueMarketState → Engine → Engine
created venue inst code (some v) e = e
created venue inst code none e = record (write_state venue inst (no_venue_state code) e) {
  venue_keys = (venue, inst) ∷ e.venue_keys;
}

unfoldable pub get_or_create_venue_state : ℕ → ℕ → ℕ → Engine → Engine
get_or_create_venue_state venue inst code e = created venue inst code (e.venue_states venue inst) e

abbrev pub state_or_new : Option InstrumentState → InstrumentState
state_or_new none = no_instrument_state
state_or_new (some s) = s

unfoldable pub get_or_create_instrument_state : ℕ → Engine → Engine
get_or_create_instrument_state inst e =
    let s = state_or_new (e.instruments inst) in
    record e { instruments = λ i. if i == inst then some s else e.instruments i }

-- What the loop of `ExcludeStaleVenues` makes of the health of a state.
unfoldable pub aged_health : ℕ → ℕ → VenueMarketState → VenueHealthStatus
aged_health now threshold v = if ltb threshold (now - v.last_update) then stale else elim v.health [
  | stale ↦ healthy
  | unknown ↦ healthy
  | unhealthy ↦ unhealthy
  | healthy ↦ healthy
]

abbrev pub is_aged : ℕ → ℕ → Option VenueMarketState → Bool
is_aged now threshold none = false
is_aged now threshold (some v) = ltb threshold (now - v.last_update)

unfoldable pub aged_venues : ℕ → ℕ → (ℕ → ℕ → Option VenueMarketState) → List (ℕ × ℕ) → List ℕ
aged_venues now threshold m [] = []
aged_venues now threshold m ((k, i) ∷ ks) =
    let rest = aged_venues now threshold m ks in
    if is_aged now threshold (m k i) then k ∷ rest else rest

unfoldable pub exclude_stale_venues : ℕ → ℕ → Engine → List ℕ × Engine
unfolding aged_health aged_venues
exclude_stale_venues now threshold e = (
  aged_venues now threshold e.venue_states e.venue_keys,
  record e {
    venue_states =
        λ k i. Option.map (λ v. update_health (aged_health now threshold v) v) (e.venue_states k i);
  },
)

-- What a caller gets to trade on.
pub record ExecutableDepth : Type 0 where
  pub best_bid : Option String
  pub best_ask : Option String
  pub spread : Option String
  pub bid_depth : List DepthLevel
  pub ask_depth : List DepthLevel

module _ (greater less : String → String → Bool) (difference product : String → String → String)
    (sort : (DepthLevel → DepthLevel → Bool) → List DepthLevel → List DepthLevel)
    (order : ℕ → List ℕ → List ℕ) where
  abbrev pub joined : ℕ → InstrumentState → InstrumentState
  joined venue s =
      let ks = put_key venue s.venue_states in
      record s { venue_states = ks; total_venues = length ks }

  abbrev pub merged : Engine → ℕ → ℕ → Option InstrumentState → Option InstrumentState
  merged e venue inst none = none
  merged e venue inst (some s) = some (
      recalculate greater less difference product sort order (λ k. e.venue_states k inst)
        (joined venue s))

  unfoldable pub merge_venue_state : ℕ → ℕ → Engine → Engine
  merge_venue_state venue inst e =
      let s = merged e venue inst (e.instruments inst) in
      record e { instruments = λ i. if i == inst then s else e.instruments i }

  abbrev pub changed :
      (VenueMarketState → VenueMarketState) → ℕ → ℕ → Option VenueMarketState → Engine → Engine
  changed g venue inst none e = e
  changed g venue inst (some v) e = merge_venue_state venue inst (write_state venue inst (g v) e)

  -- `UpdateVenueTicker`, `UpdateVenueOrderBook`, `UpdateVenueFunding` and `UpdateVenueHealth`, by the
  -- change that they make to the state of the venue.
  unfoldable pub update_venue : (VenueMarketState → VenueMarketState) → ℕ → ℕ → Engine → Engine
  update_venue g venue inst e = changed g venue inst (e.venue_states venue inst) e

  abbrev pub price_of : Option (ℕ × String) → Option String
  price_of none = none
  price_of (some (k, p)) = some p

  abbrev pub depth_of : ℕ → Option InstrumentState → Option ExecutableDepth
  depth_of depth none = none
  depth_of depth (some s) = some (record {
    best_bid = price_of s.best_bid;
    best_ask = price_of s.best_ask;
    spread = spread_of greater less difference product sort order s.best_bid s.best_ask none;
    bid_depth = take depth s.bid_depth;
    ask_depth = take depth s.ask_depth;
  })

  unfoldable pub get_executable_depth : ℕ → ℕ → Engine → Option ExecutableDepth
  get_executable_depth inst depth e = depth_of depth (e.instruments inst)
