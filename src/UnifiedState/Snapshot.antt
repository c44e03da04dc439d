-- ===== src/UnifiedState/Snapshot.antt =====
-- internal/unifiedstate/engine.go: `GetSnapshot`, with the states that the pointers lead to. `ids` are
-- the keys of the map of instruments. The totals are left out.
use go_be_arbitrage.Prelude.{ℕ, Option, none, some, List, [], ◌∷◌}
use go_be_arbitrage.UnifiedState.Model.{VenueMarketState, InstrumentState}
use go_be_arbitrage.UnifiedState.Aggregate.{entries}
use go_be_arbitrage.UnifiedState.Engine.{Engine}

abbrev pub Venue : Type 0
Venue = ℕ × VenueMarketState

-- An instrument of a snapshot, with the entries of its map of venues.
pub record Instrument : Type 0 where
  pub instrument_id : ℕ
  pub state : InstrumentState
  pub venue_states : List Venue

abbrev pub with_instrument : Engine → ℕ → Option InstrumentState → List Instrument → List Instrument
with_instrument e id none rest = rest
with_instrument e id (some s) rest =
    record {
      instrument_id = id;
      state = s;
      venue_states = entries (λ k. e.venue_states k id) s.venue_states;
    }
    ∷ rest

unfoldable pub get_snapshot : Engine → List ℕ → List Instrument
get_snapshot e [] = []
get_snapshot e (id ∷ ids) = with_instrument e id (e.instruments id) (get_snapshot e ids)
