-- ===== src/Opportunity/Unmarked.antt =====
-- internal/opportunity/engine.go over internal/unifiedstate: the scan for basis opportunities.
use Prim.Native.String.{String}
use mathlib.Core.List.{Memᴰ}
use go_be_arbitrage.Prelude.{
  ℕ, ◌≡◌, refl, Bool, false, ◌&&◌, Option, none, some, List, [], ◌∷◌, arith, All,
}
use go_be_arbitrage.Floats.{Float}
use go_be_arbitrage.UnifiedState.Model.{DepthLevel, InstrumentState}
use go_be_arbitrage.UnifiedState.Aggregate.{is_healthy, entry, entries}
use go_be_arbitrage.UnifiedState.Engine.{Engine, new_engine}
use go_be_arbitrage.UnifiedState.Snapshot.{Venue, Instrument, with_instrument, get_snapshot}
use go_be_arbitrage.UnifiedState.Calls.{Call, run_calls}
use go_be_arbitrage.UnifiedState.Stale.{mark_of, run_calls-IsUnmarked}
use go_be_arbitrage.Opportunity.Model.{VenueMarketState, ScannerConfig}
use go_be_arbitrage.Opportunity.BasisArb.{has_text}
use go_be_arbitrage.Opportunity.Engine.{keep_where, marked, collect, scan_bases}
use go_be_arbitrage.Opportunity.Members.{All-at}
use go_be_arbitrage.Opportunity.Scan.{IsRange}

abbrev NoMark : Venue → Type 0
NoMark v = v.1.mark_price ≡ none

entry-NoMark :
    (k : ℕ) (o : Option VenueMarketState) (rest : List Venue)
    → mark_of o ≡ none
    → All NoMark rest
    → All NoMark (entry k o rest)
entry-NoMark k none rest h g = g
entry-NoMark k (some v) rest h g = (h, g)

entries-NoMark :
    (m : ℕ → Option VenueMarketState) (ks : List ℕ)
    → ((k : ℕ) → mark_of (m k) ≡ none)
    → All NoMark (entries m ks)
unfolding entries
entries-NoMark m [] h = tt
entries-NoMark m (k ∷ ks) h = entry-NoMark k (m k) (entries m ks) (h k) (entries-NoMark m ks h)

unmarked : (b : Bool) (o : Option _) (c : Bool) → o ≡ none → b && has_text o && c ≡ false
unmarked b o c h = ground arith

keep_where-marked :
    (vs : List Venue) → ((v : Venue) → Memᴰ v vs → NoMark v) → keep_where marked vs ≡ []
keep_where-marked [] h = refl
keep_where-marked (v ∷ vs) h =
    rw
      (unmarked (is_healthy v.1.health) v.1.mark_price (has_text v.1.index_price)
        (h v (Memᴰ.head refl)))
      (keep_where-marked vs (λ w m. h w (Memᴰ.tail m)))

module _ {F : Type 0} (f : Float F) (parse : String → F) (format : F → String) (c : ScannerConfig F)
    (order : ℕ → List Venue → List Venue) (now : ℕ) (range : IsRange order) where
  scan_bases_none :
      (i : Instrument) → All NoMark i.venue_states → scan_bases f parse format c order now i ≡ []
  unfolding scan_bases collect
  scan_bases_none i h =
      let vs = i.venue_states in
      rw (keep_where-marked (order 2 vs) (λ v m. All-at NoMark h ((range.meets 2 vs v).0 m))) refl

  with_none :
      (e : Engine) (id : ℕ) (o : Option InstrumentState) (rest : List Instrument)
      → ((k i : ℕ) → mark_of (e.venue_states k i) ≡ none)
      → All (λ i. scan_bases f parse format c order now i ≡ []) rest
      → All (λ i. scan_bases f parse format c order now i ≡ []) (with_instrument e id o rest)
  with_none e id none rest h g = g
  with_none e id (some s) rest h g = (
    scan_bases_none _ (entries-NoMark (λ k. e.venue_states k id) s.venue_states (λ k. h k id)),
    g,
  )

  no_bases :
      (e : Engine) (ids : List ℕ)
      → ((k i : ℕ) → mark_of (e.venue_states k i) ≡ none)
      → All (λ i. scan_bases f parse format c order now i ≡ []) (get_snapshot e ids)
  unfolding get_snapshot
  no_bases e [] h = tt
  no_bases e (id ∷ ids) h =
      with_none e id (e.instruments id) (get_snapshot e ids) h (no_bases e ids h)

  -- Where the loops meet the entries of the map of venues: after any calls of the unified state, a
  -- scan of its snapshot finds no basis opportunity at any instrument.
  pub no_basis_found :
      (greater less : String → String → Bool) (difference product : String → String → String)
      (sort : (DepthLevel → DepthLevel → Bool) → List DepthLevel → List DepthLevel)
      (loops : ℕ → List ℕ → List ℕ) (cs : List Call) (ids : List ℕ)
      → All
          (λ i. scan_bases f parse format c order now i ≡ [])
          (get_snapshot (run_calls greater less difference product sort loops cs new_engine) ids)
  no_basis_found greater less difference product sort loops cs ids =
      no_bases (run_calls greater less difference product sort loops cs new_engine) ids (
        run_calls-IsUnmarked greater less difference product sort loops cs new_engine (λ k i. refl))
