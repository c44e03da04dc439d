-- ===== src/UnifiedState/Summary.antt =====
-- internal/unifiedstate: an instrument's summary agrees with its venues.
use Prim.Native.String.{String}
use mathlib.Core.List.{Permᴰ}
use mathlib.Core.Path.{subst, fun_ext}
use go_be_arbitrage.Prelude.{
  ℕ, ◌≡◌, refl, sym, ap, ◌∙◌, Bool, true, false, ◌&&◌, Option, none, some, List, [], ◌∷◌, arith,
  ltb, ◌==◌, ==_iff, if◌then◌else◌, All, Bool-cases, inl, inr,
}
use go_be_arbitrage.UnifiedState.Model.{DepthLevel, VenueMarketState, InstrumentState}
use go_be_arbitrage.UnifiedState.Aggregate.{later_funding, recalculate}
use go_be_arbitrage.UnifiedState.Engine.{
  Engine, new_engine, write_state, created, get_or_create_venue_state, no_venue_state, state_or_new,
  get_or_create_instrument_state, joined, merged, merge_venue_state, changed, update_venue,
}
use go_be_arbitrage.UnifiedState.Calls.{
  apply_change, Call, create_venue, create_instrument, update, exclude, excludes, run_call,
  run_calls,
}
use go_be_arbitrage.UnifiedState.Best.{
  live, IsRanking, IsBest, healthy_count, best_of-IsBest, healthy_count-Permᴰ,
  recalculate_health-count,
}

pub later_funding-IsRanking : IsRanking later_funding
later_funding-IsRanking = record {
  asym = λ x y h. ground arith;
  neg_trans = λ x y z h g. ground arith;
}

-- An instrument's best bid, best ask and latest funding are those of its healthy venues, it counts
-- them, and where one is healthy it is not stale.
pub record IsSummary (greater less : String → String → Bool) (n : ℕ → Option VenueMarketState)
    (s : InstrumentState) : Type 0 where
  pub bids : IsBest greater (λ v. v.best_bid) n s.venue_states s.best_bid
  pub asks : IsBest less (λ v. v.best_ask) n s.venue_states s.best_ask
  pub fundings : IsBest later_funding (λ v. v.funding) n s.venue_states s.funding
  pub counted : s.healthy_venues ≡ healthy_count n s.venue_states
  pub fresh : s.is_stale && ltb 0 s.healthy_venues ≡ false

module _ (greater less : String → String → Bool) (difference product : String → String → String)
    (sort : (DepthLevel → DepthLevel → Bool) → List DepthLevel → List DepthLevel)
    (order : ℕ → List ℕ → List ℕ) where
  -- Every instrument's summary is right.
  abbrev pub Summarised : (ℕ → Option VenueMarketState) → Option InstrumentState → Type 0
  Summarised n none = Unit
  Summarised n (some s) = IsSummary greater less n s

  abbrev pub IsConsistent : Engine → Type 0
  IsConsistent e = (i : ℕ) → Summarised (λ k. live (e.venue_states k i)) (e.instruments i)

  module _ (greater_IsRanking : IsRanking greater) (less_IsRanking : IsRanking less)
      (order-Permᴰ : (n : ℕ) (ks : List ℕ) → Permᴰ (order n ks) ks) where
    recalculate-IsSummary :
        (m : ℕ → Option VenueMarketState) (s : InstrumentState)
        → IsSummary greater less
            (λ k. live (m k))
            (recalculate greater less difference product sort order m s)
    unfolding recalculate
    recalculate-IsSummary m s =
        let ks = s.venue_states in
        record {
          bids =
              best_of-IsBest greater greater_IsRanking (λ v. v.best_bid) m ks (order 0 ks)
                (order-Permᴰ 0 ks);
          asks =
              best_of-IsBest less less_IsRanking (λ v. v.best_ask) m ks (order 0 ks)
                (order-Permᴰ 0 ks);
          fundings =
              best_of-IsBest later_funding later_funding-IsRanking (λ v. v.funding) m ks
                (order 1 ks) (order-Permᴰ 1 ks);
          counted =
              recalculate_health-count m (order 3 ks)
              ∙ healthy_count-Permᴰ (λ k. live (m k)) (order-Permᴰ 3 ks);
          fresh = ground arith;
        }

    merged-Summarised :
        (e : Engine) (venue inst : ℕ) (o : Option InstrumentState)
        → Summarised
            (λ k. live (e.venue_states k inst))
            (merged greater less difference product sort order e venue inst o)
    merged-Summarised e venue inst none = tt
    merged-Summarised e venue inst (some s) =
        recalculate-IsSummary (λ k. e.venue_states k inst)
          (joined greater less difference product sort order venue s)

    other_state :
        (b c : Bool) (x y : Option VenueMarketState)
        → c ≡ false
        → live (if b && c then x else y) ≡ live y
    other_state b c x y h = ground arith

    if_Summarised :
        (n : ℕ → Option VenueMarketState) (b : Bool) (x y : Option InstrumentState)
        → (b ≡ true → Summarised n x)
        → (b ≡ false → Summarised n y)
        → Summarised n (if b then x else y)
    if_Summarised n true x y h g = h refl
    if_Summarised n false x y h g = g refl

    changed-IsConsistent :
        (g : VenueMarketState → VenueMarketState) (venue inst : ℕ) (o : Option VenueMarketState)
        (e : Engine)
        → IsConsistent e
        → IsConsistent (changed greater less difference product sort order g venue inst o e)
    unfolding merge_venue_state
    changed-IsConsistent g venue inst none e c = c
    changed-IsConsistent g venue inst (some v) e c = λ i.
        let w = write_state venue inst (g v) e in
        let new =
          (merged greater less difference product sort order w venue inst (w.instruments inst)) in
        if_Summarised (λ k. live (w.venue_states k i)) (i == inst) new (e.instruments i)
          (λ same.
            subst (λ (j : ℕ). Summarised (λ k. live (w.venue_states k j)) new)
              (sym ((==_iff i inst).0 same)) (merged-Summarised w venue inst (w.instruments inst)))
          (λ other.
            subst (λ (n : ℕ → Option VenueMarketState). Summarised n (e.instruments i))
              (fun_ext (λ k.
                sym (other_state (k == venue) (i == inst) (some (g v)) (e.venue_states k i) other)))
              (c i))

    fresh_state :
        (b c : Bool) (v : VenueMarketState) (y : Option VenueMarketState)
        → live (some v) ≡ none
        → (if b && c then live y else none) ≡ none
        → live (if b && c then some v else y) ≡ live y
    fresh_state b c v y h g = ground arith

    absent :
        (m : ℕ → ℕ → Option VenueMarketState) (venue inst k i : ℕ)
        → m venue inst ≡ none
        → (if (k == venue) && (i == inst) then live (m k i) else none) ≡ none
    absent m venue inst k i e = elim (Bool-cases (k == venue)) [
      | inr b ↦ rw b refl
      | inl b ↦ elim (Bool-cases (i == inst)) [
        | inr c ↦ rw (b, c) refl
        | inl c ↦
            rw (b, c)
              (ap live
                (ap (λ x. m x i) ((==_iff k venue).0 b) ∙ ap (m venue) ((==_iff i inst).0 c) ∙ e))
      ]
    ]

    created-IsConsistent :
        (venue inst code : ℕ) (o : Option VenueMarketState) (e : Engine)
        → e.venue_states venue inst ≡ o
        → IsConsistent e
        → IsConsistent (created venue inst code o e)
    created-IsConsistent venue inst code (some v) e there c = c
    created-IsConsistent venue inst code none e there c = λ i.
        subst (λ (n : ℕ → Option VenueMarketState). Summarised n (e.instruments i))
          (fun_ext (λ k. sym (
            fresh_state (k == venue) (i == inst) (no_venue_state code) (e.venue_states k i) refl
              (absent e.venue_states venue inst k i there))))
          (c i)

    state_or_new-Summarised :
        (n : ℕ → Option VenueMarketState) (o : Option InstrumentState)
        → Summarised n o
        → Summarised n (some (state_or_new o))
    state_or_new-Summarised n none h = record {
      bids = record { unbeaten = tt; held = tt };
      asks = record { unbeaten = tt; held = tt };
      fundings = record { unbeaten = tt; held = tt };
      counted = unfold healthy_count in refl;
      fresh = refl;
    }
    state_or_new-Summarised n (some s) h = h

    run_call-IsConsistent :
        (c : Call) (e : Engine)
        → excludes c ≡ false
        → IsConsistent e
        → IsConsistent (run_call greater less difference product sort order c e)
    unfolding run_call get_or_create_venue_state get_or_create_instrument_state update_venue
    run_call-IsConsistent (create_venue venue inst code) e x h =
        created-IsConsistent venue inst code (e.venue_states venue inst) e refl h
    run_call-IsConsistent (create_instrument inst) e x h = λ i. elim (Bool-cases (i == inst)) [
      | inl same ↦ rw same (
          subst
            (λ (j : ℕ).
              Summarised (λ k. live (e.venue_states k j))
                (some (state_or_new (e.instruments inst))))
            (sym ((==_iff i inst).0 same))
            (state_or_new-Summarised (λ k. live (e.venue_states k inst)) (e.instruments inst)
              (h inst)))
      | inr other ↦ rw other (h i)
    ]
    run_call-IsConsistent (update c venue inst) e x h =
        changed-IsConsistent (apply_change c) venue inst (e.venue_states venue inst) e h
    run_call-IsConsistent (exclude now threshold) e x h = cc

    run_calls-kept :
        (cs : List Call) (e : Engine)
        → All (λ c. excludes c ≡ false) cs
        → IsConsistent e
        → IsConsistent (run_calls greater less difference product sort order cs e)
    unfolding run_calls
    run_calls-kept [] e x h = h
    run_calls-kept (c ∷ cs) e x h =
        run_calls-kept cs (run_call greater less difference product sort order c e) x.1
          (run_call-IsConsistent c e x.0 h)

    -- Where the comparisons of prices rank and the loops meet every venue once: through any calls on a
    -- new engine but ExcludeStaleVenues, every instrument's best bid, best ask and latest funding are
    -- those of its healthy venues, it counts the healthy ones, and is not stale where there is one.
    pub run_calls-IsConsistent :
        (cs : List Call)
        → All (λ c. excludes c ≡ false) cs
        → IsConsistent (run_calls greater less difference product sort order cs new_engine)
    run_calls-IsConsistent cs x = run_calls-kept cs new_engine x (λ i. tt)
