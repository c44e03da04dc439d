-- ===== src/Opportunity/Engine.antt =====
-- internal/opportunity/engine.go. A snapshot is a list of instruments, each with the entries of its
-- map of venues; `order` is the order in which the n-th loop ranges over them; all clock reads of a scan
-- are one. `draw` is the n-th id that the scan draws. The counts of the result are left out.
use Prim.Native.String.{String}
use go_be_arbitrage.Prelude.{
  ℕ, ◌+◌, Bool, true, false, ◌&&◌, ◌||◌, not, Option, none, some, List, [], ◌∷◌, ◌++◌, ltb, ◌==◌,
  if◌then◌else◌,
}
use go_be_arbitrage.Floats.{Float}
use go_be_arbitrage.UnifiedState.Snapshot.{Venue, Instrument}
use go_be_arbitrage.Opportunity.Model.{
  FundingState, ScannerConfig, Opportunity, Calculation, found, refused,
}
use go_be_arbitrage.Opportunity.Estimates.{is_healthy}
use go_be_arbitrage.Opportunity.PriceArb.{PriceArbInput, calculate_price_arb}
use go_be_arbitrage.Opportunity.FundingArb.{FundingArbInput, calculate_funding_arb}
use go_be_arbitrage.Opportunity.BasisArb.{BasisArbInput, has_text, calculate_basis_arb}

abbrev pub keep_where : {A : Type 0} → (A → Bool) → List A → List A
keep_where p [] = []
keep_where p (x ∷ xs) = let rest = keep_where p xs in if p x then x ∷ rest else rest

unfoldable pub flat : {A B : Type 0} → (A → List B) → List A → List B
flat g [] = []
flat g (x ∷ xs) = g x ++ flat g xs

-- The two nested loops over `venues`.
unfoldable pub pairs_of : {A B : Type 0} → (A → A → List B) → List A → List B
unfolding flat
pairs_of inputs [] = []
pairs_of inputs (x ∷ xs) = flat (inputs x) xs ++ pairs_of inputs xs

abbrev pub has_funding : Option FundingState → Bool
has_funding none = false
has_funding (some x) = true

abbrev pub price_input : ℕ → Venue → Venue → PriceArbInput
price_input inst (i, v) (j, w) = record {
  instrument_id = inst;
  buy_venue = some v;
  sell_venue = some w;
  buy_venue_id = i;
  buy_venue_code = v.venue_code;
  sell_venue_id = j;
  sell_venue_code = w.venue_code;
}

abbrev pub funding_input : ℕ → Venue → Venue → FundingArbInput
funding_input inst (i, v) (j, w) = record {
  instrument_id = inst;
  venue_a = some v;
  venue_b = some w;
  venue_a_id = i;
  venue_a_code = v.venue_code;
  venue_b_id = j;
  venue_b_code = w.venue_code;
}

abbrev pub basis_input : ℕ → Venue → BasisArbInput
basis_input inst (i, v) = record {
  instrument_id = inst;
  venue = some v;
  venue_id = i;
  venue_code = v.venue_code;
}

abbrev pub quotes_both : Venue → Bool
quotes_both (i, v) = is_healthy v.health && has_text v.best_bid && has_text v.best_ask

abbrev pub funds : Venue → Bool
funds (i, v) = is_healthy v.health && has_funding v.funding

abbrev pub marked : Venue → Bool
marked (i, v) = is_healthy v.health && has_text v.mark_price && has_text v.index_price

-- The inputs of a pair, in both directions.
abbrev pub price_inputs : ℕ → Venue → Venue → List PriceArbInput
price_inputs inst (i, v) (j, w) =
    (if has_text v.best_ask && has_text w.best_bid then price_input inst (i, v) (j, w) ∷ [] else [])
    ++ (if has_text w.best_ask && has_text v.best_bid
        then price_input inst (j, w) (i, v) ∷ []
        else [])

unfoldable pub get_venue_pairs : ℕ → List Venue → List PriceArbInput
unfolding pairs_of
get_venue_pairs inst vs = pairs_of (price_inputs inst) (keep_where quotes_both vs)

unfoldable pub get_funding_pairs : ℕ → List Venue → List FundingArbInput
unfolding pairs_of
get_funding_pairs inst vs = pairs_of (λ a b. funding_input inst a b ∷ []) (keep_where funds vs)

abbrev pub kept : {F : Type 0} → Calculation F → List (Opportunity F) → List (Opportunity F)
kept (found o) os = o ∷ os
kept (refused e) os = os

-- The loops that keep what a calculation finds.
unfoldable pub collect : {F I : Type 0} → (I → Calculation F) → List I → List (Opportunity F)
collect calculate [] = []
collect calculate (x ∷ xs) = kept (calculate x) (collect calculate xs)

abbrev pub numbered : {A : Type 0} → (ℕ → ℕ) → ℕ → List A → List (ℕ × A)
numbered draw n [] = []
numbered draw n (x ∷ xs) = (draw n, x) ∷ numbered draw (n + 1) xs

module _ {F : Type 0} (f : Float F) (parse : String → F) (format : F → String) (c : ScannerConfig F)
    (order : ℕ → List Venue → List Venue) (now : ℕ) where
  unfoldable pub scan_prices : Instrument → List (Opportunity F)
  unfolding get_venue_pairs collect
  scan_prices inst =
      collect (λ i. calculate_price_arb f parse format c i now)
        (get_venue_pairs inst.instrument_id (order 0 inst.venue_states))

  unfoldable pub scan_fundings : Instrument → List (Opportunity F)
  unfolding get_funding_pairs collect
  scan_fundings inst =
      collect (λ i. calculate_funding_arb f parse format c i now)
        (get_funding_pairs inst.instrument_id (order 1 inst.venue_states))

  unfoldable pub scan_bases : Instrument → List (Opportunity F)
  unfolding collect
  scan_bases inst =
      collect (λ v. calculate_basis_arb f parse format c (basis_input inst.instrument_id v) now)
        (keep_where marked (order 2 inst.venue_states))

  abbrev pub skips : Instrument → Bool
  skips inst = inst.state.is_stale || (inst.state.healthy_venues == 0)

  unfoldable pub scan_instruments : List Instrument → List (Opportunity F)
  unfolding scan_prices scan_fundings scan_bases
  scan_instruments [] = []
  scan_instruments (i ∷ is) =
      let rest = scan_instruments is in
      if skips i then rest else scan_prices i ++ (scan_fundings i ++ (scan_bases i ++ rest))

  -- The field `results`.
  abbrev pub Results : Type 0
  Results = List (ℕ × Opportunity F)

  unfoldable pub expire_old_opportunities : Results → Results
  expire_old_opportunities rs = keep_where (λ r. not (ltb r.1.expires_at now)) rs

  -- The opportunities found and the results after the scan.
  unfoldable pub scan_all : (ℕ → ℕ) → List Instrument → Results → List (Opportunity F) × Results
  unfolding scan_instruments expire_old_opportunities
  scan_all draw is rs =
      let os = scan_instruments is in (os, numbered draw 0 os ++ expire_old_opportunities rs)
