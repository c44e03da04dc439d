-- ===== src/Opportunity/Scan.antt =====
-- internal/opportunity/engine.go: which pairs of venues a scan tries, and what comes of them.
use Prim.Native.String.{String}
use mathlib.Core.List.{Memᴰ}
use mathlib.Core.List.Memᴰ
use mathlib.Core.Path.{subst}
use go_be_arbitrage.Prelude.{
  ℕ, ◌≡◌, ◌≢◌, ◌↔◌, ◌⊎◌, inl, inr, refl, sym, ap, ◌∙◌, Bool, true, false, ◌&&◌, List, [], ◌∷◌, ◌++◌,
  arith, if◌then◌else◌, Bool-cases,
}
use go_be_arbitrage.Floats.{Float}
use go_be_arbitrage.UnifiedState.Snapshot.{Venue, Instrument}
use go_be_arbitrage.Opportunity.Model.{ScannerConfig, Opportunity, found}
use go_be_arbitrage.Opportunity.PriceArb.{PriceArbInput, calculate_price_arb}
use go_be_arbitrage.Opportunity.BasisArb.{has_text}
use go_be_arbitrage.Opportunity.Sound.{Rests, calculate_price_arb_iff}
use go_be_arbitrage.Opportunity.Engine.{
  keep_where, pairs_of, price_input, price_inputs, quotes_both, get_venue_pairs, scan_prices,
  scan_fundings, scan_bases, scan_instruments, scan_all, skips,
}
use go_be_arbitrage.Opportunity.Members.{
  Apart, keep_where_of, in_keep_where, collect_of, in_collect, pairs_of_any, in_pairs_of,
  Apart-keep_where,
}

price_inputs_of :
    (inst : ℕ) (a b : Venue)
    → quotes_both a ≡ true
    → quotes_both b ≡ true
    → (Memᴰ (price_input inst a b) (price_inputs inst a b))
      × (Memᴰ (price_input inst a b) (price_inputs inst b a))
price_inputs_of inst (i, v) (j, w) h g =
    let askv : has_text v.best_ask ≡ true = ground arith in
    let bidw : has_text w.best_bid ≡ true = ground arith in
    let askw : has_text w.best_ask ≡ true = ground arith in
    let bidv : has_text v.best_bid ≡ true = ground arith in
    (rw (askv, bidw) (Memᴰ.head refl), rw (askw, bidv, askv, bidw) (Memᴰ.tail (Memᴰ.head refl)))

one_of : {A : Type 0} (b : Bool) (x : A) {y : A} → Memᴰ y (if b then x ∷ [] else []) → y ≡ x
one_of true x m = Memᴰ.eq_of_singleton m
one_of false x m = absurd (Memᴰ.not-nil m)

in_price_inputs :
    (inst : ℕ) (a b : Venue) {y : PriceArbInput}
    → Memᴰ y (price_inputs inst a b)
    → (y ≡ price_input inst a b) ⊎ (y ≡ price_input inst b a)
in_price_inputs inst (i, v) (j, w) m =
    elim (Memᴰ.append_cases
      (if has_text v.best_ask && has_text w.best_bid
        then price_input inst (i, v) (j, w) ∷ []
        else [])
      m) [
        | inl h ↦
            inl (
              one_of (has_text v.best_ask && has_text w.best_bid) (price_input inst (i, v) (j, w))
                h)
        | inr h ↦
            inr (
              one_of (has_text w.best_ask && has_text v.best_bid) (price_input inst (j, w) (i, v))
                h)
      ]

module _ {F : Type 0} (f : Float F) (parse : String → F) (format : F → String) (c : ScannerConfig F)
    (now : ℕ) where
  -- The opportunity rests on two entries of the map of venues, with both prices at each.
  pub record Tried (inst : Instrument) (o : Opportunity F) : Type 0 where
    pub buys_at : Venue
    pub sells_at : Venue
    pub buy_entry : Memᴰ buys_at inst.venue_states
    pub sell_entry : Memᴰ sells_at inst.venue_states
    pub distinct : buys_at.0 ≢ sells_at.0
    pub buy_quotes : quotes_both buys_at ≡ true
    pub sell_quotes : quotes_both sells_at ≡ true
    pub rests : Rests f parse format c (price_input inst.instrument_id buys_at sells_at) now o

-- A loop over a map meets its entries.
pub record IsRange (order : ℕ → List Venue → List Venue) : Type 0 where
  pub meets : (n : ℕ) (vs : List Venue) (v : Venue) → Memᴰ v (order n vs) ↔ Memᴰ v vs
  pub apart : (n : ℕ) (vs : List Venue) → Apart vs → Apart (order n vs)

module _ {F : Type 0} (f : Float F) (parse : String → F) (format : F → String) (c : ScannerConfig F)
    (order : ℕ → List Venue → List Venue) (now : ℕ) (range : IsRange order) where
  Tried-scan_prices :
      (inst : Instrument) (o : Opportunity F)
      → Tried f parse format c now inst o
      → Memᴰ o (scan_prices f parse format c order now inst)
  unfolding scan_prices get_venue_pairs
  Tried-scan_prices inst o t =
      let vs = inst.venue_states in
      let a = t.buys_at in
      let b = t.sells_at in
      let entry : (v : Venue)
          → Memᴰ v vs
          → quotes_both v ≡ true
          → Memᴰ v (keep_where quotes_both (order 0 vs)) =
        λ v m q. keep_where_of quotes_both ((range.meets 0 vs v).1 m) q in
      let (one, two) = price_inputs_of inst.instrument_id a b t.buy_quotes t.sell_quotes in
      collect_of (λ i. calculate_price_arb f parse format c i now)
        (pairs_of_any (price_inputs inst.instrument_id) a b t.distinct
          (entry a t.buy_entry t.buy_quotes) (entry b t.sell_entry t.sell_quotes) one two)
        ((calculate_price_arb_iff f parse format c (price_input inst.instrument_id a b) now o).1
          t.rests)

  Tried-of :
      (inst : Instrument) (o : Opportunity F) (y : PriceArbInput) (a b : Venue)
      → Memᴰ a (keep_where quotes_both (order 0 inst.venue_states))
      → Memᴰ b (keep_where quotes_both (order 0 inst.venue_states))
      → a.0 ≢ b.0
      → y ≡ price_input inst.instrument_id a b
      → calculate_price_arb f parse format c y now ≡ found o
      → Tried f parse format c now inst o
  Tried-of inst o y a b m n d e h =
      let vs = inst.venue_states in
      let (p, q) = in_keep_where quotes_both (order 0 vs) m in
      let (r, s) = in_keep_where quotes_both (order 0 vs) n in
      record {
        buys_at = a;
        sells_at = b;
        buy_entry = (range.meets 0 vs a).0 p;
        sell_entry = (range.meets 0 vs b).0 r;
        distinct = d;
        buy_quotes = q;
        sell_quotes = s;
        rests =
            (calculate_price_arb_iff f parse format c (price_input inst.instrument_id a b) now o).0
              (subst (λ i. calculate_price_arb f parse format c i now ≡ found o) e h);
      }

  scan_prices-Tried :
      (inst : Instrument) (o : Opportunity F)
      → Apart inst.venue_states
      → Memᴰ o (scan_prices f parse format c order now inst)
      → Tried f parse format c now inst o
  unfolding scan_prices get_venue_pairs
  scan_prices-Tried inst o d m =
      let vs = keep_where quotes_both (order 0 inst.venue_states) in
      let inputs = price_inputs inst.instrument_id in
      let (y, n, h) =
        in_collect (λ i. calculate_price_arb f parse format c i now) (pairs_of inputs vs) m in
      let (a, b, p, q, e, t) =
        in_pairs_of inputs vs
          (Apart-keep_where quotes_both (order 0 inst.venue_states)
            (range.apart 0 inst.venue_states d))
          n in
      elim (in_price_inputs inst.instrument_id a b t) [
        | inl same ↦ Tried-of inst o y a b p q e same h
        | inr same ↦ Tried-of inst o y b a q p (λ g. e (sym g)) same h
      ]

  -- Where the loops meet the entries of the map of venues, each under its own key: a scan of an
  -- instrument finds a price opportunity exactly when it rests on two of its venues, both healthy
  -- with both prices, the one as the place to buy and the other as the place to sell, that pass the
  -- tests of the calculator.
  pub scan_prices_iff :
      (inst : Instrument) (o : Opportunity F)
      → Apart inst.venue_states
      → Memᴰ o (scan_prices f parse format c order now inst) ↔ Tried f parse format c now inst o
  scan_prices_iff inst o d = (scan_prices-Tried inst o d, Tried-scan_prices inst o)

  -- The opportunities of an instrument that is not skipped are among all.
  scan_instruments_of :
      (insts : List Instrument) (inst : Instrument) (o : Opportunity F)
      → Memᴰ inst insts
      → skips f parse format c order now inst ≡ false
      → Memᴰ o (scan_prices f parse format c order now inst)
      → Memᴰ o (scan_instruments f parse format c order now insts)
  unfolding scan_instruments
  scan_instruments_of [] inst o m live t = absurd (Memᴰ.not-nil m)
  scan_instruments_of (i ∷ is) inst o m live t = elim (Memᴰ.cases_cons m) [
    | inl e ↦ rw (sym (ap (skips f parse format c order now) e) ∙ live) (
        Memᴰ.append_left
          (scan_fundings f parse format c order now i
            ++ (scan_bases f parse format c order now i
                ++ scan_instruments f parse format c order now is))
          (subst (λ x. Memᴰ o (scan_prices f parse format c order now x)) e t))
    | inr n ↦
        let rest = scan_instruments_of is inst o n live t in
        elim (Bool-cases (skips f parse format c order now i)) [
          | inl e ↦ rw e rest
          | inr e ↦ rw e (
              Memᴰ.append_right (scan_prices f parse format c order now i) (
                Memᴰ.append_right (scan_fundings f parse format c order now i)
                  (Memᴰ.append_right (scan_bases f parse format c order now i) rest)))
        ]
  ]

  -- Where the loops meet the entries of the map of venues: a scan finds every price opportunity that
  -- rests on two venues of an instrument that is not stale and has a healthy venue.
  pub scan_all_finds :
      (draw : ℕ → ℕ) (insts : List Instrument) (results : List (ℕ × Opportunity F))
      (inst : Instrument) (o : Opportunity F)
      → Memᴰ inst insts
      → skips f parse format c order now inst ≡ false
      → Tried f parse format c now inst o
      → Memᴰ o (scan_all f parse format c order now draw insts results).0
  unfolding scan_all
  scan_all_finds draw insts results inst o m live t =
      scan_instruments_of insts inst o m live (Tried-scan_prices inst o t)
