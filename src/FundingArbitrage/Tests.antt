-- ===== src/FundingArbitrage/Tests.antt =====
-- Tests of internal/fundingarbitrage: the theorem at concrete inputs, with decimals for float64.
use go_be_arbitrage.Prelude.{ℕ, ◌≡◌, refl, false, Option, none, some, List, [], ◌∷◌, arith}
use go_be_arbitrage.Prelude.Int.{ℤ, pos}
use go_be_arbitrage.Floats.{decimal_float}
use go_be_arbitrage.FundingArbitrage.Rates.{FundingRecord, VenueInstrument}
use go_be_arbitrage.FundingArbitrage.Service.{Cache, rate_8h_desc, apr_desc, get, set, pair_of}
use go_be_arbitrage.FundingArbitrage.Cached.{pair_of_reversed, get-set-same_pair}

abbrev no_cache : Cache ℤ
no_cache = record { data_of = λ i j. none; ttl = 30_000_000_000 }

abbrev rate_at : ℕ → ℕ → Option FundingRecord
rate_at venue inst = some (record {
  funding_rate = "0.0001";
  interval_seconds = pos 3600;
  observed_at = 5;
  mark_price = "100";
})

abbrev one_instrument : List (ℕ × (ℕ → Option VenueInstrument))
one_instrument = (1, λ v. some (record { venue_id = v; venue_symbol = "BTC" })) ∷ []

not_cached : get 10 7 8 no_cache ≡ none
unfolding get
not_cached = refl

pair_of_reversed_example :
    let (p, c1) =
      pair_of decimal_float
        (λ less ts. ts)
        rate_at
        one_instrument
        rate_8h_desc
        false
        false
        10
        7
        8
        no_cache in
    let (q, c2) =
      pair_of decimal_float (λ less ts. ts) rate_at one_instrument apr_desc false false 99 8 7 c1 in
    (q.venue_a ≡ p.venue_b) × (q.venue_b ≡ p.venue_a) × (q.tokens ≡ p.tokens) × (c2 ≡ c1)
pair_of_reversed_example =
    pair_of_reversed decimal_float (λ less ts. ts) rate_at rate_at one_instrument one_instrument
      rate_8h_desc apr_desc false false false 10 99 7 8 no_cache not_cached (ground arith)

get-set-same_pair_example : get 99 8 7 (set 10 7 8 [] no_cache) ≡ some []
get-set-same_pair_example = get-set-same_pair 10 99 7 8 8 7 [] no_cache (ground arith)
