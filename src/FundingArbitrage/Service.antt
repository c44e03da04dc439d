-- ===== src/FundingArbitrage/Service.antt =====
-- internal/fundingarbitrage/cache.go, and `GetFundingArbitrage` of service.go. `sort` is `sort.Slice`;
-- `token_venues` are the entries of the map of instruments, with the mapping of each venue; one clock
-- read serves a pair. The single-flight fetch of GetOrFetch, which the service does not call, and the
-- names of venues are left out.
use go_be_arbitrage.Prelude.{
  ℕ, ◌-◌, Bool, true, false, ◌&&◌, ◌||◌, Option, none, some, List, [], ◌∷◌, ltb, leb, ◌==◌,
  if◌then◌else◌,
}
use go_be_arbitrage.Floats.{Float}
use go_be_arbitrage.FundingArbitrage.Rates.{
  FundingRecord, VenueInstrument, ArbitrageToken, build_arbitrage_token,
}

pub record CachedPair (F : Type 0) : Type 0 where
  pub tokens : List (ArbitrageToken F)
  pub updated_at : ℕ

-- The map under its keys: the two venues, the lesser one first.
pub record Cache (F : Type 0) : Type 0 where
  pub data_of : ℕ → ℕ → Option (CachedPair F)
  pub ttl : ℕ

-- 2 minutes.
abbrev pub max_stale_duration : ℕ
max_stale_duration = 120_000_000_000

abbrev pub make_key : ℕ → ℕ → ℕ × ℕ
make_key a b = if ltb b a then (b, a) else (a, b)

pub data CacheStatus : Type 0 where
  miss fresh stale : CacheStatus

-- The orders of `SortTokens`; any other text counts as `rate_8h_desc`.
pub data SortBy : Type 0 where
  rate_1h_desc rate_8h_desc apr_desc spread_desc : SortBy

pub record Pair (F : Type 0) : Type 0 where
  pub venue_a : ℕ
  pub venue_b : ℕ
  pub tokens : List (ArbitrageToken F)

module _ {F : Type 0} where
  abbrev pub usable : ℕ → ℕ → Option (CachedPair F) → Option (List (ArbitrageToken F))
  usable now ttl none = none
  usable now ttl (some p) =
      if leb (now - p.updated_at) ttl
      then some p.tokens
      else (if leb (now - p.updated_at) max_stale_duration then some p.tokens else none)

  unfoldable pub get : ℕ → ℕ → ℕ → Cache F → Option (List (ArbitrageToken F))
  get now a b c = let k = make_key a b in usable now c.ttl (c.data_of k.0 k.1)

  unfoldable pub set : ℕ → ℕ → ℕ → List (ArbitrageToken F) → Cache F → Cache F
  set now a b ts c =
      let k = make_key a b in
      record c {
        data_of = λ i j.
            if (i == k.0) && (j == k.1)
            then some (record { tokens = ts; updated_at = now })
            else c.data_of i j;
      }

  unfoldable pub invalidate : ℕ → Cache F → Cache F
  invalidate v c = record c {
    data_of = λ i j. if (i == v) || (j == v) then none else c.data_of i j;
  }

  abbrev pub status_of : ℕ → ℕ → Option (CachedPair F) → CacheStatus
  status_of now ttl none = miss
  status_of now ttl (some p) =
      if leb (now - p.updated_at) ttl
      then fresh
      else (if leb (now - p.updated_at) max_stale_duration then stale else miss)

  unfoldable pub get_cache_status : ℕ → ℕ → ℕ → Cache F → CacheStatus
  get_cache_status now a b c = let k = make_key a b in status_of now c.ttl (c.data_of k.0 k.1)

  abbrev field : SortBy → ArbitrageToken F → Option F
  field rate_1h_desc t = t.rate_1h_percent
  field rate_8h_desc t = t.rate_8h_percent
  field apr_desc t = t.apr_percent
  field spread_desc t = t.price_spread_percent

module _ {F : Type 0} (f : Float F)
    (sort : (ArbitrageToken F → ArbitrageToken F → Bool)
      → List (ArbitrageToken F)
      → List (ArbitrageToken F)) where
  abbrev desc : Option F → Option F → Bool
  desc none y = false
  desc (some x) none = true
  desc (some x) (some y) = f.lt y x

  unfoldable pub sort_tokens : SortBy → List (ArbitrageToken F) → List (ArbitrageToken F)
  sort_tokens by ts = sort (λ s t. desc (field by s) (field by t)) ts

  abbrev pub with_token :
      Option (ArbitrageToken F) → List (ArbitrageToken F) → List (ArbitrageToken F)
  with_token none ts = ts
  with_token (some t) ts = t ∷ ts

  abbrev pub both :
      (VenueInstrument → VenueInstrument → Option (ArbitrageToken F))
      → Option VenueInstrument
      → Option VenueInstrument
      → Option (ArbitrageToken F)
  both build (some va) (some vb) = build va vb
  both build _ _ = none

  -- The loop over the instruments.
  unfoldable pub find_tokens :
      (ℕ → VenueInstrument → VenueInstrument → Option (ArbitrageToken F))
      → ℕ
      → ℕ
      → List (ℕ × (ℕ → Option VenueInstrument))
      → List (ArbitrageToken F)
  find_tokens build a b [] = []
  find_tokens build a b ((inst, venues) ∷ rest) =
      with_token (both (build inst) (venues a) (venues b)) (find_tokens build a b rest)

  abbrev pub answer :
      Bool
      → ℕ
      → ℕ
      → ℕ
      → List (ArbitrageToken F)
      → Option (List (ArbitrageToken F))
      → Cache F
      → Pair F × Cache F
  answer force now a b found (some ts) c =
      if force
      then (record { venue_a = a; venue_b = b; tokens = found }, set now a b found c)
      else (record { venue_a = a; venue_b = b; tokens = ts }, c)
  answer force now a b found none c =
      (record { venue_a = a; venue_b = b; tokens = found }, set now a b found c)

  -- One round of the two nested loops.
  unfoldable pub pair_of :
      (ℕ → ℕ → Option FundingRecord)
      → List (ℕ × (ℕ → Option VenueInstrument))
      → SortBy
      → Bool
      → Bool
      → ℕ
      → ℕ
      → ℕ
      → Cache F
      → Pair F × Cache F
  unfolding get set sort_tokens find_tokens build_arbitrage_token
  pair_of latest token_venues by include_stale force now a b c =
      answer force now a b
        (sort_tokens by
          (find_tokens (build_arbitrage_token f latest now include_stale) a b token_venues))
        (get now a b c) c
