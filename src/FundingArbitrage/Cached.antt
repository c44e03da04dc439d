-- ===== src/FundingArbitrage/Cached.antt =====
-- internal/fundingarbitrage/cache.go under service.go: what the cache answers.
use go_be_arbitrage.Prelude.{
  ℕ, ◌-◌, ◌≤◌, ◌≡◌, ◌↔◌, ◌==◌, ◌&&◌, ◌||◌, if◌then◌else◌, refl, Bool, true, false, Option, none,
  some, List, arith, ==_iff,
}
use go_be_arbitrage.Floats.{Float}
use go_be_arbitrage.FundingArbitrage.Rates.{
  FundingRecord, VenueInstrument, ArbitrageToken, build_arbitrage_token,
}
use go_be_arbitrage.FundingArbitrage.Service.{
  CachedPair, Cache, miss, max_stale_duration, make_key, SortBy, usable, get, set, get_cache_status,
  status_of, answer, pair_of, sort_tokens, find_tokens,
}

make_key_comm : (a b : ℕ) → make_key b a ≡ make_key a b
make_key_comm a b = ground arith

module _ {F : Type 0} where
  usable_recent :
      (now then_ ttl : ℕ) (ts : List (ArbitrageToken F))
      → now - then_ ≤ max_stale_duration
      → usable now ttl (some (record { tokens = ts; updated_at = then_ })) ≡ some ts
  usable_recent now then_ ttl ts h = ground arith

  get-set :
      (now now' a b : ℕ) (ts : List (ArbitrageToken F)) (c : Cache F)
      → now' - now ≤ max_stale_duration
      → get now' b a (set now a b ts c) ≡ some ts
  unfolding get set
  get-set now now' a b ts c h =
      let k = make_key a b in
      rw (make_key_comm a b, (==_iff k.0 k.0).1 refl, (==_iff k.1 k.1).1 refl)
        (usable_recent now' now c.ttl ts h)

  usable-status_of :
      (now ttl : ℕ) (o : Option (CachedPair F))
      → (usable now ttl o ≡ none) ↔ (status_of now ttl o ≡ miss)
  usable-status_of now ttl none = (λ h. refl, λ h. refl)
  usable-status_of now ttl (some p) = (λ h. ground arith, λ h. ground arith)

module _ {F : Type 0} (f : Float F)
    (sort : (ArbitrageToken F → ArbitrageToken F → Bool)
      → List (ArbitrageToken F)
      → List (ArbitrageToken F)) where
  answer_miss :
      (force : Bool) (now a b : ℕ) (ts : List (ArbitrageToken F))
      (o : Option (List (ArbitrageToken F))) (c : Cache F)
      → o ≡ none
      → answer f sort force now a b ts o c
        ≡ (record { venue_a = a; venue_b = b; tokens = ts }, set now a b ts c)
  answer_miss force now a b ts o c h = rw h refl

  answer_hit :
      (now a b : ℕ) (ts tokens_found : List (ArbitrageToken F))
      (o : Option (List (ArbitrageToken F))) (c : Cache F)
      → o ≡ some ts
      → answer f sort false now a b tokens_found o c
        ≡ (record { venue_a = a; venue_b = b; tokens = ts }, c)
  answer_hit now a b ts tokens_found o c h = rw h refl

  -- What a round finds that does not take the tokens of the cache.
  abbrev tokens_found :
      (ℕ → ℕ → Option FundingRecord)
      → List (ℕ × (ℕ → Option VenueInstrument))
      → SortBy
      → Bool
      → ℕ
      → ℕ
      → ℕ
      → List (ArbitrageToken F)
  tokens_found latest venues by include now a b =
      sort_tokens f sort by
        (find_tokens f sort (build_arbitrage_token f latest now include) a b venues)

  pair_of_miss :
      (latest : ℕ → ℕ → Option FundingRecord) (venues : List (ℕ × (ℕ → Option VenueInstrument)))
      (by : SortBy) (include force : Bool) (now a b : ℕ) (c : Cache F)
      → get now a b c ≡ none
      → let ts = tokens_found latest venues by include now a b in
        pair_of f sort latest venues by include force now a b c
        ≡ (record { venue_a = a; venue_b = b; tokens = ts }, set now a b ts c)
  unfolding pair_of
  pair_of_miss latest venues by include force now a b c h =
      answer_miss force now a b (tokens_found latest venues by include now a b) (get now a b c) c h

  pair_of_hit :
      (latest : ℕ → ℕ → Option FundingRecord) (venues : List (ℕ × (ℕ → Option VenueInstrument)))
      (by : SortBy) (include : Bool) (now a b : ℕ) (ts : List (ArbitrageToken F)) (c : Cache F)
      → get now a b c ≡ some ts
      → pair_of f sort latest venues by include false now a b c
        ≡ (record { venue_a = a; venue_b = b; tokens = ts }, c)
  unfolding pair_of
  pair_of_hit latest venues by include now a b ts c h =
      answer_hit now a b ts (tokens_found latest venues by include now a b) (get now a b c) c h

  -- Where the cache has no usable entry for two venues: after a round for them, a round for the same
  -- venues in the other order within two minutes that does not force a refresh, whatever records, order
  -- and staleness it asks for, answers with the venues exchanged and the very tokens of the first round.
  pub pair_of_reversed :
      (latest latest' : ℕ → ℕ → Option FundingRecord)
      (venues venues' : List (ℕ × (ℕ → Option VenueInstrument))) (by by' : SortBy)
      (include include' force : Bool) (now now' a b : ℕ) (c : Cache F)
      → get now a b c ≡ none
      → now' - now ≤ max_stale_duration
      → let (p, c1) = pair_of f sort latest venues by include force now a b c in
        let (q, c2) = pair_of f sort latest' venues' by' include' false now' b a c1 in
        (q.venue_a ≡ p.venue_b) × (q.venue_b ≡ p.venue_a) × (q.tokens ≡ p.tokens) × (c2 ≡ c1)
  pair_of_reversed latest latest' venues venues' by by' include include' force now now' a b c empty
        soon =
      let ts = tokens_found latest venues by include now a b in
      let hit =
        pair_of_hit latest' venues' by' include' now' b a ts (set now a b ts c)
          (get-set now now' a b ts c soon) in
      rw (pair_of_miss latest venues by include force now a b c empty, hit) (refl, refl, refl, refl)

-- The status of a pair is a miss exactly where the cache answers nothing for it.
pub get_cache_status-get :
    {F : Type 0} (now a b : ℕ) (c : Cache F)
    → (get now a b c ≡ none) ↔ (get_cache_status now a b c ≡ miss)
unfolding get get_cache_status
get_cache_status-get now a b c =
    let k = make_key a b in usable-status_of now c.ttl (c.data_of k.0 k.1)

-- The two venues of one pair, in either order.
abbrev same_pair : ℕ → ℕ → ℕ → ℕ → Bool
same_pair x y a b = ((x == a) && (y == b)) || ((x == b) && (y == a))

make_key-same_pair :
    (x y a b : ℕ)
    → ((make_key x y).0 == (make_key a b).0) && ((make_key x y).1 == (make_key a b).1)
      ≡ same_pair x y a b
make_key-same_pair x y a b = ground arith

usable_if :
    {F : Type 0} (same : Bool) (now then_ ttl : ℕ) (ts : List (ArbitrageToken F))
    (o : Option (CachedPair F))
    → now - then_ ≤ max_stale_duration
    → usable now ttl (if same then some (record { tokens = ts; updated_at = then_ }) else o)
      ≡ (if same then some ts else usable now ttl o)
usable_if true now then_ ttl ts o h = usable_recent now then_ ttl ts h
usable_if false now then_ ttl ts o h = refl

-- Within two minutes of a Set for two venues, Get answers its tokens for these venues in either order,
-- whatever the ttl, and for any other pair what it answered before.
pub get-set-same_pair :
    {F : Type 0} (now now' a b x y : ℕ) (ts : List (ArbitrageToken F)) (c : Cache F)
    → now' - now ≤ max_stale_duration
    → get now' x y (set now a b ts c) ≡ (if same_pair x y a b then some ts else get now' x y c)
unfolding get set
get-set-same_pair now now' a b x y ts c h =
    let k = make_key x y in
    rw (make_key-same_pair x y a b)
      (usable_if (same_pair x y a b) now' now c.ttl ts (c.data_of k.0 k.1) h)
