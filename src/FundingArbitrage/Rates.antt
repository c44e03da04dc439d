-- ===== src/FundingArbitrage/Rates.antt =====
-- internal/fundingarbitrage/service.go: `buildArbitrageToken` and the parser of numbers. Ids are
-- numbers; `latest` is the newest funding record of a venue for an instrument, if the query succeeds.
-- The fields that are only copied from the records are left out.
use Prim.Native.String.{String}
use Prim.Native.Char.{code}
use go_be_arbitrage.Prelude.{
  ℕ, ◌-◌, Bool, ◌&&◌, ◌||◌, not, Option, none, some, ltb, leb, ◌==◌, if◌then◌else◌,
}
use go_be_arbitrage.Prelude.Int.{ℤ, pos}
use go_be_arbitrage.Floats.{Float}

pub record FundingRecord : Type 0 where
  pub funding_rate : String
  pub interval_seconds : ℤ
  pub observed_at : ℕ
  pub mark_price : String

pub record VenueInstrument : Type 0 where
  pub venue_id : ℕ
  pub venue_symbol : String

pub record ArbitrageToken (F : Type 0) : Type 0 where
  pub instrument_id : ℕ
  pub venue_a_symbol : String
  pub venue_b_symbol : String
  pub is_stale : Bool
  pub long_venue_id : ℕ
  pub short_venue_id : ℕ
  pub rate_1h_percent : Option F
  pub rate_8h_percent : Option F
  pub apr_percent : Option F
  pub price_spread_percent : Option F

-- 15 minutes.
abbrev pub stale_threshold : ℕ
stale_threshold = 900_000_000_000

abbrev pub is_digit : ℕ → Bool
is_digit c = leb b'0' c && leb c b'9'

module _ {F : Type 0} (f : Float F) where
  open f use {lit, of_int, add, sub, mul, div, neg, abs, lt}

  abbrev digit : ℕ → F
  digit c = of_int (pos (c - b'0'))

  -- The loop behind the point, which passes over what is no digit.
  unfoldable pub parse_fraction : String → F → F → F
  parse_fraction String.[] place result = result
  parse_fraction (String.◌∷◌ x xs) place result =
      let after =
        parse_fraction xs (mul place (lit 1 1)) (add result (mul (digit (code x)) place)) in
      let skipped = parse_fraction xs place result in if is_digit (code x) then after else skipped

  -- The loop before the point, which stops at what is no digit.
  unfoldable pub parse_whole : String → F → F
  unfolding parse_fraction
  parse_whole String.[] result = result
  parse_whole (String.◌∷◌ x xs) result =
      let next = parse_whole xs (add (mul result (lit 10 0)) (digit (code x))) in
      if is_digit (code x)
      then next
      else (if code x == b'.' then parse_fraction xs (lit 1 1) result else result)

  unfoldable pub parse_float : String → F
  unfolding parse_whole
  parse_float String.[] = lit 0 0
  parse_float (String.◌∷◌ x xs) =
      if code x == b'-'
      then mul (parse_whole xs (lit 0 0)) (neg (lit 1 0))
      else if code x == b'+'
      then mul (parse_whole xs (lit 0 0)) (lit 1 0)
      else mul (parse_whole (String.◌∷◌ x xs) (lit 0 0)) (lit 1 0)

  abbrev pub hourly : FundingRecord → F
  hourly x = div (mul (parse_float x.funding_rate) (lit 3600 0)) (of_int x.interval_seconds)

  abbrev pub spread : F → F → Option F
  spread a b =
      if lt (lit 0 0) a && lt (lit 0 0) b
      then some (mul (div (abs (sub a b)) (if lt b a then b else a)) (lit 100 0))
      else none

  abbrev pub is_old : ℕ → FundingRecord → Bool
  is_old now x = ltb stale_threshold (now - x.observed_at)

  unfoldable pub token_of :
      ℕ → ℕ → VenueInstrument → VenueInstrument → FundingRecord → FundingRecord → ArbitrageToken F
  unfolding parse_float
  token_of now inst va vb a b =
      let below = lt (hourly a) (hourly b) in
      let net = (if below then sub (hourly b) (hourly a) else sub (hourly a) (hourly b)) in
      record {
        instrument_id = inst;
        venue_a_symbol = va.venue_symbol;
        venue_b_symbol = vb.venue_symbol;
        is_stale = is_old now a || is_old now b;
        long_venue_id = (if below then va.venue_id else vb.venue_id);
        short_venue_id = (if below then vb.venue_id else va.venue_id);
        rate_1h_percent = some (mul net (lit 100 0));
        rate_8h_percent = some (mul (mul net (lit 8 0)) (lit 100 0));
        apr_percent = some (mul (mul (mul net (lit 24 0)) (lit 365 0)) (lit 100 0));
        price_spread_percent = spread (parse_float a.mark_price) (parse_float b.mark_price);
      }

  abbrev pub token_if :
      ℕ
      → Bool
      → ℕ
      → VenueInstrument
      → VenueInstrument
      → Option FundingRecord
      → Option FundingRecord
      → Option (ArbitrageToken F)
  token_if now include_stale inst va vb (some a) (some b) =
      if (is_old now a || is_old now b) && not include_stale
      then none
      else some (token_of now inst va vb a b)
  token_if now include_stale inst va vb _ _ = none

  unfoldable pub build_arbitrage_token :
      (ℕ → ℕ → Option FundingRecord)
      → ℕ
      → Bool
      → ℕ
      → VenueInstrument
      → VenueInstrument
      → Option (ArbitrageToken F)
  unfolding token_of
  build_arbitrage_token latest now include_stale inst va vb =
      token_if now include_stale inst va vb (latest va.venue_id inst) (latest vb.venue_id inst)
