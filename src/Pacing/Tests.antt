-- ===== src/Pacing/Tests.antt =====
-- Tests of the pacer and the rate limiter: the theorems at concrete inputs.
use Prim.Native.Nat.{max}
use go_be_arbitrage.Prelude.{
  List, ◌==◌, if◌then◌else◌, ◌+◌, ◌*◌, ◌^◌, ◌≤◌, ◌<◌, ◌≡◌, refl, true, none, some, [], ◌∷◌, arith,
}
use go_be_arbitrage.Prelude.Int.{pos}
use go_be_arbitrage.Pacing.Pacer.{AdaptivePacer, new_adaptive_pacer, wait}
use go_be_arbitrage.Pacing.PacerBounds.{
  IsPaced, limited, clean, signals, signals_bounds, wait_spaced,
}
use go_be_arbitrage.Pacing.RateLimit.{
  RateLimiter, Event, fetches, decides, sweeps, handle, fetch, is_allowed, cleanup,
}
use go_be_arbitrage.Pacing.Windows.{handles, decides_all, cleanup_transparent, in_flight_uncounted}

abbrev slowed : AdaptivePacer
slowed = record { base = 100; current = 200; max_backoff = 1000; streak = 0; last = 50 }

slowed-IsPaced : IsPaced slowed
slowed-IsPaced = ground arith

start_base : (new_adaptive_pacer (pos 250) (pos 9000)).base < 2 ^ 62
unfolding new_adaptive_pacer
start_base = omega arith

start_cap : (new_adaptive_pacer (pos 250) (pos 9000)).max_backoff < 2 ^ 62
unfolding new_adaptive_pacer
start_cap = omega arith

signals_bounds_example :
    let start = new_adaptive_pacer (pos 250) (pos 9000) in
    let p = signals start (limited ∷ limited ∷ clean ∷ []) in
    (start.base ≤ p.current)
    × (p.current ≤ max start.base start.max_backoff)
    × (p.streak < 5)
    × (p.current * 2 < 2 ^ 63)
signals_bounds_example =
    signals_bounds (pos 250) (pos 9000) (limited ∷ limited ∷ clean ∷ []) start_base start_cap

wait-slowed : (wait slowed 60 none).1 ≡ true
unfolding wait
wait-slowed = refl

wait_spaced_example :
    (50 + 200 ≤ (wait slowed 60 none).0.last) × (60 ≤ (wait slowed 60 none).0.last)
wait_spaced_example = wait_spaced slowed 60 none (omega arith) wait-slowed

-- A request for key 1 makes the bucket 0.
abbrev earlier : List Event
earlier = fetches 1 10 ∷ decides 0 10 ∷ []

-- Of three requests for key 1 that fetch the bucket 0, one decides after the bucket is swept.
abbrev overlapping : List Event
overlapping =
    fetches 1 60
    ∷ decides 0 60
    ∷ fetches 1 65
    ∷ sweeps 1 75
    ∷ decides 0 65
    ∷ fetches 1 80
    ∷ decides 1 80
    ∷ []

abbrev used_limiter : RateLimiter
used_limiter = record {
  buckets = λ k. if k == 1 then some 0 else none;
  cells = λ a. record { count = 2; reset_at = 60 };
  next = 1;
  limit = 2;
  window = 60;
}

cleanup_transparent_example :
    let rl = cleanup used_limiter (1 ∷ []) 70 in
    ((is_allowed rl 1 75).1 ≡ (is_allowed used_limiter 1 75).1)
    × ((is_allowed rl 1 75).0.cells (fetch rl 1 75).1
        ≡ (is_allowed used_limiter 1 75).0.cells (fetch used_limiter 1 75).1)
cleanup_transparent_example = cleanup_transparent used_limiter (1 ∷ []) 1 70 75 (omega arith)

in_flight_uncounted_example :
    let rl = handle used_limiter (sweeps 1 70) in
    ((fetch used_limiter 1 75).1 ≡ 0)
    × ((is_allowed (handles rl (decides_all 0 (65 ∷ 72 ∷ []))) 1 75).1 ≡ (is_allowed rl 1 75).1)
in_flight_uncounted_example =
    in_flight_uncounted used_limiter 1 0 70 75 (65 ∷ 72 ∷ []) refl (omega arith)
