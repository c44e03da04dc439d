-- ===== src/Pacing/PacerBounds.antt =====
-- internal/hyperliquid/pacer.go: bounds on the interval, and how it grows and recovers.
use Prim.Native.Nat.{min, max}
use native.Mathlib.Nat.{pow-suc}
use go_be_arbitrage.Prelude.{
  ℕ, zero, suc, ◌+◌, ◌*◌, ◌/◌, ◌^◌, ◌≤◌, ◌<◌, ◌≡◌, refl, ap, true, Option, List, [], ◌∷◌, arith,
  ltb, if◌then◌else◌,
}
use go_be_arbitrage.Prelude.Int.{ℤ}
use go_be_arbitrage.Pacing.Pacer.{AdaptivePacer, new_adaptive_pacer, backoff, success, wait}

pub record IsPaced (p : AdaptivePacer) : Type 0 where
  pub above_base : p.base ≤ p.current
  pub below_cap : p.current ≤ max p.base p.max_backoff
  pub streak_small : p.streak < 5
  pub cap_positive : 0 < p.max_backoff

-- The upstream's signals.
pub data Signal : Type 0 where
  limited clean : Signal

pub signal : AdaptivePacer → Signal → AdaptivePacer
signal p limited = backoff p
signal p clean = success p

pub signals : AdaptivePacer → List Signal → AdaptivePacer
unfolding signal
signals p [] = p
signals p (s ∷ ss) = signals (signal p s) ss

new_adaptive_pacer-IsPaced : (base max : ℤ) → IsPaced (new_adaptive_pacer base max)
unfolding new_adaptive_pacer
new_adaptive_pacer-IsPaced base max = ground arith

backoff-IsPaced : (p : AdaptivePacer) → IsPaced p → IsPaced (backoff p)
unfolding backoff
backoff-IsPaced p h = ground arith

success-IsPaced : (p : AdaptivePacer) → IsPaced p → IsPaced (success p)
unfolding success
success-IsPaced p h = ground arith

signals-IsPaced : (p : AdaptivePacer) (ss : List Signal) → IsPaced p → IsPaced (signals p ss)
unfolding signals
signals-IsPaced p [] h = h
signals-IsPaced p (limited ∷ ss) h = signals-IsPaced (backoff p) ss (backoff-IsPaced p h)
signals-IsPaced p (clean ∷ ss) h = signals-IsPaced (success p) ss (success-IsPaced p h)

signals-base :
    (p : AdaptivePacer) (ss : List Signal)
    → ((signals p ss).base ≡ p.base) × ((signals p ss).max_backoff ≡ p.max_backoff)
unfolding signals backoff success
signals-base p [] = (refl, refl)
signals-base p (limited ∷ ss) = ground (arith, signals-base (backoff p) ss)
signals-base p (clean ∷ ss) = ground (arith, signals-base (success p) ss)

-- Where the base and the cap that the constructor takes from its arguments are both below 2^62
-- nanoseconds: after every sequence of rate limits and clean calls, the interval is at least the base,
-- and at most the cap or the base, whichever is larger; the streak is below five; and doubling the
-- interval stays inside an int64.
pub signals_bounds :
    (base max_given : ℤ) (ss : List Signal)
    → (new_adaptive_pacer base max_given).base < 2 ^ 62
    → (new_adaptive_pacer base max_given).max_backoff < 2 ^ 62
    → let start = new_adaptive_pacer base max_given in
      let p = signals start ss in
      (start.base ≤ p.current)
      × (p.current ≤ max start.base start.max_backoff)
      × (p.streak < 5)
      × (p.current * 2 < 2 ^ 63)
signals_bounds base max_given ss b c =
    let start = new_adaptive_pacer base max_given in
    let paced = signals-IsPaced start ss (new_adaptive_pacer-IsPaced base max_given) in
    let kept = signals-base start ss in omega arith

pub backoffs : ℕ → AdaptivePacer → AdaptivePacer
backoffs zero p = p
backoffs (suc n) p = backoff (backoffs n p)

backoffs-fields :
    (n : ℕ) (p : AdaptivePacer)
    → ((backoffs n p).base ≡ p.base) × ((backoffs n p).max_backoff ≡ p.max_backoff)
unfolding backoffs backoff
backoffs-fields zero p = (refl, refl)
backoffs-fields (suc n) p = backoffs-fields n p

le-mul-pow : (c n : ℕ) → c ≤ c * 2 ^ n
le-mul-pow c zero = omega arith
le-mul-pow c (suc n) = omega (arith, le-mul-pow c n, ap (λ (t : ℕ). c * t) (pow-suc 2 n))

-- After n rate limits in a row, the interval of a pacer within its bounds and with a positive base
-- is 2^n times what it was, cut to the cap, and never below the base.
pub backoffs-current :
    (n : ℕ) (p : AdaptivePacer)
    → IsPaced p
    → 0 < p.base
    → (backoffs n p).current ≡ max p.base (min p.max_backoff (p.current * 2 ^ n))
unfolding backoffs
backoffs-current zero p h b = omega (arith, h)
backoffs-current (suc n) p h b =
    let q = backoffs n p in
    let (eb, em) = backoffs-fields n p in
    let ih = backoffs-current n p h b in
    let large : p.base ≤ p.current * 2 ^ n = omega (arith, le-mul-pow p.current n, h) in
    let twice : p.current * 2 ^ suc n ≡ p.current * 2 ^ n * 2 =
      omega (arith, ap (λ (t : ℕ). p.current * t) (pow-suc 2 n)) in
    one_more q (p.current * 2 ^ n) (p.current * 2 ^ suc n) eb em ih large twice h
  where
    one_more :
        (q : AdaptivePacer) (y z : ℕ)
        → q.base ≡ p.base
        → q.max_backoff ≡ p.max_backoff
        → q.current ≡ max p.base (min p.max_backoff y)
        → p.base ≤ y
        → z ≡ y * 2
        → IsPaced p
        → (backoff q).current ≡ max p.base (min p.max_backoff z)
    one_more q y z eb em e large twice h = unfold backoff in ground arith

pub successes : ℕ → AdaptivePacer → AdaptivePacer
successes zero p = p
successes (suc n) p = successes n (success p)

-- Five clean calls from a new streak halve the interval, down to the base.
five_successes :
    (n : ℕ) (p : AdaptivePacer)
    → p.streak ≡ 0
    → successes (suc (suc (suc (suc (suc n))))) p
      ≡ successes n
          (record p { current = (if ltb (p.current / 2) p.base then p.base else p.current / 2) })
unfolding successes
five_successes n p s = ap (successes n) (unfold success in ground arith)

abbrev fives : ℕ → ℕ
fives zero = 0
fives (suc k) = suc (suc (suc (suc (suc (fives k)))))

fives-eq : (k : ℕ) → fives k ≡ 5 * k
fives-eq zero = omega arith
fives-eq (suc k) = omega (arith, fives-eq k)

recover :
    (k : ℕ) (p : AdaptivePacer)
    → p.streak ≡ 0
    → p.base ≤ p.current
    → p.current ≤ p.base * 2 ^ k
    → (successes (fives k) p).current ≡ p.base
unfolding successes
recover zero p s low high = omega arith
recover (suc k) p s low high =
    let half = (if ltb (p.current / 2) p.base then p.base else p.current / 2) in
    let bound : p.current ≤ p.base * 2 ^ k * 2 =
      omega (arith, ap (λ (t : ℕ). p.base * t) (pow-suc 2 k)) in
    let large = le-mul-pow p.base k in
    rw (five_successes (fives k) p s)
      (recover k (record p { current = half }) s (ground arith) (ground arith))

-- A pacer within its bounds, with a new streak and an interval of at most 2^k times its base, is
-- back at the base after 5 k clean calls in a row.
pub successes-current :
    (k : ℕ) (p : AdaptivePacer)
    → IsPaced p
    → p.streak ≡ 0
    → p.current ≤ p.base * 2 ^ k
    → (successes (5 * k) p).current ≡ p.base
successes-current k p h s high = rw (← fives-eq k) (recover k p s h.above_base high)

-- A `Wait` that starts no earlier than the last marked return, and succeeds with no other call in
-- between, returns at least the interval after that marked return, and marks the time of its
-- return.
pub wait_spaced :
    (p : AdaptivePacer) (now : ℕ) (until : Option ℕ)
    → p.last ≤ now
    → (wait p now until).1 ≡ true
    → (p.last + p.current ≤ (wait p now until).0.last) × (now ≤ (wait p now until).0.last)
unfolding wait
wait_spaced p now until l h = ground arith
