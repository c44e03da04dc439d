-- ===== src/Pacing/Pacer.antt =====
-- internal/hyperliquid/pacer.go. Durations and times are nanoseconds.
use go_be_arbitrage.Prelude.{
  ℕ, zero, suc, ◌+◌, ◌-◌, ◌*◌, ◌/◌, Bool, true, false, ◌&&◌, Option, none, some, ltb, leb, ◌==◌,
  if◌then◌else◌,
}
use go_be_arbitrage.Prelude.Int.{ℤ, pos, negsuc}

abbrev pub second : ℕ
second = 1_000_000_000

pub record AdaptivePacer : Type 0 where
  pub base : ℕ
  pub current : ℕ
  pub max_backoff : ℕ
  pub streak : ℕ
  pub last : ℕ

abbrev pub positive_or : ℤ → ℕ → ℕ
positive_or (pos zero) d = d
positive_or (pos (suc n)) d = suc n
positive_or (negsuc n) d = d

unfoldable pub new_adaptive_pacer : ℤ → ℤ → AdaptivePacer
new_adaptive_pacer base max =
    let floor = positive_or base 0 in
    record {
      base = floor;
      current = floor;
      max_backoff = positive_or max (30 * second);
      streak = 0;
      last = 0;
    }

-- The assignments of `Backoff`, one after the other.
abbrev pub at_least_second : ℕ → ℕ → ℕ
at_least_second base c = if (base == 0) && ltb c second then second else c

abbrev pub at_most : ℕ → ℕ → ℕ
at_most limit c = if ltb limit c then limit else c

abbrev pub at_least : ℕ → ℕ → ℕ
at_least floor c = if ltb c floor then floor else c

unfoldable pub backoff : AdaptivePacer → AdaptivePacer
backoff p = record p {
  current = at_least p.base (at_most p.max_backoff (at_least_second p.base (p.current * 2)));
  streak = 0;
}

unfoldable pub success : AdaptivePacer → AdaptivePacer
success p =
    if leb 5 (p.streak + 1)
    then record p { streak = 0; current = at_least p.base (p.current / 2) }
    else record p { streak = p.streak + 1 }

-- `Wait` reads the remaining time under the lock, and marks the time of its return.
unfoldable pub remaining : AdaptivePacer → ℕ → ℕ
remaining p now = p.current - (now - p.last)

unfoldable pub mark : AdaptivePacer → ℕ → AdaptivePacer
mark p now = record p { last = now }

-- A call at `now` that no other call interleaves: it returns at once, or at the end of its sleep,
-- or, where the context is done before that, with an error.
unfoldable pub wait : AdaptivePacer → ℕ → Option ℕ → AdaptivePacer × Bool
unfolding remaining mark
wait p now done = if remaining p now == 0 then (mark p now, true) else elim done [
  | none ↦ (mark p (now + remaining p now), true)
  | some t ↦
      if ltb t (now + remaining p now) then (p, false) else (mark p (now + remaining p now), true)
]
