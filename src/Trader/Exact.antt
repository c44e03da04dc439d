-- ===== src/Trader/Exact.antt =====
-- internal/trader/reconstruct.go: where the arithmetic of quantities does not round, and the facts of a
-- single fill: there a position is what was opened less what was closed.
use go_be_arbitrage.Prelude.{
  Bool-cases, inl, inr, ℕ, ◌+◌, ◌-◌, ◌≤◌, ◌<◌, ◌≡◌, arith, ltb, ◌==◌, ◌⊎◌,
}
use go_be_arbitrage.Floats.{Float}
use go_be_arbitrage.Trader.Reconstruct.{
  Move, crosses, opens, adds, reduces, move, sgn, abs_f, zero_f,
}

-- Some numbers, each a difference of naturals, on which negation and the comparisons are exact, and an
-- addition whose exact result is at most `bound` in size. Of float64 these are the multiples of a power
-- of two, 2^-k for one k between 0 and 1074, that are at most 2^(53-k) in size; `up` and `down` count
-- in units of 2^-k, and `bound` is 2^53.
pub record IsExact {F : Type 0} (f : Float F) : Type 1 where
  pub number : F → Type 0
  pub up : F → ℕ
  pub down : F → ℕ
  pub bound : ℕ
  pub zero_number : number (zero_f f)
  pub zero_parts : up (zero_f f) ≡ down (zero_f f)
  pub neg_number : (x : F) → number x → number (f.neg x)
  pub neg_parts : (x : F) → number x → up (f.neg x) + up x ≡ down (f.neg x) + down x
  pub add_exact :
      (x y : F)
      → number x
      → number y
      → up x + up y ≤ down x + down y + bound
      → down x + down y ≤ up x + up y + bound
      → number (f.add x y) × (up (f.add x y) + down x + down y ≡ down (f.add x y) + up x + up y)
  pub lt_parts : (x y : F) → number x → number y → f.lt x y ≡ ltb (up x + down y) (up y + down x)
  pub eq_parts : (x y : F) → number x → number y → f.eq x y ≡ (up x + down y == up y + down x)

module _ {F : Type 0} (f : Float F) (exact : IsExact f) where
  open exact use {up, down, number}

  -- x is at most u in size.
  abbrev pub AtMost : ℕ → F → Type 0
  AtMost u x = (up x ≤ down x + u) × (down x ≤ up x + u)

  -- The size of a number.
  abbrev pub size : F → ℕ
  size x = (up x - down x) + (down x - up x)

  -- x is y less z.
  abbrev pub IsLess : F → F → F → Type 0
  IsLess x y z = up x + up z + down y ≡ down x + down z + up y

  abbrev pub IsPositive : F → Type 0
  IsPositive x = down x < up x

  abbrev pub IsNegative : F → Type 0
  IsNegative x = up x < down x

  abbrev pub IsNonnegative : F → Type 0
  IsNonnegative x = down x ≤ up x

  -- The size of a number, by its parts.
  pub abs_parts :
      (x : F)
      → number x
      → (IsNonnegative x × (up (abs_f f x) + down x ≡ down (abs_f f x) + up x))
        ⊎ (IsNegative x × (up (abs_f f x) + up x ≡ down (abs_f f x) + down x))
  unfolding abs_f
  abs_parts x n = ground (
    arith,
    exact.zero_parts,
    exact.neg_parts x n,
    exact.lt_parts x (zero_f f) n exact.zero_number,
  )

  pub abs_number : (x : F) → number x → number (abs_f f x)
  unfolding abs_f
  abs_number x n = elim (Bool-cases (f.lt x (zero_f f))) [
    | inl e ↦ rw e (exact.neg_number x n)
    | inr e ↦ rw e n
  ]

  pub positive_iff : (x : F) → number x → f.lt (zero_f f) x ≡ ltb (down x) (up x)
  positive_iff x n =
      rw (exact.lt_parts (zero_f f) x exact.zero_number n) (ground (arith, exact.zero_parts))

  pub negative_iff : (x : F) → number x → f.lt x (zero_f f) ≡ ltb (up x) (down x)
  negative_iff x n =
      rw (exact.lt_parts x (zero_f f) n exact.zero_number) (ground (arith, exact.zero_parts))

  pub zero_iff : (x : F) → number x → f.eq x (zero_f f) ≡ (up x == down x)
  zero_iff x n =
      rw (exact.eq_parts x (zero_f f) n exact.zero_number) (ground (arith, exact.zero_parts))

  -- What each branch knows of the position before a fill and after it.
  abbrev pub Moved : Move → F → F → Type 0
  Moved crosses p q = (IsPositive p × (up q ≤ down q)) ⊎ (IsNegative p × (down q ≤ up q))
  Moved opens p q = up p ≡ down p
  Moved adds p q =
      (IsPositive p × IsPositive q × (up p + down q < up q + down p))
      ⊎ (IsNegative p × IsNegative q × (up q + down p < up p + down q))
  Moved reduces p q =
      (IsPositive p × IsPositive q × (up q + down p ≤ up p + down q))
      ⊎ (IsNegative p × IsNegative q × (up p + down q ≤ up q + down p))

  pub move-Moved : (p q : F) → number p → number q → Moved (move f p q) p q
  unfolding move sgn
  move-Moved p q n k = ground (
    arith,
    positive_iff p n,
    negative_iff p n,
    zero_iff p n,
    positive_iff q k,
    negative_iff q k,
    abs_parts p n,
    abs_parts q k,
    exact.lt_parts (abs_f f p) (abs_f f q) (abs_number p n) (abs_number q k),
  )
