-- ===== src/Floats.antt =====
-- The float64 of the source, as a type with the operations that the code uses. No law is assumed
-- here; what a theorem needs of them stands among its hypotheses.
use Prim.Native.Nat.{◌^◌, ◌/◌}
use go_be_arbitrage.Prelude.{◌≡◌, arith, ℕ, ◌+◌, ◌*◌, Bool, true, false, not}
use go_be_arbitrage.Prelude.Int.{ℤ, pos, negsuc, pos_part, neg_part, ◌+ℤ◌, ◌-ℤ◌, ◌*ℤ◌, ltb_ℤ}

pub record Float (F : Type 0) : Type 0 where
  -- `lit m k` is the constant m / 10 ^ k.
  pub lit : ℕ → ℕ → F
  -- float64(n) and the truncating int(x).
  pub of_int : ℤ → F
  pub to_int : F → ℤ
  pub add : F → F → F
  pub sub : F → F → F
  pub mul : F → F → F
  pub div : F → F → F
  pub neg : F → F
  pub abs : F → F
  -- `a < b`, `a <= b` and `a == b`.
  pub lt : F → F → Bool
  pub le : F → F → Bool
  pub eq : F → F → Bool

-- The interface can be met: decimals with eight places.
abbrev pub scale : ℕ
scale = 100_000_000

-- A quotient of integers, rounded towards zero.
abbrev pub quot : ℤ → ℕ → ℤ
quot (pos n) d = pos (n / d)
quot (negsuc n) d = pos 0 -ℤ pos ((n + 1) / d)

abbrev pub sign_times : ℤ → ℤ → ℤ
sign_times (pos n) x = x
sign_times (negsuc n) x = pos 0 -ℤ x

abbrev pub size : ℤ → ℕ
size x = pos_part x + neg_part x

abbrev pub eq_ℤ : ℤ → ℤ → Bool
eq_ℤ a b = elim (ltb_ℤ a b) [ true ↦ false | false ↦ not (ltb_ℤ b a) ]

unfoldable pub decimal_float : Float ℤ
unfolding ◌+ℤ◌ ◌-ℤ◌ ◌*ℤ◌
decimal_float = record {
  lit = λ m k. pos (m * scale / 10 ^ k);
  of_int = λ n. n *ℤ pos scale;
  to_int = λ x. quot x scale;
  add = λ x y. x +ℤ y;
  sub = λ x y. x -ℤ y;
  mul = λ x y. quot (x *ℤ y) scale;
  div = λ x y. sign_times y (quot (x *ℤ pos scale) (size y));
  neg = λ x. pos 0 -ℤ x;
  abs = λ x. pos (size x);
  lt = ltb_ℤ;
  le = λ x y. not (ltb_ℤ y x);
  eq = eq_ℤ;
}

pub decimal_abs_sub :
    (x y : ℤ)
    → decimal_float.abs (decimal_float.sub x y) ≡ decimal_float.abs (decimal_float.sub y x)
unfolding decimal_float ◌-ℤ◌ ◌+ℤ◌
decimal_abs_sub x y = ground arith
