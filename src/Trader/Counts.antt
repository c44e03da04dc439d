-- ===== src/Trader/Counts.antt =====
-- internal/trader/reconstruct.go: no fill is lost or counted twice.
use mathlib.Core.List.{Permᴰ}
use go_be_arbitrage.Prelude.{
  ℕ, ◌+◌, ◌≡◌, refl, ◌∙◌, Bool, Option, none, some, List, [], ◌∷◌, ◌++◌, arith, ◌==◌, if◌then◌else◌,
}
use go_be_arbitrage.Floats.{Float}
use go_be_arbitrage.Trader.Model.{Fill, CompletedTrade}
use go_be_arbitrage.Trader.Reconstruct.{
  Cycle, Books, Move, crosses, opens, adds, reduces, move, settle, trade_of, touched, cycle_at,
  cycle_or, signed, zero_f, abs_f, add_close, new_cycle, apply_fill, apply_fills, no_books,
  reconstruct_trades, before_of,
}

-- The fills that the completed trades of a market count.
unfoldable pub trade_fills : {F : Type 0} → ℕ → List (CompletedTrade F) → ℕ
trade_fills m [] = 0
trade_fills m (t ∷ ts) = (if m == t.market then t.fills else 0) + trade_fills m ts

-- The fills that an open cycle counts.
abbrev pub cycle_fills : {F : Type 0} → Option (Cycle F) → ℕ
cycle_fills none = 0
cycle_fills (some c) = c.fills

-- A trade is emitted last.
trade_fills-append :
    {F : Type 0} (m : ℕ) (xs : List (CompletedTrade F)) (t : CompletedTrade F)
    → trade_fills m (xs ++ t ∷ []) ≡ trade_fills m xs + (if m == t.market then t.fills else 0)
unfolding trade_fills
trade_fills-append m [] t = omega arith
trade_fills-append m (x ∷ xs) t = omega (arith, trade_fills-append m xs t)

module _ {F : Type 0} (f : Float F) where
  cycle_fills-cycle_or :
      (c : Option (Cycle F)) (long : Bool) (at : ℕ)
      → (cycle_or (new_cycle f long at) c).fills ≡ cycle_fills c
  cycle_fills-cycle_or none long at = refl
  cycle_fills-cycle_or (some c) long at = refl

  -- One fill of the market, unless its quantity is zero.
  abbrev pub counts : ℕ → Fill F → ℕ
  counts m x = if f.eq x.quantity (zero_f f) then 0 else (if m == x.market then 1 else 0)

  unfoldable pub fill_count : ℕ → List (Fill F) → ℕ
  fill_count m [] = 0
  fill_count m (x ∷ xs) = counts m x + fill_count m xs

  abbrev pub booked : ℕ → Books F → ℕ
  booked m s = trade_fills m s.out + cycle_fills (s.open_cycles m)

  settle-booked :
      (v : Move) (m : ℕ) (x : Fill F) (c : Cycle F) (before after : F) (s : Books F)
      → booked m (settle f v x c before after s)
        ≡ (if m == x.market then trade_fills m s.out + c.fills else booked m s)
  unfolding settle trade_fills trade_of
  settle-booked crosses m x c before after s = ground (
    arith,
    trade_fills-append m s.out (
        trade_of f x.market (add_close f (abs_f f before) (f.mul (abs_f f before) x.price) c)
          x.filled_at),
  )
  settle-booked opens m x c before after s = ground arith
  settle-booked adds m x c before after s = ground arith
  settle-booked reduces m x c before after s = ground (
    arith,
    trade_fills-append m s.out (
        trade_of f x.market
          (add_close f (abs_f f x.quantity) (f.mul (abs_f f x.quantity) x.price) c) x.filled_at),
  )

  apply_fill-booked :
      (m : ℕ) (x : Fill F) (s : Books F) → booked m (apply_fill f s x) ≡ booked m s + counts m x
  unfolding apply_fill
  apply_fill-booked m x s =
      let before = s.pos x.market in
      let after = f.add before (signed f x) in
      let c = touched f x (cycle_at f s x) in
      ground (
        arith,
        settle-booked (move f before after) m x c before after s,
        cycle_fills-cycle_or (s.open_cycles x.market) (f.lt (zero_f f) (signed f x)) x.filled_at,
      )

  apply_fills-booked :
      (m : ℕ) (xs : List (Fill F)) (s : Books F)
      → booked m (apply_fills f s xs) ≡ booked m s + fill_count m xs
  unfolding apply_fills fill_count
  apply_fills-booked m [] s = omega arith
  apply_fills-booked m (x ∷ xs) s =
      omega (arith, apply_fills-booked m xs (apply_fill f s x), apply_fill-booked m x s)

  fill_count-Permᴰ :
      (m : ℕ) {xs ys : List (Fill F)} → Permᴰ xs ys → fill_count m xs ≡ fill_count m ys
  unfolding fill_count
  fill_count-Permᴰ m Permᴰ.nil = refl
  fill_count-Permᴰ m (Permᴰ.cons e r) = ground (arith, e, fill_count-Permᴰ m r)
  fill_count-Permᴰ m (Permᴰ.swap e g) = ground (arith, e, g)
  fill_count-Permᴰ m (Permᴰ.trans r t) = fill_count-Permᴰ m r ∙ fill_count-Permᴰ m t

  -- Where `sort` rearranges the fills, the completed trades of a market, and the cycle that is left
  -- open there, count together each of its fills of a quantity other than zero once, whatever the
  -- floating-point operations do.
  pub fill_count-booked :
      (sort : (Fill F → Fill F → Bool) → List (Fill F) → List (Fill F)) (fills : List (Fill F))
      (m : ℕ)
      → Permᴰ (sort before_of fills) fills
      → trade_fills m (reconstruct_trades f sort fills)
          + cycle_fills ((apply_fills f (no_books f) (sort before_of fills)).open_cycles m)
        ≡ fill_count m fills
  unfolding reconstruct_trades trade_fills
  fill_count-booked sort fills m r =
      omega (arith, apply_fills-booked m (sort before_of fills) (no_books f), fill_count-Permᴰ m r)
