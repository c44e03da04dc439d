-- ===== src/Trader/Reconstruct.antt =====
-- internal/trader/reconstruct.go: `ReconstructTrades`. `sort` is `sort.SliceStable` of the Go library;
-- the maps by market are functions.
use go_be_arbitrage.Prelude.{
  ℕ, ◌+◌, Bool, ◌&&◌, not, Option, none, some, List, [], ◌∷◌, ◌++◌, ltb, ◌==◌, if◌then◌else◌,
}
use go_be_arbitrage.Floats.{Float}
use go_be_arbitrage.Trader.Model.{Fill, CompletedTrade}

-- The local type `cycle`.
pub record Cycle (F : Type 0) : Type 0 where
  pub long : Bool
  pub opened : ℕ
  pub volume : F
  pub pnl : F
  pub fees : F
  pub fills : ℕ
  pub open_qty : F
  pub open_notional : F
  pub close_qty : F
  pub close_notional : F

-- The local variables `open`, `pos` and `out`.
pub record Books (F : Type 0) : Type 0 where
  pub open_cycles : ℕ → Option (Cycle F)
  pub pos : ℕ → F
  pub out : List (CompletedTrade F)

-- `m[k] = v`.
abbrev pub assign : {V : Type 0} → ℕ → V → (ℕ → V) → ℕ → V
assign k v m j = if j == k then v else m j

-- The four branches of the loop's body.
pub data Move : Type 0 where
  crosses opens adds reduces : Move

abbrev pub cycle_or : {F : Type 0} → Cycle F → Option (Cycle F) → Cycle F
cycle_or fresh none = fresh
cycle_or fresh (some c) = c

abbrev pub before_of : {F : Type 0} → Fill F → Fill F → Bool
before_of a b = if a.filled_at == b.filled_at then ltb a.tid b.tid else ltb a.filled_at b.filled_at

module _ {F : Type 0} (f : Float F) where
  open f use {lit, add, mul, div, neg, lt, eq}

  abbrev pub zero_f : F
  zero_f = lit 0 0

  -- 1, 2 and 0 for the 1, -1 and 0 of the source.
  unfoldable pub sgn : F → ℕ
  sgn x = if lt zero_f x then 1 else (if lt x zero_f then 2 else 0)

  unfoldable pub abs_f : F → F
  abs_f x = if lt x zero_f then neg x else x

  unfoldable pub avg_price : F → F → Option F
  avg_price notional qty = if eq qty zero_f then none else some (div notional qty)

  unfoldable pub cycle_size : F → F → Option F
  cycle_size open_qty close_qty =
      if lt zero_f open_qty
      then some open_qty
      else (if lt zero_f close_qty then some close_qty else none)

  abbrev pub new_cycle : Bool → ℕ → Cycle F
  new_cycle long opened = record {
    long = long;
    opened = opened;
    volume = zero_f;
    pnl = zero_f;
    fees = zero_f;
    fills = 0;
    open_qty = zero_f;
    open_notional = zero_f;
    close_qty = zero_f;
    close_notional = zero_f;
  }

  unfoldable pub trade_of : ℕ → Cycle F → ℕ → CompletedTrade F
  trade_of m c at = record {
    market = m;
    long = c.long;
    open_time = c.opened;
    close_time = at;
    volume = c.volume;
    pnl = c.pnl;
    fees = c.fees;
    fills = c.fills;
    entry_price = avg_price c.open_notional c.open_qty;
    exit_price = avg_price c.close_notional c.close_qty;
    size = cycle_size c.open_qty c.close_qty;
  }

  -- The signed quantity.
  abbrev pub signed : Fill F → F
  signed x = if x.buy then x.quantity else neg x.quantity

  unfoldable pub move : F → F → Move
  unfolding sgn abs_f
  move before after =
      if not (eq before zero_f) && not (sgn after == sgn before)
      then crosses
      else if eq before zero_f
      then opens
      else (if lt (abs_f before) (abs_f after) then adds else reduces)

  -- The cycle with the fill's volume, result and fee.
  abbrev pub touched : Fill F → Cycle F → Cycle F
  touched x c = record c {
    volume = add c.volume (abs_f (mul x.quantity x.price));
    pnl = add c.pnl x.closed_pnl;
    fees = add c.fees x.fee;
    fills = c.fills + 1;
  }

  abbrev pub add_open : F → F → Cycle F → Cycle F
  add_open qty notional c = record c {
    open_qty = add c.open_qty qty;
    open_notional = add c.open_notional notional;
  }

  abbrev pub add_close : F → F → Cycle F → Cycle F
  add_close qty notional c = record c {
    close_qty = add c.close_qty qty;
    close_notional = add c.close_notional notional;
  }

  -- The branch that a move takes, with the cycle, the position before it and the one after it.
  unfoldable pub settle : Move → Fill F → Cycle F → F → F → Books F → Books F
  unfolding trade_of
  settle crosses x c before after s =
      let closed = add_close (abs_f before) (mul (abs_f before) x.price) c in
      let next =
        (if eq after zero_f
          then none
          else some (
              add_open (abs_f after) (mul (abs_f after) x.price)
                (new_cycle (lt zero_f after) x.filled_at))) in
      record s {
        open_cycles = assign x.market next s.open_cycles;
        out = s.out ++ trade_of x.market closed x.filled_at ∷ [];
      }
  settle opens x c before after s =
      let qty = abs_f x.quantity in
      record s {
        open_cycles = assign x.market (some (add_open qty (mul qty x.price) c)) s.open_cycles;
      }
  settle adds x c before after s =
      let qty = abs_f x.quantity in
      record s {
        open_cycles = assign x.market (some (add_open qty (mul qty x.price) c)) s.open_cycles;
      }
  settle reduces x c before after s =
      let qty = abs_f x.quantity in
      let closed = add_close qty (mul qty x.price) c in
      if eq after zero_f
      then record s {
        open_cycles = assign x.market none s.open_cycles;
        out = s.out ++ trade_of x.market closed x.filled_at ∷ [];
      }
      else record s { open_cycles = assign x.market (some closed) s.open_cycles }

  abbrev pub cycle_at : Books F → Fill F → Cycle F
  cycle_at s x = cycle_or (new_cycle (lt zero_f (signed x)) x.filled_at) (s.open_cycles x.market)

  -- The loop's body.
  unfoldable pub apply_fill : Books F → Fill F → Books F
  unfolding move settle
  apply_fill s x =
      let before = s.pos x.market in
      let after = add before (signed x) in
      let t = settle (move before after) x (touched x (cycle_at s x)) before after s in
      if eq x.quantity zero_f then s else record t { pos = assign x.market after s.pos }

  unfoldable pub apply_fills : Books F → List (Fill F) → Books F
  unfolding apply_fill
  apply_fills s [] = s
  apply_fills s (x ∷ xs) = apply_fills (apply_fill s x) xs

  abbrev pub no_books : Books F
  no_books = record { open_cycles = λ m. none; pos = λ m. zero_f; out = [] }

  unfoldable pub reconstruct_trades :
      ((Fill F → Fill F → Bool) → List (Fill F) → List (Fill F))
      → List (Fill F)
      → List (CompletedTrade F)
  unfolding apply_fills
  reconstruct_trades sort fills = (apply_fills no_books (sort before_of fills)).out
