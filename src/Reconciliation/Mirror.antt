-- ===== src/Reconciliation/Mirror.antt =====
-- internal/reconciliation/comparator.go and engine.go: what the comparisons depend on.
use go_be_arbitrage.Prelude.{◌≡◌, refl, Bool, Option, none, some, arith}
use go_be_arbitrage.Floats.{Float}
use go_be_arbitrage.Reconciliation.Model.{
  EntityType, ItemResult, missing_internal, missing_external, BalanceState, PositionState,
  OrderState, MarginState, State, Diff,
}
use go_be_arbitrage.Reconciliation.Comparator.{
  compare_with, compare_balance, compare_position, compare_order, compare_margin, balance_close,
  position_close, order_close, margin_close,
}

-- The result with the two sides exchanged.
abbrev pub mirror : ItemResult → ItemResult
mirror missing_internal = missing_external
mirror missing_external = missing_internal
mirror r = r

compare_with-mirror :
    {F A : Type 0} (entity : EntityType) (show : A → State F) (close : A → A → Bool)
    (diff : A → A → Diff F) (a b : Option A)
    → ((x y : A) → close x y ≡ close y x)
    → (compare_with entity show close diff b a).result
      ≡ mirror (compare_with entity show close diff a b).result
unfolding compare_with
compare_with-mirror entity show close diff none none h = refl
compare_with-mirror entity show close diff none (some y) h = refl
compare_with-mirror entity show close diff (some x) none h = refl
compare_with-mirror entity show close diff (some x) (some y) h = ground (arith, h x y)

module _ {F : Type 0} (f : Float F) where
  -- Where the size of a difference does not depend on its direction, exchanging the two sides of a
  -- balance, position, order or margin exchanges "missing internally" and "missing externally",
  -- and keeps a match and a mismatch.
  pub compare-mirror :
      (b b' : Option (BalanceState F)) (p p' : Option (PositionState F))
      (o o' : Option (OrderState F)) (m m' : Option (MarginState F))
      → ((x y : F) → f.abs (f.sub x y) ≡ f.abs (f.sub y x))
      → ((compare_balance f b' b).result ≡ mirror (compare_balance f b b').result)
        × ((compare_position f p' p).result ≡ mirror (compare_position f p p').result)
        × ((compare_order f o' o).result ≡ mirror (compare_order f o o').result)
        × ((compare_margin f m' m).result ≡ mirror (compare_margin f m m').result)
  unfolding compare_balance compare_position compare_order compare_margin
  compare-mirror b b' p p' o o' m m' h = (
    compare_with-mirror _ _ (balance_close f) _ b b'
        (λ x y. ground (arith, h x.amount y.amount, h x.reserved y.reserved)),
    compare_with-mirror _ _ (position_close f) _ p p'
        (λ x y. ground (arith, h x.quantity y.quantity, h x.avg_price y.avg_price)),
    compare_with-mirror _ _ (order_close f) _ o o'
        (λ x y. ground (arith, h x.quantity y.quantity, h x.filled_qty y.filled_qty)),
    compare_with-mirror _ _ (margin_close f) _ m m' (λ x y. ground (
      arith,
      h x.used_margin y.used_margin,
      h x.available_margin y.available_margin,
      h x.margin_ratio y.margin_ratio,
    )),
  )
