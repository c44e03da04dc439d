-- ===== src/OrderBook/Sorting.antt =====
-- What internal/orderbook/engine.go relies on in `sort.Slice` of the Go library, and what it gives:
-- sorting a side keeps its view.
use Prim.Native.String.{String}
use mathlib.Core.List.{Permᴰ}
use text.Mathlib.TextEquality.{eq_iff}
use go_be_arbitrage.Prelude.{◌≡◌, refl, ◌∙◌, Bool, true, false, List, [], ◌∷◌, arith, All}
use go_be_arbitrage.OrderBook.Model.{PriceLevel}
use go_be_arbitrage.OrderBook.View.{quantity_at, Distinct}

abbrev pub Less : Type 0
Less = PriceLevel → PriceLevel → Bool

-- A comparison that `sort.Slice` accepts.
pub record IsStrictWeak (less : Less) : Type 0 where
  pub asym : (a b : PriceLevel) → less a b ≡ true → less b a ≡ false
  pub neg_trans : (a b c : PriceLevel) → less a b ≡ false → less b c ≡ false → less a c ≡ false

-- No later level is less than an earlier one.
abbrev pub Sorted : Less → List PriceLevel → Type 0
Sorted less [] = Unit
Sorted less (x ∷ xs) = All (λ y. less y x ≡ false) xs × Sorted less xs

-- `sort.Slice`: a rearrangement, sorted where the comparison is one; it need not be stable.
pub record IsSort (sort : Less → List PriceLevel → List PriceLevel) : Type 0 where
  pub arranged : (less : Less) (l : List PriceLevel) → Permᴰ (sort less l) l
  pub ordered : (less : Less) (l : List PriceLevel) → IsStrictWeak less → Sorted less (sort less l)

-- Rearranged sides with distinct prices have the same view.
pub quantity_at-Permᴰ :
    (p : String) {xs ys : List PriceLevel}
    → Permᴰ xs ys
    → Distinct ys
    → Distinct xs × (quantity_at p xs ≡ quantity_at p ys)
unfolding quantity_at
quantity_at-Permᴰ p Permᴰ.nil d = (tt, refl)
quantity_at-Permᴰ p (Permᴰ.cons {a = a} {b = b} {l₁ = l₁} {l₂ = l₂} e r) (fresh, d) =
    let (d', v) = quantity_at-Permᴰ p r d in
    let (_, w) = quantity_at-Permᴰ b.price r d in ((ground arith, d'), ground arith)
quantity_at-Permᴰ p (Permᴰ.swap {a = a} {b = b} {a' = a'} {b' = b'} {l = l} e f) d = (
  ground (arith, eq_iff a.price b.price, eq_iff b.price a.price),
  ground
      (arith, eq_iff a.price b.price, eq_iff b.price a.price, eq_iff a.price p, eq_iff b.price p),
)
quantity_at-Permᴰ p (Permᴰ.trans {l₁ = l₁} {l₂ = l₂} {l₃ = l₃} r s) d =
    let (d', v) = quantity_at-Permᴰ p s d in let (d'', w) = quantity_at-Permᴰ p r d' in (d'', w ∙ v)
