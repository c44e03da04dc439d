-- ===== src/OrderBook/View.antt =====
-- One side of a book as a finite map from prices to quantities, and `applyLevel` on that view.
use Prim.Native.String.{String}
use text.Mathlib.Text.{◌==◌ as str_eq}
use text.Mathlib.TextEquality.{eq_iff}
use go_be_arbitrage.Prelude.{◌≡◌, refl, Option, none, some, List, [], ◌∷◌, arith, if◌then◌else◌}
use go_be_arbitrage.OrderBook.Model.{PriceLevel}
use go_be_arbitrage.OrderBook.Levels.{removes, delete_price, put_level, apply_level, apply_levels}

-- The quantity at a price.
unfoldable pub quantity_at : String → List PriceLevel → Option String
quantity_at p [] = none
quantity_at p (x ∷ xs) = if str_eq x.price p then some x.quantity else quantity_at p xs

-- No price stands twice.
abbrev pub Distinct : List PriceLevel → Type 0
Distinct [] = Unit
Distinct (x ∷ xs) = (quantity_at x.price xs ≡ none) × Distinct xs

-- What one level makes of the quantity at a price.
abbrev pub overwrite : String → PriceLevel → Option String → Option String
overwrite p l old =
    if str_eq l.price p then (if removes l.quantity then none else some l.quantity) else old

-- The last level for a price decides.
abbrev pub overwrites : String → List PriceLevel → Option String → Option String
overwrites p [] old = old
overwrites p (l ∷ ls) old = overwrites p ls (overwrite p l old)

quantity_at-delete_price :
    (p q : String) (xs : List PriceLevel)
    → Distinct xs
    → quantity_at p (delete_price q xs) ≡ (if str_eq q p then none else quantity_at p xs)
unfolding quantity_at delete_price
quantity_at-delete_price p q [] d = ground arith
quantity_at-delete_price p q (x ∷ xs) (fresh, d) =
    ground
      (arith, quantity_at-delete_price p q xs d, eq_iff x.price p, eq_iff x.price q, eq_iff q p)

quantity_at-put_level :
    (p : String) (l : PriceLevel) (xs : List PriceLevel)
    → quantity_at p (put_level l xs)
      ≡ (if str_eq l.price p then some l.quantity else quantity_at p xs)
unfolding quantity_at put_level
quantity_at-put_level p l [] = refl
quantity_at-put_level p l (x ∷ xs) = ground (
  arith,
  quantity_at-put_level p l xs,
  eq_iff x.price p,
  eq_iff x.price l.price,
  eq_iff l.price p,
)

-- `applyLevel` on a side with distinct prices overwrites the map at the level's price.
quantity_at-apply_level :
    (p : String) (l : PriceLevel) (xs : List PriceLevel)
    → Distinct xs
    → quantity_at p (apply_level xs l) ≡ overwrite p l (quantity_at p xs)
unfolding apply_level
quantity_at-apply_level p l xs d =
    ground (arith, quantity_at-delete_price p l.price xs d, quantity_at-put_level p l xs)

delete_price-Distinct :
    (q : String) (xs : List PriceLevel) → Distinct xs → Distinct (delete_price q xs)
unfolding delete_price
delete_price-Distinct q [] d = tt
delete_price-Distinct q (x ∷ xs) (fresh, d) =
    ground (arith, delete_price-Distinct q xs d, quantity_at-delete_price x.price q xs d)

put_level-Distinct :
    (l : PriceLevel) (xs : List PriceLevel) → Distinct xs → Distinct (put_level l xs)
unfolding put_level
put_level-Distinct l [] d = (unfold quantity_at in refl, tt)
put_level-Distinct l (x ∷ xs) (fresh, d) = ground (
  arith,
  put_level-Distinct l xs d,
  quantity_at-put_level x.price l xs,
  eq_iff x.price l.price,
  eq_iff l.price x.price,
)

apply_level-Distinct :
    (l : PriceLevel) (xs : List PriceLevel) → Distinct xs → Distinct (apply_level xs l)
unfolding apply_level
apply_level-Distinct l xs d =
    ground (arith, delete_price-Distinct l.price xs d, put_level-Distinct l xs d)

-- One side of a delta: if no price stands twice in the side, none does afterwards, and the quantity
-- at each price is what the last of the delta's levels for that price says (none, for a quantity
-- of "0" or ""), and the old one where the delta has no level for it.
pub apply_levels-overwrites :
    (ls xs : List PriceLevel)
    → Distinct xs
    → Distinct (apply_levels xs ls)
      × ((p : String) → quantity_at p (apply_levels xs ls) ≡ overwrites p ls (quantity_at p xs))
unfolding apply_levels
apply_levels-overwrites [] xs d = (d, λ p. refl)
apply_levels-overwrites (l ∷ ls) xs d =
    let (d', rest) = apply_levels-overwrites ls (apply_level xs l) (apply_level-Distinct l xs d) in
    (d', λ p. rw (← quantity_at-apply_level p l xs d) (rest p))
