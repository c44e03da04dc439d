-- ===== src/OrderBook/Levels.antt =====
-- internal/orderbook/engine.go: `applyLevel`, on one side of a book.
use Prim.Native.String.{String}
use text.Mathlib.Text.{◌==◌ as str_eq}
use go_be_arbitrage.Prelude.{Bool, ◌||◌, List, [], ◌∷◌, if◌then◌else◌}
use go_be_arbitrage.OrderBook.Model.{PriceLevel}

-- A quantity that takes its level away.
unfoldable pub removes : String → Bool
removes q = str_eq q "0" || str_eq q ""

-- The loop of the removing branch: the first level with the price goes.
unfoldable pub delete_price : String → List PriceLevel → List PriceLevel
delete_price p [] = []
delete_price p (x ∷ xs) = if str_eq x.price p then xs else x ∷ delete_price p xs

-- The loop of the other branch: the first level with the price gets the quantity, and where there
-- is none the level is appended.
unfoldable pub put_level : PriceLevel → List PriceLevel → List PriceLevel
put_level l [] = l ∷ []
put_level l (x ∷ xs) =
    if str_eq x.price l.price then record x { quantity = l.quantity } ∷ xs else x ∷ put_level l xs

unfoldable pub apply_level : List PriceLevel → PriceLevel → List PriceLevel
unfolding removes delete_price put_level
apply_level levels level =
    if removes level.quantity then delete_price level.price levels else put_level level levels

-- The loops of `ApplyDelta`.
unfoldable pub apply_levels : List PriceLevel → List PriceLevel → List PriceLevel
unfolding apply_level
apply_levels levels [] = levels
apply_levels levels (l ∷ ls) = apply_levels (apply_level levels l) ls
