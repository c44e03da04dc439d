-- ===== src/OrderBook/Sample.antt =====
-- A sort that does what internal/orderbook/engine.go asks of `sort.Slice`, an order on price texts,
-- and books for the tests.
use Prim.Native.String.{String}
use Prim.Native.Char.{code}
use mathlib.Core.List.{Permᴰ}
use go_be_arbitrage.Prelude.{
  ℕ, ◌+◌, ◌-◌, ◌*◌, ◌≡◌, refl, Bool, false, Bool-cases, inl, inr, List, [], ◌∷◌, arith, ltb, All,
  if◌then◌else◌,
}
use go_be_arbitrage.OrderBook.Model.{PriceLevel, OrderBook, healthy}
use go_be_arbitrage.OrderBook.Sorting.{Less, IsStrictWeak, Sorted, IsSort}
use go_be_arbitrage.OrderBook.Engine.{price_greater, price_less}

abbrev insert : Less → PriceLevel → List PriceLevel → List PriceLevel
insert less a [] = a ∷ []
insert less a (x ∷ xs) = if less x a then x ∷ insert less a xs else a ∷ x ∷ xs

abbrev pub insertion_sort : Less → List PriceLevel → List PriceLevel
insertion_sort less [] = []
insertion_sort less (x ∷ xs) = insert less x (insertion_sort less xs)

perm_refl : (l : List PriceLevel) → Permᴰ l l
perm_refl [] = Permᴰ.nil
perm_refl (x ∷ xs) = Permᴰ.cons refl (perm_refl xs)

insert-Permᴰ :
    (less : Less) (a : PriceLevel) (l : List PriceLevel) → Permᴰ (insert less a l) (a ∷ l)
insert-Permᴰ less a [] = perm_refl (a ∷ [])
insert-Permᴰ less a (x ∷ xs) = elim (Bool-cases (less x a)) [
  | inl e ↦ rw e (Permᴰ.trans (Permᴰ.cons refl (insert-Permᴰ less a xs)) (Permᴰ.swap refl refl))
  | inr e ↦ rw e (perm_refl (a ∷ x ∷ xs))
]

insertion_sort-Permᴰ : (less : Less) (l : List PriceLevel) → Permᴰ (insertion_sort less l) l
insertion_sort-Permᴰ less [] = Permᴰ.nil
insertion_sort-Permᴰ less (x ∷ xs) =
    Permᴰ.trans (insert-Permᴰ less x (insertion_sort less xs))
      (Permᴰ.cons refl (insertion_sort-Permᴰ less xs))

abbrev Above : Less → PriceLevel → List PriceLevel → Type 0
Above less x l = All (λ y. less y x ≡ false) l

insert-Above :
    (less : Less) (a x : PriceLevel) (l : List PriceLevel)
    → less a x ≡ false
    → Above less x l
    → Above less x (insert less a l)
insert-Above less a x [] e h = (e, tt)
insert-Above less a x (y ∷ ys) e h = elim (Bool-cases (less y a)) [
  | inl f ↦ rw f (h.0, insert-Above less a x ys e h.1)
  | inr f ↦ rw f (e, h)
]

Above-trans :
    (less : Less) (weak : IsStrictWeak less) (a x : PriceLevel) (l : List PriceLevel)
    → less x a ≡ false
    → Above less x l
    → Above less a l
Above-trans less weak a x [] e h = tt
Above-trans less weak a x (y ∷ ys) e h =
    (weak.neg_trans y x a h.0 e, Above-trans less weak a x ys e h.1)

insert-Sorted :
    (less : Less) (weak : IsStrictWeak less) (a : PriceLevel) (l : List PriceLevel)
    → Sorted less l
    → Sorted less (insert less a l)
insert-Sorted less weak a [] s = (tt, tt)
insert-Sorted less weak a (x ∷ xs) s = elim (Bool-cases (less x a)) [
  | inl e ↦ rw e (insert-Above less a x xs (weak.asym x a e) s.0, insert-Sorted less weak a xs s.1)
  | inr e ↦ rw e ((e, Above-trans less weak a x xs e s.0), s)
]

insertion_sort-Sorted :
    (less : Less) (l : List PriceLevel) → IsStrictWeak less → Sorted less (insertion_sort less l)
insertion_sort-Sorted less [] weak = tt
insertion_sort-Sorted less (x ∷ xs) weak =
    insert-Sorted less weak x (insertion_sort less xs) (insertion_sort-Sorted less xs weak)

pub insertion_sort-IsSort : IsSort insertion_sort
insertion_sort-IsSort = record { arranged = insertion_sort-Permᴰ; ordered = insertion_sort-Sorted }

-- The number of a text of digits.
abbrev value_from : ℕ → String → ℕ
value_from n String.[] = n
value_from n (String.◌∷◌ c s) = value_from (n * 10 + (code c - 48)) s

abbrev pub below : String → String → Bool
below a b = ltb (value_from 0 a) (value_from 0 b)

pub price_greater-IsStrictWeak : IsStrictWeak (price_greater insertion_sort below)
price_greater-IsStrictWeak = record {
  asym = λ a b h. ground arith;
  neg_trans = λ a b c h k. ground arith;
}

pub price_less-IsStrictWeak : IsStrictWeak (price_less insertion_sort below)
price_less-IsStrictWeak = record {
  asym = λ a b h. ground arith;
  neg_trans = λ a b c h k. ground arith;
}

abbrev pub level : String → String → PriceLevel
level p q = record { price = p; quantity = q }

-- A healthy book at sequence number 10.
abbrev pub sample_book : OrderBook
sample_book = record {
  bids = level "99" "2" ∷ level "98" "1" ∷ [];
  asks = level "101" "3" ∷ level "102" "4" ∷ [];
  sequence = 10;
  state = healthy;
  last_update = 100;
  last_snapshot = 100;
  last_delta = 0;
  gap_count = 0;
  resync_count = 0;
  stale_threshold = 50;
  sync_threshold = 50;
}
