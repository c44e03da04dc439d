-- ===== src/Notify/Coalescer.antt =====
-- internal/notify/coalescer.go: buckets of intents that share a wallet, a coin and a direction. A value
-- of the data is a number, as the float64 it converts to, a text, or anything else; `print` is "%v" of
-- fmt, `scan` its Sscanf with "%f", `upper` and `trim` are of strings. The map of an intent is not
-- shared: that merging also writes to the map of the first intent is left out.
use Prim.Native.String.{String}
use text.Mathlib.Text.{◌==◌ as str_eq}
use go_be_arbitrage.Prelude.{
  ℕ, ◌-◌, Bool, true, false, ◌&&◌, not, Option, none, some, List, [], ◌∷◌, ◌++◌, ltb, leb,
  if◌then◌else◌,
}
use go_be_arbitrage.Floats.{Float}
use go_be_arbitrage.OrderBook.Text.{is_empty}

pub data Value (F : Type 0) : Type 0 where
  number : F → Value F
  words : String → Value F
  other : ℕ → Value F

pub record Intent (F : Type 0) : Type 0 where
  pub kind : String
  pub dedup_key : String
  pub data_of : String → Option (Value F)
  pub wallet : String
  pub user_id : ℕ

pub record Bucket (F : Type 0) : Type 0 where
  pub first : ℕ
  pub items : List (Intent F)

pub record Sums (F : Type 0) : Type 0 where
  pub total_size : F
  pub weighted_price : F
  pub total_pnl : F
  pub total_fees : F

-- The map under its keys, in the order in which a range visits it.
abbrev pub Buckets : Type 0 → Type 0
Buckets F = List (String × Bucket F)

module _ {F : Type 0} where
  unfoldable pub find : String → Buckets F → Option (Bucket F)
  find k [] = none
  find k ((x, b) ∷ bs) = if str_eq x k then some b else find k bs

  unfoldable pub put : String → Bucket F → Buckets F → Buckets F
  put k b [] = (k, b) ∷ []
  put k b ((x, c) ∷ bs) = let rest = put k b bs in if str_eq x k then (x, b) ∷ bs else (x, c) ∷ rest

  abbrev has_items : List (Intent F) → Bool
  has_items [] = false
  has_items _ = true

  -- The bucket that Add leaves.
  unfoldable pub filled : ℕ → ℕ → Intent F → Option (Bucket F) → Bucket F
  filled window now i none = record { first = now; items = i ∷ [] }
  filled window now i (some b) =
      if ltb (now - b.first) window
      then record b { items = b.items ++ (i ∷ []) }
      else record { first = now; items = i ∷ [] }

module _ {F : Type 0} (print : Value F → String) (upper trim : String → String) where
  abbrev str_append : String → String → String
  str_append String.[] t = t
  str_append (String.◌∷◌ x xs) t = String.◌∷◌ x (str_append xs t)

  abbrev printed : Option (Value F) → String
  printed none = ""
  printed (some v) = print v

  abbrev direction : Intent F → String
  direction i =
      let dir = printed (i.data_of "dir") in
      if is_empty dir then printed (i.data_of "side") else dir

  unfoldable pub bucket_key : Intent F → String
  bucket_key i = str_append i.wallet (
      str_append "|" (
        str_append (upper (trim (printed (i.data_of "coin"))))
          (str_append "|" (trim (direction i)))))

  unfoldable pub add : ℕ → ℕ → Intent F → Buckets F → Buckets F
  unfolding find put filled
  add window now i bs = let k = bucket_key i in put k (filled window now i (find k bs)) bs

module _ {F : Type 0} (f : Float F) (scan : String → F) where
  abbrev to_float : Option (Value F) → F
  to_float (some (number x)) = x
  to_float (some (words s)) = scan s
  to_float _ = f.lit 0 0

  -- `total` and the value of a second field, taken where the total is still 0.
  abbrev or_also : F → F → F
  or_also total v =
      if not (f.eq v (f.lit 0 0)) && f.eq total (f.lit 0 0) then f.add total v else total

  abbrev add_item : Intent F → Sums F → Sums F
  add_item i s =
      let size = to_float (i.data_of "size") in
      record {
        total_size = f.add s.total_size size;
        weighted_price = f.add s.weighted_price (f.mul size (to_float (i.data_of "price")));
        total_pnl =
            or_also (f.add s.total_pnl (to_float (i.data_of "closed_pnl")))
              (to_float (i.data_of "pnl"));
        total_fees =
            or_also (f.add s.total_fees (to_float (i.data_of "fee"))) (to_float (i.data_of "fees"));
      }

  unfoldable pub sums : List (Intent F) → Sums F → Sums F
  sums [] s = s
  sums (i ∷ items) s = sums items (add_item i s)

  abbrev with_sums : Sums F → (String → Option (Value F)) → String → Option (Value F)
  with_sums s d k =
      if str_eq k "size"
      then some (number s.total_size)
      else if str_eq k "price"
      then some (
          number (
            if f.eq s.total_size (f.lit 0 0)
            then f.lit 0 0
            else f.div s.weighted_price s.total_size))
      else if str_eq k "closed_pnl"
      then some (number s.total_pnl)
      else if str_eq k "pnl"
      then some (number s.total_pnl)
      else if str_eq k "net"
      then some (number s.total_pnl)
      else if str_eq k "fee"
      then some (number s.total_fees)
      else if str_eq k "fees"
      then some (number s.total_fees)
      else d k

  abbrev zero_sums : Sums F
  zero_sums = record {
    total_size = f.lit 0 0;
    weighted_price = f.lit 0 0;
    total_pnl = f.lit 0 0;
    total_fees = f.lit 0 0;
  }

  unfoldable pub coalesce_items : List (Intent F) → Intent F
  unfolding sums
  coalesce_items [] = record {
    kind = "";
    dedup_key = "";
    data_of = λ k. none;
    wallet = "";
    user_id = 0;
  }
  coalesce_items (i ∷ []) = i
  coalesce_items (i ∷ j ∷ items) = record i {
    data_of = with_sums (sums (i ∷ j ∷ items) zero_sums) i.data_of;
  }

  -- The intents that are sent, and the buckets that stay.
  unfoldable pub flush_expired : ℕ → ℕ → Buckets F → List (Intent F) × Buckets F
  unfolding coalesce_items
  flush_expired window now [] = ([], [])
  flush_expired window now ((k, b) ∷ bs) =
      let (out, rest) = flush_expired window now bs in
      if has_items b.items && leb window (now - b.first)
      then (coalesce_items b.items ∷ out, rest)
      else (out, (k, b) ∷ rest)

  unfoldable pub flush : Buckets F → List (Intent F) × Buckets F
  unfolding coalesce_items
  flush [] = ([], [])
  flush ((k, b) ∷ bs) =
      let (out, rest) = flush bs in
      if has_items b.items then (coalesce_items b.items ∷ out, rest) else (out, (k, b) ∷ rest)
