-- ===== src/Notify/Tests.antt =====
-- Tests of internal/notify: the theorem at concrete inputs, with decimals for float64.
use Prim.Native.String.{String}
use go_be_arbitrage.Prelude.{◌≡◌, some, [], ◌∷◌, arith}
use go_be_arbitrage.Prelude.Int.{ℤ}
use go_be_arbitrage.Notify.Coalescer.{
  Value, number, words, other, Intent, Bucket, bucket_key, put, add,
}
use go_be_arbitrage.Notify.Buckets.{expired_items_lost}

abbrev shown : Value ℤ → String
shown (number x) = "1"
shown (words s) = s
shown (other n) = ""

abbrev btc_fill : String → Intent ℤ
btc_fill key = record {
  kind = "fill";
  dedup_key = key;
  data_of = λ k. some (words "BTC");
  wallet = "0x1";
  user_id = 4;
}

abbrev one_fill : Bucket ℤ
one_fill = record { first = 10; items = btc_fill "a" ∷ [] }

abbrev no_fills : Bucket ℤ
no_fills = record { first = 0; items = [] }

expired_items_lost_example :
    let k = bucket_key shown (λ s. s) (λ s. s) (btc_fill "b") in
    add shown (λ s. s) (λ s. s) 3 20 (btc_fill "b") (put k one_fill [])
    ≡ add shown (λ s. s) (λ s. s) 3 20 (btc_fill "b") (put k no_fills [])
expired_items_lost_example =
    expired_items_lost shown (λ s. s) (λ s. s) 3 20 (btc_fill "b") one_fill no_fills []
      (ground arith) (ground arith)
