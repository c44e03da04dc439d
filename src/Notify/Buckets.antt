-- ===== src/Notify/Buckets.antt =====
-- internal/notify/coalescer.go: what Add keeps of a bucket.
use Prim.Native.String.{String}
use text.Mathlib.Text.{◌==◌ as str_eq}
use text.Mathlib.TextEquality.{eq_iff}
use go_be_arbitrage.Prelude.{
  ℕ, ◌-◌, ◌≤◌, ◌≡◌, refl, sym, ◌∙◌, none, some, [], ◌∷◌, arith, Bool-cases, inl, inr,
}
use go_be_arbitrage.Notify.Coalescer.{
  Value, Intent, Bucket, Buckets, find, put, filled, bucket_key, add,
}

module _ {F : Type 0} where
  find-put : (k : String) (b : Bucket F) (bs : Buckets F) → find k (put k b bs) ≡ some b
  unfolding find put
  find-put k b [] = rw ((eq_iff k k).1 refl) refl
  find-put k b ((x, c) ∷ bs) = elim (Bool-cases (str_eq x k)) [
    | inl e ↦ rw e (rw e refl)
    | inr e ↦ rw e (rw e (find-put k b bs))
  ]

  put-put : (k : String) (b c : Bucket F) (bs : Buckets F) → put k b (put k c bs) ≡ put k b bs
  unfolding put
  put-put k b c [] = rw ((eq_iff k k).1 refl) refl
  put-put k b c ((x, d) ∷ bs) = elim (Bool-cases (str_eq x k)) [
    | inl e ↦ rw e (rw e refl)
    | inr e ↦ rw e (rw e (rw (put-put k b c bs) refl))
  ]

  filled_expired :
      (window now : ℕ) (i : Intent F) (b : Bucket F)
      → window ≤ now - b.first
      → filled window now i (some b) ≡ filled window now i none
  unfolding filled
  filled_expired window now i b h = ground arith

module _ {F : Type 0} (print : Value F → String) (upper trim : String → String) where
  add_expired :
      (window now : ℕ) (i : Intent F) (b : Bucket F) (bs : Buckets F)
      → window ≤ now - b.first
      → let k = bucket_key print upper trim i in
        add print upper trim window now i (put k b bs) ≡ put k (filled window now i none) bs
  unfolding add
  add_expired window now i b bs h =
      let k = bucket_key print upper trim i in
      rw
        (
          find-put k b bs,
          filled_expired window now i b h,
          put-put k (filled window now i none) b bs,
        )
        refl

  -- The intents that an expired bucket holds are lost where an intent of its key is added before they
  -- are flushed: the buckets after Add are the same, whatever the expired bucket held.
  pub expired_items_lost :
      (window now : ℕ) (i : Intent F) (b c : Bucket F) (bs : Buckets F)
      → window ≤ now - b.first
      → window ≤ now - c.first
      → let k = bucket_key print upper trim i in
        add print upper trim window now i (put k b bs)
        ≡ add print upper trim window now i (put k c bs)
  expired_items_lost window now i b c bs h h' =
      add_expired window now i b bs h ∙ sym (add_expired window now i c bs h')
