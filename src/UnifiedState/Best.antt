-- ===== src/UnifiedState/Best.antt =====
-- internal/unifiedstate/engine.go: what the loops over the venues keep.
use mathlib.Core.List.{Permᴰ, Memᴰ}
use mathlib.Core.List.Permᴰ
use mathlib.Core.Path.{subst}
use go_be_arbitrage.Prelude.{
  ℕ, ◌+◌, ◌≡◌, refl, sym, ◌∙◌, Bool, true, false, Option, none, some, List, [], ◌∷◌, arith,
  if◌then◌else◌, All, Bool-cases, inl, inr,
}
use go_be_arbitrage.UnifiedState.Model.{VenueMarketState}
use go_be_arbitrage.UnifiedState.Aggregate.{
  is_healthy, entry, entries, keep_better, best_of, recalculate_health,
}

-- The state of a venue that is there and healthy.
abbrev pub live : Option VenueMarketState → Option VenueMarketState
live none = none
live (some v) = if is_healthy v.health then some v else none

abbrev pub quoted :
    {A : Type 0} → (VenueMarketState → Option A) → Option VenueMarketState → Option A
quoted quote none = none
quoted quote (some v) = quote v

abbrev pub value : {A : Type 0} → Option (ℕ × A) → Option A
value none = none
value (some (k, x)) = some x

-- What a venue has is better than what is kept.
abbrev pub beats : {A : Type 0} → (A → A → Bool) → Option A → Option A → Bool
beats better none best = false
beats better (some x) none = true
beats better (some x) (some y) = better x y

-- A comparison that is a strict order with ties.
pub record IsRanking {A : Type 0} (better : A → A → Bool) : Type 0 where
  pub asym : (x y : A) → better x y ≡ true → better y x ≡ false
  pub neg_trans : (x y z : A) → better x y ≡ false → better y z ≡ false → better x z ≡ false

-- What is kept is what one of the venues has.
abbrev pub Held :
    {A : Type 0}
    → (VenueMarketState → Option A)
    → (ℕ → Option VenueMarketState)
    → List ℕ
    → Option (ℕ × A)
    → Type 0
Held quote n ks none = Unit
Held quote n ks (some (k, x)) = Memᴰ k ks × (quoted quote (n k) ≡ some x)

-- The best that the healthy venues of a list have: no venue has better, and one has it.
pub record IsBest {A : Type 0} (better : A → A → Bool) (quote : VenueMarketState → Option A)
    (n : ℕ → Option VenueMarketState) (ks : List ℕ) (best : Option (ℕ × A)) : Type 0 where
  pub unbeaten : All (λ k. beats better (quoted quote (n k)) (value best) ≡ false) ks
  pub held : Held quote n ks best

pub All-Permᴰ : (P : ℕ → Type 0) {xs ys : List ℕ} → Permᴰ xs ys → All P xs → All P ys
All-Permᴰ P Permᴰ.nil h = tt
All-Permᴰ P (Permᴰ.cons {b = b} e r) h = (subst P e h.0, All-Permᴰ P r h.1)
All-Permᴰ P (Permᴰ.swap e g) h = (subst P g h.1.0, (subst P e h.0, h.1.1))
All-Permᴰ P (Permᴰ.trans r s) h = All-Permᴰ P s (All-Permᴰ P r h)

All-Memᴰ : (all ks : List ℕ) → ((k : ℕ) → Memᴰ k ks → Memᴰ k all) → All (λ k. Memᴰ k all) ks
All-Memᴰ all [] sub = tt
All-Memᴰ all (k ∷ ks) sub = (sub k (Memᴰ.head refl), All-Memᴰ all ks (λ j t. sub j (Memᴰ.tail t)))

abbrev pub is_live : Option VenueMarketState → Bool
is_live none = false
is_live (some v) = is_healthy v.health

-- The healthy venues among the keys.
unfoldable pub healthy_count : (ℕ → Option VenueMarketState) → List ℕ → ℕ
healthy_count n [] = 0
healthy_count n (k ∷ ks) = (if is_live (n k) then 1 else 0) + healthy_count n ks

module _ {A : Type 0} (better : A → A → Bool) (ranking : IsRanking better)
    (quote : VenueMarketState → Option A) where
  beats_trans :
      (a b c : Option A)
      → beats better a b ≡ false
      → beats better b c ≡ false
      → beats better a c ≡ false
  beats_trans none b c h g = refl
  beats_trans (some x) none c h g = cc
  beats_trans (some x) (some y) none h g = cc
  beats_trans (some x) (some y) (some z) h g = ranking.neg_trans x y z h g

  beats_self : (o : Option A) → beats better o o ≡ false
  beats_self none = refl
  beats_self (some x) = ground (arith, ranking.asym x x)

  -- One round keeps nothing worse than what it sees and what it had.
  keep_better-unbeaten :
      (ok : Bool) (k : ℕ) (q : Option A) (best : Option (ℕ × A))
      → let r = value (keep_better better ok k q best) in
        (beats better (if ok then q else none) r ≡ false) × (beats better (value best) r ≡ false)
  keep_better-unbeaten true k none best = (refl, beats_self (value best))
  keep_better-unbeaten false k none best = (refl, beats_self (value best))
  keep_better-unbeaten true k (some x) none = (beats_self (some x), refl)
  keep_better-unbeaten false k (some x) none = (refl, refl)
  keep_better-unbeaten true k (some x) (some (j, y)) = elim (Bool-cases (better x y)) [
    | inl e ↦ rw e (beats_self (some x), ranking.asym x y e)
    | inr e ↦ rw e (e, beats_self (some y))
  ]
  keep_better-unbeaten false k (some x) (some (j, y)) = (refl, beats_self (some y))

  best_of-entry :
      (k : ℕ) (o : Option VenueMarketState) (es : List (ℕ × VenueMarketState))
      (best : Option (ℕ × A))
      → best_of better quote (entry k o es) best
        ≡ best_of better quote es (keep_better better (is_live o) k (quoted quote o) best)
  unfolding best_of
  best_of-entry k none es best = refl
  best_of-entry k (some v) es best = refl

  quoted-live :
      (o : Option VenueMarketState)
      → (if is_live o then quoted quote o else none) ≡ quoted quote (live o)
  quoted-live none = refl
  quoted-live (some v) = ground arith

  best_of-unbeaten :
      (m : ℕ → Option VenueMarketState) (ks : List ℕ) (best : Option (ℕ × A))
      → let r = value (best_of better quote (entries m ks) best) in
        (beats better (value best) r ≡ false)
        × All (λ k. beats better (quoted quote (live (m k))) r ≡ false) ks
  unfolding best_of entries
  best_of-unbeaten m [] best = (beats_self (value best), tt)
  best_of-unbeaten m (k ∷ ks) best =
      let next = keep_better better (is_live (m k)) k (quoted quote (m k)) best in
      let (b, rest) = best_of-unbeaten m ks next in
      let (here, before) = keep_better-unbeaten (is_live (m k)) k (quoted quote (m k)) best in
      let kept = best_of better quote (entries m ks) next in
      let r = value kept in
      subst
        (λ (t : Option (ℕ × A)).
          (beats better (value best) (value t) ≡ false)
          × All (λ j. beats better (quoted quote (live (m j))) (value t) ≡ false) (k ∷ ks))
        (sym (best_of-entry k (m k) (entries m ks) best))
        (
          beats_trans (value best) (value next) r before b,
          (
            beats_trans (quoted quote (live (m k))) (value next) r
                (rw (sym (quoted-live (m k))) here) b,
            rest,
          ),
        )

  kept-Held :
      (n : ℕ → Option VenueMarketState) (ks : List ℕ) (k : ℕ) (best : Option (ℕ × A)) (ok : Bool)
      (q : Option A)
      → Memᴰ k ks
      → quoted quote (n k) ≡ (if ok then q else none)
      → Held quote n ks best
      → Held quote n ks (keep_better better ok k q best)
  kept-Held n ks k best ok none there e h = h
  kept-Held n ks k none true (some x) there e h = (there, e)
  kept-Held n ks k none false (some x) there e h = h
  kept-Held n ks k (some (j, y)) false (some x) there e h = h
  kept-Held n ks k (some (j, y)) true (some x) there e h = elim (Bool-cases (better x y)) [
    | inl b ↦ rw b (there, e)
    | inr b ↦ rw b h
  ]

  keep_better-Held :
      (m : ℕ → Option VenueMarketState) (ks : List ℕ) (k : ℕ) (best : Option (ℕ × A))
      → Memᴰ k ks
      → Held quote (λ j. live (m j)) ks best
      → Held quote
          (λ j. live (m j))
          ks
          (keep_better better (is_live (m k)) k (quoted quote (m k)) best)
  keep_better-Held m ks k best there h =
      kept-Held (λ j. live (m j)) ks k best (is_live (m k)) (quoted quote (m k)) there
        (sym (quoted-live (m k))) h

  best_of-Held :
      (m : ℕ → Option VenueMarketState) (all ks : List ℕ) (best : Option (ℕ × A))
      → All (λ k. Memᴰ k all) ks
      → Held quote (λ j. live (m j)) all best
      → Held quote (λ j. live (m j)) all (best_of better quote (entries m ks) best)
  unfolding best_of entries
  best_of-Held m all [] best sub h = h
  best_of-Held m all (k ∷ ks) best sub h = rw (best_of-entry k (m k) (entries m ks) best) (
      best_of-Held m all ks (keep_better better (is_live (m k)) k (quoted quote (m k)) best) sub.1
        (keep_better-Held m all k best sub.0 h))

  -- What the loop keeps is the best that the healthy venues have, in whatever order it meets them.
  pub best_of-IsBest :
      (m : ℕ → Option VenueMarketState) (ks met : List ℕ)
      → Permᴰ met ks
      → IsBest better quote (λ k. live (m k)) ks (best_of better quote (entries m met) none)
  best_of-IsBest m ks met r = record {
    unbeaten = All-Permᴰ _ r (best_of-unbeaten m met none).1;
    held = best_of-Held m ks met none (All-Permᴰ _ (Permᴰ.symm r) (All-Memᴰ ks ks (λ k t. t))) tt;
  }

pub healthy_count-Permᴰ :
    (n : ℕ → Option VenueMarketState) {xs ys : List ℕ}
    → Permᴰ xs ys
    → healthy_count n xs ≡ healthy_count n ys
unfolding healthy_count
healthy_count-Permᴰ n Permᴰ.nil = refl
healthy_count-Permᴰ n (Permᴰ.cons e r) = rw (e, healthy_count-Permᴰ n r) refl
healthy_count-Permᴰ n (Permᴰ.swap {b = b} {a' = a'} e g) = rw (e, g) (omega arith)
healthy_count-Permᴰ n (Permᴰ.trans r t) = healthy_count-Permᴰ n r ∙ healthy_count-Permᴰ n t

recalculate_health-entry :
    (k : ℕ) (o : Option VenueMarketState) (es : List (ℕ × VenueMarketState))
    → recalculate_health (entry k o es) ≡ (if is_live o then 1 else 0) + recalculate_health es
unfolding recalculate_health
recalculate_health-entry k none es = omega arith
recalculate_health-entry k (some v) es = refl

is_live-live : (o : Option VenueMarketState) → is_live (live o) ≡ is_live o
is_live-live none = refl
is_live-live (some v) = ground arith

pub recalculate_health-count :
    (m : ℕ → Option VenueMarketState) (ks : List ℕ)
    → recalculate_health (entries m ks) ≡ healthy_count (λ k. live (m k)) ks
unfolding recalculate_health entries healthy_count
recalculate_health-count m [] = refl
recalculate_health-count m (k ∷ ks) =
    rw
      (
        recalculate_health-entry k (m k) (entries m ks),
        is_live-live (m k),
        recalculate_health-count m ks,
      )
      refl
