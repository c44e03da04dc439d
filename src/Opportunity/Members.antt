-- ===== src/Opportunity/Members.antt =====
-- internal/opportunity/engine.go: what the loops of a scan meet and keep.
use mathlib.Core.List.{Memᴰ}
use mathlib.Core.List.Memᴰ
use mathlib.Core.Path.{subst}
use go_be_arbitrage.Prelude.{
  ◌≡◌, ◌≢◌, ◌⊎◌, inl, inr, refl, sym, ap, ◌∙◌, Bool, true, List, [], ◌∷◌, All, Bool-cases,
}
use go_be_arbitrage.UnifiedState.Snapshot.{Venue}
use go_be_arbitrage.Opportunity.Model.{Opportunity, Calculation, found, refused}
use go_be_arbitrage.Opportunity.Engine.{keep_where, flat, pairs_of, kept, collect}

-- The keys of a map are distinct.
abbrev pub Apart : List Venue → Type 0
Apart [] = Unit
Apart (x ∷ xs) = All (λ y. x.0 ≢ y.0) xs × Apart xs

pub All-at : {A : Type 0} (P : A → Type 0) {a : A} {xs : List A} → All P xs → Memᴰ a xs → P a
All-at P h (Memᴰ.head e) = subst P (sym e) h.0
All-at P h (Memᴰ.tail m) = All-at P h.1 m

pub keep_where_of :
    {A : Type 0} (p : A → Bool) {a : A} {xs : List A}
    → Memᴰ a xs
    → p a ≡ true
    → Memᴰ a (keep_where p xs)
keep_where_of p {a} (Memᴰ.head {x = x} {xs = xs} e) h = rw (sym (ap p e) ∙ h) (Memᴰ.head e)
keep_where_of p {a} (Memᴰ.tail {x = x} {xs = xs} m) h = elim (Bool-cases (p x)) [
  | inl e ↦ rw e (Memᴰ.tail (keep_where_of p m h))
  | inr e ↦ rw e (keep_where_of p m h)
]

pub in_keep_where :
    {A : Type 0} (p : A → Bool) {a : A} (xs : List A)
    → Memᴰ a (keep_where p xs)
    → Memᴰ a xs × (p a ≡ true)
in_keep_where p [] m = absurd (Memᴰ.not-nil m)
in_keep_where p {a} (x ∷ xs) m = elim (Bool-cases (p x)) [
  | inl e ↦ elim (Memᴰ.cases_cons (rw e at m)) [
    | inl same ↦ (Memᴰ.head same, ap p same ∙ e)
    | inr t ↦ let (h, q) = in_keep_where p xs t in (Memᴰ.tail h, q)
  ]
  | inr e ↦ let (h, q) = in_keep_where p xs (rw e at m) in (Memᴰ.tail h, q)
]

pub All-keep_where :
    {A : Type 0} (P : A → Type 0) (p : A → Bool) (xs : List A) → All P xs → All P (keep_where p xs)
All-keep_where P p [] h = tt
All-keep_where P p (x ∷ xs) h = elim (Bool-cases (p x)) [
  | inl e ↦ rw e (h.0, All-keep_where P p xs h.1)
  | inr e ↦ rw e (All-keep_where P p xs h.1)
]

pub Apart-keep_where : (p : Venue → Bool) (xs : List Venue) → Apart xs → Apart (keep_where p xs)
Apart-keep_where p [] h = tt
Apart-keep_where p (x ∷ xs) h = elim (Bool-cases (p x)) [
  | inl e ↦ rw e (All-keep_where (λ y. x.0 ≢ y.0) p xs h.0, Apart-keep_where p xs h.1)
  | inr e ↦ rw e (Apart-keep_where p xs h.1)
]

pub flat_of :
    {A B : Type 0} (g : A → List B) {a : A} {b : B} {xs : List A}
    → Memᴰ a xs
    → Memᴰ b (g a)
    → Memᴰ b (flat g xs)
unfolding flat
flat_of g {b = b} (Memᴰ.head e) m = Memᴰ.append_left _ (subst (λ x. Memᴰ b (g x)) e m)
flat_of g (Memᴰ.tail t) m = Memᴰ.append_right _ (flat_of g t m)

pub in_flat :
    {A B : Type 0} (g : A → List B) {b : B} (xs : List A)
    → Memᴰ b (flat g xs)
    → (a : A) × Memᴰ a xs × Memᴰ b (g a)
unfolding flat
in_flat g [] m = absurd (Memᴰ.not-nil m)
in_flat g (x ∷ xs) m = elim (Memᴰ.append_cases (g x) m) [
  | inl h ↦ (x, Memᴰ.head refl, h)
  | inr t ↦ let (a, h, n) = in_flat g xs t in (a, Memᴰ.tail h, n)
]

pub collect_of :
    {F I : Type 0} (calculate : I → Calculation F) {i : I} {o : Opportunity F} {is : List I}
    → Memᴰ i is
    → calculate i ≡ found o
    → Memᴰ o (collect calculate is)
unfolding collect
collect_of calculate {i} (Memᴰ.head e) h = rw (sym (ap calculate e) ∙ h) (Memᴰ.head refl)
collect_of {F = F} calculate {i} {o} (Memᴰ.tail {x = x} {xs = xs} m) h =
    later (calculate x) (collect calculate xs) (collect_of calculate m h)
  where
    later : (r : Calculation F) (os : List (Opportunity F)) → Memᴰ o os → Memᴰ o (kept r os)
    later (found p) os n = Memᴰ.tail n
    later (refused e) os n = n

pub in_kept :
    {F : Type 0} (r : Calculation F) (os : List (Opportunity F)) (o : Opportunity F)
    → Memᴰ o (kept r os)
    → (r ≡ found o) ⊎ Memᴰ o os
in_kept (found p) os o m = elim (Memᴰ.cases_cons m) [
  | inl e ↦ inl (ap found (sym e))
  | inr t ↦ inr t
]
in_kept (refused e) os o m = inr m

pub in_collect :
    {F I : Type 0} (calculate : I → Calculation F) {o : Opportunity F} (is : List I)
    → Memᴰ o (collect calculate is)
    → (i : I) × Memᴰ i is × (calculate i ≡ found o)
unfolding collect
in_collect calculate [] m = absurd (Memᴰ.not-nil m)
in_collect calculate {o} (i ∷ is) m = elim (in_kept (calculate i) (collect calculate is) o m) [
  | inl e ↦ (i, Memᴰ.head refl, e)
  | inr t ↦ let (j, n, e) = in_collect calculate is t in (j, Memᴰ.tail n, e)
]

-- Both orders of two entries under distinct keys are tried.
pub pairs_of_any :
    {B : Type 0} (inputs : Venue → Venue → List B) (a b : Venue) {y : B} {xs : List Venue}
    → a.0 ≢ b.0
    → Memᴰ a xs
    → Memᴰ b xs
    → Memᴰ y (inputs a b)
    → Memᴰ y (inputs b a)
    → Memᴰ y (pairs_of inputs xs)
unfolding pairs_of
pairs_of_any inputs a b d (Memᴰ.head e) (Memᴰ.head g) m n = absurd (d (ap (λ v. v.0) (e ∙ sym g)))
pairs_of_any inputs a b {y} d (Memᴰ.head e) (Memᴰ.tail t) m n =
    Memᴰ.append_left _ (flat_of (inputs _) t (subst (λ x. Memᴰ y (inputs x b)) e m))
pairs_of_any inputs a b {y} d (Memᴰ.tail t) (Memᴰ.head e) m n =
    Memᴰ.append_left _ (flat_of (inputs _) t (subst (λ x. Memᴰ y (inputs x a)) e n))
pairs_of_any inputs a b d (Memᴰ.tail s) (Memᴰ.tail t) m n =
    Memᴰ.append_right _ (pairs_of_any inputs a b d s t m n)

pub in_pairs_of :
    {B : Type 0} (inputs : Venue → Venue → List B) {y : B} (xs : List Venue)
    → Apart xs
    → Memᴰ y (pairs_of inputs xs)
    → (a b : Venue) × Memᴰ a xs × Memᴰ b xs × (a.0 ≢ b.0) × Memᴰ y (inputs a b)
unfolding pairs_of
in_pairs_of inputs [] d m = absurd (Memᴰ.not-nil m)
in_pairs_of inputs (x ∷ xs) d m = elim (Memᴰ.append_cases (flat (inputs x) xs) m) [
  | inl h ↦
      let (b, t, n) = in_flat (inputs x) xs h in
      (x, b, Memᴰ.head refl, Memᴰ.tail t, All-at (λ y. x.0 ≢ y.0) d.0 t, n)
  | inr t ↦
      let (a, b, s, t', e, n) = in_pairs_of inputs xs d.1 t in
      (a, b, Memᴰ.tail s, Memᴰ.tail t', e, n)
]
