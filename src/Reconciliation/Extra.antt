-- ===== src/Reconciliation/Extra.antt =====
-- internal/reconciliation/comparator.go and engine.go: fills and orders of the exchange that the program
-- does not know of, wherever they stand among the others.
use mathlib.Core.Path.{fun_ext}
use go_be_arbitrage.Prelude.{
  ℕ, ◌≡◌, ◌↔◌, refl, ap, Bool, true, false, Option, none, some, List, [], ◌∷◌, arith, ◌==◌,
  Bool-cases, Option-cases, inl, inr,
}
use go_be_arbitrage.Floats.{Float}
use go_be_arbitrage.Reconciliation.Model.{matches, FillState, OrderState, ReconciliationRun}
use go_be_arbitrage.Reconciliation.Comparator.{compare_fills, ext_fill, fill_agrees, all_match}
use go_be_arbitrage.Reconciliation.Engine.{
  Adapter, Internal, Store, ext_order, order_items, items_of, check_run, run_checks,
}

-- The third list has the elements of the first and of the second, each in their order.
pub data Interleaves {A : Type 0} : List A → List A → List A → Type 0 where
  done : Interleaves [] [] []
  takes_left : {xs ys zs : List A} (x : A) → Interleaves xs ys zs → Interleaves (x ∷ xs) ys (x ∷ zs)
  takes_right :
      {xs ys zs : List A} (y : A) → Interleaves xs ys zs → Interleaves xs (y ∷ ys) (y ∷ zs)

module _ {F : Type 0} (f : Float F) where
  -- No element has the id of the fill.
  abbrev pub NoFill : ℕ → List (FillState F) → Type 0
  NoFill id [] = Unit
  NoFill id (x ∷ xs) = ((x.fill_id == id) ≡ false) × NoFill id xs

  -- None of the fills stands, by its id, in the other list.
  abbrev pub NoneIn : List (FillState F) → List (FillState F) → Type 0
  NoneIn [] others = Unit
  NoneIn (i ∷ is) others = NoFill i.fill_id others × NoneIn is others

  ext_fill-Interleaves :
      {known extra all : List (FillState F)} (id : ℕ)
      → Interleaves known extra all
      → NoFill id extra
      → ext_fill f id all ≡ ext_fill f id known
  unfolding ext_fill
  ext_fill-Interleaves id done n = refl
  ext_fill-Interleaves id (takes_left x m) n = rw (ext_fill-Interleaves id m n) refl
  ext_fill-Interleaves {known} id (takes_right y m) (other, n) =
      rw (ext_fill-Interleaves id m n) (elim (Option-cases (ext_fill f id known)) [
        | inl e ↦ rw (e, other) refl
        | inr (b, e) ↦ rw e refl
      ])

  fill_agrees-Interleaves :
      {known extra all : List (FillState F)} (i : FillState F)
      → Interleaves known extra all
      → NoFill i.fill_id extra
      → fill_agrees f all i ≡ fill_agrees f known i
  unfolding fill_agrees
  fill_agrees-Interleaves i m n = rw (fill_agrees, ext_fill-Interleaves i.fill_id m n) refl

  all_match-Interleaves :
      {known extra all : List (FillState F)} (is : List (FillState F))
      → Interleaves known extra all
      → NoneIn is extra
      → all_match f is all ≡ all_match f is known
  unfolding all_match
  all_match-Interleaves [] m n = refl
  all_match-Interleaves (i ∷ is) m n =
      ground (arith, fill_agrees-Interleaves i m n.0, all_match-Interleaves is m n.1)

  -- The last of the fills with the id is there and differs by at most 0.0001 in quantity and price.
  abbrev pub Agrees : FillState F → Option (FillState F) → Type 0
  Agrees i none = ⊥
  Agrees i (some e) =
      (f.lt (f.lit 1 4) (f.abs (f.sub i.quantity e.quantity)) ≡ false)
      × (f.lt (f.lit 1 4) (f.abs (f.sub i.price e.price)) ≡ false)

  abbrev pub AllAgree : List (FillState F) → List (FillState F) → Type 0
  AllAgree [] external = Unit
  AllAgree (i ∷ is) external = Agrees i (ext_fill f i.fill_id external) × AllAgree is external

  -- `if agrees` of an option.
  fill_agrees-Agrees :
      (i : FillState F) (external : List (FillState F))
      → (fill_agrees f external i ≡ true) ↔ Agrees i (ext_fill f i.fill_id external)
  unfolding fill_agrees
  fill_agrees-Agrees i external = (λ h. ground arith, λ h. ground arith)

  all_match-AllAgree :
      (is external : List (FillState F)) → (all_match f is external ≡ true) ↔ AllAgree is external
  unfolding all_match
  all_match-AllAgree [] external = (λ h. tt, λ h. refl)
  all_match-AllAgree (i ∷ is) external =
      let a = fill_agrees-Agrees i external in
      let b = all_match-AllAgree is external in
      (λ h. (a.0 (ground arith), b.0 (ground arith)), λ (x, y). rw (a.1 x) (b.1 y))

  result_of_match :
      (i k e : FillState F) (is known es : List (FillState F))
      → all_match f (i ∷ is) (e ∷ es) ≡ all_match f (i ∷ is) (k ∷ known)
      → (compare_fills f (i ∷ is) (e ∷ es)).result ≡ (compare_fills f (i ∷ is) (k ∷ known)).result
  unfolding compare_fills
  result_of_match i k e is known es same = elim (Bool-cases (all_match f (i ∷ is) (k ∷ known))) [
    | inl y ↦ rw (same, y) refl
    | inr y ↦ rw (same, y) refl
  ]

  compare_fills-AllAgree :
      (i e : FillState F) (is es : List (FillState F))
      → ((compare_fills f (i ∷ is) (e ∷ es)).result ≡ matches) ↔ AllAgree (i ∷ is) (e ∷ es)
  unfolding compare_fills
  compare_fills-AllAgree i e is es =
      let a = all_match-AllAgree (i ∷ is) (e ∷ es) in
      elim (Bool-cases (all_match f (i ∷ is) (e ∷ es))) [
        | inl y ↦ rw y (λ h. a.0 y, λ h. refl)
        | inr y ↦ rw y (λ h. cc, λ h. absurd (ground (arith, a.1 h)))
      ]

  -- Beside the fills that the program knows of, an answer of the exchange with further fills, wherever
  -- they stand in it, gives the same result as without them; and this result is a match exactly when
  -- for each of the program's fills the last one with its id among the answer's known fills is there,
  -- and differs by at most 0.0001 in quantity and in price.
  pub extra_fills_ignored :
      {extra : List (FillState F)} (i k e : FillState F) (is known es : List (FillState F))
      → Interleaves (k ∷ known) extra (e ∷ es)
      → NoneIn (i ∷ is) extra
      → ((compare_fills f (i ∷ is) (e ∷ es)).result ≡ (compare_fills f (i ∷ is) (k ∷ known)).result)
        × (((compare_fills f (i ∷ is) (e ∷ es)).result ≡ matches) ↔ AllAgree (i ∷ is) (k ∷ known))
  extra_fills_ignored i k e is known es m n =
      let same = all_match-Interleaves (i ∷ is) m n in
      let equal = result_of_match i k e is known es same in
      (equal, rw equal (compare_fills-AllAgree i k is known))

  -- No order has the id.
  abbrev pub NoOrder : ℕ → List (OrderState F) → Type 0
  NoOrder id [] = Unit
  NoOrder id (x ∷ xs) = ((x.order_id == id) ≡ false) × NoOrder id xs

  -- None of the program's orders stands, by its id, in the other list.
  abbrev pub NoOrderIn : List (OrderState F) → List (OrderState F) → Type 0
  NoOrderIn [] others = Unit
  NoOrderIn (o ∷ os) others = NoOrder o.order_id others × NoOrderIn os others

  ext_order-Interleaves :
      {known extra all : List (OrderState F)} (id : ℕ)
      → Interleaves known extra all
      → NoOrder id extra
      → ext_order f id all ≡ ext_order f id known
  unfolding ext_order
  ext_order-Interleaves id done n = refl
  ext_order-Interleaves id (takes_left x m) n = rw (ext_order-Interleaves id m n) refl
  ext_order-Interleaves {known} id (takes_right y m) (other, n) =
      rw (ext_order-Interleaves id m n) (elim (Option-cases (ext_order f id known)) [
        | inl e ↦ rw (e, other) refl
        | inr (b, e) ↦ rw e refl
      ])

  order_items-Interleaves :
      {known extra all : List (OrderState F)} (os : List (OrderState F))
      → Interleaves known extra all
      → NoOrderIn os extra
      → order_items f all os ≡ order_items f known os
  unfolding order_items
  order_items-Interleaves [] m n = refl
  order_items-Interleaves (o ∷ os) m n =
      rw (ext_order-Interleaves o.order_id m n.0, order_items-Interleaves os m n.1) refl

  items_of-Interleaves :
      {known extra all : List (OrderState F)} (a : Adapter F) (internal : Internal F)
      (run : ReconciliationRun)
      → Interleaves known extra all
      → NoOrderIn internal.orders extra
      → items_of f (record a { get_open_orders = some all }) internal run
        ≡ items_of f (record a { get_open_orders = some known }) internal run
  unfolding items_of
  items_of-Interleaves a internal run m n = rw (order_items-Interleaves internal.orders m n) refl

  -- Open orders of the exchange that the program does not know of have no effect on a run, wherever
  -- they stand in the answer: the run stores the same items, and ends with the same status and
  -- summary, as without them.
  pub extra_orders_ignored :
      {known extra all : List (OrderState F)} (down : ℕ → Bool) (run_id now : ℕ) (a : Adapter F)
      (internal : Internal F) (s : Store F)
      → Interleaves known extra all
      → NoOrderIn internal.orders extra
      → run_checks down f run_id (record a { get_open_orders = some all }) internal now s
        ≡ run_checks down f run_id (record a { get_open_orders = some known }) internal now s
  unfolding run_checks
  extra_orders_ignored down run_id now a internal s m n =
      ap (λ items. check_run down run_id items now s)
        (fun_ext (λ run. items_of-Interleaves a internal run m n))
