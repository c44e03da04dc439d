-- ===== src/Trader/Balance.antt =====
-- internal/trader/reconstruct.go: a cycle holds its market's position, while no quantity is rounded.
use go_be_arbitrage.Prelude.{
  ℕ, ◌+◌, ◌≤◌, ◌≡◌, ◌≢◌, refl, Bool, false, Option, none, some, List, [], ◌∷◌, ◌++◌, arith, ◌==◌,
  Bool-cases, inl, inr, All, All-append,
}
use go_be_arbitrage.Floats.{Float}
use go_be_arbitrage.Trader.Model.{Fill, CompletedTrade}
use go_be_arbitrage.Trader.Reconstruct.{
  Cycle, Books, Move, crosses, opens, adds, reduces, move, settle, touched, cycle_or, signed,
  assign, abs_f, new_cycle, zero_f, apply_fill, apply_fills, no_books, reconstruct_trades,
  before_of,
}
use go_be_arbitrage.Trader.Exact.{IsExact, AtMost, size, Moved, zero_iff, move-Moved}
use go_be_arbitrage.Trader.Room.{
  IsWhole, Balanced, Fine, Fine_more, moved, crossed-Fine, closed-IsWhole, opened-Fine, added-Fine,
  reduced-Fine,
}

module _ {F : Type 0} (f : Float F) (exact : IsExact f) where
  -- At every market the open cycle holds the position, and every trade is whole.
  pub record IsBalanced (s : Books F) : Type 0 where
    pub holds : (m : ℕ) → Balanced f exact (s.open_cycles m) (s.pos m)
    pub whole : All (λ t. IsWhole t) s.out

  abbrev fresh_cycle : Fill F → Cycle F
  fresh_cycle x = new_cycle f (f.lt (zero_f f) (signed f x)) x.filled_at

  held :
      (x : Fill F) (u : ℕ) (o : Option (Cycle F)) (p : F)
      → Fine f exact u o p
      → exact.up p ≢ exact.down p
      → Fine f exact u (some (touched f x (cycle_or (fresh_cycle x) o))) p
  held x u none p (b, r) moved = absurd (moved b)
  held x u (some c) p b moved = b

  -- The position of a market whose numbers have room.
  position_room :
      (u : ℕ) (o : Option (Cycle F)) (p : F)
      → Fine f exact u o p
      → exact.number p × AtMost f exact u p
  position_room u none p (b, (n, a)) = (n, a)
  position_room u (some c) p (b, r) = (r.0, r.1)

  flat_market :
      (o : Option (Cycle F)) (p : F) → Balanced f exact o p → exact.up p ≡ exact.down p → o ≡ none
  flat_market none p b flat = refl
  flat_market (some c) p b flat = absurd (ground arith)

  -- What a branch makes of the cycle of the fill's market, and of the trades.
  abbrev Settled : ℕ → Fill F → F → Books F → Books F → Type 0
  Settled u x q s t =
      ((o : Option (Cycle F)) × (t.open_cycles ≡ assign x.market o s.open_cycles)
        × Fine f exact u o q)
      × All (λ t. IsWhole t) t.out

  snoc-IsWhole :
      (ts : List (CompletedTrade F)) (t : CompletedTrade F)
      → All (λ t. IsWhole t) ts
      → IsWhole t
      → All (λ t. IsWhole t) (ts ++ t ∷ [])
  snoc-IsWhole ts t h w = All-append (λ t. IsWhole t) ts (t ∷ []) h (w, tt)

  settle-Settled :
      (v : Move) (x : Fill F) (u : ℕ) (s : Books F) (o : Option (Cycle F)) (p : F)
      → Fine f exact u o p
      → All (λ t. IsWhole t) s.out
      → exact.number x.quantity
      → u + size f exact x.quantity ≤ exact.bound
      → f.eq x.quantity (zero_f f) ≡ false
      → Moved f exact v p (f.add p (signed f x))
      → Settled
          (u + size f exact x.quantity)
          x
          (f.add p (signed f x))
          s
          (settle f v x (touched f x (cycle_or (fresh_cycle x) o)) p (f.add p (signed f x)) s)
  unfolding settle
  settle-Settled crosses x u s o p b w n le nonzero v =
      let c = touched f x (cycle_or (fresh_cycle x) o) in
      let h = held x u o p b (ground arith) in
      let (np, a) = position_room u o p b in
      let (nq, bq, eq) = moved f exact x u p n np a le in
      (
        (_, refl, crossed-Fine f exact x.filled_at _ _ (f.add p (signed f x)) nq bq le),
        snoc-IsWhole s.out _ w (
            closed-IsWhole f exact x.market x.filled_at u c p (f.mul (abs_f f p) x.price) h
              (omega arith)),
      )
  settle-Settled opens x u s o p b w n le nonzero v =
      let (np, a) = position_room u o p b in
      (
        (
          _,
          refl,
          rw (flat_market o p b.0 v)
              (opened-Fine f exact x u p (f.mul (abs_f f x.quantity) x.price) n v np a le nonzero),
        ),
        w,
      )
  settle-Settled adds x u s o p b w n le nonzero v = (
    (
      _,
      refl,
      added-Fine f exact x u (touched f x (cycle_or (fresh_cycle x) o)) p
          (f.mul (abs_f f x.quantity) x.price) n (held x u o p b (ground arith)) le v,
    ),
    w,
  )
  settle-Settled reduces x u s o p b w n le nonzero v =
      let q = f.add p (signed f x) in
      let (np, a) = position_room u o p b in
      let (nq, bq, eq) = moved f exact x u p n np a le in
      let more : f.eq q (zero_f f) ≡ false = ground (arith, zero_iff f exact q nq) in
      rw more (
        (
          _,
          refl,
          reduced-Fine f exact x u (touched f x (cycle_or (fresh_cycle x) o)) p
              (f.mul (abs_f f x.quantity) x.price) n (held x u o p b (ground arith)) le v,
        ),
        w,
      )

  -- The books while all numbers are exact and at most u in size.
  record HasRoom (u : ℕ) (s : Books F) : Type 0 where
    pub fine : (m : ℕ) → Fine f exact u (s.open_cycles m) (s.pos m)
    pub whole : All (λ t. IsWhole t) s.out

  assign-Fine :
      (k m u : ℕ) (o : Option (Cycle F)) (q : F) (os : ℕ → Option (Cycle F)) (ps : ℕ → F)
      → Fine f exact u o q
      → Fine f exact u (os m) (ps m)
      → Fine f exact u (assign k o os m) (assign k q ps m)
  assign-Fine k m u o q os ps h g = elim (Bool-cases (m == k)) [ inl e ↦ rw e h | inr e ↦ rw e g ]

  apply_fill-HasRoom :
      (x : Fill F) (u : ℕ) (s : Books F)
      → exact.number x.quantity
      → u + size f exact x.quantity ≤ exact.bound
      → HasRoom u s
      → HasRoom (u + size f exact x.quantity) (apply_fill f s x)
  unfolding apply_fill
  apply_fill-HasRoom x u s n le b =
      let v = u + size f exact x.quantity in
      let more =
        λ (m : ℕ). Fine_more f exact u v (s.open_cycles m) (s.pos m) (omega arith) (b.fine m) in
      elim (Bool-cases (f.eq x.quantity (zero_f f))) [
        | inl e ↦ rw e (record { fine = more; whole = b.whole })
        | inr e ↦
            let p = s.pos x.market in
            let q = f.add p (signed f x) in
            let (np, a) = position_room u (s.open_cycles x.market) p (b.fine x.market) in
            let (nq, bq, eq) = moved f exact x u p n np a le in
            let ((o, same, h), w) =
              settle-Settled (move f p q) x u s (s.open_cycles x.market) p (b.fine x.market) b.whole
                n le e (move-Moved f exact p q np nq) in
            rw e (record {
              fine = λ m. rw same (assign-Fine x.market m v o q s.open_cycles s.pos h (more m));
              whole = w;
            })
      ]

  -- All quantities are exact, and u and their sizes come to at most the bound.
  abbrev pub Fits : ℕ → List (Fill F) → Type 0
  Fits u [] = Unit
  Fits u (x ∷ xs) =
      exact.number x.quantity
      × (u + size f exact x.quantity ≤ exact.bound)
      × Fits (u + size f exact x.quantity) xs

  HasRoom-IsBalanced : (u : ℕ) (s : Books F) → HasRoom u s → IsBalanced s
  HasRoom-IsBalanced u s b = record { holds = λ m. (b.fine m).0; whole = b.whole }

  apply_fills-IsBalanced :
      (xs : List (Fill F)) (u : ℕ) (s : Books F)
      → Fits u xs
      → HasRoom u s
      → IsBalanced (apply_fills f s xs)
  unfolding apply_fills
  apply_fills-IsBalanced [] u s h b = HasRoom-IsBalanced u s b
  apply_fills-IsBalanced (x ∷ xs) u s (n, le, h) b =
      apply_fills-IsBalanced xs (u + size f exact x.quantity) (apply_fill f s x) h
        (apply_fill-HasRoom x u s n le b)

  -- Where the quantities of the fills are among the numbers on which the arithmetic is exact (of
  -- float64, the multiples of one power of two, as whole lots are), and their sizes come to at most the
  -- bound up to which sums of these are exact: after the fills, in whatever order they are sorted, a
  -- market without an open cycle is flat; an open cycle has the sign of the market's position, which is
  -- what the cycle opened less what it closed; and every completed trade has an entry price, an exit
  -- price and a size.
  pub reconstruct_trades-IsBalanced :
      (sort : (Fill F → Fill F → Bool) → List (Fill F) → List (Fill F)) (fills : List (Fill F))
      → Fits 0 (sort before_of fills)
      → IsBalanced (apply_fills f (no_books f) (sort before_of fills))
        × All (λ t. IsWhole t) (reconstruct_trades f sort fills)
  unfolding reconstruct_trades
  reconstruct_trades-IsBalanced sort fills h =
      let start : HasRoom 0 (no_books f) = record {
        fine = λ m. (
          exact.zero_parts,
          (exact.zero_number, (omega (arith, exact.zero_parts), omega (arith, exact.zero_parts))),
        );
        whole = tt;
      } in
      let b = apply_fills-IsBalanced (sort before_of fills) 0 (no_books f) h start in (b, b.whole)
