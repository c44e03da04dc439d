-- ===== src/Trader/Room.antt =====
-- internal/trader/reconstruct.go: what each branch of a fill makes of the position and the cycle of its
-- market, while the quantities stay small enough not to be rounded.
use go_be_arbitrage.Prelude.{
  ℕ, ◌+◌, ◌≤◌, ◌≡◌, ◌≢◌, true, false, Option, none, some, arith, if◌then◌else◌, Bool-cases, inl,
  inr, ◌⊎◌,
}
use go_be_arbitrage.Floats.{Float}
use go_be_arbitrage.Trader.Model.{Fill, CompletedTrade}
use go_be_arbitrage.Trader.Reconstruct.{
  Cycle, adds, reduces, trade_of, touched, signed, abs_f, add_close, add_open, new_cycle, zero_f,
  avg_price, cycle_size,
}
use go_be_arbitrage.Trader.Exact.{
  IsExact, AtMost, size, abs_number, IsLess, IsPositive, IsNegative, IsNonnegative, Moved,
  abs_parts, positive_iff, zero_iff,
}

-- A trade has its entry price, its exit price and its size.
pub record IsWhole {F : Type 0} (t : CompletedTrade F) : Type 0 where
  pub has_entry : t.entry_price ≢ none
  pub has_exit : t.exit_price ≢ none
  pub has_size : t.size ≢ none

module _ {F : Type 0} (f : Float F) (exact : IsExact f) where
  -- The position p is what the cycle opened less what it closed, with the cycle's sign.
  abbrev pub Holds : Cycle F → F → Type 0
  Holds c p =
      IsNonnegative f exact c.close_qty
      × (((c.long ≡ true) × IsPositive f exact p × IsLess f exact p c.open_qty c.close_qty)
          ⊎ ((c.long ≡ false) × IsNegative f exact p × IsLess f exact p c.close_qty c.open_qty))

  -- A market without a cycle is flat, and one with a cycle holds its position.
  abbrev pub Balanced : Option (Cycle F) → F → Type 0
  Balanced none p = exact.up p ≡ exact.down p
  Balanced (some c) p = Holds c p

  -- The numbers of a market are exact and at most u in size.
  abbrev pub Room : ℕ → Option (Cycle F) → F → Type 0
  Room u none p = exact.number p × AtMost f exact u p
  Room u (some c) p =
      exact.number p
      × AtMost f exact u p
      × exact.number c.open_qty
      × exact.number c.close_qty
      × AtMost f exact u c.open_qty
      × AtMost f exact u c.close_qty

  abbrev pub Fine : ℕ → Option (Cycle F) → F → Type 0
  Fine u o p = Balanced o p × Room u o p

  pub Fine_more : (u v : ℕ) (o : Option (Cycle F)) (p : F) → u ≤ v → Fine u o p → Fine v o p
  Fine_more u v none p le (b, r) = (b, ground arith)
  Fine_more u v (some c) p le (b, (np, a, nopen, nc, ao, ac)) =
      (b, (np, ground arith, nopen, nc, ground arith, ground arith))

  signed_number : (x : Fill F) → exact.number x.quantity → exact.number (signed f x)
  signed_number x n = elim (Bool-cases x.buy) [
    | inl e ↦ rw e n
    | inr e ↦ rw e (exact.neg_number x.quantity n)
  ]

  -- The size of a fill's quantity is the size of its signed quantity.
  signed_parts :
      (x : Fill F)
      → exact.number x.quantity
      → let q = abs_f f x.quantity in
        let d = signed f x in
        (exact.up q + exact.down d ≡ exact.down q + exact.up d) × (exact.down d ≤ exact.up d)
        ⊎ (exact.up q + exact.up d ≡ exact.down q + exact.down d) × (exact.up d ≤ exact.down d)
  signed_parts x n = ground (arith, abs_parts f exact x.quantity n, exact.neg_parts x.quantity n)

  -- The position after a fill, with the fill's size added to the room.
  pub moved :
      (x : Fill F) (u : ℕ) (p : F)
      → exact.number x.quantity
      → exact.number p
      → AtMost f exact u p
      → u + size f exact x.quantity ≤ exact.bound
      → let q = f.add p (signed f x) in
        exact.number q
        × AtMost f exact (u + size f exact x.quantity) q
        × (exact.up q + exact.down p + exact.down (signed f x)
            ≡ exact.down q + exact.up p + exact.up (signed f x))
  moved x u p n np a le =
      let d = signed f x in
      let part = signed_parts x n in
      let abs = abs_parts f exact x.quantity n in
      let (nq, eq) = exact.add_exact p d np (signed_number x n) (ground arith) (ground arith) in
      (nq, ground arith, eq)

  -- What is added to a cycle's quantity, within the room.
  enlarged :
      (u v : ℕ) (c a : F)
      → exact.number c
      → exact.number a
      → AtMost f exact u c
      → AtMost f exact v a
      → u + v ≤ exact.bound
      → exact.number (f.add c a)
        × AtMost f exact (u + v) (f.add c a)
        × (exact.up (f.add c a) + exact.down c + exact.down a
            ≡ exact.down (f.add c a) + exact.up c + exact.up a)
  enlarged u v c a nc na bc ba le =
      let (n, eq) = exact.add_exact c a nc na (omega arith) (omega arith) in (n, omega arith, eq)

  pub crossed-Fine :
      (at u : ℕ) (notional q : F)
      → exact.number q
      → AtMost f exact u q
      → u ≤ exact.bound
      → Fine u
          (if f.eq q (zero_f f)
            then none
            else some (add_open f (abs_f f q) notional (new_cycle f (f.lt (zero_f f) q) at)))
          q
  crossed-Fine at u notional q n a le =
      let size_of = abs_parts f exact q n in
      let z = zero_iff f exact q n in
      let (nopen, bo, eo) =
        enlarged 0 u (zero_f f) (abs_f f q) exact.zero_number (abs_number f exact q n)
          (ground (arith, exact.zero_parts)) (ground arith) (omega arith) in
      elim (Bool-cases (f.eq q (zero_f f))) [
        | inl e ↦ rw e (ground arith, (n, a))
        | inr e ↦ rw e (
          ground (arith, positive_iff f exact q n, exact.zero_parts),
          (n, a, nopen, exact.zero_number, ground arith, ground (arith, exact.zero_parts)),
        )
      ]

  pub closed-IsWhole :
      (m at u : ℕ) (c : Cycle F) (p notional : F)
      → Fine u (some c) p
      → u ≤ exact.bound
      → IsWhole (trade_of f m (add_close f (abs_f f p) notional c) at)
  unfolding trade_of avg_price cycle_size
  closed-IsWhole m at u c p notional (h, (np, a, nopen, nc, ao, ac)) le =
      let closed = f.add c.close_qty (abs_f f p) in
      let abs = abs_parts f exact p np in
      let (nk, ek) =
        exact.add_exact c.close_qty (abs_f f p) nc (abs_number f exact p np) (ground arith)
          (ground arith) in
      record {
        has_entry = ground (arith, zero_iff f exact c.open_qty nopen);
        has_exit = ground (arith, zero_iff f exact closed nk);
        has_size = ground (arith, positive_iff f exact c.open_qty nopen);
      }

  pub opened-Fine :
      (x : Fill F) (u : ℕ) (p notional : F)
      → exact.number x.quantity
      → exact.up p ≡ exact.down p
      → exact.number p
      → AtMost f exact u p
      → u + size f exact x.quantity ≤ exact.bound
      → f.eq x.quantity (zero_f f) ≡ false
      → Fine
          (u + size f exact x.quantity)
          (some (
            add_open f
              (abs_f f x.quantity)
              notional
              (touched f x (new_cycle f (f.lt (zero_f f) (signed f x)) x.filled_at))))
          (f.add p (signed f x))
  opened-Fine x u p notional n flat np a le nonzero =
      let (nq, bq, eq) = moved x u p n np a le in
      let part = signed_parts x n in
      let abs = abs_parts f exact x.quantity n in
      let (nopen, bo, eo) =
        enlarged 0 (size f exact x.quantity) (zero_f f) (abs_f f x.quantity) exact.zero_number
          (abs_number f exact x.quantity n) (ground (arith, exact.zero_parts)) (ground arith)
          (omega arith) in
      (
        ground (
          arith,
          zero_iff f exact x.quantity n,
          positive_iff f exact (signed f x) (signed_number x n),
          exact.zero_parts,
        ),
        (nq, bq, nopen, exact.zero_number, ground arith, ground (arith, exact.zero_parts)),
      )

  pub added-Fine :
      (x : Fill F) (u : ℕ) (c : Cycle F) (p notional : F)
      → exact.number x.quantity
      → Fine u (some c) p
      → u + size f exact x.quantity ≤ exact.bound
      → Moved f exact adds p (f.add p (signed f x))
      → Fine
          (u + size f exact x.quantity)
          (some (add_open f (abs_f f x.quantity) notional c))
          (f.add p (signed f x))
  added-Fine x u c p notional n (h, (np, a, nopen, nc, ao, ac)) le v =
      let (nq, bq, eq) = moved x u p n np a le in
      let part = signed_parts x n in
      let abs = abs_parts f exact x.quantity n in
      let (nk, bk, ek) =
        enlarged u (size f exact x.quantity) c.open_qty (abs_f f x.quantity) nopen
          (abs_number f exact x.quantity n) ao (ground arith) le in
      (ground arith, (nq, bq, nk, nc, bk, ground arith))

  pub reduced-Fine :
      (x : Fill F) (u : ℕ) (c : Cycle F) (p notional : F)
      → exact.number x.quantity
      → Fine u (some c) p
      → u + size f exact x.quantity ≤ exact.bound
      → Moved f exact reduces p (f.add p (signed f x))
      → Fine
          (u + size f exact x.quantity)
          (some (add_close f (abs_f f x.quantity) notional c))
          (f.add p (signed f x))
  reduced-Fine x u c p notional n (h, (np, a, nopen, nc, ao, ac)) le v =
      let (nq, bq, eq) = moved x u p n np a le in
      let part = signed_parts x n in
      let abs = abs_parts f exact x.quantity n in
      let (nk, bk, ek) =
        enlarged u (size f exact x.quantity) c.close_qty (abs_f f x.quantity) nc
          (abs_number f exact x.quantity n) ac (ground arith) le in
      (ground arith, (nq, bq, nopen, nk, ground arith, bk))
