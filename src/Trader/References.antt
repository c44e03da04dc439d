-- ===== src/Trader/References.antt =====
-- internal/trader/watcher.go: who keeps a watcher.
use mathlib.Core.Path.{subst}
use go_be_arbitrage.Prelude.{
  ℕ, ◌+◌, ◌-◌, ◌≡◌, ◌≤◌, ◌<◌, refl, sym, ap, ◌∙◌, Bool, true, false, ◌&&◌, Option, none, some, List,
  [], ◌∷◌, arith, ◌==◌, ==_iff, if◌then◌else◌, Bool-cases, inl, inr,
}
use go_be_arbitrage.Trader.Watcher.{
  WalletWatcher, WalletSnapshot, WatcherManager, new_watcher, write, held, counted, dropped, retain,
  subscribe, release, unsubscribe, connect, resynced, gate_full, on_fill, on_funding, on_order,
}

-- The calls of the manager, in the order in which their steps run.
pub data ManagerCall (D P O : Type 0) : Type 0 where
  subscribes unsubscribes retains releases connects fills_gate : ℕ → ManagerCall D P O
  resyncs : ℕ → WalletSnapshot D P O → ManagerCall D P O
  fills : ℕ → D → ManagerCall D P O
  funds : ℕ → P → ManagerCall D P O
  orders : ℕ → ℕ → O → ManagerCall D P O

-- The subscribers of a wallet: browsers, and others.
abbrev pub count : {D P O : Type 0} → ℕ → ManagerCall D P O → ℕ × ℕ → ℕ × ℕ
count x (subscribes y) (b, r) = if x == y then (b + 1, r) else (b, r)
count x (unsubscribes y) (b, r) = if x == y then (b - 1, r) else (b, r)
count x (retains y) (b, r) = if x == y then (b, r + 1) else (b, r)
count x (releases y) (b, r) = if x == y then (b, r - 1) else (b, r)
count x _ (b, r) = (b, r)

unfoldable pub counts : {D P O : Type 0} → ℕ → List (ManagerCall D P O) → ℕ × ℕ → ℕ × ℕ
counts x [] n = n
counts x (c ∷ cs) n = counts x cs (count x c n)

at_self : {A : Type 0} (p : ℕ) (x y : A) → (if p == p then x else y) ≡ x
at_self p x y = rw ((==_iff p p).1 refl) refl

module _ {D P O : Type 0} where
  unfoldable pub run_call : ManagerCall D P O → WatcherManager D P O → WatcherManager D P O
  unfolding subscribe unsubscribe retain release connect resynced gate_full on_fill on_funding
      on_order
  run_call (subscribes x) m = (subscribe x m).1
  run_call (unsubscribes x) m = unsubscribe x m
  run_call (retains x) m = (retain x m).1
  run_call (releases x) m = release x m
  run_call (connects p) m = connect p m
  run_call (fills_gate p) m = gate_full p m
  run_call (resyncs p s) m = resynced p s m
  run_call (fills x d) m = on_fill x d m
  run_call (funds x p) m = on_funding x p m
  run_call (orders x oid o) m = on_order x oid o m

  unfoldable pub run_calls : List (ManagerCall D P O) → WatcherManager D P O → WatcherManager D P O
  unfolding run_call
  run_calls [] m = m
  run_calls (c ∷ cs) m = run_calls cs (run_call c m)

  abbrev pub no_watchers : WatcherManager D P O
  no_watchers = record {
    heap = λ p. new_watcher 0;
    next = 0;
    watchers = λ x. none;
    log = [];
    upstream = [];
  }

  -- A watcher is in the map exactly where the wallet has a subscriber; it is the wallet's own, has been
  -- bootstrapped, and counts the subscribers.
  abbrev pub Fits : (ℕ → WalletWatcher D P O) → ℕ → ℕ → Option ℕ → ℕ × ℕ → Type 0
  Fits heap next x none (b, r) = (b ≡ 0) × (r ≡ 0)
  Fits heap next x (some p) (b, r) =
      (p < next)
      × ((heap p).addr ≡ x)
      × ((heap p).bootstrapped ≡ true)
      × ((heap p).browser_refs ≡ b)
      × ((heap p).retained ≡ r)
      × (0 < b + r)

  -- A write that keeps what `Fits` reads.
  abbrev pub Same : WalletWatcher D P O → WalletWatcher D P O → Type 0
  Same v w =
      (w.addr ≡ v.addr)
      × (w.bootstrapped ≡ v.bootstrapped)
      × (w.browser_refs ≡ v.browser_refs)
      × (w.retained ≡ v.retained)

  Fits-Same :
      (heap heap' : ℕ → WalletWatcher D P O) (next next' x : ℕ) (o : Option ℕ) (n : ℕ × ℕ)
      → ((q : ℕ) → q < next → (heap q).addr ≡ x → Same (heap q) (heap' q))
      → next ≤ next'
      → Fits heap next x o n
      → Fits heap' next' x o n
  Fits-Same heap heap' next next' x none n same le h = h
  Fits-Same heap heap' next next' x (some p) n same le (lt, a, b, c, d, e) =
      let (a', b', c', d') = same p lt a in
      (omega (arith, lt, le), a' ∙ a, b' ∙ b, c' ∙ c, d' ∙ d, e)

  Same-write :
      (b : Bool) (v w : WalletWatcher D P O) → (b ≡ true → Same v w) → Same v (if b then w else v)
  Same-write true v w h = h refl
  Same-write false v w h = (refl, refl, refl, refl)

  -- Writes through a pointer that keep what `Fits` reads keep it.
  pub write-Fits :
      (m : WatcherManager D P O) (p x : ℕ) (w : WalletWatcher D P O) (o : Option ℕ) (n : ℕ × ℕ)
      → Same (m.heap p) w
      → Fits m.heap m.next x o n
      → Fits (write p w m).heap m.next x o n
  write-Fits m p x w o n s =
      Fits-Same m.heap (write p w m).heap m.next m.next x o n
        (λ q lt a.
          Same-write (q == p) (m.heap q) w
            (λ e. subst (λ j. Same (m.heap j) w) (sym ((==_iff q p).0 e)) s))
        (ground arith)

  -- Every wallet's watcher fits the counts.
  abbrev pub IsCounted : WatcherManager D P O → (ℕ → ℕ × ℕ) → Type 0
  IsCounted m n = (x : ℕ) → Fits m.heap m.next x (m.watchers x) (n x)

  -- What a change of a watcher makes of its counts.
  abbrev pub Alters : (WalletWatcher D P O → WalletWatcher D P O) → (ℕ → ℕ) → (ℕ → ℕ) → Type 0
  Alters g b r =
      (w : WalletWatcher D P O)
      → ((g w).addr ≡ w.addr)
        × ((g w).bootstrapped ≡ w.bootstrapped)
        × ((g w).browser_refs ≡ b w.browser_refs)
        × ((g w).retained ≡ r w.retained)

  -- Another wallet's watcher is not written.
  other_Same :
      (heap : ℕ → WalletWatcher D P O) (p q x y : ℕ) (w : WalletWatcher D P O)
      → (x == y) ≡ false
      → (heap p).addr ≡ y
      → (heap q).addr ≡ x
      → Same (heap q) (if q == p then w else heap q)
  other_Same heap p q x y w differ a b = Same-write (q == p) (heap q) w (λ e.
      let same : x ≡ y = sym b ∙ ap (λ j. (heap j).addr) ((==_iff q p).0 e) ∙ a in
      absurd (ground (arith, (==_iff x y).1 same)))

  fresh_Same :
      (heap : ℕ → WalletWatcher D P O) (p q : ℕ) (w : WalletWatcher D P O)
      → q < p
      → Same (heap q) (if q == p then w else heap q)
  fresh_Same heap p q w lt =
      Same-write (q == p) (heap q) w (λ e. absurd (omega (arith, (==_iff q p).0 e, lt)))

  pub counted-Fits :
      (g : WalletWatcher D P O → WalletWatcher D P O) (b r : ℕ → ℕ) (y : ℕ) (o : Option ℕ)
      (m : WatcherManager D P O) (n : ℕ → ℕ × ℕ)
      → Alters g b r
      → ((i j : ℕ) → 0 < b i + r j)
      → m.watchers y ≡ o
      → IsCounted m n
      → (x : ℕ)
      → let m' = counted g y o m in
        Fits m'.heap m'.next x (m'.watchers x) (if x == y then (b (n x).0, r (n x).1) else n x)
  counted-Fits g b r y none m n adds more e h x = elim (Bool-cases (x == y)) [
    | inl same ↦
        let (b0, r0) =
          subst (λ t. Fits m.heap m.next x t (n x)) (ap m.watchers ((==_iff x y).0 same) ∙ e)
            (h x) in
        let (a, z, c, d) = adds (new_watcher y) in
        rw same (
          ground arith,
          rw (at_self m.next (held g (new_watcher y)) (m.heap m.next))
              (a ∙ sym ((==_iff x y).0 same)),
          rw (at_self m.next (held g (new_watcher y)) (m.heap m.next)) refl,
          rw (at_self m.next (held g (new_watcher y)) (m.heap m.next)) (c ∙ ap b (sym b0)),
          rw (at_self m.next (held g (new_watcher y)) (m.heap m.next)) (d ∙ ap r (sym r0)),
          more (n x).0 (n x).1,
        )
    | inr other ↦ rw other (
        Fits-Same m.heap (write m.next (held g (new_watcher y)) m).heap m.next (m.next + 1) x
          (m.watchers x) (n x) (λ q lt a. fresh_Same m.heap m.next q (held g (new_watcher y)) lt)
          (ground arith) (h x))
  ]
  counted-Fits g b r y (some p) m n adds more e h x = elim (Bool-cases (x == y)) [
    | inl same ↦
        let at = ap m.watchers ((==_iff x y).0 same) ∙ e in
        let (lt, a0, c0, b0, r0, s0) = subst (λ t. Fits m.heap m.next x t (n x)) at (h x) in
        let (a, z, c, d) = adds (m.heap p) in
        rw (same, at)
          (
            lt,
            rw (at_self p (held g (m.heap p)) (m.heap p)) (a ∙ a0),
            rw (at_self p (held g (m.heap p)) (m.heap p)) refl,
            rw (at_self p (held g (m.heap p)) (m.heap p)) (c ∙ ap b b0),
            rw (at_self p (held g (m.heap p)) (m.heap p)) (d ∙ ap r r0),
            more (n x).0 (n x).1,
          )
    | inr other ↦
        let mine = subst (λ t. Fits m.heap m.next y t (n y)) e (h y) in
        rw other (
          Fits-Same m.heap (write p (held g (m.heap p)) m).heap m.next m.next x (m.watchers x) (n x)
            (λ q lt a. other_Same m.heap p q x y (held g (m.heap p)) other mine.1 a) (ground arith)
            (h x))
  ]

  pub dropped-Fits :
      (g : WalletWatcher D P O → WalletWatcher D P O) (b r : ℕ → ℕ) (y : ℕ) (o : Option ℕ)
      (m : WatcherManager D P O) (n : ℕ → ℕ × ℕ)
      → Alters g b r
      → b 0 ≡ 0
      → r 0 ≡ 0
      → m.watchers y ≡ o
      → IsCounted m n
      → (x : ℕ)
      → let m' = dropped g y o m in
        Fits m'.heap m'.next x (m'.watchers x) (if x == y then (b (n x).0, r (n x).1) else n x)
  dropped-Fits g b r y none m n takes zb zr e h x = elim (Bool-cases (x == y)) [
    | inl same ↦
        let at = ap m.watchers ((==_iff x y).0 same) ∙ e in
        let (b0, r0) = subst (λ t. Fits m.heap m.next x t (n x)) at (h x) in
        rw (same, at) (ap b b0 ∙ zb, ap r r0 ∙ zr)
    | inr other ↦ rw other (h x)
  ]
  dropped-Fits g b r y (some p) m n takes zb zr e h x =
      let w = g (m.heap p) in
      let (a, c, d, k) = takes (m.heap p) in
      let mine = subst (λ t. Fits m.heap m.next y t (n y)) e (h y) in
      elim (Bool-cases (x == y)) [
        | inl same ↦
            let at = ap m.watchers ((==_iff x y).0 same) ∙ e in
            let (lt, a0, c0, b0, r0, s0) = subst (λ t. Fits m.heap m.next x t (n x)) at (h x) in
            let browsers = d ∙ ap b b0 in
            let others = k ∙ ap r r0 in
            elim (Bool-cases ((w.browser_refs == 0) && (w.retained == 0))) [
              | inl gone ↦ rw (gone, same) (ground arith, ground arith)
              | inr stays ↦
                  rw (stays, same, at)
                    (
                      lt,
                      rw (at_self p w (m.heap p)) (a ∙ a0),
                      rw (at_self p w (m.heap p)) (c ∙ c0),
                      rw (at_self p w (m.heap p)) browsers,
                      rw (at_self p w (m.heap p)) others,
                      ground arith,
                    )
            ]
        | inr other ↦
            let rest =
              Fits-Same m.heap (write p w m).heap m.next m.next x (m.watchers x) (n x)
                (λ q lt a. other_Same m.heap p q x y w other mine.1 a) (ground arith) (h x) in
            elim (Bool-cases ((w.browser_refs == 0) && (w.retained == 0))) [
              | inl gone ↦ rw (gone, other) rest
              | inr stays ↦ rw (stays, other) rest
            ]
      ]
