-- ===== src/Trader/Kept.antt =====
-- internal/trader/watcher.go: what runs of the manager's calls keep.
use go_be_arbitrage.Prelude.{
  ℕ, ◌+◌, ◌-◌, refl, Option, none, some, List, [], ◌∷◌, arith, ◌==◌, if◌then◌else◌, Bool-cases, inl,
  inr, take,
}
use go_be_arbitrage.Trader.Watcher.{
  ConnectionState, reconnect, resync, reconcile, live, WalletSnapshot, WatcherManager, write, emit,
  call_upstream, subscribed, position_updated, state_updated, retain, subscribe, release,
  unsubscribe, set_state, connect, resynced, gate_full, on_fill, on_funding, on_order, fill_at,
  funding_at, order_at, is_live,
}
use go_be_arbitrage.Trader.References.{
  ManagerCall, subscribes, unsubscribes, retains, releases, connects, fills_gate, resyncs, fills,
  funds, orders, count, counts, run_call, run_calls, no_watchers, Fits, IsCounted, write-Fits,
  counted-Fits, dropped-Fits,
}

module _ {D P O : Type 0} where
  set_state-Fits :
      (m : WatcherManager D P O) (p x : ℕ) (to : ConnectionState) (o : Option ℕ) (n : ℕ × ℕ)
      → Fits m.heap m.next x o n
      → Fits (set_state p to m).heap (set_state p to m).next x o n
  unfolding set_state
  set_state-Fits m p x to o n =
      write-Fits m p x (record (m.heap p) { state = to }) o n (refl, refl, refl, refl)

  connect-Fits :
      (m : WatcherManager D P O) (p x : ℕ) (o : Option ℕ) (n : ℕ × ℕ)
      → Fits m.heap m.next x o n
      → Fits (connect p m).heap (connect p m).next x o n
  unfolding connect
  connect-Fits m p x o n h =
      set_state-Fits (call_upstream (subscribed (m.heap p).addr) (set_state p reconnect m)) p x
        resync o n (set_state-Fits m p x reconnect o n h)

  resynced-Fits :
      (m : WatcherManager D P O) (p x : ℕ) (snap : WalletSnapshot D P O) (o : Option ℕ) (n : ℕ × ℕ)
      → Fits m.heap m.next x o n
      → Fits (resynced p snap m).heap (resynced p snap m).next x o n
  unfolding resynced
  resynced-Fits m p x snap o n h =
      let wallet = (m.heap p).addr in
      let m1 =
        emit wallet (position_updated resync) (write p (record (m.heap p) { snapshot = snap }) m) in
      set_state-Fits (emit wallet (state_updated reconcile) (set_state p reconcile m1)) p x live o n
        (set_state-Fits m1 p x reconcile o n
          (write-Fits m p x (record (m.heap p) { snapshot = snap }) o n (refl, refl, refl, refl) h))

  fill_at-IsCounted :
      (y : ℕ) (d : D) (o : Option ℕ) (m : WatcherManager D P O) (n : ℕ → ℕ × ℕ)
      → IsCounted m n
      → IsCounted (fill_at y d o m) n
  fill_at-IsCounted y d none m n h = h
  fill_at-IsCounted y d (some p) m n h = λ x.
      let w = m.heap p in
      let s = record w.snapshot { fills = take 500 (d ∷ w.snapshot.fills) } in
      let kept =
        write-Fits m p x (record w { snapshot = s }) (m.watchers x) (n x) (refl, refl, refl, refl)
          (h x) in
      elim (Bool-cases (is_live w.state)) [ inl e ↦ rw e kept | inr e ↦ rw e kept ]

  funding_at-IsCounted :
      (y : ℕ) (d : P) (o : Option ℕ) (m : WatcherManager D P O) (n : ℕ → ℕ × ℕ)
      → IsCounted m n
      → IsCounted (funding_at y d o m) n
  funding_at-IsCounted y d none m n h = h
  funding_at-IsCounted y d (some p) m n h = λ x.
      let w = m.heap p in
      let s = record w.snapshot { fundings = take 500 (d ∷ w.snapshot.fundings) } in
      write-Fits m p x (record w { snapshot = s }) (m.watchers x) (n x) (refl, refl, refl, refl)
        (h x)

  order_at-IsCounted :
      (y oid : ℕ) (d : O) (o : Option ℕ) (m : WatcherManager D P O) (n : ℕ → ℕ × ℕ)
      → IsCounted m n
      → IsCounted (order_at y oid d o m) n
  order_at-IsCounted y oid d none m n h = h
  order_at-IsCounted y oid d (some p) m n h = λ x.
      let w = m.heap p in
      let s = record w.snapshot {
        orders = λ k. if k == oid then some d else w.snapshot.orders k;
      } in
      write-Fits m p x (record w { snapshot = s }) (m.watchers x) (n x) (refl, refl, refl, refl)
        (h x)

  run_call-IsCounted :
      (c : ManagerCall D P O) (m : WatcherManager D P O) (n : ℕ → ℕ × ℕ)
      → IsCounted m n
      → IsCounted (run_call c m) (λ x. count x c (n x))
  unfolding run_call subscribe unsubscribe retain release gate_full on_fill on_funding on_order
  run_call-IsCounted (subscribes y) m n h =
      counted-Fits (λ w. record w { browser_refs = w.browser_refs + 1 }) (λ i. i + 1) (λ i. i) y
        (m.watchers y) m n (λ w. (refl, refl, refl, refl)) (λ i j. omega arith) refl h
  run_call-IsCounted (retains y) m n h =
      counted-Fits (λ w. record w { retained = w.retained + 1 }) (λ i. i) (λ i. i + 1) y
        (m.watchers y) m n (λ w. (refl, refl, refl, refl)) (λ i j. omega arith) refl h
  run_call-IsCounted (unsubscribes y) m n h =
      dropped-Fits (λ w. record w { browser_refs = w.browser_refs - 1 }) (λ i. i - 1) (λ i. i) y
        (m.watchers y) m n (λ w. (refl, refl, refl, refl)) refl refl refl h
  run_call-IsCounted (releases y) m n h =
      dropped-Fits (λ w. record w { retained = w.retained - 1 }) (λ i. i) (λ i. i - 1) y
        (m.watchers y) m n (λ w. (refl, refl, refl, refl)) refl refl refl h
  run_call-IsCounted (connects p) m n h = λ x. connect-Fits m p x (m.watchers x) (n x) (h x)
  run_call-IsCounted (fills_gate p) m n h =
      λ x. set_state-Fits m p x reconnect (m.watchers x) (n x) (h x)
  run_call-IsCounted (resyncs p s) m n h = λ x. resynced-Fits m p x s (m.watchers x) (n x) (h x)
  run_call-IsCounted (fills y d) m n h = fill_at-IsCounted y d (m.watchers y) m n h
  run_call-IsCounted (funds y d) m n h = funding_at-IsCounted y d (m.watchers y) m n h
  run_call-IsCounted (orders y oid d) m n h = order_at-IsCounted y oid d (m.watchers y) m n h

  run_calls-kept :
      (cs : List (ManagerCall D P O)) (m : WatcherManager D P O) (n : ℕ → ℕ × ℕ)
      → IsCounted m n
      → IsCounted (run_calls cs m) (λ x. counts x cs (n x))
  unfolding run_calls counts
  run_calls-kept [] m n h = h
  run_calls-kept (c ∷ cs) m n h =
      run_calls-kept cs (run_call c m) (λ x. count x c (n x)) (run_call-IsCounted c m n h)

  -- Through any calls on a new manager, in any order of their steps: a wallet has a watcher exactly
  -- while it has a browser or another subscriber, and the watcher in the map is its own, has been
  -- bootstrapped, and counts them.
  pub run_calls-IsCounted :
      (cs : List (ManagerCall D P O))
      → IsCounted (run_calls cs no_watchers) (λ x. counts x cs (0, 0))
  run_calls-IsCounted cs = run_calls-kept cs no_watchers (λ x. (0, 0)) (λ x. (refl, refl))
