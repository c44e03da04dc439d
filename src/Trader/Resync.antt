-- ===== src/Trader/Resync.antt =====
-- internal/trader/watcher.go: what a resync makes of a watcher.
use go_be_arbitrage.Prelude.{ℕ, ◌≡◌, refl, ap, ◌∙◌, Option, none, some, [], ◌∷◌, ◌++◌, ==_iff}
use go_be_arbitrage.Trader.Watcher.{
  live, WalletSnapshot, WatcherManager, order_created, set_state, resynced, on_order, order_at,
}

module _ {D P O : Type 0} where
  resynced_watcher :
      (m : WatcherManager D P O) (p : ℕ) (snap : WalletSnapshot D P O)
      → let w = (resynced p snap m).heap p in (w.snapshot ≡ snap) × (w.state ≡ live)
  unfolding resynced set_state
  resynced_watcher m p snap = rw ((==_iff p p).1 refl) (refl, refl)

  order_created_at :
      (m : WatcherManager D P O) (p x oid : ℕ) (o : O) (s : Option ℕ)
      → s ≡ some p
      → (m.heap p).snapshot.orders oid ≡ none
      → (m.heap p).state ≡ live
      → (order_at x oid o s m).log ≡ m.log ++ (x, order_created o live) ∷ []
  order_created_at m p x oid o s there absent alive = rw (there, absent, alive) refl

  order_at-watchers :
      (m : WatcherManager D P O) (x oid : ℕ) (o : O) (s : Option ℕ)
      → (order_at x oid o s m).watchers ≡ m.watchers
  order_at-watchers m x oid o none = refl
  order_at-watchers m x oid o (some p) = refl

  resynced-watchers :
      (m : WatcherManager D P O) (p : ℕ) (snap : WalletSnapshot D P O)
      → (resynced p snap m).watchers ≡ m.watchers
  unfolding resynced set_state
  resynced-watchers m p snap = refl

  -- Where the watcher of a wallet has met an order, a resync whose answer lacks it forgets it: the
  -- watcher is LIVE with the answer as its snapshot, and the next update of the order is announced
  -- as created once more.
  pub order_created_again :
      (m : WatcherManager D P O) (p x oid : ℕ) (old new : O) (snap : WalletSnapshot D P O)
      → m.watchers x ≡ some p
      → snap.orders oid ≡ none
      → let m1 = on_order x oid old m in
        let m2 = resynced p snap m1 in
        ((m2.heap p).snapshot ≡ snap)
        × ((m2.heap p).state ≡ live)
        × ((on_order x oid new m2).log ≡ m2.log ++ (x, order_created new live) ∷ [])
  unfolding on_order
  order_created_again m p x oid old new snap there absent =
      let m1 = on_order x oid old m in
      let (s, l) = resynced_watcher m1 p snap in
      (
        s,
        l,
        order_created_at (resynced p snap m1) p x oid new ((resynced p snap m1).watchers x)
            (ap (λ t. t x)
                (resynced-watchers m1 p snap ∙ order_at-watchers m x oid old (m.watchers x))
              ∙ there)
            (ap (λ t. t.orders oid) s ∙ absent) l,
      )
