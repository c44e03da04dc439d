-- ===== src/Trader/Watcher.antt =====
-- internal/trader/watcher.go: the watchers of wallets. A wallet is its lowercased address, a number; a
-- pointer to a watcher is a number into `heap`, so that a bootstrap keeps its watcher when the map has
-- dropped it. `D`, `P` and `O` are the types of a fill, a funding payment and an order. Each section
-- under the locks is one step; a bootstrap is two: up to RESYNC, and from the answer of the venue on.
use go_be_arbitrage.Prelude.{
  ℕ, ◌+◌, ◌-◌, Bool, true, false, ◌&&◌, not, Option, none, some, List, [], ◌∷◌, ◌++◌, take, ◌==◌,
  if◌then◌else◌,
}

pub data ConnectionState : Type 0 where
  disconnected reconnect resync reconcile live : ConnectionState

pub record WalletSnapshot (D P O : Type 0) : Type 0 where
  pub fills : List D
  pub fundings : List P
  pub orders : ℕ → Option O

pub record WalletWatcher (D P O : Type 0) : Type 0 where
  pub addr : ℕ
  pub browser_refs : ℕ
  pub retained : ℕ
  pub bootstrapped : Bool
  pub state : ConnectionState
  pub snapshot : WalletSnapshot D P O

-- The envelopes that are sent to the browsers of a wallet.
pub data WalletEvent (D P O : Type 0) : Type 0 where
  connection_updated : ConnectionState → ConnectionState → WalletEvent D P O
  position_updated : ConnectionState → WalletEvent D P O
  state_updated : ConnectionState → WalletEvent D P O
  fill_created : D → ConnectionState → WalletEvent D P O
  funding_created : P → ConnectionState → WalletEvent D P O
  order_created : O → ConnectionState → WalletEvent D P O
  order_updated : O → ConnectionState → WalletEvent D P O

-- The calls of the upstream feed.
pub data Upstream : Type 0 where
  subscribed unsubscribed : ℕ → Upstream

pub record WatcherManager (D P O : Type 0) : Type 0 where
  pub heap : ℕ → WalletWatcher D P O
  pub next : ℕ
  pub watchers : ℕ → Option ℕ
  pub log : List (ℕ × WalletEvent D P O)
  pub upstream : List Upstream

abbrev pub is_live : ConnectionState → Bool
is_live live = true
is_live _ = false

module _ {D P O : Type 0} where
  abbrev pub no_snapshot : WalletSnapshot D P O
  no_snapshot = record { fills = []; fundings = []; orders = λ k. none }

  abbrev pub new_watcher : ℕ → WalletWatcher D P O
  new_watcher wallet = record {
    addr = wallet;
    browser_refs = 0;
    retained = 0;
    bootstrapped = false;
    state = disconnected;
    snapshot = no_snapshot;
  }

  -- A write through a pointer.
  abbrev pub write : ℕ → WalletWatcher D P O → WatcherManager D P O → WatcherManager D P O
  write p w m = record m { heap = λ q. if q == p then w else m.heap q }

  abbrev pub emit : ℕ → WalletEvent D P O → WatcherManager D P O → WatcherManager D P O
  emit wallet e m = record m { log = m.log ++ (wallet, e) ∷ [] }

  abbrev pub call_upstream : Upstream → WatcherManager D P O → WatcherManager D P O
  call_upstream u m = record m { upstream = m.upstream ++ u ∷ [] }

  abbrev pub held :
      (WalletWatcher D P O → WalletWatcher D P O) → WalletWatcher D P O → WalletWatcher D P O
  held g w = record (g w) { bootstrapped = true }

  abbrev pub counted :
      (WalletWatcher D P O → WalletWatcher D P O)
      → ℕ
      → Option ℕ
      → WatcherManager D P O
      → WatcherManager D P O
  counted g wallet (some p) m = write p (held g (m.heap p)) m
  counted g wallet none m = record (write m.next (held g (new_watcher wallet)) m) {
    watchers = λ k. if k == wallet then some m.next else m.watchers k;
    next = m.next + 1;
  }

  -- Whether the caller goes on with a bootstrap.
  abbrev pub fresh_at : Option ℕ → WatcherManager D P O → Bool
  fresh_at none m = true
  fresh_at (some p) m = not (m.heap p).bootstrapped

  unfoldable pub retain : ℕ → WatcherManager D P O → Bool × WatcherManager D P O
  retain wallet m = (
    fresh_at (m.watchers wallet) m,
    counted (λ w. record w { retained = w.retained + 1 }) wallet (m.watchers wallet) m,
  )

  unfoldable pub subscribe : ℕ → WatcherManager D P O → Bool × WatcherManager D P O
  subscribe wallet m = (
    fresh_at (m.watchers wallet) m,
    counted (λ w. record w { browser_refs = w.browser_refs + 1 }) wallet (m.watchers wallet) m,
  )

  abbrev pub dropped :
      (WalletWatcher D P O → WalletWatcher D P O)
      → ℕ
      → Option ℕ
      → WatcherManager D P O
      → WatcherManager D P O
  dropped g wallet none m = m
  dropped g wallet (some p) m =
      let w = g (m.heap p) in
      let m' = write p w m in
      if (w.browser_refs == 0) && (w.retained == 0)
      then call_upstream (unsubscribed wallet)
          (record m' { watchers = λ k. if k == wallet then none else m.watchers k })
      else m'

  unfoldable pub release : ℕ → WatcherManager D P O → WatcherManager D P O
  release wallet m =
      dropped (λ w. record w { retained = w.retained - 1 }) wallet (m.watchers wallet) m

  unfoldable pub unsubscribe : ℕ → WatcherManager D P O → WatcherManager D P O
  unsubscribe wallet m =
      dropped (λ w. record w { browser_refs = w.browser_refs - 1 }) wallet (m.watchers wallet) m

  unfoldable pub set_state : ℕ → ConnectionState → WatcherManager D P O → WatcherManager D P O
  set_state p to m =
      let w = m.heap p in
      emit w.addr (connection_updated w.state to) (write p (record w { state = to }) m)

  -- The first half of `bootstrap`, and of `Reconnect`.
  unfoldable pub connect : ℕ → WatcherManager D P O → WatcherManager D P O
  unfolding set_state
  connect p m =
      set_state p resync (call_upstream (subscribed (m.heap p).addr) (set_state p reconnect m))

  -- The second half, under the gate, with the snapshot that the venue answers.
  unfoldable pub resynced : ℕ → WalletSnapshot D P O → WatcherManager D P O → WatcherManager D P O
  unfolding set_state
  resynced p snap m =
      let wallet = (m.heap p).addr in
      let m1 = write p (record (m.heap p) { snapshot = snap }) m in
      let m2 = set_state p reconcile (emit wallet (position_updated resync) m1) in
      set_state p live (emit wallet (state_updated reconcile) m2)

  -- The second half where the gate is full.
  unfoldable pub gate_full : ℕ → WatcherManager D P O → WatcherManager D P O
  unfolding set_state
  gate_full p m = set_state p reconnect m

  abbrev pub fill_at : ℕ → D → Option ℕ → WatcherManager D P O → WatcherManager D P O
  fill_at wallet x none m = m
  fill_at wallet x (some p) m =
      let w = m.heap p in
      let s = record w.snapshot { fills = take 500 (x ∷ w.snapshot.fills) } in
      let m1 = emit wallet (fill_created x w.state) (write p (record w { snapshot = s }) m) in
      if is_live w.state then emit wallet (state_updated live) m1 else m1

  unfoldable pub on_fill : ℕ → D → WatcherManager D P O → WatcherManager D P O
  on_fill wallet x m = fill_at wallet x (m.watchers wallet) m

  abbrev pub funding_at : ℕ → P → Option ℕ → WatcherManager D P O → WatcherManager D P O
  funding_at wallet x none m = m
  funding_at wallet x (some p) m =
      let w = m.heap p in
      let s = record w.snapshot { fundings = take 500 (x ∷ w.snapshot.fundings) } in
      emit wallet (funding_created x w.state) (write p (record w { snapshot = s }) m)

  unfoldable pub on_funding : ℕ → P → WatcherManager D P O → WatcherManager D P O
  on_funding wallet x m = funding_at wallet x (m.watchers wallet) m

  abbrev pub order_event : Option O → O → ConnectionState → WalletEvent D P O
  order_event none o st = order_created o st
  order_event (some old) o st = order_updated o st

  abbrev pub order_at : ℕ → ℕ → O → Option ℕ → WatcherManager D P O → WatcherManager D P O
  order_at wallet oid o none m = m
  order_at wallet oid o (some p) m =
      let w = m.heap p in
      let s = w.snapshot in
      let s' = record s { orders = λ k. if k == oid then some o else s.orders k } in
      emit wallet (order_event (s.orders oid) o w.state) (write p (record w { snapshot = s' }) m)

  -- `oid` is the id of the order.
  unfoldable pub on_order : ℕ → ℕ → O → WatcherManager D P O → WatcherManager D P O
  on_order wallet oid o m = order_at wallet oid o (m.watchers wallet) m
