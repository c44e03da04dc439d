-- ===== src/Market/Follows.antt =====
-- internal/market/subscription.go: what each call does to the maps at one id.
use mathlib.Core.Path.{subst}
use go_be_arbitrage.Prelude.{
  ℕ, ◌≡◌, refl, sym, ◌∙◌, Bool, true, false, ◌&&◌, Option, none, some, arith, ◌==◌, ==_iff,
}
use go_be_arbitrage.Market.Subscriptions.{
  SubscriptionStatus, unsubscribed, failed, Subscription, Index, SubscriptionManager,
  new_subscription, set_id, put, set_ids, subscribe, status_set, update_status, error_set,
  update_error, unsubscribe_at, unsubscribe, remove_at, remove_subscription,
}
use go_be_arbitrage.Market.Entries.{Entry, entry_status, entry_error, entry_unsubscribed}

-- The maps hold what the entry says.
abbrev pub Follows : SubscriptionManager → ℕ → Entry → Type 0
Follows m x none =
    (m.subscriptions x ≡ none)
    × ((k : ℕ) → m.venue_subs k x ≡ false)
    × ((k : ℕ) → m.instrument_subs k x ≡ false)
    × ((k : ℕ) → m.channel_subs k x ≡ false)
Follows m x (some (s, l)) =
    (m.subscriptions x ≡ some s)
    × ((k : ℕ) → m.venue_subs k x ≡ (k == s.venue_id) && l)
    × ((k : ℕ) → m.instrument_subs k x ≡ (k == s.instrument_id) && l)
    × ((k : ℕ) → m.channel_subs k x ≡ (k == s.channel) && l)

abbrev pub Same : SubscriptionManager → SubscriptionManager → ℕ → Type 0
Same m m' x =
    (m'.subscriptions x ≡ m.subscriptions x)
    × ((k : ℕ) → m'.venue_subs k x ≡ m.venue_subs k x)
    × ((k : ℕ) → m'.instrument_subs k x ≡ m.instrument_subs k x)
    × ((k : ℕ) → m'.channel_subs k x ≡ m.channel_subs k x)

pub Follows-Same :
    (m m' : SubscriptionManager) (x : ℕ) (e : Entry) → Same m m' x → Follows m x e → Follows m' x e
Follows-Same m m' x none (a, b, c, d) (h, v, i, w) =
    (a ∙ h, (λ k. b k ∙ v k), (λ k. c k ∙ i k), (λ k. d k ∙ w k))
Follows-Same m m' x (some (s, l)) (a, b, c, d) (h, v, i, w) =
    (a ∙ h, (λ k. b k ∙ v k), (λ k. c k ∙ i k), (λ k. d k ∙ w k))

-- A write at another id.
pub set_id_other :
    (b : Bool) (key id x k : ℕ) (index : Index)
    → (x == id) ≡ false
    → set_id b key id index k x ≡ index k x
set_id_other b key id x k index h = ground arith

pub set_ids-Same :
    (b : Bool) (id x : ℕ) (s : Subscription) (o : Option Subscription) (m : SubscriptionManager)
    → (x == id) ≡ false
    → Same m (set_ids b id s (record m { subscriptions = put id o m.subscriptions })) x
set_ids-Same b id x s o m h = (
  rw h refl,
  (λ k. set_id_other b s.venue_id id x k m.venue_subs h),
  (λ k. set_id_other b s.instrument_id id x k m.instrument_subs h),
  (λ k. set_id_other b s.channel id x k m.channel_subs h),
)

-- A write at the id itself, whose index has what the subscription says.
pub set_id_here :
    (b l : Bool) (key id k : ℕ) (index : Index)
    → index k id ≡ (k == key) && l
    → set_id b key id index k id ≡ (k == key) && b
set_id_here b l key id k index h = rw ((==_iff id id).1 refl) (ground arith)

pub set_id_first :
    (key id k : ℕ) (index : Index)
    → index k id ≡ false
    → set_id true key id index k id ≡ (k == key) && true
set_id_first key id k index h = rw ((==_iff id id).1 refl) (ground arith)

pub set_id_gone :
    (l : Bool) (key id k : ℕ) (index : Index)
    → index k id ≡ (k == key) && l
    → set_id false key id index k id ≡ false
set_id_gone l key id k index h = rw ((==_iff id id).1 refl) (ground arith)

pub put_here :
    (id : ℕ) (o : Option Subscription) (subs : ℕ → Option Subscription) → put id o subs id ≡ o
put_here id o subs = rw ((==_iff id id).1 refl) refl

-- The calls at their own id.
pub subscribe-Follows :
    (id v i c n : ℕ) (m : SubscriptionManager) (e : Entry)
    → m.subscriptions id ≡ none
    → Follows m id e
    → Follows (subscribe id v i c n m) id (some (new_subscription v i c n, true))
unfolding subscribe
subscribe-Follows id v i c n m none free (h, a, b, d) = (
  put_here id (some (new_subscription v i c n)) m.subscriptions,
  (λ k. set_id_first v id k m.venue_subs (a k)),
  (λ k. set_id_first i id k m.instrument_subs (b k)),
  (λ k. set_id_first c id k m.channel_subs (d k)),
)
subscribe-Follows id v i c n m (some (s, l)) free (h, a, b, d) = cc

pub status-Follows :
    (st : SubscriptionStatus) (id : ℕ) (m : SubscriptionManager) (e : Entry)
    → Follows m id e
    → Follows (update_status id st m) id (entry_status st e)
unfolding update_status
status-Follows st id m none f = subst (λ o. Follows (status_set st id o m) id none) (sym f.0) f
status-Follows st id m (some (s, l)) (h, a, b, d) =
    let s' = record s { status = st } in
    subst (λ o. Follows (status_set st id o m) id (some (s', l))) (sym h)
      (put_here id (some s') m.subscriptions, a, b, d)

pub error-Follows :
    (err id : ℕ) (m : SubscriptionManager) (e : Entry)
    → Follows m id e
    → Follows (update_error id err m) id (entry_error err e)
unfolding update_error
error-Follows err id m none f = subst (λ o. Follows (error_set err id o m) id none) (sym f.0) f
error-Follows err id m (some (s, l)) (h, a, b, d) =
    let s' = record s { error = some err; status = failed } in
    subst (λ o. Follows (error_set err id o m) id (some (s', l))) (sym h)
      (put_here id (some s') m.subscriptions, a, b, d)

pub unsubscribe-Follows :
    (id : ℕ) (m : SubscriptionManager) (e : Entry)
    → Follows m id e
    → Follows (unsubscribe id m) id (entry_unsubscribed e)
unfolding unsubscribe
unsubscribe-Follows id m none f = subst (λ o. Follows (unsubscribe_at id o m) id none) (sym f.0) f
unsubscribe-Follows id m (some (s, l)) (h, a, b, d) =
    let s' = record s { status = unsubscribed } in
    subst (λ o. Follows (unsubscribe_at id o m) id (some (s', false))) (sym h)
      (
        put_here id (some s') m.subscriptions,
        (λ k. set_id_here false l s.venue_id id k m.venue_subs (a k)),
        (λ k. set_id_here false l s.instrument_id id k m.instrument_subs (b k)),
        (λ k. set_id_here false l s.channel id k m.channel_subs (d k)),
      )

pub remove-Follows :
    (id : ℕ) (m : SubscriptionManager) (e : Entry)
    → Follows m id e
    → Follows (remove_subscription id m) id none
unfolding remove_subscription
remove-Follows id m none f = subst (λ o. Follows (remove_at id o m) id none) (sym f.0) f
remove-Follows id m (some (s, l)) (h, a, b, d) =
    subst (λ o. Follows (remove_at id o m) id none) (sym h)
      (
        put_here id none m.subscriptions,
        (λ k. set_id_gone l s.venue_id id k m.venue_subs (a k)),
        (λ k. set_id_gone l s.instrument_id id k m.instrument_subs (b k)),
        (λ k. set_id_gone l s.channel id k m.channel_subs (d k)),
      )

pub put_other :
    (id x : ℕ) (o : Option Subscription) (subs : ℕ → Option Subscription)
    → (x == id) ≡ false
    → put id o subs x ≡ subs x
put_other id x o subs h = rw h refl

-- The calls at other ids.
pub status-Same :
    (st : SubscriptionStatus) (id x : ℕ) (o : Option Subscription) (m : SubscriptionManager)
    → (x == id) ≡ false
    → Same m (status_set st id o m) x
status-Same st id x none m h = (refl, (λ k. refl), (λ k. refl), (λ k. refl))
status-Same st id x (some s) m h = (
  put_other id x (some (record s { status = st })) m.subscriptions h,
  (λ k. refl),
  (λ k. refl),
  (λ k. refl),
)

pub error-Same :
    (err id x : ℕ) (o : Option Subscription) (m : SubscriptionManager)
    → (x == id) ≡ false
    → Same m (error_set err id o m) x
error-Same err id x none m h = (refl, (λ k. refl), (λ k. refl), (λ k. refl))
error-Same err id x (some s) m h = (
  put_other id x (some (record s { error = some err; status = failed })) m.subscriptions h,
  (λ k. refl),
  (λ k. refl),
  (λ k. refl),
)

pub unsubscribe-Same :
    (id x : ℕ) (o : Option Subscription) (m : SubscriptionManager)
    → (x == id) ≡ false
    → Same m (unsubscribe_at id o m) x
unsubscribe-Same id x none m h = (refl, (λ k. refl), (λ k. refl), (λ k. refl))
unsubscribe-Same id x (some s) m h =
    set_ids-Same false id x s (some (record s { status = unsubscribed })) m h

pub remove-Same :
    (id x : ℕ) (o : Option Subscription) (m : SubscriptionManager)
    → (x == id) ≡ false
    → Same m (remove_at id o m) x
remove-Same id x none m h = (refl, (λ k. refl), (λ k. refl), (λ k. refl))
remove-Same id x (some s) m h = set_ids-Same false id x s none m h
