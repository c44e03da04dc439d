-- ===== src/Market/Indexed.antt =====
-- internal/market/subscription.go: the index maps follow the subscriptions.
use mathlib.Core.Path.{subst}
use go_be_arbitrage.Prelude.{
  ℕ, ◌≡◌, refl, sym, true, false, none, some, List, [], ◌∷◌, ◌==◌, ==_iff, if◌then◌else◌,
  Bool-cases, inl, inr,
}
use go_be_arbitrage.Market.Subscriptions.{
  SubscriptionManager, new_subscription_manager, new_subscription, subscribe, update_status,
  update_error, unsubscribe, remove_subscription, get_venue_subscriptions,
  get_instrument_subscriptions, get_channel_subscriptions,
}
use go_be_arbitrage.Market.Entries.{
  SubscriptionCall, subscribes, updates, fails, unsubscribes, removes, run_call, run_calls,
  IsFreshCall, IsFresh, Entry, entry_status, entry_error, entry_unsubscribed, entry_step, entry_of,
  shown,
}
use go_be_arbitrage.Market.Follows.{
  Follows-Same, set_ids-Same, subscribe-Follows, status-Follows, error-Follows, unsubscribe-Follows,
  remove-Follows, status-Same, error-Same, unsubscribe-Same, remove-Same, Follows, Same,
}

-- Either the id of the call, or another.
at_id :
    (m m' : SubscriptionManager) (x id : ℕ) (e e' : Entry)
    → Follows m x e
    → (x ≡ id → Follows m' x e')
    → ((x == id) ≡ false → Same m m' x)
    → Follows m' x (if x == id then e' else e)
at_id m m' x id e e' f here other = elim (Bool-cases (x == id)) [
  | inl same ↦ rw same (here ((==_iff x id).0 same))
  | inr differ ↦ rw differ (Follows-Same m m' x e (other differ) f)
]

run_call-Follows :
    (c : SubscriptionCall) (m : SubscriptionManager) (x : ℕ) (e : Entry)
    → IsFreshCall c m
    → Follows m x e
    → Follows (run_call c m) x (entry_step x c e)
unfolding run_call subscribe update_status update_error unsubscribe remove_subscription
run_call-Follows (subscribes id v i c n) m x e free f =
    let s = new_subscription v i c n in
    at_id m (subscribe id v i c n m) x id e (some (s, true)) f
      (λ same.
        subst (λ (j : ℕ). Follows (subscribe id v i c n m) j (some (s, true))) (sym same)
          (subscribe-Follows id v i c n m e free (subst (λ (j : ℕ). Follows m j e) same f)))
      (λ differ. set_ids-Same true id x s (some s) m differ)
run_call-Follows (updates id st) m x e free f =
    at_id m (update_status id st m) x id e (entry_status st e) f
      (λ same.
        subst (λ (j : ℕ). Follows (update_status j st m) x (entry_status st e)) same
          (status-Follows st x m e f))
      (λ differ. status-Same st id x (m.subscriptions id) m differ)
run_call-Follows (fails id err) m x e free f =
    at_id m (update_error id err m) x id e (entry_error err e) f
      (λ same.
        subst (λ (j : ℕ). Follows (update_error j err m) x (entry_error err e)) same
          (error-Follows err x m e f))
      (λ differ. error-Same err id x (m.subscriptions id) m differ)
run_call-Follows (unsubscribes id) m x e free f =
    at_id m (unsubscribe id m) x id e (entry_unsubscribed e) f
      (λ same.
        subst (λ (j : ℕ). Follows (unsubscribe j m) x (entry_unsubscribed e)) same
          (unsubscribe-Follows x m e f))
      (λ differ. unsubscribe-Same id x (m.subscriptions id) m differ)
run_call-Follows (removes id) m x e free f =
    at_id m (remove_subscription id m) x id e none f
      (λ same.
        subst (λ (j : ℕ). Follows (remove_subscription j m) x none) same (remove-Follows x m e f))
      (λ differ. remove-Same id x (m.subscriptions id) m differ)

run_calls-Follows :
    (cs : List SubscriptionCall) (m : SubscriptionManager) (x : ℕ) (e : Entry)
    → IsFresh cs m
    → Follows m x e
    → Follows (run_calls cs m) x (entry_of x cs e)
unfolding run_calls entry_of
run_calls-Follows [] m x e free f = f
run_calls-Follows (c ∷ cs) m x e free f =
    run_calls-Follows cs (run_call c m) x (entry_step x c e) free.1
      (run_call-Follows c m x e free.0 f)

Follows-shown :
    (m : SubscriptionManager) (x k : ℕ) (e : Entry)
    → Follows m x e
    → (get_venue_subscriptions k m x ≡ shown (λ s. s.venue_id) k e)
      × (get_instrument_subscriptions k m x ≡ shown (λ s. s.instrument_id) k e)
      × (get_channel_subscriptions k m x ≡ shown (λ s. s.channel) k e)
unfolding get_venue_subscriptions get_instrument_subscriptions get_channel_subscriptions
Follows-shown m x k none (h, a, b, d) = (rw (a k) refl, rw (b k) refl, rw (d k) refl)
Follows-shown m x k (some (s, l)) (h, a, b, d) =
    (rw (a k, h) refl, rw (b k, h) refl, rw (d k, h) refl)

-- Where no id that is drawn has a subscription: after any calls on a new manager, each of the three
-- getters lists an id under a key exactly where it has a subscription of that key that was not
-- unsubscribed, and gives that subscription as the calls left it.
pub run_calls-shown :
    (cs : List SubscriptionCall) (x k : ℕ)
    → IsFresh cs new_subscription_manager
    → let m = run_calls cs new_subscription_manager in
      let e = entry_of x cs none in
      (get_venue_subscriptions k m x ≡ shown (λ s. s.venue_id) k e)
      × (get_instrument_subscriptions k m x ≡ shown (λ s. s.instrument_id) k e)
      × (get_channel_subscriptions k m x ≡ shown (λ s. s.channel) k e)
run_calls-shown cs x k free =
    Follows-shown (run_calls cs new_subscription_manager) x k (entry_of x cs none) (
      run_calls-Follows cs new_subscription_manager x none free
        (refl, (λ k. refl), (λ k. refl), (λ k. refl)))
