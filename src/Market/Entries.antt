-- ===== src/Market/Entries.antt =====
-- internal/market/subscription.go: runs of calls, and what is meant to be known of one id.
use go_be_arbitrage.Prelude.{
  ℕ, ◌≡◌, Bool, true, false, ◌&&◌, Option, none, some, List, [], ◌∷◌, ◌==◌, if◌then◌else◌,
}
use go_be_arbitrage.Market.Subscriptions.{
  SubscriptionStatus, unsubscribed, failed, Subscription, SubscriptionManager, new_subscription,
  subscribe, update_status, update_error, unsubscribe, remove_subscription, kept_if,
}

pub data SubscriptionCall : Type 0 where
  subscribes : ℕ → ℕ → ℕ → ℕ → ℕ → SubscriptionCall
  updates : ℕ → SubscriptionStatus → SubscriptionCall
  fails : ℕ → ℕ → SubscriptionCall
  unsubscribes removes : ℕ → SubscriptionCall

unfoldable pub run_call : SubscriptionCall → SubscriptionManager → SubscriptionManager
unfolding subscribe update_status update_error unsubscribe remove_subscription
run_call (subscribes id v i c n) m = subscribe id v i c n m
run_call (updates id st) m = update_status id st m
run_call (fails id err) m = update_error id err m
run_call (unsubscribes id) m = unsubscribe id m
run_call (removes id) m = remove_subscription id m

unfoldable pub run_calls : List SubscriptionCall → SubscriptionManager → SubscriptionManager
unfolding run_call
run_calls [] m = m
run_calls (c ∷ cs) m = run_calls cs (run_call c m)

-- The id that a call draws has no subscription.
abbrev pub IsFreshCall : SubscriptionCall → SubscriptionManager → Type 0
IsFreshCall (subscribes id v i c n) m = m.subscriptions id ≡ none
IsFreshCall _ m = Unit

-- No drawn id has a subscription.
abbrev pub IsFresh : List SubscriptionCall → SubscriptionManager → Type 0
IsFresh [] m = Unit
IsFresh (c ∷ cs) m = IsFreshCall c m × IsFresh cs (run_call c m)

-- What is meant to be known of one id: its subscription, and whether it is listed.
abbrev pub Entry : Type 0
Entry = Option (Subscription × Bool)

abbrev pub entry_status : SubscriptionStatus → Entry → Entry
entry_status st none = none
entry_status st (some (s, l)) = some (record s { status = st }, l)

abbrev pub entry_error : ℕ → Entry → Entry
entry_error err none = none
entry_error err (some (s, l)) = some (record s { error = some err; status = failed }, l)

abbrev pub entry_unsubscribed : Entry → Entry
entry_unsubscribed none = none
entry_unsubscribed (some (s, l)) = some (record s { status = unsubscribed }, false)

-- What a call makes of the entry of the id x.
abbrev pub entry_step : ℕ → SubscriptionCall → Entry → Entry
entry_step x (subscribes id v i c n) e =
    if x == id then some (new_subscription v i c n, true) else e
entry_step x (updates id st) e = if x == id then entry_status st e else e
entry_step x (fails id err) e = if x == id then entry_error err e else e
entry_step x (unsubscribes id) e = if x == id then entry_unsubscribed e else e
entry_step x (removes id) e = if x == id then none else e

unfoldable pub entry_of : ℕ → List SubscriptionCall → Entry → Entry
entry_of x [] e = e
entry_of x (c ∷ cs) e = entry_of x cs (entry_step x c e)

-- The entry, where it is listed under the key.
abbrev pub shown : (Subscription → ℕ) → ℕ → Entry → Option Subscription
shown key k none = none
shown key k (some (s, l)) = kept_if ((k == key s) && l) (some s)
