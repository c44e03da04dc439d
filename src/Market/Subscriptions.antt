-- ===== src/Market/Subscriptions.antt =====
-- internal/market/subscription.go. Ids, venues, instruments and channels, which are only compared, are
-- numbers; the maps, and the sets of ids that the index maps hold, are functions. `id` is the id that a
-- call draws; an error is a number.
use go_be_arbitrage.Prelude.{ℕ, Bool, true, false, ◌&&◌, Option, none, some, ◌==◌, if◌then◌else◌}

pub data SubscriptionStatus : Type 0 where
  pending active failed unsubscribed : SubscriptionStatus

pub record Subscription : Type 0 where
  pub venue_id : ℕ
  pub instrument_id : ℕ
  pub channel : ℕ
  pub status : SubscriptionStatus
  pub connection_id : ℕ
  pub error : Option ℕ

-- An index map: the ids under a key.
abbrev pub Index : Type 0
Index = ℕ → ℕ → Bool

pub record SubscriptionManager : Type 0 where
  pub subscriptions : ℕ → Option Subscription
  pub venue_subs : Index
  pub instrument_subs : Index
  pub channel_subs : Index

abbrev pub new_subscription_manager : SubscriptionManager
new_subscription_manager = record {
  subscriptions = λ id. none;
  venue_subs = λ k id. false;
  instrument_subs = λ k id. false;
  channel_subs = λ k id. false;
}

-- `ids[id] = true` and `delete(ids, id)` at a key.
abbrev pub set_id : Bool → ℕ → ℕ → Index → Index
set_id b key id index = λ k i. if (k == key) && (i == id) then b else index k i

abbrev pub put : ℕ → Option Subscription → (ℕ → Option Subscription) → ℕ → Option Subscription
put id s subs i = if i == id then s else subs i

abbrev pub set_ids : Bool → ℕ → Subscription → SubscriptionManager → SubscriptionManager
set_ids b id s m = record m {
  venue_subs = set_id b s.venue_id id m.venue_subs;
  instrument_subs = set_id b s.instrument_id id m.instrument_subs;
  channel_subs = set_id b s.channel id m.channel_subs;
}

abbrev pub new_subscription : ℕ → ℕ → ℕ → ℕ → Subscription
new_subscription venue instrument channel connection = record {
  venue_id = venue;
  instrument_id = instrument;
  channel = channel;
  status = pending;
  connection_id = connection;
  error = none;
}

unfoldable pub subscribe : ℕ → ℕ → ℕ → ℕ → ℕ → SubscriptionManager → SubscriptionManager
subscribe id venue instrument channel connection m =
    let s = new_subscription venue instrument channel connection in
    set_ids true id s (record m { subscriptions = put id (some s) m.subscriptions })

abbrev pub status_set :
    SubscriptionStatus → ℕ → Option Subscription → SubscriptionManager → SubscriptionManager
status_set st id none m = m
status_set st id (some s) m = record m {
  subscriptions = put id (some (record s { status = st })) m.subscriptions;
}

unfoldable pub update_status : ℕ → SubscriptionStatus → SubscriptionManager → SubscriptionManager
update_status id st m = status_set st id (m.subscriptions id) m

abbrev pub error_set : ℕ → ℕ → Option Subscription → SubscriptionManager → SubscriptionManager
error_set err id none m = m
error_set err id (some s) m = record m {
  subscriptions = put id (some (record s { error = some err; status = failed })) m.subscriptions;
}

unfoldable pub update_error : ℕ → ℕ → SubscriptionManager → SubscriptionManager
update_error id err m = error_set err id (m.subscriptions id) m

abbrev pub unsubscribe_at : ℕ → Option Subscription → SubscriptionManager → SubscriptionManager
unsubscribe_at id none m = m
unsubscribe_at id (some s) m = set_ids false id s (record m {
  subscriptions = put id (some (record s { status = unsubscribed })) m.subscriptions;
})

unfoldable pub unsubscribe : ℕ → SubscriptionManager → SubscriptionManager
unsubscribe id m = unsubscribe_at id (m.subscriptions id) m

abbrev pub remove_at : ℕ → Option Subscription → SubscriptionManager → SubscriptionManager
remove_at id none m = m
remove_at id (some s) m =
    set_ids false id s (record m { subscriptions = put id none m.subscriptions })

unfoldable pub remove_subscription : ℕ → SubscriptionManager → SubscriptionManager
remove_subscription id m = remove_at id (m.subscriptions id) m

abbrev pub kept_if : Bool → Option Subscription → Option Subscription
kept_if true o = o
kept_if false o = none

-- The subscription with the id, if a getter lists it: `GetVenueSubscriptions`,
-- `GetInstrumentSubscriptions` and `GetChannelSubscriptions`.
unfoldable pub get_venue_subscriptions : ℕ → SubscriptionManager → ℕ → Option Subscription
get_venue_subscriptions venue m id = kept_if (m.venue_subs venue id) (m.subscriptions id)

unfoldable pub get_instrument_subscriptions : ℕ → SubscriptionManager → ℕ → Option Subscription
get_instrument_subscriptions inst m id = kept_if (m.instrument_subs inst id) (m.subscriptions id)

unfoldable pub get_channel_subscriptions : ℕ → SubscriptionManager → ℕ → Option Subscription
get_channel_subscriptions channel m id = kept_if (m.channel_subs channel id) (m.subscriptions id)

abbrev pub has_status : (SubscriptionStatus → Bool) → Option Subscription → Option Subscription
has_status p none = none
has_status p (some s) = kept_if (p s.status) (some s)

unfoldable pub get_active_subscriptions : SubscriptionManager → ℕ → Option Subscription
get_active_subscriptions m id =
    has_status (λ st. elim st [ active ↦ true | _ ↦ false ]) (m.subscriptions id)

unfoldable pub get_pending_subscriptions : SubscriptionManager → ℕ → Option Subscription
get_pending_subscriptions m id =
    has_status (λ st. elim st [ pending ↦ true | _ ↦ false ]) (m.subscriptions id)
