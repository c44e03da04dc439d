-- ===== src/Market/Tests.antt =====
-- Tests of internal/market: the theorem at concrete inputs.
use go_be_arbitrage.Prelude.{
  ℕ, ◌+◌, ◌≡◌, refl, Bool, true, false, none, some, List, [], ◌∷◌, All, length, arith,
}
use go_be_arbitrage.Prelude.Int.{ℤ, pos, ◌≤ℤ◌}
use go_be_arbitrage.Floats.{decimal_float}
use go_be_arbitrage.Market.Connections.{
  disconnected, ConnectionConfig, Connection, ConnectionManager, get_state, get_reconnect_count,
  handle_disconnect,
}
use go_be_arbitrage.Market.Reconnects.{rounds_run, state_after, handle_disconnect_stays}
use go_be_arbitrage.Market.Subscriptions.{
  active, subscribe, update_status, new_subscription_manager, get_venue_subscriptions,
  get_instrument_subscriptions, get_channel_subscriptions,
}
use go_be_arbitrage.Market.Entries.{
  SubscriptionCall, subscribes, updates, unsubscribes, removes, run_call, run_calls, IsFresh,
  entry_of, shown,
}
use go_be_arbitrage.Market.Indexed.{run_calls-shown}

-- A subscription that becomes active, and one that is given up and activated once more.
abbrev some_calls : List SubscriptionCall
some_calls =
    subscribes 1 10 20 30 40
    ∷ updates 1 active
    ∷ subscribes 2 10 21 30 40
    ∷ unsubscribes 2
    ∷ updates 2 active
    ∷ removes 3
    ∷ []

all-IsFresh : IsFresh some_calls new_subscription_manager
unfolding run_call subscribe update_status
all-IsFresh = (refl, (tt, (refl, (tt, (tt, (tt, tt))))))

run_calls-shown_example :
    let m = run_calls some_calls new_subscription_manager in
    let e = entry_of 2 some_calls none in
    (get_venue_subscriptions 10 m 2 ≡ shown (λ s. s.venue_id) 10 e)
    × (get_instrument_subscriptions 10 m 2 ≡ shown (λ s. s.instrument_id) 10 e)
    × (get_channel_subscriptions 10 m 2 ≡ shown (λ s. s.channel) 10 e)
run_calls-shown_example = run_calls-shown some_calls 2 10 all-IsFresh

abbrev sample_config : ConnectionConfig ℤ
sample_config = record {
  max_reconnect = 1;
  initial_backoff = pos 1_000;
  max_backoff = pos 3_000;
  backoff_multiplier = decimal_float.lit 2 0;
}

abbrev sample_connection : Connection
sample_connection = record {
  venue_code = 5;
  state = disconnected;
  connected_at = none;
  disconnected_at = none;
  reconnect_count = 0;
  last_ping_at = none;
  last_pong_at = none;
}

abbrev one_connection : ConnectionManager
one_connection = record { connections = λ i. some sample_connection; venue_conns = λ v i. true }

-- Three failures, and a success.
abbrev some_rounds : List (ℕ × Bool)
some_rounds = (1, false) ∷ (2, false) ∷ (3, false) ∷ (4, true) ∷ []

handle_disconnect_stays_example :
    let (waits, m') = handle_disconnect decimal_float sample_config 7 some_rounds one_connection in
    All (λ w. w ≤ℤ pos 3_000) waits
    × (length waits ≡ rounds_run some_rounds)
    × (get_reconnect_count 7 m' ≡ 0 + rounds_run some_rounds)
    × (get_state 7 m' ≡ state_after decimal_float sample_config some_rounds sample_connection)
handle_disconnect_stays_example =
    handle_disconnect_stays decimal_float sample_config 7 some_rounds sample_connection
      one_connection (ground arith) refl
