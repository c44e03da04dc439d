-- ===== src/Market/Connections.antt =====
-- internal/market/connection.go. Ids and venue codes are numbers, the maps are functions; `now` is the
-- time of a call in nanoseconds, durations are integers.
use go_be_arbitrage.Prelude.{
  ℕ, zero, suc, ◌+◌, Bool, true, false, ◌&&◌, Option, none, some, List, [], ◌∷◌, ◌==◌,
  if◌then◌else◌,
}
use go_be_arbitrage.Prelude.Int.{ℤ, ltb_ℤ}
use go_be_arbitrage.Floats.{Float}

pub data ConnectionState : Type 0 where
  disconnected connecting connected reconnecting : ConnectionState

pub record ConnectionConfig (F : Type 0) : Type 0 where
  pub max_reconnect : ℕ
  pub initial_backoff : ℤ
  pub max_backoff : ℤ
  pub backoff_multiplier : F

pub record Connection : Type 0 where
  pub venue_code : ℕ
  pub state : ConnectionState
  pub connected_at : Option ℕ
  pub disconnected_at : Option ℕ
  pub reconnect_count : ℕ
  pub last_ping_at : Option ℕ
  pub last_pong_at : Option ℕ

pub record ConnectionManager : Type 0 where
  pub connections : ℕ → Option Connection
  pub venue_conns : ℕ → ℕ → Bool

-- `UpdateState` on a connection.
unfoldable pub with_state : ℕ → ConnectionState → Connection → Connection
with_state now connected c = record c {
  state = connected;
  connected_at = some now;
  reconnect_count = 0;
}
with_state now disconnected c = record c { state = disconnected; disconnected_at = some now }
with_state now reconnecting c = record c {
  state = reconnecting;
  reconnect_count = c.reconnect_count + 1;
}
with_state now connecting c = record c { state = connecting }

abbrev pub changed_at :
    (Connection → Connection) → ℕ → Option Connection → ConnectionManager → ConnectionManager
changed_at g id none m = m
changed_at g id (some c) m = record m {
  connections = λ i. if i == id then some (g c) else m.connections i;
}

unfoldable pub create_connection : ℕ → ℕ → ConnectionManager → ConnectionManager
create_connection id venue m = record m {
  connections = λ i.
      if i == id
      then some (record {
        venue_code = venue;
        state = disconnected;
        connected_at = none;
        disconnected_at = none;
        reconnect_count = 0;
        last_ping_at = none;
        last_pong_at = none;
      })
      else m.connections i;
  venue_conns = λ v i. if (v == venue) && (i == id) then true else m.venue_conns v i;
}

unfoldable pub update_state : ℕ → ℕ → ConnectionState → ConnectionManager → ConnectionManager
unfolding with_state
update_state now id st m = changed_at (with_state now st) id (m.connections id) m

unfoldable pub update_ping : ℕ → ℕ → ConnectionManager → ConnectionManager
update_ping now id m =
    changed_at (λ c. record c { last_ping_at = some now }) id (m.connections id) m

unfoldable pub update_pong : ℕ → ℕ → ConnectionManager → ConnectionManager
update_pong now id m =
    changed_at (λ c. record c { last_pong_at = some now }) id (m.connections id) m

abbrev pub removed_at : ℕ → Option Connection → ConnectionManager → ConnectionManager
removed_at id none m = m
removed_at id (some c) m = record m {
  connections = λ i. if i == id then none else m.connections i;
  venue_conns = λ v i. if (v == c.venue_code) && (i == id) then false else m.venue_conns v i;
}

unfoldable pub remove_connection : ℕ → ConnectionManager → ConnectionManager
remove_connection id m = removed_at id (m.connections id) m

abbrev pub state_or : Option Connection → ConnectionState
state_or none = disconnected
state_or (some c) = c.state

unfoldable pub get_state : ℕ → ConnectionManager → ConnectionState
get_state id m = state_or (m.connections id)

abbrev pub count_or : Option Connection → ℕ
count_or none = 0
count_or (some c) = c.reconnect_count

unfoldable pub get_reconnect_count : ℕ → ConnectionManager → ℕ
get_reconnect_count id m = count_or (m.connections id)

module _ {F : Type 0} (f : Float F) (config : ConnectionConfig F) where
  open f use {of_int, to_int, mul}

  -- The loop of `Calculate`, from the backoff it has.
  unfoldable pub grow : ℕ → ℤ → ℤ
  grow zero backoff = backoff
  grow (suc n) backoff =
      let next = to_int (mul (of_int backoff) config.backoff_multiplier) in
      let rest = grow n next in if ltb_ℤ config.max_backoff next then config.max_backoff else rest

  unfoldable pub calculate : ℕ → ℤ
  unfolding grow
  calculate reconnect_count = grow reconnect_count config.initial_backoff

  -- The loop of `HandleDisconnect`, with the times of its rounds and what `reconnect` answers in each,
  -- true for success, as far as they go; `reconnect` leaves the manager alone. The result has the
  -- waiting times of the rounds that it runs.
  unfoldable pub handle_disconnect :
      ℕ → List (ℕ × Bool) → ConnectionManager → List ℤ × ConnectionManager
  unfolding update_state get_reconnect_count calculate
  handle_disconnect id [] m = ([], m)
  handle_disconnect id ((now, ok) ∷ rounds) m =
      let m' = update_state now id reconnecting m in
      let wait = calculate (get_reconnect_count id m') in
      let rest = handle_disconnect id rounds m' in
      if ok then (wait ∷ [], m') else (wait ∷ rest.0, rest.1)
