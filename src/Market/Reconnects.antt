-- ===== src/Market/Reconnects.antt =====
-- internal/market/connection.go: what the handling of a disconnection does.
use go_be_arbitrage.Prelude.{
  ℕ, zero, suc, ◌+◌, ◌≡◌, refl, ◌∙◌, Bool, some, List, [], ◌∷◌, arith, ==_iff, if◌then◌else◌,
  Bool-cases, inl, inr, All, length,
}
use go_be_arbitrage.Prelude.Int.{ℤ, ltb_ℤ, ◌≤ℤ◌}
use go_be_arbitrage.Floats.{Float}
use go_be_arbitrage.Market.Connections.{
  ConnectionState, reconnecting, ConnectionConfig, Connection, ConnectionManager, with_state,
  update_state, get_state, get_reconnect_count, grow, calculate, handle_disconnect,
}

-- The rounds up to the first success, which are those that the loop runs.
abbrev pub rounds_run : List (ℕ × Bool) → ℕ
rounds_run [] = 0
rounds_run ((now, ok) ∷ rounds) = let rest = rounds_run rounds in if ok then 1 else rest + 1

module _ {F : Type 0} (f : Float F) (config : ConnectionConfig F) where
  grow_capped :
      (n : ℕ) (backoff : ℤ)
      → backoff ≤ℤ config.max_backoff
      → grow f config n backoff ≤ℤ config.max_backoff
  unfolding grow
  grow_capped zero backoff h = h
  grow_capped (suc n) backoff h =
      let next = f.to_int (f.mul (f.of_int backoff) config.backoff_multiplier) in
      elim (Bool-cases (ltb_ℤ config.max_backoff next)) [
        | inl e ↦ rw e (ground arith)
        | inr e ↦ rw e (grow_capped n next (ground arith))
      ]

  round :
      (now id : ℕ) (c : Connection) (m : ConnectionManager)
      → m.connections id ≡ some c
      → (update_state now id reconnecting m).connections id
        ≡ some (record c { state = reconnecting; reconnect_count = c.reconnect_count + 1 })
  unfolding update_state with_state
  round now id c m e = rw (e, (==_iff id id).1 refl) refl

  abbrev pub state_after : List (ℕ × Bool) → Connection → ConnectionState
  state_after [] c = c.state
  state_after (r ∷ rounds) c = reconnecting

  state_after_round :
      (rounds : List (ℕ × Bool)) (c : Connection)
      → c.state ≡ reconnecting
      → state_after rounds c ≡ reconnecting
  state_after_round [] c h = h
  state_after_round (r ∷ rounds) c h = refl

  -- Where the first waiting time is not above the longest one, the connection is there, and `reconnect`
  -- leaves the manager alone: the loop of
  -- HandleDisconnect waits once for each round up to the first success, however many they are, never
  -- longer than the longest time, and counts the rounds; after a success as before it the connection
  -- is RECONNECTING.
  pub handle_disconnect_stays :
      (id : ℕ) (rounds : List (ℕ × Bool)) (c : Connection) (m : ConnectionManager)
      → config.initial_backoff ≤ℤ config.max_backoff
      → m.connections id ≡ some c
      → let (waits, m') = handle_disconnect f config id rounds m in
        All (λ w. w ≤ℤ config.max_backoff) waits
        × (length waits ≡ rounds_run rounds)
        × (get_reconnect_count id m' ≡ c.reconnect_count + rounds_run rounds)
        × (get_state id m' ≡ state_after rounds c)
  unfolding handle_disconnect get_reconnect_count get_state calculate
  handle_disconnect_stays id [] c m h e = (tt, refl, rw e (omega arith), rw e refl)
  handle_disconnect_stays id ((now, ok) ∷ rounds) c m h e =
      let c' = record c { state = reconnecting; reconnect_count = c.reconnect_count + 1 } in
      let m' = update_state now id reconnecting m in
      let e' = round now id c m e in
      let (waits, count, known, after) = handle_disconnect_stays id rounds c' m' h e' in
      let capped = grow_capped (get_reconnect_count id m') config.initial_backoff h in
      elim (Bool-cases ok) [
        | inl o ↦ rw o ((capped, tt), refl, rw e' refl, rw e' refl)
        | inr o ↦ rw o (
          (capped, waits),
          omega (arith, count),
          omega (arith, known),
          after ∙ state_after_round rounds c' refl,
        )
      ]
