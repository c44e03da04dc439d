-- ===== src/Risk/Decision.antt =====
-- internal/risk/engine.go: what the decision depends on.
use go_be_arbitrage.Prelude.{
  ℕ, ◌≡◌, refl, ◌↔◌, Bool, true, false, List, [], ◌∷◌, arith, length, ◌+◌, ◌<◌, ◌++◌, if◌then◌else◌,
  inl, inr, map, ◌⊎◌,
}
use go_be_arbitrage.Floats.{Float}
use go_be_arbitrage.Risk.Calculator.{
  balance_check, kill_switch_check, leverage_check, market_health_check, notional_limit_check,
  position_limit_check, venue_health_check, RiskAction, approve, reject, RiskCheck,
}
use go_be_arbitrage.Risk.Engine.{
  insufficient_balance, kill_switch_active, leverage_limit_exceeded, market_unhealthy,
  notional_limit_exceeded, position_limit_exceeded, venue_unhealthy, RiskPolicy, Engine,
  PreTradeCheckRequest, Reason, is_fail, evaluate_pre_trade, action_of, reason_if, add_policy,
  remove_policy, enable_kill_switch, disable_kill_switch, new_engine, RiskConfig,
}

-- What a trade is approved on.
pub record IsApproved {F : Type 0} (f : Float F) (e : Engine F) (notional balance position lev : F)
    (market_ok venue_ok : Bool) : Type 0 where
  pub not_killed : e.kill_switch.enabled ≡ false
  pub funded : f.lt balance notional ≡ false
  pub below_position : f.le (f.lit 100000 0) position ≡ false
  pub within_notional : f.lt (f.lit 50000 0) notional ≡ false
  pub within_leverage : f.lt (f.lit 10 0) lev ≡ false
  pub market_is_healthy : market_ok ≡ true
  pub venue_is_healthy : venue_ok ≡ true

-- How many checks failed.
pub failed_count : {F : Type 0} → List (RiskCheck F) → ℕ
failed_count [] = 0
failed_count (c ∷ cs) = (if is_fail c.result then 1 else 0) + failed_count cs

-- The reasons of the failed checks, in order.
abbrev chain : {F : Type 0} → List (RiskCheck F × Reason) → List Reason
chain [] = []
chain ((c, r) ∷ []) = reason_if c r
chain ((c, r) ∷ p ∷ ps) = reason_if c r ++ chain (p ∷ ps)

length-chain :
    {F : Type 0} (ps : List (RiskCheck F × Reason))
    → length (chain ps) ≡ failed_count (map (λ p. p.0) ps)
unfolding failed_count
length-chain [] = refl
length-chain ((c, r) ∷ []) = ground arith
length-chain ((c, r) ∷ p ∷ ps) = ground (arith, length-chain (p ∷ ps))

approve-nil :
    (a : RiskAction) (n : ℕ) (rs : List Reason)
    → length rs ≡ n
    → ((a ≡ approve) × (n ≡ 0)) ⊎ ((a ≡ reject) × (0 < n))
    → ((a ≡ approve) ⊎ (a ≡ reject)) × ((a ≡ approve) ↔ (rs ≡ []))
approve-nil a n [] l (inl h) = (inl h.0, (λ _. refl, λ _. h.0))
approve-nil a n [] l (inr h) = absurd (omega arith)
approve-nil a n (r ∷ rs) l (inl h) = absurd (omega arith)
approve-nil a n (r ∷ rs) l (inr h) = (inr h.0, (λ e. cc, λ e. cc))

action_of-failed_count :
    {F : Type 0} (cs : List (RiskCheck F))
    → ((action_of cs ≡ approve) × (failed_count cs ≡ 0))
      ⊎ ((action_of cs ≡ reject) × (0 < failed_count cs))
unfolding action_of failed_count
action_of-failed_count [] = inl (refl, refl)
action_of-failed_count (c ∷ cs) = ground (arith, action_of-failed_count cs)

module _ {F : Type 0} (f : Float F) where
  -- A trade is approved exactly when the kill switch is off, the balance is not below the notional,
  -- the position is not at or above 100000, the notional not above 50000 and the leverage not above
  -- 10, and the market and the venue are healthy.
  pub approve_iff :
      (e : Engine F) (req : PreTradeCheckRequest F) (balance position lev depth : F)
      (market_ok venue_ok : Bool)
      → ((evaluate_pre_trade f e req balance position lev depth market_ok venue_ok).action
          ≡ approve)
        ↔ IsApproved f e req.notional balance position lev market_ok venue_ok
  unfolding evaluate_pre_trade
  approve_iff e req balance position lev depth market_ok venue_ok =
      (λ h. ground arith, λ h. ground arith)

  -- Every decision is APPROVE or REJECT; it lists seven checks, and as many reasons as checks failed,
  -- so that it is an approval exactly when it gives no reason.
  reasons_count :
      (e : Engine F) (req : PreTradeCheckRequest F) (balance position lev depth : F)
      (market_ok venue_ok : Bool)
      → let r = evaluate_pre_trade f e req balance position lev depth market_ok venue_ok in
        ((r.action ≡ approve) ⊎ (r.action ≡ reject))
        × (length r.checks ≡ 7)
        × (length r.reasons ≡ failed_count r.checks)
        × ((r.action ≡ approve) ↔ (r.reasons ≡ []))
  unfolding evaluate_pre_trade failed_count
  reasons_count e req balance position lev depth market_ok venue_ok =
      let r = evaluate_pre_trade f e req balance position lev depth market_ok venue_ok in
      let count : length r.reasons ≡ failed_count r.checks = length-chain (
        (kill_switch_check f e.kill_switch.enabled, kill_switch_active)
        ∷ (balance_check f balance req.notional, insufficient_balance)
        ∷ (position_limit_check f position (f.lit 100000 0), position_limit_exceeded)
        ∷ (notional_limit_check f req.notional (f.lit 50000 0), notional_limit_exceeded)
        ∷ (leverage_check f lev (f.lit 10 0), leverage_limit_exceeded)
        ∷ (market_health_check f market_ok, market_unhealthy)
        ∷ (venue_health_check f venue_ok, venue_unhealthy)
        ∷ []) in
      let decided =
        approve-nil r.action (failed_count r.checks) r.reasons count
          (action_of-failed_count r.checks) in
      (decided.0, refl, count, decided.1)

-- The calls that change an engine.
pub data Change (F : Type 0) : Type 0 where
  adds : RiskPolicy F → Change F
  removes : ℕ → Change F
  enables : ℕ → ℕ → Change F
  disables : Change F

unfoldable pub change : {F : Type 0} → Engine F → Change F → Engine F
change e (adds p) = add_policy p e
change e (removes id) = remove_policy id e
change e (enables now reason) = enable_kill_switch now reason e
change e disables = disable_kill_switch e

unfoldable pub changes : {F : Type 0} → Engine F → List (Change F) → Engine F
unfolding change
changes e [] = e
changes e (c ∷ cs) = changes (change e c) cs

abbrev pub NeverDisabled : {F : Type 0} → List (Change F) → Type 0
NeverDisabled [] = Unit
NeverDisabled (disables ∷ cs) = ⊥
NeverDisabled (c ∷ cs) = NeverDisabled cs

still_enabled :
    {F : Type 0} (e : Engine F) (cs : List (Change F))
    → e.kill_switch.enabled ≡ true
    → NeverDisabled cs
    → (changes e cs).kill_switch.enabled ≡ true
unfolding changes add_policy remove_policy enable_kill_switch
still_enabled e [] on n = on
still_enabled e (adds p ∷ cs) on n = still_enabled (change e (adds p)) cs on n
still_enabled e (removes id ∷ cs) on n = still_enabled (change e (removes id)) cs on n
still_enabled e (enables now reason ∷ cs) on n =
    still_enabled (change e (enables now reason)) cs refl n
still_enabled e (disables ∷ cs) on n = absurd n

module _ {F : Type 0} (f : Float F) where
  -- Once the kill switch is enabled, every trade is rejected until it is disabled, whatever
  -- policies are added and removed in between.
  pub killed_rejects :
      (e : Engine F) (now reason : ℕ) (cs : List (Change F)) (req : PreTradeCheckRequest F)
      (balance position lev depth : F) (market_ok venue_ok : Bool)
      → NeverDisabled cs
      → (evaluate_pre_trade f
          (changes (enable_kill_switch now reason e) cs)
          req
          balance
          position
          lev
          depth
          market_ok
          venue_ok).action
        ≡ reject
  killed_rejects e now reason cs req balance position lev depth market_ok venue_ok n =
      let on =
        still_enabled (enable_kill_switch now reason e) cs (unfold enable_kill_switch in refl) n in
      unfold evaluate_pre_trade in rw on

  -- Two engines made with any two configurations, after any two runs of changes of their policies and
  -- kill switches that leave the kill switches alike, evaluate every trade alike, whatever the limits
  -- of the configurations and of the policies and whatever the market depths: the same action, the
  -- same checks with the same thresholds, the same reasons.
  limits_unused :
      (config config' : RiskConfig F) (cs cs' : List (Change F)) (req : PreTradeCheckRequest F)
      (balance position lev depth depth' : F) (market_ok venue_ok : Bool)
      → (changes (new_engine config) cs).kill_switch.enabled
        ≡ (changes (new_engine config') cs').kill_switch.enabled
      → evaluate_pre_trade f
          (changes (new_engine config) cs)
          req
          balance
          position
          lev
          depth
          market_ok
          venue_ok
        ≡ evaluate_pre_trade f
            (changes (new_engine config') cs')
            req
            balance
            position
            lev
            depth'
            market_ok
            venue_ok
  unfolding evaluate_pre_trade
  limits_unused config config' cs cs' req balance position lev depth depth' market_ok venue_ok
        same =
      rw same
