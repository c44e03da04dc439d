-- ===== src/Pacing/Budget.antt =====
-- internal/httpserver/middleware/ratelimit.go: the room that one bucket has left, under every event.
use go_be_arbitrage.Prelude.{
  ℕ, ◌+◌, ◌-◌, ◌≤◌, ◌<◌, ◌≡◌, refl, true, false, none, some, List, [], ◌∷◌, arith, ltb, leb, ◌==◌,
  ◌⊎◌, inl, inr, Bool-cases, ==_iff, Option, if◌then◌else◌,
}
use go_be_arbitrage.Pacing.RateLimit.{
  RateBucket, RateLimiter, found_or_new, take, fetch, decide, sweep, Event, fetches, decides,
  sweeps, handle, allowed_count,
}

-- Every decision is made at or after `from` and at or before `to`.
abbrev pub Within : ℕ → ℕ → List Event → Type 0
Within from to [] = Unit
Within from to (decides a now ∷ es) = ((from ≤ now) × (now ≤ to)) × Within from to es
Within from to (e ∷ es) = Within from to es

-- At most `budget` more requests get through up to the time `to`: the bucket lasts until then, or may
-- be renewed once before.
abbrev pub HasBudget : ℕ → ℕ → ℕ → RateBucket → Type 0
HasBudget limit to budget b =
    ((to ≤ b.reset_at) × (b.count + budget ≡ limit))
    ⊎ ((b.count ≤ limit) × (budget + b.count ≡ limit + limit))

take_open :
    (limit window now to budget : ℕ) (b : RateBucket)
    → to ≤ b.reset_at
    → b.count + budget ≡ limit
    → now ≤ to
    → (rest : ℕ) × ((if (take limit window now b).1 then 1 else 0) + rest ≤ budget)
      × HasBudget limit to rest (take limit window now b).0
unfolding take
take_open limit window now to budget b t c n = elim (Bool-cases (leb limit b.count)) [
  | inl full ↦ (budget, ground arith, inl (ground arith, ground arith))
  | inr free ↦ (budget - 1, ground arith, inl (ground arith, ground arith))
]

take_renewed :
    (limit window now to budget : ℕ) (b : RateBucket)
    → limit ≤ budget
    → to ≤ now + window
    → ltb b.reset_at now ≡ true
    → (rest : ℕ) × ((if (take limit window now b).1 then 1 else 0) + rest ≤ budget)
      × HasBudget limit to rest (take limit window now b).0
unfolding take
take_renewed limit window now to budget b l w past = elim (Bool-cases (leb limit 0)) [
  | inl full ↦ (0, ground arith, inl (ground arith, ground arith))
  | inr free ↦ (limit - 1, ground arith, inl (ground arith, ground arith))
]

take_counted :
    (limit window now to budget : ℕ) (b : RateBucket)
    → b.count ≤ limit
    → budget + b.count ≡ limit + limit
    → ltb b.reset_at now ≡ false
    → (rest : ℕ) × ((if (take limit window now b).1 then 1 else 0) + rest ≤ budget)
      × HasBudget limit to rest (take limit window now b).0
unfolding take
take_counted limit window now to budget b c s live = elim (Bool-cases (leb limit b.count)) [
  | inl full ↦ (budget, ground arith, inr (ground arith, ground arith))
  | inr free ↦ (budget - 1, ground arith, inr (ground arith, ground arith))
]

take-HasBudget :
    (limit window now to budget : ℕ) (b : RateBucket)
    → HasBudget limit to budget b
    → now ≤ to
    → to ≤ now + window
    → (rest : ℕ) × ((if (take limit window now b).1 then 1 else 0) + rest ≤ budget)
      × HasBudget limit to rest (take limit window now b).0
take-HasBudget limit window now to budget b (inl (t, c)) n w =
    take_open limit window now to budget b t c n
take-HasBudget limit window now to budget b (inr (c, s)) n w =
    elim (Bool-cases (ltb b.reset_at now)) [
      | inl past ↦ take_renewed limit window now to budget b (omega arith) w past
      | inr live ↦ take_counted limit window now to budget b c s live
    ]

-- A fetch keeps the limit and the window, and the buckets that are already made.
found_or_new_keeps :
    (rl : RateLimiter) (key now : ℕ) (o : Option ℕ)
    → let rl' = (found_or_new rl key now o).0 in
      (rl'.limit ≡ rl.limit)
      × (rl'.window ≡ rl.window)
      × (rl.next ≤ rl'.next)
      × ((a : ℕ) → a < rl.next → rl'.cells a ≡ rl.cells a)
found_or_new_keeps rl key now (some x) = (refl, refl, omega arith, λ a made. refl)
found_or_new_keeps rl key now none = (refl, refl, omega arith, λ a made. ground arith)

pub handle_fields :
    (rl : RateLimiter) (e : Event)
    → ((handle rl e).limit ≡ rl.limit)
      × ((handle rl e).window ≡ rl.window)
      × (rl.next ≤ (handle rl e).next)
unfolding handle fetch decide sweep
handle_fields rl (fetches key now) =
    let (l, w, n, c) = found_or_new_keeps rl key now (rl.buckets key) in (l, w, n)
handle_fields rl (decides a now) = (refl, refl, omega arith)
handle_fields rl (sweeps key now) = (refl, refl, omega arith)

fetch_cell :
    (rl : RateLimiter) (key now a : ℕ)
    → a < rl.next
    → (handle rl (fetches key now)).cells a ≡ rl.cells a
unfolding handle fetch
fetch_cell rl key now a made =
    let (l, w, n, c) = found_or_new_keeps rl key now (rl.buckets key) in c a made

pub count_le_budget :
    (a : ℕ) (rl : RateLimiter) (from to budget : ℕ) (es : List Event)
    → a < rl.next
    → to ≤ from + rl.window
    → HasBudget rl.limit to budget (rl.cells a)
    → Within from to es
    → allowed_count a rl es ≤ budget
unfolding allowed_count
count_le_budget a rl from to budget [] made w h i = omega arith
count_le_budget a rl from to budget (fetches key now ∷ es) made w h i =
    let rl' = handle rl (fetches key now) in
    let (l, v, n) = handle_fields rl (fetches key now) in
    count_le_budget a rl' from to budget es (omega arith) (omega arith)
      (rw (l, fetch_cell rl key now a made) h) i
count_le_budget a rl from to budget (sweeps key now ∷ es) made w h i =
    count_le_budget a (handle rl (sweeps key now)) from to budget es made w
      (unfold handle sweep in h) i
count_le_budget a rl from to budget (decides x now ∷ es) made w h (i, later) =
    elim (Bool-cases (x == a)) [
      | inr other ↦
          let same : (handle rl (decides x now)).cells a ≡ rl.cells a =
            unfold handle decide in ground arith in
          let bound =
            count_le_budget a (handle rl (decides x now)) from to budget es made w (rw same h)
              later in
          rw other (omega arith)
      | inl here ↦
          let e : x ≡ a = ground arith in
          let (rest, g, h') =
            take-HasBudget rl.limit rl.window now to budget (rl.cells a) h i.1 (omega arith) in
          let cell : (handle rl (decides x now)).cells a
              ≡ (take rl.limit rl.window now (rl.cells a)).0 =
            unfold handle decide in rw (e, (==_iff a a).1 refl) refl in
          let decision : (decide rl x now).1 ≡ (take rl.limit rl.window now (rl.cells a)).1 =
            unfold decide in rw e refl in
          let bound =
            count_le_budget a (handle rl (decides x now)) from to rest es made w (rw cell h')
              later in
          rw (here, decision) (omega arith)
    ]
