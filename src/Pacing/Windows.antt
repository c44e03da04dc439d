-- ===== src/Pacing/Windows.antt =====
-- internal/httpserver/middleware/ratelimit.go: how many requests a bucket lets through, and what the
-- cleanup changes.
use go_be_arbitrage.Prelude.{
  ℕ, ◌+◌, ◌≤◌, ◌<◌, ◌≡◌, refl, sym, ◌∙◌, ap, Bool, true, Option, none, some, List, [], ◌∷◌, arith,
  ltb, ◌==◌, ==_iff, ◌⊎◌, inl, inr, Bool-cases,
}
use go_be_arbitrage.Pacing.RateLimit.{
  RateBucket, RateLimiter, take, fetch, decide, is_allowed, sweep, cleanup, kept, renewed,
  found_or_new, Event, decides, sweeps, handle,
}

-- The limiter after some events.
unfoldable pub handles : RateLimiter → List Event → RateLimiter
unfolding handle
handles rl [] = rl
handles rl (e ∷ es) = handles (handle rl e) es

-- No bucket counts past the limit.
abbrev IsCapped : RateLimiter → Type 0
IsCapped rl = (a : ℕ) → (rl.cells a).count ≤ rl.limit

-- What a tick of the cleanup makes of one key: its bucket stays, or is past its time and goes.
abbrev Swept : RateLimiter → RateLimiter → ℕ → ℕ → Type 0
Swept rl rl' key now =
    ((rl'.cells ≡ rl.cells)
      × (rl'.next ≡ rl.next)
      × (rl'.limit ≡ rl.limit)
      × (rl'.window ≡ rl.window))
    × ((rl'.buckets key ≡ rl.buckets key)
        ⊎ ((a : ℕ) × (rl.buckets key ≡ some a)
            × (ltb (rl.cells a).reset_at now ≡ true)
            × (rl'.buckets key ≡ none)))

kept_cases :
    (rl : RateLimiter) (now : ℕ) (o : Option ℕ)
    → (kept rl now o ≡ o)
      ⊎ ((a : ℕ) × (o ≡ some a) × (ltb (rl.cells a).reset_at now ≡ true) × (kept rl now o ≡ none))
kept_cases rl now none = inl refl
kept_cases rl now (some a) = elim (Bool-cases (ltb (rl.cells a).reset_at now)) [
  | inl past ↦ inr (a, refl, past, rw past refl)
  | inr live ↦ inl (rw live refl)
]

sweep_key : (rl : RateLimiter) (k key now : ℕ) → Swept rl (sweep rl k now) key now
unfolding sweep
sweep_key rl k key now = elim (Bool-cases (key == k)) [
  | inr other ↦ ((refl, refl, refl, refl), inl (rw other refl))
  | inl here ↦
      let e : k ≡ key = ground arith in
      elim (kept_cases rl now (rl.buckets key)) [
        | inl same ↦ ((refl, refl, refl, refl), inl (rw (e, (==_iff key key).1 refl) same))
        | inr (a, f, past, gone) ↦
            ((refl, refl, refl, refl), inr (a, f, past, rw (e, (==_iff key key).1 refl) gone))
      ]
]

swept_again :
    (o o' o'' : Option ℕ) (past : ℕ → Bool)
    → (o' ≡ o) ⊎ ((a : ℕ) × (o ≡ some a) × (past a ≡ true) × (o' ≡ none))
    → (o'' ≡ o') ⊎ ((a : ℕ) × (o' ≡ some a) × (past a ≡ true) × (o'' ≡ none))
    → (o'' ≡ o) ⊎ ((a : ℕ) × (o ≡ some a) × (past a ≡ true) × (o'' ≡ none))
swept_again o o' o'' past (inl e) (inl e') = inl (e' ∙ e)
swept_again o o' o'' past (inl e) (inr (a, e', p, g)) = inr (a, sym e ∙ e', p, g)
swept_again o o' o'' past (inr (a, e, p, g)) (inl e') = inr (a, e, p, e' ∙ g)
swept_again o o' o'' past (inr (a, e, p, g)) (inr (a', e', p', g')) = inr (a, e, p, g')

cleanup_key :
    (rl : RateLimiter) (keys : List ℕ) (key now : ℕ) → Swept rl (cleanup rl keys now) key now
unfolding cleanup
cleanup_key rl [] key now = ((refl, refl, refl, refl), inl refl)
cleanup_key rl (k ∷ keys) key now =
    let ((c, n, l, w), rest) = cleanup_key (sweep rl k now) keys key now in
    let ((c', n', l', w'), one) = sweep_key rl k key now in
    (
      (c ∙ c', n ∙ n', l ∙ l', w ∙ w'),
      swept_again (rl.buckets key) ((sweep rl k now).buckets key)
          ((cleanup (sweep rl k now) keys now).buckets key) (λ a. ltb (rl.cells a).reset_at now) one
          (unfold sweep in rest),
    )

-- A decision depends on the bucket that a request meets once it is renewed.
take_same :
    (limit window now : ℕ) (b b' : RateBucket)
    → renewed window now b ≡ renewed window now b'
    → take limit window now b ≡ take limit window now b'
unfolding take
take_same limit window now b b' e = rw e refl

-- The bucket that a request meets.
abbrev met : ℕ → (ℕ → RateBucket) → ℕ → Option ℕ → RateBucket
met window cells now none = record { count = 0; reset_at = now + window }
met window cells now (some a) = cells a

-- The decision on the bucket that a request meets, and what the bucket then is.
abbrev Decides : RateLimiter → ℕ → RateLimiter × ℕ → RateBucket → Type 0
Decides rl now (fetched, a) b =
    ((decide fetched a now).1 ≡ (take rl.limit rl.window now b).1)
    × ((decide fetched a now).0.cells a ≡ (take rl.limit rl.window now b).0)

found-Decides :
    (rl : RateLimiter) (key now : ℕ) (o : Option ℕ)
    → Decides rl now (found_or_new rl key now o) (met rl.window rl.cells now o)
unfolding decide
found-Decides rl key now none = let here = (==_iff rl.next rl.next).1 refl in rw here (refl, refl)
found-Decides rl key now (some a) = let here = (==_iff a a).1 refl in (refl, rw here refl)

met-Swept :
    (rl rl' : RateLimiter) (key swept now : ℕ)
    → Swept rl rl' key swept
    → swept ≤ now
    → renewed rl.window now (met rl.window rl.cells now (rl'.buckets key))
      ≡ renewed rl.window now (met rl.window rl.cells now (rl.buckets key))
met-Swept rl rl' key swept now (f, inl e) later =
    ap (λ o. renewed rl.window now (met rl.window rl.cells now o)) e
met-Swept rl rl' key swept now (f, inr (a, e, past, gone)) later = rw (gone, e) (ground arith)

-- A tick of the cleanup changes no decision of a call with which nothing interleaves: at any later
-- time, for every key, with no other step between the call's fetch and its decision, the request is let
-- through after the tick exactly when it would be without it, and the bucket that it counts on is then
-- the same.
pub cleanup_transparent :
    (rl : RateLimiter) (keys : List ℕ) (key swept now : ℕ)
    → swept ≤ now
    → let rl' = cleanup rl keys swept in
      ((is_allowed rl' key now).1 ≡ (is_allowed rl key now).1)
      × ((is_allowed rl' key now).0.cells (fetch rl' key now).1
          ≡ (is_allowed rl key now).0.cells (fetch rl key now).1)
unfolding is_allowed fetch
cleanup_transparent rl keys key swept now later =
    let rl' = cleanup rl keys swept in
    let s = cleanup_key rl keys key swept in
    let ((c, n, l, w), _) = s in
    let (d', b') = found-Decides rl' key now (rl'.buckets key) in
    let (d, b) = found-Decides rl key now (rl.buckets key) in
    let same : take rl'.limit rl'.window now (met rl'.window rl'.cells now (rl'.buckets key))
        ≡ take rl.limit rl.window now (met rl.window rl.cells now (rl.buckets key)) =
      rw (l, w, c)
        (take_same rl.limit rl.window now (met rl.window rl.cells now (rl'.buckets key))
          (met rl.window rl.cells now (rl.buckets key)) (met-Swept rl rl' key swept now s later)) in
    (d' ∙ ap (λ t. t.1) same ∙ sym d, b' ∙ ap (λ t. t.0) same ∙ sym b)

-- The decisions on one bucket, at some times.
abbrev pub decides_all : ℕ → List ℕ → List Event
decides_all a [] = []
decides_all a (now ∷ times) = decides a now ∷ decides_all a times

decided_keeps :
    (rl : RateLimiter) (a : ℕ) (times : List ℕ)
    → let rl' = handles rl (decides_all a times) in
      (rl'.buckets ≡ rl.buckets) × (rl'.limit ≡ rl.limit) × (rl'.window ≡ rl.window)
unfolding handles handle decide
decided_keeps rl a [] = (refl, refl, refl)
decided_keeps rl a (now ∷ times) = decided_keeps (decide rl a now).0 a times

-- Where the cleanup takes the bucket of a key, past its time, off the map between the fetch of some
-- requests and their decisions: however many of these requests then decide on that bucket, and at
-- whatever times, the next call for the key is let through exactly when it would be had none of them
-- been made, so they do not count against it.
pub in_flight_uncounted :
    (rl : RateLimiter) (key a swept now : ℕ) (times : List ℕ)
    → rl.buckets key ≡ some a
    → (rl.cells a).reset_at < swept
    → let rl' = handle rl (sweeps key swept) in
      ((fetch rl key now).1 ≡ a)
      × ((is_allowed (handles rl' (decides_all a times)) key now).1 ≡ (is_allowed rl' key now).1)
unfolding is_allowed fetch
in_flight_uncounted rl key a swept now times e past =
    let rl' = sweep rl key swept in
    let rl'' = handles rl' (decides_all a times) in
    let gone : rl'.buckets key ≡ none =
      unfold sweep in rw (e, (==_iff key key).1 refl) (ground arith) in
    let (m, l, w) = decided_keeps rl' a times in
    let (d', b') = found-Decides rl'' key now (rl''.buckets key) in
    let (d, b) = found-Decides rl' key now (rl'.buckets key) in
    let same : take rl''.limit rl''.window now (met rl''.window rl''.cells now (rl''.buckets key))
        ≡ take rl'.limit rl'.window now (met rl'.window rl'.cells now (rl'.buckets key)) =
      rw (l, w, m, gone) refl in
    (rw e refl, unfold handle in d' ∙ ap (λ t. t.1) same ∙ sym d)
