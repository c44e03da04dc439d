-- ===== src/Pacing/RateLimit.antt =====
-- internal/httpserver/middleware/ratelimit.go. Times are nanoseconds, a key is the number of its
-- text. A bucket is a cell of a heap, and the map goes from keys to addresses: `isAllowed` fetches an
-- address under the limiter's lock, releases it, and decides under the bucket's lock, so anything may
-- come between the two steps. One step is what runs under one lock.
use go_be_arbitrage.Prelude.{
  ℕ, ◌+◌, Bool, true, false, Option, none, some, List, [], ◌∷◌, ltb, leb, ◌==◌, if◌then◌else◌,
}

pub record RateBucket : Type 0 where
  pub count : ℕ
  pub reset_at : ℕ

-- `cells` has the buckets by address; `next` is the first free address.
pub record RateLimiter : Type 0 where
  pub buckets : ℕ → Option ℕ
  pub cells : ℕ → RateBucket
  pub next : ℕ
  pub limit : ℕ
  pub window : ℕ

unfoldable pub new_rate_limiter : ℕ → ℕ → RateLimiter
new_rate_limiter limit window = record {
  buckets = λ k. none;
  cells = λ a. record { count = 0; reset_at = 0 };
  next = 0;
  limit = limit;
  window = window;
}

abbrev pub put : {A : Type 0} → (ℕ → A) → ℕ → A → ℕ → A
put m k v j = if j == k then v else m j

-- The address of a key's bucket, with one made if it is missing.
abbrev pub found_or_new : RateLimiter → ℕ → ℕ → Option ℕ → RateLimiter × ℕ
found_or_new rl key now (some a) = (rl, a)
found_or_new rl key now none = (
  record rl {
    buckets = put rl.buckets key (some rl.next);
    cells = put rl.cells rl.next (record { count = 0; reset_at = now + rl.window });
    next = rl.next + 1;
  },
  rl.next,
)

-- The part of `isAllowed` under the limiter's lock.
unfoldable pub fetch : RateLimiter → ℕ → ℕ → RateLimiter × ℕ
fetch rl key now = found_or_new rl key now (rl.buckets key)

-- A bucket whose time has passed starts again.
abbrev pub renewed : ℕ → ℕ → RateBucket → RateBucket
renewed window now b =
    if ltb b.reset_at now then record { count = 0; reset_at = now + window } else b

-- The bucket after a decision, and the decision.
unfoldable pub take : ℕ → ℕ → ℕ → RateBucket → RateBucket × Bool
take limit window now b =
    let r = renewed window now b in
    if leb limit r.count then (r, false) else (record r { count = r.count + 1 }, true)

-- The part of `isAllowed` under the bucket's lock, with the time read at the start of the call.
unfoldable pub decide : RateLimiter → ℕ → ℕ → RateLimiter × Bool
unfolding take
decide rl a now =
    let (b, allowed) = take rl.limit rl.window now (rl.cells a) in
    (record rl { cells = put rl.cells a b }, allowed)

-- The whole call, when nothing comes between its steps.
unfoldable pub is_allowed : RateLimiter → ℕ → ℕ → RateLimiter × Bool
unfolding fetch decide
is_allowed rl key now = let (fetched, a) = fetch rl key now in decide fetched a now

-- One round of the background cleanup's loop: the bucket of one key.
abbrev pub kept : RateLimiter → ℕ → Option ℕ → Option ℕ
kept rl now none = none
kept rl now (some a) = if ltb (rl.cells a).reset_at now then none else some a

unfoldable pub sweep : RateLimiter → ℕ → ℕ → RateLimiter
sweep rl key now = record rl { buckets = put rl.buckets key (kept rl now (rl.buckets key)) }

-- One tick of the cleanup, over the keys of the map.
unfoldable pub cleanup : RateLimiter → List ℕ → ℕ → RateLimiter
unfolding sweep
cleanup rl [] now = rl
cleanup rl (key ∷ keys) now = cleanup (sweep rl key now) keys now

-- What happens to a limiter, with its time: a request fetches the address of its key's bucket, a
-- request in flight decides on the address that it fetched, the cleanup looks at a key.
pub data Event : Type 0 where
  fetches decides sweeps : ℕ → ℕ → Event

unfoldable pub handle : RateLimiter → Event → RateLimiter
unfolding fetch decide sweep
handle rl (fetches key now) = (fetch rl key now).0
handle rl (decides a now) = (decide rl a now).0
handle rl (sweeps key now) = sweep rl key now

-- The number of requests that the bucket at an address lets through.
unfoldable pub allowed_count : ℕ → RateLimiter → List Event → ℕ
unfolding handle
allowed_count a rl [] = 0
allowed_count a rl (decides x now ∷ es) =
    (if x == a then (if (decide rl x now).1 then 1 else 0) else 0)
    + allowed_count a (handle rl (decides x now)) es
allowed_count a rl (fetches key now ∷ es) = allowed_count a (handle rl (fetches key now)) es
allowed_count a rl (sweeps key now ∷ es) = allowed_count a (handle rl (sweeps key now)) es
