-- ===== src/Server/RateLimit.antt =====
-- internal/server/api/middleware/ratelimit.go: a token bucket for each remote address. Times are
-- nanoseconds of the monotonic clock. Additions and products of `int` are written with their
-- wrap-around.
mod Tokens
mod Budget
pub mod Bound
pub mod Cleanup
use netvantage.Prelude.{
  ℕ, ◌+◌, ◌-◌, ◌*◌, ◌/◌, ◌^◌, min, Bool, true, false, Option, none, some, List, [], ◌∷◌, ℤ, pos,
  ◌+ℤ◌, ◌-ℤ◌, ◌*ℤ◌, wrap64, ltb, ltb_ℤ, ◌==◌, nat_eq, String, if◌then◌else◌,
}
use netvantage.Prelude.Dict.{lookup, insert}

pub record Bucket : Type 0 where
  pub tokens : ℤ
  pub last_refill : ℕ

pub record RateLimiter : Type 0 where
  pub visitors : List (String × Bucket)
  pub rate : ℤ  -- tokens per interval
  pub interval : ℕ  -- refill interval
  pub burst : ℤ  -- max tokens

-- NewRateLimiter. The goroutine that it starts calls `cleanup` every five minutes, as a step between
-- the requests: an event of `run_events` in Server/RateLimit/Cleanup.
abbrev pub new_rate_limiter : ℤ → ℕ → ℤ → RateLimiter
new_rate_limiter rate interval burst = record {
  visitors = [];
  rate = rate;
  interval = interval;
  burst = burst;
}

abbrev pub max_duration : ℕ
max_duration = 2 ^ 63 - 1

-- `now.Sub(b.lastRefill) / rl.interval`; Sub stops at the longest duration, and a difference below 0
-- gives no refill, as 0 does.
abbrev pub refills : RateLimiter → ℕ → Bucket → ℕ
refills rl now b = min (now - b.last_refill) max_duration / rl.interval

-- The refill of `allow`.
unfoldable pub refill : RateLimiter → ℕ → Bucket → Bucket
refill rl now b =
    let sum = wrap64 (b.tokens +ℤ wrap64 (pos (refills rl now b) *ℤ rl.rate)) in
    if ltb 0 (refills rl now b)
    then record { tokens = if ltb_ℤ rl.burst sum then rl.burst else sum; last_refill = now }
    else b

-- The end of `allow`: the answer, and the bucket less a token.
unfoldable pub take_token : Bucket → Bucket × Bool
take_token b =
    if ltb_ℤ (pos 0) b.tokens
    then (record b { tokens = wrap64 (b.tokens -ℤ pos 1) }, true)
    else (b, false)

-- `allow` where it does not panic.
unfoldable pub visit : RateLimiter → ℕ → String → RateLimiter × Bool
visit rl now key = elim (lookup key rl.visitors) [
  | none ↦ (
    record rl {
      visitors =
          insert key (record { tokens = wrap64 (rl.burst -ℤ pos 1); last_refill = now })
            rl.visitors;
    },
    true,
  )
  | some b ↦
      let (b', ok) = take_token (refill rl now b) in
      (record rl { visitors = insert key b' rl.visitors }, ok)
]

-- Go panics when a known bucket's elapsed time is divided by an interval of 0.
unfoldable pub panics : RateLimiter → String → Bool
panics rl key = elim (lookup key rl.visitors) [ none ↦ false | some b ↦ rl.interval == 0 ]

unfoldable pub allow : RateLimiter → ℕ → String → Option (RateLimiter × Bool)
allow rl now key = if panics rl key then none else some (visit rl now key)

-- One round of `cleanup`: it drops the buckets not refilled since ten minutes before `now`.
abbrev pub stale_after : ℕ
stale_after = 600_000_000_000

keep_fresh : ℕ → List (String × Bucket) → List (String × Bucket)
keep_fresh now [] = []
keep_fresh now ((key, b) ∷ visitors) =
    let rest = keep_fresh now visitors in
    if ltb (b.last_refill + stale_after) now then rest else (key, b) ∷ rest

pub cleanup : ℕ → RateLimiter → RateLimiter
unfolding keep_fresh
cleanup now rl = record rl { visitors = keep_fresh now rl.visitors }

-- The status of the middleware's answer: the next handler's, or 429.
pub middleware : RateLimiter → ℕ → String → (RateLimiter → ℕ) → Option ℕ
middleware rl now addr next = elim (allow rl now addr) [
  | none ↦ none
  | some (rl', ok) ↦ some (if ok then next rl' else 429)
]

-- A series of requests without a round of cleanup between them, each with its time and address, and
-- the answers.
unfoldable pub run : RateLimiter → List (ℕ × String) → Option (RateLimiter × List Bool)
run rl [] = some (rl, [])
run rl ((now, key) ∷ rest) = elim (allow rl now key) [
  | none ↦ none
  | some (rl', ok) ↦ elim (run rl' rest) [ none ↦ none | some (rl'', oks) ↦ some (rl'', ok ∷ oks) ]
]
