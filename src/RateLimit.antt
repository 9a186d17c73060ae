-- ===== src/RateLimit.antt =====
-- The fixed-window request limiter: gpu-platform/internal/httpapi/ratelimit.go. A key (a client's
-- address) is a number, and the map of buckets a function.
pub mod Admits
pub mod Windows
use node_hive_b2b.Prelude.{
  ℕ, suc, ◌+◌, ◌-◌, ◌/◌, Bool, true, false, List, [], ◌∷◌, Option, none, some, ltb, ◌==◌,
  if◌then◌else◌,
}
use node_hive_b2b.Store.{Time, second}

pub record Bucket : Type 0 where
  pub count : ℕ
  pub reset_at : Time

pub record RateLimiter : Type 0 where
  pub limit : ℕ
  pub window : Time
  pub buckets : ℕ → Option Bucket
  pub last_gc : Time

unfoldable pub new_rate_limiter : ℕ → Time → Time → RateLimiter
new_rate_limiter limit window now = record {
  limit = limit;
  window = window;
  buckets = λ k. none;
  last_gc = now;
}

-- `b == nil || now.After(b.resetAt)`.
abbrev pub is_over : Time → Option Bucket → Bool
is_over now none = true
is_over now (some b) = ltb b.reset_at now

abbrev pub keep_live : Time → Option Bucket → Option Bucket
keep_live now none = none
keep_live now (some b) = if ltb b.reset_at now then none else some b

-- The cleanup, at most once per window. `now.Sub(lastGC)` does not exceed the window when the clock
-- has gone back.
unfoldable pub collect : Time → RateLimiter → RateLimiter
collect now rl =
    if ltb (rl.last_gc + rl.window) now
    then record rl { buckets = λ k. keep_live now (rl.buckets k); last_gc = now }
    else rl

abbrev pub put : ℕ → Bucket → (ℕ → Option Bucket) → ℕ → Option Bucket
put key b buckets k = if k == key then some b else buckets k

-- `later` is the clock as `time.Until` reads it; a time that is over by then counts as 0 seconds.
abbrev pub hit : Time → Time → ℕ → Option Bucket → RateLimiter → (Bool × ℕ) × RateLimiter
hit now later key none rl = (
  (true, 0),
  record rl { buckets = put key (record { count = 1; reset_at = now + rl.window }) rl.buckets },
)
hit now later key (some b) rl =
    if ltb b.reset_at now
    then (
      (true, 0),
      record rl { buckets = put key (record { count = 1; reset_at = now + rl.window }) rl.buckets },
    )
    else (
      if ltb rl.limit (suc b.count) then (false, (b.reset_at - later) / second + 1) else (true, 0),
      record rl { buckets = put key (record b { count = suc b.count }) rl.buckets },
    )

-- Whether the request is admitted, the seconds to wait, and the limiter afterwards.
unfoldable pub allow : Time → Time → ℕ → RateLimiter → (Bool × ℕ) × RateLimiter
unfolding collect
allow now later key rl = let c = collect now rl in hit now later key (c.buckets key) c

-- How many of a sequence of requests with one key are admitted, other keys' requests in between.
unfoldable pub admitted : ℕ → List (Time × ℕ) → RateLimiter → ℕ
unfolding allow
admitted key [] rl = 0
admitted key ((now, k) ∷ hits) rl =
    let r = allow now now k rl in
    let rest = admitted key hits r.1 in
    if k == key then (if r.0.0 then suc rest else rest) else rest
