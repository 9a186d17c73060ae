-- ===== src/RateLimit/Admits.antt =====
-- How many requests a window admits (gpu-platform/internal/httpapi/ratelimit.go).
use node_hive_b2b.Prelude.{
  ℕ, suc, ◌+◌, ◌-◌, ◌≤◌, ◌≡◌, refl, true, false, List, [], ◌∷◌, All, Option, none, some, arith, ltb,
  ◌==◌, ==_refl, if◌then◌else◌, Bool-cases, inl, inr,
}
use node_hive_b2b.Store.{Time}
use node_hive_b2b.RateLimit.{Bucket, RateLimiter, collect, hit, allow, admitted}

-- The cleanup leaves a bucket whose window is not over, and the configuration.
collect-keeps :
    (now : Time) (k : ℕ) (rl : RateLimiter) {b : Bucket}
    → rl.buckets k ≡ some b
    → now ≤ b.reset_at
    → (collect now rl).buckets k ≡ some b
unfolding collect
collect-keeps now k rl {b} h n = elim (Bool-cases (ltb (rl.last_gc + rl.window) now)) [
  | inl e ↦ rw (e, h) (ground arith)
  | inr e ↦ rw e h
]

collect-limit :
    (now : Time) (rl : RateLimiter)
    → ((collect now rl).limit ≡ rl.limit) × ((collect now rl).window ≡ rl.window)
unfolding collect
collect-limit now rl = elim (Bool-cases (ltb (rl.last_gc + rl.window) now)) [
  | inl e ↦ rw e (refl, refl)
  | inr e ↦ rw e (refl, refl)
]

-- A request of another key leaves the bucket.
allow-other :
    (now k key : ℕ) (rl : RateLimiter) {b : Bucket}
    → (k == key) ≡ false
    → rl.buckets key ≡ some b
    → now ≤ b.reset_at
    → ((allow now now k rl).1.buckets key ≡ some b) × ((allow now now k rl).1.limit ≡ rl.limit)
unfolding allow
allow-other now k key rl {b} n h live =
    other ((collect now rl).buckets k) (collect now rl) (collect-keeps now key rl {b = b} h live)
      (collect-limit now rl).0
  where
    other :
        (o : Option Bucket) (c : RateLimiter)
        → c.buckets key ≡ some b
        → c.limit ≡ rl.limit
        → ((hit now now k o c).1.buckets key ≡ some b) × ((hit now now k o c).1.limit ≡ rl.limit)
    other none c g l = (ground (arith, g), l)
    other (some x) c g l = elim (Bool-cases (ltb x.reset_at now)) [
      | inl e ↦ rw e (ground (arith, g), l)
      | inr e ↦ rw e (ground (arith, g), l)
    ]

-- A request of the key is counted, and admitted up to the limit.
allow-counts :
    (now key : ℕ) (rl : RateLimiter) {b : Bucket}
    → rl.buckets key ≡ some b
    → now ≤ b.reset_at
    → ((allow now now key rl).1.buckets key ≡ some (record b { count = suc b.count }))
      × ((allow now now key rl).1.limit ≡ rl.limit)
      × ((allow now now key rl).0.0 ≡ (if ltb rl.limit (suc b.count) then false else true))
unfolding allow
allow-counts now key rl {b} h live =
    rw (collect-keeps now key rl {b = b} h live) (counted (collect now rl) (collect-limit now rl).0)
  where
    counted :
        (c : RateLimiter)
        → c.limit ≡ rl.limit
        → ((hit now now key (some b) c).1.buckets key ≡ some (record b { count = suc b.count }))
          × ((hit now now key (some b) c).1.limit ≡ rl.limit)
          × ((hit now now key (some b) c).0.0
              ≡ (if ltb rl.limit (suc b.count) then false else true))
    counted c l = elim (Bool-cases (ltb b.reset_at now)) [
      | inl e ↦ absurd (ground arith)
      | inr e ↦ rw (e, ==_refl key) (refl, l, ground (arith, l))
    ]

-- While a bucket's window lasts, what is admitted of its key stays within what the limit leaves,
-- whatever other keys do and whenever the cleanup runs.
pub admitted-bound :
    (key : ℕ) (hits : List (Time × ℕ)) (rl : RateLimiter) (b : Bucket)
    → rl.buckets key ≡ some b
    → All (λ x. x.0 ≤ b.reset_at) hits
    → admitted key hits rl ≤ rl.limit - b.count
unfolding admitted
admitted-bound key [] rl b h a = omega arith
admitted-bound key ((now, k) ∷ hits) rl b h a = elim (Bool-cases (k == key)) [
  | inl e ↦
      let same : k ≡ key = ground arith in
      let (g, l, o) = allow-counts now key rl {b = b} h a.0 in
      let rest =
        admitted-bound key hits (allow now now key rl).1 (record b { count = suc b.count }) g a.1 in
      rw (same, ==_refl key, o) (ground (arith, rest, l))
  | inr e ↦
      let (g, l) = allow-other now k key rl {b = b} e h a.0 in
      rw e (omega (arith, admitted-bound key hits (allow now now k rl).1 b g a.1, l))
]
