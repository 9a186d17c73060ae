-- ===== src/RateLimit/Windows.antt =====
-- The request limiter against windows that are never cleaned up
-- (gpu-platform/internal/httpapi/ratelimit.go).
use node_hive_b2b.Prelude.{
  ℕ, suc, ◌+◌, ◌-◌, ◌/◌, ◌≤◌, ◌≡◌, refl, sym, ap, ◌∙◌, subst, Bool, true, false, List, [], ◌∷◌,
  Option, none, some, arith, ltb, ◌==◌, if◌then◌else◌, Bool-cases, inl, inr,
}
use node_hive_b2b.Store.{Time, second}
use node_hive_b2b.RateLimit.{Bucket, RateLimiter, keep_live, put, collect, hit, allow}

-- The specification: each key has its own window, and nothing is ever removed.
pub record Windows : Type 0 where
  pub limit : ℕ
  pub window : Time
  pub buckets : ℕ → Option Bucket

abbrev pub count_hit : Time → Time → ℕ → Option Bucket → Windows → (Bool × ℕ) × Windows
count_hit now later key none w = (
  (true, 0),
  record w { buckets = put key (record { count = 1; reset_at = now + w.window }) w.buckets },
)
count_hit now later key (some b) w = (
  if ltb w.limit (suc b.count) then (false, (b.reset_at - later) / second + 1) else (true, 0),
  record w { buckets = put key (record b { count = suc b.count }) w.buckets },
)

unfoldable pub spec_allow : Time → Time → ℕ → Windows → (Bool × ℕ) × Windows
spec_allow now later key w = count_hit now later key (keep_live now (w.buckets key)) w

-- A request: the clock at its start and at its answer, and its key.
pub record Request : Type 0 where
  pub now : Time
  pub later : Time
  pub key : ℕ

unfoldable pub answers : List Request → RateLimiter → List (Bool × ℕ)
unfolding allow
answers [] rl = []
answers (q ∷ qs) rl = let r = allow q.now q.later q.key rl in r.0 ∷ answers qs r.1

unfoldable pub spec_answers : List Request → Windows → List (Bool × ℕ)
unfolding spec_allow
spec_answers [] w = []
spec_answers (q ∷ qs) w = let r = spec_allow q.now q.later q.key w in r.0 ∷ spec_answers qs r.1

-- The requests come in the order of their clocks, from a time on.
abbrev pub Ordered : Time → List Request → Type 0
Ordered t [] = Unit
Ordered t (q ∷ qs) = (t ≤ q.now) × Ordered q.now qs

-- The limiter has the windows that are not over.
pub record Refines (now : Time) (rl : RateLimiter) (w : Windows) : Type 0 where
  pub limit : rl.limit ≡ w.limit
  pub window : rl.window ≡ w.window
  pub live : (k : ℕ) → keep_live now (rl.buckets k) ≡ keep_live now (w.buckets k)

keep_live-later :
    (now t : Time) (o : Option Bucket) → now ≤ t → keep_live t (keep_live now o) ≡ keep_live t o
keep_live-later now t none h = refl
keep_live-later now t (some b) h = elim (Bool-cases (ltb b.reset_at now)) [
  | inl e ↦ let over : ltb b.reset_at t ≡ true = ground (arith, e, h) in rw (e, over) refl
  | inr e ↦ rw e refl
]

collect-Refines :
    (now : Time) (rl : RateLimiter) (w : Windows)
    → Refines now rl w
    → Refines now (collect now rl) w
unfolding collect
collect-Refines now rl w v = elim (Bool-cases (ltb (rl.last_gc + rl.window) now)) [
  | inl e ↦ rw e (record {
    limit = v.limit;
    window = v.window;
    live = λ k. keep_live-later now now (rl.buckets k) (omega arith) ∙ v.live k;
  })
  | inr e ↦ rw e v
]

later-Refines :
    (now t : Time) (rl : RateLimiter) (w : Windows) → now ≤ t → Refines now rl w → Refines t rl w
later-Refines now t rl w h v = record {
  limit = v.limit;
  window = v.window;
  live = λ k.
      sym (keep_live-later now t (rl.buckets k) h)
      ∙ ap (keep_live t) (v.live k)
      ∙ keep_live-later now t (w.buckets k) h;
}

-- A hit sees a bucket only while its window lasts.
hit-live :
    (now later : Time) (key : ℕ) (o : Option Bucket) (rl : RateLimiter)
    → hit now later key o rl ≡ hit now later key (keep_live now o) rl
hit-live now later key none rl = refl
hit-live now later key (some b) rl = elim (Bool-cases (ltb b.reset_at now)) [
  | inl e ↦ rw e refl
  | inr e ↦ rw (e, e) refl
]

put-Refines :
    (now key : ℕ) (a b : Bucket) (rl : RateLimiter) (w : Windows)
    → a ≡ b
    → Refines now rl w
    → Refines now
        (record rl { buckets = put key a rl.buckets })
        (record w { buckets = put key b w.buckets })
put-Refines now key a b rl w same v = record {
  limit = v.limit;
  window = v.window;
  live = λ k. elim (Bool-cases (k == key)) [
    | inl e ↦ rw e (ap (λ x. keep_live now (some x)) same)
    | inr e ↦ rw e (v.live k)
  ];
}

-- What a hit on the limiter and one on the specification give.
abbrev Agree : Time → (Bool × ℕ) × RateLimiter → (Bool × ℕ) × Windows → Type 0
Agree now r s = (r.0 ≡ s.0) × Refines now r.1 s.1

opened-Refines :
    (now later key : ℕ) (rl : RateLimiter) (w : Windows)
    → Refines now rl w
    → Agree now (hit now later key none rl) (count_hit now later key none w)
opened-Refines now later key rl w v = (
  refl,
  put-Refines now key (record { count = 1; reset_at = now + rl.window })
      (record { count = 1; reset_at = now + w.window }) rl w
      (ap (λ x. record { count = 1; reset_at = now + x }) v.window) v,
)

counted-Refines :
    (now later key : ℕ) (b : Bucket) (rl : RateLimiter) (w : Windows)
    → ltb b.reset_at now ≡ false
    → Refines now rl w
    → Agree now (hit now later key (some b) rl) (count_hit now later key (some b) w)
counted-Refines now later key b rl w e v = rw e (
  ap (λ l. if ltb l (suc b.count) then (false, (b.reset_at - later) / second + 1) else (true, 0))
      v.limit,
  put-Refines now key (record b { count = suc b.count }) (record b { count = suc b.count }) rl w
      refl v,
)

hit-Refines :
    (now later key : ℕ) (o : Option Bucket) (rl : RateLimiter) (w : Windows)
    → Refines now rl w
    → Agree now
        (hit now later key (keep_live now o) rl)
        (count_hit now later key (keep_live now o) w)
hit-Refines now later key none rl w v = opened-Refines now later key rl w v
hit-Refines now later key (some b) rl w v = elim (Bool-cases (ltb b.reset_at now)) [
  | inl e ↦ rw e (opened-Refines now later key rl w v)
  | inr e ↦ rw e (counted-Refines now later key b rl w e v)
]

allow-Refines :
    (now later key : ℕ) (rl : RateLimiter) (w : Windows)
    → Refines now rl w
    → Agree now (allow now later key rl) (spec_allow now later key w)
unfolding allow spec_allow
allow-Refines now later key rl w v =
    let c = collect now rl in
    let v_c = collect-Refines now rl w v in
    subst (λ r. Agree now r (count_hit now later key (keep_live now (w.buckets key)) w))
      (sym (hit-live now later key (c.buckets key) c))
      (subst
        (λ o.
          Agree now (hit now later key (keep_live now (c.buckets key)) c)
            (count_hit now later key o w))
        (v_c.live key) (hit-Refines now later key (c.buckets key) c w v_c))

-- The limiter refines windows that are never cleaned up: whatever requests come in the order of their
-- clocks, with whatever keys, every answer and every delay until a retry is that of the
-- specification, so the cleanup cannot be observed.
pub answers-Refines :
    (qs : List Request) (now : Time) (rl : RateLimiter) (w : Windows)
    → Ordered now qs
    → Refines now rl w
    → answers qs rl ≡ spec_answers qs w
unfolding answers spec_answers
answers-Refines [] now rl w o v = refl
answers-Refines (q ∷ qs) now rl w o v =
    let (same, next) =
      allow-Refines q.now q.later q.key rl w (later-Refines now q.now rl w o.0 v) in
    ap (λ a. a ∷ answers qs (allow q.now q.later q.key rl).1) same
    ∙ ap (λ rest. (spec_allow q.now q.later q.key w).0 ∷ rest)
        (answers-Refines qs q.now (allow q.now q.later q.key rl).1
          (spec_allow q.now q.later q.key w).1 o.1 next)
