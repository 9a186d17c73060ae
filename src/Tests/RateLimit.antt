-- ===== src/Tests/RateLimit.antt =====
-- The theorem on the request limiter at five requests.
use node_hive_b2b.Prelude.{ℕ, ◌-◌, ◌≤◌, ◌≡◌, refl, List, [], ◌∷◌, none, arith}
use node_hive_b2b.Store.{Time}
use node_hive_b2b.RateLimit.{Bucket, RateLimiter, put, admitted}
use node_hive_b2b.RateLimit.Windows.{Windows, Request, answers, spec_answers, answers-Refines}
use node_hive_b2b.RateLimit.Admits.{admitted-bound}

abbrev small_bucket : Bucket
small_bucket = record { count = 1; reset_at = 60 }

abbrev small_limiter : RateLimiter
small_limiter = record {
  limit = 3;
  window = 60;
  buckets = put 1 small_bucket (λ k. none);
  last_gc = 0;
}

abbrev small_hits : List (Time × ℕ)
small_hits = (5, 1) ∷ (6, 2) ∷ (7, 1) ∷ (8, 1) ∷ (9, 1) ∷ []

admitted-bound_example :
    admitted 1 small_hits small_limiter ≤ small_limiter.limit - small_bucket.count
admitted-bound_example =
    admitted-bound 1 small_hits small_limiter small_bucket refl
      (omega arith, (omega arith, (omega arith, (omega arith, (omega arith, tt)))))

abbrev small_windows : Windows
small_windows = record { limit = 3; window = 60; buckets = put 1 small_bucket (λ k. none) }

abbrev small_requests : List Request
small_requests =
    record { now = 5; later = 5; key = 1 }
    ∷ record { now = 70; later = 71; key = 2 }
    ∷ record { now = 72; later = 72; key = 1 }
    ∷ []

answers-Refines_example :
    answers small_requests small_limiter ≡ spec_answers small_requests small_windows
answers-Refines_example =
    answers-Refines small_requests 0 small_limiter small_windows
      (omega arith, (omega arith, (omega arith, tt)))
      (record { limit = refl; window = refl; live = λ k. refl })
