-- ===== src/RateLimit/Tests.antt =====
-- src/ratelimit.js: runs of a bucket, and its theorems at concrete buckets.
use strfry_namecoin_policy.Prelude.{
  ℕ, ◌+◌, ◌-◌, ◌*◌, ◌<◌, ◌≤◌, ◌≡◌, ◌⊎◌, refl, Bool, true, false, some, List, [], ◌∷◌, arith,
}
use strfry_namecoin_policy.RateLimit.{
  TokenBucket, Clock, IsSteady, new_bucket, refill, try_acquire, wait_ms, poll, acquire, serve,
}
use strfry_namecoin_policy.RateLimit.Bound.{Follows, serve-bounded}
use strfry_namecoin_policy.RateLimit.Wait.{count, final, Ends, Waits, acquire-Polled}

program : Unit {0}
unfolding new_bucket refill try_acquire wait_ms poll acquire serve
program = tt

-- Two tokens, five more each second.
abbrev bucket : TokenBucket
bucket = record {
  rate = 5;
  unit = 1000;
  burst = 2000;
  queue_ms = 300;
  tokens = 2000;
  last_refill = 100;
}

abbrev clock : Clock
clock = record { read = λ t. t; wake = λ now ms. now + ms }

steady : IsSteady clock
steady = record { onward = λ t. omega arith; asleep = λ now ms. omega arith }

abbrev dry : TokenBucket
dry = record bucket { tokens = 0 }

runs :
    (new_bucket 5 1000 2000 300 100 ≡ some bucket)
    × ((serve (100 ∷ 100 ∷ 100 ∷ 299 ∷ 300 ∷ []) bucket).1 ≡ 3)
    × (acquire clock 100 dry ≡ some (record dry { last_refill = 300 }, true))
    × (acquire clock 100 (record dry { queue_ms = 50 })
        ≡ some (record dry { queue_ms = 50; tokens = 250; last_refill = 150 }, false))
unfolding program
runs = (refl, refl, refl, refl)

serve-bounded_example :
    ((serve (100 ∷ 300 ∷ []) bucket).1 * 1000 + (serve (100 ∷ 300 ∷ []) bucket).0.tokens
      ≤ 2000 + (300 - 100) * 5)
    × Follows 300 bucket (serve (100 ∷ 300 ∷ []) bucket).0
    × (2000 < 1000 → (serve (100 ∷ 300 ∷ []) bucket).1 ≡ 0)
serve-bounded_example =
    serve-bounded (100 ∷ 300 ∷ []) 300 bucket (omega arith, (omega arith, tt)) (omega arith)
      (omega arith)

acquire-Polled_example :
    (r : TokenBucket × Bool) × (acquire clock 100 dry ≡ some r)
    × (times : List ℕ) × Ends clock 100 times dry r
    × (serve (100 ∷ times) dry ≡ (r.0, count clock r.1))
    × Waits clock 100 dry times
    × (r.1 ≡ false → (dry.queue_ms ≡ 0) ⊎ (100 + dry.queue_ms ≤ final clock 100 times))
acquire-Polled_example = acquire-Polled clock steady 100 dry
