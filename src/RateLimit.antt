-- ===== src/RateLimit.antt =====
-- src/ratelimit.js: the token bucket. Times are whole milliseconds. Amounts of tokens are whole
-- numbers of a small unit, of which `unit` make a token and `rate` are added each millisecond,
-- so that a rate of r tokens a second is `rate * 1000 / unit`.
pub mod Bound
pub mod Wait
mod Tests
use strfry_namecoin_policy.Prelude.{
  ℕ, zero, suc, ◌+◌, ◌-◌, ◌*◌, ◌/◌, ◌≤◌, min, max, Bool, true, false, ◌||◌, Option, none, some,
  List, [], ◌∷◌, leb, ◌==◌, if◌then◌else◌,
}

pub record TokenBucket : Type 0 where
  pub rate : ℕ
  pub unit : ℕ
  pub burst : ℕ
  pub queue_ms : ℕ
  pub tokens : ℕ
  pub last_refill : ℕ

-- The constructor throws on a rate or a burst that is not positive; the bucket starts full.
unfoldable pub new_bucket : (rate unit burst queue_ms now : ℕ) → Option TokenBucket
new_bucket rate unit burst queue_ms now =
    if (rate == 0) || (burst == 0)
    then none
    else some (record {
      rate = rate;
      unit = unit;
      burst = burst;
      queue_ms = queue_ms;
      tokens = burst;
      last_refill = now;
    })

unfoldable pub refill : ℕ → TokenBucket → TokenBucket
refill now b =
    let elapsed = now - b.last_refill in
    if elapsed == 0
    then b
    else record b { tokens = min b.burst (b.tokens + elapsed * b.rate); last_refill = now }

-- The token that is taken, if there is one; also the first half of each round of `acquire`.
unfoldable pub try_acquire : ℕ → TokenBucket → TokenBucket × Bool
try_acquire now b =
    let full = refill now b in
    if leb full.unit full.tokens
    then (record full { tokens = full.tokens - full.unit }, true)
    else (full, false)

-- The clock: what it reads next after it has read a time, and when a sleep ends.
pub record Clock : Type 0 where
  pub read : ℕ → ℕ
  pub wake : (now ms : ℕ) → ℕ

-- It does not run backwards, and no sleep ends early.
pub record IsSteady (clock : Clock) : Type 0 where
  pub onward : (t : ℕ) → t ≤ clock.read t
  pub asleep : (now ms : ℕ) → now + ms ≤ clock.wake now ms

abbrev pub ceil_div : ℕ → ℕ → ℕ
ceil_div a b = (a + b - 1) / b

-- The time until the next whole token, at most what remains, at least 5 ms.
unfoldable pub wait_ms : TokenBucket → (now deadline : ℕ) → ℕ
wait_ms b now deadline = max 5 (min (ceil_div (b.unit - b.tokens) b.rate) (deadline - now))

-- The loop of `acquire`, with fuel; `t` is what the clock reads at the top of the round.
unfoldable pub poll : Clock → (deadline fuel t : ℕ) → TokenBucket → Option (TokenBucket × Bool)
poll clock deadline zero t b = none
poll clock deadline (suc fuel) t b =
    let (b', granted) = try_acquire t b in
    let now = clock.read t in
    let rest = poll clock deadline fuel (clock.wake now (wait_ms b' now deadline)) b' in
    if granted then some (b', true) else if leb deadline now then some (b', false) else rest

-- Rounds that are enough, since each lasts 5 ms at least.
abbrev pub rounds : ℕ → ℕ
rounds queue_ms = queue_ms / 5 + 2

unfoldable pub acquire : Clock → ℕ → TokenBucket → Option (TokenBucket × Bool)
acquire clock t b =
    let (b', granted) = try_acquire t b in
    let now = clock.read t in
    if granted
    then some (b', true)
    else if b'.queue_ms == 0
    then some (b', false)
    else poll clock (now + b'.queue_ms) (rounds b'.queue_ms) (clock.read now) b'

-- Polls at these times, by whichever callers, and how many of them take a token.
unfoldable pub serve : List ℕ → TokenBucket → TokenBucket × ℕ
serve [] b = (b, 0)
serve (t ∷ ts) b =
    let (b', granted) = try_acquire t b in
    let (b'', grants) = serve ts b' in (b'', if granted then suc grants else grants)
