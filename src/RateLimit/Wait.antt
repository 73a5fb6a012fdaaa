-- ===== src/RateLimit/Wait.antt =====
-- src/ratelimit.js: how `acquire` waits.
use mathlib.Core.Path.{subst}
use strfry_namecoin_policy.Prelude.{
  ℕ, zero, suc, ◌+◌, ◌*◌, ◌/◌, ◌≤◌, ◌<◌, ◌-◌, max, ◌≡◌, refl, ap, ◌∙◌, sym, ◌⊎◌, inl, inr, Bool,
  true, false, some, List, [], ◌∷◌, leb, ◌==◌, if◌then◌else◌, arith, Bool-cases,
}
use strfry_namecoin_policy.RateLimit.{
  TokenBucket, Clock, IsSteady, try_acquire, refill, serve, poll, acquire, wait_ms, rounds,
}

module _ (clock : Clock) where
  abbrev pub count : Bool → ℕ
  count granted = if granted then 1 else 0

  abbrev pub final : ℕ → List ℕ → ℕ
  final t [] = t
  final t (u ∷ us) = final u us

  -- Of the polls at `t` and at these later times, each but the last takes no token, and the last
  -- leaves this and answers this.
  abbrev pub Ends : ℕ → List ℕ → TokenBucket → TokenBucket × Bool → Type 0
  Ends t [] b r = try_acquire t b ≡ r
  Ends t (u ∷ us) b r = ((try_acquire t b).1 ≡ false) × Ends u us (try_acquire t b).0 r

  -- Before each of these times the clock read less than the deadline, and the sleep that then
  -- ended was of 5 ms at least and, but for that, not longer than what was left.
  abbrev pub Sleeps : ℕ → ℕ → List ℕ → Type 0
  Sleeps deadline t [] = Unit
  Sleeps deadline t (u ∷ us) =
      (clock.read t < deadline)
      × ((ms : ℕ) × (u ≡ clock.wake (clock.read t) ms)
          × (5 ≤ ms)
          × (ms ≤ max 5 (deadline - clock.read t)))
      × Sleeps deadline u us

  pub record Polled (deadline t : ℕ) (b : TokenBucket) (r : TokenBucket × Bool) : Type 0 where
    pub times : List ℕ
    pub served : serve (t ∷ times) b ≡ (r.0, count r.1)
    pub ends : Ends t times b r
    pub sleeps : Sleeps deadline t times
    pub given_up : r.1 ≡ false → deadline ≤ clock.read (final t times)

  serve-taken :
      (t : ℕ) (b : TokenBucket)
      → (try_acquire t b).1 ≡ true
      → serve (t ∷ []) b ≡ ((try_acquire t b).0, 1)
  unfolding serve
  serve-taken t b h = rw h refl

  serve-passed :
      (t : ℕ) (ts : List ℕ) (b : TokenBucket)
      → (try_acquire t b).1 ≡ false
      → serve (t ∷ ts) b ≡ serve ts (try_acquire t b).0
  unfolding serve
  serve-passed t ts b h = rw h refl

  serve-nothing : (b : TokenBucket) → serve [] b ≡ (b, 0)
  unfolding serve
  serve-nothing b = refl

  wait_ms-cap :
      (b : TokenBucket) (now deadline : ℕ) → wait_ms b now deadline ≤ max 5 (deadline - now)
  unfolding wait_ms
  wait_ms-cap b now deadline = grind arith

  answers :
      (t : ℕ) (b : TokenBucket) {g : Bool}
      → (try_acquire t b).1 ≡ g
      → Ends t [] b ((try_acquire t b).0, g)
  answers t b e = ap (λ g. ((try_acquire t b).0, g)) e

  wait_ms-le : (b : TokenBucket) (now deadline : ℕ) → 5 ≤ wait_ms b now deadline
  unfolding wait_ms
  wait_ms-le b now deadline = grind arith

  next-round :
      (d f now t w ms : ℕ) → d ≤ t + 5 * suc f → t ≤ now → 5 ≤ ms → now + ms ≤ w → d ≤ w + 5 * f
  next-round d f now t w ms h k l m = omega arith

  abbrev Settles : ℕ → ℕ → ℕ → TokenBucket → Type 0
  Settles deadline fuel t b =
      (r : TokenBucket × Bool) × (poll clock deadline fuel t b ≡ some r) × Polled deadline t b r

  -- The next round after a poll at `t` that takes nothing.
  abbrev woken : ℕ → ℕ → TokenBucket → ℕ
  woken deadline t b =
      clock.wake (clock.read t) (wait_ms (try_acquire t b).0 (clock.read t) deadline)

  round-Settles :
      (deadline fuel t : ℕ) (b : TokenBucket)
      → (leb deadline (clock.read t) ≡ false
          → Settles deadline fuel (woken deadline t b) (try_acquire t b).0)
      → Settles deadline (suc fuel) t b
  unfolding poll
  round-Settles deadline fuel t b next = elim (Bool-cases (try_acquire t b).1) [
    | inl taken ↦ (
      ((try_acquire t b).0, true),
      rw taken refl,
      record {
        times = [];
        served = serve-taken t b taken;
        ends = answers t b taken;
        sleeps = tt;
        given_up = λ e. absurd (ground (arith, e));
      },
    )
    | inr passed ↦ elim (Bool-cases (leb deadline (clock.read t))) [
      | inl over ↦ (
        ((try_acquire t b).0, false),
        rw (passed, over) refl,
        record {
          times = [];
          served = serve-passed t [] b passed ∙ serve-nothing (try_acquire t b).0;
          ends = answers t b passed;
          sleeps = tt;
          given_up = λ e. ground (arith, over);
        },
      )
      | inr early ↦
          let (r, e, p) = next early in
          (
            r,
            rw (passed, early) e,
            record {
              times = woken deadline t b ∷ p.times;
              served = serve-passed t (woken deadline t b ∷ p.times) b passed ∙ p.served;
              ends = (passed, p.ends);
              sleeps = (
                ground (arith, early),
                (
                  wait_ms (try_acquire t b).0 (clock.read t) deadline,
                  refl,
                  wait_ms-le (try_acquire t b).0 (clock.read t) deadline,
                  wait_ms-cap (try_acquire t b).0 (clock.read t) deadline,
                ),
                p.sleeps,
              );
              given_up = p.given_up;
            },
          )
    ]
  ]

  poll-Settles :
      IsSteady clock
      → (deadline fuel t : ℕ) (b : TokenBucket) → deadline ≤ t + 5 * fuel
      → Settles deadline (suc fuel) t b
  poll-Settles steady deadline zero t b h =
      let s = steady.onward t in
      round-Settles deadline zero t b (λ early. absurd (ground (arith, early)))
  poll-Settles steady deadline (suc f) t b h =
      let now = clock.read t in
      let ms = wait_ms (try_acquire t b).0 now deadline in
      round-Settles deadline (suc f) t b (λ early.
        poll-Settles steady deadline f (woken deadline t b) (try_acquire t b).0 (
          next-round deadline f now t (clock.wake now ms) ms h (steady.onward t)
            (wait_ms-le (try_acquire t b).0 now deadline) (steady.asleep now ms)))

  enough-rounds : (t u q : ℕ) → t ≤ u → t + q ≤ u + 5 * (q / 5 + 1)
  enough-rounds t u q h = omega arith

  try_acquire-queue : (t : ℕ) (b : TokenBucket) → (try_acquire t b).0.queue_ms ≡ b.queue_ms
  unfolding try_acquire refill
  try_acquire-queue t b = ground arith

  -- The wait that starts after a first poll at `t`.
  acquire-Settles :
      IsSteady clock
      → (t q : ℕ) (b : TokenBucket)
      → Settles (clock.read t + q) (rounds q) (clock.read (clock.read t)) b
  acquire-Settles steady t q b =
      let now = clock.read t in
      subst (λ n. Settles (now + q) n (clock.read now) b) (omega arith)
        (poll-Settles steady (now + q) (q / 5 + 1) (clock.read now) b
          (enough-rounds now (clock.read now) q (steady.onward now)))

  -- The polls after the first: none, or one at once and one after each sleep, all within the
  -- queue's time.
  abbrev pub Waits : ℕ → TokenBucket → List ℕ → Type 0
  Waits t b times =
      (times ≡ [])
      ⊎ ((us : List ℕ) × (times ≡ clock.read (clock.read t) ∷ us)
          × Sleeps (clock.read t + b.queue_ms) (clock.read (clock.read t)) us)

  -- With a clock that does not run backwards and sleeps that do not end early, `acquire`
  -- returns. What it does to the bucket is a first poll and polls after it, each but the last of
  -- which takes no token, and whose last gives its answer; before each sleep the time of the
  -- queue is not over, and the sleep is of 5 ms at least and not longer than 5 ms or what is
  -- left of that time; and the answer is `false` only where the bucket has no queue or the clock
  -- reads the end of that time after the last poll.
  pub acquire-Polled :
      IsSteady clock
      → (t : ℕ) (b : TokenBucket)
      → (r : TokenBucket × Bool) × (acquire clock t b ≡ some r)
        × (times : List ℕ) × Ends t times b r
        × (serve (t ∷ times) b ≡ (r.0, count r.1))
        × Waits t b times
        × (r.1 ≡ false
            → (b.queue_ms ≡ 0) ⊎ (clock.read t + b.queue_ms ≤ clock.read (final t times)))
  unfolding acquire
  acquire-Polled steady t b = elim (Bool-cases (try_acquire t b).1) [
    | inl taken ↦ (
      ((try_acquire t b).0, true),
      rw taken refl,
      [],
      answers t b taken,
      serve-taken t b taken,
      inl refl,
      λ e. absurd (ground (arith, e)),
    )
    | inr passed ↦ elim (Bool-cases ((try_acquire t b).0.queue_ms == 0)) [
      | inl bare ↦ (
        ((try_acquire t b).0, false),
        rw (passed, bare) refl,
        [],
        answers t b passed,
        serve-passed t [] b passed ∙ serve-nothing (try_acquire t b).0,
        inl refl,
        λ e. inl (sym (try_acquire-queue t b) ∙ ground (arith, bare)),
      )
      | inr queued ↦
          let q = (try_acquire t b).0.queue_ms in
          let (r, e, p) = acquire-Settles steady t q (try_acquire t b).0 in
          let again = clock.read (clock.read t) in
          (
            r,
            rw (passed, queued) e,
            again ∷ p.times,
            (passed, p.ends),
            serve-passed t (again ∷ p.times) b passed ∙ p.served,
            inr (
              p.times,
              refl,
              subst (λ n. Sleeps (clock.read t + n) again p.times) (try_acquire-queue t b) p.sleeps,
            ),
            λ h. inr (
                subst (λ n. clock.read t + n ≤ clock.read (final again p.times))
                  (try_acquire-queue t b) (p.given_up h)),
          )
    ]
  ]
