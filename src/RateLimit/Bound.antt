-- ===== src/RateLimit/Bound.antt =====
-- src/ratelimit.js: how many tokens a bucket gives out.
use mathlib.Core.Path.{subst}
use native.Mathlib.Nat.{add-mul, suc-mul, le_trans, sub_self}
use strfry_namecoin_policy.Prelude.{
  ℕ, suc, ◌-◌, ◌*◌, ◌≤◌, ◌<◌, ◌≡◌, refl, sym, ap, ◌∙◌, ◌+◌, Bool, true, false, List, [], ◌∷◌,
  if◌then◌else◌, arith, All,
}
use strfry_namecoin_policy.RateLimit.{TokenBucket, refill, try_acquire, serve}

-- What an operation leaves: the parameters as they were, no more tokens than the bucket holds,
-- and a refill no earlier than before and none later than the time `t`.
pub record Follows (t : ℕ) (b b' : TokenBucket) : Type 0 where
  pub same_rate : b'.rate ≡ b.rate
  pub same_unit : b'.unit ≡ b.unit
  pub same_burst : b'.burst ≡ b.burst
  pub same_queue : b'.queue_ms ≡ b.queue_ms
  pub held : b'.tokens ≤ b'.burst
  pub onward : b.last_refill ≤ b'.last_refill
  pub in_time : b'.last_refill ≤ t

refill-Follows :
    (t end : ℕ) (b : TokenBucket)
    → t ≤ end
    → b.last_refill ≤ end
    → b.tokens ≤ b.burst
    → Follows end b (refill t b)
unfolding refill
refill-Follows t end b h k held = grind arith

refill-le :
    (t : ℕ) (b : TokenBucket)
    → (refill t b).tokens ≤ b.tokens + ((refill t b).last_refill - b.last_refill) * b.rate
unfolding refill
refill-le t b = ground arith

abbrev spent : TokenBucket → Bool → ℕ
spent b granted = if granted then b.unit else 0

try_acquire-Follows :
    (t end : ℕ) (b : TokenBucket)
    → t ≤ end
    → b.last_refill ≤ end
    → b.tokens ≤ b.burst
    → Follows end b (try_acquire t b).0
unfolding try_acquire
try_acquire-Follows t end b h k held = let f = refill-Follows t end b h k held in grind arith

try_acquire-le :
    (t : ℕ) (b : TokenBucket)
    → (try_acquire t b).0.tokens + spent (refill t b) (try_acquire t b).1
      ≤ b.tokens + ((try_acquire t b).0.last_refill - b.last_refill) * b.rate
unfolding try_acquire
try_acquire-le t b = ground (arith, refill-le t b)

gained : (a b c r : ℕ) → a ≤ b → b ≤ c → (b - a) * r + (c - b) * r ≡ (c - a) * r
gained a b c r h k = sym (add-mul (b - a) (c - b) r) ∙ ap (λ n. n * r) (omega arith)

-- A step that spends `s`, before steps that spend `n`.
summed :
    (n s r t₀ t₁ t₂ l₀ l₁ l₂ : ℕ)
    → l₀ ≤ l₁
    → l₁ ≤ l₂
    → t₁ + s ≤ t₀ + (l₁ - l₀) * r
    → n + t₂ ≤ t₁ + (l₂ - l₁) * r
    → s + n + t₂ ≤ t₀ + (l₂ - l₀) * r
summed n s r t₀ t₁ t₂ l₀ l₁ l₂ h k p q = omega (arith, gained l₀ l₁ l₂ r h k)

Follows-trans :
    {end : ℕ} {a b c : TokenBucket} → Follows end a b → Follows end b c → Follows end a c
Follows-trans f g = record {
  same_rate = g.same_rate ∙ f.same_rate;
  same_unit = g.same_unit ∙ f.same_unit;
  same_burst = g.same_burst ∙ f.same_burst;
  same_queue = g.same_queue ∙ f.same_queue;
  held = g.held;
  onward = le_trans f.onward g.onward;
  in_time = g.in_time;
}

abbrev total : ℕ → Bool → ℕ → ℕ
total unit granted n = (if granted then suc n else n) * unit

total-spent :
    (unit : ℕ) (granted : Bool) (n : ℕ)
    → total unit granted n ≡ (if granted then unit else 0) + n * unit
total-spent unit true n = suc-mul n unit ∙ omega arith
total-spent unit false n = omega arith

refill-unit : (t : ℕ) (b : TokenBucket) → (refill t b).unit ≡ b.unit
unfolding refill
refill-unit t b = ground arith

pub serve-le :
    (ts : List ℕ) (end : ℕ) (b : TokenBucket)
    → All (λ t. t ≤ end) ts
    → b.last_refill ≤ end
    → b.tokens ≤ b.burst
    → Follows end b (serve ts b).0
      × ((serve ts b).1 * b.unit + (serve ts b).0.tokens
          ≤ b.tokens + ((serve ts b).0.last_refill - b.last_refill) * b.rate)
unfolding serve
serve-le [] end b h k held = (
  record {
    same_rate = refl;
    same_unit = refl;
    same_burst = refl;
    same_queue = refl;
    held = held;
    onward = omega arith;
    in_time = k;
  },
  omega (arith, ap (λ n. n * b.rate) (sub_self b.last_refill)),
)
serve-le (t ∷ ts) end b h k held =
    let f = try_acquire-Follows t end b h.0 k held in
    let b' = (try_acquire t b).0 in
    let granted = (try_acquire t b).1 in
    let (g, le) = serve-le ts end b' h.1 f.in_time f.held in
    let n = (serve ts b').1 in
    let last = (serve ts b').0 in
    let later : n * b.unit + last.tokens
        ≤ b'.tokens + (last.last_refill - b'.last_refill) * b.rate =
      subst (λ u. n * u + last.tokens ≤ b'.tokens + (last.last_refill - b'.last_refill) * b.rate)
        f.same_unit
        (subst
          (λ r. n * b'.unit + last.tokens ≤ b'.tokens + (last.last_refill - b'.last_refill) * r)
          f.same_rate le) in
    let first : b'.tokens + (if granted then b.unit else 0)
        ≤ b.tokens + (b'.last_refill - b.last_refill) * b.rate =
      subst
        (λ u.
          b'.tokens + (if granted then u else 0)
          ≤ b.tokens + (b'.last_refill - b.last_refill) * b.rate)
        (refill-unit t b) (try_acquire-le t b) in
    (
      Follows-trans f g,
      rw (total-spent b.unit granted n) (
          summed (n * b.unit) (if granted then b.unit else 0) b.rate b.tokens b'.tokens last.tokens
            b.last_refill b'.last_refill last.last_refill f.onward g.onward first later),
    )

-- The parameters and the bound on the tokens are kept whatever the times are.
try_acquire-none :
    (t : ℕ) (b : TokenBucket)
    → b.burst < b.unit
    → b.tokens ≤ b.burst
    → ((try_acquire t b).1 ≡ false)
      × ((try_acquire t b).0.burst < (try_acquire t b).0.unit)
      × ((try_acquire t b).0.tokens ≤ (try_acquire t b).0.burst)
unfolding try_acquire refill
try_acquire-none t b small held = ground arith

serve-none :
    (ts : List ℕ) (b : TokenBucket) → b.burst < b.unit → b.tokens ≤ b.burst → (serve ts b).1 ≡ 0
unfolding serve
serve-none [] b small held = refl
serve-none (t ∷ ts) b small held =
    let (e, small', held') = try_acquire-none t b small held in
    rw e (serve-none ts (try_acquire t b).0 small' held')

weaken : (n x l l' end r : ℕ) → l ≤ l' → l' ≤ end → n ≤ x + (l' - l) * r → n ≤ x + (end - l) * r
weaken n x l l' end r h k p = omega (arith, gained l l' end r h k, p)

-- Of a bucket that holds at most its burst and was last refilled at `end` or before: what polls
-- at any times up to `end` take, with the tokens they leave, is at most what was in it and what
-- the time since its last refill adds; the bucket still holds its burst at most, keeps its
-- parameters and is last refilled no earlier than before and no later than `end`; and where the
-- burst is less than one token, nothing is taken.
pub serve-bounded :
    (ts : List ℕ) (end : ℕ) (b : TokenBucket)
    → All (λ t. t ≤ end) ts
    → b.last_refill ≤ end
    → b.tokens ≤ b.burst
    → ((serve ts b).1 * b.unit + (serve ts b).0.tokens ≤ b.tokens + (end - b.last_refill) * b.rate)
      × Follows end b (serve ts b).0
      × (b.burst < b.unit → (serve ts b).1 ≡ 0)
serve-bounded ts end b h k held =
    let (f, le) = serve-le ts end b h k held in
    (
      weaken ((serve ts b).1 * b.unit + (serve ts b).0.tokens) b.tokens b.last_refill
          (serve ts b).0.last_refill end b.rate f.onward f.in_time le,
      f,
      λ small. serve-none ts b small held,
    )
