-- ===== src/Circuit/Cooldown.antt =====
-- src/circuit.js: how long a host stays out after failures, and the single probe of a half-open
-- one.
use mathlib.Core.Option.{some-injective}
use mathlib.Core.Path.{subst}
use native.Mathlib.Decide.{dec_le}
use native.Mathlib.Nat.{pow-suc}
use strfry_namecoin_policy.Prelude.{
  ℕ, zero, suc, ◌+◌, ◌*◌, ◌^◌, ◌<◌, ◌≤◌, ◌≡◌, ◌≢◌, refl, min, true, false, some, List, [], ◌∷◌, map,
  length, get_elem?, arith, modify, ◌∙◌, get_elem?-modify_self, get_elem?-map, Option-cases, inl,
  inr, sym,
}
use strfry_namecoin_policy.Circuit.{
  HostState, HostBreaker, cool, claim, scan, pick_next, is_available, Picked, fail, next_cooldown,
  opened, half_open, closed, initial_cooldown_ms, max_cooldown_ms, succeed, record_success,
}
use strfry_namecoin_policy.Circuit.Step.{IsValid, pick_next-IsValid}
use strfry_namecoin_policy.Circuit.Pick.{
  CanProbe, is_available_iff, is_available-refused, IsTryable, free, forced, Verdict,
  pick_next-IsFair,
}

out_early :
    (t : ℕ) (s : HostState)
    → s.phase ≡ opened
    → t < s.opened_at + s.cooldown_ms
    → is_available (cool t s) ≡ false
unfolding cool is_available
out_early t s o h = ground arith

out_late :
    (t : ℕ) (s : HostState)
    → s.phase ≡ opened
    → s.opened_at + s.cooldown_ms ≤ t
    → is_available (cool t s) ≡ true
unfolding cool is_available
out_late t s o h = ground arith

-- The host is passed over until this time, and can be tried from then on.
abbrev pub IsOutUntil : ℕ → HostState → Type 0
IsOutUntil end s = (t : ℕ) → (t < end → ¬ CanProbe (cool t s)) × (end ≤ t → CanProbe (cool t s))

pub opened-IsOutUntil :
    (s : HostState) → s.phase ≡ opened → IsOutUntil (s.opened_at + s.cooldown_ms) s
opened-IsOutUntil s o t = (
  λ early. (is_available-refused (cool t s)).0 (out_early t s o early),
  λ late. (is_available_iff (cool t s)).0 (out_late t s o late),
)

pub fail_opens :
    (now : ℕ) (s : HostState)
    → ((fail now s).phase ≡ opened)
      × ((fail now s).opened_at ≡ now)
      × ((fail now s).cooldown_ms ≡ next_cooldown s)
unfolding fail
fail_opens now s = (refl, refl, refl)

-- A success makes a host that has a state available to every later pick.
pub record_success_frees :
    (t i : ℕ) (b : HostBreaker) {s : HostState}
    → get_elem? b.state i ≡ some s
    → IsTryable (map (cool t) (record_success i b).state) i
unfolding record_success succeed cool is_available
record_success_frees t i b {s} found = (
  cool t (succeed s),
  get_elem?-map (cool t) (modify b.state i succeed) i
      (get_elem?-modify_self b.state i succeed found),
  ground arith,
)

-- One more attempt at a host: a pick at the time `t` takes it (as its probe, where its cooldown is
-- over), and the attempt fails.
abbrev pub retry : ℕ → HostState → HostState
retry t s = fail t (claim (cool t s))

pub retries : List ℕ → HostState → HostState
retries [] s = s
retries (t ∷ ts) s = retries ts (retry t s)

-- Each attempt is made when the cooldown that the one before it set is over.
abbrev pub Spaced : HostState → List ℕ → Type 0
Spaced s [] = Unit
Spaced s (t ∷ ts) = (s.opened_at + s.cooldown_ms ≤ t) × Spaced (retry t s) ts

retry_doubles :
    (t : ℕ) (s : HostState)
    → s.phase ≡ opened
    → s.opened_at + s.cooldown_ms ≤ t
    → ((retry t s).cooldown_ms ≡ min (s.cooldown_ms * 2) max_cooldown_ms)
      × ((retry t s).phase ≡ opened)
unfolding cool claim fail
retry_doubles t s o h = ground arith

le-mul_pos : (m p : ℕ) → 1 ≤ p → m ≤ m * p
le-mul_pos m p h = grind arith

min_double : (c p m : ℕ) → 1 ≤ p → min (min (c * 2) m * p) m ≡ min (c * (p * 2)) m
min_double c p m h = elim (dec_le (c * 2) m) [
  | yes small ↦
      let e : min (c * 2) m ≡ c * 2 = omega arith in
      let f : c * 2 * p ≡ c * (p * 2) = omega arith in rw (e, f)
  | no large ↦
      let e : min (c * 2) m ≡ m = omega arith in
      let f : c * 2 * p ≡ c * (p * 2) = omega arith in
      rw e (omega (arith, le-mul_pos m p h, le-mul_pos (c * 2) p h))
]

pow_pos : (n : ℕ) → 1 ≤ 2 ^ n
pow_pos zero = omega arith
pow_pos (suc n) = rw pow-suc (omega (arith, pow_pos n))

fail_closed :
    (now : ℕ) (s : HostState)
    → s.phase ≡ closed
    → ((fail now s).phase ≡ opened) × ((fail now s).cooldown_ms ≡ initial_cooldown_ms)
unfolding fail
fail_closed now s c = ground arith

backoff_from :
    (ts : List ℕ) (s : HostState)
    → s.phase ≡ opened
    → s.cooldown_ms ≤ max_cooldown_ms
    → Spaced s ts
    → (retries ts s).cooldown_ms ≡ min (s.cooldown_ms * 2 ^ length ts) max_cooldown_ms
unfolding retries
backoff_from [] s o h sp = omega arith
backoff_from (t ∷ ts) s o h sp =
    let (doubled, again) = retry_doubles t s o sp.0 in
    backoff_from ts (retry t s) again (omega arith) sp.1
    ∙ rw doubled (
        rw pow-suc (min_double s.cooldown_ms (2 ^ length ts) max_cooldown_ms (pow_pos (length ts))))

abbrev pub last_of : ℕ → List ℕ → ℕ
last_of t [] = t
last_of t (u ∷ us) = last_of u us

retries_open :
    (now : ℕ) (ts : List ℕ) (s : HostState)
    → s.phase ≡ opened
    → s.opened_at ≡ now
    → ((retries ts s).phase ≡ opened) × ((retries ts s).opened_at ≡ last_of now ts)
unfolding retries
retries_open now [] s o e = (o, e)
retries_open now (t ∷ ts) s o e =
    retries_open t ts (retry t s) (fail_opens t (claim (cool t s))).0
      (fail_opens t (claim (cool t s))).1

-- A healthy host that fails and then fails each of `length ts` probes, each made once the
-- cooldown before it is over, is passed over after the last of them for 30 seconds times two to
-- that power, and never for more than 5 minutes, and can be tried from then on.
pub backoff :
    (now : ℕ) (s : HostState) (ts : List ℕ)
    → s.phase ≡ closed
    → Spaced (fail now s) ts
    → IsOutUntil (last_of now ts + min (30_000 * 2 ^ length ts) 300_000) (retries ts (fail now s))
backoff now s ts c sp =
    let (o, first) = fail_closed now s c in
    let lasting : (retries ts (fail now s)).cooldown_ms
        ≡ min (initial_cooldown_ms * 2 ^ length ts) max_cooldown_ms =
      backoff_from ts (fail now s) o (omega arith) sp ∙ rw first in
    let (still, at) = retries_open now ts (fail now s) o (fail_opens now s).1 in
    subst (λ n. IsOutUntil n (retries ts (fail now s))) (omega (arith, lasting, at))
      (opened-IsOutUntil (retries ts (fail now s)) still)

pub not_both :
    {state : List HostState} {c n : ℕ} {p : Picked} {s : HostState}
    → Verdict state c n p
    → p.all_open ≡ false
    → get_elem? state p.index ≡ some s
    → is_available s ≡ false
    → ⊥
not_both {s = s} (free _ (r, found, ok) _ _ _ _) e at no_use =
    (is_available-refused s).0 no_use (subst CanProbe (some-injective _ _ (sym found ∙ at)) ok)
not_both (forced on _ _) e at no_use = cc

-- The picked host's new state: a half-open host has its probe in flight.
claimed_blocked :
    (t : ℕ) (s : HostState) → s.phase ≡ half_open → is_available (cool t (claim s)) ≡ false
unfolding cool claim is_available
claimed_blocked t s e = ground arith

pub picked_state :
    (now : ℕ) (b : HostBreaker)
    → (pick_next now b).1.all_open ≡ false
    → (pick_next now b).0.state ≡ modify (map (cool now) b.state) (pick_next now b).1.index claim
unfolding pick_next
picked_state now b e =
    elim (Option-cases (scan (map (cool now) b.state) b.cursor 0 (length b.hosts))) [
      | inl full ↦ absurd (ground arith)
      | inr (idx, found) ↦ rw (found, pick_next)
    ]

-- A half-open host is probed once: while its probe is unanswered, the next pick, at any time,
-- takes another host, unless every host is blocked.
pub probe_once :
    (now later : ℕ) (b : HostBreaker) {s : HostState}
    → IsValid b
    → (pick_next now b).1.all_open ≡ false
    → get_elem? (map (cool now) b.state) (pick_next now b).1.index ≡ some s
    → s.phase ≡ half_open
    → (pick_next later (pick_next now b).0).1.all_open ≡ false
    → (pick_next later (pick_next now b).0).1.index ≢ (pick_next now b).1.index
probe_once now later b {s} h first found half second same =
    let b' = (pick_next now b).0 in
    let i = (pick_next now b).1.index in
    let fair = pick_next-IsFair later b' (pick_next-IsValid now b h) in
    let kept : get_elem? (map (cool later) b'.state) i ≡ some (cool later (claim s)) =
      get_elem?-map (cool later) b'.state i
        (rw (picked_state now b first) (get_elem?-modify_self _ i claim found)) in
    not_both fair.verdict second
      (subst (λ m. get_elem? (map (cool later) b'.state) m ≡ some (cool later (claim s))) (sym same)
        kept)
      (claimed_blocked later s half)
