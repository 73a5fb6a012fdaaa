-- ===== src/Circuit/Step.antt =====
-- src/circuit.js: the well-formedness of a breaker registry, kept by every operation in any order.
use mathlib.Core.Option.{some-injective}
use mathlib.Core.Path.{subst}
use strfry_namecoin_policy.Prelude.{
  ℕ, ◌<◌, ◌≤◌, ◌≡◌, refl, true, some, List, [], ◌∷◌, map, length, arith, All, length-modify,
  Option-cases, ◌∙◌, inl, inr, All-modify, All-map, length-map,
}
use strfry_namecoin_policy.Circuit.{
  closed, half_open, Host, HostState, HostBreaker, new_breaker, cool, claim, scan, pick_next,
  succeed, fail, record_success, record_failure, initial_cooldown_ms, max_cooldown_ms, healthy,
}

-- What holds of each host's state: the cooldown stays between its two constants, only a half-open
-- host has a probe in flight, and a closed one has no failures and the initial cooldown.
pub record IsSound (s : HostState) : Type 0 where
  pub at_least : initial_cooldown_ms ≤ s.cooldown_ms
  pub at_most : s.cooldown_ms ≤ max_cooldown_ms
  pub probing : s.half_open_in_flight ≡ true → s.phase ≡ half_open
  pub reset : s.phase ≡ closed → s ≡ healthy

pub record IsValid (b : HostBreaker) : Type 0 where
  pub some_host : 0 < length b.hosts
  pub paired : length b.state ≡ length b.hosts
  pub in_range : b.cursor < length b.hosts
  pub sound : All IsSound b.state

pub healthy-IsSound : IsSound healthy
healthy-IsSound = record {
  at_least = omega arith;
  at_most = omega arith;
  probing = λ e. cc;
  reset = λ _. refl;
}

cool-IsSound : (now : ℕ) (s : HostState) → IsSound s → IsSound (cool now s)
unfolding cool
cool-IsSound now s h = grind arith

claim-IsSound : (s : HostState) → IsSound s → IsSound (claim s)
unfolding claim
claim-IsSound s h = grind arith

fail-IsSound : (now : ℕ) (s : HostState) → IsSound s → IsSound (fail now s)
unfolding fail
fail-IsSound now s h = grind arith

succeed-IsSound : (s : HostState) → IsSound s → IsSound (succeed s)
unfolding succeed
succeed-IsSound s h = healthy-IsSound

all_healthy : (hs : List Host) → All IsSound (map (λ _. healthy) hs)
all_healthy [] = tt
all_healthy (h ∷ hs) = (healthy-IsSound, all_healthy hs)

pub new_breaker-IsValid :
    (hs : List Host) {b : HostBreaker} → new_breaker hs ≡ some b → IsValid b × (b.hosts ≡ hs)
unfolding new_breaker
new_breaker-IsValid [] e = cc
new_breaker-IsValid (h ∷ hs) {b} e =
    subst (λ b. IsValid b × (b.hosts ≡ h ∷ hs)) (some-injective _ _ e)
      (
        record {
          some_host = omega arith;
          paired = length-map (λ _. healthy) (h ∷ hs);
          in_range = omega arith;
          sound = all_healthy (h ∷ hs);
        },
        refl,
      )

pub pick_next-IsValid : (now : ℕ) (b : HostBreaker) → IsValid b → IsValid (pick_next now b).0
unfolding pick_next
pick_next-IsValid now b h =
    let cooled : All IsSound (map (cool now) b.state) =
      All-map IsSound IsSound (cool now) b.state (cool-IsSound now) h.sound in
    let as_long : length (map (cool now) b.state) ≡ length b.hosts =
      length-map (cool now) b.state ∙ h.paired in
    let some_host = h.some_host in
    elim (Option-cases (scan (map (cool now) b.state) b.cursor 0 (length b.hosts))) [
      | inl full ↦
          rw (full, pick_next)
            (record {
              some_host = some_host;
              paired = as_long;
              in_range = omega arith;
              sound = cooled;
            })
      | inr (idx, found) ↦
          rw (found, pick_next)
            (record {
              some_host = some_host;
              paired = length-modify _ idx claim ∙ as_long;
              in_range = omega arith;
              sound = All-modify IsSound _ idx claim claim-IsSound cooled;
            })
    ]

pub record_success-IsValid : (i : ℕ) (b : HostBreaker) → IsValid b → IsValid (record_success i b)
unfolding record_success
record_success-IsValid i b h = record {
  some_host = h.some_host;
  paired = length-modify b.state i succeed ∙ h.paired;
  in_range = h.in_range;
  sound = All-modify IsSound b.state i succeed succeed-IsSound h.sound;
}

pub record_failure-IsValid :
    (now i : ℕ) (b : HostBreaker) → IsValid b → IsValid (record_failure now i b)
unfolding record_failure
record_failure-IsValid now i b h = record {
  some_host = h.some_host;
  paired = length-modify b.state i (fail now) ∙ h.paired;
  in_range = h.in_range;
  sound = All-modify IsSound b.state i (fail now) (fail-IsSound now) h.sound;
}

-- The operations in any order, at any times.
pub data Step : HostBreaker → HostBreaker → Type 0 where
  pick : (now : ℕ) (b : HostBreaker) → Step b (pick_next now b).0
  success : (i : ℕ) (b : HostBreaker) → Step b (record_success i b)
  failure : (now i : ℕ) (b : HostBreaker) → Step b (record_failure now i b)

pub data Reach (hs : List Host) : HostBreaker → Type 0 where
  start : {b : HostBreaker} → new_breaker hs ≡ some b → Reach hs b
  next : {b c : HostBreaker} → Reach hs b → Step b c → Reach hs c

-- In every state that a registry over the hosts `hs` can reach, by picks, successes and failures
-- in any order, at any times and for any indices, each host's cooldown is between 30 seconds and
-- 5 minutes, only a half-open host has a probe in flight, a closed host is as it was at the start,
-- there is one state for each host, and the cursor is the index of a host.
pub Reach-IsValid : {hs : List Host} {b : HostBreaker} → Reach hs b → IsValid b
Reach-IsValid {hs} (start e) = (new_breaker-IsValid hs e).0
Reach-IsValid (next r (pick now b)) = pick_next-IsValid now b (Reach-IsValid r)
Reach-IsValid (next r (success i b)) = record_success-IsValid i b (Reach-IsValid r)
Reach-IsValid (next r (failure now i b)) = record_failure-IsValid now i b (Reach-IsValid r)
