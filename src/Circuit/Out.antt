-- ===== src/Circuit/Out.antt =====
-- src/circuit.js: a host that has failed, while other hosts are picked and answer.
use mathlib.Core.Path.{subst}
use native.Mathlib.Decide.{ℕ_discrete}
use strfry_namecoin_policy.Prelude.{
  ℕ, ◌+◌, ◌<◌, ◌≤◌, ◌≡◌, ◌≢◌, false, some, map, length, get_elem?, arith, ◌∙◌, ap,
  get_elem?-modify_self, get_elem?-modify_ne, get_elem?-map, Option-cases, inl, inr, sym, refl,
}
use strfry_namecoin_policy.Circuit.{
  HostState, HostBreaker, cool, claim, scan, pick_next, is_available, fail, next_cooldown,
  record_failure, opened, succeed, record_success,
}
use strfry_namecoin_policy.Circuit.Step.{
  IsValid, pick_next-IsValid, record_success-IsValid, record_failure-IsValid,
}
use strfry_namecoin_policy.Circuit.Pick.{IsTryable, pick_next-IsFair}
use strfry_namecoin_policy.Circuit.Cooldown.{fail_opens, opened-IsOutUntil, not_both}

-- Picks of any host before a time, and outcomes recorded of any host but this one.
pub data Meanwhile (i end : ℕ) : HostBreaker → HostBreaker → Type 0 where
  at_once : {b : HostBreaker} → Meanwhile i end b b
  picking :
      {b c : HostBreaker} (now : ℕ)
      → now < end
      → Meanwhile i end b c
      → Meanwhile i end b (pick_next now c).0
  told_success :
      {b c : HostBreaker} (k : ℕ)
      → k ≢ i
      → Meanwhile i end b c
      → Meanwhile i end b (record_success k c)
  told_failure :
      {b c : HostBreaker} (now k : ℕ)
      → k ≢ i
      → Meanwhile i end b c
      → Meanwhile i end b (record_failure now k c)

module _ (i end : ℕ) (s : HostState) (out : s.phase ≡ opened)
    (lasting : s.opened_at + s.cooldown_ms ≡ end) where
  abbrev Has : HostBreaker → Type 0
  Has b = get_elem? b.state i ≡ some s

  cool-out : (t : ℕ) → t < end → cool t s ≡ s
  unfolding cool
  cool-out t h = ground arith

  claim-out : claim s ≡ s
  unfolding claim
  claim-out = rw out refl

  cooled : (t : ℕ) (b : HostBreaker) → t < end → Has b → get_elem? (map (cool t) b.state) i ≡ some s
  cooled t b h at = get_elem?-map (cool t) b.state i at ∙ ap some (cool-out t h)

  pick_next-Has : (t : ℕ) (b : HostBreaker) → t < end → Has b → Has (pick_next t b).0
  unfolding pick_next
  pick_next-Has t b h at =
      let now_at = cooled t b h at in
      elim (Option-cases (scan (map (cool t) b.state) b.cursor 0 (length b.hosts))) [
        | inl full ↦ rw (full, pick_next) now_at
        | inr (k, found) ↦ elim (ℕ_discrete k i) [
          | yes same ↦
              rw (found, pick_next, same)
                (get_elem?-modify_self (map (cool t) b.state) i claim now_at ∙ ap some claim-out)
          | no other ↦
              rw (found, pick_next)
                (get_elem?-modify_ne (map (cool t) b.state) k i claim other ∙ now_at)
        ]
      ]

  Meanwhile-Has : {b c : HostBreaker} → Meanwhile i end b c → Has b → Has c
  unfolding record_success record_failure
  Meanwhile-Has at_once at = at
  Meanwhile-Has (picking now h m) at = pick_next-Has now _ h (Meanwhile-Has m at)
  Meanwhile-Has (told_success k other m) at =
      get_elem?-modify_ne _ k i succeed other ∙ Meanwhile-Has m at
  Meanwhile-Has (told_failure now k other m) at =
      get_elem?-modify_ne _ k i (fail now) other ∙ Meanwhile-Has m at

  passed_over :
      (t : ℕ) (b : HostBreaker)
      → IsValid b
      → Has b
      → t < end
      → (pick_next t b).1.all_open ≡ false
      → (pick_next t b).1.index ≢ i
  unfolding is_available
  passed_over t b valid at h some_free same =
      not_both (pick_next-IsFair t b valid).verdict some_free
        (subst (λ m. get_elem? (map (cool t) b.state) m ≡ some s) (sym same) (cooled t b h at))
        (rw out refl)

Meanwhile-IsValid : {i end : ℕ} {b c : HostBreaker} → Meanwhile i end b c → IsValid b → IsValid c
Meanwhile-IsValid at_once v = v
Meanwhile-IsValid (picking now h m) v = pick_next-IsValid now _ (Meanwhile-IsValid m v)
Meanwhile-IsValid (told_success k other m) v = record_success-IsValid k _ (Meanwhile-IsValid m v)
Meanwhile-IsValid (told_failure now k other m) v =
    record_failure-IsValid now k _ (Meanwhile-IsValid m v)

-- After a failure of a host at the time `now` in a well-formed registry, whatever hosts are
-- picked before its cooldown is over and whatever is recorded of other hosts: a pick before that
-- takes another host, unless every host is blocked (the pick is then forced); and from then on
-- the host can be tried.
pub record_failure_waits :
    (now i : ℕ) (b : HostBreaker) {c : HostBreaker} {s : HostState}
    → IsValid b
    → get_elem? b.state i ≡ some s
    → Meanwhile i (now + next_cooldown s) (record_failure now i b) c
    → ((t : ℕ)
        → t < now + next_cooldown s
        → (pick_next t c).1.all_open ≡ false
        → (pick_next t c).1.index ≢ i)
      × ((t : ℕ) → now + next_cooldown s ≤ t → IsTryable (map (cool t) c.state) i)
unfolding record_failure
record_failure_waits now i b {c} {s} valid found m =
    let end = now + next_cooldown s in
    let (out, since, for) = fail_opens now s in
    let lasting : (fail now s).opened_at + (fail now s).cooldown_ms ≡ end =
      omega (arith, since, for) in
    let at =
      Meanwhile-Has i end (fail now s) out lasting m
        (get_elem?-modify_self b.state i (fail now) found) in
    (
      λ t early.
          passed_over i end (fail now s) out lasting t c
            (Meanwhile-IsValid m (record_failure-IsValid now i b valid)) at early,
      λ t late. (
        cool t (fail now s),
        get_elem?-map (cool t) c.state i at,
        (opened-IsOutUntil (fail now s) out t).1 (omega (arith, lasting)),
      ),
    )
