-- ===== src/Client/Stuck.antt =====
-- src/electrumx.js and src/circuit.js: a probe whose lookup fails definitively.
use mathlib.Core.Path.{subst}
use mathlib.Core.Option.{some-injective}
use native.Mathlib.Decide.{ℕ_discrete}
use strfry_namecoin_policy.Prelude.{
  ℕ, suc, ◌≡◌, ◌≢◌, refl, sym, ap, ◌∙◌, true, false, some, inl, inr, length, map, get_elem?,
  get_elem?-modify_self, get_elem?-modify_ne, get_elem?-map, arith, Option-cases,
}
use strfry_namecoin_policy.Js.{Text, Runtime}
use strfry_namecoin_policy.Circuit.{
  half_open, HostState, HostBreaker, cool, claim, scan, pick_next, fail, succeed, record_success,
  record_failure, is_available,
}
use strfry_namecoin_policy.Circuit.Pick.{IsBlocked, CanProbe, is_available-refused}
use strfry_namecoin_policy.Circuit.Cooldown.{picked_state}
use strfry_namecoin_policy.History.{failed}
use strfry_namecoin_policy.Client.{Client, Network, settle, try_host, attempts}

-- The host at an index is half-open and waits for its probe.
abbrev pub IsProbed : ℕ → HostBreaker → Type 0
IsProbed i b =
    (s : HostState) × (get_elem? b.state i ≡ some s)
    × (s.phase ≡ half_open)
    × (s.half_open_in_flight ≡ true)

cool-probed : (t : ℕ) (s : HostState) → s.phase ≡ half_open → cool t s ≡ s
unfolding cool
cool-probed t s h = ground arith

claim-probed :
    (s : HostState)
    → s.phase ≡ half_open
    → ((claim s).phase ≡ half_open) × ((claim s).half_open_in_flight ≡ true)
unfolding claim
claim-probed s h = ground arith

IsProbed-IsBlocked : (i t : ℕ) (b : HostBreaker) → IsProbed i b → IsBlocked (map (cool t) b.state) i
unfolding is_available
IsProbed-IsBlocked i t b (s, at, half, flying) r found =
    let cooled : get_elem? (map (cool t) b.state) i ≡ some s =
      get_elem?-map (cool t) b.state i at ∙ ap some (cool-probed t s half) in
    subst (λ u. ¬ CanProbe u) (some-injective _ _ (sym cooled ∙ found))
      ((is_available-refused s).0 (ground arith))

-- Picks of any host, and outcomes recorded of any host but this one.
pub data Elsewhere (i : ℕ) : HostBreaker → HostBreaker → Type 0 where
  here : {b : HostBreaker} → Elsewhere i b b
  pick : {b c : HostBreaker} (now : ℕ) → Elsewhere i b c → Elsewhere i b (pick_next now c).0
  success :
      {b c : HostBreaker} (k : ℕ) → k ≢ i → Elsewhere i b c → Elsewhere i b (record_success k c)
  failure :
      {b c : HostBreaker} (now k : ℕ)
      → k ≢ i
      → Elsewhere i b c
      → Elsewhere i b (record_failure now k c)

pick_next-IsProbed : (i now : ℕ) (b : HostBreaker) → IsProbed i b → IsProbed i (pick_next now b).0
unfolding pick_next
pick_next-IsProbed i now b (s, at, half, flying) =
    let cooled : get_elem? (map (cool now) b.state) i ≡ some s =
      get_elem?-map (cool now) b.state i at ∙ ap some (cool-probed now s half) in
    elim (Option-cases (scan (map (cool now) b.state) b.cursor 0 (length b.hosts))) [
      | inl full ↦ rw (full, pick_next) (s, cooled, half, flying)
      | inr (k, found) ↦ elim (ℕ_discrete k i) [
        | yes same ↦
            rw (found, pick_next, same)
              (
                claim s,
                get_elem?-modify_self (map (cool now) b.state) i claim cooled,
                (claim-probed s half).0,
                (claim-probed s half).1,
              )
        | no other ↦
            rw (found, pick_next)
              (
                s,
                get_elem?-modify_ne (map (cool now) b.state) k i claim other ∙ cooled,
                half,
                flying,
              )
      ]
    ]

Elsewhere-IsProbed : {i : ℕ} {b c : HostBreaker} → Elsewhere i b c → IsProbed i b → IsProbed i c
unfolding record_success record_failure
Elsewhere-IsProbed here p = p
Elsewhere-IsProbed {i} (pick now e) p = pick_next-IsProbed i now _ (Elsewhere-IsProbed e p)
Elsewhere-IsProbed {i} (success k other e) p =
    let (s, at, half, flying) = Elsewhere-IsProbed e p in
    (s, get_elem?-modify_ne _ k i succeed other ∙ at, half, flying)
Elsewhere-IsProbed {i} (failure now k other e) p =
    let (s, at, half, flying) = Elsewhere-IsProbed e p in
    (s, get_elem?-modify_ne _ k i (fail now) other ∙ at, half, flying)

-- A lookup that is a half-open host's probe, picked while not every host is blocked, and fails
-- definitively leaves the host out for good: its breaker is never told, so that at every later
-- time, whatever hosts are picked and whatever is recorded of other hosts, it counts as one that
-- waits for its probe. (Only a pick that finds every host blocked can try it again.)
pub definitive-IsBlocked :
    (rt : Runtime) (net : Network) (name : Text) (left j : ℕ) (c : Client) {s : HostState}
    {b : HostBreaker}
    → (pick_next (net.picked_at j) c.breaker).1.all_open ≡ false
    → get_elem?
        (map (cool (net.picked_at j)) c.breaker.state)
        (pick_next (net.picked_at j) c.breaker).1.index
      ≡ some s
    → s.phase ≡ half_open
    → (try_host rt net name j c).1.1 ≡ failed true
    → Elsewhere
        (pick_next (net.picked_at j) c.breaker).1.index
        (attempts rt net name (suc left) j c).0.breaker
        b
    → (t : ℕ) → IsBlocked (map (cool t) b.state) (pick_next (net.picked_at j) c.breaker).1.index
unfolding attempts settle try_host
definitive-IsBlocked rt net name left j c {s} {b} first found half lost others t =
    let i = (pick_next (net.picked_at j) c.breaker).1.index in
    let start : (attempts rt net name (suc left) j c).0.breaker
        ≡ (pick_next (net.picked_at j) c.breaker).0 =
      rw (lost, attempts, settle) refl in
    let probed : IsProbed i (pick_next (net.picked_at j) c.breaker).0 = (
      claim s,
      rw (picked_state (net.picked_at j) c.breaker first) (get_elem?-modify_self _ i claim found),
      (claim-probed s half).0,
      (claim-probed s half).1,
    ) in
    IsProbed-IsBlocked i t b (Elsewhere-IsProbed others (subst (IsProbed i) (sym start) probed))
