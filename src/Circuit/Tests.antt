-- ===== src/Circuit/Tests.antt =====
-- src/circuit.js: runs on two hosts, and the theorems at concrete registries.
use strfry_namecoin_policy.Prelude.{
  ℕ, ◌+◌, ◌*◌, ◌^◌, ◌<◌, ◌≤◌, ◌≡◌, ◌≢◌, refl, min, true, false, some, List, [], ◌∷◌, map, arith,
}
use strfry_namecoin_policy.Circuit.{
  HostState, HostBreaker, Host, new_breaker, cool, claim, scan, pick_next, is_available, fail,
  next_cooldown, record_failure, record_success, succeed, opened, healthy,
}
use strfry_namecoin_policy.Circuit.Step.{IsValid, Reach, start, next, failure, Reach-IsValid}
use strfry_namecoin_policy.Circuit.Pick.{IsFair, IsTryable, pick_next-IsFair}
use strfry_namecoin_policy.Circuit.Out.{
  Meanwhile, at_once, picking, told_failure, record_failure_waits,
}
use strfry_namecoin_policy.Circuit.Cooldown.{IsOutUntil, backoff, retries, probe_once}

program : Unit {0}
unfolding new_breaker pick_next scan cool is_available claim fail record_failure record_success
    succeed
program = tt

abbrev local_host : Host
local_host = record { host = b'l' ∷ []; port = 50002; tls = true }

abbrev two_hosts : List Host
two_hosts = local_host ∷ record local_host { port = 50001 } ∷ []

abbrev fresh : HostBreaker
fresh = record { hosts = two_hosts; state = healthy ∷ healthy ∷ []; cursor = 0 }

abbrev down : HostState
down = record healthy { phase = opened; opened_at = 1000; failures = 1 }

-- The first host has failed at the time 1000.
abbrev one_down : HostBreaker
one_down = record fresh { state = down ∷ healthy ∷ []; cursor = 0 }

runs :
    (new_breaker two_hosts ≡ some fresh)
    × ((pick_next 0 fresh).1 ≡ record { host = some local_host; index = 0; all_open = false })
    × (record_failure 1000 0 fresh ≡ one_down)
    × ((pick_next 2000 one_down).1.index ≡ 1)
    × ((pick_next 31_000 one_down).1.index ≡ 0)
unfolding program
runs = (refl, refl, refl, refl, refl)

Reach-fresh : Reach two_hosts fresh
Reach-fresh = start runs.0

fresh-IsValid : IsValid fresh
fresh-IsValid = Reach-IsValid Reach-fresh

Reach-one_down : Reach two_hosts (record_failure 1000 0 fresh)
Reach-one_down = next Reach-fresh (failure 1000 0 fresh)

one_down-IsValid : IsValid one_down
unfolding program
one_down-IsValid = Reach-IsValid Reach-one_down

Reach-IsValid_example : IsValid (record_failure 1000 0 fresh)
Reach-IsValid_example = Reach-IsValid Reach-one_down

pick_next-IsFair_example :
    IsFair 2000 one_down (pick_next 2000 one_down).0 (pick_next 2000 one_down).1
pick_next-IsFair_example = pick_next-IsFair 2000 one_down one_down-IsValid

-- The second host is picked and fails as well while the first is out.
abbrev both_down : HostBreaker
both_down = record_failure 3000 1 (pick_next 2000 (record_failure 1000 0 fresh)).0

meanwhile : Meanwhile 0 (1000 + next_cooldown healthy) (record_failure 1000 0 fresh) both_down
meanwhile = told_failure 3000 1 (omega arith) (picking 2000 (omega arith) at_once)

record_failure_waits_example :
    ((t : ℕ)
      → t < 1000 + next_cooldown healthy
      → (pick_next t both_down).1.all_open ≡ false
      → (pick_next t both_down).1.index ≢ 0)
    × ((t : ℕ) → 1000 + next_cooldown healthy ≤ t → IsTryable (map (cool t) both_down.state) 0)
record_failure_waits_example = record_failure_waits 1000 0 fresh fresh-IsValid refl meanwhile

backoff_example :
    IsOutUntil
      (91_000 + min (30_000 * 2 ^ 2) 300_000)
      (retries (31_000 ∷ 91_000 ∷ []) (fail 1000 healthy))
unfolding program
backoff_example = backoff 1000 healthy (31_000 ∷ 91_000 ∷ []) refl (omega arith)

probe_once_example :
    (pick_next 40_000 (pick_next 31_000 one_down).0).1.index ≢ (pick_next 31_000 one_down).1.index
unfolding program
probe_once_example = probe_once 31_000 40_000 one_down one_down-IsValid refl refl refl refl
