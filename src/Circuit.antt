-- ===== src/Circuit.antt =====
-- src/circuit.js: the registry of circuit breakers, one for each ElectrumX host.
-- The clock's reading is the argument `now`; times and cooldowns are whole milliseconds. The
-- logger is left out. A host's `open` state is the constructor `opened`.
pub mod Step
pub mod Pick
pub mod Cooldown
pub mod Out
mod Tests
use strfry_namecoin_policy.Prelude.{
  ℕ, zero, suc, ◌+◌, ◌*◌, ◌%◌, ◌<◌, ◌≡◌, min, Bool, true, false, not, ◌&&◌, ◌||◌, Option, none,
  some, List, [], ◌∷◌, map, length, get_elem?, modify, ltb, leb, if◌then◌else◌,
}

abbrev pub initial_cooldown_ms : ℕ
initial_cooldown_ms = 30_000

abbrev pub max_cooldown_ms : ℕ
max_cooldown_ms = 5 * 60_000

pub record Host : Type 0 where
  pub host : List ℕ
  pub port : ℕ
  pub tls : Bool

pub data Phase : Type 0 where
  closed opened half_open : Phase

pub record HostState : Type 0 where
  pub phase : Phase
  pub opened_at : ℕ
  pub cooldown_ms : ℕ
  pub failures : ℕ
  pub half_open_in_flight : Bool

pub record HostBreaker : Type 0 where
  pub hosts : List Host
  pub state : List HostState
  pub cursor : ℕ

abbrev pub healthy : HostState
healthy = record {
  phase = closed;
  opened_at = 0;
  cooldown_ms = initial_cooldown_ms;
  failures = 0;
  half_open_in_flight = false;
}

-- The constructor refuses an empty list of hosts.
unfoldable pub new_breaker : List Host → Option HostBreaker
new_breaker [] = none
new_breaker (h ∷ hs) =
    some (record { hosts = h ∷ hs; state = map (λ _. healthy) (h ∷ hs); cursor = 0 })

abbrev pub is_opened : Phase → Bool
is_opened closed = false
is_opened opened = true
is_opened half_open = false

-- The first loop of `pickNext`, on one host: `now - openedAt >= cooldownMs`, with no subtraction.
unfoldable pub cool : ℕ → HostState → HostState
cool now s =
    if is_opened s.phase && leb (s.opened_at + s.cooldown_ms) now
    then record s { phase = half_open; half_open_in_flight = false }
    else s

-- The two tests of the second loop of `pickNext`.
unfoldable pub is_available : HostState → Bool
is_available s = elim s.phase [
  | closed ↦ true
  | opened ↦ false
  | half_open ↦ not s.half_open_in_flight
]

-- What the second loop does to the host that it picks.
unfoldable pub claim : HostState → HostState
claim s = elim s.phase [
  | closed ↦ s
  | opened ↦ s
  | half_open ↦ record s { half_open_in_flight = true }
]

-- The second loop of `pickNext`, with `left` rounds left: the first host that can be tried.
unfoldable pub scan : List HostState → (cursor step left : ℕ) → Option ℕ
scan state cursor step zero = none
scan state cursor step (suc left) =
    let idx = (cursor + step) % length state in
    let later = scan state cursor (step + 1) left in
    elim (get_elem? state idx) [
      | none ↦ later
      | some s ↦ if is_available s then some idx else later
    ]

pub record Picked : Type 0 where
  pub host : Option Host
  pub index : ℕ
  pub all_open : Bool

unfoldable pub pick_next : ℕ → HostBreaker → HostBreaker × Picked
pick_next now b =
    let n = length b.hosts in
    let state = map (cool now) b.state in
    elim (scan state b.cursor 0 n) [
      | some idx ↦ (
        record b { state = modify state idx claim; cursor = (idx + 1) % n },
        record { host = get_elem? b.hosts idx; index = idx; all_open = false },
      )
      | none ↦
          let idx = b.cursor % n in
          (
            record b { state = state; cursor = (idx + 1) % n },
            record { host = get_elem? b.hosts idx; index = idx; all_open = true },
          )
    ]

unfoldable pub succeed : HostState → HostState
succeed s = healthy

-- The cooldown after a failure: doubled after a failed probe, up to the cap.
abbrev pub next_cooldown : HostState → ℕ
next_cooldown s = elim s.phase [
  | half_open ↦ min (s.cooldown_ms * 2) max_cooldown_ms
  | closed ↦ initial_cooldown_ms
  | opened ↦ s.cooldown_ms
]

unfoldable pub fail : ℕ → HostState → HostState
fail now s = record {
  phase = opened;
  opened_at = now;
  cooldown_ms = next_cooldown s;
  failures = s.failures + 1;
  half_open_in_flight = false;
}

-- An index with no host changes nothing.
unfoldable pub record_success : ℕ → HostBreaker → HostBreaker
record_success index b = record b { state = modify b.state index succeed }

unfoldable pub record_failure : ℕ → ℕ → HostBreaker → HostBreaker
record_failure now index b = record b { state = modify b.state index (fail now) }
