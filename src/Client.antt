-- ===== src/Client.antt =====
-- src/electrumx.js: the client's `nameShow`, with its attempts over the hosts, and certificate
-- pins.
pub mod Attempts
pub mod Stuck
pub mod Pins
pub mod Pool
mod Tests
use strfry_namecoin_policy.Prelude.{
  ℕ, zero, suc, ◌+◌, Bool, true, false, ◌||◌, Option, none, some, length, ltb, ◌==◌, if◌then◌else◌,
}
use strfry_namecoin_policy.Prelude.Int.{ℤ, pos, negsuc}
use strfry_namecoin_policy.Js.{Text, Runtime, byte_length}
use strfry_namecoin_policy.Js.Json.{str}
use strfry_namecoin_policy.Circuit.{Host, HostBreaker, pick_next, record_success, record_failure}
use strfry_namecoin_policy.History.{
  NameRow, Outcome, missing, found, failed, TipCache, Server, run_resolve,
}
use strfry_namecoin_policy.Resolver
use strfry_namecoin_policy.Resolver.{NameReply}

abbrev pub namecoin_name_max_bytes : ℕ
namecoin_name_max_bytes = 255

pub record Client : Type 0 where
  pub breaker : HostBreaker
  pub retries : ℤ
  pub min_confirmations : ℕ
  pub tip : TipCache

-- One attempt's connection: it does not come about (a certificate without a pin ends it, too),
-- or the server answers over it, and it may be lost (to the time limit, to an error of the
-- socket) before the lookup is done.
pub data Link : Type 0 where
  refused : Link
  linked : (server : Server) (lost : Bool) → Link

-- For each attempt: its connection, and the clock when the host is picked, when the tip is looked
-- at, and when a failure is recorded.
pub record Network : Type 0 where
  pub link : ℕ → Option Host → Link
  pub picked_at : ℕ → ℕ
  pub asked_at : ℕ → ℕ
  pub failed_at : ℕ → ℕ

unfoldable pub query_on_host : Runtime → Link → Text → ℕ → ℕ → TipCache → TipCache × Outcome
query_on_host rt refused name min_confirmations now cache = (cache, failed false)
query_on_host rt (linked server lost) name min_confirmations now cache =
    let (cache', outcome) = run_resolve rt server (some (pos min_confirmations)) name now cache in
    (cache', if lost then failed false else outcome)

-- What `nameShow` ends in.
pub data Shown : Type 0 where
  row : NameRow → Shown
  no_row : Shown
  threw : (definitive : Bool) → Shown

-- What the outcome of an attempt on the host `index` leads to; `retry` is the rest of the loop.
unfoldable pub settle :
    Network → ℕ → ℕ → Client → Outcome → (Client → Client × Shown) → Client × Shown
settle net attempt index c missing retry =
    (record c { breaker = record_success index c.breaker }, no_row)
settle net attempt index c (found r) retry =
    (record c { breaker = record_success index c.breaker }, row r)
settle net attempt index c (failed true) retry = (c, threw true)
settle net attempt index c (failed false) retry =
    retry (record c { breaker = record_failure (net.failed_at attempt) index c.breaker })

-- The client once a host is picked and has answered, with the host's index and the outcome.
unfoldable pub try_host : Runtime → Network → Text → ℕ → Client → Client × (ℕ × Outcome)
try_host rt net name attempt c =
    let (breaker, picked) = pick_next (net.picked_at attempt) c.breaker in
    let (tip, outcome) =
      query_on_host rt (net.link attempt picked.host) name c.min_confirmations
        (net.asked_at attempt) c.tip in
    (record c { breaker = breaker; tip = tip }, (picked.index, outcome))

-- The loop, with `left` attempts left.
unfoldable pub attempts : Runtime → Network → Text → (left attempt : ℕ) → Client → Client × Shown
attempts rt net name zero attempt c = (c, threw false)
attempts rt net name (suc left) attempt c =
    let (c', tried) = try_host rt net name attempt c in
    settle net attempt tried.0 c' tried.1 (λ c''. attempts rt net name left (attempt + 1) c'')

-- `retries + 1`, and no attempt where that is not positive.
abbrev pub max_attempts : ℤ → ℕ
max_attempts (pos n) = n + 1
max_attempts (negsuc n) = 0

unfoldable pub name_show : Runtime → Network → Text → Client → Client × Shown
name_show rt net name c =
    if (byte_length name == 0) || ltb namecoin_name_max_bytes (byte_length name)
    then (c, threw true)
    else attempts rt net name (max_attempts c.retries) 0 c
