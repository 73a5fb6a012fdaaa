-- ===== src/Socks5.antt =====
-- src/socks5.js: the handshake with a SOCKS5 proxy. The socket's events come one by one; what it
-- writes is kept in order.
pub mod Request
pub mod Handshake
pub mod Chunks
mod Tests
use strfry_namecoin_policy.Prelude.{
  ℕ, ◌+◌, ◌/◌, ◌%◌, Bool, true, false, not, ◌||◌, Option, none, some, List, [], ◌∷◌, ◌++◌, map,
  length, drop, ltb, leb, ◌==◌, if◌then◌else◌,
}
use strfry_namecoin_policy.Js.{Text}
use strfry_namecoin_policy.Script.{Bytes}

pub data Stage : Type 0 where
  greeting reply tunnel : Stage

pub data Failure : Type 0 where
  bad_greeting_version : ℕ → Failure
  no_method : Failure
  unsupported_method : ℕ → Failure
  bad_reply_version : ℕ → Failure
  connect_failed : (rep : ℕ) → Failure
  unknown_address_type : ℕ → Failure
  timed_out socket_error ended closed : Failure

-- How the promise is settled, with the tunnel's bytes that came with the reply; or the handler
-- throws, which nothing catches.
pub data Outcome : Type 0 where
  resolved : (leftover : Bytes) → Outcome
  rejected : Failure → Outcome
  crashed : Outcome

pub record Socket : Type 0 where
  pub stage : Stage
  pub buf : Bytes
  pub settled : Option Outcome
  pub written : List Bytes

pub data Event : Type 0 where
  connected : Event
  chunk : Bytes → Event
  fails : Failure → Event

-- The first settling counts.
abbrev pub finish : Outcome → Socket → Socket
finish outcome s = elim s.settled [ none ↦ record s { settled = some outcome } | some _ ↦ s ]

abbrev pub write : Bytes → Socket → Socket
write bytes s = record s { written = s.written ++ bytes ∷ [] }

abbrev pub hello : Bytes
hello = 5 ∷ 1 ∷ 0 ∷ []

unfoldable pub connect_request : Bytes → ℕ → Bytes
connect_request host port =
    (5 ∷ 1 ∷ 0 ∷ 3 ∷ length host ∷ []) ++ host ++ (port / 256) ∷ (port % 256) ∷ []

-- The greeting's reply, once the two bytes are there; what follows them stays in the buffer
-- until the next chunk.
unfoldable pub greeted : Bytes → ℕ → Bytes → Socket → Socket
greeted host port (ver ∷ method ∷ rest) s =
    let s' : Socket = record s { buf = rest } in
    if not (ver == 5)
    then finish (rejected (bad_greeting_version ver)) s'
    else if method == 0xff
    then finish (rejected no_method) s'
    else if not (method == 0)
    then finish (rejected (unsupported_method method)) s'
    else if ltb 65535 port
    then finish crashed s'
    else record (write (connect_request host port) s') { stage = reply }
greeted host port buf s = record s { buf = buf }

-- What a buffer makes of the reply to the request.
pub data Reply : Type 0 where
  wait : Reply
  bad : Failure → Reply
  done : (leftover : Bytes) → Reply

unfoldable pub enough : ℕ → Bytes → Reply
enough need buf = if ltb (length buf) need then wait else done (drop need buf)

unfoldable pub read_reply : Bytes → Reply
read_reply (ver ∷ rep ∷ rsv ∷ atyp ∷ rest) =
    let buf : Bytes = ver ∷ rep ∷ rsv ∷ atyp ∷ rest in
    if not (ver == 5)
    then bad (bad_reply_version ver)
    else if not (rep == 0)
    then bad (connect_failed rep)
    else if atyp == 1
    then enough (4 + 4 + 2) buf
    else if atyp == 4
    then enough (4 + 16 + 2) buf
    else if atyp == 3
    then elim rest [ [] ↦ wait | dlen ∷ _ ↦ enough (4 + 1 + dlen + 2) buf ]
    else bad (unknown_address_type atyp)
read_reply buf = wait

unfoldable pub replied : Bytes → Socket → Socket
replied buf s = elim (read_reply buf) [
  | wait ↦ record s { buf = buf }
  | bad failure ↦ finish (rejected failure) (record s { buf = buf })
  | done leftover ↦ finish (resolved leftover) (record s { buf = []; stage = tunnel })
]

-- An event of the socket. Settling removes the listeners of all but `connect`.
unfoldable pub on_event : Bytes → ℕ → Event → Socket → Socket
on_event host port connected s = write hello s
on_event host port (chunk bytes) s = elim s.settled [
  | some _ ↦ s
  | none ↦ elim s.stage [
    | greeting ↦ greeted host port (s.buf ++ bytes) s
    | reply ↦ replied (s.buf ++ bytes) s
    | tunnel ↦ record s { buf = s.buf ++ bytes }
  ]
]
on_event host port (fails failure) s = finish (rejected failure) s

abbrev pub on_events : Bytes → ℕ → List Event → Socket → Socket
on_events host port [] s = s
on_events host port (e ∷ es) s = on_events host port es (on_event host port e s)

abbrev pub fresh : Socket
fresh = record { stage = greeting; buf = []; settled = none; written = [] }

-- `Buffer.from(s, 'ascii')` keeps each code's low byte.
abbrev pub ascii_bytes : Text → Bytes
ascii_bytes s = map (λ c. c % 256) s

-- `connectSocks5`, up to its promise: the bytes of the host, or `none` where it throws at once.
-- A port is a number here.
unfoldable pub host_bytes : (proxy_host host : Text) → Option Bytes
host_bytes proxy_host host =
    if (length proxy_host == 0) || (length host == 0)
    then none
    else if ltb 255 (length (ascii_bytes host))
    then none
    else some (ascii_bytes host)
