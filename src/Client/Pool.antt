-- ===== src/Client/Pool.antt =====
-- src/electrumx.js: PooledConnection, as what its calls, timers and socket do to it. What is
-- sent is left out, and so are the idle timer, which kills the connection, and the opening of
-- the socket.
pub mod Once
use strfry_namecoin_policy.Prelude.{
  ℕ, ◌+◌, Bool, true, false, not, ◌||◌, Option, none, some, List, [], ◌∷◌, ◌++◌, map, ◌==◌,
  if◌then◌else◌,
}
use strfry_namecoin_policy.Prelude.Int.{pos}
use strfry_namecoin_policy.Js.{Text, txt, trim}
use strfry_namecoin_policy.Js.Json.{Json, null, num, prop, truthy, JsonRuntime}

-- How the promise of a call is settled.
pub data Settled : Type 0 where
  resolved : (result : Option Json) → Settled
  rejected : Settled

-- `settled` lists the calls that are settled, in order; `crashed` is set where a handler throws,
-- which nothing catches.
pub record PooledConnection : Type 0 where
  pub connected : Bool
  pub dead : Bool
  pub buf : Text
  pub pending : List ℕ
  pub next_id : ℕ
  pub settled : List (ℕ × Settled)
  pub crashed : Bool

abbrev pub fresh : PooledConnection
fresh = record {
  connected = false;
  dead = false;
  buf = [];
  pending = [];
  next_id = 1;
  settled = [];
  crashed = false;
}

abbrev pub has_id : ℕ → List ℕ → Bool
has_id id [] = false
has_id id (i ∷ is) = (i == id) || has_id id is

abbrev pub drop_id : ℕ → List ℕ → List ℕ
drop_id id [] = []
drop_id id (i ∷ is) = let rest = drop_id id is in if i == id then is else i ∷ rest

-- A call that waits is settled; one that does not is left alone.
unfoldable pub settle : ℕ → Settled → PooledConnection → PooledConnection
settle id how c =
    if has_id id c.pending
    then record c { pending = drop_id id c.pending; settled = c.settled ++ (id, how) ∷ [] }
    else c

-- `_call` on a socket that takes what is written, or throws; a connection that is not there
-- rejects at once, and uses no id.
unfoldable pub call : (written : Bool) → PooledConnection → PooledConnection
call written c =
    let begun : PooledConnection = record c {
      pending = c.pending ++ c.next_id ∷ [];
      next_id = c.next_id + 1;
    } in
    if c.dead || not c.connected
    then c
    else if written
    then begun
    else settle c.next_id rejected begun

-- `_kill`
unfoldable pub kill : PooledConnection → PooledConnection
kill c = if c.dead then c else record c {
  connected = false;
  dead = true;
  settled = c.settled ++ map (λ id. (id, rejected)) c.pending;
  pending = [];
}

abbrev pub is_null : Json → Bool
is_null null = true
is_null _ = false

-- The id of a message, as far as it is one of a call.
abbrev pub id_of : Option Json → Option ℕ
id_of (some (num (pos n))) = some n
id_of _ = none

abbrev pub answer_of : Json → Settled
answer_of msg =
    if truthy (prop msg (txt "error")) then rejected else resolved (prop msg (txt "result"))

-- What a line does: a message that is null has no `id` to read.
unfoldable pub on_line : JsonRuntime → Text → PooledConnection → PooledConnection
on_line json line c = if c.crashed then c else elim (trim line) [
  | [] ↦ c
  | d ∷ text ↦ elim (json.parse (d ∷ text)) [
    | none ↦ c
    | some msg ↦
        if is_null msg
        then record c { crashed = true }
        else elim (id_of (prop msg (txt "id"))) [ none ↦ c | some id ↦ settle id (answer_of msg) c ]
  ]
]

unfoldable pub on_lines : JsonRuntime → List Text → PooledConnection → PooledConnection
on_lines json [] c = c
on_lines json (line ∷ lines) c = on_lines json lines (on_line json line c)

-- The lines that are complete, and what is left of the buffer.
unfoldable pub take_lines : Text → List Text × Text
take_lines [] = ([], [])
take_lines (c ∷ s) =
    let (lines, rest) = take_lines s in
    if c == 10
    then ([] ∷ lines, rest)
    else elim lines [ [] ↦ ([], c ∷ rest) | l ∷ ls ↦ ((c ∷ l) ∷ ls, rest) ]

-- `_onData`
unfoldable pub on_data : JsonRuntime → Text → PooledConnection → PooledConnection
on_data json chunk c =
    let (lines, rest) = take_lines (c.buf ++ chunk) in record (on_lines json lines c) { buf = rest }

-- The socket opens, also where the connection was killed meanwhile; a call, its timer, what the
-- socket receives, and the end.
pub data Event : Type 0 where
  opens : Event
  calls : (written : Bool) → Event
  times_out : (id : ℕ) → Event
  chunk : Text → Event
  killed : Event

unfoldable pub on_event : JsonRuntime → Event → PooledConnection → PooledConnection
on_event json opens c = record c { connected = true }
on_event json (calls written) c = call written c
on_event json (times_out id) c = settle id rejected c
on_event json (chunk text) c = on_data json text c
on_event json killed c = kill c

abbrev pub on_events : JsonRuntime → List Event → PooledConnection → PooledConnection
on_events json [] c = c
on_events json (e ∷ es) c = on_events json es (on_event json e c)
