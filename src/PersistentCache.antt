-- ===== src/PersistentCache.antt =====
-- src/persistent-cache.js: the cache that is kept in a file, with the JSONL backend. The SQLite
-- backend, which the optional package better-sqlite3 provides, is left out, and so are errors of
-- the file system. `now` is the clock's reading in whole milliseconds. An `expires` that is not
-- finite, and `undefined`, are `none`.
pub mod Log
pub mod Kept
pub mod Replay
pub mod Logged
pub mod Restart
mod Coding
mod Tests
use strfry_namecoin_policy.Prelude.{
  ℕ, zero, suc, ◌+◌, Bool, true, false, ◌&&◌, Option, none, some, List, [], ◌∷◌, ◌++◌, length, leb,
  ltb, if◌then◌else◌,
}
use strfry_namecoin_policy.Prelude.Int.{ℤ, pos, negsuc}
use strfry_namecoin_policy.Js.{Text, txt, split, Runtime}
use strfry_namecoin_policy.Js.Json.{
  Json, null, num, str, obj, end, field, Fields, prop, is_text, as_text, is_object, is_nullish,
  to_number, JsonRuntime,
}
use strfry_namecoin_policy.Store
use strfry_namecoin_policy.Store.{lookup, insert}

pub record Entry : Type 0 where
  pub value : Option Json
  pub expires : Option ℤ

pub record PersistentLru : Type 0 where
  pub max : ℕ
  pub ttl_ms : ℕ
  pub compact_every_writes : ℕ
  pub store : List (Text × Entry)
  pub writes : ℕ
  -- What the file holds.
  pub file : Text

-- `expires <= now`
abbrev pub is_over : Option ℤ → ℕ → Bool
is_over none now = false
is_over (some (pos at)) now = leb at now
is_over (some (negsuc n)) now = true

-- A property of an object literal that `JSON.stringify` leaves out where it is `undefined`.
abbrev optional : Text → Option Json → Fields → Fields
optional k none fs = fs
optional k (some v) fs = field k v fs

-- `Number.isFinite(expires) ? expires : null`
abbrev finite : Option ℤ → Json
finite none = null
finite (some at) = num at

-- The records of the log.
unfoldable pub set_record : Text → Entry → Json
set_record k entry = obj (
    field (txt "op") (str (txt "set")) (
      field (txt "k") (str k)
        (optional (txt "v") entry.value (field (txt "e") (finite entry.expires) end))))

unfoldable pub del_record : Text → Json
del_record k = obj (field (txt "op") (str (txt "del")) (field (txt "k") (str k) end))

unfoldable pub clear_record : Json
clear_record = obj (field (txt "op") (str (txt "clear")) end)

module _ (rt : Runtime) (json : JsonRuntime) where
  -- `rec.e == null ? Infinity : Number(rec.e)`
  abbrev pub expires_of : Json → Option ℤ
  expires_of rec =
      if is_nullish (prop rec (txt "e")) then none else to_number rt (prop rec (txt "e"))

  -- What the replay does with a record that is an object.
  unfoldable pub replay_record : (now ttl_ms : ℕ) → Json → List (Text × Entry) → List (Text × Entry)
  replay_record now ttl_ms rec store = elim (as_text (prop rec (txt "k"))) [
    | none ↦ if is_text (prop rec (txt "op")) (txt "clear") then [] else store
    | some k ↦
        if is_text (prop rec (txt "op")) (txt "set")
        then if ltb 0 ttl_ms && is_over (expires_of rec) now
          then Store.delete k store
          else insert k (record { value = prop rec (txt "v"); expires = expires_of rec }) store
        else if is_text (prop rec (txt "op")) (txt "del")
        then Store.delete k store
        else if is_text (prop rec (txt "op")) (txt "clear")
        then []
        else store
  ]

  unfoldable pub replay_line : (now ttl_ms : ℕ) → Text → List (Text × Entry) → List (Text × Entry)
  replay_line now ttl_ms [] store = store
  replay_line now ttl_ms (c ∷ line) store = elim (json.parse (c ∷ line)) [
    | none ↦ store
    | some rec ↦ if is_object (some rec) then replay_record now ttl_ms rec store else store
  ]

  unfoldable pub replay : (now ttl_ms : ℕ) → List Text → List (Text × Entry) → List (Text × Entry)
  replay now ttl_ms [] store = store
  replay now ttl_ms (line ∷ lines) store =
      replay now ttl_ms lines (replay_line now ttl_ms line store)

  -- The hot map alone: what is dropped leaves no record.
  unfoldable pub evict_if_needed : ℕ → List (Text × Entry) → List (Text × Entry)
  evict_if_needed max [] = []
  evict_if_needed max (e ∷ m) =
      let rest = evict_if_needed max m in if ltb max (length (e ∷ m)) then rest else e ∷ m

  -- The constructor, on what the file holds; a file that is not there is opened empty.
  unfoldable pub init_jsonl :
      (max ttl_ms compact_every_writes now : ℕ) → Option Text → PersistentLru
  init_jsonl max ttl_ms compact_every_writes now found = record {
    max = max;
    ttl_ms = ttl_ms;
    compact_every_writes = compact_every_writes;
    store =
        evict_if_needed max
          (elim found [ none ↦ [] | some text ↦ replay now ttl_ms (split 10 text) [] ]);
    writes = 0;
    file = elim found [ none ↦ [] | some text ↦ text ];
  }

  unfoldable pub line_of : Json → Text
  line_of rec = json.stringify rec ++ 10 ∷ []

  -- What compaction writes.
  unfoldable pub compacted : List (Text × Entry) → Text
  compacted [] = []
  compacted ((k, entry) ∷ m) = line_of (set_record k entry) ++ compacted m

  unfoldable pub compact_jsonl : PersistentLru → PersistentLru
  compact_jsonl c = record c { file = compacted c.store; writes = 0 }

  unfoldable pub append_jsonl : Json → PersistentLru → PersistentLru
  append_jsonl rec c =
      let c' : PersistentLru = record c { file = c.file ++ line_of rec; writes = c.writes + 1 } in
      if leb c'.compact_every_writes c'.writes then compact_jsonl c' else c'

  unfoldable pub delete : Text → PersistentLru → PersistentLru
  delete key c = append_jsonl (del_record key) (record c { store = Store.delete key c.store })

  unfoldable pub get : ℕ → Text → PersistentLru → PersistentLru × Option Json
  unfolding delete
  get now key c = elim (lookup key c.store) [
    | none ↦ (c, none)
    | some entry ↦
        if ltb 0 c.ttl_ms && is_over entry.expires now
        then (delete key c, none)
        else (record c { store = insert key entry (Store.delete key c.store) }, entry.value)
  ]

  unfoldable pub has : ℕ → Text → PersistentLru → PersistentLru × Bool
  has now key c =
      let (c', found) = get now key c in (c', elim found [ none ↦ false | some _ ↦ true ])

  -- `effectiveTtl > 0 ? now + effectiveTtl : Infinity`, with `ttlMs ?? this.ttlMs`.
  abbrev pub expires_at : ℕ → ℕ → Option ℕ → Option ℤ
  expires_at now default none = if ltb 0 default then some (pos (now + default)) else none
  expires_at now default (some ttl_ms) = if ltb 0 ttl_ms then some (pos (now + ttl_ms)) else none

  -- `undefined` is stored as null.
  abbrev pub stored : Option Json → Json
  stored none = null
  stored (some v) = v

  abbrev pub entry_of : ℕ → ℕ → Option Json → Option ℕ → Entry
  entry_of now default value ttl_ms = record {
    value = some (stored value);
    expires = expires_at now default ttl_ms;
  }

  unfoldable pub set : ℕ → Text → Option Json → Option ℕ → PersistentLru → PersistentLru
  set now key value ttl_ms c =
      let entry = entry_of now c.ttl_ms value ttl_ms in
      let held : PersistentLru = record c { store = insert key entry (Store.delete key c.store) } in
      let written = append_jsonl (set_record key entry) held in
      record written { store = evict_if_needed written.max written.store }

  unfoldable pub clear : PersistentLru → PersistentLru
  clear c = append_jsonl clear_record (record c { store = [] })
