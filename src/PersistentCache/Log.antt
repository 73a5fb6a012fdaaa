-- ===== src/PersistentCache/Log.antt =====
-- src/persistent-cache.js: what the replay of a log makes of its records.
use mathlib.Core.List.{append_assoc, append-nil}
use strfry_namecoin_policy.Prelude.{
  ℕ, ◌<◌, ◌≡◌, refl, sym, ap, ◌∙◌, true, false, ◌&&◌, Option, none, some, List, [], ◌∷◌, ◌++◌,
  length, ltb, ◌==◌, if◌then◌else◌, arith, Bool-cases, inl, inr, All,
}
use strfry_namecoin_policy.Prelude.Int.{ℤ}
use strfry_namecoin_policy.Js.{Text, split, Runtime, same}
use strfry_namecoin_policy.Js.Json.{
  Json, prop, field_of, is_text, as_text, is_object, is_nullish, to_number, JsonRuntime,
}
use strfry_namecoin_policy.Store.{delete, insert, Distinct, IsAbsent}
use strfry_namecoin_policy.Store.Laws.{
  IsAbsent-append, same-false_sym, insert_absent, delete_absent,
}
use strfry_namecoin_policy.PersistentCache.{
  Entry, is_over, set_record, del_record, clear_record, replay_record, replay_line, replay, line_of,
  compacted,
}

-- A text on a line of its own.
abbrev pub IsLine : Text → Type 0
IsLine s = (0 < length s) × All (λ c. (c == 10) ≡ false) s

-- `JSON.stringify` writes no line feed, and `JSON.parse` reads back what it wrote.
pub record IsFaithful (json : JsonRuntime) : Type 0 where
  pub one_line : (v : Json) → IsLine (json.stringify v)
  pub back : (v : Json) → json.parse (json.stringify v) ≡ some v

pub split-line :
    (s rest : Text) → All (λ c. (c == 10) ≡ false) s → split 10 (s ++ 10 ∷ rest) ≡ s ∷ split 10 rest
unfolding split
split-line [] rest h = refl
split-line (c ∷ s) rest h = rw (h.0, split-line s rest h.1) refl

-- What is kept of an entry that is replayed at a time.
abbrev pub place : ℕ → ℕ → Text → Entry → List (Text × Entry) → List (Text × Entry)
place now ttl_ms k entry store =
    if ltb 0 ttl_ms && is_over entry.expires now then delete k store else insert k entry store

-- The entries that are not over, in their order.
unfoldable pub live : ℕ → ℕ → List (Text × Entry) → List (Text × Entry)
live now ttl_ms [] = []
live now ttl_ms ((k, entry) ∷ m) =
    let rest = live now ttl_ms m in
    if ltb 0 ttl_ms && is_over entry.expires now then rest else (k, entry) ∷ rest

module _ (rt : Runtime) (json : JsonRuntime) where
  abbrev PlacesAs : ℕ → ℕ → Text → List (Text × Entry) → Option Json → Option ℤ → Type 0
  PlacesAs now ttl_ms k store value expires =
      let entry : Entry = record { value = value; expires = expires } in
      replay_record rt json now ttl_ms (set_record k entry) store ≡ place now ttl_ms k entry store

  pub replay-set_record :
      (now ttl_ms : ℕ) (k : Text) (store : List (Text × Entry)) (value : Option Json)
      (expires : Option ℤ)
      → PlacesAs now ttl_ms k store value expires
  unfolding replay_record set_record prop field_of is_text as_text is_nullish to_number same
  replay-set_record now ttl_ms k store none none = refl
  replay-set_record now ttl_ms k store none (some at) = refl
  replay-set_record now ttl_ms k store (some v) none = refl
  replay-set_record now ttl_ms k store (some v) (some at) = refl

  pub replay-del_record :
      (now ttl_ms : ℕ) (k : Text) (store : List (Text × Entry))
      → replay_record rt json now ttl_ms (del_record k) store ≡ delete k store
  unfolding replay_record del_record prop field_of is_text as_text same
  replay-del_record now ttl_ms k store = refl

  pub replay-clear_record :
      (now ttl_ms : ℕ) (store : List (Text × Entry))
      → replay_record rt json now ttl_ms clear_record store ≡ []
  unfolding replay_record clear_record prop field_of is_text as_text same
  replay-clear_record now ttl_ms store = refl

  pub replay-append :
      (now ttl_ms : ℕ) (ls rs : List Text) (store : List (Text × Entry))
      → replay rt json now ttl_ms (ls ++ rs) store
        ≡ replay rt json now ttl_ms rs (replay rt json now ttl_ms ls store)
  unfolding replay
  replay-append now ttl_ms [] rs store = refl
  replay-append now ttl_ms (l ∷ ls) rs store =
      replay-append now ttl_ms ls rs (replay_line rt json now ttl_ms l store)

  replay_line-parse :
      (now ttl_ms : ℕ) (s : Text) {rec : Json} (store : List (Text × Entry))
      → 0 < length s
      → json.parse s ≡ some rec
      → is_object (some rec) ≡ true
      → replay_line rt json now ttl_ms s store ≡ replay_record rt json now ttl_ms rec store
  unfolding replay_line
  replay_line-parse now ttl_ms [] store h e o = absurd (ground arith)
  replay_line-parse now ttl_ms (c ∷ s) store h e o = rw (e, o, replay_line) refl

  replay_line-stringify :
      IsFaithful json
      → (now ttl_ms : ℕ) (rec : Json) (store : List (Text × Entry)) → is_object (some rec) ≡ true
      → replay_line rt json now ttl_ms (json.stringify rec) store
        ≡ replay_record rt json now ttl_ms rec store
  replay_line-stringify faithful now ttl_ms rec store h =
      replay_line-parse now ttl_ms (json.stringify rec) store (faithful.one_line rec).0
        (faithful.back rec) h

  -- Replaying a file to which a record is added.
  pub replay-split :
      IsFaithful json
      → (now ttl_ms : ℕ) (rec : Json) (rest : Text) (store : List (Text × Entry))
      → is_object (some rec) ≡ true
      → replay rt json now ttl_ms (split 10 (line_of rt json rec ++ rest)) store
        ≡ replay rt json now ttl_ms (split 10 rest) (replay_record rt json now ttl_ms rec store)
  unfolding replay line_of
  replay-split faithful now ttl_ms rec rest store h =
      let s = json.stringify rec in
      rw (append_assoc s (10 ∷ []) rest, split-line s rest (faithful.one_line rec).1)
        (ap (replay rt json now ttl_ms (split 10 rest))
          (replay_line-stringify faithful now ttl_ms rec store h))

  abbrev Fresh : List (Text × Entry) → List (Text × Entry) → Type 0
  Fresh acc m = All (λ e. IsAbsent e.0 acc) m

  Fresh-append :
      (k : Text) (entry : Entry) (acc m : List (Text × Entry))
      → IsAbsent k m
      → Fresh acc m
      → Fresh (acc ++ (k, entry) ∷ []) m
  Fresh-append k entry acc [] a h = tt
  Fresh-append k entry acc ((q, v) ∷ m) a h = (
    IsAbsent-append q k entry acc (same-false_sym q k a.0) h.0,
    Fresh-append k entry acc m a.1 h.1,
  )

  pub replay-end :
      (now ttl_ms : ℕ) (store : List (Text × Entry))
      → replay rt json now ttl_ms (split 10 []) store ≡ store
  unfolding replay replay_line split
  replay-end now ttl_ms store = refl

  -- The record of an entry, replayed where its key is new.
  replay-first :
      IsFaithful json
      → (now ttl_ms : ℕ) (k : Text) (entry : Entry) (rest : Text) (acc : List (Text × Entry))
      → replay rt json now ttl_ms (split 10 (line_of rt json (set_record k entry) ++ rest)) acc
        ≡ replay rt json now ttl_ms (split 10 rest) (place now ttl_ms k entry acc)
  unfolding is_object set_record
  replay-first faithful now ttl_ms k entry rest acc =
      replay-split faithful now ttl_ms (set_record k entry) rest acc refl
      ∙ ap (replay rt json now ttl_ms (split 10 rest))
          (replay-set_record now ttl_ms k acc entry.value entry.expires)

  replay-compacted_onto :
      IsFaithful json
      → (now ttl_ms : ℕ) (m acc : List (Text × Entry)) → Fresh acc m
      → Distinct m
      → replay rt json now ttl_ms (split 10 (compacted rt json m)) acc ≡ acc ++ live now ttl_ms m
  unfolding compacted live
  replay-compacted_onto faithful now ttl_ms [] acc h d =
      replay-end now ttl_ms acc ∙ sym (append-nil acc)
  replay-compacted_onto faithful now ttl_ms ((k, entry) ∷ m) acc h d =
      replay-first faithful now ttl_ms k entry (compacted rt json m) acc
      ∙ elim (Bool-cases (ltb 0 ttl_ms && is_over entry.expires now)) [
        | inl over ↦
            rw (over, delete_absent k acc h.0)
              (replay-compacted_onto faithful now ttl_ms m acc h.1 d.1)
        | inr good ↦
            rw (good, insert_absent k entry acc h.0)
              (replay-compacted_onto faithful now ttl_ms m (acc ++ (k, entry) ∷ [])
                  (Fresh-append k entry acc m d.0 h.1) d.1
                ∙ append_assoc acc ((k, entry) ∷ []) (live now ttl_ms m))
      ]

  Fresh-nil : (m : List (Text × Entry)) → Fresh [] m
  Fresh-nil [] = tt
  Fresh-nil (e ∷ m) = (tt, Fresh-nil m)

  -- A compacted file, replayed at any time, gives the entries that are not over, in the order of
  -- the map.
  pub replay-compacted :
      IsFaithful json
      → (now ttl_ms : ℕ) (m : List (Text × Entry)) → Distinct m
      → replay rt json now ttl_ms (split 10 (compacted rt json m)) [] ≡ live now ttl_ms m
  replay-compacted faithful now ttl_ms m d =
      replay-compacted_onto faithful now ttl_ms m [] (Fresh-nil m) d
