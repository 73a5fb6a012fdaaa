-- ===== src/PersistentCache/Restart.antt =====
-- src/persistent-cache.js: that the file keeps what the memory holds, through any operations and
-- over a restart.
use native.Mathlib.Nat.{le_trans}
use strfry_namecoin_policy.Prelude.{
  ℕ, ◌+◌, ◌≤◌, ◌≡◌, refl, sym, ◌∙◌, false, ◌&&◌, Option, some, List, [], ◌∷◌, length, leb, ltb,
  arith, Bool-cases, Option-cases, inl, inr, none,
}
use strfry_namecoin_policy.Js.{Text, split, Runtime}
use strfry_namecoin_policy.Js.Json.{Json, is_object, JsonRuntime}
use strfry_namecoin_policy.Store
use strfry_namecoin_policy.Store.{Distinct, lookup}
use strfry_namecoin_policy.Store.Laws.{
  delete-Distinct, length-delete-le, lookup_absent, delete-IsAbsent,
}
use strfry_namecoin_policy.PersistentCache.{
  Entry, PersistentLru, is_over, del_record, clear_record, evict_if_needed, init_jsonl,
  append_jsonl, compact_jsonl, get, set, delete, clear,
}
use strfry_namecoin_policy.PersistentCache.Log.{
  IsFaithful, replay-del_record, replay-compacted, live,
}
use strfry_namecoin_policy.PersistentCache.Kept.{
  Keeps-same, lookup-evict, length-touched, evict-le, evict_fits, live-le, live-IsAbsent,
  lookup-delete_self,
}
use strfry_namecoin_policy.PersistentCache.Replay.{replay-Pair, logged, IsWhole, logged-append}
use strfry_namecoin_policy.PersistentCache.Logged.{
  IsLogged, compact_jsonl-IsLogged, delete-IsLogged, clear-IsLogged, evict-Distinct, set-IsLogged,
  nothing-Pair, logged-Distinct, get-IsLogged,
}

module _ (rt : Runtime) (json : JsonRuntime) where
  -- An access, an entry that is stored with a time to live, a removal, or a compaction.
  pub data Op : Type 0 where
    getting : (now : ℕ) (key : Text) → Op
    setting : (now : ℕ) (key : Text) (value : Option Json) (ttl_ms : Option ℕ) → Op
    deleting : (key : Text) → Op
    clearing compacting : Op

  abbrev pub run : Op → PersistentLru → PersistentLru
  run (getting now key) c = (get rt json now key c).0
  run (setting now key value ttl_ms) c = set rt json now key value ttl_ms c
  run (deleting key) c = delete rt json key c
  run clearing c = clear rt json c
  run compacting c = compact_jsonl rt json c

  abbrev pub run_all : List Op → PersistentLru → PersistentLru
  run_all [] c = c
  run_all (op ∷ ops) c = run_all ops (run op c)

  pub record IsValid (c : PersistentLru) : Type 0 where
    pub bounded : length c.store ≤ c.max
    pub is_logged : IsLogged rt json c

  append_jsonl-store :
      (c : PersistentLru) (rec : Json)
      → ((append_jsonl rt json rec c).store ≡ c.store) × ((append_jsonl rt json rec c).max ≡ c.max)
  unfolding append_jsonl compact_jsonl
  append_jsonl-store c rec = ground arith

  append-bounded :
      (c : PersistentLru) (rec : Json)
      → length c.store ≤ c.max
      → length (append_jsonl rt json rec c).store ≤ (append_jsonl rt json rec c).max
  append-bounded c rec h = let (s, m) = append_jsonl-store c rec in rw (s, m) h

  get-bounded :
      (now : ℕ) (k : Text) (c : PersistentLru)
      → Distinct c.store
      → length c.store ≤ c.max
      → length (get rt json now k c).0.store ≤ (get rt json now k c).0.max
  unfolding get delete
  get-bounded now k c d h = elim (Option-cases (lookup k c.store)) [
    | inl absent ↦ rw (absent, get) h
    | inr (entry, found) ↦ elim (Bool-cases (ltb 0 c.ttl_ms && is_over entry.expires now)) [
      | inl over ↦
          rw (found, over, get)
            (append-bounded (record c { store = Store.delete k c.store }) (del_record k)
              (le_trans (length-delete-le k c.store) h))
      | inr good ↦ rw (found, good, get) (rw (length-touched k entry c.store d found) h)
    ]
  ]

  run-bounded : (op : Op) (c : PersistentLru) → IsValid c → length (run op c).store ≤ (run op c).max
  unfolding set delete clear compact_jsonl
  run-bounded (getting now key) c v = get-bounded now key c v.is_logged.distinct v.bounded
  run-bounded (setting now key value ttl_ms) c v = evict-le rt json _ _
  run-bounded (deleting key) c v =
      append-bounded (record c { store = Store.delete key c.store }) (del_record key)
        (le_trans (length-delete-le key c.store) v.bounded)
  run-bounded clearing c v = append-bounded (record c { store = [] }) clear_record (omega arith)
  run-bounded compacting c v = v.bounded

  run-IsLogged :
      IsFaithful json
      → (op : Op) (c : PersistentLru) → IsLogged rt json c
      → IsLogged rt json (run op c)
  run-IsLogged faithful (getting now key) c l = get-IsLogged rt json faithful now key c l
  run-IsLogged faithful (setting now key value ttl_ms) c l =
      set-IsLogged rt json faithful now key value ttl_ms c l
  run-IsLogged faithful (deleting key) c l = delete-IsLogged rt json faithful key c l
  run-IsLogged faithful clearing c l = clear-IsLogged rt json faithful c l
  run-IsLogged faithful compacting c l = compact_jsonl-IsLogged rt json faithful c l.distinct

  run_all-IsValid :
      IsFaithful json → (ops : List Op) (c : PersistentLru) → IsValid c → IsValid (run_all ops c)
  run_all-IsValid faithful [] c v = v
  run_all-IsValid faithful (op ∷ ops) c v =
      run_all-IsValid faithful ops (run op c) (record {
        bounded = run-bounded op c v;
        is_logged = run-IsLogged faithful op c v.is_logged;
      })

  -- A cache that is opened on a file of whole lines.
  init_jsonl-IsLogged :
      (max ttl_ms every now : ℕ) (file : Text)
      → IsWhole rt json file
      → IsLogged rt json (init_jsonl rt json max ttl_ms every now (some file))
  unfolding init_jsonl
  init_jsonl-IsLogged max ttl_ms every now file whole = record {
    distinct =
        evict-Distinct rt json max (logged rt json now ttl_ms file)
          (logged-Distinct rt json now ttl_ms file);
    whole = whole;
    kept = λ t.
        Keeps-same t ttl_ms (evict_if_needed rt json max (logged rt json now ttl_ms file))
          (logged rt json now ttl_ms file) (logged rt json t ttl_ms file)
          (λ q e h.
            lookup-evict rt json max (logged rt json now ttl_ms file)
              (logged-Distinct rt json now ttl_ms file) q e h)
          (replay-Pair rt json now t ttl_ms (split 10 file) [] []
            (nothing-Pair rt json t ttl_ms)).kept;
  }

  init_jsonl-IsValid :
      (max ttl_ms every now : ℕ) (file : Text)
      → IsWhole rt json file
      → IsValid (init_jsonl rt json max ttl_ms every now (some file))
  unfolding init_jsonl
  init_jsonl-IsValid max ttl_ms every now file whole = record {
    bounded = evict-le rt json max (logged rt json now ttl_ms file);
    is_logged = init_jsonl-IsLogged max ttl_ms every now file whole;
  }

  -- If JSON.parse reads back what JSON.stringify writes, which has no line feed: a cache that is
  -- opened on a file of whole lines, whatever is done to it afterwards, has each key once, at
  -- most `max` entries, and a file of whole lines whose replay at any time gives each entry of
  -- the memory that is not over then, and no other one under its key.
  pub run_all-init :
      IsFaithful json
      → (max ttl_ms every now : ℕ) (file : Text) (ops : List Op) → IsWhole rt json file
      → IsValid (run_all ops (init_jsonl rt json max ttl_ms every now (some file)))
  run_all-init faithful max ttl_ms every now file ops whole =
      run_all-IsValid faithful ops (init_jsonl rt json max ttl_ms every now (some file))
        (init_jsonl-IsValid max ttl_ms every now file whole)

  -- The memory after a restart.
  abbrev pub reopened : ℕ → PersistentLru → PersistentLru
  reopened now c = init_jsonl rt json c.max c.ttl_ms c.compact_every_writes now (some c.file)

  -- If JSON.parse reads back what JSON.stringify writes, which has no line feed: a well-formed
  -- cache that is compacted and opened again holds the entries that are not over, in their
  -- order.
  pub compact_jsonl-reopened :
      IsFaithful json
      → (now : ℕ) (c : PersistentLru) → IsValid c
      → (reopened now (compact_jsonl rt json c)).store ≡ live now c.ttl_ms c.store
  unfolding init_jsonl compact_jsonl
  compact_jsonl-reopened faithful now c v =
      rw (replay-compacted rt json faithful now c.ttl_ms c.store v.is_logged.distinct) (
        evict_fits rt json c.max (live now c.ttl_ms c.store)
          (le_trans (live-le now c.ttl_ms c.store) v.bounded))

  get-found :
      (now : ℕ) (k : Text) (c : PersistentLru) (entry : Entry)
      → lookup k c.store ≡ some entry
      → (ltb 0 c.ttl_ms && is_over entry.expires now) ≡ false
      → (get rt json now k c).1 ≡ entry.value
  unfolding get
  get-found now k c entry found good = rw (found, good, get) refl

  lookup-reopened :
      (now : ℕ) (k : Text) (c : PersistentLru) (entry : Entry)
      → IsLogged rt json c
      → length (logged rt json now c.ttl_ms c.file) ≤ c.max
      → lookup k c.store ≡ some entry
      → (ltb 0 c.ttl_ms && is_over entry.expires now) ≡ false
      → lookup k (reopened now c).store ≡ some entry
  unfolding init_jsonl
  lookup-reopened now k c entry l fits found good =
      rw
        (
          evict_fits rt json c.max (logged rt json now c.ttl_ms c.file) fits,
          l.kept now k entry found,
          good,
        )
        refl

  evict_absent :
      (max : ℕ) (q : Text) (m : List (Text × Entry))
      → Distinct m
      → lookup q m ≡ none
      → lookup q (evict_if_needed rt json max m) ≡ none
  evict_absent max q m d gone = elim (Option-cases (lookup q (evict_if_needed rt json max m))) [
    | inl absent ↦ absent
    | inr (entry, found) ↦ absurd (cc (gone, lookup-evict rt json max m d q entry found))
  ]

  -- What is read back after a key is removed, whether or not its removal is due for compaction.
  lookup-deleted :
      IsFaithful json
      → (now : ℕ) (k : Text) (c : PersistentLru) → IsLogged rt json c
      → lookup k (logged rt json now (delete rt json k c).ttl_ms (delete rt json k c).file) ≡ none
  unfolding delete append_jsonl compact_jsonl is_object del_record
  lookup-deleted faithful now k c l =
      elim (Bool-cases (leb c.compact_every_writes (c.writes + 1))) [
        | inl due ↦
            rw
              (
                due,
                append_jsonl,
                replay-compacted rt json faithful now c.ttl_ms (Store.delete k c.store)
                    (delete-Distinct k c.store l.distinct),
              )
              (lookup_absent k (live now c.ttl_ms (Store.delete k c.store)) (
                live-IsAbsent now c.ttl_ms k (Store.delete k c.store)
                  (delete-IsAbsent k c.store l.distinct)))
        | inr not_due ↦
            rw
              (
                not_due,
                append_jsonl,
                logged-append rt json faithful now c.ttl_ms c.file (del_record k) l.whole refl,
                replay-del_record rt json now c.ttl_ms k (logged rt json now c.ttl_ms c.file),
              )
              (lookup-delete_self k (logged rt json now c.ttl_ms c.file)
                (logged-Distinct rt json now c.ttl_ms c.file))
      ]

  get_absent :
      (now : ℕ) (k : Text) (c : PersistentLru)
      → lookup k c.store ≡ none
      → (get rt json now k c).1 ≡ none
  unfolding get
  get_absent now k c h = rw (h, get) refl

  get-deleted :
      IsFaithful json
      → (now : ℕ) (k : Text) (c : PersistentLru) → IsLogged rt json c
      → (get rt json now k (reopened now (delete rt json k c))).1 ≡ none
  unfolding init_jsonl
  get-deleted faithful now k c l = get_absent now k (reopened now (delete rt json k c)) (
      evict_absent (delete rt json k c).max k
        (logged rt json now (delete rt json k c).ttl_ms (delete rt json k c).file)
        (logged-Distinct rt json now (delete rt json k c).ttl_ms (delete rt json k c).file)
        (lookup-deleted faithful now k c l))

  get-kept :
      (now : ℕ) (k : Text) (c : PersistentLru) {v : Json}
      → IsValid c
      → length (logged rt json now c.ttl_ms c.file) ≤ c.max
      → (get rt json now k c).1 ≡ some v
      → (get rt json now k (reopened now c)).1 ≡ some v
  unfolding get init_jsonl
  get-kept now k c {v} valid fits got = elim (Option-cases (lookup k c.store)) [
    | inl absent ↦ absurd (ground (arith, absent))
    | inr (entry, found) ↦ elim (Bool-cases (ltb 0 c.ttl_ms && is_over entry.expires now)) [
      | inl over ↦ absurd (ground (arith, found, over))
      | inr good ↦
          get-found now k (reopened now c) entry
            (lookup-reopened now k c entry valid.is_logged fits found good) good
          ∙ sym (get-found now k c entry found good)
          ∙ got
    ]
  ]

  -- If JSON.parse reads back what JSON.stringify writes, which has no line feed, and the file's
  -- replay needs no eviction: a well-formed cache that is opened again gives every value that it
  -- would give without the restart, and does not find a key that was removed just before.
  pub get-reopened :
      IsFaithful json
      → (now : ℕ) (k : Text) (c : PersistentLru) → IsValid c
      → length (logged rt json now c.ttl_ms c.file) ≤ c.max
      → ((v : Json)
          → (get rt json now k c).1 ≡ some v
          → (get rt json now k (reopened now c)).1 ≡ some v)
        × ((get rt json now k (reopened now (delete rt json k c))).1 ≡ none)
  get-reopened faithful now k c valid fits = (
    λ v got. get-kept now k c {v = v} valid fits got,
    get-deleted faithful now k c valid.is_logged,
  )
