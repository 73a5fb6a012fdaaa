-- ===== src/PersistentCache/Logged.antt =====
-- src/persistent-cache.js: that each operation leaves a file that keeps what the memory holds.
use strfry_namecoin_policy.Prelude.{
  ℕ, suc, ◌+◌, ◌≡◌, refl, sym, ◌∙◌, true, ◌&&◌, Option, some, List, [], ◌∷◌, ◌++◌, length, leb, ltb,
  Bool-cases, Option-cases, inl, inr,
}
use strfry_namecoin_policy.Js.{Text, split, Runtime}
use strfry_namecoin_policy.Js.Json.{Json, is_object, JsonRuntime}
use strfry_namecoin_policy.Store
use strfry_namecoin_policy.Store.{Distinct, lookup}
use strfry_namecoin_policy.Store.Laws.{delete-Distinct, insert-Distinct}
use strfry_namecoin_policy.PersistentCache.{
  Entry, PersistentLru, is_over, replay_record, line_of, set_record, del_record, clear_record,
  evict_if_needed, append_jsonl, compact_jsonl, get, set, delete, clear, entry_of,
}
use strfry_namecoin_policy.PersistentCache.Log.{
  IsFaithful, place, replay-set_record, replay-del_record, replay-compacted,
}
use strfry_namecoin_policy.PersistentCache.Kept.{
  Keeps, Keeps-nil, Keeps-delete, Keeps-place, Keeps-live, Keeps-same, lookup-evict, lookup-moved,
  lookup-touched,
}
use strfry_namecoin_policy.PersistentCache.Replay.{
  Pair, replay-Pair, logged, IsWhole, logged-append, append-IsWhole, compacted-IsWhole,
}

module _ (rt : Runtime) (json : JsonRuntime) where
  -- A cache whose keys are distinct and whose file is of whole lines and keeps, replayed at any
  -- time, what the memory holds.
  pub record IsLogged (c : PersistentLru) : Type 0 where
    pub distinct : Distinct c.store
    pub whole : IsWhole rt json c.file
    pub kept : (now : ℕ) → Keeps now c.ttl_ms c.store (logged rt json now c.ttl_ms c.file)

  pub nothing-Pair : (now ttl_ms : ℕ) → Pair now ttl_ms [] []
  nothing-Pair now ttl_ms = record { distinct = tt; distinct' = tt; kept = Keeps-nil now ttl_ms [] }

  pub logged-Distinct : (now ttl_ms : ℕ) (file : Text) → Distinct (logged rt json now ttl_ms file)
  logged-Distinct now ttl_ms file =
      (replay-Pair rt json now now ttl_ms (split 10 file) [] [] (nothing-Pair now ttl_ms)).distinct

  pub compact_jsonl-IsLogged :
      IsFaithful json → (c : PersistentLru) → Distinct c.store → IsLogged (compact_jsonl rt json c)
  unfolding compact_jsonl
  compact_jsonl-IsLogged faithful c d = record {
    distinct = d;
    whole = compacted-IsWhole rt json faithful c.store;
    kept = λ now.
        rw (replay-compacted rt json faithful now c.ttl_ms c.store d)
          (Keeps-live now c.ttl_ms c.store d);
  }

  -- A record that is added, where the memory is what it makes of the one before.
  pub append_jsonl-IsLogged :
      IsFaithful json
      → (c : PersistentLru) (rec : Json) (store : List (Text × Entry)) → IsWhole rt json c.file
      → is_object (some rec) ≡ true
      → Distinct store
      → ((now : ℕ)
          → Keeps now c.ttl_ms store
              (replay_record rt json now c.ttl_ms rec (logged rt json now c.ttl_ms c.file)))
      → IsLogged (append_jsonl rt json rec (record c { store = store }))
  unfolding append_jsonl
  append_jsonl-IsLogged faithful c rec store whole o d kept =
      elim (Bool-cases (leb c.compact_every_writes (c.writes + 1))) [
        | inl due ↦
            rw (due, append_jsonl)
              (compact_jsonl-IsLogged faithful
                (record c {
                  store = store;
                  file = c.file ++ line_of rt json rec;
                  writes = c.writes + 1;
                })
                d)
        | inr not_due ↦
            rw (not_due, append_jsonl)
              (record {
                distinct = d;
                whole = append-IsWhole rt json faithful c.file rec whole;
                kept = λ now.
                    rw (logged-append rt json faithful now c.ttl_ms c.file rec whole o) (kept now);
              })
      ]

  pub set_record-IsLogged :
      IsFaithful json
      → (c : PersistentLru) (k : Text) (entry : Entry) → IsLogged c
      → IsLogged (
          append_jsonl rt json
            (set_record k entry)
            (record c { store = Store.insert k entry (Store.delete k c.store) }))
  unfolding is_object set_record
  set_record-IsLogged faithful c k entry l =
      append_jsonl-IsLogged faithful c (set_record k entry)
        (Store.insert k entry (Store.delete k c.store)) l.whole refl
        (insert-Distinct k entry (Store.delete k c.store) (delete-Distinct k c.store l.distinct))
        (λ now.
          let file = logged rt json now c.ttl_ms c.file in
          rw (replay-set_record rt json now c.ttl_ms k file entry.value entry.expires) (
            Keeps-same now c.ttl_ms (Store.insert k entry (Store.delete k c.store))
              (Store.insert k entry c.store) (place now c.ttl_ms k entry file)
              (λ q e h. sym (lookup-moved k q entry c.store) ∙ h)
              (Keeps-place now c.ttl_ms k entry c.store file (logged-Distinct now c.ttl_ms c.file)
                (l.kept now))))

  pub delete-IsLogged :
      IsFaithful json → (k : Text) (c : PersistentLru) → IsLogged c → IsLogged (delete rt json k c)
  unfolding delete is_object del_record
  delete-IsLogged faithful k c l =
      append_jsonl-IsLogged faithful c (del_record k) (Store.delete k c.store) l.whole refl
        (delete-Distinct k c.store l.distinct)
        (λ now.
          let file = logged rt json now c.ttl_ms c.file in
          rw (replay-del_record rt json now c.ttl_ms k file)
            (Keeps-delete now c.ttl_ms k c.store file l.distinct (l.kept now)))

  pub clear-IsLogged :
      IsFaithful json → (c : PersistentLru) → IsLogged c → IsLogged (clear rt json c)
  unfolding clear is_object clear_record
  clear-IsLogged faithful c l =
      append_jsonl-IsLogged faithful c clear_record [] l.whole refl tt
        (λ now. Keeps-nil now c.ttl_ms _)

  pub evict-Distinct :
      (max : ℕ) (m : List (Text × Entry)) → Distinct m → Distinct (evict_if_needed rt json max m)
  unfolding evict_if_needed
  evict-Distinct max [] d = tt
  evict-Distinct max (e ∷ m) d = elim (Bool-cases (ltb max (suc (length m)))) [
    | inl over ↦ rw (over, evict_if_needed) (evict-Distinct max m d.1)
    | inr fits ↦ rw (fits, evict_if_needed) d
  ]

  pub evict-IsLogged :
      (c : PersistentLru)
      → IsLogged c
      → IsLogged (record c { store = evict_if_needed rt json c.max c.store })
  evict-IsLogged c l = record {
    distinct = evict-Distinct c.max c.store l.distinct;
    whole = l.whole;
    kept = λ now.
        Keeps-same now c.ttl_ms (evict_if_needed rt json c.max c.store) c.store
          (logged rt json now c.ttl_ms c.file)
          (λ q e h. lookup-evict rt json c.max c.store l.distinct q e h) (l.kept now);
  }

  pub set-IsLogged :
      IsFaithful json
      → (now : ℕ) (k : Text) (value : Option Json) (ttl_ms : Option ℕ) (c : PersistentLru)
      → IsLogged c
      → IsLogged (set rt json now k value ttl_ms c)
  unfolding set
  set-IsLogged faithful now k value ttl_ms c l =
      evict-IsLogged _
        (set_record-IsLogged faithful c k (entry_of rt json now c.ttl_ms value ttl_ms) l)

  pub get-IsLogged :
      IsFaithful json
      → (now : ℕ) (k : Text) (c : PersistentLru) → IsLogged c
      → IsLogged (get rt json now k c).0
  unfolding get
  get-IsLogged faithful now k c l = elim (Option-cases (lookup k c.store)) [
    | inl absent ↦ rw (absent, get) l
    | inr (entry, found) ↦ elim (Bool-cases (ltb 0 c.ttl_ms && is_over entry.expires now)) [
      | inl over ↦ rw (found, over, get) (delete-IsLogged faithful k c l)
      | inr good ↦
          rw (found, good, get)
            (record {
              distinct =
                  insert-Distinct k entry (Store.delete k c.store)
                    (delete-Distinct k c.store l.distinct);
              whole = l.whole;
              kept = λ t.
                  Keeps-same t c.ttl_ms (Store.insert k entry (Store.delete k c.store)) c.store
                    (logged rt json t c.ttl_ms c.file)
                    (λ q e h. sym (lookup-touched k q entry c.store found) ∙ h) (l.kept t);
            })
    ]
  ]
