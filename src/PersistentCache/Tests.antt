-- ===== src/PersistentCache/Tests.antt =====
-- src/persistent-cache.js: runs of a cache in a file, and its theorems at a concrete one.
use strfry_namecoin_policy.Prelude.{
  ◌≤◌, ◌≡◌, refl, true, false, none, some, List, [], ◌∷◌, arith, length,
}
use strfry_namecoin_policy.Prelude.Int.{pos}
use strfry_namecoin_policy.Js.{txt, split, same, Runtime}
use strfry_namecoin_policy.Js.Json.{
  Json, null, num, prop, field_of, is_text, as_text, is_object, is_nullish, to_number,
}
use strfry_namecoin_policy.Store
use strfry_namecoin_policy.Store.{lookup, insert}
use strfry_namecoin_policy.PersistentCache.{
  PersistentLru, replay_record, replay_line, replay, line_of, compacted, set_record, del_record,
  clear_record, evict_if_needed, init_jsonl, append_jsonl, compact_jsonl, get, has, set, delete,
  clear,
}
use strfry_namecoin_policy.PersistentCache.Log.{live}
use strfry_namecoin_policy.PersistentCache.Replay.{logged, IsWhole-nil}
use strfry_namecoin_policy.PersistentCache.Restart.{
  Op, getting, setting, run_all, IsValid, reopened, run_all-init, compact_jsonl-reopened,
  get-reopened,
}
use strfry_namecoin_policy.PersistentCache.Coding.{coding, coding-IsFaithful}

program : Unit {0}
unfolding same split prop field_of is_text as_text is_object is_nullish to_number lookup
    Store.delete insert replay_record replay_line replay line_of compacted set_record del_record
    clear_record evict_if_needed init_jsonl append_jsonl compact_jsonl get has set delete clear live
program = tt

abbrev plain : Runtime
plain = record {
  lower_wide = λ c. c ∷ [];
  other_number = λ s. none;
  decode_utf8 = λ bs. bs;
  sha256 = λ bs. bs;
}

-- Room for two, a time to live of a minute, and a compaction after a thousand records.
abbrev opened : PersistentLru
opened = init_jsonl plain coding 2 60_000 1000 0 (some [])

abbrev ops : List (Op plain coding)
ops =
    setting 0 (txt "a") (some (num (pos 1))) none
    ∷ setting 10 (txt "b") (some null) (some 100)
    ∷ getting 20 (txt "a")
    ∷ []

abbrev used : PersistentLru
used = run_all plain coding ops opened

runs :
    ((get plain coding 50 (txt "a") used).1 ≡ some (num (pos 1)))
    × ((has plain coding 50 (txt "b") used).1 ≡ true)
    × ((has plain coding 110 (txt "b") used).1 ≡ false)
    × ((get plain coding 50 (txt "a") (reopened plain coding 50 used)).1 ≡ some (num (pos 1)))
unfolding program
runs = (refl, refl, refl, refl)

-- With room for two and three keys set, the file keeps the three, in the order in which they
-- were first set: the key that was set again is in the memory, and after a restart it is not.
abbrev crowded : PersistentLru
crowded =
    run_all plain coding
      (setting 0 (txt "a") (some null) none
        ∷ setting 1 (txt "b") (some null) none
        ∷ setting 2 (txt "a") (some null) none
        ∷ setting 3 (txt "c") (some null) none
        ∷ [])
      opened

reorders :
    ((has plain coding 4 (txt "a") crowded).1 ≡ true)
    × ((has plain coding 4 (txt "b") crowded).1 ≡ false)
    × ((has plain coding 4 (txt "a") (reopened plain coding 4 crowded)).1 ≡ false)
    × ((has plain coding 4 (txt "b") (reopened plain coding 4 crowded)).1 ≡ true)
unfolding program
reorders = (refl, refl, refl, refl)

run_all-init_example : IsValid plain coding used
run_all-init_example =
    run_all-init plain coding coding-IsFaithful 2 60_000 1000 0 [] ops (IsWhole-nil plain coding)

used-IsValid : IsValid plain coding used
used-IsValid =
    run_all-init plain coding coding-IsFaithful 2 60_000 1000 0 [] ops (IsWhole-nil plain coding)

compact_jsonl-reopened_example :
    (reopened plain coding 50 (compact_jsonl plain coding used)).store
    ≡ live 50 used.ttl_ms used.store
compact_jsonl-reopened_example =
    compact_jsonl-reopened plain coding coding-IsFaithful 50 used used-IsValid

fits : length (logged plain coding 50 used.ttl_ms used.file) ≤ used.max
unfolding program
fits = omega arith

get-reopened_example :
    ((v : Json)
      → (get plain coding 50 (txt "a") used).1 ≡ some v
      → (get plain coding 50 (txt "a") (reopened plain coding 50 used)).1 ≡ some v)
    × ((get plain coding 50
          (txt "a")
          (reopened plain coding 50 (delete plain coding (txt "a") used))).1
        ≡ none)
get-reopened_example =
    get-reopened plain coding coding-IsFaithful 50 (txt "a") used used-IsValid fits
