-- ===== src/Cache/Tests.antt =====
-- src/cache.js: a cache of two entries.
use strfry_namecoin_policy.Prelude.{
  ℕ, suc, ◌-◌, ◌≡◌, refl, none, some, [], ◌∷◌, ◌++◌, length, arith, drop,
}
use strfry_namecoin_policy.Prelude.Int.{pos}
use strfry_namecoin_policy.Js.{txt, same}
use strfry_namecoin_policy.Store
use strfry_namecoin_policy.Store.{lookup}
use strfry_namecoin_policy.Cache.{
  Entry, LruCache, new_cache, evict, get, has, set, delete, expires_at, effective_ttl,
}
use strfry_namecoin_policy.Cache.Recency.{
  IsValid, Reach, start, next, setting, set_order, Reach-IsBounded,
}
use strfry_namecoin_policy.Cache.Expiry.{get-set}

program : Unit {0}
unfolding new_cache evict get has set delete Store.lookup Store.insert Store.delete same
program = tt

abbrev empty : LruCache ℕ
empty = record { max = 2; ttl_ms = 100; store = [] }

abbrev entry : ℕ → ℕ → Entry ℕ
entry value expires = record { value = value; expires = some expires }

abbrev two : LruCache ℕ
two = record empty { store = (txt "a", entry 1 110) ∷ (txt "b", entry 2 120) ∷ [] }

abbrev eternal : LruCache ℕ
eternal = record empty { ttl_ms = 0 }

runs :
    (new_cache (some (pos 2)) (some (pos 100)) ≡ some empty)
    × (new_cache {V = ℕ} (some (pos 0)) (some (pos 100)) ≡ none)
    × (set 20 (txt "b") 2 none (set 10 (txt "a") 1 none empty) ≡ two)
    × ((get 30 (txt "a") two).1 ≡ some 1)
    × ((get 110 (txt "a") two).1 ≡ none)
    × ((set 30 (txt "c") 3 none (get 30 (txt "a") two).0).store
        ≡ (txt "a", entry 1 110) ∷ (txt "c", entry 3 130) ∷ [])
unfolding program
runs = (refl, refl, refl, refl, refl, refl)

Reach-two : Reach (some (pos 2)) (some (pos 100)) two
unfolding program
Reach-two =
    next (next (start runs.0) (setting 10 (txt "a") 1 none empty))
      (setting 20 (txt "b") 2 none (set 10 (txt "a") 1 none empty))

Reach-IsBounded_example : IsValid two
Reach-IsBounded_example = Reach-IsBounded Reach-two

eternal-IsValid : IsValid eternal
eternal-IsValid = record { room = omega arith; bounded = omega arith; distinct = tt }

set_order_example :
    (set 30 (txt "c") 3 none two).store
    ≡ drop (suc (length (Store.delete (txt "c") two.store)) - 2) (Store.delete (txt "c") two.store)
      ++ (txt "c", record { value = 3; expires = expires_at 30 (effective_ttl none 100) }) ∷ []
set_order_example = set_order 30 (txt "c") 3 none two Reach-IsBounded_example

get-set_example : (get 40 (txt "c") (set 30 (txt "c") 3 none two)).1 ≡ some 3
get-set_example = get-set 30 (txt "c") 3 none two Reach-IsBounded_example 40 (omega arith)
