-- ===== src/Cache.antt =====
-- src/cache.js: the LRU cache with a time to live. The clock's reading is the argument `now`.
-- A value is never `undefined`; an `expires` of `Infinity` is `none`.
pub mod Recency
pub mod Expiry
mod Tests
use strfry_namecoin_policy.Prelude.{
  ℕ, zero, suc, ◌+◌, ◌<◌, Bool, true, false, Option, none, some, List, [], ◌∷◌, length, ltb, leb,
  ◌&&◌, if◌then◌else◌,
}
use strfry_namecoin_policy.Prelude.Int.{ℤ, pos, negsuc}
use strfry_namecoin_policy.Js.{Text}
use strfry_namecoin_policy.Store
use strfry_namecoin_policy.Store.{lookup}

pub record Entry {ℓ} (V : Type ℓ) : Type ℓ where
  pub value : V
  pub expires : Option ℕ

pub record LruCache {ℓ} (V : Type ℓ) : Type ℓ where
  pub max : ℕ
  pub ttl_ms : ℕ
  pub store : List (Text × Entry V)

-- The constructor's tests; a number that is not finite is `none`.
unfoldable pub new_cache {ℓ} : {V : Type ℓ} → Option ℤ → Option ℤ → Option (LruCache V)
new_cache (some (pos (suc max))) (some (pos ttl_ms)) =
    some (record { max = suc max; ttl_ms = ttl_ms; store = [] })
new_cache _ _ = none

-- `expires <= now`
abbrev pub is_over : Option ℕ → ℕ → Bool
is_over none now = false
is_over (some at) now = leb at now

-- `effectiveTtl > 0 ? now + effectiveTtl : Infinity`, with `ttlMs ?? this.ttlMs`.
abbrev pub effective_ttl : Option ℕ → ℕ → ℕ
effective_ttl none default = default
effective_ttl (some ttl_ms) default = ttl_ms

abbrev pub expires_at : ℕ → ℕ → Option ℕ
expires_at now ttl_ms = if ltb 0 ttl_ms then some (now + ttl_ms) else none

module _ {ℓ} {V : Type ℓ} where
  -- The loop that drops the oldest entry: the first key is the oldest.
  unfoldable pub evict : ℕ → List (Text × Entry V) → List (Text × Entry V)
  evict max [] = []
  evict max (e ∷ m) = let rest = evict max m in if ltb max (length (e ∷ m)) then rest else e ∷ m

  unfoldable pub get : ℕ → Text → LruCache V → LruCache V × Option V
  get now key c = elim (lookup key c.store) [
    | none ↦ (c, none)
    | some entry ↦
        if ltb 0 c.ttl_ms && is_over entry.expires now
        then (record c { store = Store.delete key c.store }, none)
        else (
          record c { store = Store.insert key entry (Store.delete key c.store) },
          some entry.value,
        )
  ]

  unfoldable pub has : ℕ → Text → LruCache V → LruCache V × Bool
  unfolding get
  has now key c =
      let (c', found) = get now key c in (c', elim found [ none ↦ false | some _ ↦ true ])

  unfoldable pub set : ℕ → Text → V → Option ℕ → LruCache V → LruCache V
  set now key value ttl_ms c =
      let entry : Entry V = record {
        value = value;
        expires = expires_at now (effective_ttl ttl_ms c.ttl_ms);
      } in
      record c { store = evict c.max (Store.insert key entry (Store.delete key c.store)) }

  unfoldable pub delete : Text → LruCache V → LruCache V
  delete key c = record c { store = Store.delete key c.store }

  unfoldable pub clear : LruCache V → LruCache V
  clear c = record c { store = [] }
