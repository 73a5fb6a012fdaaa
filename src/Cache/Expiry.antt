-- ===== src/Cache/Expiry.antt =====
-- src/cache.js: how long what is stored can be read.
use strfry_namecoin_policy.Prelude.{
  ℕ, suc, ◌+◌, ◌-◌, ◌≤◌, ◌<◌, ◌≡◌, refl, ap, ◌∙◌, true, ◌&&◌, Option, none, some, length, ltb,
  arith, drop,
}
use strfry_namecoin_policy.Js.{Text}
use strfry_namecoin_policy.Store
use strfry_namecoin_policy.Store.{lookup, IsAbsent}
use strfry_namecoin_policy.Store.Laws.{delete-IsAbsent, lookup-append_self, lookup_absent}
use strfry_namecoin_policy.Cache.{
  Entry, LruCache, is_over, effective_ttl, expires_at, get, set, delete,
}
use strfry_namecoin_policy.Cache.Recency.{
  IsValid, set_order, set-IsValid, IsAbsent-drop, get_stale, get_hit,
}

module _ {ℓ} {V : Type ℓ} (now : ℕ) (key : Text) (value : V) (ttl_ms : Option ℕ) (c : LruCache V)
    (valid : IsValid c) where
  abbrev pub stored : Entry V
  stored = record { value = value; expires = expires_at now (effective_ttl ttl_ms c.ttl_ms) }

  abbrev pub after : LruCache V
  after = set now key value ttl_ms c

  pub lookup-after : lookup key after.store ≡ some stored
  lookup-after =
      ap (lookup key) (set_order now key value ttl_ms c valid)
      ∙ lookup-append_self key stored
          (drop (suc (length (Store.delete key c.store)) - c.max) (Store.delete key c.store))
          (IsAbsent-drop key _ (Store.delete key c.store)
            (delete-IsAbsent key c.store valid.distinct))

  pub same_ttl : after.ttl_ms ≡ c.ttl_ms
  unfolding set
  same_ttl = refl

  -- In a well-formed cache what `set` stores is what `get` returns, at any time before the entry's
  -- time to live is over;
  -- an entry stored with a time to live of 0 is never over.
  pub get-set :
      (later : ℕ)
      → (0 < effective_ttl ttl_ms c.ttl_ms → later < now + effective_ttl ttl_ms c.ttl_ms)
      → (get later key (set now key value ttl_ms c)).1 ≡ some value
  get-set later early =
      ap (λ r. r.1)
        (get_hit later key after stored (set-IsValid now key value ttl_ms c valid) lookup-after
          (ground (arith, same_ttl, early)))

  -- In a well-formed cache with a time to live, once the time to live of what `set` stores is
  -- positive and over, `get` returns nothing and drops the entry.
  pub get-set_late :
      (later : ℕ)
      → 0 < c.ttl_ms
      → 0 < effective_ttl ttl_ms c.ttl_ms
      → now + effective_ttl ttl_ms c.ttl_ms ≤ later
      → ((get later key (set now key value ttl_ms c)).1 ≡ none)
        × (lookup key (get later key (set now key value ttl_ms c)).0.store ≡ none)
  unfolding delete
  get-set_late later on positive late =
      let stale : (ltb 0 after.ttl_ms && is_over stored.expires later) ≡ true =
        ground (arith, same_ttl) in
      let dropped = get_stale later key after stored lookup-after stale in
      (
        ap (λ r. r.1) dropped,
        ap (λ r. lookup key r.0.store) dropped
            ∙ lookup_absent key _ (
                delete-IsAbsent key after.store
                  (set-IsValid now key value ttl_ms c valid).distinct),
      )

  -- In a well-formed cache whose own time to live is 0, an entry's own time to live is not
  -- looked at: what is stored is returned at every later time.
  pub get-set_no_ttl :
      (later : ℕ) → c.ttl_ms ≡ 0 → (get later key (set now key value ttl_ms c)).1 ≡ some value
  get-set_no_ttl later off =
      ap (λ r. r.1)
        (get_hit later key after stored (set-IsValid now key value ttl_ms c valid) lookup-after
          (ground (arith, same_ttl)))
