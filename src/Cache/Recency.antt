-- ===== src/Cache/Recency.antt =====
-- src/cache.js: the bound on the entries, and their order, least recently used first.
use mathlib.Core.Option.{some-injective}
use mathlib.Core.Path.{sym, subst}
use strfry_namecoin_policy.Prelude.{
  ℕ, zero, suc, ◌-◌, ◌≤◌, ◌<◌, ◌≡◌, refl, ap, ◌∙◌, Bool, true, false, ◌&&◌, Option, none, some,
  List, [], ◌∷◌, ◌++◌, length, ltb, arith, drop, length-append, length-drop, Bool-cases,
  Option-cases, inl, inr,
}
use strfry_namecoin_policy.Js.{Text, same}
use strfry_namecoin_policy.Store
use strfry_namecoin_policy.Store.{lookup, Distinct, IsAbsent}
use strfry_namecoin_policy.Store.Laws.{
  insert_absent, delete-IsAbsent, delete-Distinct, append-Distinct, length-delete-le, length-delete,
  lookup-append_ne, lookup-delete_ne,
}
use strfry_namecoin_policy.Prelude.Int.{ℤ, pos}
use strfry_namecoin_policy.Cache.{
  Entry, LruCache, new_cache, is_over, effective_ttl, expires_at, evict, get, set, delete, clear,
}

pub record IsValid {ℓ} {V : Type ℓ} (c : LruCache V) : Type 0 where
  pub room : 0 < c.max
  pub bounded : length c.store ≤ c.max
  pub distinct : Distinct c.store

pub new_cache-IsValid {ℓ} :
    {V : Type ℓ} (max ttl_ms : Option ℤ) {c : LruCache V}
    → new_cache max ttl_ms ≡ some c
    → IsValid c × (c.store ≡ [])
unfolding new_cache
new_cache-IsValid (some (pos (suc max))) (some (pos ttl_ms)) {c} h =
    subst (λ c. IsValid c × (c.store ≡ [])) (some-injective _ _ h)
      (record { room = omega arith; bounded = omega arith; distinct = tt }, refl)
new_cache-IsValid _ _ h = cc

module _ {ℓ} {V : Type ℓ} where
  drop-nil : (n : ℕ) → ◌≡◌ {A = List (Text × Entry V)} (drop n []) []
  drop-nil zero = refl
  drop-nil (suc n) = refl

  evict-drop : (max : ℕ) (m : List (Text × Entry V)) → evict max m ≡ drop (length m - max) m
  unfolding evict
  evict-drop max [] = sym (drop-nil (0 - max))
  evict-drop max (e ∷ m) = elim (Bool-cases (ltb max (suc (length m)))) [
    | inl over ↦
        let less : suc (length m) - max ≡ suc (length m - max) = ground arith in
        rw (over, less) (evict-drop max m)
    | inr fits ↦ let none_left : suc (length m) - max ≡ 0 = ground arith in rw (fits, none_left)
  ]

  drop-Distinct : (n : ℕ) (m : List (Text × Entry V)) → Distinct m → Distinct (drop n m)
  drop-Distinct zero m d = d
  drop-Distinct (suc n) [] d = tt
  drop-Distinct (suc n) (e ∷ m) d = drop-Distinct n m d.1

  drop-append :
      (n : ℕ) (m r : List (Text × Entry V)) → n ≤ length m → drop n (m ++ r) ≡ drop n m ++ r
  drop-append zero m r h = refl
  drop-append (suc n) [] r h = absurd (omega arith)
  drop-append (suc n) (e ∷ m) r h = drop-append n m r (omega arith)

  -- The store with a key's entry moved to the end.
  abbrev pub touched : Text → Entry V → List (Text × Entry V) → List (Text × Entry V)
  touched key entry m = Store.delete key m ++ (key, entry) ∷ []

  reinsert :
      (key : Text) (entry : Entry V) (m : List (Text × Entry V))
      → Distinct m
      → Store.insert key entry (Store.delete key m) ≡ touched key entry m
  reinsert key entry m d = insert_absent key entry (Store.delete key m) (delete-IsAbsent key m d)

  touched-Distinct :
      (key : Text) (entry : Entry V) (m : List (Text × Entry V))
      → Distinct m
      → Distinct (touched key entry m)
  touched-Distinct key entry m d =
      append-Distinct key entry (Store.delete key m) (delete-IsAbsent key m d)
        (delete-Distinct key m d)

  -- In a well-formed cache `set` moves the key's entry to the end and then drops, from the
  -- front, as many of the other entries as are too many: the least recently used ones, and never
  -- the new one.
  pub set_order :
      (now : ℕ) (key : Text) (value : V) (ttl_ms : Option ℕ) (c : LruCache V)
      → IsValid c
      → (set now key value ttl_ms c).store
        ≡ drop (suc (length (Store.delete key c.store)) - c.max) (Store.delete key c.store)
          ++ (
            key,
            record { value = value; expires = expires_at now (effective_ttl ttl_ms c.ttl_ms) },
          )
            ∷ []
  unfolding set
  set_order now key value ttl_ms c v =
      let kept = Store.delete key c.store in
      let entry : Entry V = record {
        value = value;
        expires = expires_at now (effective_ttl ttl_ms c.ttl_ms);
      } in
      let room = v.room in
      let few = length-delete-le key c.store in
      let bounded = v.bounded in
      let long : length (touched key entry c.store) ≡ suc (length kept) =
        omega (arith, length-append kept ((key, entry) ∷ [])) in
      ap (evict c.max) (reinsert key entry c.store v.distinct)
      ∙ evict-drop c.max (touched key entry c.store)
      ∙ ap (λ n. drop (n - c.max) (touched key entry c.store)) long
      ∙ drop-append (suc (length kept) - c.max) kept ((key, entry) ∷ []) (omega arith)

  pub IsAbsent-drop :
      (key : Text) (n : ℕ) (m : List (Text × Entry V)) → IsAbsent key m → IsAbsent key (drop n m)
  IsAbsent-drop key zero m a = a
  IsAbsent-drop key (suc n) [] a = tt
  IsAbsent-drop key (suc n) (e ∷ m) a = IsAbsent-drop key n m a.1

  pub set-IsValid :
      (now : ℕ) (key : Text) (value : V) (ttl_ms : Option ℕ) (c : LruCache V)
      → IsValid c
      → IsValid (set now key value ttl_ms c)
  unfolding set
  set-IsValid now key value ttl_ms c v =
      let kept = Store.delete key c.store in
      let n = suc (length kept) - c.max in
      let entry : Entry V = record {
        value = value;
        expires = expires_at now (effective_ttl ttl_ms c.ttl_ms);
      } in
      let order = set_order now key value ttl_ms c v in
      let room = v.room in
      record {
        room = room;
        bounded = omega (
          arith,
          ap length order,
          length-append (drop n kept) ((key, entry) ∷ []),
          length-drop n kept,
        );
        distinct = subst Distinct (sym order) (
            append-Distinct key entry (drop n kept)
              (IsAbsent-drop key n kept (delete-IsAbsent key c.store v.distinct))
              (drop-Distinct n kept (delete-Distinct key c.store v.distinct)));
      }

  abbrev is_stale : LruCache V → Entry V → ℕ → Bool
  is_stale c entry now = ltb 0 c.ttl_ms && is_over entry.expires now

  pub get_miss :
      (now : ℕ) (key : Text) (c : LruCache V)
      → lookup key c.store ≡ none
      → get now key c ≡ (c, none)
  unfolding get
  get_miss now key c h = rw (h, get)

  pub get_stale :
      (now : ℕ) (key : Text) (c : LruCache V) (entry : Entry V)
      → lookup key c.store ≡ some entry
      → is_stale c entry now ≡ true
      → get now key c ≡ (delete key c, none)
  unfolding get delete
  get_stale now key c entry h s = rw (h, get) (rw s)

  -- A hit returns the stored value and makes its entry the most recent one.
  pub get_hit :
      (now : ℕ) (key : Text) (c : LruCache V) (entry : Entry V)
      → IsValid c
      → lookup key c.store ≡ some entry
      → is_stale c entry now ≡ false
      → get now key c ≡ (record c { store = touched key entry c.store }, some entry.value)
  unfolding get
  get_hit now key c entry v h s = rw (h, get) (rw (s, reinsert, v.distinct))

  pub delete-IsValid : (key : Text) (c : LruCache V) → IsValid c → IsValid (delete key c)
  unfolding delete
  delete-IsValid key c v = record {
    room = v.room;
    bounded = omega (arith, length-delete-le key c.store);
    distinct = delete-Distinct key c.store v.distinct;
  }

  touched-IsValid :
      (key : Text) (c : LruCache V) (entry : Entry V)
      → IsValid c
      → lookup key c.store ≡ some entry
      → IsValid (record c { store = touched key entry c.store })
  touched-IsValid key c entry v h = record {
    room = v.room;
    bounded = omega (
      arith,
      length-append (Store.delete key c.store) ((key, entry) ∷ []),
      length-delete key c.store {v = entry} h,
    );
    distinct = touched-Distinct key entry c.store v.distinct;
  }

  pub get-ttl_ms :
      (now : ℕ) (key : Text) (c : LruCache V) → IsValid c → (get now key c).0.ttl_ms ≡ c.ttl_ms
  unfolding delete
  get-ttl_ms now key c v = elim (Option-cases (lookup key c.store)) [
    | inl out ↦ ap (λ r. r.0.ttl_ms) (get_miss now key c out)
    | inr (entry, hit) ↦ elim (Bool-cases (is_stale c entry now)) [
      | inl stale ↦ ap (λ r. r.0.ttl_ms) (get_stale now key c entry hit stale)
      | inr fresh ↦ ap (λ r. r.0.ttl_ms) (get_hit now key c entry v hit fresh)
    ]
  ]

  pub get-IsValid : (now : ℕ) (key : Text) (c : LruCache V) → IsValid c → IsValid (get now key c).0
  get-IsValid now key c v = elim (Option-cases (lookup key c.store)) [
    | inl out ↦ subst (λ r. IsValid r.0) (sym (get_miss now key c out)) v
    | inr (entry, hit) ↦ elim (Bool-cases (is_stale c entry now)) [
      | inl stale ↦
          subst (λ r. IsValid r.0) (sym (get_stale now key c entry hit stale))
            (delete-IsValid key c v)
      | inr live ↦
          subst (λ r. IsValid r.0) (sym (get_hit now key c entry v hit live))
            (touched-IsValid key c entry v hit)
    ]
  ]

  -- In a well-formed cache `get` leaves what is stored for every other key as it is.
  pub lookup-get_ne :
      (now : ℕ) (key q : Text) (c : LruCache V)
      → IsValid c
      → same key q ≡ false
      → lookup q (get now key c).0.store ≡ lookup q c.store
  unfolding delete
  lookup-get_ne now key q c v other = elim (Option-cases (lookup key c.store)) [
    | inl out ↦ rw (get_miss now key c out)
    | inr (entry, hit) ↦ elim (Bool-cases (is_stale c entry now)) [
      | inl stale ↦ rw (get_stale now key c entry hit stale) (lookup-delete_ne key q c.store other)
      | inr live ↦ rw (get_hit now key c entry v hit live) (
          lookup-append_ne key q entry (Store.delete key c.store) other
          ∙ lookup-delete_ne key q c.store other)
    ]
  ]

  -- The methods in any order, at any times.
  pub data Step : LruCache V → LruCache V → Type ℓ where
    getting : (now : ℕ) (key : Text) (c : LruCache V) → Step c (get now key c).0
    setting :
        (now : ℕ) (key : Text) (value : V) (ttl_ms : Option ℕ) (c : LruCache V)
        → Step c (set now key value ttl_ms c)
    deleting : (key : Text) (c : LruCache V) → Step c (delete key c)
    clearing : (c : LruCache V) → Step c (clear c)

pub data Reach {ℓ} {V : Type ℓ} (max ttl_ms : Option ℤ) : LruCache V → Type ℓ where
  start : {c : LruCache V} → new_cache max ttl_ms ≡ some c → Reach max ttl_ms c
  next : {c d : LruCache V} → Reach max ttl_ms c → Step c d → Reach max ttl_ms d

clear-IsValid {ℓ} : {V : Type ℓ} (c : LruCache V) → IsValid c → IsValid (clear c)
unfolding clear
clear-IsValid c v = record { room = v.room; bounded = omega arith; distinct = tt }

-- However the methods are called, at whatever times, the cache has at most `max` entries and no
-- key twice.
pub Reach-IsBounded {ℓ} :
    {V : Type ℓ} {max ttl_ms : Option ℤ} {c : LruCache V} → Reach max ttl_ms c → IsValid c
Reach-IsBounded {max} {ttl_ms} (start e) = (new_cache-IsValid max ttl_ms e).0
Reach-IsBounded (next r (getting now key c)) = get-IsValid now key c (Reach-IsBounded r)
Reach-IsBounded (next r (setting now key value ttl_ms c)) =
    set-IsValid now key value ttl_ms c (Reach-IsBounded r)
Reach-IsBounded (next r (deleting key c)) = delete-IsValid key c (Reach-IsBounded r)
Reach-IsBounded (next r (clearing c)) = clear-IsValid c (Reach-IsBounded r)
