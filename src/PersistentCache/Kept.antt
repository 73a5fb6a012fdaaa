-- ===== src/PersistentCache/Kept.antt =====
-- src/persistent-cache.js: that a map holds what another one does, less the entries that are
-- over at a time.
use mathlib.Core.Option.{some-injective}
use mathlib.Core.Path.{subst}
use strfry_namecoin_policy.Prelude.{
  ℕ, suc, ◌≤◌, ◌≡◌, refl, sym, ap, ◌∙◌, ◌&&◌, Option, none, some, List, [], ◌∷◌, length, ltb,
  if◌then◌else◌, arith, Bool-cases, inl, inr, length-append,
}
use strfry_namecoin_policy.Js.{Text, same, same_iff, Runtime}
use strfry_namecoin_policy.Js.Json.{JsonRuntime}
use strfry_namecoin_policy.Store
use strfry_namecoin_policy.Store.{lookup, insert, Distinct, IsAbsent}
use strfry_namecoin_policy.Store.Laws.{
  lookup-insert, lookup_absent, lookup-delete_ne, delete-IsAbsent, insert_absent, length-delete,
}
use strfry_namecoin_policy.PersistentCache.{Entry, is_over, evict_if_needed}
use strfry_namecoin_policy.PersistentCache.Log.{place, live}

-- What a lookup at the time `now` should find of an entry.
abbrev pub unless_over : ℕ → ℕ → Entry → Option Entry
unless_over now ttl_ms entry =
    if ltb 0 ttl_ms && is_over entry.expires now then none else some entry

-- Each entry of `m` that is not over at `now` is in `m'`, and no other entry stands in `m'`
-- under its key.
abbrev pub Keeps : ℕ → ℕ → List (Text × Entry) → List (Text × Entry) → Type 0
Keeps now ttl_ms m m' =
    (k : Text)
    → (entry : Entry) → lookup k m ≡ some entry
    → lookup k m' ≡ unless_over now ttl_ms entry

pub lookup-delete_self :
    (k : Text) (m : List (Text × Entry)) → Distinct m → lookup k (Store.delete k m) ≡ none
lookup-delete_self k m d = lookup_absent k (Store.delete k m) (delete-IsAbsent k m d)

-- The entry that `insert` after `delete` leaves.
pub lookup-moved :
    (k q : Text) (entry : Entry) (m : List (Text × Entry))
    → lookup q (insert k entry (Store.delete k m)) ≡ lookup q (insert k entry m)
lookup-moved k q entry m = elim (Bool-cases (same k q)) [
  | inl here ↦ rw (lookup-insert k q entry (Store.delete k m), lookup-insert k q entry m, here) refl
  | inr other ↦
      rw (lookup-insert k q entry (Store.delete k m), lookup-insert k q entry m, other)
        (lookup-delete_ne k q m other)
]

pub lookup-touched :
    (k q : Text) (entry : Entry) (m : List (Text × Entry))
    → lookup k m ≡ some entry
    → lookup q (insert k entry (Store.delete k m)) ≡ lookup q m
lookup-touched k q entry m found = elim (Bool-cases (same k q)) [
  | inl here ↦
      rw (lookup-insert k q entry (Store.delete k m), here)
        (subst (λ j. some entry ≡ lookup j m) ((same_iff k q).0 here) (sym found))
  | inr other ↦
      rw (lookup-insert k q entry (Store.delete k m), other) (lookup-delete_ne k q m other)
]

module _ (now ttl_ms : ℕ) where
  pub Keeps-nil : (m' : List (Text × Entry)) → Keeps now ttl_ms [] m'
  unfolding lookup
  Keeps-nil m' k entry h = absurd (ground arith)

  pub Keeps-delete :
      (k : Text) (m m' : List (Text × Entry))
      → Distinct m
      → Keeps now ttl_ms m m'
      → Keeps now ttl_ms (Store.delete k m) (Store.delete k m')
  Keeps-delete k m m' d kept q entry h = elim (Bool-cases (same k q)) [
    | inl here ↦ absurd (
        cc (
          lookup-delete_self k m d,
          subst (λ j. lookup j (Store.delete k m) ≡ some entry) (sym ((same_iff k q).0 here)) h,
        ))
    | inr other ↦
        lookup-delete_ne k q m' other ∙ kept q entry (sym (lookup-delete_ne k q m other) ∙ h)
  ]

  lookup-place :
      (k q : Text) (entry : Entry) (m : List (Text × Entry))
      → Distinct m
      → lookup q (place now ttl_ms k entry m)
        ≡ (if same k q then unless_over now ttl_ms entry else lookup q m)
  lookup-place k q entry m d = elim (Bool-cases (ltb 0 ttl_ms && is_over entry.expires now)) [
    | inl over ↦ rw over (elim (Bool-cases (same k q)) [
      | inl here ↦ rw (here, ← (same_iff k q).0 here) (lookup-delete_self k m d)
      | inr other ↦ rw other (lookup-delete_ne k q m other)
    ])
    | inr good ↦ rw good (lookup-insert k q entry m)
  ]

  pub Keeps-place :
      (k : Text) (entry : Entry) (m m' : List (Text × Entry))
      → Distinct m'
      → Keeps now ttl_ms m m'
      → Keeps now ttl_ms (insert k entry m) (place now ttl_ms k entry m')
  Keeps-place k entry m m' d kept q e h =
      lookup-place k q entry m' d ∙ elim (Bool-cases (same k q)) [
        | inl here ↦
            let got : lookup q (insert k entry m) ≡ some entry =
              lookup-insert k q entry m ∙ rw here refl in
            rw here (ap (unless_over now ttl_ms) (some-injective _ _ (sym got ∙ h)))
        | inr other ↦
            let got : lookup q (insert k entry m) ≡ lookup q m =
              lookup-insert k q entry m ∙ rw other refl in
            rw other (kept q e (sym got ∙ h))
      ]

  -- Where the key's entry is dropped from the first map.
  pub Keeps-drop :
      (k : Text) (entry : Entry) (m m' : List (Text × Entry))
      → Distinct m
      → Distinct m'
      → Keeps now ttl_ms m m'
      → Keeps now ttl_ms (Store.delete k m) (place now ttl_ms k entry m')
  Keeps-drop k entry m m' d d' kept q e h =
      lookup-place k q entry m' d' ∙ elim (Bool-cases (same k q)) [
        | inl here ↦ absurd (
            cc (
              lookup-delete_self k m d,
              subst (λ j. lookup j (Store.delete k m) ≡ some e) (sym ((same_iff k q).0 here)) h,
            ))
        | inr other ↦ rw other (kept q e (sym (lookup-delete_ne k q m other) ∙ h))
      ]

  -- Where the keys are found to stand for the same entries.
  pub Keeps-same :
      (m₁ m₂ m' : List (Text × Entry))
      → ((q : Text) (entry : Entry) → lookup q m₁ ≡ some entry → lookup q m₂ ≡ some entry)
      → Keeps now ttl_ms m₂ m'
      → Keeps now ttl_ms m₁ m'
  Keeps-same m₁ m₂ m' found kept q entry h = kept q entry (found q entry h)

  pub live-IsAbsent :
      (k : Text) (m : List (Text × Entry)) → IsAbsent k m → IsAbsent k (live now ttl_ms m)
  unfolding live
  live-IsAbsent k [] a = tt
  live-IsAbsent k ((j, v) ∷ m) a = elim (Bool-cases (ltb 0 ttl_ms && is_over v.expires now)) [
    | inl over ↦ rw (over, live) (live-IsAbsent k m a.1)
    | inr good ↦ rw (good, live) (a.0, live-IsAbsent k m a.1)
  ]

  pub Keeps-live : (m : List (Text × Entry)) → Distinct m → Keeps now ttl_ms m (live now ttl_ms m)
  unfolding live lookup
  Keeps-live [] d k entry h = absurd (ground arith)
  Keeps-live ((j, v) ∷ m) d k entry h = elim (Bool-cases (same j k)) [
    | inl here ↦
        let is : v ≡ entry = some-injective _ _ (ground (arith, here)) in
        let gone : lookup k (live now ttl_ms m) ≡ none =
          lookup_absent k (live now ttl_ms m)
            (live-IsAbsent k m (rw (← (same_iff j k).0 here) d.0)) in
        rw (← is) (elim (Bool-cases (ltb 0 ttl_ms && is_over v.expires now)) [
          | inl over ↦ rw (over, live) gone
          | inr good ↦ rw (good, here, live, lookup) refl
        ])
    | inr other ↦
        let later = Keeps-live m d.1 k entry (ground (arith, other)) in
        elim (Bool-cases (ltb 0 ttl_ms && is_over v.expires now)) [
          | inl over ↦ rw (over, live) later
          | inr good ↦ rw (good, other, live, lookup) later
        ]
  ]

-- What eviction leaves stood there before, and under the same key.
pub lookup-evict :
    (rt : Runtime) (json : JsonRuntime) (max : ℕ) (m : List (Text × Entry))
    → Distinct m
    → (q : Text) (entry : Entry) → lookup q (evict_if_needed rt json max m) ≡ some entry
    → lookup q m ≡ some entry
unfolding evict_if_needed lookup
lookup-evict rt json max [] d q entry h = h
lookup-evict rt json max ((k, v) ∷ m) d q entry h = elim (Bool-cases (ltb max (suc (length m)))) [
  | inl over ↦
      let later : lookup q m ≡ some entry =
        lookup-evict rt json max m d.1 q entry (ground (arith, over)) in
      elim (Bool-cases (same k q)) [
        | inl here ↦ absurd (
            cc (
              later,
              subst (λ j. lookup j m ≡ none) ((same_iff k q).0 here) (lookup_absent k m d.0),
            ))
        | inr other ↦ rw other later
      ]
  | inr fits ↦ ground (arith, fits)
]

pub evict-le :
    (rt : Runtime) (json : JsonRuntime) (max : ℕ) (m : List (Text × Entry))
    → length (evict_if_needed rt json max m) ≤ max
unfolding evict_if_needed
evict-le rt json max [] = omega arith
evict-le rt json max (e ∷ m) = ground (arith, evict-le rt json max m)

pub evict_fits :
    (rt : Runtime) (json : JsonRuntime) (max : ℕ) (m : List (Text × Entry))
    → length m ≤ max
    → evict_if_needed rt json max m ≡ m
unfolding evict_if_needed
evict_fits rt json max [] h = refl
evict_fits rt json max (e ∷ m) h = ground arith

pub live-le : (now ttl_ms : ℕ) (m : List (Text × Entry)) → length (live now ttl_ms m) ≤ length m
unfolding live
live-le now ttl_ms [] = omega arith
live-le now ttl_ms (e ∷ m) = ground (arith, live-le now ttl_ms m)

pub length-touched :
    (k : Text) (entry : Entry) (m : List (Text × Entry))
    → Distinct m
    → lookup k m ≡ some entry
    → length (insert k entry (Store.delete k m)) ≡ length m
length-touched k entry m d found =
    rw
      (
        insert_absent k entry (Store.delete k m) (delete-IsAbsent k m d),
        length-append (Store.delete k m) ((k, entry) ∷ []),
      )
      (omega (arith, length-delete k m {v = entry} found))
