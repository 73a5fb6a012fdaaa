-- ===== src/Store/Laws.antt =====
-- Laws of the map: what each operation leaves to be looked up, and where it puts an entry.
use strfry_namecoin_policy.Prelude.{
  suc, ◌≤◌, ◌≡◌, refl, ap, true, false, none, some, List, [], ◌∷◌, ◌++◌, length, arith,
  if◌then◌else◌, Bool-cases, inl, inr, All,
}
use strfry_namecoin_policy.Js.{Text, same, same_iff}
use strfry_namecoin_policy.Store.{lookup, delete, insert, Distinct, IsAbsent}

pub same_refl : (k : Text) → same k k ≡ true
same_refl k = (same_iff k k).1 refl

pub same-false_sym : (a b : Text) → same a b ≡ false → same b a ≡ false
same-false_sym a b h = ground (arith, same_iff a b, same_iff b a)

module _ {ℓ} {V : Type ℓ} where
  pub lookup-insert :
      (k j : Text) (v : V) (m : List (Text × V))
      → lookup j (insert k v m) ≡ (if same k j then some v else lookup j m)
  unfolding lookup insert
  lookup-insert k j v [] = refl
  lookup-insert k j v ((i, w) ∷ m) =
      ground (arith, same_iff k j, same_iff i k, same_iff i j, lookup-insert k j v m)

  pub lookup_absent : (k : Text) (m : List (Text × V)) → IsAbsent k m → lookup k m ≡ none
  unfolding lookup
  lookup_absent k [] h = refl
  lookup_absent k ((j, w) ∷ m) h = rw h.0 (lookup_absent k m h.1)

  pub IsAbsent-of_lookup : (k : Text) (m : List (Text × V)) → lookup k m ≡ none → IsAbsent k m
  unfolding lookup
  IsAbsent-of_lookup k [] h = tt
  IsAbsent-of_lookup k ((j, w) ∷ m) h = (ground arith, IsAbsent-of_lookup k m (ground arith))

  pub delete_absent : (k : Text) (m : List (Text × V)) → IsAbsent k m → delete k m ≡ m
  unfolding delete
  delete_absent k [] h = refl
  delete_absent k ((j, w) ∷ m) h = rw h.0 (ap (◌∷◌ (j, w)) (delete_absent k m h.1))

  -- A new key is appended.
  pub insert_absent :
      (k : Text) (v : V) (m : List (Text × V)) → IsAbsent k m → insert k v m ≡ m ++ (k, v) ∷ []
  unfolding insert
  insert_absent k v [] h = refl
  insert_absent k v ((j, w) ∷ m) h = rw h.0 (ap (◌∷◌ (j, w)) (insert_absent k v m h.1))

  pub delete-IsAbsent : (k : Text) (m : List (Text × V)) → Distinct m → IsAbsent k (delete k m)
  unfolding delete
  delete-IsAbsent k [] d = tt
  delete-IsAbsent k ((j, w) ∷ m) (fresh, d) = elim (Bool-cases (same j k)) [
    | inl here ↦ rw (here, delete) (rw (← (same_iff j k).0 here) fresh)
    | inr other ↦ rw (other, delete) (other, delete-IsAbsent k m d)
  ]

  IsAbsent-delete : (q k : Text) (m : List (Text × V)) → IsAbsent q m → IsAbsent q (delete k m)
  unfolding delete
  IsAbsent-delete q k [] h = tt
  IsAbsent-delete q k ((j, w) ∷ m) h = elim (Bool-cases (same j k)) [
    | inl here ↦ rw (here, delete) h.1
    | inr other ↦ rw (other, delete) (h.0, IsAbsent-delete q k m h.1)
  ]

  pub delete-Distinct : (k : Text) (m : List (Text × V)) → Distinct m → Distinct (delete k m)
  unfolding delete
  delete-Distinct k [] d = tt
  delete-Distinct k ((j, w) ∷ m) (fresh, d) = elim (Bool-cases (same j k)) [
    | inl here ↦ rw (here, delete) d
    | inr other ↦ rw (other, delete) (IsAbsent-delete j k m fresh, delete-Distinct k m d)
  ]

  pub lookup-delete_ne :
      (k q : Text) (m : List (Text × V)) → same k q ≡ false → lookup q (delete k m) ≡ lookup q m
  unfolding lookup delete
  lookup-delete_ne k q [] h = refl
  lookup-delete_ne k q ((j, w) ∷ m) h =
      ground (arith, same_iff j k, same_iff j q, same_iff k q, lookup-delete_ne k q m)

  pub IsAbsent-append :
      (q k : Text) (v : V) (m : List (Text × V))
      → same k q ≡ false
      → IsAbsent q m
      → IsAbsent q (m ++ (k, v) ∷ [])
  IsAbsent-append q k v [] h a = (h, tt)
  IsAbsent-append q k v ((j, w) ∷ m) h a = (a.0, IsAbsent-append q k v m h a.1)

  pub append-Distinct :
      (k : Text) (v : V) (m : List (Text × V))
      → IsAbsent k m
      → Distinct m
      → Distinct (m ++ (k, v) ∷ [])
  append-Distinct k v [] a d = (tt, tt)
  append-Distinct k v ((j, w) ∷ m) a (fresh, d) =
      (IsAbsent-append j k v m (same-false_sym j k a.0) fresh, append-Distinct k v m a.1 d)

  pub length-delete :
      (k : Text) (m : List (Text × V)) {v : V}
      → lookup k m ≡ some v
      → suc (length (delete k m)) ≡ length m
  unfolding lookup delete
  length-delete k [] h = cc
  length-delete k ((j, w) ∷ m) {v} h = ground (arith, length-delete k m {v = v})

  pub length-delete-le : (k : Text) (m : List (Text × V)) → length (delete k m) ≤ length m
  unfolding delete
  length-delete-le k [] = omega arith
  length-delete-le k ((j, w) ∷ m) = ground (arith, length-delete-le k m)

  pub lookup-append_self :
      (k : Text) (v : V) (m : List (Text × V)) → IsAbsent k m → lookup k (m ++ (k, v) ∷ []) ≡ some v
  unfolding lookup
  lookup-append_self k v [] a = rw (same_refl k)
  lookup-append_self k v ((j, w) ∷ m) a = rw a.0 (lookup-append_self k v m a.1)

  pub lookup-append_ne :
      (k q : Text) (v : V) (m : List (Text × V))
      → same k q ≡ false
      → lookup q (m ++ (k, v) ∷ []) ≡ lookup q m
  unfolding lookup
  lookup-append_ne k q v [] h = rw h
  lookup-append_ne k q v ((j, w) ∷ m) h = ground (arith, lookup-append_ne k q v m)

  pub All-insert :
      (P : Text × V → Type 0) (k : Text) (v : V) (m : List (Text × V))
      → All P m
      → P (k, v)
      → All P (insert k v m)
  unfolding insert
  All-insert P k v [] h p = (p, tt)
  All-insert P k v ((j, w) ∷ m) h p = elim (Bool-cases (same j k)) [
    | inl here ↦ rw (here, insert) (p, h.1)
    | inr other ↦ rw (other, insert) (h.0, All-insert P k v m h.1 p)
  ]

  IsAbsent-insert :
      (q k : Text) (v : V) (m : List (Text × V))
      → same k q ≡ false
      → IsAbsent q m
      → IsAbsent q (insert k v m)
  unfolding insert
  IsAbsent-insert q k v [] h a = (h, tt)
  IsAbsent-insert q k v ((j, w) ∷ m) h a = elim (Bool-cases (same j k)) [
    | inl here ↦ rw (here, insert) (h, a.1)
    | inr other ↦ rw (other, insert) (a.0, IsAbsent-insert q k v m h a.1)
  ]

  pub insert-Distinct :
      (k : Text) (v : V) (m : List (Text × V)) → Distinct m → Distinct (insert k v m)
  unfolding insert
  insert-Distinct k v [] d = (tt, tt)
  insert-Distinct k v ((j, w) ∷ m) (fresh, d) = elim (Bool-cases (same j k)) [
    | inl here ↦ rw (here, insert) (rw (← (same_iff j k).0 here) fresh, d)
    | inr other ↦
        rw (other, insert)
          (IsAbsent-insert j k v m (same-false_sym j k other) fresh, insert-Distinct k v m d)
  ]
