-- ===== src/Store.antt =====
-- A JavaScript `Map` with text keys, as the list of its entries in the order of insertion.
pub mod Laws
use strfry_namecoin_policy.Prelude.{
  ℕ, Bool, true, false, Option, none, some, List, [], ◌∷◌, ◌≡◌, map, if◌then◌else◌,
}
use strfry_namecoin_policy.Js.{Text, same}

module _ {ℓ} {V : Type ℓ} where
  unfoldable pub lookup : Text → List (Text × V) → Option V
  lookup k [] = none
  lookup k ((j, v) ∷ m) = if same j k then some v else lookup k m

  -- `m.delete(k)`
  unfoldable pub delete : Text → List (Text × V) → List (Text × V)
  delete k [] = []
  delete k ((j, v) ∷ m) = if same j k then m else (j, v) ∷ delete k m

  -- `m.set(k, v)` keeps the place of a key that is there, and appends one that is not.
  unfoldable pub insert : Text → V → List (Text × V) → List (Text × V)
  insert k v [] = (k, v) ∷ []
  insert k v ((j, w) ∷ m) = if same j k then (k, v) ∷ m else (j, w) ∷ insert k v m

  -- `[...m.values()]`
  abbrev pub values : List (Text × V) → List V
  values m = map (λ e. e.1) m

  abbrev pub IsAbsent : Text → List (Text × V) → Type 0
  IsAbsent k [] = Unit
  IsAbsent k ((j, v) ∷ m) = (same j k ≡ false) × IsAbsent k m

  -- A map has each key once.
  abbrev pub Distinct : List (Text × V) → Type 0
  Distinct [] = Unit
  Distinct ((k, v) ∷ m) = IsAbsent k m × Distinct m
