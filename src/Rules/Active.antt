-- ===== src/Rules/Active.antt =====
-- src/nip9a-parser.js: which of the known rules documents `pickActiveRules` picks.
use strfry_namecoin_policy.Prelude.{◌≡◌, Option, none, some, List, All, Any}
use strfry_namecoin_policy.Prelude.Int.{ℤ, pos, ◌≤ℤ◌, ◌<ℤ◌}
use strfry_namecoin_policy.Rules.{Rules, better}

-- The document's date is a number.
abbrev pub IsDated : Rules → Type 0
IsDated r = (c : ℤ) × (r.created_at ≡ some c)

-- A time is not before any of the ratchets.
abbrev pub MeetsRatchets : ℤ → List Rules → Type 0
MeetsRatchets c rs = All (λ r. (v : ℤ) → r.min_rules_created_at ≡ some v → v ≤ℤ c) rs

-- There is a document, dated, and not before a time.
abbrev pub IsDatedFrom : ℤ → Option Rules → Type 0
IsDatedFrom c none = ⊥
IsDatedFrom c (some r) = (d : ℤ) × (r.created_at ≡ some d) × (c ≤ℤ d)

abbrev IsGood : ℤ → Option Rules → Type 0
IsGood floor none = Unit
IsGood floor (some r) = IsDatedFrom floor (some r)

-- What one round of the choice does with a document dated `c`.
data Round (floor : ℤ) (best : Option Rules) (r : Rules) (c : ℤ) : Type 0 where
  below : c <ℤ floor → better floor best r ≡ best → Round floor best r c
  first : floor ≤ℤ c → best ≡ none → better floor best r ≡ some r → Round floor best r c
  later :
      (b : Rules) (d : ℤ)
      → floor ≤ℤ c
      → best ≡ some b
      → b.created_at ≡ some d
      → d <ℤ c
      → better floor best r ≡ some r
      → Round floor best r c
  no_later :
      (b : Rules) (d : ℤ)
      → best ≡ some b
      → b.created_at ≡ some d
      → c ≤ℤ d
      → better floor best r ≡ some b
      → Round floor best r c

-- The picked document is one of the candidates, it is dated at or after each candidate's ratchet
-- and not before 0, and no candidate that is dated so has a later date.
pub record IsActive (candidates : List Rules) (r : Rules) : Type 0 where
  pub date : ℤ
  pub dated : r.created_at ≡ some date
  pub listed : Any (λ x. x ≡ r) candidates
  pub ratcheted : MeetsRatchets date candidates
  pub latest :
      All
        (λ x. (c : ℤ) → x.created_at ≡ some c → pos 0 ≤ℤ c → MeetsRatchets c candidates → c ≤ℤ date)
        candidates

abbrev pub Picks : List Rules → Option Rules → Type 0
Picks candidates none =
    All (λ x. (c : ℤ) → x.created_at ≡ some c → pos 0 ≤ℤ c → ¬ MeetsRatchets c candidates)
      candidates
Picks candidates (some r) = IsActive candidates r
