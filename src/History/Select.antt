-- ===== src/History/Select.antt =====
-- src/electrumx.js: which entry of a history `selectNameRowFromHistory` answers with.
use mathlib.Core.Option.{some-injective}
use mathlib.Core.Path.{subst, sym}
use strfry_namecoin_policy.Prelude.{
  ℕ, zero, suc, ◌+◌, ◌-◌, ◌≤◌, ◌<◌, ◌≡◌, ◌∙◌, inl, inr, true, Option, none, some, List, [], ◌∷◌,
  take, arith, All, Any, Option-cases,
}
use strfry_namecoin_policy.Prelude.Int.{ℤ, pos, negsuc}
use strfry_namecoin_policy.Js.{Text, txt, Runtime, same_iff}
use strfry_namecoin_policy.Js.Json.{Json, prop}
use strfry_namecoin_policy.Script.{NameScript}
use strfry_namecoin_policy.History.{
  Entry, filtered, eligible, confirmed, NameRow, carried, walk, name_expire_depth, parse_output,
  parse_outputs, parse_name_from_tx, height_of,
}
use strfry_namecoin_policy.History.Sort.{IsDescending}

-- The history's items that survive the filter, as items of the history.
module _ (tip : Option ℤ) (min_conf : ℕ) (P : Entry → Type 0) where
  filtered_step :
      (h : Json) (hs : List Json) {e : Entry}
      → eligible tip min_conf h ≡ some e
      → filtered tip min_conf (h ∷ hs) ≡ e ∷ filtered tip min_conf hs
  unfolding filtered
  filtered_step h hs p = rw (p, filtered)

  filtered_skip :
      (h : Json) (hs : List Json)
      → eligible tip min_conf h ≡ none
      → filtered tip min_conf (h ∷ hs) ≡ filtered tip min_conf hs
  unfolding filtered
  filtered_skip h hs p = rw (p, filtered)

  pub Any-of_filtered :
      (hs : List Json)
      → Any P (filtered tip min_conf hs)
      → Any (λ h. (e : Entry) × (eligible tip min_conf h ≡ some e) × P e) hs
  unfolding filtered
  Any-of_filtered [] any = any
  Any-of_filtered (h ∷ hs) any = elim (Option-cases (eligible tip min_conf h)) [
    | inl out ↦ inr (Any-of_filtered hs (subst (Any P) (filtered_skip h hs out) any))
    | inr (e, kept) ↦ elim (subst (Any P) (filtered_step h hs kept) any) [
      | inl here ↦ inl (e, kept, here)
      | inr more ↦ inr (Any-of_filtered hs more)
    ]
  ]

  pub All_of_filtered :
      (hs : List Json)
      → All P (filtered tip min_conf hs)
      → All (λ h. (e : Entry) → eligible tip min_conf h ≡ some e → P e) hs
  unfolding filtered
  All_of_filtered [] all = tt
  All_of_filtered (h ∷ hs) all = elim (Option-cases (eligible tip min_conf h)) [
    | inl out ↦
        (λ e kept. absurd (cc), All_of_filtered hs (subst (All P) (filtered_skip h hs out) all))
    | inr (e, kept) ↦
        let (here, more) = subst (All P) (filtered_step h hs kept) all in
        (λ f again. subst P (some-injective _ _ (sym kept ∙ again)) here, All_of_filtered hs more)
  ]

module _ (rt : Runtime) (fetch_tx : Text → Option (Option Json)) (name : Text) where
  abbrev pub IsSilent : Entry → Type 0
  IsSilent e = carried rt fetch_tx name e ≡ none

  abbrev pub Carries : Entry → NameScript → Type 0
  Carries e parsed = carried rt fetch_tx name e ≡ some parsed

  walk_hit :
      (x : Entry) (es : List Entry) {p : NameScript}
      → Carries x p
      → walk rt fetch_tx name (x ∷ es) ≡ some (x, p)
  unfolding walk
  walk_hit x es h = rw (h, walk)

  walk_miss :
      (x : Entry) (es : List Entry)
      → IsSilent x
      → walk rt fetch_tx name (x ∷ es) ≡ walk rt fetch_tx name es
  unfolding walk
  walk_miss x es h = rw (h, walk)

  walk_nil : {e : Entry} {p : NameScript} → walk rt fetch_tx name [] ≡ some (e, p) → ⊥
  unfolding walk
  walk_nil h = cc

  -- The entry that a walk stops at is one of the list, and carries what the walk found.
  pub walk-Any :
      (es : List Entry) (e : Entry) (p : NameScript)
      → walk rt fetch_tx name es ≡ some (e, p)
      → Any (λ x. (x ≡ e) × Carries x p) es
  walk-Any [] e p h = walk_nil h
  walk-Any (x ∷ es) e p h = elim (Option-cases (carried rt fetch_tx name x)) [
    | inl silent ↦ inr (walk-Any es e p (sym (walk_miss x es silent) ∙ h))
    | inr (q, hit) ↦ inl (ground (arith, walk_hit x es hit))
  ]

  pub walk-none : (es : List Entry) → walk rt fetch_tx name es ≡ none → All IsSilent es
  walk-none [] h = tt
  walk-none (x ∷ es) h = elim (Option-cases (carried rt fetch_tx name x)) [
    | inl silent ↦ (silent, walk-none es (sym (walk_miss x es silent) ∙ h))
    | inr (q, hit) ↦ absurd (ground (arith, walk_hit x es hit))
  ]

  lower_not_above :
      (e : Entry) (es : List Entry)
      → All (λ y. y.height ≤ e.height) es
      → All (λ y. e.height < y.height → IsSilent y) es
  lower_not_above e [] all = tt
  lower_not_above e (y ∷ es) all = (λ above. absurd (omega arith), lower_not_above e es all.1)

  -- In a list sorted by height, nothing above the entry that the walk stops at carries the name.
  pub walk-newest :
      (n : ℕ) (es : List Entry) (e : Entry) (p : NameScript)
      → IsDescending es
      → walk rt fetch_tx name (take n es) ≡ some (e, p)
      → All (λ y. e.height < y.height → IsSilent y) es
  walk-newest zero es e p d h = absurd (walk_nil h)
  walk-newest (suc n) [] e p d h = absurd (walk_nil h)
  walk-newest (suc n) (x ∷ es) e p (top, d) h = elim (Option-cases (carried rt fetch_tx name x)) [
    | inl silent ↦ (λ _. silent, walk-newest n es e p d (sym (walk_miss x (take n es) silent) ∙ h))
    | inr (q, hit) ↦
        let same : x ≡ e = ground (arith, walk_hit x (take n es) hit) in
        lower_not_above e (x ∷ es)
          (subst (λ y. All (λ z. z.height ≤ y.height) (x ∷ es)) same (omega arith, top))
  ]

-- What the parser finds in a transaction has the name that it looked for.
parse_output-name :
    (rt : Runtime) (expected : Text) (vout : Json) {p : NameScript}
    → parse_output rt expected vout ≡ some p
    → p.name ≡ expected
unfolding parse_output
parse_output-name rt expected vout {p} h = ground (arith, same_iff p.name expected)

parse_outputs-name :
    (rt : Runtime) (expected : Text) (outs : List Json) {p : NameScript}
    → parse_outputs rt expected outs ≡ some p
    → p.name ≡ expected
unfolding parse_outputs
parse_outputs-name rt expected [] h = cc
parse_outputs-name rt expected (vout ∷ more) {p} h =
    ground (
      arith,
      parse_output-name rt expected vout {p = p},
      parse_outputs-name rt expected more {p = p},
    )

pub carried-name :
    (rt : Runtime) (fetch_tx : Text → Option (Option Json)) (name : Text) (e : Entry)
    {p : NameScript}
    → carried rt fetch_tx name e ≡ some p
    → p.name ≡ name
unfolding carried parse_name_from_tx
carried-name rt fetch_tx name e {p} h = grind (arith, parse_outputs-name)

height_of-pos : (v : Option Json) {n : ℕ} → height_of v ≡ some n → 0 < n
unfolding height_of
height_of-pos v h = ground arith

confirmed_sound :
    (tip : Option ℤ) (ht m t : ℕ)
    → confirmed tip ht m ≡ true
    → tip ≡ some (pos t)
    → 0 < m
    → ht + m ≤ t + 1
confirmed_sound none ht m t c e h = cc
confirmed_sound (some (pos s)) ht m t c e h = ground arith
confirmed_sound (some (negsuc s)) ht m t c e h = cc

eligible_parts :
    (tip : Option ℤ) (m : ℕ) (h : Json) {e : Entry}
    → eligible tip m h ≡ some e
    → (height_of (prop h (txt "height")) ≡ some e.height) × (confirmed tip e.height m ≡ true)
unfolding eligible
eligible_parts tip m h {e} k = ground arith

-- An entry that the filter keeps has a positive height, and enough confirmations where these count.
pub eligible_sound :
    (tip : Option ℤ) (m : ℕ) (h : Json) {e : Entry}
    → eligible tip m h ≡ some e
    → (0 < e.height) × ((t : ℕ) → tip ≡ some (pos t) → 0 < m → e.height + m ≤ t + 1)
eligible_sound tip m h {e} k =
    let (height, ok) = eligible_parts tip m h {e = e} k in
    (
      height_of-pos (prop h (txt "height")) height,
      λ t at pos_m. confirmed_sound tip e.height m t ok at pos_m,
    )

-- The item of the history behind an answer: it passes the filter, has the answer's transaction and
-- height, and its transaction carries the answer's value for the name.
abbrev pub IsSource :
    Runtime → (Text → Option (Option Json)) → Text → Option ℤ → ℕ → NameRow → Json → Type 0
IsSource rt fetch_tx name tip m r h =
    (e : Entry) × (eligible tip m h ≡ some e)
    × (e.tx_hash ≡ r.txid)
    × (e.height ≡ r.height)
    × (p : NameScript) × (carried rt fetch_tx name e ≡ some p)
    × (p.value ≡ r.value)

-- An item of the history that passes the filter above a height does not carry the name.
abbrev pub IsSilentAbove :
    Runtime → (Text → Option (Option Json)) → Text → Option ℤ → ℕ → ℕ → Json → Type 0
IsSilentAbove rt fetch_tx name tip m height h =
    (e : Entry) → eligible tip m h ≡ some e → height < e.height → IsSilent rt fetch_tx name e

pub record IsCurrent (rt : Runtime) (fetch_tx : Text → Option (Option Json)) (name : Text)
    (history : List Json) (tip : Option ℤ) (m : ℕ) (r : NameRow) : Type 0 where
  pub named : r.name ≡ name
  pub mined : 0 < r.height
  pub confirmed : (t : ℕ) → tip ≡ some (pos t) → 0 < m → r.height + m ≤ t + 1
  pub unexpired : (t : ℕ) → tip ≡ some (pos t) → t < r.height + name_expire_depth
  pub expires_in :
      (t : ℕ) → tip ≡ some (pos t) → r.expires_in ≡ some (pos (name_expire_depth + r.height - t))
  pub source : Any (IsSource rt fetch_tx name tip m r) history
  pub newest : All (IsSilentAbove rt fetch_tx name tip m r.height) history
