-- ===== src/Resolver/Names.antt =====
-- src/resolver.js: which names an identifier can ask a server for.
use mathlib.Core.Path.{subst}
use strfry_namecoin_policy.Prelude.{
  ℕ, ◌-◌, ◌<◌, ◌≤◌, ◌≡◌, refl, Bool, true, false, ◌||◌, some, [], ◌∷◌, ◌++◌, length, take, ◌==◌,
  inl, inr, Option-cases, Bool-cases, arith,
}
use strfry_namecoin_policy.Js.{
  Text, txt, starts_with, ends_with, includes, all, Runtime, to_lower, trim, byte_length,
}
use strfry_namecoin_policy.Resolver.{
  Identifier, stem_of, is_namespaced, is_name_form, slash, dot, at_sign, is_bare, is_bare_or_at,
  finalize, split_last, read_domain, read_at, or_root, parse_identifier,
}

-- A name that may be asked for: in a namespace, with a stem of 1 to 64 code units and no slash,
-- and of at most 67 bytes.
pub record IsAskable (name : Text) : Type 0 where
  pub namespaced : is_namespaced name ≡ true
  pub some_stem : 0 < length (stem_of name)
  pub short_stem : length (stem_of name) ≤ 64
  pub one_level : includes slash (stem_of name) ≡ false
  pub short : byte_length name ≤ 67

finalize_cases :
    (q : Identifier) {p : Identifier}
    → finalize q ≡ some p
    → (q ≡ p)
      × (0 < length (stem_of q.namecoin_name))
      × (length (stem_of q.namecoin_name) ≤ 64)
      × (byte_length q.namecoin_name ≤ 67)
unfolding finalize
finalize_cases q h = ground arith

finalize-IsAskable :
    (q : Identifier) {p : Identifier}
    → is_namespaced q.namecoin_name ≡ true
    → includes slash (stem_of q.namecoin_name) ≡ false
    → finalize q ≡ some p
    → IsAskable p.namecoin_name
finalize-IsAskable q spaced level h =
    let (kept, positive, short, bytes) = finalize_cases q h in
    subst (λ (i : Identifier). IsAskable i.namecoin_name) kept
      (record {
        namespaced = spaced;
        some_stem = positive;
        short_stem = short;
        one_level = level;
        short = bytes;
      })

all-no_slash :
    (p : ℕ → Bool) (s : Text)
    → ((c : ℕ) → p c ≡ true → (c == slash) ≡ false)
    → all p s ≡ true
    → includes slash s ≡ false
unfolding all includes
all-no_slash p [] k h = refl
all-no_slash p (c ∷ s) k h = ground (arith, k c, all-no_slash p s k)

stem_of-domain :
    (stem : Text) → (stem_of (txt "d/" ++ stem) ≡ stem) × (is_namespaced (txt "d/" ++ stem) ≡ true)
unfolding stem_of starts_with
stem_of-domain stem = (refl, refl)

read_domain-IsAskable :
    (domain local_part : Text) {p : Identifier}
    → read_domain domain local_part ≡ some p
    → IsAskable p.namecoin_name
unfolding read_domain
read_domain-IsAskable domain local_part {p} h =
    let stem = take (length domain - 4) domain in
    let (same_stem, spaced) = stem_of-domain stem in
    elim (Bool-cases ((length stem == 0) || includes slash stem || includes dot stem)) [
      | inl bad ↦ absurd (ground arith)
      | inr good ↦
          finalize-IsAskable (record { namecoin_name = txt "d/" ++ stem; local_part = local_part })
            {p = p} spaced (rw same_stem (ground arith)) (ground arith)
    ]

name_form-IsAskable :
    (allows : ℕ → Bool) (name local_part : Text) {p : Identifier}
    → ((c : ℕ) → allows c ≡ true → (c == slash) ≡ false)
    → is_name_form allows name ≡ true
    → finalize (record { namecoin_name = name; local_part = local_part }) ≡ some p
    → IsAskable p.namecoin_name
unfolding is_name_form
name_form-IsAskable allows name local_part no_slash form h =
    finalize-IsAskable (record { namecoin_name = name; local_part = local_part }) (ground arith)
      (all-no_slash allows (stem_of name) no_slash (ground arith)) h

bare-no_slash : (c : ℕ) → is_bare c ≡ true → (c == slash) ≡ false
bare-no_slash c h = ground arith

bare_or_at-no_slash : (c : ℕ) → is_bare_or_at c ≡ true → (c == slash) ≡ false
bare_or_at-no_slash c h = ground arith

read_at-IsAskable :
    (local_part domain : Text) {p : Identifier}
    → read_at local_part domain ≡ some p
    → IsAskable p.namecoin_name
unfolding read_at
read_at-IsAskable local_part domain {p} h = elim (Bool-cases (length domain == 0)) [
  | inl gone ↦ absurd (ground arith)
  | inr there ↦ elim (Bool-cases (ends_with (txt ".bit") domain)) [
    | inl bit ↦ read_domain-IsAskable domain (or_root local_part) {p = p} (ground (arith, bit))
    | inr other ↦ elim (Bool-cases (is_name_form is_bare_or_at domain)) [
      | inl form ↦
          name_form-IsAskable is_bare_or_at domain (or_root local_part) {p = p} bare_or_at-no_slash
            form (ground (arith, form))
      | inr none_of ↦ absurd (ground arith)
    ]
  ]
]

-- What the parser hands on can be asked for: it is in the namespace `d/` or `id/`, its stem has
-- 1 to 64 code units and no slash, and the name has at most 67 bytes.
pub parse_identifier-IsAskable :
    (rt : Runtime) (identifier : Text) {p : Identifier}
    → parse_identifier rt identifier ≡ some p
    → IsAskable p.namecoin_name
unfolding parse_identifier
parse_identifier-IsAskable rt identifier {p} h =
    let id = to_lower rt (trim identifier) in
    elim (Bool-cases (length id == 0)) [
      | inl gone ↦ absurd (ground arith)
      | inr there ↦ elim (Bool-cases (is_name_form is_bare id)) [
        | inl form ↦
            name_form-IsAskable is_bare id (txt "_") {p = p} bare-no_slash form
              (ground (arith, form))
        | inr other ↦ elim (Option-cases (split_last at_sign id)) [
          | inr ((local_part, domain), found) ↦
              read_at-IsAskable local_part domain {p = p} (ground (arith, found))
          | inl plain ↦ elim (Bool-cases (ends_with (txt ".bit") id)) [
            | inl bit ↦ read_domain-IsAskable id (txt "_") {p = p} (ground (arith, bit, plain))
            | inr neither ↦ absurd (ground (arith, plain))
          ]
        ]
      ]
    ]
