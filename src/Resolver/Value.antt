-- ===== src/Resolver/Value.antt =====
-- src/resolver.js: what `extractFromValue` gives.
use mathlib.Core.Path.{sym, subst}
use mathlib.Core.Option.{some-injective}
use strfry_namecoin_policy.Prelude.{
  ℕ, suc, ◌+◌, ◌≡◌, refl, ap, ◌∙◌, Bool, true, false, ◌&&◌, ◌||◌, Option, none, some, [], ◌∷◌,
  length, leb, ◌==◌, inl, inr, Option-cases, Bool-cases, arith,
}
use strfry_namecoin_policy.Js.{
  Text, txt, all, is_hex, is_hex64, starts_with, Runtime, lower_unit, to_lower,
}
use strfry_namecoin_policy.Js.Json.{Json, JsonRuntime, prop, is_object, as_text, is_nullish}
use strfry_namecoin_policy.Resolver.{
  Resolution, hex_key, single, single_if_root, relays_for, is_root, read_domain_record, read_nostr,
  extract_from_value,
}

-- A digit, or a letter from a to f.
abbrev pub is_lower_hex : ℕ → Bool
is_lower_hex c = (leb 48 c && leb c 57) || (leb 97 c && leb c 102)

pub record IsPubkey (s : Text) : Type 0 where
  pub size : length s ≡ 64
  pub lower : all is_lower_hex s ≡ true

lower_unit-hex :
    (rt : Runtime) (c : ℕ)
    → is_hex c ≡ true
    → (d : ℕ) × (lower_unit rt c ≡ d ∷ []) × (is_lower_hex d ≡ true)
unfolding lower_unit is_hex
lower_unit-hex rt c h = elim (Bool-cases (leb 65 c && leb c 90)) [
  | inl upper ↦ (c + 32, rw upper refl, ground arith)
  | inr other ↦ (c, ground arith, ground arith)
]

to_lower-hex :
    (rt : Runtime) (s : Text)
    → all is_hex s ≡ true
    → (length (to_lower rt s) ≡ length s) × (all is_lower_hex (to_lower rt s) ≡ true)
unfolding to_lower all
to_lower-hex rt [] h = (refl, refl)
to_lower-hex rt (c ∷ s) h =
    let (size, lower) = to_lower-hex rt s (ground arith) in
    let (d, unit, low) = lower_unit-hex rt c (ground arith) in rw unit (ap suc size, rw low lower)

to_lower-IsPubkey : (rt : Runtime) (s : Text) → is_hex64 s ≡ true → IsPubkey (to_lower rt s)
unfolding is_hex64
to_lower-IsPubkey rt s h =
    let (size, lower) = to_lower-hex rt s (ground arith) in
    record { size = ground arith; lower = lower }

hex_key-is_hex64 : (v : Option Json) {s : Text} → hex_key v ≡ some s → is_hex64 s ≡ true
unfolding hex_key
hex_key-is_hex64 v h = ground arith

-- A resolution, if any, is for a key.
abbrev IsKeyed : Option Resolution → Type 0
IsKeyed none = Unit
IsKeyed (some r) = IsPubkey r.pubkey

single-IsKeyed : (rt : Runtime) (nostr : Json) → IsKeyed (single rt nostr)
unfolding single
single-IsKeyed rt nostr = elim (Option-cases (hex_key (prop nostr (txt "pubkey")))) [
  | inl gone ↦ rw (gone, single) tt
  | inr (pk, found) ↦ rw (found, single) (to_lower-IsPubkey rt pk (hex_key-is_hex64 _ found))
]

single_if_root-IsKeyed :
    (rt : Runtime) (nostr : Json) (local_part : Text) → IsKeyed (single_if_root rt nostr local_part)
unfolding single_if_root
single_if_root-IsKeyed rt nostr local_part = elim (Bool-cases (is_root local_part)) [
  | inl root ↦ rw (root, single_if_root) (single-IsKeyed rt nostr)
  | inr other ↦ rw (other, single_if_root) tt
]

names-IsKeyed :
    (rt : Runtime) (nostr names : Json) (local_part : Text)
    → prop nostr (txt "names") ≡ some names
    → IsKeyed (read_domain_record rt nostr local_part)
unfolding read_domain_record
names-IsKeyed rt nostr names local_part at = elim (Bool-cases (is_object (some names))) [
  | inr text ↦ rw (at, text, read_domain_record) (single_if_root-IsKeyed rt nostr local_part)
  | inl object ↦ elim (Option-cases (hex_key (prop names local_part))) [
    | inl gone ↦
        rw (at, object, gone, read_domain_record) (single_if_root-IsKeyed rt nostr local_part)
    | inr (pk, found) ↦
        rw (at, object, found, read_domain_record)
          (to_lower-IsPubkey rt pk (hex_key-is_hex64 _ found))
  ]
]

read_domain_record-IsKeyed :
    (rt : Runtime) (nostr : Json) (local_part : Text)
    → IsKeyed (read_domain_record rt nostr local_part)
unfolding read_domain_record
read_domain_record-IsKeyed rt nostr local_part = elim (Option-cases (prop nostr (txt "names"))) [
  | inl gone ↦ rw (gone, read_domain_record) (single_if_root-IsKeyed rt nostr local_part)
  | inr (names, at) ↦ names-IsKeyed rt nostr names local_part at
]

object-IsKeyed :
    (rt : Runtime) (nostr : Json) (local_part name : Text)
    → as_text (some nostr) ≡ none
    → IsKeyed (read_nostr rt nostr local_part name)
unfolding read_nostr
object-IsKeyed rt nostr local_part name no_text = elim (Bool-cases (is_object (some nostr))) [
  | inr neither ↦ rw (no_text, neither, read_nostr) tt
  | inl object ↦ elim (Bool-cases (starts_with (txt "id/") name)) [
    | inl identity ↦ rw (no_text, object, identity, read_nostr) (single-IsKeyed rt nostr)
    | inr domain ↦
        rw (no_text, object, domain, read_nostr) (read_domain_record-IsKeyed rt nostr local_part)
  ]
]

read_nostr-IsKeyed :
    (rt : Runtime) (nostr : Json) (local_part name : Text)
    → IsKeyed (read_nostr rt nostr local_part name)
unfolding read_nostr
read_nostr-IsKeyed rt nostr local_part name = elim (Option-cases (as_text (some nostr))) [
  | inl no_text ↦ object-IsKeyed rt nostr local_part name no_text
  | inr (s, found) ↦ elim (Bool-cases (is_hex64 s)) [
    | inl key ↦ rw (found, key, read_nostr) (to_lower-IsPubkey rt s key)
    | inr other ↦ rw (found, other, read_nostr) tt
  ]
]

doc-IsKeyed :
    (rt : Runtime) (json : JsonRuntime) (value local_part name : Text) (doc : Json)
    → (length value == 0) ≡ false
    → json.parse value ≡ some doc
    → is_object (some doc) ≡ true
    → IsKeyed (extract_from_value rt json value local_part name)
unfolding extract_from_value
doc-IsKeyed rt json value local_part name doc filled read object =
    elim (Option-cases (prop doc (txt "nostr"))) [
      | inl gone ↦ rw (filled, read, object, gone, extract_from_value) tt
      | inr (nostr, at) ↦ elim (Bool-cases (is_nullish (some nostr))) [
        | inl blank ↦ rw (filled, read, object, at, blank, extract_from_value) tt
        | inr there ↦
            rw (filled, read, object, at, there, extract_from_value)
              (read_nostr-IsKeyed rt nostr local_part name)
      ]
    ]

extract_from_value-IsKeyed :
    (rt : Runtime) (json : JsonRuntime) (value local_part name : Text)
    → IsKeyed (extract_from_value rt json value local_part name)
unfolding extract_from_value
extract_from_value-IsKeyed rt json value local_part name = elim (Bool-cases (length value == 0)) [
  | inl blank ↦ rw (blank, extract_from_value) tt
  | inr filled ↦ elim (Option-cases (json.parse value)) [
    | inl bad ↦ rw (filled, bad, extract_from_value) tt
    | inr (doc, read) ↦ elim (Bool-cases (is_object (some doc))) [
      | inr other ↦ rw (filled, read, other, extract_from_value) tt
      | inl object ↦ doc-IsKeyed rt json value local_part name doc filled read object
    ]
  ]
]

-- Whatever a name's value holds, a pubkey that is extracted from it is 64 hexadecimal digits in
-- lower case.
pub extract_from_value-IsPubkey :
    (rt : Runtime) (json : JsonRuntime) (value local_part name : Text) {r : Resolution}
    → extract_from_value rt json value local_part name ≡ some r
    → IsPubkey r.pubkey
extract_from_value-IsPubkey rt json value local_part name h =
    subst IsKeyed h (extract_from_value-IsKeyed rt json value local_part name)

listed-eq :
    (rt : Runtime) (nostr names : Json) (local_part pk : Text)
    → prop nostr (txt "names") ≡ some names
    → is_object (some names) ≡ true
    → hex_key (prop names local_part) ≡ some pk
    → read_domain_record rt nostr local_part
      ≡ some (record { pubkey = to_lower rt pk; relays = relays_for nostr pk })
unfolding read_domain_record
listed-eq rt nostr names local_part pk at object found =
    rw (at, object, found, read_domain_record) refl

not_root-none :
    (rt : Runtime) (nostr : Json) (local_part : Text)
    → is_root local_part ≡ false
    → single_if_root rt nostr local_part ≡ none
unfolding single_if_root
not_root-none rt nostr local_part h = rw (h, single_if_root) refl

-- Where the `nostr` field of a record in the namespace `d/` is an object, an identifier with a
-- local part other than `_` resolves only to the key that the field's `names` lists for this
-- local part, never to the key of the record itself. (Where the field is a text,
-- extract_from_value gives its key for every local part.)
pub read_domain_record-listed :
    (rt : Runtime) (nostr : Json) (local_part : Text) {r : Resolution}
    → is_root local_part ≡ false
    → read_domain_record rt nostr local_part ≡ some r
    → (names : Json) × (pk : Text) × (prop nostr (txt "names") ≡ some names)
      × (hex_key (prop names local_part) ≡ some pk)
      × (r ≡ record { pubkey = to_lower rt pk; relays = relays_for nostr pk })
unfolding read_domain_record
read_domain_record-listed rt nostr local_part {r} other h =
    let nothing = not_root-none rt nostr local_part other in
    elim (Option-cases (prop nostr (txt "names"))) [
      | inl gone ↦ absurd (ground (arith, gone, nothing))
      | inr (names, at) ↦ elim (Bool-cases (is_object (some names))) [
        | inr text ↦ absurd (ground (arith, at, text, nothing))
        | inl object ↦ elim (Option-cases (hex_key (prop names local_part))) [
          | inl unlisted ↦ absurd (ground (arith, at, object, unlisted, nothing))
          | inr (pk, found) ↦ (
            names,
            pk,
            at,
            found,
            sym (
                some-injective _ _
                  (sym (listed-eq rt nostr names local_part pk at object found) ∙ h)),
          )
        ]
      ]
    ]
