-- ===== src/Resolver/Listed.antt =====
-- src/resolver.js: whose key `extractFromValue` gives for a name that is not an `id/` name.
use mathlib.Core.Option.{some-injective}
use strfry_namecoin_policy.Prelude.{
  ◌≡◌, ◌≢◌, ◌⊎◌, inl, inr, false, Option, some, [], length, ◌==◌, Option-cases, Bool-cases, arith,
}
use strfry_namecoin_policy.Js.{Text, txt, same_iff, starts_with, Runtime, to_lower}
use strfry_namecoin_policy.Js.Json.{Json, str, JsonRuntime, prop, is_object, as_text, is_nullish}
use strfry_namecoin_policy.Resolver.{
  Resolution, hex_key, relays_for, is_root, read_domain_record, read_nostr, extract_from_value,
}
use strfry_namecoin_policy.Resolver.Value.{read_domain_record-listed}

as_text-str : (v : Option Json) {s : Text} → as_text v ≡ some s → v ≡ some (str s)
unfolding as_text
as_text-str v h = ground arith

hex_key-str : (v : Option Json) {s : Text} → hex_key v ≡ some s → v ≡ some (str s)
unfolding hex_key
hex_key-str v {s} h = as_text-str v {s = s} (ground (arith, h))

module _ (rt : Runtime) (json : JsonRuntime) (value local_part name : Text) (r : Resolution) where
  -- The name's value is a document whose `nostr` field is read.
  abbrev IsRead : Type 0
  IsRead =
      (doc : Json) × (nostr : Json) × (json.parse value ≡ some doc)
      × (prop doc (txt "nostr") ≡ some nostr)
      × (read_nostr rt nostr local_part name ≡ some r)

  extract_from_value-IsRead : extract_from_value rt json value local_part name ≡ some r → IsRead
  unfolding extract_from_value
  extract_from_value-IsRead h = elim (Bool-cases (length value == 0)) [
    | inl blank ↦ absurd (ground (arith, blank, h))
    | inr filled ↦ elim (Option-cases (json.parse value)) [
      | inl bad ↦ absurd (ground (arith, filled, bad, h))
      | inr (doc, read) ↦ elim (Bool-cases (is_object (some doc))) [
        | inr other ↦ absurd (ground (arith, filled, read, other, h))
        | inl object ↦ elim (Option-cases (prop doc (txt "nostr"))) [
          | inl gone ↦ absurd (ground (arith, filled, read, object, gone, h))
          | inr (nostr, at) ↦ elim (Bool-cases (is_nullish (some nostr))) [
            | inl blank ↦ absurd (ground (arith, filled, read, object, at, blank, h))
            | inr there ↦ (doc, nostr, read, at, ground (arith, filled, read, object, at, there, h))
          ]
        ]
      ]
    ]
  ]

  -- The field is a key itself; or its `names` lists a key for the local part.
  abbrev pub IsListed : Json → Type 0
  IsListed nostr =
      ((pk : Text) × (nostr ≡ str pk) × (r ≡ record { pubkey = to_lower rt pk; relays = [] }))
      ⊎ ((names : Json) × (pk : Text) × (prop nostr (txt "names") ≡ some names)
          × (prop names local_part ≡ some (str pk))
          × (r ≡ record { pubkey = to_lower rt pk; relays = relays_for nostr pk }))

  read_nostr-IsListed :
      (nostr : Json)
      → starts_with (txt "id/") name ≡ false
      → local_part ≢ txt "_"
      → read_nostr rt nostr local_part name ≡ some r
      → IsListed nostr
  unfolding read_nostr
  read_nostr-IsListed nostr domain other h = elim (Option-cases (as_text (some nostr))) [
    | inl object ↦
        let branch : read_domain_record rt nostr local_part ≡ some r =
          ground (arith, object, domain, h) in
        let not_root : is_root local_part ≡ false =
          ground (arith, other, (same_iff local_part (txt "_")).0) in
        let (names, pk, at, found, e) =
          read_domain_record-listed rt nostr local_part not_root branch in
        inr (names, pk, at, hex_key-str (prop names local_part) found, e)
    | inr (pk, found) ↦
        inl (pk, some-injective _ _ (as_text-str (some nostr) found), ground (arith, found, h))
  ]

  -- For a name that does not start with `id/` and a local part other than `_`, a value gives a
  -- key only if its `nostr` field is a text, which is then the key, or has `names` that list the
  -- key for this local part: the `pubkey` of an object is never given.
  pub extract_from_value-IsListed :
      starts_with (txt "id/") name ≡ false
      → local_part ≢ txt "_"
      → extract_from_value rt json value local_part name ≡ some r
      → (doc : Json) × (nostr : Json) × (json.parse value ≡ some doc)
        × (prop doc (txt "nostr") ≡ some nostr)
        × IsListed nostr
  extract_from_value-IsListed domain other h =
      let (doc, nostr, read, at, got) = extract_from_value-IsRead h in
      (doc, nostr, read, at, read_nostr-IsListed nostr domain other got)
