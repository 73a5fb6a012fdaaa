-- ===== src/Resolver.antt =====
-- src/resolver.js: from an identifier to the pubkey that a Namecoin name gives it.
pub mod Names
pub mod Value
pub mod Listed
pub mod Unread
pub mod Caching
mod Tests
use strfry_namecoin_policy.Prelude.{
  ℕ, ◌-◌, Bool, true, false, not, ◌&&◌, ◌||◌, Option, none, some, List, [], ◌∷◌, ◌++◌, length, take,
  drop, ltb, leb, ◌==◌, if◌then◌else◌,
}
use strfry_namecoin_policy.Js.{
  Text, txt, same, is_space, trim, starts_with, ends_with, includes, all, is_hex64, Runtime,
  to_lower, byte_length,
}
use strfry_namecoin_policy.Js.Json.{
  Json, JsonRuntime, prop, truthy, is_object, as_text, as_array, is_nullish,
}
use strfry_namecoin_policy.Cache
use strfry_namecoin_policy.Cache.{LruCache}

abbrev pub max_stem_len : ℕ
max_stem_len = 64

abbrev pub max_namecoin_name_bytes : ℕ
max_namecoin_name_bytes = 67

pub record Identifier : Type 0 where
  pub namecoin_name : Text
  pub local_part : Text

-- A name behind `d/` or `id/`: `name.replace(/^(d|id)\//, '')`.
unfoldable pub stem_of : Text → Text
stem_of name =
    if starts_with (txt "d/") name
    then drop 2 name
    else if starts_with (txt "id/") name
    then drop 3 name
    else name

abbrev pub is_namespaced : Text → Bool
is_namespaced name = starts_with (txt "d/") name || starts_with (txt "id/") name

-- `/^(d|id)\/[^…]+$/`, with the characters that the class allows.
unfoldable pub is_name_form : (ℕ → Bool) → Text → Bool
is_name_form allows name =
    is_namespaced name && ltb 0 (length (stem_of name)) && all allows (stem_of name)

abbrev pub slash : ℕ
slash = 47

abbrev pub at_sign : ℕ
at_sign = 64

abbrev pub dot : ℕ
dot = 46

-- `[^/\s@]` and `[^/\s]`
abbrev pub is_bare : ℕ → Bool
is_bare c = not (c == slash) && not (is_space c) && not (c == at_sign)

abbrev pub is_bare_or_at : ℕ → Bool
is_bare_or_at c = not (c == slash) && not (is_space c)

-- The length bounds.
unfoldable pub finalize : Identifier → Option Identifier
finalize parsed =
    if (length (stem_of parsed.namecoin_name) == 0)
      || ltb max_stem_len (length (stem_of parsed.namecoin_name))
    then none
    else if ltb max_namecoin_name_bytes (byte_length parsed.namecoin_name)
    then none
    else some parsed

-- The texts before and behind the last `c`.
unfoldable pub split_last : ℕ → Text → Option (Text × Text)
split_last c [] = none
split_last c (d ∷ s) = elim (split_last c s) [
  | some (before, behind) ↦ some (d ∷ before, behind)
  | none ↦ if d == c then some ([], s) else none
]

-- `stem.bit`, with the local part: the name `d/stem`.
unfoldable pub read_domain : Text → Text → Option Identifier
read_domain domain local_part =
    let stem = take (length domain - 4) domain in
    if (length stem == 0) || includes slash stem || includes dot stem
    then none
    else finalize (record { namecoin_name = txt "d/" ++ stem; local_part = local_part })

-- `local || '_'`
abbrev pub or_root : Text → Text
or_root [] = txt "_"
or_root (c ∷ s) = c ∷ s

-- The branch of an identifier with an `@`.
unfoldable pub read_at : Text → Text → Option Identifier
read_at local_part domain =
    if length domain == 0
    then none
    else if ends_with (txt ".bit") domain
    then read_domain domain (or_root local_part)
    else if is_name_form is_bare_or_at domain
    then finalize (record { namecoin_name = domain; local_part = or_root local_part })
    else none

unfoldable pub parse_identifier : Runtime → Text → Option Identifier
parse_identifier rt identifier =
    let id = to_lower rt (trim identifier) in
    if length id == 0
    then none
    else if is_name_form is_bare id
    then finalize (record { namecoin_name = id; local_part = txt "_" })
    else elim (split_last at_sign id) [
      | some (local_part, domain) ↦ read_at local_part domain
      | none ↦ if ends_with (txt ".bit") id then read_domain id (txt "_") else none
    ]

unfoldable pub is_namecoin_identifier : Runtime → Text → Bool
is_namecoin_identifier rt identifier = elim (parse_identifier rt identifier) [
  | none ↦ false
  | some parsed ↦ true
]

pub record Resolution : Type 0 where
  pub pubkey : Text
  pub relays : List Text

-- `Array.isArray(v) ? v.filter((r) => typeof r === 'string') : []`
unfoldable pub texts_of : List Json → List Text
texts_of [] = []
texts_of (v ∷ vs) = elim (as_text (some v)) [ some s ↦ s ∷ texts_of vs | none ↦ texts_of vs ]

unfoldable pub relays_of : Option Json → List Text
relays_of v = elim (as_array v) [ some vs ↦ texts_of vs | none ↦ [] ]

-- `typeof v === 'string' && HEX64_RE.test(v)`, with the text.
unfoldable pub hex_key : Option Json → Option Text
hex_key v = elim (as_text v) [ none ↦ none | some s ↦ if is_hex64 s then some s else none ]

-- `{"pubkey": "<hex>", "relays": [...]}`
unfoldable pub single : Runtime → Json → Option Resolution
single rt nostr = elim (hex_key (prop nostr (txt "pubkey"))) [
  | none ↦ none
  | some pk ↦
      some (record { pubkey = to_lower rt pk; relays = relays_of (prop nostr (txt "relays")) })
]

-- The relays that an extended record lists for a key.
unfoldable pub relays_for : Json → Text → List Text
relays_for nostr pk = elim (prop nostr (txt "relays")) [
  | none ↦ []
  | some relays ↦ elim (as_array (some relays)) [
    | some vs ↦ []
    | none ↦ if is_object (some relays) then relays_of (prop relays pk) else []
  ]
]

abbrev pub is_root : Text → Bool
is_root local_part = same local_part (txt "_")

unfoldable pub single_if_root : Runtime → Json → Text → Option Resolution
single_if_root rt nostr local_part = if is_root local_part then single rt nostr else none

-- The object form in the namespace `d/`.
unfoldable pub read_domain_record : Runtime → Json → Text → Option Resolution
read_domain_record rt nostr local_part = elim (prop nostr (txt "names")) [
  | none ↦ single_if_root rt nostr local_part
  | some names ↦
      if is_object (some names)
      then elim (hex_key (prop names local_part)) [
        | some pk ↦ some (record { pubkey = to_lower rt pk; relays = relays_for nostr pk })
        | none ↦ single_if_root rt nostr local_part
      ]
      else single_if_root rt nostr local_part
]

unfoldable pub read_nostr : Runtime → Json → Text → Text → Option Resolution
read_nostr rt nostr local_part namecoin_name = elim (as_text (some nostr)) [
  | some s ↦ if is_hex64 s then some (record { pubkey = to_lower rt s; relays = [] }) else none
  | none ↦
      if not (is_object (some nostr))
      then none
      else if starts_with (txt "id/") namecoin_name
      then single rt nostr
      else read_domain_record rt nostr local_part
]

unfoldable pub extract_from_value : Runtime → JsonRuntime → Text → Text → Text → Option Resolution
extract_from_value rt json value local_part namecoin_name =
    if length value == 0 then none else elim (json.parse value) [
      | none ↦ none
      | some doc ↦ if not (is_object (some doc)) then none else elim (prop doc (txt "nostr")) [
        | none ↦ none
        | some nostr ↦
            if is_nullish (some nostr) then none else read_nostr rt nostr local_part namecoin_name
      ]
    ]

-- `Array.isArray(v)`
abbrev pub is_array : Json → Bool
is_array v = elim (as_array (some v)) [ none ↦ false | some vs ↦ true ]

unfoldable pub classify_parse_failure : JsonRuntime → Text → Bool
classify_parse_failure json value = if length value == 0 then true else elim (json.parse value) [
  | none ↦ true
  | some doc ↦
      if not (is_object (some doc)) || is_array doc
      then true
      else is_nullish (prop doc (txt "nostr"))
]

-- What `nameShow` ends in; a row's value may be of any type.
pub data NameReply : Type 0 where
  failed : NameReply
  no_row : NameReply
  row : (value : Option Json) → NameReply

pub record Resolver : Type 0 where
  pub cache : LruCache (Option Resolution)
  pub cache_ttl_ms : ℕ
  pub neg_cache_ttl_ms : ℕ
  pub last_was_rate_limited : Bool

abbrev pub key_of : Identifier → Text
key_of parsed = parsed.namecoin_name ++ txt "|" ++ parsed.local_part

-- The result, and whether it is a negative of the kind 'parse-failure'; `none` where nameShow
-- throws.
unfoldable pub judge :
    Runtime → JsonRuntime → Identifier → NameReply → Option (Option Resolution × Bool)
judge rt json parsed failed = none
judge rt json parsed no_row = some (none, true)
judge rt json parsed (row v) = elim (as_text v) [
  | none ↦ some (none, true)
  | some value ↦ elim (extract_from_value rt json value parsed.local_part parsed.namecoin_name) [
    | none ↦ some (none, classify_parse_failure json value)
    | some found ↦ some (some found, false)
  ]
]

-- The time to live that `cache.set` is given.
abbrev pub ttl_for : Resolver → Bool → Option ℕ
ttl_for r is_failure =
    if is_failure && not (r.neg_cache_ttl_ms == r.cache_ttl_ms)
    then some r.neg_cache_ttl_ms
    else none

abbrev pub is_throttled : Option Bool → Bool
is_throttled none = false
is_throttled (some granted) = not granted

-- The part of `resolve` behind a cache miss; `limiter` is what `acquire` resolves to, where there
-- is a limiter, and `later` the time of the write.
unfoldable pub ask :
    Runtime
    → JsonRuntime
    → Identifier
    → Option Bool
    → NameReply
    → ℕ
    → Resolver
    → Resolver × Option Resolution
ask rt json parsed limiter reply later r =
    if is_throttled limiter
    then (record r { last_was_rate_limited = true }, none)
    else elim (judge rt json parsed reply) [
      | none ↦ (r, none)
      | some (result, is_failure) ↦ (
        record r { cache = Cache.set later (key_of parsed) result (ttl_for r is_failure) r.cache },
        result,
      )
    ]

unfoldable pub resolve :
    Runtime
    → JsonRuntime
    → Option Bool
    → NameReply
    → (now later : ℕ) → Text
    → Resolver
    → Resolver × Option Resolution
resolve rt json limiter reply now later identifier r = elim (parse_identifier rt identifier) [
  | none ↦ (record r { last_was_rate_limited = false }, none)
  | some parsed ↦
      let (cache, cached) = Cache.get now (key_of parsed) r.cache in
      let after = record r { cache = cache; last_was_rate_limited = false } in
      elim cached [
        | some result ↦ (after, result)
        | none ↦ ask rt json parsed limiter reply later after
      ]
]
