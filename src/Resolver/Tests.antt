-- ===== src/Resolver/Tests.antt =====
-- src/resolver.js: an identifier, a record and a cache of one entry.
use strfry_namecoin_policy.Prelude.{
  ℕ, ◌+◌, ◌<◌, ◌≤◌, ◌≢◌, Option, ◌≡◌, refl, true, false, none, some, [], ◌∷◌, arith,
}
use strfry_namecoin_policy.Js.{
  Text, txt, Runtime, same, starts_with, ends_with, includes, all, is_hex, is_hex64, is_space,
  lower_unit, to_lower, trim, trim_start, byte_length,
}
use strfry_namecoin_policy.Js.Json.{
  Json, str, obj, end, field, prop, field_of, truthy, as_text, as_array, is_object, is_nullish,
  JsonRuntime,
}
use strfry_namecoin_policy.Store
use strfry_namecoin_policy.Cache
use strfry_namecoin_policy.Cache.{LruCache}
use strfry_namecoin_policy.Cache.Recency.{IsValid}
use strfry_namecoin_policy.Resolver.{
  Identifier, Resolution, Resolver, failed, row, key_of, judge, is_throttled, parse_identifier,
  extract_from_value, stem_of, is_name_form, finalize, split_last, read_domain, read_at,
  read_domain_record, read_nostr, hex_key, single, single_if_root, relays_for, relays_of, texts_of,
  classify_parse_failure,
}
use strfry_namecoin_policy.Resolver.Names.{IsAskable, parse_identifier-IsAskable}
use strfry_namecoin_policy.Resolver.Value.{IsPubkey, extract_from_value-IsPubkey}
use strfry_namecoin_policy.Resolver.Listed.{IsListed, extract_from_value-IsListed}
use strfry_namecoin_policy.Resolver.Caching.{
  Call, call, run, Keeps, answered, Repeats, resolve-repeat,
}

text : Unit {0}
unfolding same starts_with ends_with includes all is_hex is_hex64 is_space lower_unit to_lower trim
    trim_start byte_length
text = tt

values : Unit {0}
unfolding prop field_of truthy as_text as_array is_object is_nullish
values = tt

parser : Unit {0}
unfolding parse_identifier stem_of is_name_form finalize split_last read_domain read_at
parser = tt

reader : Unit {0}
unfolding extract_from_value read_domain_record read_nostr hex_key single single_if_root relays_for
    relays_of texts_of
reader = tt

cached : Unit {0}
unfolding Cache.get Store.lookup judge classify_parse_failure
cached = tt

abbrev plain : Runtime
plain = record {
  lower_wide = λ c. c ∷ [];
  other_number = λ s. none;
  decode_utf8 = λ bs. bs;
  sha256 = λ bs. bs;
}

abbrev key : Text
key = txt "abababababababababababababababababababababababababababababababab"

abbrev nostr : Json
nostr = obj (
    field (txt "names")
      (obj (
        field (txt "alice")
          (str (txt "ABABABABABABABABABABABABABABABABABABABABABABABABABABABABABABABAB")) end))
      end)

-- A parser of one document.
abbrev json : JsonRuntime
json = record { parse = λ raw. some (obj (field (txt "nostr") nostr end)); stringify = λ v. [] }

abbrev alice : Identifier
alice = record { namecoin_name = txt "d/example"; local_part = txt "alice" }

parsed : parse_identifier plain (txt " Alice@Example.bit") ≡ some alice
unfolding text parser
parsed = refl

parse_identifier-IsAskable_example : IsAskable (txt "d/example")
parse_identifier-IsAskable_example =
    parse_identifier-IsAskable plain (txt " Alice@Example.bit") parsed

-- Two identifiers with one key in the cache.
collision :
    (parse_identifier plain (txt "c@a|b.bit")
      ≡ some (record { namecoin_name = txt "d/a|b"; local_part = txt "c" }))
    × (parse_identifier plain (txt "b|c@a.bit")
        ≡ some (record { namecoin_name = txt "d/a"; local_part = txt "b|c" }))
    × (key_of (record { namecoin_name = txt "d/a|b"; local_part = txt "c" })
        ≡ key_of (record { namecoin_name = txt "d/a"; local_part = txt "b|c" }))
unfolding text parser
collision = (refl, refl, refl)

abbrev answer : Resolution
answer = record { pubkey = key; relays = [] }

extracted : extract_from_value plain json (txt "{}") (txt "alice") (txt "d/example") ≡ some answer
unfolding text values reader
extracted = refl

extract_from_value-IsPubkey_example : IsPubkey key
extract_from_value-IsPubkey_example =
    extract_from_value-IsPubkey plain json (txt "{}") (txt "alice") (txt "d/example") extracted

domain : starts_with (txt "id/") (txt "d/example") ≡ false
unfolding text
domain = refl

not_root : txt "alice" ≢ txt "_"
not_root e = absurd (ground (arith, e))

extract_from_value-IsListed_example :
    (doc : Json) × (nostr : Json) × (json.parse (txt "{}") ≡ some doc)
    × (prop doc (txt "nostr") ≡ some nostr)
    × IsListed plain json (txt "{}") (txt "alice") (txt "d/example") answer nostr
extract_from_value-IsListed_example =
    extract_from_value-IsListed plain json (txt "{}") (txt "alice") (txt "d/example") answer domain
      not_root extracted

abbrev idle : Resolver
idle = record {
  cache = record { max = 2; ttl_ms = 300; store = [] };
  cache_ttl_ms = 300;
  neg_cache_ttl_ms = 30;
  last_was_rate_limited = false;
}

idle-IsValid : IsValid idle.cache
idle-IsValid = record { room = omega arith; bounded = omega arith; distinct = tt }

unseen : (Cache.get 5 (key_of alice) idle.cache).1 ≡ none
unfolding cached
unseen = refl

-- Asked at 5 and answered at 7; the next call comes at 200, the one after it when the entry is
-- over.
abbrev first : Call
first = record { limiter = some true; reply = row (some (str (txt "{}"))); now = 5; later = 7 }

abbrev second : Call
second = record { limiter = some false; reply = failed; now = 200; later = 200 }

first_Keeps :
    Keeps plain json (txt " Alice@Example.bit") parsed 300 30 first.reply (some answer) 300
first_Keeps = answered (txt "{}") answer refl extracted refl refl

resolve-repeat_example :
    ((call plain json (txt " Alice@Example.bit") parsed first idle).1 ≡ some answer)
    × Repeats plain json
        (txt " Alice@Example.bit")
        parsed
        (some answer)
        (second ∷ [])
        (call plain json (txt " Alice@Example.bit") parsed first idle).0
    × ((d : Call) (other : Option Resolution) (next : ℕ)
        → 0 < 300
        → 0 < 300
        → 7 + 300 ≤ d.now
        → is_throttled d.limiter ≡ false
        → Keeps plain json (txt " Alice@Example.bit") parsed 300 30 d.reply other next
        → (call plain json (txt " Alice@Example.bit") parsed d (
            run plain json
              (txt " Alice@Example.bit")
              parsed
              (second ∷ [])
              (call plain json (txt " Alice@Example.bit") parsed first idle).0)).1
          ≡ other)
resolve-repeat_example =
    resolve-repeat plain json (txt " Alice@Example.bit") parsed first idle idle-IsValid refl unseen
      refl first_Keeps (second ∷ []) (λ on. omega arith, tt)
