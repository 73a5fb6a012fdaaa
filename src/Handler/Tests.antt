-- ===== src/Handler/Tests.antt =====
-- src/index.js: a relay with one author.
use strfry_namecoin_policy.Prelude.{
  ℕ, ◌<◌, ◌≡◌, ◌≢◌, refl, true, false, none, some, [], ◌∷◌, ◌↔◌, arith, if◌then◌else◌,
}
use strfry_namecoin_policy.Prelude.Int.{pos}
use strfry_namecoin_policy.Js.{
  Text, txt, Runtime, same, starts_with, ends_with, includes, all, is_hex, is_hex64, is_space,
  lower_unit, to_lower, trim, trim_start, byte_length,
}
use strfry_namecoin_policy.Js.Json.{
  Json, arr, nil, cons, is_text, to_number, str, num, obj, end, field, prop, field_of, truthy,
  as_text, as_array, is_object, is_nullish, is_num, JsonRuntime,
}
use strfry_namecoin_policy.Store
use strfry_namecoin_policy.Cache
use strfry_namecoin_policy.Cache.{effective_ttl}
use strfry_namecoin_policy.Cache.Recency.{IsValid}
use strfry_namecoin_policy.Resolver.{
  Resolution, Resolver, row, judge, resolve, ask, parse_identifier, is_namecoin_identifier,
  extract_from_value, stem_of, is_name_form, finalize, split_last, read_domain, read_at,
  read_domain_record, read_nostr, hex_key, single, single_if_root, relays_for, relays_of, texts_of,
  classify_parse_failure,
}
use strfry_namecoin_policy.Rules.Loader.{Loader, offer, absorb, passes_filter, same_id, threw}
use strfry_namecoin_policy.Rules.{
  parse_rules_event, read_tags, read_tag, read_d, finish, pick_active_rules, best_from, floor_from,
  better, raise,
}
use strfry_namecoin_policy.Handler.{
  failed, Config, Relay, World, accept, extract_nip05, nip05_of, conclude, handle_metadata,
  handle_other, handle_rules,
}
use strfry_namecoin_policy.Handler.Gates.{
  IsAdmitted, handle_other-IsAdmitted, handle_metadata-verifies, handle_rules-offered,
}

text : Unit {0}
unfolding same starts_with ends_with includes all is_hex is_hex64 is_space lower_unit to_lower trim
    trim_start byte_length
text = tt

values : Unit {0}
unfolding prop field_of truthy as_text as_array is_object is_nullish is_num is_text
values = tt

lookup : Unit {0}
unfolding parse_identifier is_namecoin_identifier stem_of is_name_form finalize split_last
    read_domain read_at extract_from_value read_domain_record read_nostr hex_key single
    single_if_root relays_for relays_of texts_of Cache.get Store.lookup judge classify_parse_failure
    ask resolve
lookup = tt

rules : Unit {0}
unfolding parse_rules_event read_tags read_tag read_d finish to_number pick_active_rules best_from
    floor_from better raise offer absorb passes_filter same_id Store.insert Store.lookup
rules = tt

handler : Unit {0}
unfolding extract_nip05 nip05_of conclude handle_metadata
handler = tt

abbrev plain : Runtime
plain = record {
  lower_wide = λ c. c ∷ [];
  other_number = λ s. none;
  decode_utf8 = λ bs. bs;
  sha256 = λ bs. bs;
}

abbrev author : Text
author = txt "abababababababababababababababababababababababababababababababab"

-- The value "v" of the name, and any other text as the content of a profile.
abbrev json : JsonRuntime
json = record {
  parse = λ raw.
      if same raw (txt "v")
      then some (obj (field (txt "nostr") (str author) end))
      else some (obj (field (txt "nip05") (str (txt "example.bit")) end));
  stringify = λ v. [];
}

abbrev config : Config
config = record {
  all_kinds_require_bit = true;
  allow_non_bit = true;
  soft_fail = false;
  nip9a_require_rules = false;
  nip9a_reject_imeta_kind1 = true;
}

abbrev resolver : Resolver
resolver = record {
  cache = record { max = 2; ttl_ms = 300; store = [] };
  cache_ttl_ms = 300;
  neg_cache_ttl_ms = 30;
  last_was_rate_limited = false;
}

abbrev loader : Loader
loader = record { community = none; rules_by_key = []; active = none; last_file_error = none }

abbrev relay : Relay
relay = record {
  verified_authors = record { max = 2; ttl_ms = 300; store = [] };
  resolver = some resolver;
  nip9a = some loader;
}

abbrev world : World
world = record { limiter = none; reply = row (some (str (txt "v"))); now = 5; later = 7 }

abbrev profile : Json
profile = obj (field (txt "content") (str (txt "p")) end)

relay-IsValid : IsValid relay.verified_authors
relay-IsValid = record { room = omega arith; bounded = omega arith; distinct = tt }

named : extract_nip05 json (prop profile (txt "content")) ≡ some (txt "example.bit")
unfolding text values handler
named = refl

coin : is_namecoin_identifier plain (to_lower plain (txt "example.bit")) ≡ true
unfolding text values lookup
coin = refl

verified : (handle_metadata plain json config world author profile relay).1 ≡ accept
unfolding text values lookup handler
verified = refl

handle_metadata-verifies_example :
    ((r : Resolution) × ((resolve plain json none
          (row (some (str (txt "v"))))
          5
          7
          (to_lower plain (txt "example.bit"))
          resolver).1
        ≡ some r)
      × (r.pubkey ≡ author))
    × ((t : ℕ)
        → (0 < 300 → t < 307)
        → (Cache.has t author
            (handle_metadata plain json config world author profile relay).0.verified_authors).1
          ≡ true)
handle_metadata-verifies_example =
    handle_metadata-verifies plain json config world author profile relay relay-IsValid named coin
      refl verified

handle_other-IsAdmitted_example :
    ((handle_other json config world author (some (pos 1)) profile relay).1 ≡ accept)
    ↔ IsAdmitted json config world author (some (pos 1)) profile relay
handle_other-IsAdmitted_example =
    handle_other-IsAdmitted json config world author (some (pos 1)) profile relay

abbrev rules_event : Json
rules_event = obj (
    field (txt "kind") (num (pos 34551)) (
      field (txt "pubkey") (str author) (
        field (txt "tags")
          (arr (cons (arr (cons (str (txt "d")) (cons (str (txt "club")) nil))) nil)) end)))

handle_rules-offered_example :
    ((handle_rules plain config world author rules_event loader relay).0.nip9a
      ≡ some (offer plain loader (some rules_event)).0)
    × ((offer plain loader (some rules_event)).1 ≡ threw
        → (handle_rules plain config world author rules_event loader relay).1 ≡ failed)
    × ((offer plain loader (some rules_event)).1 ≢ threw
        → ((handle_rules plain config world author rules_event loader relay).1 ≡ accept)
          ↔ (true ≡ true → (Cache.has 5 author relay.verified_authors).1 ≡ true))
handle_rules-offered_example =
    handle_rules-offered plain config world author rules_event loader relay
