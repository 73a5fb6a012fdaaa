-- ===== src/Rules/Loader.antt =====
-- src/nip9a-loader.js: the rules documents that the relay has seen, and the one in force.
pub mod Offers
use strfry_namecoin_policy.Prelude.{
  ℕ, Bool, true, false, not, ◌&&◌, ◌||◌, Option, none, some, List, [], ◌∷◌, ◌++◌, length, get_elem?,
  take, drop, ltb, ◌==◌, if◌then◌else◌,
}
use strfry_namecoin_policy.Prelude.Int.{ℤ, leb_ℤ, eqb_ℤ}
use strfry_namecoin_policy.Js.{Text, txt, same, starts_with, all, is_hex64, Runtime, to_lower}
use strfry_namecoin_policy.Js.Json.{
  Json, null, bool, num, str, JsonRuntime, prop, truthy, as_text, as_array, is_text, is_num,
  to_text,
}
use strfry_namecoin_policy.Store.{lookup, insert, values}
use strfry_namecoin_policy.Rules.{Rules, nip9a_kind, parse_rules_event, pick_active_rules}

-- `"34550:<owner>:<d>"`, with the owner in lower case.
pub record Community : Type 0 where
  pub address : Text
  pub owner_hex : Text
  pub d_tag : Text

-- A character that the `.` of a regular expression does not match.
abbrev is_line_end : ℕ → Bool
is_line_end c = (c == 10) || (c == 13) || (c == 0x2028) || (c == 0x2029)

-- The match of `/^34550:([0-9a-f]{64}):(.+)$/i`.
unfoldable pub parse_community : Runtime → Text → Option Community
parse_community rt address =
    let rest = drop 6 address in
    let d_tag = drop 65 rest in
    if starts_with (txt "34550:") address
      && is_hex64 (take 64 rest)
      && starts_with (txt ":") (drop 64 rest)
      && ltb 0 (length d_tag)
      && all (λ c. not (is_line_end c)) d_tag
    then some (record { address = address; owner_hex = to_lower rt (take 64 rest); d_tag = d_tag })
    else none

pub record Loader : Type 0 where
  pub community : Option Community
  pub rules_by_key : List (Text × Rules)
  pub active : Option Rules
  pub last_file_error : Option Text

-- The constructor throws on a community that does not match; an empty one is none.
unfoldable pub new_loader : Runtime → Text → Option Loader
new_loader rt [] =
    some (record { community = none; rules_by_key = []; active = none; last_file_error = none })
new_loader rt (c ∷ cs) = elim (parse_community rt (c ∷ cs)) [
  | none ↦ none
  | some community ↦ some (record {
    community = some community;
    rules_by_key = [];
    active = none;
    last_file_error = none;
  })
]

-- What the call of `offer` ends in.
pub data Offer : Type 0 where
  accepted rejected threw : Offer

-- A template puts "undefined" for a pubkey that is not there.
abbrev pub pubkey_text : Option Json → Text
pubkey_text none = txt "undefined"
pubkey_text (some v) = to_text v

abbrev pub key_of : Rules → Text
key_of r = pubkey_text r.pubkey ++ 0 ∷ to_text r.d_tag

-- `a === b` on ids; two arrays or objects of different events are never equal.
unfoldable pub same_id : Option Json → Option Json → Bool
same_id none none = true
same_id (some null) (some null) = true
same_id (some (bool true)) (some (bool true)) = true
same_id (some (bool false)) (some (bool false)) = true
same_id (some (num a)) b = is_num b a
same_id (some (str s)) b = is_text b s
same_id _ _ = false

-- `prior.createdAt >= parsed.createdAt`
abbrev pub is_as_new : Rules → Rules → Bool
is_as_new prior parsed = elim prior.created_at [
  | none ↦ false
  | some a ↦ elim parsed.created_at [ none ↦ false | some b ↦ leb_ℤ b a ]
]

abbrev pub is_superseded : Option Rules → Rules → Bool
is_superseded none parsed = false
is_superseded (some prior) parsed = is_as_new prior parsed && not (same_id prior.id parsed.id)

-- `pubkey.slice` exists: on text and on arrays.
abbrev pub has_slice : Option Json → Bool
has_slice v = elim (as_text v) [
  | some s ↦ true
  | none ↦ elim (as_array v) [ some vs ↦ true | none ↦ false ]
]

-- The owner and community filter: `none` where it throws, and whether the event passes.
unfoldable pub passes_filter : Runtime → Option Community → Rules → Option Bool
passes_filter rt none parsed = some true
passes_filter rt (some community) parsed = elim (as_text parsed.pubkey) [
  | none ↦ none
  | some pubkey ↦ some (
      same (to_lower rt pubkey) community.owner_hex
      && is_text (some parsed.d_tag) community.d_tag
      && (not (truthy parsed.community_address)
          || is_text parsed.community_address community.address))
]

-- The rest of `offer`, on a document that passes the filter; the last log line throws after the
-- document is absorbed.
unfoldable pub absorb : Loader → Rules → Loader × Offer
absorb loader parsed =
    if is_superseded (lookup (key_of parsed) loader.rules_by_key) parsed
    then (loader, rejected)
    else let rules_by_key = insert (key_of parsed) parsed loader.rules_by_key in
      (
        record loader {
          rules_by_key = rules_by_key;
          active = pick_active_rules (values rules_by_key);
        },
        if has_slice parsed.pubkey then accepted else threw,
      )

abbrev pub kind_matches : Option Json → Bool
kind_matches none = false
kind_matches (some event) = truthy (some event) && is_num (prop event (txt "kind")) nip9a_kind

unfoldable pub offer : Runtime → Loader → Option Json → Loader × Offer
offer rt loader event =
    if kind_matches event
    then elim (parse_rules_event rt event) [
      | none ↦ (loader, rejected)
      | some parsed ↦ elim (passes_filter rt loader.community parsed) [
        | none ↦ (loader, threw)
        | some false ↦ (loader, rejected)
        | some true ↦ absorb loader parsed
      ]
    ]
    else (loader, rejected)

-- What `readFileSync` gives.
pub data FileRead : Type 0 where
  unreadable : (message : Text) → FileRead
  contents : (raw : Text) → FileRead

-- The text of the parser's error is `parse_error`.
unfoldable pub load_from_file : Runtime → JsonRuntime → Text → FileRead → Loader → Loader × Offer
load_from_file rt json parse_error (unreadable message) loader =
    (record loader { last_file_error = some message }, rejected)
load_from_file rt json parse_error (contents raw) loader = elim (json.parse raw) [
  | none ↦ (record loader { last_file_error = some (txt "JSON parse: " ++ parse_error) }, rejected)
  | some event ↦ offer rt (record loader { last_file_error = none }) (some event)
]

unfoldable pub has_active : Loader → Bool
has_active loader = elim loader.active [ none ↦ false | some r ↦ true ]

unfoldable pub candidates : Loader → List Rules
candidates loader = values loader.rules_by_key
