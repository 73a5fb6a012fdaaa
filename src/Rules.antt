-- ===== src/Rules.antt =====
-- src/nip9a-parser.js: the parser of rules events and the choice of the active rules document.
-- A document's `created_at` is read as a number; `none` is one that is no finite number.
pub mod Active
pub mod Validator
pub mod Loader
mod Tests
use strfry_namecoin_policy.Prelude.{
  ℕ, zero, suc, ◌+◌, Bool, true, false, not, ◌&&◌, ◌||◌, Option, none, some, List, [], ◌∷◌, ◌++◌,
  length, get_elem?, ltb, leb, ◌==◌, if◌then◌else◌,
}
use strfry_namecoin_policy.Prelude.Int.{ℤ, pos, negsuc, ltb_ℤ, leb_ℤ}
use strfry_namecoin_policy.Js.{Text, txt, starts_with, Runtime, to_lower, parse_int}
use strfry_namecoin_policy.Js.Json.{
  Json, str, prop, truthy, as_text, as_array, is_text, is_num, is_nullish, to_text, to_number,
}

abbrev pub nip9a_kind : ℤ
nip9a_kind = pos 34551

pub record KindRule : Type 0 where
  pub kind : ℤ
  pub max_bytes : Option ℤ
  pub max_per_author_per_day : Option ℤ

pub data Policy : Type 0 where
  allow deny : Policy

pub record PubkeyRule : Type 0 where
  pub pubkey : Text
  pub policy : Policy
  pub role : Option Json

pub record WotGate : Type 0 where
  pub root : Text
  pub depth : ℤ

pub record Rules : Type 0 where
  pub id : Option Json
  pub pubkey : Option Json
  pub created_at : Option ℤ
  pub d_tag : Json
  pub community_address : Option Json
  pub kind_rules : List KindRule
  pub pubkey_rules : List PubkeyRule
  pub wot_gates : List WotGate
  pub max_event_size : Option ℤ
  pub min_rules_created_at : Option ℤ

-- `value == null || value === ''`
abbrev is_blank : Option Json → Bool
is_blank v = is_nullish v || is_text v []

unfoldable pub parse_int32 : Option Json → Option ℤ
parse_int32 none = none
parse_int32 (some v) = if is_blank (some v) then none else parse_int (to_text v)

unfoldable pub parse_int64 : Runtime → Option Json → Option ℤ
parse_int64 rt v = if is_blank v then none else to_number rt v

-- The variables of the loop over the tags.
pub record Draft : Type 0 where
  pub d_tag : Option Json
  pub community_address : Option Json
  pub kind_rules : List KindRule
  pub pubkey_rules : List PubkeyRule
  pub wot_gates : List WotGate
  pub max_event_size : Option ℤ
  pub min_rules_created_at : Option ℤ

abbrev blank_draft : Draft
blank_draft = record {
  d_tag = none;
  community_address = none;
  kind_rules = [];
  pubkey_rules = [];
  wot_gates = [];
  max_event_size = none;
  min_rules_created_at = none;
}

abbrev or_null : Option Json → Option Json
or_null v = if truthy v then v else none

abbrev policy_of : Option Json → Option Policy
policy_of v =
    if is_text v (txt "allow")
    then some allow
    else if is_text v (txt "deny")
    then some deny
    else none

-- `typeof v === 'string' && v.length === 64`
abbrev key_text : Option Json → Option Text
key_text v = elim (as_text v) [ none ↦ none | some s ↦ if length s == 64 then some s else none ]

abbrev is_positive : ℤ → Bool
is_positive n = ltb_ℤ (pos 0) n

-- The cases of the switch, `rest` being what follows the tag's name.
unfoldable pub read_d : List Json → Draft → Draft
read_d rest t = if truthy (get_elem? rest 0) then record t { d_tag = get_elem? rest 0 } else t

unfoldable pub read_a : List Json → Draft → Draft
read_a rest t = elim (get_elem? rest 0) [
  | none ↦ t
  | some v ↦
      if truthy (some v) && starts_with (txt "34550:") (to_text v)
      then record t { community_address = some v }
      else t
]

unfoldable pub read_k : List Json → Draft → Draft
unfolding parse_int32
read_k rest t = elim (parse_int32 (get_elem? rest 0)) [
  | none ↦ t
  | some kind ↦
      let rule : KindRule = record {
        kind = kind;
        max_bytes = parse_int32 (get_elem? rest 1);
        max_per_author_per_day = parse_int32 (get_elem? rest 2);
      } in
      record t { kind_rules = t.kind_rules ++ rule ∷ [] }
]

unfoldable pub read_p : Runtime → List Json → Draft → Draft
read_p rt rest t = elim (key_text (get_elem? rest 0)) [
  | none ↦ t
  | some pubkey ↦ elim (policy_of (get_elem? rest 1)) [
    | none ↦ t
    | some policy ↦
        let rule : PubkeyRule = record {
          pubkey = to_lower rt pubkey;
          policy = policy;
          role = or_null (get_elem? rest 2);
        } in
        record t { pubkey_rules = t.pubkey_rules ++ rule ∷ [] }
  ]
]

unfoldable pub read_wot : Runtime → List Json → Draft → Draft
unfolding parse_int32
read_wot rt rest t = elim (key_text (get_elem? rest 0)) [
  | none ↦ t
  | some root ↦ elim (parse_int32 (get_elem? rest 1)) [
    | none ↦ t
    | some depth ↦
        if is_positive depth
        then record t {
          wot_gates = t.wot_gates ++ record { root = to_lower rt root; depth = depth } ∷ [];
        }
        else t
  ]
]

unfoldable pub read_max_event_size : List Json → Draft → Draft
unfolding parse_int32
read_max_event_size rest t = elim (parse_int32 (get_elem? rest 0)) [
  | none ↦ t
  | some v ↦ if is_positive v then record t { max_event_size = some v } else t
]

unfoldable pub read_min_rules_created_at : Runtime → List Json → Draft → Draft
unfolding parse_int64
read_min_rules_created_at rt rest t = elim (parse_int64 rt (get_elem? rest 0)) [
  | none ↦ t
  | some v ↦ if leb_ℤ (pos 0) v then record t { min_rules_created_at = some v } else t
]

-- One round of the loop over the tags.
unfoldable pub read_tag : Runtime → Json → Draft → Draft
read_tag rt tag t = elim (as_array (some tag)) [
  | none ↦ t
  | some parts ↦ elim parts [
    | [] ↦ t
    | name ∷ rest ↦
        if is_text (some name) (txt "d")
        then read_d rest t
        else if is_text (some name) (txt "a")
        then read_a rest t
        else if is_text (some name) (txt "k")
        then read_k rest t
        else if is_text (some name) (txt "p")
        then read_p rt rest t
        else if is_text (some name) (txt "wot")
        then read_wot rt rest t
        else if is_text (some name) (txt "max_event_size")
        then read_max_event_size rest t
        else if is_text (some name) (txt "min_rules_created_at")
        then read_min_rules_created_at rt rest t
        else t
  ]
]

unfoldable pub read_tags : Runtime → List Json → Draft → Draft
read_tags rt [] t = t
read_tags rt (tag ∷ tags) t = read_tags rt tags (read_tag rt tag t)

unfoldable pub finish : Runtime → Json → Draft → Option Rules
finish rt event t = elim t.d_tag [
  | none ↦ none
  | some d_tag ↦ some (record {
    id = prop event (txt "id");
    pubkey = prop event (txt "pubkey");
    created_at = to_number rt (prop event (txt "created_at"));
    d_tag = d_tag;
    community_address = t.community_address;
    kind_rules = t.kind_rules;
    pubkey_rules = t.pubkey_rules;
    wot_gates = t.wot_gates;
    max_event_size = t.max_event_size;
    min_rules_created_at = t.min_rules_created_at;
  })
]

unfoldable pub parse_rules_event : Runtime → Option Json → Option Rules
parse_rules_event rt none = none
parse_rules_event rt (some event) =
    if truthy (some event) && is_num (prop event (txt "kind")) nip9a_kind
    then elim (as_array (prop event (txt "tags"))) [
      | none ↦ none
      | some tags ↦ finish rt event (read_tags rt tags blank_draft)
    ]
    else none

-- `a < b` on numbers, false where one of them is none.
abbrev pub lt_num : Option ℤ → Option ℤ → Bool
lt_num (some a) (some b) = ltb_ℤ a b
lt_num none _ = false
lt_num (some a) none = false

-- One round of the first loop of `pickActiveRules`.
unfoldable pub raise : ℤ → Option ℤ → ℤ
raise floor none = floor
raise floor (some v) = if ltb_ℤ floor v then v else floor

unfoldable pub floor_from : ℤ → List Rules → ℤ
floor_from floor [] = floor
floor_from floor (r ∷ rs) = floor_from (raise floor r.min_rules_created_at) rs

-- One round of the second loop.
unfoldable pub better : ℤ → Option Rules → Rules → Option Rules
better floor best r = if lt_num r.created_at (some floor) then best else elim best [
  | none ↦ some r
  | some b ↦ if lt_num b.created_at r.created_at then some r else some b
]

unfoldable pub best_from : ℤ → Option Rules → List Rules → Option Rules
best_from floor best [] = best
best_from floor best (r ∷ rs) = best_from floor (better floor best r) rs

unfoldable pub pick_active_rules : List Rules → Option Rules
pick_active_rules candidates = best_from (floor_from (pos 0) candidates) none candidates
