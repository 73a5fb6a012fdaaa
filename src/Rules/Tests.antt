-- ===== src/Rules/Tests.antt =====
-- src/nip9a-parser.js, src/nip9a-validator.js and src/nip9a-loader.js on a small rules document.
use strfry_namecoin_policy.Prelude.{ℕ, ◌≡◌, refl, Option, none, some, [], ◌∷◌, ◌⊎◌, ◌↔◌, All}
use strfry_namecoin_policy.Prelude.Int.{ℤ, pos, ◌<ℤ◌}
use strfry_namecoin_policy.Js.{
  Text, txt, Runtime, same, starts_with, all, is_hex, is_hex64, to_lower,
}
use strfry_namecoin_policy.Js.Json.{
  Json, num, str, arr, obj, nil, cons, end, field, prop, truthy, as_text, as_array, is_text, is_num,
  is_nullish, to_text, to_number, field_of, JsonRuntime,
}
use strfry_namecoin_policy.Store
use strfry_namecoin_policy.Store.{lookup}
use strfry_namecoin_policy.Rules.{
  Rules, KindRule, deny, parse_rules_event, pick_active_rules, best_from, floor_from, better, raise,
  read_tags, read_tag, read_d, read_k, read_p, finish,
}
use strfry_namecoin_policy.Rules.Validator.{
  Context, validate, validate_rest, policy_for, policy_from, rule_for_kind, find_kind, quota_used,
  gates_refuse, any_gate, kind_not_allowed,
}
use strfry_namecoin_policy.Rules.Validator.Verdict.{IsPermitted, validate-IsPermitted}
use strfry_namecoin_policy.Rules.Loader.{
  Community, Loader, new_loader, parse_community, offer, absorb, passes_filter, same_id, key_of,
}
use strfry_namecoin_policy.Rules.Loader.Offers.{
  IsOwned, IsSound, Reach, started, offered, Reach-IsSound, Reach-IsOwned, offer-newer,
}

text : Unit {0}
unfolding same starts_with all is_hex is_hex64 to_lower prop field_of truthy as_text as_array
    is_text is_num is_nullish
text = tt

parser : Unit {0}
unfolding parse_rules_event read_tags read_tag read_d read_k read_p finish
parser = tt

active : Unit {0}
unfolding pick_active_rules best_from floor_from better raise
active = tt

validator : Unit {0}
unfolding validate validate_rest policy_for policy_from rule_for_kind find_kind quota_used
    gates_refuse any_gate
validator = tt

loader : Unit {0}
unfolding new_loader parse_community offer absorb passes_filter same_id Store.insert Store.lookup
loader = tt

abbrev plain : Runtime
plain = record {
  lower_wide = λ c. c ∷ [];
  other_number = λ s. none;
  decode_utf8 = λ bs. bs;
  sha256 = λ bs. bs;
}

abbrev plain_json : JsonRuntime
plain_json = record { parse = λ raw. none; stringify = λ v. [] }

abbrev owner : Text
owner = txt "aaaaaaaaaaaaaaaaaaaaaaaaaaaaaaaaaaaaaaaaaaaaaaaaaaaaaaaaaaaaaaaa"

abbrev notes : KindRule
notes = record { kind = pos 1; max_bytes = some (pos 500); max_per_author_per_day = some (pos 2) }

abbrev dated : ℕ → Option ℤ → Rules
dated created_at ratchet = record {
  id = some (num (pos created_at));
  pubkey = some (str owner);
  created_at = some (pos created_at);
  d_tag = str (txt "d");
  community_address = none;
  kind_rules = notes ∷ [];
  pubkey_rules = record { pubkey = txt "eve"; policy = deny; role = none } ∷ [];
  wot_gates = [];
  max_event_size = none;
  min_rules_created_at = ratchet;
}

abbrev older : Rules
older = dated 10 none

abbrev newer : Rules
newer = dated 20 (some (pos 15))

abbrev ratcheted : Rules
ratcheted = dated 10 (some (pos 15))

abbrev note_of : Text → ℤ → Context
note_of author kind = record {
  author = author;
  kind = some kind;
  size_bytes = 300;
  posts_today_by_kind = some (λ kind. some (pos 1));
  wot_resolver = none;
}

verdicts :
    (validate newer (note_of (txt "bob") (pos 1)) ≡ none)
    × (validate newer (note_of (txt "bob") (pos 7)) ≡ some (kind_not_allowed (some (pos 7))))
unfolding text validator
verdicts = (refl, refl)

validate-IsPermitted_example :
    (validate newer (note_of (txt "bob") (pos 1)) ≡ none)
    ↔ IsPermitted newer (note_of (txt "bob") (pos 1))
validate-IsPermitted_example = validate-IsPermitted newer (note_of (txt "bob") (pos 1))

abbrev address : Text
address = txt "34550:aaaaaaaaaaaaaaaaaaaaaaaaaaaaaaaaaaaaaaaaaaaaaaaaaaaaaaaaaaaaaaaa:d"

abbrev community : Community
community = record { address = address; owner_hex = owner; d_tag = txt "d" }

abbrev fresh : Loader
fresh = record {
  community = some community;
  rules_by_key = [];
  active = none;
  last_file_error = none;
}

made : new_loader plain address ≡ some fresh
unfolding text loader
made = refl

abbrev tag : Text → Text → Json
tag name v = arr (cons (str name) (cons (str v) nil))

abbrev event : Text → ℕ → Json
event pubkey created_at = obj (
    field (txt "id") (num (pos created_at)) (
      field (txt "kind") (num (pos 34551)) (
        field (txt "pubkey") (str pubkey) (
          field (txt "created_at") (num (pos created_at))
            (field (txt "tags") (arr (cons (tag (txt "d") (txt "d")) nil)) end)))))

abbrev bare : ℕ → Rules
bare created_at = record {
  id = some (num (pos created_at));
  pubkey = some (str owner);
  created_at = some (pos created_at);
  d_tag = str (txt "d");
  community_address = none;
  kind_rules = [];
  pubkey_rules = [];
  wot_gates = [];
  max_event_size = none;
  min_rules_created_at = none;
}

abbrev ruled : Loader
ruled = record fresh { rules_by_key = (key_of (bare 10), bare 10) ∷ []; active = some (bare 10) }

absorbs : (offer plain fresh (some (event owner 10))).0 ≡ ruled
unfolding text parser active loader to_number
absorbs = refl

foreign : (offer plain fresh (some (event (txt "eve") 10))).0 ≡ fresh
unfolding text parser active loader to_number
foreign = refl

Reach-ruled : Reach plain plain_json fresh (offer plain fresh (some (event owner 10))).0
Reach-ruled = offered (some (event owner 10)) started

Reach-IsSound_example : IsSound plain (some community) (offer plain fresh (some (event owner 10))).0
Reach-IsSound_example = Reach-IsSound plain plain_json address made Reach-ruled

Reach-IsOwned_example :
    All
      (λ (e : Text × Rules). IsOwned plain community e.1)
      (offer plain fresh (some (event owner 10))).0.rules_by_key
Reach-IsOwned_example = Reach-IsOwned plain plain_json address made refl Reach-ruled

kept_first : lookup (key_of (bare 10)) ruled.rules_by_key ≡ some (bare 10)
unfolding text loader to_text
kept_first = refl

offer-newer_example :
    (lookup (key_of (bare 10)) (offer plain ruled (some (event owner 20))).0.rules_by_key
      ≡ some (bare 10))
    ⊎ ((next : Rules) × (lookup
            (key_of (bare 10))
            (offer plain ruled (some (event owner 20))).0.rules_by_key
          ≡ some next)
        × (((bare 10).id ≡ next.id)
            ⊎ ((a b : ℤ) → (bare 10).created_at ≡ some a → next.created_at ≡ some b → a <ℤ b)))
offer-newer_example = offer-newer plain ruled (some (event owner 20)) (key_of (bare 10)) kept_first
