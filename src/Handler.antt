-- ===== src/Handler.antt =====
-- src/index.js: the handler of one line of the relay.
pub mod Media
pub mod Gates
mod Tests
use strfry_namecoin_policy.Prelude.{
  ℕ, Bool, true, false, not, ◌&&◌, ◌||◌, Option, none, some, List, [], ◌∷◌, length, get_elem?, ◌==◌,
  if◌then◌else◌,
}
use strfry_namecoin_policy.Prelude.Int.{ℤ, pos}
use strfry_namecoin_policy.Js.{Text, txt, same, trim, Runtime, to_lower}
use strfry_namecoin_policy.Js.Json.{
  Json, JsonRuntime, prop, is_object, as_text, as_array, is_text, to_number, is_nullish, str,
}
use strfry_namecoin_policy.Cache
use strfry_namecoin_policy.Cache.{LruCache}
use strfry_namecoin_policy.Resolver.{
  Resolver, Resolution, NameReply, resolve, is_namecoin_identifier,
}
use strfry_namecoin_policy.Rules.{Rules, PubkeyRule, Policy, allow, deny, nip9a_kind}
use strfry_namecoin_policy.Rules.Validator.{Violation, Context, validate, event_byte_size, is_kind}
use strfry_namecoin_policy.Rules.Loader.{Loader, Offer, accepted, rejected, threw, offer}

pub record Config : Type 0 where
  -- `mode === 'all-kinds-require-bit'`
  pub all_kinds_require_bit : Bool
  pub allow_non_bit : Bool
  pub soft_fail : Bool
  pub nip9a_require_rules : Bool
  pub nip9a_reject_imeta_kind1 : Bool

pub record Relay : Type 0 where
  pub verified_authors : LruCache Bool
  pub resolver : Option Resolver
  pub nip9a : Option Loader

-- What the limiter and the server answer to a lookup, and the clock before and after it.
pub record World : Type 0 where
  pub limiter : Option Bool
  pub reply : NameReply
  pub now : ℕ
  pub later : ℕ

-- The reason of a rejection; the message that goes with it is left out.
pub data Reason : Type 0 where
  non_object missing_event missing_pubkey unverified_author non_bit_blocked no_resolver : Reason
  rate_limited unresolved pubkey_mismatch nip9a_no_rules imeta_blocked : Reason
  nip9a_violation : Violation → Reason

pub data Action : Type 0 where
  accept : Action
  reject : Reason → Action
  failed : Action

-- `content`'s `nip05`, trimmed and not empty.
unfoldable pub nip05_of : Json → Option Text
nip05_of doc = elim (as_text (prop doc (txt "nip05"))) [
  | none ↦ none
  | some nip05 ↦ if length (trim nip05) == 0 then none else some (trim nip05)
]

abbrev is_record : Json → Bool
is_record doc = elim (as_array (some doc)) [ none ↦ is_object (some doc) | some vs ↦ false ]

unfoldable pub extract_nip05 : JsonRuntime → Option Json → Option Text
extract_nip05 json content = elim (as_text content) [
  | none ↦ none
  | some raw ↦ if length raw == 0 then none else elim (json.parse raw) [
    | none ↦ none
    | some doc ↦ if is_record doc then nip05_of doc else none
  ]
]

abbrev pub is_imeta : Json → Bool
is_imeta tag = elim (as_array (some tag)) [
  | none ↦ false
  | some parts ↦ is_text (get_elem? parts 0) (txt "imeta")
]

unfoldable pub any_imeta : List Json → Bool
any_imeta [] = false
any_imeta (tag ∷ tags) = if is_imeta tag then true else any_imeta tags

unfoldable pub has_imeta_tag : Json → Bool
has_imeta_tag event = elim (as_array (prop event (txt "tags"))) [
  | none ↦ false
  | some tags ↦ any_imeta tags
]

abbrev pub allows : PubkeyRule → Text → Bool
allows rule pubkey = same rule.pubkey pubkey && (elim rule.policy [ allow ↦ true | deny ↦ false ])

unfoldable pub any_allows : List PubkeyRule → Text → Bool
any_allows [] pubkey = false
any_allows (rule ∷ rules) pubkey = if allows rule pubkey then true else any_allows rules pubkey

abbrev pub active_of : Option Loader → Option Rules
active_of none = none
active_of (some loader) = loader.active

unfoldable pub is_whitelisted : Option Loader → Text → Bool
is_whitelisted nip9a pubkey = elim (active_of nip9a) [
  | none ↦ false
  | some rules ↦ any_allows rules.pubkey_rules pubkey
]

-- The rules gate: the reason of its rejection, if it rejects.
unfoldable pub rules_gate :
    JsonRuntime → Config → Option Loader → Text → Option ℤ → Json → Option Reason
rules_gate json config none pubkey kind event = none
rules_gate json config (some loader) pubkey kind event = elim loader.active [
  | none ↦ if config.nip9a_require_rules then some nip9a_no_rules else none
  | some rules ↦
      elim (validate rules (record {
        author = pubkey;
        kind = kind;
        size_bytes = event_byte_size json event;
        posts_today_by_kind = none;
        wot_resolver = none;
      })) [ none ↦ none | some violation ↦ some (nip9a_violation violation) ]
]

-- The gates behind the author gate.
unfoldable pub content_gates :
    JsonRuntime → Config → Option Loader → Text → Option ℤ → Json → Action
content_gates json config nip9a pubkey kind event =
    elim (rules_gate json config nip9a pubkey kind event) [
      | some reason ↦ reject reason
      | none ↦
          if config.nip9a_reject_imeta_kind1
            && is_kind (pos 1) kind
            && has_imeta_tag event
            && not (is_whitelisted nip9a pubkey)
          then reject imeta_blocked
          else accept
    ]

-- An event of another kind than 0; reading `verifiedAuthors` marks the author as recently used.
unfoldable pub handle_other :
    JsonRuntime → Config → World → Text → Option ℤ → Json → Relay → Relay × Action
handle_other json config world pubkey kind event relay =
    let (cache, known) = Cache.has world.now pubkey relay.verified_authors in
    let gates = content_gates json config relay.nip9a pubkey kind event in
    if config.all_kinds_require_bit
    then (
      record relay { verified_authors = cache },
      if known then gates else reject unverified_author,
    )
    else (relay, gates)

-- The answer to a rules event: `has` is called only in the mode that asks for it.
unfoldable pub author_gate : Config → World → Text → Relay → Relay × Action
author_gate config world pubkey relay =
    let (cache, known) = Cache.has world.now pubkey relay.verified_authors in
    if config.all_kinds_require_bit
    then (
      record relay { verified_authors = cache },
      if known then accept else reject unverified_author,
    )
    else (relay, accept)

-- A rules event, with the loader: it is offered first, whatever the author.
unfoldable pub handle_rules :
    Runtime → Config → World → Text → Json → Loader → Relay → Relay × Action
handle_rules rt config world pubkey event loader relay =
    let (loader', answer) = offer rt loader (some event) in
    let absorbed = record relay { nip9a = some loader' } in
    elim answer [
      | threw ↦ (absorbed, failed)
      | accepted ↦ author_gate config world pubkey absorbed
      | rejected ↦ author_gate config world pubkey absorbed
    ]

-- What the lookup of a name decides.
unfoldable pub conclude : World → Text → Option Resolution → Bool → Relay → Relay × Action
conclude world pubkey none throttled relay =
    (relay, reject (if throttled then rate_limited else unresolved))
conclude world pubkey (some resolved) throttled relay =
    if same resolved.pubkey pubkey
    then (
      record relay {
        verified_authors = Cache.set world.later pubkey true none relay.verified_authors;
      },
      accept,
    )
    else (relay, reject pubkey_mismatch)

-- A kind 0 event.
unfoldable pub handle_metadata :
    Runtime → JsonRuntime → Config → World → Text → Json → Relay → Relay × Action
handle_metadata rt json config world pubkey event relay =
    elim (extract_nip05 json (prop event (txt "content"))) [
      | none ↦ (relay, accept)
      | some nip05 ↦
          let lowered = to_lower rt nip05 in
          if is_namecoin_identifier rt lowered
          then elim relay.resolver [
            | none ↦ (relay, if config.soft_fail then accept else reject no_resolver)
            | some resolver ↦
                let (resolver', resolved) =
                  resolve rt json world.limiter world.reply world.now world.later lowered
                    resolver in
                conclude world pubkey resolved resolver'.last_was_rate_limited
                  (record relay { resolver = some resolver' })
          ]
          else (relay, if config.allow_non_bit then accept else reject non_bit_blocked)
    ]

-- An event with its author.
unfoldable pub handle_event :
    Runtime → JsonRuntime → Config → World → Text → Json → Relay → Relay × Action
handle_event rt json config world pubkey event relay =
    let kind = to_number rt (prop event (txt "kind")) in
    let metadata = handle_metadata rt json config world pubkey event relay in
    let other = handle_other json config world pubkey kind event relay in
    if is_kind (pos 0) kind
    then metadata
    else if is_kind nip9a_kind kind
    then elim relay.nip9a [
      | none ↦ other
      | some loader ↦ handle_rules rt config world pubkey event loader relay
    ]
    else other

-- The reply: the id, and the action.
abbrev pub Reply : Type 0
Reply = Option Json × Action

-- An event whose id is a text.
unfoldable pub handle_identified :
    Runtime → JsonRuntime → Config → World → Json → Text → Relay → Relay × Reply
handle_identified rt json config world event id relay = elim (as_text (prop event (txt "pubkey"))) [
  | none ↦ (relay, (some (str id), reject missing_pubkey))
  | some key ↦
      let pubkey = to_lower rt key in
      let (relay', action) = handle_event rt json config world pubkey event relay in
      if length pubkey == 0
      then (relay, (some (str id), reject missing_pubkey))
      else (relay', (some (str id), action))
]

abbrev event_id : Json → Option Text
event_id event = if is_object (some event) then as_text (prop event (txt "id")) else none

-- `req?.event?.id ?? null`
abbrev loose_id : Json → Option Json
loose_id req = elim (prop req (txt "event")) [
  | none ↦ none
  | some event ↦ if is_nullish (prop event (txt "id")) then none else prop event (txt "id")
]

unfoldable pub handle : Runtime → JsonRuntime → Config → World → Json → Relay → Relay × Reply
handle rt json config world req relay =
    if not (is_object (some req))
    then (relay, (none, reject non_object))
    else if not (is_text (prop req (txt "type")) (txt "new"))
    then (relay, (loose_id req, accept))
    else elim (prop req (txt "event")) [
      | none ↦ (relay, (none, reject missing_event))
      | some event ↦ elim (event_id event) [
        | none ↦ (relay, (none, reject missing_event))
        | some id ↦ handle_identified rt json config world event id relay
      ]
    ]
