-- ===== src/Handler/Gates.antt =====
-- src/index.js: which events the handler accepts.
use mathlib.Core.Path.{sym, subst}
use mathlib.Core.Option.{some-injective}
use strfry_namecoin_policy.Prelude.{
  ℕ, ◌+◌, ◌<◌, ◌≡◌, ◌≢◌, refl, ap, ◌∙◌, Bool, true, false, Option, none, some, ◌⊎◌, ◌↔◌, inl, inr,
  Option-cases, Bool-cases, arith,
}
use strfry_namecoin_policy.Prelude.Int.{ℤ, pos}
use strfry_namecoin_policy.Js.{Text, txt, same, same_iff, Runtime, to_lower}
use strfry_namecoin_policy.Js.Json.{Json, JsonRuntime, prop}
use strfry_namecoin_policy.Cache
use strfry_namecoin_policy.Cache.{effective_ttl}
use strfry_namecoin_policy.Cache.Recency.{IsValid}
use strfry_namecoin_policy.Cache.Expiry.{get-set}
use strfry_namecoin_policy.Resolver.{Resolver, Resolution, resolve, is_namecoin_identifier}
use strfry_namecoin_policy.Rules.{Rules}
use strfry_namecoin_policy.Rules.Loader.{Loader, Offer, accepted, rejected, threw, offer}
use strfry_namecoin_policy.Rules.Validator.{Context, validate, event_byte_size, is_kind}
use strfry_namecoin_policy.Rules.Validator.Verdict.{IsPermitted, is_kind_iff, validate-IsPermitted}
use strfry_namecoin_policy.Handler.Media.{
  HasMedia, IsAllowed, has_imeta_tag_iff, is_whitelisted_iff,
}
use strfry_namecoin_policy.Handler.{
  Config, Relay, World, accept, failed, rules_gate, content_gates, handle_other, has_imeta_tag,
  is_whitelisted, handle_metadata, handle_rules, author_gate, conclude, extract_nip05,
}

abbrev pub context_of : JsonRuntime → Text → Option ℤ → Json → Context
context_of json pubkey kind event = record {
  author = pubkey;
  kind = kind;
  size_bytes = event_byte_size json event;
  posts_today_by_kind = none;
  wot_resolver = none;
}

-- With a loader, the document in force permits the event, and there is one where the relay asks
-- for it; without a loader nothing is asked.
abbrev pub IsLawful : JsonRuntime → Config → Option Loader → Text → Option ℤ → Json → Type 0
IsLawful json config none pubkey kind event = Unit
IsLawful json config (some loader) pubkey kind event =
    ((rules : Rules)
      → loader.active ≡ some rules
      → IsPermitted rules (context_of json pubkey kind event))
    × (loader.active ≡ none → config.nip9a_require_rules ≡ false)

abbrev pub IsPlainNote : Config → Option Loader → Text → Option ℤ → Json → Type 0
IsPlainNote config nip9a pubkey kind event =
    config.nip9a_reject_imeta_kind1 ≡ true
    → kind ≡ some (pos 1)
    → HasMedia event
    → IsAllowed nip9a pubkey

rules_gate-none :
    (json : JsonRuntime) (config : Config) (loader : Loader) (pubkey : Text) (kind : Option ℤ)
    (event : Json)
    → loader.active ≡ none
    → (rules_gate json config (some loader) pubkey kind event ≡ none)
      ↔ (config.nip9a_require_rules ≡ false)
unfolding rules_gate
rules_gate-none json config loader pubkey kind event h =
    elim (Bool-cases config.nip9a_require_rules) [
      | inl asked ↦ rw (h, asked, rules_gate) (λ e. ground arith, λ e. ground arith)
      | inr free ↦ rw (h, free, rules_gate) (λ e. refl, λ e. refl)
    ]

rules_gate-some :
    (json : JsonRuntime) (config : Config) (loader : Loader) (pubkey : Text) (kind : Option ℤ)
    (event : Json) {rules : Rules}
    → loader.active ≡ some rules
    → (rules_gate json config (some loader) pubkey kind event ≡ none)
      ↔ (validate rules (context_of json pubkey kind event) ≡ none)
unfolding rules_gate
rules_gate-some json config loader pubkey kind event {rules} h =
    elim (Option-cases (validate rules (context_of json pubkey kind event))) [
      | inl passes ↦ rw (h, passes, rules_gate) (λ e. refl, λ e. refl)
      | inr (v, fails) ↦ rw (h, fails, rules_gate) (λ e. ground arith, λ e. ground arith)
    ]

rules_gate-IsLawful :
    (json : JsonRuntime) (config : Config) (nip9a : Option Loader) (pubkey : Text) (kind : Option ℤ)
    (event : Json)
    → (rules_gate json config nip9a pubkey kind event ≡ none)
      ↔ IsLawful json config nip9a pubkey kind event
unfolding rules_gate
rules_gate-IsLawful json config none pubkey kind event = (λ e. tt, λ e. refl)
rules_gate-IsLawful json config (some loader) pubkey kind event =
    let permits =
      λ (rules : Rules). validate-IsPermitted rules (context_of json pubkey kind event) in
    elim (Option-cases loader.active) [
      | inl gone ↦
          let (to, from) = rules_gate-none json config loader pubkey kind event gone in
          (λ e. (λ rules h. absurd (ground arith), λ h. to e), λ p. from (p.1 gone))
      | inr (rules, active) ↦
          let (to, from) = rules_gate-some json config loader pubkey kind event active in
          (
            λ e. (
              λ other h.
                  subst (λ r. IsPermitted r (context_of json pubkey kind event))
                    (some-injective _ _ (sym active ∙ h)) ((permits rules).0 (to e)),
              λ h. absurd (ground arith),
            ),
            λ p. from ((permits rules).1 (p.0 rules active)),
          )
    ]

is_one_iff : (kind : Option ℤ) → (is_kind (pos 1) kind ≡ true) ↔ (kind ≡ some (pos 1))
is_one_iff kind = is_kind_iff (pos 1) kind

content_gates-accept :
    (json : JsonRuntime) (config : Config) (nip9a : Option Loader) (pubkey : Text) (kind : Option ℤ)
    (event : Json)
    → (content_gates json config nip9a pubkey kind event ≡ accept) ↔ (
        (rules_gate json config nip9a pubkey kind event ≡ none)
        × IsPlainNote config nip9a pubkey kind event)
unfolding content_gates
content_gates-accept json config nip9a pubkey kind event =
    let (one_to, one_from) = is_one_iff kind in
    let (media_to, media_from) = has_imeta_tag_iff event in
    let (allowed_to, allowed_from) = is_whitelisted_iff nip9a pubkey in
    let coded : (content_gates json config nip9a pubkey kind event ≡ accept) ↔ (
        (rules_gate json config nip9a pubkey kind event ≡ none)
        × (config.nip9a_reject_imeta_kind1 ≡ true
            → is_kind (pos 1) kind ≡ true
            → has_imeta_tag event ≡ true
            → is_whitelisted nip9a pubkey ≡ true)) =
      ground arith in
    (
      λ e.
          let (lawful, plain) = coded.0 e in
          (lawful, λ asked one media. allowed_to (plain asked (one_from one) (media_from media))),
      λ (lawful, plain).
          coded.1
            (lawful, λ asked one media. allowed_from (plain asked (one_to one) (media_to media))),
    )

-- What an event that is neither metadata nor a rules event needs.
pub record IsAdmitted (json : JsonRuntime) (config : Config) (world : World) (pubkey : Text)
    (kind : Option ℤ) (event : Json) (relay : Relay) : Type 0 where
  pub known :
      config.all_kinds_require_bit ≡ true
      → (Cache.has world.now pubkey relay.verified_authors).1 ≡ true
  pub lawful : IsLawful json config relay.nip9a pubkey kind event
  pub plain : IsPlainNote config relay.nip9a pubkey kind event

handle_other-cases :
    (json : JsonRuntime) (config : Config) (world : World) (pubkey : Text) (kind : Option ℤ)
    (event : Json) (relay : Relay)
    → ((handle_other json config world pubkey kind event relay).1 ≡ accept) ↔ (
        (config.all_kinds_require_bit ≡ true
          → (Cache.has world.now pubkey relay.verified_authors).1 ≡ true)
        × (content_gates json config relay.nip9a pubkey kind event ≡ accept))
unfolding handle_other
handle_other-cases json config world pubkey kind event relay =
    elim (Bool-cases config.all_kinds_require_bit) [
      | inr free ↦ rw (free, handle_other) (λ e. (λ h. absurd (ground arith), e), λ p. p.1)
      | inl asked ↦ elim (Bool-cases (Cache.has world.now pubkey relay.verified_authors).1) [
        | inl known ↦ rw (asked, known, handle_other) (λ e. (λ h. refl, e), λ p. p.1)
        | inr unknown ↦
            rw (asked, unknown, handle_other)
              (λ e. absurd (ground arith), λ p. absurd (ground (arith, p.0 refl)))
      ]
    ]

-- An event that is neither metadata nor a rules event is accepted exactly if the author is
-- verified, where the mode asks for it; if the relay has a loader, the document in force permits
-- the event, and there is one where the relay asks for it; and, where the relay asks for that, a
-- kind 1 event with an imeta tag comes from an author whom a rule of the document in force
-- allows.
pub handle_other-IsAdmitted :
    (json : JsonRuntime) (config : Config) (world : World) (pubkey : Text) (kind : Option ℤ)
    (event : Json) (relay : Relay)
    → ((handle_other json config world pubkey kind event relay).1 ≡ accept)
      ↔ IsAdmitted json config world pubkey kind event relay
handle_other-IsAdmitted json config world pubkey kind event relay =
    let (to, from) = handle_other-cases json config world pubkey kind event relay in
    let (open_to, open_from) = content_gates-accept json config relay.nip9a pubkey kind event in
    let (law_to, law_from) = rules_gate-IsLawful json config relay.nip9a pubkey kind event in
    (
      λ e. record {
        known = (to e).0;
        lawful = law_to (open_to (to e).1).0;
        plain = (open_to (to e).1).1;
      },
      λ (a : IsAdmitted json config world pubkey kind event relay).
          from (a.known, open_from (law_from a.lawful, a.plain)),
    )

-- The lookup of a metadata event's identifier.
abbrev looked_up : Runtime → JsonRuntime → World → Text → Resolver → Resolver × Option Resolution
looked_up rt json world nip05 resolver =
    resolve rt json world.limiter world.reply world.now world.later (to_lower rt nip05) resolver

has-get :
    (t : ℕ) (key : Text) (c : Cache.LruCache Bool) {v : Bool}
    → (Cache.get t key c).1 ≡ some v
    → (Cache.has t key c).1 ≡ true
unfolding Cache.has
has-get t key c h = rw (h, Cache.has) refl

conclude-accept :
    (world : World) (pubkey : Text) (resolved : Option Resolution) (throttled : Bool)
    (relay : Relay)
    → (conclude world pubkey resolved throttled relay).1 ≡ accept
    → (r : Resolution) × (resolved ≡ some r)
      × (r.pubkey ≡ pubkey)
      × ((conclude world pubkey resolved throttled relay).0.verified_authors
          ≡ Cache.set world.later pubkey true none relay.verified_authors)
unfolding conclude
conclude-accept world pubkey none throttled relay h = absurd (ground arith)
conclude-accept world pubkey (some r) throttled relay h = elim (Bool-cases (same r.pubkey pubkey)) [
  | inl equal ↦ (r, refl, (same_iff r.pubkey pubkey).0 equal, rw (equal, conclude) refl)
  | inr other ↦ absurd (ground arith)
]

-- A metadata event with a Namecoin identifier, at a relay with a resolver in a well-formed
-- state, is accepted only if the lookup names the author's key; the author is then verified for
-- as long as the cache of verified authors keeps an entry.
pub handle_metadata-verifies :
    (rt : Runtime) (json : JsonRuntime) (config : Config) (world : World) (pubkey : Text)
    (event : Json) (relay : Relay) {nip05 : Text} {resolver : Resolver}
    → IsValid relay.verified_authors
    → extract_nip05 json (prop event (txt "content")) ≡ some nip05
    → is_namecoin_identifier rt (to_lower rt nip05) ≡ true
    → relay.resolver ≡ some resolver
    → (handle_metadata rt json config world pubkey event relay).1 ≡ accept
    → ((r : Resolution) × ((looked_up rt json world nip05 resolver).1 ≡ some r)
        × (r.pubkey ≡ pubkey))
      × ((t : ℕ)
          → (0 < effective_ttl none relay.verified_authors.ttl_ms
              → t < world.later + effective_ttl none relay.verified_authors.ttl_ms)
          → (Cache.has t pubkey
              (handle_metadata rt json config world pubkey event relay).0.verified_authors).1
            ≡ true)
unfolding handle_metadata
handle_metadata-verifies rt json config world pubkey event relay {nip05} {resolver} valid named coin
      there h =
    let step : handle_metadata rt json config world pubkey event relay
        ≡ conclude world pubkey (looked_up rt json world nip05 resolver).1
            (looked_up rt json world nip05 resolver).0.last_was_rate_limited
            (record relay { resolver = some (looked_up rt json world nip05 resolver).0 }) =
      rw (named, coin, there, handle_metadata) refl in
    let (r, found, equal, kept) = conclude-accept _ _ _ _ _ (ap (λ x. x.1) (sym step) ∙ h) in
    (
      (r, found, equal),
      λ t early.
          subst (λ c. (Cache.has t pubkey c).1 ≡ true)
            (sym (ap (λ x. x.0.verified_authors) step ∙ kept))
            (has-get t pubkey _
              (get-set world.later pubkey true none relay.verified_authors valid t early)),
    )

Offer-cases : (o : Offer) → (o ≡ threw) ⊎ (o ≡ accepted) ⊎ (o ≡ rejected)
Offer-cases o = ground arith

author_gate-kept :
    (config : Config) (world : World) (pubkey : Text) (relay : Relay)
    → ((author_gate config world pubkey relay).0.nip9a ≡ relay.nip9a)
      × (((author_gate config world pubkey relay).1 ≡ accept) ↔ (
          config.all_kinds_require_bit ≡ true
          → (Cache.has world.now pubkey relay.verified_authors).1 ≡ true))
unfolding author_gate
author_gate-kept config world pubkey relay = elim (Bool-cases config.all_kinds_require_bit) [
  | inr free ↦ rw (free, author_gate) (refl, (λ e. λ h. absurd (ground arith), λ p. refl))
  | inl asked ↦ elim (Bool-cases (Cache.has world.now pubkey relay.verified_authors).1) [
    | inl known ↦ rw (asked, known, author_gate) (refl, (λ e. λ h. refl, λ p. refl))
    | inr unknown ↦
        rw (asked, unknown, author_gate)
          (refl, (λ e. absurd (ground arith), λ p. absurd (ground (arith, p refl))))
  ]
]

-- A rules event is offered to the loader, and what the loader makes of it is kept, also where
-- the event is then rejected or the offer throws; if it throws, the handler fails, and otherwise
-- the event is accepted exactly if the author is verified, where the mode asks for it.
pub handle_rules-offered :
    (rt : Runtime) (config : Config) (world : World) (pubkey : Text) (event : Json)
    (loader : Loader) (relay : Relay)
    → ((handle_rules rt config world pubkey event loader relay).0.nip9a
        ≡ some (offer rt loader (some event)).0)
      × ((offer rt loader (some event)).1 ≡ threw
          → (handle_rules rt config world pubkey event loader relay).1 ≡ failed)
      × ((offer rt loader (some event)).1 ≢ threw
          → ((handle_rules rt config world pubkey event loader relay).1 ≡ accept) ↔ (
              config.all_kinds_require_bit ≡ true
              → (Cache.has world.now pubkey relay.verified_authors).1 ≡ true))
unfolding handle_rules
handle_rules-offered rt config world pubkey event loader relay =
    let (kept, gate) =
      author_gate-kept config world pubkey
        (record relay { nip9a = some (offer rt loader (some event)).0 }) in
    elim (Offer-cases (offer rt loader (some event)).1) [
      | inl stops ↦ rw (stops, handle_rules) (refl, λ e. refl, λ h. absurd (h refl))
      | inr (inl taken) ↦
          rw (taken, handle_rules) (kept, λ e. absurd (ground (arith, e)), λ h. gate)
      | inr (inr left) ↦ rw (left, handle_rules) (kept, λ e. absurd (ground (arith, e)), λ h. gate)
    ]
