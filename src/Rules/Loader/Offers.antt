-- ===== src/Rules/Loader/Offers.antt =====
-- src/nip9a-loader.js: what any sequence of offers and file loads leaves.
use mathlib.Core.Path.{sym, subst}
use mathlib.Core.Option.{some-injective}
use strfry_namecoin_policy.Prelude.{
  ◌≡◌, ◌≢◌, refl, ap, ◌∙◌, ◌⊎◌, inl, inr, true, false, Option, none, some, [], ◌∷◌, arith, All,
  All-weaken, Option-cases, Bool-cases,
}
use strfry_namecoin_policy.Prelude.Int.{ℤ, ◌<ℤ◌, eqb_ℤ_iff}
use strfry_namecoin_policy.Js.{Text, same, same_iff, Runtime, to_lower}
use strfry_namecoin_policy.Js.Json.{
  Json, null, bool, num, is_num, str, JsonRuntime, as_text, is_text, truthy,
}
use strfry_namecoin_policy.Store.{lookup, insert, values, Distinct}
use strfry_namecoin_policy.Store.Laws.{All-insert, insert-Distinct, lookup-insert}
use strfry_namecoin_policy.Rules.{Rules, parse_rules_event, pick_active_rules, best_from}
use strfry_namecoin_policy.Rules.Loader.{
  Community, Loader, new_loader, parse_community, key_of, same_id, is_superseded, passes_filter,
  absorb, offer, accepted, rejected, kind_matches, FileRead, unreadable, contents, load_from_file,
  is_as_new,
}

-- The document a loader holds after it absorbs one.
abbrev absorbed : Loader → Rules → Loader
absorbed loader parsed =
    let rules_by_key = insert (key_of parsed) parsed loader.rules_by_key in
    record loader { rules_by_key = rules_by_key; active = pick_active_rules (values rules_by_key) }

-- Either an offer leaves the loader as it is and is not accepted, or it absorbs a document that
-- parses, passes the filter and is not superseded.
abbrev pub Absorbs : Runtime → Loader → Option Json → Rules → Type 0
Absorbs rt loader event parsed =
    (parse_rules_event rt event ≡ some parsed)
    × (passes_filter rt loader.community parsed ≡ some true)
    × (is_superseded (lookup (key_of parsed) loader.rules_by_key) parsed ≡ false)
    × ((offer rt loader event).0 ≡ absorbed loader parsed)
    × ((offer rt loader event).1 ≢ rejected)

pub offer-cases :
    (rt : Runtime) (loader : Loader) (event : Option Json)
    → (((offer rt loader event).0 ≡ loader) × ((offer rt loader event).1 ≢ accepted))
      ⊎ ((parsed : Rules) × Absorbs rt loader event parsed)
unfolding offer absorb
offer-cases rt loader event = elim (Bool-cases (kind_matches event)) [
  | inr other ↦ inl (rw (other) (refl, λ e. ground arith))
  | inl rules ↦ elim (Option-cases (parse_rules_event rt event)) [
    | inl malformed ↦ inl (rw (rules, malformed) (refl, λ e. ground arith))
    | inr (parsed, found) ↦ elim (Option-cases (passes_filter rt loader.community parsed)) [
      | inl stops ↦ inl (rw (rules, found, stops) (refl, λ e. ground arith))
      | inr (false, fails) ↦ inl (rw (rules, found, fails) (refl, λ e. ground arith))
      | inr (true, passes) ↦
          elim (Bool-cases (is_superseded (lookup (key_of parsed) loader.rules_by_key) parsed)) [
            | inl late ↦ inl (rw (rules, found, passes, late) (refl, λ e. ground arith))
            | inr newer ↦ inr (
              parsed,
              (
                found,
                passes,
                newer,
                rw (rules, found, passes, newer) refl,
                rw (rules, found, passes, newer) (λ e. ground arith),
              ),
            )
          ]
    ]
  ]
]

-- The document is bound to the community: its pubkey is the owner's, up to case, its d tag the
-- community's, and the community it names, if any, is this one.
pub record IsOwned (rt : Runtime) (community : Community) (r : Rules) : Type 0 where
  pub pubkey : Text
  pub signed : r.pubkey ≡ some (str pubkey)
  pub by_owner : to_lower rt pubkey ≡ community.owner_hex
  pub same_d : r.d_tag ≡ str community.d_tag
  pub bound :
      (truthy r.community_address ≡ false) ⊎ (r.community_address ≡ some (str community.address))

as_text_iff : (v : Option Json) (s : Text) → as_text v ≡ some s → v ≡ some (str s)
unfolding as_text
as_text_iff v s h = ground arith

is_text_iff : (v : Option Json) (s : Text) → is_text v s ≡ true → v ≡ some (str s)
unfolding is_text
is_text_iff (some (str t)) s h = ap (λ x. some (str x)) ((same_iff t s).0 h)
is_text_iff v s h = absurd (ground arith)

pub passes_filter-IsOwned :
    (rt : Runtime) (community : Community) (r : Rules)
    → passes_filter rt (some community) r ≡ some true
    → IsOwned rt community r
unfolding passes_filter
passes_filter-IsOwned rt community r h = elim (Option-cases (as_text r.pubkey)) [
  | inl gone ↦ absurd (ground arith)
  | inr (pubkey, found) ↦ record {
    pubkey = pubkey;
    signed = as_text_iff r.pubkey pubkey found;
    by_owner = (same_iff (to_lower rt pubkey) community.owner_hex).0 (ground arith);
    same_d = some-injective _ _ (is_text_iff (some r.d_tag) community.d_tag (ground arith));
    bound = elim (Bool-cases (truthy r.community_address)) [
      | inr free ↦ inl free
      | inl names ↦ inr (is_text_iff r.community_address community.address (ground arith))
    ];
  }
]

-- What the loader promises of its documents.
pub record IsSound (rt : Runtime) (community : Option Community) (loader : Loader) : Type 0 where
  pub same_community : loader.community ≡ community
  pub picked : loader.active ≡ pick_active_rules (values loader.rules_by_key)
  pub distinct : Distinct loader.rules_by_key
  pub filed : All (λ (e : Text × Rules). key_of e.1 ≡ e.0) loader.rules_by_key
  pub filtered :
      All (λ (e : Text × Rules). passes_filter rt community e.1 ≡ some true) loader.rules_by_key

absorbed-IsSound :
    (rt : Runtime) (community : Option Community) (loader : Loader) (parsed : Rules)
    → IsSound rt community loader
    → passes_filter rt loader.community parsed ≡ some true
    → IsSound rt community (absorbed loader parsed)
absorbed-IsSound rt community loader parsed s h = record {
  same_community = s.same_community;
  picked = refl;
  distinct = insert-Distinct (key_of parsed) parsed loader.rules_by_key s.distinct;
  filed = All-insert _ (key_of parsed) parsed loader.rules_by_key s.filed refl;
  filtered =
      All-insert _ (key_of parsed) parsed loader.rules_by_key s.filtered
        (subst (λ c. passes_filter rt c parsed ≡ some true) s.same_community h);
}

offer-IsSound :
    (rt : Runtime) (community : Option Community) (loader : Loader) (event : Option Json)
    → IsSound rt community loader
    → IsSound rt community (offer rt loader event).0
offer-IsSound rt community loader event s = elim (offer-cases rt loader event) [
  | inl kept ↦ subst (IsSound rt community) (sym kept.0) s
  | inr (parsed, (found, passes, newer, moved, answered)) ↦
      subst (IsSound rt community) (sym moved)
        (absorbed-IsSound rt community loader parsed s passes)
]

with_error-IsSound :
    (rt : Runtime) (community : Option Community) (loader : Loader) (error : Option Text)
    → IsSound rt community loader
    → IsSound rt community (record loader { last_file_error = error })
with_error-IsSound rt community loader error s = record {
  same_community = s.same_community;
  picked = s.picked;
  distinct = s.distinct;
  filed = s.filed;
  filtered = s.filtered;
}

load-IsSound :
    (rt : Runtime) (json : JsonRuntime) (community : Option Community) (error : Text)
    (read : FileRead) (loader : Loader)
    → IsSound rt community loader
    → IsSound rt community (load_from_file rt json error read loader).0
unfolding load_from_file
load-IsSound rt json community error (unreadable message) loader s =
    with_error-IsSound rt community loader (some message) s
load-IsSound rt json community error (contents raw) loader s =
    elim (Option-cases (json.parse raw)) [
      | inl bad ↦ rw (bad, load_from_file) (with_error-IsSound rt community loader _ s)
      | inr (event, found) ↦
          rw (found, load_from_file)
            (offer-IsSound rt community _ (some event)
              (with_error-IsSound rt community loader none s))
    ]

-- The loader's states: offers of events and loads of the file, in any order.
pub data Reach (rt : Runtime) (json : JsonRuntime) (start : Loader) : Loader → Type 0 where
  started : Reach rt json start start
  offered :
      {loader : Loader} (event : Option Json)
      → Reach rt json start loader
      → Reach rt json start (offer rt loader event).0
  loaded :
      {loader : Loader} (error : Text) (read : FileRead)
      → Reach rt json start loader
      → Reach rt json start (load_from_file rt json error read loader).0

abbrev blank : Option Community → Loader
blank community = record {
  community = community;
  rules_by_key = [];
  active = none;
  last_file_error = none;
}

blank-IsSound :
    (rt : Runtime) (community : Option Community) → IsSound rt community (blank community)
unfolding pick_active_rules best_from
blank-IsSound rt community = record {
  same_community = refl;
  picked = refl;
  distinct = tt;
  filed = tt;
  filtered = tt;
}

new_loader-IsSound :
    (rt : Runtime) (address : Text) {start : Loader}
    → new_loader rt address ≡ some start
    → IsSound rt start.community start
unfolding new_loader
new_loader-IsSound rt [] h =
    subst (λ l. IsSound rt l.community l) (some-injective _ _ h) (blank-IsSound rt none)
new_loader-IsSound rt (c ∷ cs) h = elim (Option-cases (parse_community rt (c ∷ cs))) [
  | inl gone ↦ absurd (ground (arith, gone))
  | inr (community, found) ↦
      let made : new_loader rt (c ∷ cs) ≡ some (blank (some community)) =
        rw (found, new_loader) refl in
      subst (λ l. IsSound rt l.community l) (some-injective _ _ (sym made ∙ h))
        (blank-IsSound rt (some community))
]

-- After any offers and loads the active document is the pick among the documents that are kept,
-- each key is kept once, with a document of that key, and every one has passed the filter of the
-- community.
pub Reach-IsSound :
    (rt : Runtime) (json : JsonRuntime) (address : Text) {start loader : Loader}
    → new_loader rt address ≡ some start
    → Reach rt json start loader
    → IsSound rt start.community loader
Reach-IsSound rt json address h started = new_loader-IsSound rt address h
Reach-IsSound rt json address {start} h (offered event r) =
    offer-IsSound rt start.community _ event (Reach-IsSound rt json address h r)
Reach-IsSound rt json address {start} h (loaded error read r) =
    load-IsSound rt json start.community error read _ (Reach-IsSound rt json address h r)

-- A loader with a community keeps no document but the owner's for that community, after any offers
-- and file loads.
pub Reach-IsOwned :
    (rt : Runtime) (json : JsonRuntime) (address : Text) {start loader : Loader}
    {community : Community}
    → new_loader rt address ≡ some start
    → start.community ≡ some community
    → Reach rt json start loader
    → All (λ (e : Text × Rules). IsOwned rt community e.1) loader.rules_by_key
Reach-IsOwned rt json address {start} {loader} {community} h k r =
    All-weaken {P = λ (e : Text × Rules). passes_filter rt start.community e.1 ≡ some true}
      {Q = λ (e : Text × Rules). IsOwned rt community e.1} loader.rules_by_key
      (λ e passes.
        passes_filter-IsOwned rt community e.1
          (subst (λ c. passes_filter rt c e.1 ≡ some true) k passes))
      (Reach-IsSound rt json address h r).filtered

not_as_new :
    (prior parsed : Rules)
    → is_as_new prior parsed ≡ false
    → (a b : ℤ) → prior.created_at ≡ some a
    → parsed.created_at ≡ some b
    → a <ℤ b
not_as_new prior parsed h a b e f = ground (arith, e, f, h)

is_num_iff : (v : Option Json) (n : ℤ) → is_num v n ≡ true → v ≡ some (num n)
unfolding is_num
is_num_iff (some (num k)) n h = ap (λ x. some (num x)) ((eqb_ℤ_iff k n).0 h)
is_num_iff v n h = absurd (ground (arith, h))

same_id_sound : (a b : Option Json) → same_id a b ≡ true → a ≡ b
unfolding same_id
same_id_sound none none h = refl
same_id_sound (some null) (some null) h = refl
same_id_sound (some (bool true)) (some (bool true)) h = refl
same_id_sound (some (bool false)) (some (bool false)) h = refl
same_id_sound (some (num k)) b h = sym (is_num_iff b k h)
same_id_sound (some (str s)) b h = sym (is_text_iff b s h)
same_id_sound a b h = absurd (ground (arith, h))

refused :
    (prior parsed : Rules)
    → same_id prior.id parsed.id ≡ false
    → is_as_new prior parsed ≡ true
    → is_superseded (some prior) parsed ≡ true
refused prior parsed e f = rw (f, e) refl

superseded-cases :
    (prior parsed : Rules)
    → is_superseded (some prior) parsed ≡ false
    → (prior.id ≡ parsed.id)
      ⊎ ((a b : ℤ) → prior.created_at ≡ some a → parsed.created_at ≡ some b → a <ℤ b)
superseded-cases prior parsed h = elim (Bool-cases (same_id prior.id parsed.id)) [
  | inl e ↦ inl (same_id_sound prior.id parsed.id e)
  | inr e ↦ inr (elim (Bool-cases (is_as_new prior parsed)) [
    | inr f ↦ not_as_new prior parsed f
    | inl f ↦ absurd (ground (arith, refused prior parsed e f))
  ])
]

-- After an offer, the document kept for a key is the one that was there, or one with the same
-- id, or, where both have a date, one with a later date than the one that was there.
pub offer-newer :
    (rt : Runtime) (loader : Loader) (event : Option Json) (key : Text) {prior : Rules}
    → lookup key loader.rules_by_key ≡ some prior
    → (lookup key (offer rt loader event).0.rules_by_key ≡ some prior)
      ⊎ ((next : Rules) × (lookup key (offer rt loader event).0.rules_by_key ≡ some next)
          × ((prior.id ≡ next.id)
              ⊎ ((a b : ℤ) → prior.created_at ≡ some a → next.created_at ≡ some b → a <ℤ b)))
offer-newer rt loader event key {prior} h = elim (offer-cases rt loader event) [
  | inl kept ↦ inl (rw kept.0 h)
  | inr (parsed, (found, passes, newer, moved, answered)) ↦
      elim (Bool-cases (same (key_of parsed) key)) [
        | inl here ↦
            let at_key =
              ap (λ k. lookup k loader.rules_by_key) ((same_iff (key_of parsed) key).0 here) ∙ h in
            inr (
              parsed,
              rw (moved, lookup-insert, here) refl,
              superseded-cases prior parsed
                  (subst (λ p. is_superseded p parsed ≡ false) at_key newer),
            )
        | inr other ↦ inl (rw (moved, lookup-insert, other) h)
      ]
]
