-- ===== src/Handler/Media.antt =====
-- src/index.js: which notes carry media, and which authors the document in force allows.
use mathlib.Core.Path.{sym, subst}
use mathlib.Core.Option.{some-injective}
use strfry_namecoin_policy.Prelude.{
  ◌≡◌, refl, ap, ◌∙◌, true, Option, none, some, ◌↔◌, inl, inr, Option-cases, Bool-cases, arith,
  List, [], ◌∷◌, Any, get_elem?,
}
use strfry_namecoin_policy.Js.{Text, txt, same_iff}
use strfry_namecoin_policy.Js.Json.{Json, str, prop, as_array, is_text}
use strfry_namecoin_policy.Rules.{Rules, PubkeyRule, allow}
use strfry_namecoin_policy.Rules.Loader.{Loader}
use strfry_namecoin_policy.Rules.Validator.Pubkeys.{Lists}
use strfry_namecoin_policy.Handler.{
  is_imeta, any_imeta, has_imeta_tag, allows, any_allows, is_whitelisted,
}

-- Some tag of the event is a list that starts with the text "imeta".
abbrev pub HasMedia : Json → Type 0
HasMedia event =
    (tags : List Json) × (as_array (prop event (txt "tags")) ≡ some tags)
    × Any
        (λ tag.
          (parts : List Json) × (as_array (some tag) ≡ some parts)
          × (get_elem? parts 0 ≡ some (str (txt "imeta"))))
        tags

-- A rule of the document in force allows the author by name.
abbrev pub IsAllowed : Option Loader → Text → Type 0
IsAllowed nip9a pubkey =
    (loader : Loader) × (rules : Rules) × (nip9a ≡ some loader)
    × (loader.active ≡ some rules)
    × Any (Lists allow pubkey) rules.pubkey_rules

is_text_iff : (v : Option Json) (s : Text) → (is_text v s ≡ true) ↔ (v ≡ some (str s))
unfolding is_text
is_text_iff v s = (to v, λ e. rw e ((same_iff s s).1 refl))
  where
    to : (w : Option Json) → is_text w s ≡ true → w ≡ some (str s)
    to (some (str t)) h = ap (λ x. some (str x)) ((same_iff t s).0 h)
    to w h = absurd (ground (arith, h))

abbrev IsMediaTag : Json → Type 0
IsMediaTag tag =
    (parts : List Json) × (as_array (some tag) ≡ some parts)
    × (get_elem? parts 0 ≡ some (str (txt "imeta")))

is_imeta_iff : (tag : Json) → (is_imeta tag ≡ true) ↔ IsMediaTag tag
is_imeta_iff tag = elim (Option-cases (as_array (some tag))) [
  | inl other ↦
      (λ e. absurd (ground (arith, e, other)), λ m. absurd (ground (arith, sym other ∙ m.1)))
  | inr (parts, found) ↦
      let (to, of) = is_text_iff (get_elem? parts 0) (txt "imeta") in
      (
        λ e. (parts, found, to (sym (rw (found, is_imeta) refl) ∙ e)),
        λ m.
            rw (found, is_imeta)
              (of (ap (λ ps. get_elem? ps 0) (some-injective _ _ (sym found ∙ m.1)) ∙ m.2)),
      )
]

any_imeta_iff : (tags : List Json) → (any_imeta tags ≡ true) ↔ Any IsMediaTag tags
unfolding any_imeta
any_imeta_iff [] = (λ e. absurd (ground (arith, e)), λ a. absurd a)
any_imeta_iff (tag ∷ tags) =
    grind (arith, is_imeta_iff tag, any_imeta_iff tags, Bool-cases (is_imeta tag))

pub has_imeta_tag_iff : (event : Json) → (has_imeta_tag event ≡ true) ↔ HasMedia event
unfolding has_imeta_tag
has_imeta_tag_iff event = elim (Option-cases (as_array (prop event (txt "tags")))) [
  | inl other ↦
      (λ e. absurd (ground (arith, e, other)), λ m. absurd (ground (arith, sym other ∙ m.1)))
  | inr (tags, found) ↦ (
    λ e. (tags, found, (any_imeta_iff tags).0 (sym (rw (found, has_imeta_tag) refl) ∙ e)),
    λ m.
        rw (found, has_imeta_tag)
          ((any_imeta_iff tags).1
            (subst (Any IsMediaTag) (some-injective _ _ (sym m.1 ∙ found)) m.2)),
  )
]

allows_iff :
    (rule : PubkeyRule) (pubkey : Text) → (allows rule pubkey ≡ true) ↔ Lists allow pubkey rule
allows_iff rule pubkey = grind (arith, same_iff rule.pubkey pubkey)

any_allows_iff :
    (rules : List PubkeyRule) (pubkey : Text)
    → (any_allows rules pubkey ≡ true) ↔ Any (Lists allow pubkey) rules
unfolding any_allows
any_allows_iff [] pubkey = (λ e. absurd (ground (arith, e)), λ a. absurd a)
any_allows_iff (rule ∷ rules) pubkey =
    grind
      (arith, allows_iff rule pubkey, any_allows_iff rules pubkey, Bool-cases (allows rule pubkey))

pub is_whitelisted_iff :
    (nip9a : Option Loader) (pubkey : Text)
    → (is_whitelisted nip9a pubkey ≡ true) ↔ IsAllowed nip9a pubkey
unfolding is_whitelisted
is_whitelisted_iff none pubkey =
    (λ e. absurd (ground (arith, e)), λ a. absurd (ground (arith, a.2)))
is_whitelisted_iff (some loader) pubkey = elim (Option-cases loader.active) [
  | inl gone ↦ (
    λ e. absurd (ground (arith, e, gone)),
    λ (l, rules, same_one, active, a).
        absurd
          (ground (arith, sym gone ∙ ap (λ x. x.active) (some-injective _ _ same_one) ∙ active)),
  )
  | inr (rules, found) ↦ (
    λ e. (
      loader,
      rules,
      refl,
      found,
      (any_allows_iff rules.pubkey_rules pubkey).0 (sym (rw found refl) ∙ e),
    ),
    λ (l, other, same_one, active, a). rw found (
        (any_allows_iff rules.pubkey_rules pubkey).1 (
          subst (λ (r : Rules). Any (Lists allow pubkey) r.pubkey_rules)
            (some-injective _ _ (
              sym active
              ∙ ap (λ (x : Loader). x.active) (sym (some-injective _ _ same_one))
              ∙ found))
            a)),
  )
]
