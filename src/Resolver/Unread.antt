-- ===== src/Resolver/Unread.antt =====
-- src/resolver.js: which values `classifyParseFailure` takes for unreadable.
use mathlib.Core.Path.{sym, subst}
use mathlib.Core.Option.{some-injective}
use strfry_namecoin_policy.Prelude.{
  ◌≡◌, ◌≢◌, refl, ◌∙◌, true, false, none, some, [], ◌∷◌, ◌⊎◌, inl, inr, ◌↔◌, length, Bool-cases,
  Option-cases, arith, ◌||◌, not, if◌then◌else◌, ◌==◌,
}
use strfry_namecoin_policy.Js.{Text, txt}
use strfry_namecoin_policy.Js.Json.{Json, JsonRuntime, as_array, is_object, is_nullish, prop}
use strfry_namecoin_policy.Resolver.{classify_parse_failure, is_array}

-- A document that is not an object (a list is none), or has no `nostr` field.
abbrev pub IsBare : Json → Type 0
IsBare doc =
    (is_object (some doc) ≡ false)
    ⊎ (as_array (some doc) ≢ none)
    ⊎ (is_nullish (prop doc (txt "nostr")) ≡ true)

-- The value is empty, or not JSON, or such a document.
abbrev pub IsUnread : JsonRuntime → Text → Type 0
IsUnread json value =
    (value ≡ [])
    ⊎ (json.parse value ≡ none)
    ⊎ ((doc : Json) × (json.parse value ≡ some doc) × IsBare doc)

array-cases : (doc : Json) → (is_array doc ≡ true) ↔ (as_array (some doc) ≢ none)
array-cases doc = elim (Option-cases (as_array (some doc))) [
  | inl none_there ↦ (λ e. absurd (ground (arith, e, none_there)), λ h. absurd (h none_there))
  | inr (vs, found) ↦ (λ e. λ h. absurd (ground (arith, h, found)), λ h. rw (found, is_array) refl)
]

IsBare-iff :
    (doc : Json)
    → ((if not (is_object (some doc)) || is_array doc
          then true
          else is_nullish (prop doc (txt "nostr")))
        ≡ true)
      ↔ IsBare doc
IsBare-iff doc = grind (
  arith,
  array-cases doc,
  Bool-cases (is_object (some doc)),
  Bool-cases (is_array doc),
  Bool-cases (is_nullish (prop doc (txt "nostr"))),
)

pub classify_iff :
    (json : JsonRuntime) (value : Text)
    → (classify_parse_failure json value ≡ true) ↔ IsUnread json value
unfolding classify_parse_failure
classify_iff json [] = (λ e. inl refl, λ u. refl)
classify_iff json (c ∷ cs) =
    let filled : (length (c ∷ cs) == 0) ≡ false = ground arith in
    elim (Option-cases (json.parse (c ∷ cs))) [
      | inl bad ↦ (λ e. inr (inl bad), λ u. rw (filled, bad, classify_parse_failure) refl)
      | inr (doc, read) ↦ (
        λ e. inr (
            inr (
              doc,
              read,
              (IsBare-iff doc).0 (sym (rw (filled, read, classify_parse_failure) refl) ∙ e),
            )),
        λ u. elim u [
          | inl empty ↦ absurd (ground (arith, empty))
          | inr (inl bad) ↦ absurd (ground (arith, bad, read))
          | inr (inr (other, again, why)) ↦
              rw (filled, read, classify_parse_failure)
                ((IsBare-iff doc).1 (subst IsBare (some-injective _ _ (sym again ∙ read)) why))
        ],
      )
    ]
