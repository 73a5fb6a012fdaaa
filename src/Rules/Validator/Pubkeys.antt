-- ===== src/Rules/Validator/Pubkeys.antt =====
-- src/nip9a-validator.js: what the rules about a pubkey amount to.
use strfry_namecoin_policy.Prelude.{
  ◌≡◌, ◌≢◌, ◌⊎◌, inl, inr, ◌↔◌, Option, none, some, List, [], ◌∷◌, arith, Any,
}
use strfry_namecoin_policy.Js.{Text, same_iff}
use strfry_namecoin_policy.Rules.{Rules, PubkeyRule, Policy, allow, deny}
use strfry_namecoin_policy.Rules.Validator.{policy_from, policy_for}

-- A rule of the document about a pubkey.
abbrev pub Lists : Policy → Text → PubkeyRule → Type 0
Lists policy pubkey rule = (rule.pubkey ≡ pubkey) × (rule.policy ≡ policy)

policy_from-deny :
    (found : Option Policy) (rules : List PubkeyRule) (pubkey : Text)
    → found ≢ some deny
    → (policy_from found rules pubkey ≡ some deny) ↔ Any (Lists deny pubkey) rules
unfolding policy_from
policy_from-deny found [] pubkey h = (λ e. h e, λ a. absurd a)
policy_from-deny found (rule ∷ rules) pubkey h = grind (
  arith,
  same_iff rule.pubkey pubkey,
  policy_from-deny found rules pubkey h,
  policy_from-deny (some allow) rules pubkey (λ e. cc),
)

policy_from-allow :
    (found : Option Policy) (rules : List PubkeyRule) (pubkey : Text)
    → found ≢ some deny
    → (policy_from found rules pubkey ≡ some allow) ↔ (
        (¬ Any (Lists deny pubkey) rules) × ((found ≡ some allow) ⊎ Any (Lists allow pubkey) rules))
unfolding policy_from
policy_from-allow found [] pubkey h =
    (λ e. (λ a. a, inl e), λ p. elim p.1 [ inl e ↦ e | inr a ↦ absurd a ])
policy_from-allow found (rule ∷ rules) pubkey h = grind (
  arith,
  same_iff rule.pubkey pubkey,
  policy_from-allow found rules pubkey h,
  policy_from-allow (some allow) rules pubkey (λ e. cc),
)

-- A pubkey is denied exactly where some rule denies it, whatever other rules allow it; it is
-- allowed exactly where some rule allows it and none denies it.
pub policy_for_iff :
    (rules : Rules) (pubkey : Text)
    → ((policy_for rules pubkey ≡ some deny) ↔ Any (Lists deny pubkey) rules.pubkey_rules)
      × ((policy_for rules pubkey ≡ some allow) ↔ (
          (¬ Any (Lists deny pubkey) rules.pubkey_rules)
          × Any (Lists allow pubkey) rules.pubkey_rules))
unfolding policy_for
policy_for_iff rules pubkey =
    let denied = policy_from-deny none rules.pubkey_rules pubkey (λ e. cc) in
    let (to, from) = policy_from-allow none rules.pubkey_rules pubkey (λ e. cc) in
    (
      denied,
      (
        λ e. ((to e).0, elim (to e).1 [ inl e ↦ absurd (ground arith) | inr a ↦ a ]),
        λ p. from (p.0, inr p.1),
      ),
    )
