-- ===== src/Rules/Validator.antt =====
-- src/nip9a-validator.js: the checks of one event against a rules document.
pub mod Pubkeys
pub mod Verdict
use strfry_namecoin_policy.Prelude.{
  ℕ, zero, suc, ◌+◌, Bool, true, false, not, ◌&&◌, ◌||◌, Option, none, some, List, [], ◌∷◌, length,
  ltb, leb, ◌==◌, if◌then◌else◌,
}
use strfry_namecoin_policy.Prelude.Int.{ℤ, pos, negsuc, ltb_ℤ, leb_ℤ, eqb_ℤ}
use strfry_namecoin_policy.Js.{Text, same, byte_length}
use strfry_namecoin_policy.Js.Json.{Json, JsonRuntime}
use strfry_namecoin_policy.Rules.{Rules, KindRule, PubkeyRule, WotGate, Policy, allow, deny, lt_num}

-- The first failure; a time or a kind that is no number is `none`.
pub data Violation : Type 0 where
  stale_rules : (rules_created_at : Option ℤ) (min_rules_created_at : ℤ) → Violation
  author_denied : (author : Text) → Violation
  kind_not_allowed : (kind : Option ℤ) → Violation
  kind_size_exceeded : (kind : Option ℤ) (size_bytes : ℕ) (max_bytes : ℤ) → Violation
  max_size_exceeded : (size_bytes : ℕ) (max_bytes : ℤ) → Violation
  quota_exceeded : (kind : Option ℤ) (posts_today max_per_day : ℤ) → Violation
  wot_gate_failed : (gate_count : ℕ) → Violation

-- The loop of `policyFor`, with the variable `allow`.
unfoldable pub policy_from : Option Policy → List PubkeyRule → Text → Option Policy
policy_from found [] pubkey = found
policy_from found (rule ∷ rules) pubkey =
    let rest = policy_from found rules pubkey in
    let allowed = policy_from (some allow) rules pubkey in
    if not (same rule.pubkey pubkey)
    then rest
    else elim rule.policy [ deny ↦ some deny | allow ↦ allowed ]

unfoldable pub policy_for : Rules → Text → Option Policy
policy_for rules pubkey = policy_from none rules.pubkey_rules pubkey

abbrev pub is_kind : ℤ → Option ℤ → Bool
is_kind n none = false
is_kind n (some k) = eqb_ℤ n k

unfoldable pub find_kind : List KindRule → Option ℤ → Option KindRule
find_kind [] kind = none
find_kind (r ∷ rs) kind = if is_kind r.kind kind then some r else find_kind rs kind

unfoldable pub rule_for_kind : Rules → Option ℤ → Option KindRule
rule_for_kind rules kind = find_kind rules.kind_rules kind

pub record Context : Type 0 where
  pub author : Text
  pub kind : Option ℤ
  pub size_bytes : ℕ
  pub posts_today_by_kind : Option (Option ℤ → Option ℤ)
  pub wot_resolver : Option (Text → Text → ℤ → Bool)

-- `size > max` where a maximum is set.
abbrev pub exceeds : ℕ → Option ℤ → Bool
exceeds size none = false
exceeds size (some max) = ltb_ℤ max (pos size)

-- The rules document's own ratchet.
abbrev pub is_stale : Rules → Bool
is_stale rules = elim rules.min_rules_created_at [
  | none ↦ false
  | some v ↦ lt_num rules.created_at (some v)
]

-- The loop over the gates: whether any of them accepts.
unfoldable pub any_gate : (Text → Text → ℤ → Bool) → Text → List WotGate → Bool
any_gate resolve author [] = false
any_gate resolve author (gate ∷ gates) =
    if resolve author gate.root gate.depth then true else any_gate resolve author gates

-- The posts of today that use up the quota, if they do.
unfoldable pub quota_used : Option ℤ → Option (Option ℤ → Option ℤ) → Option ℤ → Option (ℤ × ℤ)
quota_used none source kind = none
quota_used (some max) none kind = none
quota_used (some max) (some posts) kind = elim (posts kind) [
  | none ↦ none
  | some count ↦ if leb_ℤ max count then some (count, max) else none
]

abbrev pub is_allow : Option Policy → Bool
is_allow none = false
is_allow (some allow) = true
is_allow (some deny) = false

abbrev pub is_deny : Option Policy → Bool
is_deny none = false
is_deny (some allow) = false
is_deny (some deny) = true

-- Whether the gates reject, with the policy of the author and the resolver.
unfoldable pub gates_refuse :
    List WotGate → Option (Text → Text → ℤ → Bool) → Text → Option Policy → Bool
gates_refuse gates none author policy = false
gates_refuse gates (some resolve) author policy =
    if not (is_allow policy) && ltb 0 (length gates)
    then not (any_gate resolve author gates)
    else false

-- The checks from the fourth on, with the kind's rule.
unfoldable pub validate_rest : Rules → Context → Option Policy → KindRule → Option Violation
validate_rest rules ctx policy rule =
    if exceeds ctx.size_bytes rule.max_bytes
    then elim rule.max_bytes [
      | none ↦ none
      | some max ↦ some (kind_size_exceeded ctx.kind ctx.size_bytes max)
    ]
    else if exceeds ctx.size_bytes rules.max_event_size
    then elim rules.max_event_size [
      | none ↦ none
      | some max ↦ some (max_size_exceeded ctx.size_bytes max)
    ]
    else elim (quota_used rule.max_per_author_per_day ctx.posts_today_by_kind ctx.kind) [
      | some (count, max) ↦ some (quota_exceeded ctx.kind count max)
      | none ↦
          if gates_refuse rules.wot_gates ctx.wot_resolver ctx.author policy
          then some (wot_gate_failed (length rules.wot_gates))
          else none
    ]

unfoldable pub validate : Rules → Context → Option Violation
validate rules ctx =
    let policy = policy_for rules ctx.author in
    if is_stale rules
    then elim rules.min_rules_created_at [
      | none ↦ none
      | some v ↦ some (stale_rules rules.created_at v)
    ]
    else if is_deny policy
    then some (author_denied ctx.author)
    else elim (rule_for_kind rules ctx.kind) [
      | none ↦ some (kind_not_allowed ctx.kind)
      | some rule ↦ validate_rest rules ctx policy rule
    ]

unfoldable pub event_byte_size : JsonRuntime → Json → ℕ
event_byte_size json event = byte_length (json.stringify event)
