-- ===== src/Rules/Validator/Verdict.antt =====
-- src/nip9a-validator.js: when an event passes.
use mathlib.Core.Path.{sym, subst}
use mathlib.Core.Option.{some-injective}
use strfry_namecoin_policy.Prelude.{
  ℕ, ◌≡◌, ◌≢◌, refl, ap, ◌∙◌, ◌⊎◌, inl, inr, ◌↔◌, Bool, true, false, Option, none, some, List, [],
  ◌∷◌, arith, Any, Option-cases, Bool-cases, Any-weaken,
}
use strfry_namecoin_policy.Prelude.Int.{ℤ, pos, ◌≤ℤ◌, ◌<ℤ◌, eqb_ℤ_iff}
use strfry_namecoin_policy.Js.{Text}
use strfry_namecoin_policy.Rules.{Rules, KindRule, WotGate, Policy, allow, deny, lt_num}
use strfry_namecoin_policy.Rules.Validator.{
  policy_for, rule_for_kind, find_kind, is_kind, Context, exceeds, is_stale, any_gate, quota_used,
  gates_refuse, validate_rest, validate, is_deny, is_allow,
}
use strfry_namecoin_policy.Rules.Validator.Pubkeys.{Lists, policy_for_iff}

-- What each check asks for.
abbrev pub IsFresh : Rules → Type 0
IsFresh rules = (v c : ℤ) → rules.min_rules_created_at ≡ some v → rules.created_at ≡ some c → v ≤ℤ c

abbrev pub Fits : ℕ → Option ℤ → Type 0
Fits size max = (m : ℤ) → max ≡ some m → pos size ≤ℤ m

abbrev pub Accepts : Option (Text → Text → ℤ → Bool) → Text → WotGate → Type 0
Accepts resolver author gate =
    (resolve : Text → Text → ℤ → Bool) × (resolver ≡ some resolve)
    × (resolve author gate.root gate.depth ≡ true)

abbrev pub IsUnderQuota : Context → KindRule → Type 0
IsUnderQuota ctx rule =
    (posts : Option ℤ → Option ℤ) (count max : ℤ)
    → rule.max_per_author_per_day ≡ some max
    → ctx.posts_today_by_kind ≡ some posts
    → posts ctx.kind ≡ some count
    → count <ℤ max

-- The rule is the first of the list for the kind.
abbrev pub IsFirst : List KindRule → Option ℤ → KindRule → Type 0
IsFirst [] kind rule = ⊥
IsFirst (r ∷ rs) kind rule =
    ((kind ≡ some r.kind) × (r ≡ rule)) ⊎ ((kind ≢ some r.kind) × IsFirst rs kind rule)

pub record IsPermitted (rules : Rules) (ctx : Context) : Type 0 where
  pub fresh : IsFresh rules
  pub not_denied : ¬ Any (Lists deny ctx.author) rules.pubkey_rules
  pub rule : KindRule
  pub whitelisted : IsFirst rules.kind_rules ctx.kind rule
  pub fits_kind : Fits ctx.size_bytes rule.max_bytes
  pub fits_all : Fits ctx.size_bytes rules.max_event_size
  pub under_quota : IsUnderQuota ctx rule
  pub trusted :
      Any (Lists allow ctx.author) rules.pubkey_rules
      ⊎ (rules.wot_gates ≡ [])
      ⊎ (ctx.wot_resolver ≡ none)
      ⊎ Any (Accepts ctx.wot_resolver ctx.author) rules.wot_gates

pub is_kind_iff : (n : ℤ) (kind : Option ℤ) → (is_kind n kind ≡ true) ↔ (kind ≡ some n)
is_kind_iff n none = (λ e. absurd (ground (arith, e)), λ e. absurd (ground (arith, e)))
is_kind_iff n (some k) =
    (λ e. ap some (sym ((eqb_ℤ_iff n k).0 e)), λ e. (eqb_ℤ_iff n k).1 (sym (some-injective _ _ e)))

find_kind_iff :
    (rs : List KindRule) (kind : Option ℤ) (rule : KindRule)
    → (find_kind rs kind ≡ some rule) ↔ IsFirst rs kind rule
unfolding find_kind
find_kind_iff [] kind rule = (λ e. absurd (ground (arith, e)), λ e. absurd e)
find_kind_iff (r ∷ rs) kind rule =
    let (is, of) = is_kind_iff r.kind kind in
    elim (Bool-cases (is_kind r.kind kind)) [
      | inl this ↦ (
        λ e. inl (is this, some-injective _ _ (sym (rw (this, find_kind) refl) ∙ e)),
        λ f. elim f [
          | inl (k, same) ↦ rw (this, find_kind) (ap some same)
          | inr (other, later) ↦ absurd (other (is this))
        ],
      )
      | inr not_this ↦ (
        λ e. inr (
          λ k. absurd (ground (arith, of k)),
          (find_kind_iff rs kind rule).0 (sym (rw (not_this, find_kind) refl) ∙ e),
        ),
        λ f. elim f [
          | inl (k, same) ↦ absurd (ground (arith, of k))
          | inr (other, later) ↦ rw (not_this, find_kind) ((find_kind_iff rs kind rule).1 later)
        ],
      )
    ]

rule_for_kind_iff :
    (rules : Rules) (kind : Option ℤ) (rule : KindRule)
    → (rule_for_kind rules kind ≡ some rule) ↔ IsFirst rules.kind_rules kind rule
unfolding rule_for_kind
rule_for_kind_iff rules kind rule = find_kind_iff rules.kind_rules kind rule

Fits-iff : (size : ℕ) (max : Option ℤ) → (exceeds size max ≡ false) ↔ Fits size max
Fits-iff size none = (λ e. λ m h. absurd (ground arith), λ h. refl)
Fits-iff size (some m) = (
  λ e. λ k h. subst (λ z. pos size ≤ℤ z) (some-injective _ _ h) (ground arith),
  λ h. let f = h m refl in ground arith,
)

fresh-cases :
    (at least : Option ℤ)
    → ((elim least [ none ↦ false | some v ↦ lt_num at (some v) ]) ≡ false)
      ↔ ((v c : ℤ) → least ≡ some v → at ≡ some c → v ≤ℤ c)
fresh-cases at none = (λ e. λ v c h k. absurd (ground arith), λ h. refl)
fresh-cases none (some v) = (λ e. λ w c h k. absurd (ground arith), λ h. refl)
fresh-cases (some c) (some v) = (
  λ e. λ w d h k. grind (arith, some-injective _ _ h, some-injective _ _ k),
  λ h. let f = h v c refl refl in ground arith,
)

fresh_iff : (rules : Rules) → (is_stale rules ≡ false) ↔ IsFresh rules
fresh_iff rules = fresh-cases rules.created_at rules.min_rules_created_at

gate_iff :
    (resolve : Text → Text → ℤ → Bool) (author : Text) (gates : List WotGate)
    → (any_gate resolve author gates ≡ true)
      ↔ Any (λ (gate : WotGate). resolve author gate.root gate.depth ≡ true) gates
unfolding any_gate
gate_iff resolve author [] = (λ e. absurd (ground arith), λ a. absurd a)
gate_iff resolve author (gate ∷ gates) =
    grind (arith, gate_iff resolve author gates, Bool-cases (resolve author gate.root gate.depth))

quota-cases :
    (kind : Option ℤ) (limit : Option ℤ) (source : Option (Option ℤ → Option ℤ))
    → (quota_used limit source kind ≡ none) ↔ (
        (posts : Option ℤ → Option ℤ) (count max : ℤ)
        → limit ≡ some max
        → source ≡ some posts
        → posts kind ≡ some count
        → count <ℤ max)
unfolding quota_used
quota-cases kind none source = (λ e. λ p c m h k l. absurd (ground arith), λ h. refl)
quota-cases kind (some max) none = (λ e. λ p c m h k l. absurd (ground arith), λ h. refl)
quota-cases kind (some max) (some posts) = elim (Option-cases (posts kind)) [
  | inl gone ↦
      (λ e. λ p c m h k l. absurd (cc (ap (λ f. f kind) (some-injective _ _ k))), λ h. ground arith)
  | inr (count, found) ↦ (
    λ e.
        λ p c m h k l. grind (arith, some-injective _ _ h, ap (λ f. f kind) (some-injective _ _ k)),
    λ h. let below = h posts count max refl refl found in ground arith,
  )
]

Accepts-of :
    (resolve : Text → Text → ℤ → Bool) (author : Text) (gate : WotGate)
    → Accepts (some resolve) author gate
    → resolve author gate.root gate.depth ≡ true
Accepts-of resolve author gate (used, same_one, h) =
    subst (λ (f : Text → Text → ℤ → Bool). f author gate.root gate.depth ≡ true)
      (sym (some-injective _ _ same_one)) h

refuses_not :
    (resolve : Text → Text → ℤ → Bool) (author : Text) (g : WotGate) (gs : List WotGate)
    (policy : Option Policy)
    → is_allow policy ≡ false
    → gates_refuse (g ∷ gs) (some resolve) author policy ≡ false
    → any_gate resolve author (g ∷ gs) ≡ true
unfolding gates_refuse
refuses_not resolve author g gs policy k e = ground arith

Accepts-cases :
    (g : WotGate) (gs : List WotGate) (resolve : Text → Text → ℤ → Bool) (author : Text)
    (policy : Option Policy)
    → policy ≢ some allow
    → is_allow policy ≡ false
    → (gates_refuse (g ∷ gs) (some resolve) author policy ≡ false) ↔ (
        (policy ≡ some allow)
        ⊎ ((g ∷ gs) ≡ [])
        ⊎ (some resolve ≡ none)
        ⊎ Any (Accepts (some resolve) author) (g ∷ gs))
unfolding gates_refuse
Accepts-cases g gs resolve author policy h k =
    let (to, from) = gate_iff resolve author (g ∷ gs) in
    let passes : (Any (Accepts (some resolve) author) (g ∷ gs))
        → any_gate resolve author (g ∷ gs) ≡ true =
      λ a. from (Any-weaken _ _ (g ∷ gs) (λ x p. Accepts-of resolve author x p) a) in
    (
      λ e. inr (
          inr (
            inr (
              Any-weaken _ _ (g ∷ gs) (λ x p. (resolve, refl, p))
                (to (refuses_not resolve author g gs policy k e))))),
      λ t. elim t [
        | inl e ↦ absurd (h e)
        | inr (inl e) ↦ absurd (ground arith)
        | inr (inr (inl e)) ↦ absurd (ground arith)
        | inr (inr (inr a)) ↦ let b = passes a in rw (k, b) (ground arith)
      ],
    )

trusted-cases :
    (gates : List WotGate) (resolver : Option (Text → Text → ℤ → Bool)) (author : Text)
    (policy : Option Policy)
    → (gates_refuse gates resolver author policy ≡ false) ↔ (
        (policy ≡ some allow)
        ⊎ (gates ≡ [])
        ⊎ (resolver ≡ none)
        ⊎ Any (Accepts resolver author) gates)
unfolding gates_refuse
trusted-cases gates none author policy = (λ e. inr (inr (inl refl)), λ t. refl)
trusted-cases [] (some resolve) author policy = (λ e. inr (inl refl), λ t. ground arith)
trusted-cases (g ∷ gs) (some resolve) author none =
    Accepts-cases g gs resolve author none (λ e. cc) refl
trusted-cases (g ∷ gs) (some resolve) author (some allow) = (λ e. inl refl, λ t. refl)
trusted-cases (g ∷ gs) (some resolve) author (some deny) =
    Accepts-cases g gs resolve author (some deny) (λ e. ground arith) refl

rest_iff :
    (rules : Rules) (ctx : Context) (policy : Option Policy) (rule : KindRule)
    → (validate_rest rules ctx policy rule ≡ none) ↔ (
        (exceeds ctx.size_bytes rule.max_bytes ≡ false)
        × (exceeds ctx.size_bytes rules.max_event_size ≡ false)
        × (quota_used rule.max_per_author_per_day ctx.posts_today_by_kind ctx.kind ≡ none)
        × (gates_refuse rules.wot_gates ctx.wot_resolver ctx.author policy ≡ false))
unfolding validate_rest
rest_iff rules ctx policy rule = ground arith

not_denied_iff : (policy : Option Policy) → (is_deny policy ≡ false) ↔ (policy ≢ some deny)
not_denied_iff none = (λ e. λ h. cc, λ h. refl)
not_denied_iff (some allow) = (λ e. λ h. ground arith, λ h. refl)
not_denied_iff (some deny) = (λ e. λ h. ground arith, λ h. absurd (h refl))

stale-refused : (rules : Rules) (ctx : Context) → is_stale rules ≡ true → validate rules ctx ≢ none
unfolding validate
stale-refused rules ctx h = elim (Option-cases rules.min_rules_created_at) [
  | inl gone ↦ λ e. absurd (ground (arith, gone))
  | inr (v, least) ↦ λ e. ground (arith, least)
]

denied-refused :
    (rules : Rules) (ctx : Context)
    → is_stale rules ≡ false
    → is_deny (policy_for rules ctx.author) ≡ true
    → validate rules ctx ≢ none
unfolding validate
denied-refused rules ctx h k = rw (h, k) (λ e. ground arith)

kind-refused :
    (rules : Rules) (ctx : Context)
    → is_stale rules ≡ false
    → is_deny (policy_for rules ctx.author) ≡ false
    → rule_for_kind rules ctx.kind ≡ none
    → validate rules ctx ≢ none
unfolding validate
kind-refused rules ctx h k f = rw (h, k, f) (λ e. ground arith)

validate-rest :
    (rules : Rules) (ctx : Context) (rule : KindRule)
    → is_stale rules ≡ false
    → is_deny (policy_for rules ctx.author) ≡ false
    → rule_for_kind rules ctx.kind ≡ some rule
    → validate rules ctx ≡ validate_rest rules ctx (policy_for rules ctx.author) rule
unfolding validate
validate-rest rules ctx rule h k f = rw (h, k, f)

validate_step :
    (rules : Rules) (ctx : Context)
    → (validate rules ctx ≡ none)
    → (is_stale rules ≡ false)
      × (policy_for rules ctx.author ≢ some deny)
      × ((rule : KindRule) × (rule_for_kind rules ctx.kind ≡ some rule)
          × (validate_rest rules ctx (policy_for rules ctx.author) rule ≡ none))
validate_step rules ctx e = elim (Bool-cases (is_stale rules)) [
  | inl stale ↦ absurd (stale-refused rules ctx stale e)
  | inr fresh ↦ elim (Bool-cases (is_deny (policy_for rules ctx.author))) [
    | inl denied ↦ absurd (denied-refused rules ctx fresh denied e)
    | inr free ↦ elim (Option-cases (rule_for_kind rules ctx.kind)) [
      | inl gone ↦ absurd (kind-refused rules ctx fresh free gone e)
      | inr (rule, found) ↦ (
        fresh,
        (not_denied_iff (policy_for rules ctx.author)).0 free,
        (rule, found, sym (validate-rest rules ctx rule fresh free found) ∙ e),
      )
    ]
  ]
]

-- The checks pass exactly for an event that the document permits: the document is no older than
-- it says the rules must be, no rule denies the author, the document has a rule for the kind,
-- the first of these rules gives the size limit and the daily quota of the kind, and they and
-- the document's size limit are kept, and, unless a rule allows the author, there is no
-- web-of-trust gate, no resolver for them, or one that accepts.
pub validate-IsPermitted :
    (rules : Rules) (ctx : Context) → (validate rules ctx ≡ none) ↔ IsPermitted rules ctx
validate-IsPermitted rules ctx =
    let (denied, allowed) = policy_for_iff rules ctx.author in
    (
      λ e.
          let (a, b, (rule, c, d)) = validate_step rules ctx e in
          let (x, y, z, w) = (rest_iff rules ctx (policy_for rules ctx.author) rule).0 d in
          record {
            fresh = (fresh_iff rules).0 a;
            not_denied = λ n. b (denied.1 n);
            rule = rule;
            whitelisted = (rule_for_kind_iff rules ctx.kind rule).0 c;
            fits_kind = (Fits-iff ctx.size_bytes rule.max_bytes).0 x;
            fits_all = (Fits-iff ctx.size_bytes rules.max_event_size).0 y;
            under_quota =
                (quota-cases ctx.kind rule.max_per_author_per_day ctx.posts_today_by_kind).0 z;
            trusted =
                elim ((trusted-cases rules.wot_gates ctx.wot_resolver ctx.author
                    (policy_for rules ctx.author)).0
                  w) [ inl a ↦ inl (allowed.0 a).1 | inr t ↦ inr t ];
          },
      λ (p : IsPermitted rules ctx).
          validate-rest rules ctx p.rule ((fresh_iff rules).1 p.fresh)
            ((not_denied_iff (policy_for rules ctx.author)).1 (λ n. p.not_denied (denied.0 n)))
            ((rule_for_kind_iff rules ctx.kind p.rule).1 p.whitelisted)
          ∙ (rest_iff rules ctx (policy_for rules ctx.author) p.rule).1 (
            (Fits-iff ctx.size_bytes p.rule.max_bytes).1 p.fits_kind,
            (Fits-iff ctx.size_bytes rules.max_event_size).1 p.fits_all,
            (quota-cases ctx.kind p.rule.max_per_author_per_day ctx.posts_today_by_kind).1
                p.under_quota,
            (trusted-cases rules.wot_gates ctx.wot_resolver ctx.author
                  (policy_for rules ctx.author)).1
                (elim p.trusted [ inl a ↦ inl (allowed.1 (p.not_denied, a)) | inr t ↦ inr t ]),
          ),
    )
