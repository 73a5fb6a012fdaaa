-- ===== src/Circuit/Pick.antt =====
-- src/circuit.js: which host `pickNext` picks.
use mathlib.Core.Path.{subst}
use mathlib.Core.Option.{some-injective}
use native.Mathlib.Decide.{dec_lt, ℕ_discrete}
use strfry_namecoin_policy.Prelude.{
  ℕ, zero, suc, ◌+◌, ◌-◌, ◌%◌, ◌<◌, ◌≤◌, ◌≡◌, refl, true, false, none, some, List, map, length,
  get_elem?, arith, Option-cases, ◌∙◌, inl, inr, length-map, Bool-cases, ◌⊎◌, ◌↔◌, sym,
}
use strfry_namecoin_policy.Circuit.{
  closed, half_open, HostState, HostBreaker, cool, scan, pick_next, is_available, Picked,
}
use strfry_namecoin_policy.Circuit.Step.{IsValid}

-- A healthy host, or one that is half-open and has no probe in flight.
abbrev pub CanProbe : HostState → Type 0
CanProbe s = (s.phase ≡ closed) ⊎ ((s.phase ≡ half_open) × (s.half_open_in_flight ≡ false))

pub is_available_iff : (s : HostState) → (is_available s ≡ true) ↔ CanProbe s
unfolding is_available
is_available_iff s = ground arith

pub is_available-refused : (s : HostState) → (is_available s ≡ false) ↔ (¬ CanProbe s)
unfolding is_available
is_available-refused s = ground arith

abbrev pub IsBlocked : List HostState → ℕ → Type 0
IsBlocked state i = (s : HostState) → get_elem? state i ≡ some s → ¬ CanProbe s

abbrev pub IsTryable : List HostState → ℕ → Type 0
IsTryable state i = (s : HostState) × (get_elem? state i ≡ some s) × CanProbe s

IsTryable-or_IsBlocked : (state : List HostState) (i : ℕ) → IsTryable state i ⊎ IsBlocked state i
IsTryable-or_IsBlocked state i = elim (Option-cases (get_elem? state i)) [
  | inl out ↦ inr (λ t e. cc)
  | inr (s, found) ↦ elim (Bool-cases (is_available s)) [
    | inl free ↦ inl (s, found, (is_available_iff s).0 free)
    | inr taken ↦ inr (λ t e.
        subst (λ u. ¬ CanProbe u) (some-injective _ _ (sym found ∙ e))
          ((is_available-refused s).0 taken))
  ]
]

module _ (state : List HostState) (cursor : ℕ) where
  abbrev slot : ℕ → ℕ
  slot k = (cursor + k) % length state

  scan-zero-ne-some : (step : ℕ) {idx : ℕ} → scan state cursor step zero ≡ some idx → ⊥
  unfolding scan
  scan-zero-ne-some step e = cc

  scan_tryable :
      (step left : ℕ)
      → IsTryable state (slot step)
      → scan state cursor step (suc left) ≡ some (slot step)
  unfolding scan
  scan_tryable step left (s, found, free) =
      let open_to = (is_available_iff s).1 free in rw (found, open_to, scan)

  scan_blocked :
      (step left : ℕ)
      → IsBlocked state (slot step)
      → scan state cursor step (suc left) ≡ scan state cursor (step + 1) left
  unfolding scan
  scan_blocked step left h = elim (Option-cases (get_elem? state (slot step))) [
    | inl out ↦ ground arith
    | inr (s, found) ↦ let shut = (is_available-refused s).1 (h s found) in rw (found, shut, scan)
  ]

  IsBlocked-here :
      (step : ℕ)
      → IsBlocked state (slot step)
      → (j : ℕ) → step ≤ j
      → ((step + 1 ≤ j) → IsBlocked state (slot j))
      → IsBlocked state (slot j)
  IsBlocked-here step here j lo later = elim (ℕ_discrete step j) [
    | yes e ↦ subst (λ m. IsBlocked state (slot m)) e here
    | no ne ↦ later (omega arith)
  ]

  -- The scan stops at the first host, in the order of the walk, that can be tried.
  scan-some :
      (step left : ℕ) {idx : ℕ}
      → scan state cursor step left ≡ some idx
      → (k : ℕ) × (step ≤ k)
        × (k < step + left)
        × (idx ≡ slot k)
        × IsTryable state (slot k)
        × ((j : ℕ) → step ≤ j → j < k → IsBlocked state (slot j))
  scan-some step zero e = absurd (scan-zero-ne-some step e)
  scan-some step (suc left) {idx} e = elim (IsTryable-or_IsBlocked state (slot step)) [
    | inl here ↦ (
      step,
      omega arith,
      omega arith,
      cc (scan_tryable step left here),
      here,
      λ j lo hi. absurd (omega arith),
    )
    | inr here ↦
        let (k, lo, hi, same, free, before) =
          scan-some (step + 1) left {idx = idx} (sym (scan_blocked step left here) ∙ e) in
        (
          k,
          omega arith,
          omega arith,
          same,
          free,
          λ j low high. IsBlocked-here step here j low (λ up. before j up high),
        )
  ]

  scan-none :
      (step left : ℕ)
      → scan state cursor step left ≡ none
      → (j : ℕ) → step ≤ j
      → j < step + left
      → IsBlocked state (slot j)
  scan-none step zero e j lo hi = absurd (omega arith)
  scan-none step (suc left) e j lo hi = elim (IsTryable-or_IsBlocked state (slot step)) [
    | inl here ↦ absurd (ground (arith, scan_tryable step left here))
    | inr here ↦
        IsBlocked-here step here j lo (λ up.
          scan-none (step + 1) left (sym (scan_blocked step left here) ∙ e) j up (omega arith))
  ]

-- Going round from any cursor meets every index.
slot_of : (n c i : ℕ) → c < n → i < n → (k : ℕ) × (k < n) × ((c + k) % n ≡ i)
slot_of n c i hc hi = elim (dec_lt i c) [
  | yes below ↦ (i + n - c, omega arith, grind arith)
  | no above ↦ (i - c, omega arith, grind arith)
]

-- What a pick says and does: `free` when it found a host that can be tried, `forced` when every
-- host is blocked. `state` is the registry's state once the cooldowns that have run out are over.
pub data Verdict (state : List HostState) (cursor n : ℕ) (p : Picked) : Type 0 where
  free :
      p.all_open ≡ false
      → IsTryable state p.index
      → (k : ℕ) → k < n
      → p.index ≡ (cursor + k) % n
      → ((j : ℕ) → j < k → IsBlocked state ((cursor + j) % n))
      → Verdict state cursor n p
  forced :
      p.all_open ≡ true
      → p.index ≡ cursor
      → ((i : ℕ) → i < n → IsBlocked state i)
      → Verdict state cursor n p

pub record IsFair (now : ℕ) (b : HostBreaker) (after : HostBreaker) (p : Picked) : Type 0 where
  pub in_range : p.index < length b.hosts
  pub host : p.host ≡ get_elem? b.hosts p.index
  pub cursor : after.cursor ≡ (p.index + 1) % length b.hosts
  pub verdict : Verdict (map (cool now) b.state) b.cursor (length b.hosts) p

all-IsBlocked :
    (state : List HostState) (c n : ℕ)
    → length state ≡ n
    → c < n
    → scan state c 0 n ≡ none
    → (i : ℕ) → i < n
    → IsBlocked state i
all-IsBlocked state c n len hc full i hi =
    let (k, hk, same) = slot_of n c i hc hi in
    let at : (c + k) % length state ≡ i = rw len same in
    subst (IsBlocked state) at (scan-none state c 0 n full k (omega arith) (omega arith))

-- A pick in a well-formed registry always answers with one of the hosts, and moves the cursor to
-- the place after it. Where some host can be tried (it is closed, its cooldown is over, or it is
-- half-open with no probe in flight) the answer is the first such host from the cursor on, and the
-- flag is false; the flag is true exactly where every host is blocked, and the answer is then the
-- host at the cursor.
pub pick_next-IsFair :
    (now : ℕ) (b : HostBreaker) → IsValid b → IsFair now b (pick_next now b).0 (pick_next now b).1
unfolding pick_next
pick_next-IsFair now b h =
    let state = map (cool now) b.state in
    let n = length b.hosts in
    let len : length state ≡ n = length-map (cool now) b.state ∙ h.paired in
    let in_range = h.in_range in
    let at_cursor : b.cursor % n ≡ b.cursor = grind arith in
    elim (Option-cases (scan state b.cursor 0 n)) [
      | inl full ↦
          rw (full, pick_next)
            (record {
              in_range = omega arith;
              host = refl;
              cursor = refl;
              verdict = forced refl at_cursor (all-IsBlocked state b.cursor n len in_range full);
            })
      | inr (idx, found) ↦
          let (k, lo, hi, same, free_at, before) = scan-some state b.cursor 0 n {idx = idx} found in
          let same' : idx ≡ (b.cursor + k) % n = rw len at same in
          let mine : IsTryable state idx = subst (IsTryable state) (sym same) free_at in
          rw (found, pick_next)
            (record {
              in_range = omega arith;
              host = refl;
              cursor = refl;
              verdict = free refl mine k (omega arith) same' (λ j below.
                  subst (λ m. IsBlocked state ((b.cursor + j) % m)) len
                    (before j (omega arith) below));
            })
    ]
