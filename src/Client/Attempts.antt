-- ===== src/Client/Attempts.antt =====
-- src/electrumx.js: how the attempts of `nameShow` go, and what it answers.
use mathlib.Core.Path.{subst}
use strfry_namecoin_policy.Prelude.{
  ℕ, zero, suc, ◌+◌, ◌≤◌, ◌<◌, ◌≡◌, refl, ◌⊎◌, inl, inr, true, false, ◌||◌, Option, some, List, ltb,
  ◌==◌, arith, Bool-cases,
}
use strfry_namecoin_policy.Prelude.Int.{ℤ, pos, negsuc}
use strfry_namecoin_policy.Js.{Text, Runtime, byte_length}
use strfry_namecoin_policy.Js.Json.{Json}
use strfry_namecoin_policy.Circuit.{Picked, pick_next, record_success, record_failure}
use strfry_namecoin_policy.Circuit.Step.{
  IsValid, pick_next-IsValid, record_success-IsValid, record_failure-IsValid,
}
use strfry_namecoin_policy.History.{
  NameRow, Outcome, missing, found, failed, TipCache, Server, run_resolve,
}
use strfry_namecoin_policy.History.Select.{IsCurrent}
use strfry_namecoin_policy.History.Resolve.{Reached, IsFreshTip}
use strfry_namecoin_policy.Client.{
  Client, Network, Link, refused, linked, query_on_host, Shown, row, no_row, threw, settle,
  try_host, attempts, name_show, max_attempts, namecoin_name_max_bytes,
}

-- The attempts that the setting of the retries allows: one more than these, and none below 0.
abbrev pub Allows : ℤ → ℕ → Type 0
Allows retries n =
    ((k : ℕ) × (retries ≡ pos k) × (n ≡ k + 1)) ⊎ ((k : ℕ) × (retries ≡ negsuc k) × (n ≡ 0))

max_attempts-Allows : (retries : ℤ) → Allows retries (max_attempts retries)
max_attempts-Allows (pos k) = inl (k, refl, refl)
max_attempts-Allows (negsuc k) = inr (k, refl, refl)

module _ (rt : Runtime) (net : Network) (name : Text) where
  -- What a lookup over a connection comes to, and the cached tip that it leaves: it fails
  -- without being definitive where no connection comes about or where it is lost; else the
  -- server's answers decide.
  pub data Asks (link : Link) (m now : ℕ) (cache after : TipCache) (o : Outcome) : Type 0 where
    unreached : link ≡ refused → after ≡ cache → o ≡ failed false → Asks link m now cache after o
    broken :
        (server : Server)
        → link ≡ linked server true
        → after ≡ (run_resolve rt server (some (pos m)) name now cache).0
        → o ≡ failed false
        → Asks link m now cache after o
    answered :
        (server : Server)
        → link ≡ linked server false
        → after ≡ (run_resolve rt server (some (pos m)) name now cache).0
        → o ≡ (run_resolve rt server (some (pos m)) name now cache).1
        → Asks link m now cache after o

  -- The host that the attempt `j` tries.
  abbrev pub picked : ℕ → Client → Picked
  picked j b = (pick_next (net.picked_at j) b.breaker).1

  -- The attempt `j` tries the picked host, with this outcome, and leaves this tip.
  abbrev pub Tries : ℕ → Client → TipCache → Outcome → Type 0
  Tries j b tip o =
      Asks (net.link j (picked j b).host) b.min_confirmations (net.asked_at j) b.tip tip o

  -- The client once the attempt `j` has its outcome; once it is recorded as a failure of the
  -- host; as a success.
  abbrev pub tried : ℕ → Client → TipCache → Client
  tried j b tip = record b { breaker = (pick_next (net.picked_at j) b.breaker).0; tip = tip }

  abbrev pub failing : ℕ → Client → TipCache → Client
  failing j b tip = record (tried j b tip) {
    breaker = record_failure (net.failed_at j) (picked j b).index (tried j b tip).breaker;
  }

  abbrev pub succeeding : ℕ → Client → TipCache → Client
  succeeding j b tip = record (tried j b tip) {
    breaker = record_success (picked j b).index (tried j b tip).breaker;
  }

  -- From the attempt `i` with the client `c` on, every attempt before `j` fails without being
  -- definitive, and leaves the client `b`.
  pub data Fails : ℕ → Client → ℕ → Client → Type 0 where
    arrived : {j : ℕ} {b : Client} → Fails j b j b
    later :
        {i j : ℕ} {c b : Client} (tip : TipCache)
        → Tries i c tip (failed false)
        → Fails (i + 1) (failing i c tip) j b
        → Fails i c j b

  -- The attempt `j` ends the call with this result.
  abbrev pub Ends : ℕ → Client → Client × Shown → Type 0
  Ends j b result =
      (tip : TipCache) × (((r : NameRow) × Tries j b tip (found r)
          × (result ≡ (succeeding j b tip, row r)))
        ⊎ (Tries j b tip missing × (result ≡ (succeeding j b tip, no_row)))
        ⊎ (Tries j b tip (failed true) × (result ≡ (tried j b tip, threw true))))

  abbrev pub Loops : ℕ → ℕ → Client → Client × Shown → Type 0
  Loops left i c result =
      (j : ℕ) × (b : Client) × Fails i c j b
      × (((j ≡ i + left) × (result ≡ (b, threw false))) ⊎ ((j < i + left) × Ends j b result))

  query-Asks :
      (link : Link) (m now : ℕ) (cache : TipCache)
      → Asks link m now cache
          (query_on_host rt link name m now cache).0
          (query_on_host rt link name m now cache).1
  unfolding query_on_host
  query-Asks refused m now cache = unreached refl refl refl
  query-Asks (linked server true) m now cache = broken server refl refl refl
  query-Asks (linked server false) m now cache = answered server refl refl refl

  abbrev outcome : ℕ → Client → Outcome
  outcome j b = (try_host rt net name j b).1.1

  abbrev tip_after : ℕ → Client → TipCache
  tip_after j b = (try_host rt net name j b).0.tip

  outcome-Tries : (j : ℕ) (b : Client) {o : Outcome} → outcome j b ≡ o → Tries j b (tip_after j b) o
  unfolding try_host
  outcome-Tries j b e =
      subst (Tries j b (tip_after j b)) e
        (query-Asks (net.link j (picked j b).host) b.min_confirmations (net.asked_at j) b.tip)

  Outcome-cases :
      (o : Outcome)
      → ((r : NameRow) × (o ≡ found r)) ⊎ (o ≡ missing) ⊎ (o ≡ failed true) ⊎ (o ≡ failed false)
  Outcome-cases missing = inr (inl refl)
  Outcome-cases (found r) = inl (r, refl)
  Outcome-cases (failed true) = inr (inr (inl refl))
  Outcome-cases (failed false) = inr (inr (inr refl))

  pub attempts-Loops : (left i : ℕ) (c : Client) → Loops left i c (attempts rt net name left i c)
  unfolding attempts settle try_host
  attempts-Loops zero i c = (i, c, arrived, inl (omega arith, refl))
  attempts-Loops (suc left) i c = elim (Outcome-cases (outcome i c)) [
    | inl (r, e) ↦ (
      i,
      c,
      arrived,
      inr (omega arith, (tip_after i c, inl (r, outcome-Tries i c e, rw (e, settle) refl))),
    )
    | inr (inl e) ↦ (
      i,
      c,
      arrived,
      inr (omega arith, (tip_after i c, inr (inl (outcome-Tries i c e, rw (e, settle) refl)))),
    )
    | inr (inr (inl e)) ↦ (
      i,
      c,
      arrived,
      inr (omega arith, (tip_after i c, inr (inr (outcome-Tries i c e, rw (e, settle) refl)))),
    )
    | inr (inr (inr e)) ↦
        let (j, b, fails, ends) = attempts-Loops left (i + 1) (failing i c (tip_after i c)) in
        (
          j,
          b,
          later (tip_after i c) (outcome-Tries i c e) fails,
          rw (e, settle)
              (elim ends [
                | inl (all, r) ↦ inl (omega arith, r)
                | inr (early, end) ↦ inr (omega arith, end)
              ]),
        )
  ]

  -- `nameShow` refuses a name of no byte or of more than 255 at once, with a definitive error;
  -- for any other it makes at most `retries + 1` attempts (and none for a negative setting),
  -- each on the host that the breaker picks: each before the last finds no connection, loses it
  -- or fails without being definitive, and is recorded as a failure of that host; the last
  -- answers, which is recorded as a success of its host, or fails definitively, which is not
  -- recorded, or it is the last that is allowed, and the error is not definitive.
  pub name_show-Loops :
      (c : Client)
      → ((byte_length name < 1) ⊎ (255 < byte_length name)
          → name_show rt net name c ≡ (c, threw true))
        × (0 < byte_length name
            → byte_length name ≤ 255
            → (n : ℕ) × Allows c.retries n × Loops n 0 c (name_show rt net name c))
  unfolding name_show
  name_show-Loops c =
      elim (Bool-cases
        ((byte_length name == 0) || ltb namecoin_name_max_bytes (byte_length name))) [
          | inl bad ↦ rw (bad, name_show) (λ h. refl, λ low high. absurd (ground arith))
          | inr fine ↦
              rw (fine, name_show)
                (
                  λ h. absurd (ground arith),
                  λ low high. (
                    max_attempts c.retries,
                    max_attempts-Allows c.retries,
                    attempts-Loops (max_attempts c.retries) 0 c,
                  ),
                )
        ]

  -- How a row came about: the attempt's number, the client it started from, the server that was
  -- reached and not lost, the history that it gave for the name, and the tip that it gave or
  -- that was read less than a minute before.
  pub record IsServed (r : NameRow) (c : Client) : Type 0 where
    pub attempt : ℕ
    pub retries : ℕ
    pub allowed : c.retries ≡ pos retries
    pub in_time : attempt ≤ retries
    pub from : Client
    pub before : Fails 0 c attempt from
    pub server : Server
    pub connected : net.link attempt (picked attempt from).host ≡ linked server false
    pub history : List Json
    pub reached :
        Reached rt server
          (some (pos c.min_confirmations))
          name
          (net.asked_at attempt)
          from.tip
          history
    pub tip : Option ℤ
    pub after : TipCache
    pub fresh : IsFreshTip server from.tip (net.asked_at attempt) after tip
    pub current : IsCurrent rt server.get_tx name history tip c.min_confirmations r

  failing-IsValid :
      (j : ℕ) (b : Client) (tip : TipCache) → IsValid b.breaker → IsValid (failing j b tip).breaker
  failing-IsValid j b tip v =
      record_failure-IsValid (net.failed_at j) (picked j b).index (tried j b tip).breaker
        (pick_next-IsValid (net.picked_at j) b.breaker v)

  Fails-IsValid : {i j : ℕ} {c b : Client} → Fails i c j b → IsValid c.breaker → IsValid b.breaker
  Fails-IsValid arrived v = v
  Fails-IsValid {i} {c = c} (later tip e f) v = Fails-IsValid f (failing-IsValid i c tip v)

  Ends-IsValid :
      (j : ℕ) (b : Client) (result : Client × Shown)
      → IsValid b.breaker
      → Ends j b result
      → IsValid result.0.breaker
  Ends-IsValid j b result v (tip, ends) =
      let kept = pick_next-IsValid (net.picked_at j) b.breaker v in
      let good = record_success-IsValid (picked j b).index (tried j b tip).breaker kept in
      elim ends [
        | inl (r, e, same) ↦ rw same good
        | inr (inl (e, same)) ↦ rw same good
        | inr (inr (e, same)) ↦ rw same kept
      ]

  Loops-IsValid :
      (left i : ℕ) (c : Client) (result : Client × Shown)
      → IsValid c.breaker
      → Loops left i c result
      → IsValid result.0.breaker
  Loops-IsValid left i c result v (j, b, fails, inl (all, same)) = rw same (Fails-IsValid fails v)
  Loops-IsValid left i c result v (j, b, fails, inr (early, ends)) =
      Ends-IsValid j b result (Fails-IsValid fails v) ends

  -- Every call leaves the registry of hosts well-formed.
  pub name_show-IsValid :
      (c : Client) → IsValid c.breaker → IsValid (name_show rt net name c).0.breaker
  unfolding name_show
  name_show-IsValid c v =
      elim (Bool-cases
        ((byte_length name == 0) || ltb namecoin_name_max_bytes (byte_length name))) [
          | inl bad ↦ rw (bad, name_show) v
          | inr fine ↦
              rw (fine, name_show)
                (Loops-IsValid (max_attempts c.retries) 0 c _ v
                  (attempts-Loops (max_attempts c.retries) 0 c))
        ]
