-- ===== src/History/Resolve.antt =====
-- src/electrumx.js: `runResolve`, one lookup over one connection, with the cached chain tip.
use mathlib.Core.Path.{sym, subst, ap, ◌∙◌}
use strfry_namecoin_policy.Prelude.{
  ℕ, ◌+◌, ◌%◌, ◌<◌, ◌≡◌, ◌≢◌, refl, ◌⊎◌, inl, inr, Bool, true, false, Option, none, some, List,
  length, map, arith, Option-cases, Bool-cases, ◌==◌,
}
use strfry_namecoin_policy.Prelude.Int.{ℤ}
use strfry_namecoin_policy.Js.{Text, Runtime}
use strfry_namecoin_policy.Js.Json.{Json, as_array}
use strfry_namecoin_policy.Script.{build_name_index_script, electrum_script_hash}
use strfry_namecoin_policy.History.{
  NameRow, missing, found, failed, select_name_row, TipCache, Server, tip_of, current_tip,
  fresh_tip, run_resolve, tip_cache_ttl_ms, min_conf_of,
}
use strfry_namecoin_policy.History.Select.{IsCurrent}
use strfry_namecoin_policy.History.Verdict.{select_name_row-IsCurrent, select_name_row-failed}

-- The key under which the server keeps a name's history.
abbrev pub history_key : Runtime → Text → Text
history_key rt name = electrum_script_hash rt (build_name_index_script (map (λ c. c % 256) name))

-- How old the tip is that a lookup at the time `now` goes by.
pub data IsFreshTip (server : Server) (cache : TipCache) (now : ℕ) (after : TipCache)
    (tip : Option ℤ) : Type 0 where
  cached :
      after ≡ cache
      → cache.cached_tip ≡ tip
      → now < cache.cached_tip_at + tip_cache_ttl_ms
      → IsFreshTip server cache now after tip
  asked :
      tip ≡ tip_of server.headers
      → (after ≡ cache) ⊎ ((after.cached_tip ≡ tip) × (after.cached_tip_at ≡ now))
      → IsFreshTip server cache now after tip

fresh_tip_sound :
    (cache : TipCache) (now : ℕ) {t : ℤ}
    → fresh_tip cache now ≡ some t
    → (cache.cached_tip ≡ some t) × (now < cache.cached_tip_at + tip_cache_ttl_ms)
fresh_tip_sound cache now h = (ground arith, ground arith)

current_tip-IsFreshTip :
    (server : Server) (cache : TipCache) (now : ℕ)
    → IsFreshTip server cache now (current_tip server cache now).0 (current_tip server cache now).1
unfolding current_tip
current_tip-IsFreshTip server cache now = elim (Option-cases (fresh_tip cache now)) [
  | inr (t, young) ↦
      let (known, recent) = fresh_tip_sound cache now {t = t} young in
      rw (young, current_tip) (cached refl known recent)
  | inl old ↦ elim (Option-cases (tip_of server.headers)) [
    | inl silent ↦ rw (old, silent, current_tip) (asked (sym silent) (inl refl))
    | inr (t, told) ↦ rw (old, told, current_tip) (asked (sym told) (inr (refl, refl)))
  ]
]

module _ (rt : Runtime) (server : Server) (min_confirmations : Option ℤ) (name : Text) (now : ℕ)
    (cache : TipCache) where
  -- The lookup got as far as the history.
  pub record Reached (history : List Json) : Type 0 where
    pub handshake : server.version ≢ none
    pub reply : Option Json
    pub sent : server.get_history (history_key rt name) ≡ some reply
    pub listed : as_array reply ≡ some history
    pub nonempty : 0 < length history
    pub result : run_resolve rt server min_confirmations name now cache ≡ (
      (current_tip server cache now).0,
      select_name_row rt server.get_tx name history
          (current_tip server cache now).1
          min_confirmations,
    )

  pub data Run : Type 0 where
    stopped :
        run_resolve rt server min_confirmations name now cache ≡ (cache, failed false)
        → (server.version ≡ none) ⊎ (server.get_history (history_key rt name) ≡ none)
        → Run
    unknown : run_resolve rt server min_confirmations name now cache ≡ (cache, missing) → Run
    reached : (history : List Json) → Reached history → Run

  -- A lookup stops before the history, finds none, or chooses from it.
  run_cases : Run
  unfolding run_resolve current_tip select_name_row
  run_cases = elim (Option-cases server.version) [
    | inl lost ↦ stopped (rw (lost, run_resolve)) (inl lost)
    | inr (v, shaken) ↦ elim (Option-cases (server.get_history (history_key rt name))) [
      | inl lost ↦ stopped (rw (shaken, lost, run_resolve)) (inr lost)
      | inr (reply, sent) ↦ elim (Option-cases (as_array reply)) [
        | inl odd ↦ unknown (rw (shaken, sent, odd, run_resolve))
        | inr (history, listed) ↦ elim (Bool-cases (length history == 0)) [
          | inl empty ↦ unknown (rw (shaken, sent, listed, empty, run_resolve))
          | inr some_item ↦ reached history (record {
            handshake = λ e. cc;
            reply = reply;
            sent = sent;
            listed = listed;
            nonempty = ground arith;
            result = rw (shaken, sent, listed, some_item, run_resolve);
          })
        ]
      ]
    ]
  ]

  -- A lookup that answers has reached a history of the name on the server, goes by the tip that
  -- the server gives now or by one that was read less than a minute ago, and its answer is current
  -- in that history and by that tip.
  pub run_resolve-IsCurrent :
      {r : NameRow}
      → (run_resolve rt server min_confirmations name now cache).1 ≡ found r
      → (history : List Json) × (tip : Option ℤ) × Reached history
        × IsFreshTip server cache now (run_resolve rt server min_confirmations name now cache).0 tip
        × IsCurrent rt server.get_tx name history tip (min_conf_of min_confirmations) r
  run_resolve-IsCurrent {r} h = elim run_cases [
    | stopped e _ ↦ absurd (ground arith)
    | unknown e ↦ absurd (ground arith)
    | reached history got ↦
        let tip = (current_tip server cache now).1 in
        (
          history,
          tip,
          got,
          subst (λ s. IsFreshTip server cache now s.0 tip) (sym got.result)
              (current_tip-IsFreshTip server cache now),
          select_name_row-IsCurrent rt server.get_tx name history tip min_confirmations {r = r}
              (sym (ap (λ s. s.1) got.result) ∙ h),
        )
  ]

  -- A lookup that fails definitively has reached a history, and the choice from it is what
  -- fails; one that fails otherwise has lost its handshake or its history, and leaves the cached
  -- tip alone.
  pub run_resolve-failed :
      {d : Bool}
      → (run_resolve rt server min_confirmations name now cache).1 ≡ failed d
      → ((d ≡ true)
          × (history : List Json) × Reached history
          × (select_name_row rt server.get_tx name history
                (current_tip server cache now).1
                min_confirmations
              ≡ failed true))
        ⊎ ((d ≡ false)
            × ((run_resolve rt server min_confirmations name now cache).0 ≡ cache)
            × ((server.version ≡ none) ⊎ (server.get_history (history_key rt name) ≡ none)))
  run_resolve-failed {d} h = elim run_cases [
    | stopped e why ↦ inr (ground arith, ap (λ s. s.0) e, why)
    | unknown e ↦ absurd (ground arith)
    | reached history got ↦
        let chose = sym (ap (λ s. s.1) got.result) ∙ h in
        let definitive =
          (select_name_row-failed rt server.get_tx name history (current_tip server cache now).1
            min_confirmations {d = d} chose).0 in
        inl (definitive, history, got, chose ∙ ap failed definitive)
  ]
