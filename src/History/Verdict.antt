-- ===== src/History/Verdict.antt =====
-- src/electrumx.js: what each answer of `selectNameRowFromHistory` says about the history.
use mathlib.Core.Path.{subst, sym}
use strfry_namecoin_policy.Prelude.{
  ℕ, ◌+◌, ◌-◌, ◌≤◌, ◌<◌, ◌≡◌, refl, ap, ◌∙◌, Bool, true, false, Option, none, some, List, length,
  take, arith, All, Any, Any-take, take_all, Any-weaken, of_Any,
}
use strfry_namecoin_policy.Prelude.Int.{ℤ, pos, negsuc}
use strfry_namecoin_policy.Js.{Text, Runtime}
use strfry_namecoin_policy.Js.Json.{Json}
use strfry_namecoin_policy.Script.{NameScript}
use strfry_namecoin_policy.History.{
  Entry, sort_entries, filtered, eligible, min_conf_of, is_expired, expires_in_of, NameRow, missing,
  found, failed, carried, walk, conclude, select_name_row, max_history_walk, name_expire_depth,
}
use strfry_namecoin_policy.History.Sort.{
  All_of_sort_entries, Any-of_sort_entries, sort_entries-IsDescending, length-sort_entries,
}
use strfry_namecoin_policy.History.Select.{
  IsSilent, IsSource, IsSilentAbove, IsCurrent, eligible_sound, carried-name, walk-Any, walk-none,
  walk-newest, Any-of_filtered, All_of_filtered,
}

conclude-found :
    (rt : Runtime) (fetch_tx : Text → Option (Option Json)) (name : Text) (tip : Option ℤ)
    (o : Option (Entry × NameScript)) {r : NameRow}
    → conclude rt fetch_tx name tip o ≡ found r
    → (e : Entry) × (p : NameScript) × (o ≡ some (e, p))
      × (is_expired tip e.height ≡ false)
      × (p.name ≡ r.name)
      × (p.value ≡ r.value)
      × (e.tx_hash ≡ r.txid)
      × (e.height ≡ r.height)
      × (r.expires_in ≡ expires_in_of tip e.height)
unfolding conclude
conclude-found rt fetch_tx name tip none h = cc
conclude-found rt fetch_tx name tip (some (e, p)) h =
    (e, p, refl, ground arith, ground arith, ground arith, ground arith, ground arith, ground arith)

conclude_failed :
    (rt : Runtime) (fetch_tx : Text → Option (Option Json)) (name : Text) (tip : Option ℤ)
    (o : Option (Entry × NameScript)) {d : Bool}
    → conclude rt fetch_tx name tip o ≡ failed d
    → (e : Entry) × (p : NameScript) × (o ≡ some (e, p))
      × (is_expired tip e.height ≡ true)
      × (d ≡ true)
unfolding conclude
conclude_failed rt fetch_tx name tip none h = cc
conclude_failed rt fetch_tx name tip (some (e, p)) h = (e, p, refl, ground arith, ground arith)

conclude_missing :
    (rt : Runtime) (fetch_tx : Text → Option (Option Json)) (name : Text) (tip : Option ℤ)
    (o : Option (Entry × NameScript))
    → conclude rt fetch_tx name tip o ≡ missing
    → o ≡ none
unfolding conclude
conclude_missing rt fetch_tx name tip none h = refl
conclude_missing rt fetch_tx name tip (some (e, p)) h = ground arith

not_expired :
    (tip : Option ℤ) (height t : ℕ)
    → is_expired tip height ≡ false
    → tip ≡ some (pos t)
    → (t < height + name_expire_depth)
      × (expires_in_of tip height ≡ some (pos (name_expire_depth + height - t)))
not_expired none height t h e = cc
not_expired (some (pos s)) height t h e = ground arith
not_expired (some (negsuc s)) height t h e = cc

expired :
    (tip : Option ℤ) (height : ℕ)
    → is_expired tip height ≡ true
    → (t : ℕ) × (tip ≡ some (pos t)) × (height + 36_000 ≤ t)
expired none height e = absurd (ground (arith, e))
expired (some (pos t)) height e = (t, refl, ground (arith, e))
expired (some (negsuc t)) height e = absurd (ground (arith, e))

module _ (rt : Runtime) (fetch_tx : Text → Option (Option Json)) (name : Text) (history : List Json)
    (tip min_confirmations : Option ℤ) where
  abbrev pub m : ℕ
  m = min_conf_of min_confirmations

  abbrev sorted : List Entry
  sorted = sort_entries (filtered tip m history)

  abbrev pub Source : Entry → NameScript → Json → Type 0
  Source e p h =
      (x : Entry) × (eligible tip m h ≡ some x) × (x ≡ e) × (carried rt fetch_tx name x ≡ some p)

  Source-of :
      (e : Entry) (p : NameScript)
      → walk rt fetch_tx name (take max_history_walk sorted) ≡ some (e, p)
      → Any (Source e p) history
  Source-of e p hit =
      Any-weaken (λ h. (x : Entry) × (eligible tip m h ≡ some x) × P x) (Source e p) history
        (λ h s. (s.0, s.1, s.2.0, s.2.1))
        (Any-of_filtered tip m P history (
          Any-of_sort_entries P (filtered tip m history) (
            Any-take P max_history_walk sorted
              (walk-Any rt fetch_tx name (take max_history_walk sorted) e p hit))))
    where
      P : Entry → Type 0
      P x = (x ≡ e) × (carried rt fetch_tx name x ≡ some p)

  newest_of :
      (e : Entry) (p : NameScript)
      → walk rt fetch_tx name (take max_history_walk sorted) ≡ some (e, p)
      → All (IsSilentAbove rt fetch_tx name tip m e.height) history
  newest_of e p hit =
      let Q = λ (y : Entry). e.height < y.height → IsSilent rt fetch_tx name y in
      All_of_filtered tip m Q history (
        All_of_sort_entries Q (filtered tip m history) (
          walk-newest rt fetch_tx name max_history_walk sorted e p
            (sort_entries-IsDescending (filtered tip m history)) hit))

  pub select_name_row-IsCurrent :
      {r : NameRow}
      → select_name_row rt fetch_tx name history tip min_confirmations ≡ found r
      → IsCurrent rt fetch_tx name history tip m r
  unfolding select_name_row
  select_name_row-IsCurrent {r} h =
      let (e, p, hit, fresh, same_name, same_value, same_tx, same_height, expiry) =
        conclude-found rt fetch_tx name tip _ {r = r} h in
      let sources = Source-of e p hit in
      let (item, source) = of_Any (Source e p) history sources in
      let (x, kept, same, carries) = source in
      let (mined, enough) = eligible_sound tip m item {e = x} kept in
      let same_h : x.height ≡ e.height = ap (λ y. y.height) same in
      record {
        named = sym same_name ∙ carried-name rt fetch_tx name x {p = p} carries;
        mined = omega arith;
        confirmed = λ t at counts. omega (arith, enough t at counts);
        unexpired = λ t at. omega (arith, (not_expired tip e.height t fresh at).0);
        expires_in = λ t at.
            expiry
            ∙ (not_expired tip e.height t fresh at).1
            ∙ ap (λ n. some (pos (name_expire_depth + n - t))) same_height;
        source =
            Any-weaken (Source e p) (IsSource rt fetch_tx name tip m r) history
              (λ h s. (
                s.0,
                s.1,
                ap (λ y. y.tx_hash) s.2 ∙ same_tx,
                ap (λ y. y.height) s.2 ∙ same_height,
                p,
                s.3,
                same_value,
              ))
              sources;
        newest =
            subst (λ n. All (IsSilentAbove rt fetch_tx name tip m n) history) same_height
              (newest_of e p hit);
      }

  pub select_name_row-failed :
      {d : Bool}
      → select_name_row rt fetch_tx name history tip min_confirmations ≡ failed d
      → (d ≡ true)
        × (e : Entry) × (p : NameScript) × ((t : ℕ) × (tip ≡ some (pos t))
            × (e.height + 36_000 ≤ t))
        × Any (Source e p) history
        × All (IsSilentAbove rt fetch_tx name tip m e.height) history
  unfolding select_name_row
  select_name_row-failed {d} h =
      let (e, p, hit, old, definitive) = conclude_failed rt fetch_tx name tip _ {d = d} h in
      (definitive, e, p, expired tip e.height old, Source-of e p hit, newest_of e p hit)

  -- Where at most 32 items of the history pass the filter, the answer is that there is no record
  -- only if none of these carries the name.
  pub select_name_row-missing :
      length (filtered tip m history) ≤ max_history_walk
      → select_name_row rt fetch_tx name history tip min_confirmations ≡ missing
      → All (λ h. (e : Entry) → eligible tip m h ≡ some e → IsSilent rt fetch_tx name e) history
  unfolding select_name_row
  select_name_row-missing few h =
      let short : length sorted ≤ max_history_walk =
        omega (arith, length-sort_entries (filtered tip m history)) in
      let nothing = conclude_missing rt fetch_tx name tip _ h in
      let silent = walk-none rt fetch_tx name _ nothing in
      All_of_filtered tip m (IsSilent rt fetch_tx name) history (
        All_of_sort_entries (IsSilent rt fetch_tx name) (filtered tip m history)
          (subst (All (IsSilent rt fetch_tx name)) (take_all max_history_walk sorted short) silent))
