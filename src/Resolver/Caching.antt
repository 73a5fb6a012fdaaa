-- ===== src/Resolver/Caching.antt =====
-- src/resolver.js: what `resolve` keeps in its cache, and what it answers from it.
use mathlib.Core.Path.{sym, subst}
use strfry_namecoin_policy.Prelude.{
  ℕ, ◌+◌, ◌<◌, ◌≤◌, ◌≡◌, ◌≢◌, refl, ap, ◌∙◌, Bool, true, false, Option, none, some, List, [], ◌∷◌,
  ◌⊎◌, inl, inr, All, All-weaken, Bool-cases, arith, ◌==◌,
}
use strfry_namecoin_policy.Js.{Text, Runtime}
use strfry_namecoin_policy.Js.Json.{Json, str, JsonRuntime, as_text}
use strfry_namecoin_policy.Store
use strfry_namecoin_policy.Store.{lookup}
use strfry_namecoin_policy.Store.Laws.{delete-IsAbsent, lookup-append_self}
use strfry_namecoin_policy.Cache
use strfry_namecoin_policy.Cache.{Entry, LruCache, effective_ttl, expires_at, is_over}
use strfry_namecoin_policy.Cache.Recency.{
  IsValid, get-IsValid, set-IsValid, get-ttl_ms, get_hit, get_stale,
}
use strfry_namecoin_policy.Cache.Expiry.{lookup-after, same_ttl}
use strfry_namecoin_policy.Resolver.Unread.{IsUnread, classify_iff}
use strfry_namecoin_policy.Resolver.{
  Identifier, Resolution, Resolver, NameReply, no_row, row, key_of, judge, ttl_for, is_throttled,
  ask, resolve, parse_identifier, extract_from_value,
}

-- One call: what the limiter and the client say, and the clock at the read and at the write.
pub record Call : Type 0 where
  pub limiter : Option Bool
  pub reply : NameReply
  pub now : ℕ
  pub later : ℕ

not-true : (b : Bool) → b ≢ true → b ≡ false
not-true true h = absurd (h refl)
not-true false h = refl

module _ (rt : Runtime) (json : JsonRuntime) (identifier : Text) {parsed : Identifier}
    (known : parse_identifier rt identifier ≡ some parsed) where
  resolve-hit :
      (limiter : Option Bool) (reply : NameReply) (now later : ℕ) (r : Resolver)
      {result : Option Resolution}
      → (Cache.get now (key_of parsed) r.cache).1 ≡ some result
      → (resolve rt json limiter reply now later identifier r).1 ≡ result
  unfolding resolve
  resolve-hit limiter reply now later r h = rw (known, h, resolve)

  resolve-miss :
      (limiter : Option Bool) (reply : NameReply) (now later : ℕ) (r : Resolver)
      → (Cache.get now (key_of parsed) r.cache).1 ≡ none
      → resolve rt json limiter reply now later identifier r
        ≡ ask rt json parsed limiter reply later (record r {
          cache = (Cache.get now (key_of parsed) r.cache).0;
          last_was_rate_limited = false;
        })
  unfolding resolve
  resolve-miss limiter reply now later r h = rw (known, h, resolve)

  -- What a reply that is not a failure comes to, and how long the answer lasts: `own` where the
  -- value could be read, `short` where it could not.
  pub data Keeps (own short : ℕ) (reply : NameReply) (result : Option Resolution) (ttl : ℕ)
      : Type 0 where
    answered :
        (value : Text) (found : Resolution)
        → reply ≡ row (some (str value))
        → extract_from_value rt json value parsed.local_part parsed.namecoin_name ≡ some found
        → result ≡ some found
        → ttl ≡ own
        → Keeps own short reply result ttl
    unlisted :
        (value : Text)
        → reply ≡ row (some (str value))
        → extract_from_value rt json value parsed.local_part parsed.namecoin_name ≡ none
        → ¬ IsUnread json value
        → result ≡ none
        → ttl ≡ own
        → Keeps own short reply result ttl
    unread :
        (value : Text)
        → reply ≡ row (some (str value))
        → extract_from_value rt json value parsed.local_part parsed.namecoin_name ≡ none
        → IsUnread json value
        → result ≡ none
        → ttl ≡ short
        → Keeps own short reply result ttl
    unknown :
        (reply ≡ no_row) ⊎ ((v : Option Json) × (reply ≡ row v) × (as_text v ≡ none))
        → result ≡ none
        → ttl ≡ short
        → Keeps own short reply result ttl

  -- What `judge` makes of such a reply, and the time to live that the cache is given for it.
  Keeps-judge :
      {own short : ℕ} {reply : NameReply} {result : Option Resolution} {ttl : ℕ}
      → Keeps own short reply result ttl
      → (is_failure : Bool) × (judge rt json parsed reply ≡ some (result, is_failure))
        × ((is_failure ≡ true → ttl ≡ short) × (is_failure ≡ false → ttl ≡ own))
  unfolding judge as_text
  Keeps-judge (answered value found read got e k) =
      (false, rw (read, e) (rw (got, judge) refl), (λ h. absurd (ground (arith, h)), λ h. k))
  Keeps-judge (unlisted value read got fine e k) = (
    false,
    rw (read, e)
        (rw (got, judge)
          (ap (λ b. some (none, b)) (not-true _ (λ h. fine ((classify_iff json value).0 h))))),
    (λ h. absurd (ground (arith, h)), λ h. k),
  )
  Keeps-judge (unread value read got bad e k) = (
    true,
    rw (read, e) (rw (got, judge) (ap (λ b. some (none, b)) ((classify_iff json value).1 bad))),
    (λ h. k, λ h. absurd (ground (arith, h))),
  )
  Keeps-judge (unknown (inl gone) e k) =
      (true, rw (gone, e) refl, (λ h. k, λ h. absurd (ground (arith, h))))
  Keeps-judge (unknown (inr (v, read, odd)) e k) =
      (true, rw (read, e) (rw (odd, judge) refl), (λ h. k, λ h. absurd (ground (arith, h))))

  ttl-Keeps :
      (r : Resolver) (is_failure : Bool) (ttl : ℕ)
      → r.cache.ttl_ms ≡ r.cache_ttl_ms
      → (is_failure ≡ true → ttl ≡ r.neg_cache_ttl_ms) × (is_failure ≡ false → ttl ≡ r.cache_ttl_ms)
      → effective_ttl (ttl_for r is_failure) r.cache.ttl_ms ≡ ttl
  ttl-Keeps r true ttl e (short, own) = elim (Bool-cases (r.neg_cache_ttl_ms == r.cache_ttl_ms)) [
    | inl equal ↦ rw equal (ground (arith, equal, e, short refl))
    | inr other ↦ rw other (sym (short refl))
  ]
  ttl-Keeps r false ttl e (short, own) = e ∙ sym (own refl)

  abbrev pub call : Call → Resolver → Resolver × Option Resolution
  call c r = resolve rt json c.limiter c.reply c.now c.later identifier r

  abbrev pub run : List Call → Resolver → Resolver
  run [] r = r
  run (c ∷ cs) r = run cs (call c r).0

  -- Each of these calls, in this order, gives this result.
  abbrev pub Repeats : Option Resolution → List Call → Resolver → Type 0
  Repeats result [] r = Unit
  Repeats result (c ∷ cs) r = ((call c r).1 ≡ result) × Repeats result cs (call c r).0

  -- The cache holds this entry for the identifier.
  record Holds (entry : Entry (Option Resolution)) (own : ℕ) (r : Resolver) : Type 0 where
    valid : IsValid r.cache
    at : lookup (key_of parsed) r.cache.store ≡ some entry
    same_own : r.cache.ttl_ms ≡ own

  module _ (entry : Entry (Option Resolution)) (own : ℕ) where
    call-Holds :
        (c : Call) (r : Resolver)
        → Holds entry own r
        → is_over entry.expires c.now ≡ false
        → ((call c r).1 ≡ entry.value) × Holds entry own (call c r).0
    unfolding resolve
    call-Holds c r h young =
        let key = key_of parsed in
        let hit = get_hit c.now key r.cache entry h.valid h.at (ground (arith, young)) in
        rw (known, hit, resolve)
          (
            refl,
            record {
              valid = get-IsValid c.now key r.cache h.valid;
              at =
                  subst (λ x. lookup key x.0.store ≡ some entry) (sym hit)
                    (lookup-append_self key entry (Store.delete key r.cache.store)
                      (delete-IsAbsent key r.cache.store h.valid.distinct));
              same_own = get-ttl_ms c.now key r.cache h.valid ∙ h.same_own;
            },
          )

    run-Holds :
        (cs : List Call) (r : Resolver)
        → Holds entry own r
        → All (λ (c : Call). is_over entry.expires c.now ≡ false) cs
        → Repeats entry.value cs r × Holds entry own (run cs r)
    run-Holds [] r h young = (tt, h)
    run-Holds (c ∷ cs) r h (young, rest) =
        let (same_one, next) = call-Holds c r h young in
        let (repeats, last) = run-Holds cs (call c r).0 next rest in ((same_one, repeats), last)

    late-miss :
        (now : ℕ) (r : Resolver)
        → Holds entry own r
        → 0 < own
        → is_over entry.expires now ≡ true
        → (Cache.get now (key_of parsed) r.cache).1 ≡ none
    late-miss now r h on old =
        ap (λ x. x.1)
          (get_stale now (key_of parsed) r.cache entry h.at (ground (arith, old, on, h.same_own)))

  abbrev kept : ℕ → Option Resolution → ℕ → Entry (Option Resolution)
  kept later result ttl = record { value = result; expires = expires_at later ttl }

  -- A call that misses and is answered.
  asked :
      (c : Call) (r : Resolver) {result : Option Resolution} {is_failure : Bool}
      → (Cache.get c.now (key_of parsed) r.cache).1 ≡ none
      → is_throttled c.limiter ≡ false
      → judge rt json parsed c.reply ≡ some (result, is_failure)
      → ((call c r).1 ≡ result)
        × ((call c r).0.cache
            ≡ Cache.set c.later
                (key_of parsed)
                result
                (ttl_for r is_failure)
                (Cache.get c.now (key_of parsed) r.cache).0)
  unfolding ask
  asked c r miss granted judged =
      rw (resolve-miss c.limiter c.reply c.now c.later r miss, granted, judged, ask) (refl, refl)

  asked-Holds :
      (c : Call) (r : Resolver) {result : Option Resolution} {is_failure : Bool} (ttl : ℕ)
      → IsValid r.cache
      → (Cache.get c.now (key_of parsed) r.cache).1 ≡ none
      → is_throttled c.limiter ≡ false
      → judge rt json parsed c.reply ≡ some (result, is_failure)
      → effective_ttl (ttl_for r is_failure) r.cache.ttl_ms ≡ ttl
      → Holds (kept c.later result ttl) r.cache.ttl_ms (call c r).0
  asked-Holds c r {result} {is_failure} ttl valid miss granted judged lasting =
      let key = key_of parsed in
      let read = (Cache.get c.now key r.cache).0 in
      let read_valid = get-IsValid c.now key r.cache valid in
      let same_own = get-ttl_ms c.now key r.cache valid in
      let written =
        sym (asked c r {result = result} {is_failure = is_failure} miss granted judged).1 in
      let stored = lookup-after c.later key result (ttl_for r is_failure) read read_valid in
      record {
        valid =
            subst IsValid written
              (set-IsValid c.later key result (ttl_for r is_failure) read read_valid);
        at =
            subst (λ x. lookup key x.store ≡ some (kept c.later result ttl)) written
              (stored
                ∙ ap (λ n. some (kept c.later result n))
                    (ap (effective_ttl (ttl_for r is_failure)) same_own ∙ lasting));
        same_own =
            ap (λ x. x.ttl_ms) (sym written)
            ∙ same_ttl c.later key result (ttl_for r is_failure) read read_valid
            ∙ same_own;
      }

  young-All :
      (later ttl : ℕ) (cs : List Call)
      → All (λ (c : Call). 0 < ttl → c.now < later + ttl) cs
      → All (λ (c : Call). is_over (expires_at later ttl) c.now ≡ false) cs
  young-All later ttl cs all =
      All-weaken {P = λ (c : Call). 0 < ttl → c.now < later + ttl}
        {Q = λ (c : Call). is_over (expires_at later ttl) c.now ≡ false} cs
        (λ c early. ground (arith, early)) all

  -- In a well-formed cache that misses, with the resolver's time to live, an answer that was
  -- asked for is kept: any further calls for the identifier, while its time to live lasts, give
  -- it again, whatever the limiter, the server and the clock of the writes then say; and, where
  -- it and the resolver's time to live are positive, a call after these that comes once that
  -- time is over and is not throttled gives what is then answered. The time to live is the short
  -- one where the name has no row, or a value that is not the text of a JSON object with a
  -- `nostr` field; it is the cache's own where a key is found or the object lists none.
  pub resolve-repeat :
      (c : Call) (r : Resolver) {result : Option Resolution} {ttl : ℕ}
      → IsValid r.cache
      → r.cache.ttl_ms ≡ r.cache_ttl_ms
      → (Cache.get c.now (key_of parsed) r.cache).1 ≡ none
      → is_throttled c.limiter ≡ false
      → Keeps r.cache_ttl_ms r.neg_cache_ttl_ms c.reply result ttl
      → (cs : List Call) → All (λ (d : Call). 0 < ttl → d.now < c.later + ttl) cs
      → ((call c r).1 ≡ result)
        × Repeats result cs (call c r).0
        × ((d : Call) (other : Option Resolution) (next : ℕ)
            → 0 < r.cache_ttl_ms
            → 0 < ttl
            → c.later + ttl ≤ d.now
            → is_throttled d.limiter ≡ false
            → Keeps r.cache_ttl_ms r.neg_cache_ttl_ms d.reply other next
            → (call d (run cs (call c r).0)).1 ≡ other)
  resolve-repeat c r {result} {ttl} valid own miss granted keeps cs early =
      let (is_failure, judged, lasts) = Keeps-judge keeps in
      let first =
        asked-Holds c r {result = result} {is_failure = is_failure} ttl valid miss granted judged
          (ttl-Keeps r is_failure ttl own lasts) in
      let (repeats, last) =
        run-Holds (kept c.later result ttl) r.cache.ttl_ms cs (call c r).0 first
          (young-All c.later ttl cs early) in
      (
        (asked c r {result = result} {is_failure = is_failure} miss granted judged).0,
        repeats,
        λ d other next on positive late granted' keeps'.
            let (fails, judged', lasts') = Keeps-judge keeps' in
            let gone =
              late-miss (kept c.later result ttl) r.cache.ttl_ms d.now (run cs (call c r).0) last
                (omega (arith, own)) (ground (arith, late)) in
            (asked d (run cs (call c r).0) {result = other} {is_failure = fails} gone granted'
              judged').0,
      )
