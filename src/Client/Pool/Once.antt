-- ===== src/Client/Pool/Once.antt =====
-- src/electrumx.js: that every call of a pooled connection waits or is settled, once.
use mathlib.Core.Path.{subst}
use strfry_namecoin_policy.Prelude.{
  ℕ, ◌+◌, ◌≤◌, ◌≡◌, refl, Bool, true, false, not, ◌&&◌, ◌||◌, List, [], ◌∷◌, ◌++◌, map, leb, ltb,
  ◌==◌, if◌then◌else◌, arith, Bool-cases, Option-cases, inl, inr, ◌⊎◌,
}
use strfry_namecoin_policy.Js.{Text, txt, trim}
use strfry_namecoin_policy.Js.Json.{prop, JsonRuntime}
use strfry_namecoin_policy.Client.Pool.{
  Settled, rejected, PooledConnection, fresh, has_id, drop_id, settle, call, kill, is_null, id_of,
  answer_of, on_line, on_lines, take_lines, on_data, Event, opens, calls, times_out, chunk, killed,
  on_event, on_events,
}

-- How often an id stands in a list, and among the calls that are settled.
abbrev pub waiting : ℕ → List ℕ → ℕ
waiting id [] = 0
waiting id (i ∷ is) = (if i == id then 1 else 0) + waiting id is

abbrev pub done : ℕ → List (ℕ × Settled) → ℕ
done id [] = 0
done id ((i, how) ∷ s) = (if i == id then 1 else 0) + done id s

abbrev pub issued : ℕ → ℕ → ℕ
issued id next = if leb 1 id && ltb id next then 1 else 0

-- Every id that was given out waits or is settled, once; no other one is; and a dead connection
-- has no call that waits.
pub record IsSettled (c : PooledConnection) : Type 0 where
  pub started : 1 ≤ c.next_id
  pub once : (id : ℕ) → waiting id c.pending + done id c.settled ≡ issued id c.next_id
  pub ended : c.dead ≡ true → c.pending ≡ []

waiting-append : (id : ℕ) (xs ys : List ℕ) → waiting id (xs ++ ys) ≡ waiting id xs + waiting id ys
waiting-append id [] ys = omega arith
waiting-append id (x ∷ xs) ys = omega (arith, waiting-append id xs ys)

done-append : (id : ℕ) (xs ys : List (ℕ × Settled)) → done id (xs ++ ys) ≡ done id xs + done id ys
done-append id [] ys = omega arith
done-append id ((x, how) ∷ xs) ys = omega (arith, done-append id xs ys)

done-map : (id : ℕ) (xs : List ℕ) → done id (map (λ i. (i, rejected)) xs) ≡ waiting id xs
done-map id [] = refl
done-map id (x ∷ xs) = omega (arith, done-map id xs)

waiting-drop_id :
    (id k : ℕ) (xs : List ℕ)
    → has_id k xs ≡ true
    → waiting id (drop_id k xs) + (if k == id then 1 else 0) ≡ waiting id xs
waiting-drop_id id k [] h = absurd (ground (arith, h))
waiting-drop_id id k (x ∷ xs) h = ground (arith, h, waiting-drop_id id k xs)

no_id : (k : ℕ) → ¬ (has_id k [] ≡ true)
no_id k h = absurd (ground (arith, h))

List-cases {ℓ} :
    {A : Type ℓ} (xs : List A) → (xs ≡ []) ⊎ ((x : A) × (rest : List A) × (xs ≡ x ∷ rest))
List-cases [] = inl refl
List-cases (x ∷ xs) = inr (x, xs, refl)

settle-IsSettled :
    (k : ℕ) (how : Settled) (c : PooledConnection) → IsSettled c → IsSettled (settle k how c)
unfolding settle
settle-IsSettled k how c v = elim (Bool-cases (has_id k c.pending)) [
  | inr gone ↦ rw (gone, settle) v
  | inl there ↦
      rw (there, settle)
        (record {
          started = v.started;
          once = λ id. omega (
            arith,
            v.once id,
            done-append id c.settled ((k, how) ∷ []),
            waiting-drop_id id k c.pending there,
          );
          ended = λ d. absurd (no_id k (subst (λ xs. has_id k xs ≡ true) (v.ended d) there));
        })
]

issued-suc :
    (id next : ℕ) → 1 ≤ next → issued id (next + 1) ≡ issued id next + (if next == id then 1 else 0)
issued-suc id next h = ground (arith, h)

call-IsSettled : (written : Bool) (c : PooledConnection) → IsSettled c → IsSettled (call written c)
unfolding call
call-IsSettled written c v = elim (Bool-cases (c.dead || not c.connected)) [
  | inl off ↦ rw (off, call) v
  | inr on ↦
      let begun : PooledConnection = record c {
        pending = c.pending ++ c.next_id ∷ [];
        next_id = c.next_id + 1;
      } in
      let waits : IsSettled begun = record {
        started = omega arith;
        once = λ id. omega (
          arith,
          v.once id,
          v.started,
          waiting-append id c.pending (c.next_id ∷ []),
          issued-suc id c.next_id v.started,
        );
        ended = λ d. absurd (ground (arith, on, d));
      } in
      elim written as (λ w. IsSettled (call w c)) [
        | true ↦ rw (on, call) waits
        | false ↦ rw (on, call) (settle-IsSettled c.next_id rejected begun waits)
      ]
]

if-IsSettled :
    (b : Bool) (x y : PooledConnection)
    → (b ≡ true → IsSettled x)
    → (b ≡ false → IsSettled y)
    → IsSettled (if b then x else y)
if-IsSettled true x y h k = h refl
if-IsSettled false x y h k = k refl

kill-IsSettled : (c : PooledConnection) → IsSettled c → IsSettled (kill c)
unfolding kill
kill-IsSettled c v =
    if-IsSettled c.dead c _ (λ off. v)
      (λ on. record {
        started = v.started;
        once = λ id. omega (
          arith,
          v.once id,
          done-append id c.settled (map (λ i. (i, rejected)) c.pending),
          done-map id c.pending,
        );
        ended = λ d. refl;
      })

on_line-IsSettled :
    (json : JsonRuntime) (line : Text) (c : PooledConnection)
    → IsSettled c
    → IsSettled (on_line json line c)
unfolding on_line
on_line-IsSettled json line c v =
    if-IsSettled c.crashed c _ (λ down. v)
      (λ up. elim (List-cases (trim line)) [
        | inl blank ↦ rw blank v
        | inr (d, text, filled) ↦ rw filled (elim (Option-cases (json.parse (d ∷ text))) [
          | inl bad ↦ rw bad v
          | inr (msg, good) ↦ rw good (
              if-IsSettled (is_null msg) (record c { crashed = true }) _
                (λ nothing. record { started = v.started; once = v.once; ended = v.ended })
                (λ there. elim (Option-cases (id_of (prop msg (txt "id")))) [
                  | inl other ↦ rw other v
                  | inr (id, found) ↦ rw found (settle-IsSettled id (answer_of msg) c v)
                ]))
        ])
      ])

on_lines-IsSettled :
    (json : JsonRuntime) (lines : List Text) (c : PooledConnection)
    → IsSettled c
    → IsSettled (on_lines json lines c)
unfolding on_lines
on_lines-IsSettled json [] c v = v
on_lines-IsSettled json (line ∷ lines) c v =
    on_lines-IsSettled json lines (on_line json line c) (on_line-IsSettled json line c v)

on_event-IsSettled :
    (json : JsonRuntime) (e : Event) (c : PooledConnection)
    → IsSettled c
    → IsSettled (on_event json e c)
unfolding on_event on_data
on_event-IsSettled json opens c v = record { started = v.started; once = v.once; ended = v.ended }
on_event-IsSettled json (calls written) c v = call-IsSettled written c v
on_event-IsSettled json (times_out id) c v = settle-IsSettled id rejected c v
on_event-IsSettled json (chunk text) c v =
    let w = on_lines-IsSettled json (take_lines (c.buf ++ text)).0 c v in
    record { started = w.started; once = w.once; ended = w.ended }
on_event-IsSettled json killed c v = kill-IsSettled c v

on_events-kept :
    (json : JsonRuntime) (es : List Event) (c : PooledConnection)
    → IsSettled c
    → IsSettled (on_events json es c)
on_events-kept json [] c v = v
on_events-kept json (e ∷ es) c v =
    on_events-kept json es (on_event json e c) (on_event-IsSettled json e c v)

-- Whatever happens to a connection from its start on, and in whatever order: every id that it
-- has given to a call stands once among the calls that wait and those that are settled, and no
-- other id does, so that no call is settled twice or forgotten; and once it is dead, no call
-- waits.
pub on_events-IsSettled :
    (json : JsonRuntime) (es : List Event) → IsSettled (on_events json es fresh)
on_events-IsSettled json es = on_events-kept json es fresh (record {
  started = omega arith;
  once = λ id. ground arith;
  ended = λ d. absurd (ground (arith, d));
})
