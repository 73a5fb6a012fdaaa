-- ===== src/PersistentCache/Replay.antt =====
-- src/persistent-cache.js: replays of one file at different times, and of a file to which a
-- record is added.
use mathlib.Core.List.{append_assoc, append-nil}
use strfry_namecoin_policy.Prelude.{
  ℕ, ◌≡◌, refl, sym, ap, ◌∙◌, true, false, ◌&&◌, some, List, [], ◌∷◌, ◌++◌, ltb, ◌==◌, Bool-cases,
  Option-cases, inl, inr, All, All-append,
}
use strfry_namecoin_policy.Js.{Text, txt, split, Runtime}
use strfry_namecoin_policy.Js.Json.{Json, prop, is_text, as_text, is_object, JsonRuntime}
use strfry_namecoin_policy.Store
use strfry_namecoin_policy.Store.{Distinct, lookup}
use strfry_namecoin_policy.Store.Laws.{delete-Distinct, insert-Distinct}
use strfry_namecoin_policy.PersistentCache.{
  Entry, is_over, expires_of, replay_record, replay_line, replay, line_of, compacted, set_record,
}
use strfry_namecoin_policy.PersistentCache.Log.{
  IsFaithful, place, split-line, replay-split, replay-append, replay-end,
}
use strfry_namecoin_policy.PersistentCache.Kept.{
  Keeps, Keeps-nil, Keeps-delete, Keeps-place, Keeps-drop,
}

pub place-Distinct :
    (now ttl_ms : ℕ) (k : Text) (entry : Entry) (m : List (Text × Entry))
    → Distinct m
    → Distinct (place now ttl_ms k entry m)
place-Distinct now ttl_ms k entry m d =
    elim (Bool-cases (ltb 0 ttl_ms && is_over entry.expires now)) [
      | inl over ↦ rw over (delete-Distinct k m d)
      | inr good ↦ rw good (insert-Distinct k entry m d)
    ]

-- An entry that is replayed at two times.
Keeps-replaced :
    (now₀ now ttl_ms : ℕ) (k : Text) (entry : Entry) (m m' : List (Text × Entry))
    → Distinct m
    → Distinct m'
    → Keeps now ttl_ms m m'
    → Keeps now ttl_ms (place now₀ ttl_ms k entry m) (place now ttl_ms k entry m')
Keeps-replaced now₀ now ttl_ms k entry m m' d d' kept =
    elim (Bool-cases (ltb 0 ttl_ms && is_over entry.expires now₀)) [
      | inl over ↦ rw over (Keeps-drop now ttl_ms k entry m m' d d' kept)
      | inr good ↦ rw good (Keeps-place now ttl_ms k entry m m' d' kept)
    ]

-- Two maps with their keys distinct, one of which keeps the other's entries.
pub record Pair (now ttl_ms : ℕ) (m m' : List (Text × Entry)) : Type 0 where
  pub distinct : Distinct m
  pub distinct' : Distinct m'
  pub kept : Keeps now ttl_ms m m'

module _ (rt : Runtime) (json : JsonRuntime) where
  replay_record-Pair :
      (now₀ now ttl_ms : ℕ) (rec : Json) (m m' : List (Text × Entry))
      → Pair now ttl_ms m m'
      → Pair now ttl_ms
          (replay_record rt json now₀ ttl_ms rec m)
          (replay_record rt json now ttl_ms rec m')
  unfolding replay_record
  replay_record-Pair now₀ now ttl_ms rec m m' p =
      let op = prop rec (txt "op") in
      let none_left : Pair now ttl_ms [] [] = record {
        distinct = tt;
        distinct' = tt;
        kept = Keeps-nil now ttl_ms [];
      } in
      elim (Option-cases (as_text (prop rec (txt "k")))) [
        | inl keyless ↦ elim (Bool-cases (is_text op (txt "clear"))) [
          | inl c ↦ rw (keyless, c, replay_record) none_left
          | inr n ↦ rw (keyless, n, replay_record) p
        ]
        | inr (k, key) ↦
            let entry : Entry = record {
              value = prop rec (txt "v");
              expires = expires_of rt json rec;
            } in
            let dropped : Pair now ttl_ms (Store.delete k m) (Store.delete k m') = record {
              distinct = delete-Distinct k m p.distinct;
              distinct' = delete-Distinct k m' p.distinct';
              kept = Keeps-delete now ttl_ms k m m' p.distinct p.kept;
            } in
            let placed : Pair now ttl_ms (place now₀ ttl_ms k entry m)
                (place now ttl_ms k entry m') =
              record {
                distinct = place-Distinct now₀ ttl_ms k entry m p.distinct;
                distinct' = place-Distinct now ttl_ms k entry m' p.distinct';
                kept = Keeps-replaced now₀ now ttl_ms k entry m m' p.distinct p.distinct' p.kept;
              } in
            elim (Bool-cases (is_text op (txt "set"))) [
              | inl s ↦ rw (key, s, replay_record) placed
              | inr ns ↦ elim (Bool-cases (is_text op (txt "del"))) [
                | inl d ↦ rw (key, ns, d, replay_record) dropped
                | inr nd ↦ elim (Bool-cases (is_text op (txt "clear"))) [
                  | inl c ↦ rw (key, ns, nd, c, replay_record) none_left
                  | inr n ↦ rw (key, ns, nd, n, replay_record) p
                ]
              ]
            ]
      ]

  replay_line-Pair :
      (now₀ now ttl_ms : ℕ) (line : Text) (m m' : List (Text × Entry))
      → Pair now ttl_ms m m'
      → Pair now ttl_ms
          (replay_line rt json now₀ ttl_ms line m)
          (replay_line rt json now ttl_ms line m')
  unfolding replay_line
  replay_line-Pair now₀ now ttl_ms [] m m' p = p
  replay_line-Pair now₀ now ttl_ms (c ∷ line) m m' p = elim (Option-cases (json.parse (c ∷ line))) [
    | inl bad ↦ rw (bad, replay_line) p
    | inr (rec, good) ↦ elim (Bool-cases (is_object (some rec))) [
      | inl is ↦ rw (good, is, replay_line) (replay_record-Pair now₀ now ttl_ms rec m m' p)
      | inr is_not ↦ rw (good, is_not, replay_line) p
    ]
  ]

  pub replay-Pair :
      (now₀ now ttl_ms : ℕ) (lines : List Text) (m m' : List (Text × Entry))
      → Pair now ttl_ms m m'
      → Pair now ttl_ms (replay rt json now₀ ttl_ms lines m) (replay rt json now ttl_ms lines m')
  unfolding replay
  replay-Pair now₀ now ttl_ms [] m m' p = p
  replay-Pair now₀ now ttl_ms (line ∷ lines) m m' p =
      replay-Pair now₀ now ttl_ms lines (replay_line rt json now₀ ttl_ms line m)
        (replay_line rt json now ttl_ms line m') (replay_line-Pair now₀ now ttl_ms line m m' p)

  -- The file's replay, from an empty map.
  abbrev pub logged : ℕ → ℕ → Text → List (Text × Entry)
  logged now ttl_ms file = replay rt json now ttl_ms (split 10 file) []

  abbrev unlines : List Text → Text
  unlines [] = []
  unlines (l ∷ ls) = l ++ 10 ∷ unlines ls

  -- A file of whole lines: no line is cut short at its end.
  abbrev pub IsWhole : Text → Type 0
  IsWhole file = (ls : List Text) × All (All (λ c. (c == 10) ≡ false)) ls × (file ≡ unlines ls)

  split-unlines :
      (ls : List Text) (rest : Text)
      → All (All (λ c. (c == 10) ≡ false)) ls
      → split 10 (unlines ls ++ rest) ≡ ls ++ split 10 rest
  split-unlines [] rest h = refl
  split-unlines (l ∷ ls) rest h =
      rw (append_assoc l (10 ∷ unlines ls) rest, split-line l (unlines ls ++ rest) h.0)
        (ap (◌∷◌ l) (split-unlines ls rest h.1))

  pub IsWhole-nil : IsWhole []
  IsWhole-nil = ([], tt, refl)

  replay-unlines :
      (now ttl_ms : ℕ) (ls : List Text) (rest : Text)
      → All (All (λ c. (c == 10) ≡ false)) ls
      → replay rt json now ttl_ms (split 10 (unlines ls ++ rest)) []
        ≡ replay rt json now ttl_ms (split 10 rest) (replay rt json now ttl_ms ls [])
  replay-unlines now ttl_ms ls rest h =
      rw (split-unlines ls rest h) (replay-append rt json now ttl_ms ls (split 10 rest) [])

  pub logged-append :
      IsFaithful json
      → (now ttl_ms : ℕ) (file : Text) (rec : Json) → IsWhole file
      → is_object (some rec) ≡ true
      → logged now ttl_ms (file ++ line_of rt json rec)
        ≡ replay_record rt json now ttl_ms rec (logged now ttl_ms file)
  logged-append faithful now ttl_ms file rec (ls, h, e) o =
      let before = replay rt json now ttl_ms ls [] in
      let all : logged now ttl_ms (unlines ls) ≡ before =
        ap (logged now ttl_ms) (sym (append-nil (unlines ls)))
        ∙ replay-unlines now ttl_ms ls [] h
        ∙ replay-end rt json now ttl_ms before in
      rw e (
        replay-unlines now ttl_ms ls (line_of rt json rec) h
        ∙ ap (λ s. replay rt json now ttl_ms (split 10 s) before)
            (sym (append-nil (line_of rt json rec)))
        ∙ replay-split rt json faithful now ttl_ms rec [] before o
        ∙ replay-end rt json now ttl_ms (replay_record rt json now ttl_ms rec before)
        ∙ ap (replay_record rt json now ttl_ms rec) (sym all))

  unlines-append :
      (ls : List Text) (l : Text) → unlines (ls ++ l ∷ []) ≡ unlines ls ++ (l ++ 10 ∷ [])
  unlines-append [] l = refl
  unlines-append (k ∷ ls) l =
      ap (λ s. k ++ 10 ∷ s) (unlines-append ls l)
      ∙ sym (append_assoc k (10 ∷ unlines ls) (l ++ 10 ∷ []))

  pub append-IsWhole :
      IsFaithful json
      → (file : Text) (rec : Json) → IsWhole file
      → IsWhole (file ++ line_of rt json rec)
  unfolding line_of
  append-IsWhole faithful file rec (ls, h, e) =
      let l = json.stringify rec in
      (
        ls ++ l ∷ [],
        All-append (All (λ c. (c == 10) ≡ false)) ls (l ∷ []) h ((faithful.one_line rec).1, tt),
        rw e (sym (unlines-append ls l)),
      )

  pub compacted-IsWhole :
      IsFaithful json → (m : List (Text × Entry)) → IsWhole (compacted rt json m)
  unfolding compacted line_of
  compacted-IsWhole faithful [] = IsWhole-nil
  compacted-IsWhole faithful ((k, entry) ∷ m) =
      let (ls, h, e) = compacted-IsWhole faithful m in
      let l = json.stringify (set_record k entry) in
      (
        l ∷ ls,
        ((faithful.one_line (set_record k entry)).1, h),
        append_assoc l (10 ∷ []) (compacted rt json m) ∙ ap (λ s. l ++ 10 ∷ s) e,
      )
