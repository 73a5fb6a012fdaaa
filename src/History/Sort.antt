-- ===== src/History/Sort.antt =====
-- src/electrumx.js: the history sorted by height, highest first.
use mathlib.Core.Path.{subst, sym}
use strfry_namecoin_policy.Prelude.{
  ℕ, suc, ◌≤◌, ◌≡◌, refl, ap, ◌∙◌, ◌⊎◌, inl, inr, true, false, List, [], ◌∷◌, length, leb, arith,
  All, Any, Bool-cases,
}
use strfry_namecoin_policy.History.{Entry, insert_entry, sort_entries}

abbrev pub IsDescending : List Entry → Type 0
IsDescending [] = Unit
IsDescending (e ∷ es) = All (λ y. y.height ≤ e.height) es × IsDescending es

All-weaken :
    (a b : ℕ) (es : List Entry) → a ≤ b → All (λ y. y.height ≤ a) es → All (λ y. y.height ≤ b) es
All-weaken a b [] h all = tt
All-weaken a b (e ∷ es) h all = (omega arith, All-weaken a b es h all.1)

insert_first :
    (e x : Entry) (xs : List Entry)
    → leb x.height e.height ≡ true
    → insert_entry e (x ∷ xs) ≡ e ∷ x ∷ xs
unfolding insert_entry
insert_first e x xs h = rw h

insert_later :
    (e x : Entry) (xs : List Entry)
    → leb x.height e.height ≡ false
    → insert_entry e (x ∷ xs) ≡ x ∷ insert_entry e xs
unfolding insert_entry
insert_later e x xs h = rw h

module _ (P : Entry → Type 0) where
  All-insert_entry : (e : Entry) (es : List Entry) → P e → All P es → All P (insert_entry e es)
  unfolding insert_entry
  All-insert_entry e [] p all = (p, tt)
  All-insert_entry e (x ∷ xs) p (here, all) = elim (Bool-cases (leb x.height e.height)) [
    | inl first ↦ subst (All P) (sym (insert_first e x xs first)) (p, (here, all))
    | inr later ↦
        subst (All P) (sym (insert_later e x xs later)) (here, All-insert_entry e xs p all)
  ]

  pub All-sort_entries : (es : List Entry) → All P es → All P (sort_entries es)
  unfolding sort_entries
  All-sort_entries [] all = tt
  All-sort_entries (e ∷ es) (here, all) =
      All-insert_entry e (sort_entries es) here (All-sort_entries es all)

  All_of_insert_entry : (e : Entry) (es : List Entry) → All P (insert_entry e es) → P e × All P es
  unfolding insert_entry
  All_of_insert_entry e [] all = all
  All_of_insert_entry e (x ∷ xs) all = elim (Bool-cases (leb x.height e.height)) [
    | inl first ↦ subst (All P) (insert_first e x xs first) all
    | inr later ↦
        let (here, more) = subst (All P) (insert_later e x xs later) all in
        let (mine, rest) = All_of_insert_entry e xs more in (mine, (here, rest))
  ]

  pub All_of_sort_entries : (es : List Entry) → All P (sort_entries es) → All P es
  unfolding sort_entries
  All_of_sort_entries [] all = tt
  All_of_sort_entries (e ∷ es) all =
      let (here, more) = All_of_insert_entry e (sort_entries es) all in
      (here, All_of_sort_entries es more)

  Any-of_insert_entry : (e : Entry) (es : List Entry) → Any P (insert_entry e es) → P e ⊎ Any P es
  unfolding insert_entry
  Any-of_insert_entry e [] any = any
  Any-of_insert_entry e (x ∷ xs) any = elim (Bool-cases (leb x.height e.height)) [
    | inl first ↦ subst (Any P) (insert_first e x xs first) any
    | inr later ↦ elim (subst (Any P) (insert_later e x xs later) any) [
      | inl here ↦ inr (inl here)
      | inr more ↦ elim (Any-of_insert_entry e xs more) [ inl p ↦ inl p | inr q ↦ inr (inr q) ]
    ]
  ]

  pub Any-of_sort_entries : (es : List Entry) → Any P (sort_entries es) → Any P es
  unfolding sort_entries
  Any-of_sort_entries [] any = any
  Any-of_sort_entries (e ∷ es) any = elim (Any-of_insert_entry e (sort_entries es) any) [
    | inl here ↦ inl here
    | inr more ↦ inr (Any-of_sort_entries es more)
  ]

insert_entry-IsDescending :
    (e : Entry) (es : List Entry) → IsDescending es → IsDescending (insert_entry e es)
unfolding insert_entry
insert_entry-IsDescending e [] d = (tt, tt)
insert_entry-IsDescending e (x ∷ xs) (top, d) = elim (Bool-cases (leb x.height e.height)) [
  | inl first ↦
      subst IsDescending (sym (insert_first e x xs first))
        ((ground arith, All-weaken x.height e.height xs (ground arith) top), (top, d))
  | inr later ↦ subst IsDescending (sym (insert_later e x xs later)) (
    All-insert_entry (λ y. y.height ≤ x.height) e xs (ground arith) top,
    insert_entry-IsDescending e xs d,
  )
]

pub sort_entries-IsDescending : (es : List Entry) → IsDescending (sort_entries es)
unfolding sort_entries
sort_entries-IsDescending [] = tt
sort_entries-IsDescending (e ∷ es) =
    insert_entry-IsDescending e (sort_entries es) (sort_entries-IsDescending es)

length-insert_entry : (e : Entry) (es : List Entry) → length (insert_entry e es) ≡ suc (length es)
unfolding insert_entry
length-insert_entry e [] = refl
length-insert_entry e (x ∷ xs) = ground (arith, length-insert_entry e xs)

pub length-sort_entries : (es : List Entry) → length (sort_entries es) ≡ length es
unfolding sort_entries
length-sort_entries [] = refl
length-sort_entries (e ∷ es) =
    length-insert_entry e (sort_entries es) ∙ ap suc (length-sort_entries es)
