-- ===== src/PersistentCache/Coding.antt =====
-- A way to write values as lines and to read them back, to stand for JSON.stringify and
-- JSON.parse in the tests of src/persistent-cache.js: each line is a program of instructions for
-- a stack, two codes for each, all above the line feed's.
use strfry_namecoin_policy.Prelude.{
  ℕ, ◌+◌, ◌-◌, ◌<◌, ◌≡◌, refl, ap, ◌∙◌, true, false, none, some, List, [], ◌∷◌, length, ◌==◌,
  if◌then◌else◌, arith, All,
}
use strfry_namecoin_policy.Prelude.Int.{pos, negsuc}
use strfry_namecoin_policy.Js.{Text}
use strfry_namecoin_policy.Js.Json.{
  Json, null, bool, num, str, arr, obj, Items, nil, cons, Fields, end, field, JsonRuntime,
}
use strfry_namecoin_policy.PersistentCache.Log.{IsFaithful}

pub data Cell : Type 0 where
  value : Json → Cell
  items : Items → Cell
  fields : Fields → Cell
  text : Text → Cell

abbrev pub push_code : ℕ → List Cell → List Cell
push_code c (text s ∷ st) = text (c ∷ s) ∷ st
push_code c st = st

abbrev pub to_str : List Cell → List Cell
to_str (text s ∷ st) = value (str s) ∷ st
to_str st = st

abbrev pub to_cons : List Cell → List Cell
to_cons (value v ∷ (items vs ∷ st)) = items (cons v vs) ∷ st
to_cons st = st

abbrev pub to_arr : List Cell → List Cell
to_arr (items vs ∷ st) = value (arr vs) ∷ st
to_arr st = st

abbrev pub to_field : List Cell → List Cell
to_field (value v ∷ (text k ∷ (fields fs ∷ st))) = fields (field k v fs) ∷ st
to_field st = st

abbrev pub to_obj : List Cell → List Cell
to_obj (fields fs ∷ st) = value (obj fs) ∷ st
to_obj st = st

abbrev pub act : ℕ → ℕ → List Cell → List Cell
act tag n st =
    if tag == 11
    then value null ∷ st
    else if tag == 12
    then value (bool true) ∷ st
    else if tag == 13
    then value (bool false) ∷ st
    else if tag == 14
    then value (num (pos n)) ∷ st
    else if tag == 15
    then value (num (negsuc n)) ∷ st
    else if tag == 16
    then text [] ∷ st
    else if tag == 17
    then push_code n st
    else if tag == 18
    then to_str st
    else if tag == 19
    then items nil ∷ st
    else if tag == 20
    then to_cons st
    else if tag == 21
    then to_arr st
    else if tag == 22
    then fields end ∷ st
    else if tag == 23
    then to_field st
    else to_obj st

abbrev pub exec : Text → List Cell → List Cell
exec [] st = st
exec (tag ∷ []) st = st
exec (tag ∷ (n ∷ rest)) st = exec rest (act tag (n - 11) st)

abbrev pub op : ℕ → ℕ → Text → Text
op tag n rest = tag ∷ (n + 11) ∷ rest

-- A text's program, before the rest of a program.
abbrev pub text_code : Text → Text → Text
text_code [] rest = op 16 0 rest
text_code (c ∷ s) rest = text_code s (op 17 c rest)

abbrev mutual
  pub json_code : Json → Text → Text
  json_code null rest = op 11 0 rest
  json_code (bool true) rest = op 12 0 rest
  json_code (bool false) rest = op 13 0 rest
  json_code (num (pos n)) rest = op 14 n rest
  json_code (num (negsuc n)) rest = op 15 n rest
  json_code (str s) rest = text_code s (op 18 0 rest)
  json_code (arr vs) rest = items_code vs (op 21 0 rest)
  json_code (obj fs) rest = fields_code fs (op 24 0 rest)

  pub items_code : Items → Text → Text
  items_code nil rest = op 19 0 rest
  items_code (cons v vs) rest = items_code vs (json_code v (op 20 0 rest))

  pub fields_code : Fields → Text → Text
  fields_code end rest = op 22 0 rest
  fields_code (field k v fs) rest = fields_code fs (text_code k (json_code v (op 23 0 rest)))

abbrev pub coding : JsonRuntime
coding = record {
  parse = λ line. elim (exec line []) [
    | [] ↦ none
    | cell ∷ st ↦ elim cell [
      | value v ↦ some v
      | items vs ↦ none
      | fields fs ↦ none
      | text s ↦ none
    ]
  ];
  stringify = λ v. json_code v [];
}

exec-op :
    (tag n : ℕ) (rest : Text) (st : List Cell) → exec (op tag n rest) st ≡ exec rest (act tag n st)
exec-op tag n rest st = ap (λ m. exec rest (act tag m st)) (omega arith)

exec-text_code :
    (s rest : Text) (st : List Cell) → exec (text_code s rest) st ≡ exec rest (text s ∷ st)
exec-text_code [] rest st = exec-op 16 0 rest st
exec-text_code (c ∷ s) rest st =
    exec-text_code s (op 17 c rest) st ∙ exec-op 17 c rest (text s ∷ st)

mutual
  exec-json_code :
      (v : Json) (rest : Text) (st : List Cell)
      → exec (json_code v rest) st ≡ exec rest (value v ∷ st)
  exec-json_code null rest st = exec-op 11 0 rest st
  exec-json_code (bool true) rest st = exec-op 12 0 rest st
  exec-json_code (bool false) rest st = exec-op 13 0 rest st
  exec-json_code (num (pos n)) rest st = exec-op 14 n rest st
  exec-json_code (num (negsuc n)) rest st = exec-op 15 n rest st
  exec-json_code (str s) rest st =
      exec-text_code s (op 18 0 rest) st ∙ exec-op 18 0 rest (text s ∷ st)
  exec-json_code (arr vs) rest st =
      exec-items_code vs (op 21 0 rest) st ∙ exec-op 21 0 rest (items vs ∷ st)
  exec-json_code (obj fs) rest st =
      exec-fields_code fs (op 24 0 rest) st ∙ exec-op 24 0 rest (fields fs ∷ st)

  exec-items_code :
      (vs : Items) (rest : Text) (st : List Cell)
      → exec (items_code vs rest) st ≡ exec rest (items vs ∷ st)
  exec-items_code nil rest st = exec-op 19 0 rest st
  exec-items_code (cons v vs) rest st =
      exec-items_code vs (json_code v (op 20 0 rest)) st
      ∙ exec-json_code v (op 20 0 rest) (items vs ∷ st)
      ∙ exec-op 20 0 rest (value v ∷ items vs ∷ st)

  exec-fields_code :
      (fs : Fields) (rest : Text) (st : List Cell)
      → exec (fields_code fs rest) st ≡ exec rest (fields fs ∷ st)
  exec-fields_code end rest st = exec-op 22 0 rest st
  exec-fields_code (field k v fs) rest st =
      exec-fields_code fs (text_code k (json_code v (op 23 0 rest))) st
      ∙ exec-text_code k (json_code v (op 23 0 rest)) (fields fs ∷ st)
      ∙ exec-json_code v (op 23 0 rest) (text k ∷ fields fs ∷ st)
      ∙ exec-op 23 0 rest (value v ∷ text k ∷ fields fs ∷ st)

abbrev Plain : Text → Type 0
Plain s = All (λ c. (c == 10) ≡ false) s × (0 < length s)

op-Plain :
    (tag n : ℕ) (rest : Text)
    → (tag == 10) ≡ false
    → All (λ c. (c == 10) ≡ false) rest
    → Plain (op tag n rest)
op-Plain tag n rest h k = ((h, (ground arith, k)), omega arith)

text_code-Plain : (s rest : Text) → All (λ c. (c == 10) ≡ false) rest → Plain (text_code s rest)
text_code-Plain [] rest h = op-Plain 16 0 rest refl h
text_code-Plain (c ∷ s) rest h = text_code-Plain s (op 17 c rest) (op-Plain 17 c rest refl h).0

mutual
  json_code-Plain :
      (v : Json) (rest : Text) → All (λ c. (c == 10) ≡ false) rest → Plain (json_code v rest)
  json_code-Plain null rest h = op-Plain 11 0 rest refl h
  json_code-Plain (bool true) rest h = op-Plain 12 0 rest refl h
  json_code-Plain (bool false) rest h = op-Plain 13 0 rest refl h
  json_code-Plain (num (pos n)) rest h = op-Plain 14 n rest refl h
  json_code-Plain (num (negsuc n)) rest h = op-Plain 15 n rest refl h
  json_code-Plain (str s) rest h = text_code-Plain s (op 18 0 rest) (op-Plain 18 0 rest refl h).0
  json_code-Plain (arr vs) rest h = items_code-Plain vs (op 21 0 rest) (op-Plain 21 0 rest refl h).0
  json_code-Plain (obj fs) rest h =
      fields_code-Plain fs (op 24 0 rest) (op-Plain 24 0 rest refl h).0

  items_code-Plain :
      (vs : Items) (rest : Text) → All (λ c. (c == 10) ≡ false) rest → Plain (items_code vs rest)
  items_code-Plain nil rest h = op-Plain 19 0 rest refl h
  items_code-Plain (cons v vs) rest h =
      items_code-Plain vs (json_code v (op 20 0 rest))
        (json_code-Plain v (op 20 0 rest) (op-Plain 20 0 rest refl h).0).0

  fields_code-Plain :
      (fs : Fields) (rest : Text) → All (λ c. (c == 10) ≡ false) rest → Plain (fields_code fs rest)
  fields_code-Plain end rest h = op-Plain 22 0 rest refl h
  fields_code-Plain (field k v fs) rest h =
      let inner = (json_code-Plain v (op 23 0 rest) (op-Plain 23 0 rest refl h).0).0 in
      fields_code-Plain fs (text_code k (json_code v (op 23 0 rest)))
        (text_code-Plain k (json_code v (op 23 0 rest)) inner).0

pub coding-IsFaithful : IsFaithful coding
coding-IsFaithful = record {
  one_line = λ v. let (plain, some_code) = json_code-Plain v [] tt in (some_code, plain);
  back = λ v. rw (exec-json_code v [] [], coding) refl;
}
