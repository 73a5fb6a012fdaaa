-- ===== src/Js/Json.antt =====
-- The values that `JSON.parse` gives, and what the program does with a value of any type.
-- `undefined` is `none`. An object's keys are distinct, as the parser leaves them.
use strfry_namecoin_policy.Prelude.{
  ℕ, zero, suc, ◌+◌, ◌/◌, ◌%◌, Bool, true, false, not, ◌&&◌, ◌||◌, Option, none, some, List, [],
  ◌∷◌, ◌++◌, length, get_elem?, ltb, ◌==◌, if◌then◌else◌,
}
use strfry_namecoin_policy.Prelude.Int.{ℤ, pos, negsuc, eqb_ℤ}
use strfry_namecoin_policy.Js.{Text, txt, same, all, is_digit, unsigned, Runtime, number_of}

mutual
  pub data Json : Type 0 where
    null : Json
    bool : Bool → Json
    num : ℤ → Json
    str : Text → Json
    arr : Items → Json
    obj : Fields → Json

  pub data Items : Type 0 where
    nil : Items
    cons : Json → Items → Items

  pub data Fields : Type 0 where
    end : Fields
    field : Text → Json → Fields → Fields

abbrev pub items : Items → List Json
items nil = []
items (cons v vs) = v ∷ items vs

unfoldable pub field_of : Fields → Text → Option Json
unfolding same
field_of end k = none
field_of (field j v fs) k = if same j k then some v else field_of fs k

-- The index that a property name writes: digits, with no zero in front.
unfoldable pub array_index : Text → Option ℕ
unfolding all unsigned
array_index [] = none
array_index (c ∷ s) =
    if all is_digit (c ∷ s) && (not (c == b'0') || (length s == 0)) then unsigned (c ∷ s) else none

-- `v[k]`, for a value that is not null and a name that is no property of every object. No code
-- here reads a property of a text, a number or a truth value that such a value has.
unfoldable pub prop : Json → Text → Option Json
unfolding field_of array_index
prop (obj fs) k = field_of fs k
prop (arr vs) k = elim (array_index k) [ none ↦ none | some i ↦ get_elem? (items vs) i ]
prop _ k = none

unfoldable pub truthy : Option Json → Bool
truthy none = false
truthy (some null) = false
truthy (some (bool b)) = b
truthy (some (num n)) = not (eqb_ℤ n (pos 0))
truthy (some (str s)) = not (length s == 0)
truthy (some (arr _)) = true
truthy (some (obj _)) = true

-- `v && typeof v === 'object'`
unfoldable pub is_object : Option Json → Bool
is_object (some (arr _)) = true
is_object (some (obj _)) = true
is_object _ = false

-- `typeof v === 'string'`, with the text.
unfoldable pub as_text : Option Json → Option Text
as_text (some (str s)) = some s
as_text _ = none

-- `Array.isArray(v)`, with the elements.
unfoldable pub as_array : Option Json → Option (List Json)
as_array (some (arr vs)) = some (items vs)
as_array _ = none

-- `v === 'text'` and `v === number`.
unfoldable pub is_text : Option Json → Text → Bool
unfolding same
is_text (some (str s)) t = same s t
is_text _ t = false

unfoldable pub is_num : Option Json → ℤ → Bool
is_num (some (num n)) k = eqb_ℤ n k
is_num _ k = false

unfoldable pub is_nullish : Option Json → Bool
is_nullish none = true
is_nullish (some null) = true
is_nullish _ = false

-- The decimal digits of a number, with fuel for one digit at each step: `n` steps are enough.
decimal_from : ℕ → ℕ → Text → Text
decimal_from zero n acc = acc
decimal_from (suc f) n acc =
    let more = decimal_from f (n / 10) ((b'0' + n % 10) ∷ acc) in
    if ltb n 10 then (b'0' + n) ∷ acc else more

unfoldable pub decimal : ℤ → Text
unfolding decimal_from
decimal (pos n) = decimal_from (suc n) n []
decimal (negsuc n) = b'-' ∷ decimal_from (suc (suc n)) (suc n) []

-- `String(v)`: an array's elements are joined by commas, null among them as the empty text.
unfoldable mutual
  unfolding decimal

  pub to_text : Json → Text
  to_text null = txt "null"
  to_text (bool true) = txt "true"
  to_text (bool false) = txt "false"
  to_text (num n) = decimal n
  to_text (str s) = s
  to_text (arr vs) = join vs
  to_text (obj fs) = txt "[object Object]"

  pub join : Items → Text
  join nil = []
  join (cons null nil) = []
  join (cons v nil) = to_text v
  join (cons null vs) = b',' ∷ join vs
  join (cons v vs) = to_text v ++ (b',' ∷ join vs)

-- `Number(v)`
unfoldable pub to_number : Runtime → Option Json → Option ℤ
unfolding number_of to_text
to_number rt none = none
to_number rt (some null) = some (pos 0)
to_number rt (some (bool true)) = some (pos 1)
to_number rt (some (bool false)) = some (pos 0)
to_number rt (some (num n)) = some n
to_number rt (some (str s)) = number_of rt s
to_number rt (some (arr vs)) = number_of rt (to_text (arr vs))
to_number rt (some (obj fs)) = none

-- `JSON.parse` (`none` where it throws) and `JSON.stringify`, which the program only calls.
pub record JsonRuntime : Type 0 where
  pub parse : Text → Option Json
  pub stringify : Json → Text
