-- ===== src/Js.antt =====
-- What the program uses of JavaScript's strings and numbers. A string is its list of UTF-16 code
-- units. A number is an integer or, as `none`, one that is no finite number; fractions are left
-- out, and integers beyond 2^53, which a double rounds, are exact here.
pub mod Json
use Prim.Native.Char.{code}
use Prim.Native.String.{String}
use mathlib.Core.List.{reverse, flat_map}
use strfry_namecoin_policy.Prelude.{
  ℕ, zero, suc, ◌+◌, ◌-◌, ◌*◌, ◌/◌, ◌%◌, ◌≡◌, refl, ◌↔◌, ap, Bool, true, false, not, ◌&&◌, ◌||◌,
  Option, none, some, List, [], ◌∷◌, ◌++◌, map, length, ltb, leb, ◌==◌, if◌then◌else◌, arith, take,
  drop,
}
use strfry_namecoin_policy.Prelude.Int.{ℤ, pos, negsuc}

abbrev pub Text : Type 0
Text = List ℕ

abbrev pub txt : String → Text
txt String.[] = []
txt (String.◌∷◌ c s) = code c ∷ txt s

-- `a === b` on strings.
unfoldable pub same : Text → Text → Bool
same [] [] = true
same [] (d ∷ b) = false
same (c ∷ a) [] = false
same (c ∷ a) (d ∷ b) = (c == d) && same a b

pub same_iff : (a b : Text) → (same a b ≡ true) ↔ (a ≡ b)
unfolding same
same_iff [] [] = ground arith
same_iff [] (d ∷ b) = ground arith
same_iff (c ∷ a) [] = ground arith
same_iff (c ∷ a) (d ∷ b) = ground (arith, same_iff a b)

-- The white space and line ends that `trim` and the number conversions drop.
unfoldable pub is_space : ℕ → Bool
is_space c =
    (leb 9 c && leb c 13)
    || (c == 32)
    || (c == 0xa0)
    || (c == 0x1680)
    || (leb 0x2000 c && leb c 0x200a)
    || (c == 0x2028)
    || (c == 0x2029)
    || (c == 0x202f)
    || (c == 0x205f)
    || (c == 0x3000)
    || (c == 0xfeff)

unfoldable pub trim_start : Text → Text
unfolding is_space
trim_start [] = []
trim_start (c ∷ s) = if is_space c then trim_start s else c ∷ s

unfoldable pub trim : Text → Text
unfolding trim_start
trim s = reverse (trim_start (reverse (trim_start s)))

unfoldable pub starts_with : Text → Text → Bool
starts_with [] s = true
starts_with (c ∷ p) [] = false
starts_with (c ∷ p) (d ∷ s) = (c == d) && starts_with p s

unfoldable pub ends_with : Text → Text → Bool
unfolding same
ends_with p s = leb (length p) (length s) && same (drop (length s - length p) s) p

-- `s.includes(c)` for one code unit.
unfoldable pub includes : ℕ → Text → Bool
includes c [] = false
includes c (d ∷ s) = (d == c) || includes c s

-- `s.split(c)` for one code unit.
unfoldable pub split : ℕ → Text → List Text
split c [] = [] ∷ []
split c (d ∷ s) =
    let rest = split c s in
    if d == c
    then [] ∷ rest
    else elim rest [ [] ↦ (d ∷ []) ∷ [] | piece ∷ more ↦ (d ∷ piece) ∷ more ]

unfoldable pub is_digit : ℕ → Bool
is_digit c = leb b'0' c && leb c b'9'

unfoldable pub is_hex : ℕ → Bool
is_hex c = (leb b'0' c && leb c b'9') || (leb b'a' c && leb c b'f') || (leb b'A' c && leb c b'F')

unfoldable pub all : (ℕ → Bool) → Text → Bool
all p [] = true
all p (c ∷ s) = p c && all p s

-- `/^[0-9a-f]{64}$/i`
unfoldable pub is_hex64 : Text → Bool
unfolding all is_hex
is_hex64 s = (length s == 64) && all is_hex s

-- The number that the leading digits write, after `acc`.
unfoldable pub digits : ℕ → Text → ℕ
unfolding is_digit
digits acc [] = acc
digits acc (c ∷ s) = let more = digits (acc * 10 + (c - b'0')) s in if is_digit c then more else acc

unfoldable pub unsigned : Text → Option ℕ
unfolding digits
unsigned [] = none
unsigned (c ∷ s) = if is_digit c then some (digits 0 (c ∷ s)) else none

unfoldable pub negative : ℕ → ℤ
negative zero = pos zero
negative (suc n) = negsuc n

-- A sign and what follows it.
unfoldable pub signed : (Text → Option ℕ) → Text → Option ℤ
unfolding negative
signed read [] = none
signed read (c ∷ s) =
    if c == b'-'
    then elim (read s) [ none ↦ none | some n ↦ some (negative n) ]
    else elim (read (if c == b'+' then s else c ∷ s)) [ none ↦ none | some n ↦ some (pos n) ]

-- `Number.parseInt(s, 10)`
unfoldable pub parse_int : Text → Option ℤ
unfolding signed unsigned trim_start
parse_int s = signed unsigned (trim_start s)

-- What the runtime does with the rest of Unicode and JSON, which the program only calls.
pub record Runtime : Type 0 where
  -- The lower case of a code unit from 128 on.
  pub lower_wide : ℕ → Text
  -- `Number(s)` for a trimmed text that is not a decimal integer; only integers are kept.
  pub other_number : Text → Option ℤ
  -- `buffer.toString('utf8')`
  pub decode_utf8 : List ℕ → Text
  -- `crypto.createHash('sha256').update(bytes).digest()`
  pub sha256 : List ℕ → List ℕ

module _ (rt : Runtime) where
  unfoldable pub lower_unit : ℕ → Text
  lower_unit c =
      if leb b'A' c && leb c b'Z'
      then (c + 32) ∷ []
      else if ltb c 128
      then c ∷ []
      else rt.lower_wide c

  -- `s.toLowerCase()`, code unit by code unit.
  unfoldable pub to_lower : Text → Text
  unfolding lower_unit
  to_lower [] = []
  to_lower (c ∷ s) = lower_unit c ++ to_lower s

  unfoldable pub decimal_integer : Text → Option ℕ
  unfolding all unsigned
  decimal_integer s = if all is_digit s then unsigned s else none

  -- `Number(s)`
  unfoldable pub number_of : Text → Option ℤ
  unfolding decimal_integer trim signed
  number_of s = elim (trim s) [
    | [] ↦ some (pos 0)
    | c ∷ r ↦ elim (signed decimal_integer (c ∷ r)) [
      | some n ↦ some n
      | none ↦ rt.other_number (c ∷ r)
    ]
  ]

abbrev is_low_surrogate : Text → Bool
is_low_surrogate [] = false
is_low_surrogate (d ∷ _) = leb 0xdc00 d && ltb d 0xe000

-- `Buffer.byteLength(s, 'utf8')`: a surrogate pair takes four bytes, one for its first unit here
-- and three for its second; a lone surrogate takes three.
unfoldable pub byte_length : Text → ℕ
byte_length [] = 0
byte_length (c ∷ s) =
    (if ltb c 0x80
      then 1
      else if ltb c 0x800
      then 2
      else if leb 0xd800 c && ltb c 0xdc00 && is_low_surrogate s
      then 1
      else 3)
    + byte_length s
