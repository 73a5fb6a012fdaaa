-- ===== src/Config.antt =====
-- src/config.js: the settings, read from the environment. A setting that is refused gives the
-- name of its variable. The logger, which only writes, is left out.
pub mod Hosts
pub mod Load
pub mod Sound
mod Tests
use strfry_namecoin_policy.Prelude.{
  ℕ, zero, suc, ◌+◌, Bool, true, false, not, ◌&&◌, ◌||◌, Option, none, some, List, [], ◌∷◌, length,
  take, drop, ltb, leb, ◌==◌, if◌then◌else◌,
}
use strfry_namecoin_policy.Prelude.Int.{ℤ, pos, negsuc, leb_ℤ, ltb_ℤ, eqb_ℤ}
use strfry_namecoin_policy.Js.{
  Text, txt, same, trim, split, all, is_digit, unsigned, parse_int, Runtime, number_of, to_lower,
}
use strfry_namecoin_policy.Circuit.{Host}

pub data Checked (A : Type 0) : Type 0 where
  valid : A → Checked A
  invalid : (variable : Text) → Checked A

infixl 5 ◌>>=◌
abbrev pub ◌>>=◌ : {A B : Type 0} → Checked A → (A → Checked B) → Checked B
valid a >>= f = f a
invalid variable >>= f = invalid variable

-- A number in lowest terms.
pub record Number : Type 0 where
  pub numerator : ℤ
  pub denominator : ℕ

-- `process.env`, and `Number(s)` for a text that writes no integer (`none` for NaN and the
-- infinities).
pub record Env : Type 0 where
  pub var : Text → Option Text
  pub other_number : Text → Option Number

abbrev pub integer : ℤ → Number
integer n = record { numerator = n; denominator = 1 }

abbrev pub number : Runtime → Env → Text → Option Number
number rt env s = elim (number_of rt s) [ none ↦ env.other_number s | some n ↦ some (integer n) ]

-- `env.X || other`
abbrev pub or_default : Option Text → Text → Text
or_default none other = other
or_default (some []) other = other
or_default (some (c ∷ s)) other = c ∷ s

-- `env.X || null`
abbrev pub non_empty : Option Text → Option Text
non_empty none = none
non_empty (some []) = none
non_empty (some (c ∷ s)) = some (c ∷ s)

abbrev pub any_of : List Text → Text → Bool
any_of [] s = false
any_of (t ∷ ts) s = same t s || any_of ts s

unfoldable pub parse_bool : Runtime → Option Text → Bool → Bool
parse_bool rt none dflt = dflt
parse_bool rt (some []) dflt = dflt
parse_bool rt (some (c ∷ s)) dflt =
    let v = trim (to_lower rt (c ∷ s)) in
    if any_of (txt "1" ∷ txt "true" ∷ txt "yes" ∷ txt "y" ∷ txt "on" ∷ []) v
    then true
    else if any_of (txt "0" ∷ txt "false" ∷ txt "no" ∷ txt "n" ∷ txt "off" ∷ []) v
    then false
    else dflt

-- A number that passes the tests of one of the three parsers; an unset or empty variable gives
-- the default.
abbrev pub parse_number : (Number → Bool) → Runtime → Env → Text → ℤ → Checked Number
parse_number passes rt env variable dflt = elim (non_empty (env.var variable)) [
  | none ↦ valid (integer dflt)
  | some raw ↦ elim (number rt env raw) [
    | none ↦ invalid variable
    | some n ↦ if passes n then valid n else invalid variable
  ]
]

-- `parsePosInt` with `allowZero`, as it is called.
unfoldable pub parse_pos_int : Runtime → Env → Text → ℤ → Checked Number
parse_pos_int = parse_number (λ n. (n.denominator == 1) && not (ltb_ℤ n.numerator (pos 0)))

unfoldable pub parse_positive_int : Runtime → Env → Text → ℤ → Checked Number
parse_positive_int = parse_number (λ n. not (leb_ℤ n.numerator (pos 0)))

unfoldable pub parse_non_negative_int : Runtime → Env → Text → ℤ → Checked Number
parse_non_negative_int = parse_number (λ n. not (ltb_ℤ n.numerator (pos 0)))

-- `/^\[([^\]]+)\]:(\d+)$/`, after its first character: what stands in the brackets, and the digits.
unfoldable pub bracketed : Text → Option (Text × Text)
bracketed [] = none
bracketed (c ∷ s) =
    let rest = bracketed s in
    if c == b']'
    then elim s [
      | [] ↦ none
      | d ∷ digits ↦
          if (d == b':') && all is_digit digits && not (length digits == 0)
          then some ([], digits)
          else none
    ]
    else elim rest [ none ↦ none | some (inside, digits) ↦ some (c ∷ inside, digits) ]

-- `s.lastIndexOf(':')`, with what stands before it and after it.
unfoldable pub split_last_colon : Text → Option (Text × Text)
split_last_colon [] = none
split_last_colon (c ∷ s) = elim (split_last_colon s) [
  | some (before, after) ↦ some (c ∷ before, after)
  | none ↦ if c == b':' then some ([], s) else none
]

pub record HostPort : Type 0 where
  pub host : Text
  pub port : ℕ

-- What a port's text must be: from 1 to 65535.
abbrev pub port_in_range : Option ℤ → Option ℕ
port_in_range none = none
port_in_range (some (negsuc n)) = none
port_in_range (some (pos n)) = if (n == 0) || ltb 65535 n then none else some n

abbrev pub named : Text → Option HostPort
named s = elim (split_last_colon s) [
  | none ↦ none
  | some (host, digits) ↦
      if (length host == 0) || (length digits == 0)
      then none
      else elim (port_in_range (parse_int digits)) [
        | none ↦ none
        | some port ↦ some (record { host = host; port = port })
      ]
]

-- `parseHostPort` of a trimmed text that is not empty; `none` where it throws.
unfoldable pub read_host_port : Text → Option HostPort
read_host_port [] = none
read_host_port (c ∷ s) =
    let v6 = if c == b'[' then bracketed s else none in
    elim v6 [
      | none ↦ named (c ∷ s)
      | some (inside, digits) ↦
          if length inside == 0 then named (c ∷ s) else elim (unsigned digits) [
            | none ↦ none
            | some port ↦ some (record { host = inside; port = port })
          ]
    ]

unfoldable pub parse_host_port : Text → Option Text → Checked (Option HostPort)
parse_host_port variable none = valid none
parse_host_port variable (some raw) =
    if length (trim raw) == 0
    then valid none
    else elim (read_host_port (trim raw)) [ none ↦ invalid variable | some hp ↦ valid (some hp) ]

abbrev pub default_port : Bool → ℕ
default_port tls = if tls then 50_002 else 50_001

-- The loop of `parseHostList`.
unfoldable pub read_hosts : Bool → List Text → Option (List Host)
read_hosts tls [] = some []
read_hosts tls (piece ∷ pieces) =
    let rest = read_hosts tls pieces in
    if length (trim piece) == 0 then rest else elim (read_host_port (trim piece)) [
      | none ↦ none
      | some hp ↦ elim rest [
        | none ↦ none
        | some hosts ↦ some (
            record {
              host = hp.host;
              port = if hp.port == 0 then default_port tls else hp.port;
              tls = tls;
            }
            ∷ hosts)
      ]
    ]

unfoldable pub parse_host_list : Text → Option Text → Bool → Checked (Option (List Host))
parse_host_list variable none tls = valid none
parse_host_list variable (some raw) tls =
    if length (trim raw) == 0 then valid none else elim (read_hosts tls (split b',' raw)) [
      | none ↦ invalid variable
      | some [] ↦ valid none
      | some (h ∷ hs) ↦ valid (some (h ∷ hs))
    ]
