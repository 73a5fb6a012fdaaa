-- ===== src/Client/Pins.antt =====
-- src/electrumx.js: the certificate pins, parseCertPins and verifyCertPins. Base64 is a parameter.
pub mod Match
use strfry_namecoin_policy.Prelude.{
  ℕ, ◌+◌, Bool, true, false, ◌&&◌, ◌||◌, Option, none, some, List, [], ◌∷◌, map, length, drop, leb,
  ◌==◌, if◌then◌else◌,
}
use strfry_namecoin_policy.Js.{Text, txt, same, starts_with, trim, split, Runtime, to_lower}
use strfry_namecoin_policy.Script.{Bytes, to_hex}

pub record Base64 : Type 0 where
  -- `Buffer.from(s, 'base64')`
  pub decode : Text → Bytes
  -- `buffer.toString('base64')`
  pub encode : Bytes → Text

pub data Pin : Type 0 where
  der : (hex : Text) → Pin
  spki : (b64 : Text) → Pin

-- What the flag `i` of a regular expression makes of an ASCII letter.
abbrev fold_case : ℕ → ℕ
fold_case c = if leb 65 c && leb c 90 then c + 32 else c

-- `/^sha256\//i`
unfoldable pub is_spki : Text → Bool
is_spki p = starts_with (txt "sha256/") (map fold_case p)

-- A character of `[0-9a-f]`.
abbrev pub is_lower_hex : ℕ → Bool
is_lower_hex c = (leb 48 c && leb c 57) || (leb 97 c && leb c 102)

-- `s.replace(/[^0-9a-f]/g, '')`
unfoldable pub only_hex : Text → Text
only_hex [] = []
only_hex (c ∷ s) = let rest = only_hex s in if is_lower_hex c then c ∷ rest else rest

-- One part that is not blank; `none` where the source throws.
unfoldable pub parse_pin : Runtime → Base64 → Text → Option Pin
parse_pin rt base64 p =
    let b64 = trim (drop 7 p) in
    let hex = only_hex (to_lower rt p) in
    if is_spki p
    then if length b64 == 0
      then none
      else if length (base64.decode b64) == 32
      then some (spki (base64.encode (base64.decode b64)))
      else none
    else if length hex == 64
    then some (der hex)
    else none

unfoldable pub parse_parts : Runtime → Base64 → List Text → Option (List Pin)
parse_parts rt base64 [] = some []
parse_parts rt base64 (part ∷ parts) =
    let rest = parse_parts rt base64 parts in
    if length (trim part) == 0 then rest else elim (parse_pin rt base64 (trim part)) [
      | none ↦ none
      | some pin ↦ elim rest [ none ↦ none | some pins ↦ some (pin ∷ pins) ]
    ]

unfoldable pub parse_cert_pins : Runtime → Base64 → Text → Option (List Pin)
parse_cert_pins rt base64 raw =
    if length raw == 0 then some [] else parse_parts rt base64 (split 44 raw)

-- What the socket tells of the peer's certificate: its bytes, and those of its public key.
pub record Certificate : Type 0 where
  pub raw : Bytes
  pub pubkey : Option Bytes

pub data Verified : Type 0 where
  passed no_certificate mismatch : Verified

unfoldable pub matches : Runtime → Base64 → Certificate → Pin → Bool
matches rt base64 peer (der hex) = same hex (to_hex (rt.sha256 peer.raw))
matches rt base64 peer (spki b64) = elim peer.pubkey [
  | none ↦ false
  | some key ↦ same b64 (base64.encode (rt.sha256 key))
]

unfoldable pub any_match : Runtime → Base64 → Certificate → List Pin → Bool
any_match rt base64 peer [] = false
any_match rt base64 peer (pin ∷ pins) =
    if matches rt base64 peer pin then true else any_match rt base64 peer pins

unfoldable pub verify_cert_pins : Runtime → Base64 → Option Certificate → List Pin → Verified
verify_cert_pins rt base64 peer [] = passed
verify_cert_pins rt base64 none (pin ∷ pins) = no_certificate
verify_cert_pins rt base64 (some peer) (pin ∷ pins) =
    if any_match rt base64 peer (pin ∷ pins) then passed else mismatch
