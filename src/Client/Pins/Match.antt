-- ===== src/Client/Pins/Match.antt =====
-- src/electrumx.js: which certificates pass, and what a parsed pin is.
use mathlib.Core.Path.{subst}
use mathlib.Core.Option.{some-injective}
use strfry_namecoin_policy.Prelude.{
  ◌≡◌, refl, sym, ◌∙◌, ◌⊎◌, ◌↔◌, inl, inr, true, Option, none, some, List, [], ◌∷◌, length, ◌==◌,
  All, Any, Every, of_Every, arith, Bool-cases, Option-cases, drop, ==_iff,
}
use strfry_namecoin_policy.Js.{Text, same_iff, all, trim, split, Runtime, to_lower}
use strfry_namecoin_policy.Script.{Bytes, to_hex}
use strfry_namecoin_policy.Client.Pins.{
  Base64, Pin, der, spki, is_lower_hex, is_spki, only_hex, parse_pin, parse_parts, parse_cert_pins,
  Certificate, passed, matches, any_match, verify_cert_pins,
}

-- A fingerprint in hexadecimal, or 32 bytes in base64.
abbrev pub IsPin : Base64 → Pin → Type 0
IsPin base64 (der hex) = (length hex ≡ 64) × (all is_lower_hex hex ≡ true)
IsPin base64 (spki b64) = (bytes : Bytes) × (length bytes ≡ 32) × (b64 ≡ base64.encode bytes)

only_hex-all : (s : Text) → all is_lower_hex (only_hex s) ≡ true
unfolding only_hex all
only_hex-all [] = refl
only_hex-all (c ∷ s) = ground (arith, only_hex-all s)

spki-injective : {a b : Text} → spki a ≡ spki b → a ≡ b
spki-injective e = cc

parse_pin-IsPin :
    (rt : Runtime) (base64 : Base64) (p : Text) → Every (IsPin base64) (parse_pin rt base64 p)
unfolding parse_pin
parse_pin-IsPin rt base64 p =
    let b64 = trim (drop 7 p) in
    let hex = only_hex (to_lower rt p) in
    elim (Bool-cases (is_spki p)) [
      | inl key ↦ elim (Bool-cases (length b64 == 0)) [
        | inl blank ↦ rw (key, blank, parse_pin) tt
        | inr filled ↦ elim (Bool-cases (length (base64.decode b64) == 32)) [
          | inl long ↦
              rw (key, filled, long, parse_pin) (base64.decode b64, (==_iff _ _).0 long, refl)
          | inr short ↦ rw (key, filled, short, parse_pin) tt
        ]
      ]
      | inr fingerprint ↦ elim (Bool-cases (length hex == 64)) [
        | inl long ↦
            rw (fingerprint, long, parse_pin) ((==_iff _ _).0 long, only_hex-all (to_lower rt p))
        | inr short ↦ rw (fingerprint, short, parse_pin) tt
      ]
    ]

parse_parts-IsPin :
    (rt : Runtime) (base64 : Base64) (parts : List Text)
    → Every (All (IsPin base64)) (parse_parts rt base64 parts)
unfolding parse_parts
parse_parts-IsPin rt base64 [] = tt
parse_parts-IsPin rt base64 (part ∷ parts) = elim (Bool-cases (length (trim part) == 0)) [
  | inl blank ↦ rw (blank, parse_parts) (parse_parts-IsPin rt base64 parts)
  | inr filled ↦ elim (Option-cases (parse_pin rt base64 (trim part))) [
    | inl bad ↦ rw (filled, bad, parse_parts) tt
    | inr (pin, read) ↦ elim (Option-cases (parse_parts rt base64 parts)) [
      | inl bad ↦ rw (filled, read, bad, parse_parts) tt
      | inr (rest, more) ↦
          rw (filled, read, more, parse_parts)
            (
              of_Every (IsPin base64) (parse_pin-IsPin rt base64 (trim part)) read,
              of_Every (All (IsPin base64)) (parse_parts-IsPin rt base64 parts) more,
            )
    ]
  ]
]

-- The certificate has one of the pins: the SHA-256 of its bytes, or of its public key.
abbrev pub Matches : Runtime → Base64 → Certificate → Pin → Type 0
Matches rt base64 peer (der hex) = hex ≡ to_hex (rt.sha256 peer.raw)
Matches rt base64 peer (spki b64) =
    (key : Bytes) × (peer.pubkey ≡ some key) × (b64 ≡ base64.encode (rt.sha256 key))

matches_iff :
    (rt : Runtime) (base64 : Base64) (peer : Certificate) (pin : Pin)
    → (matches rt base64 peer pin ≡ true) ↔ Matches rt base64 peer pin
unfolding matches
matches_iff rt base64 peer (der hex) = same_iff hex (to_hex (rt.sha256 peer.raw))
matches_iff rt base64 peer (spki b64) = elim (Option-cases peer.pubkey) [
  | inl gone ↦ (λ e. absurd (ground (arith, gone)), λ p. absurd (cc (gone, p.1)))
  | inr (key, found) ↦ (
    λ e. (key, found, (same_iff b64 (base64.encode (rt.sha256 key))).0 (ground (arith, found))),
    λ p.
        rw (found, matches)
          ((same_iff b64 (base64.encode (rt.sha256 key))).1 (
            subst (λ k. b64 ≡ base64.encode (rt.sha256 k)) (some-injective _ _ (sym p.1 ∙ found))
              p.2)),
  )
]

any_match_iff :
    (rt : Runtime) (base64 : Base64) (peer : Certificate) (pins : List Pin)
    → (any_match rt base64 peer pins ≡ true) ↔ Any (Matches rt base64 peer) pins
unfolding any_match
any_match_iff rt base64 peer [] = (λ e. absurd (ground arith), λ a. absurd a)
any_match_iff rt base64 peer (pin ∷ pins) = grind (
  arith,
  matches_iff rt base64 peer pin,
  any_match_iff rt base64 peer pins,
  Bool-cases (matches rt base64 peer pin),
)

verify_cert_pins_iff :
    (rt : Runtime) (base64 : Base64) (peer : Option Certificate) (pins : List Pin)
    → (verify_cert_pins rt base64 peer pins ≡ passed) ↔ (
        (pins ≡ [])
        ⊎ ((cert : Certificate) × (peer ≡ some cert) × Any (Matches rt base64 cert) pins))
unfolding verify_cert_pins
verify_cert_pins_iff rt base64 peer [] = (λ e. inl refl, λ p. refl)
verify_cert_pins_iff rt base64 none (pin ∷ pins) = (
  λ e. absurd (ground arith),
  λ p. elim p [ inl e ↦ absurd (ground arith) | inr (cert, e, m) ↦ absurd (ground arith) ],
)
verify_cert_pins_iff rt base64 (some peer) (pin ∷ pins) =
    let (to, from) = any_match_iff rt base64 peer (pin ∷ pins) in
    (
      λ e. inr (peer, refl, to (ground arith)),
      λ p. elim p [
        | inl e ↦ absurd (ground arith)
        | inr (cert, e, m) ↦
            rw
              (from (
                subst (λ c. Any (Matches rt base64 c) (pin ∷ pins)) (some-injective _ _ (sym e)) m))
              refl
      ],
    )

parse_cert_pins-IsPin :
    (rt : Runtime) (base64 : Base64) (raw : Text)
    → Every (All (IsPin base64)) (parse_cert_pins rt base64 raw)
unfolding parse_cert_pins
parse_cert_pins-IsPin rt base64 raw = elim (Bool-cases (length raw == 0)) [
  | inl unset ↦ rw (unset, parse_cert_pins) tt
  | inr set ↦ rw (set, parse_cert_pins) (parse_parts-IsPin rt base64 (split 44 raw))
]

-- Where the setting of the pins is accepted, every pin that it gives is a fingerprint of 64
-- hexadecimal digits or the base64 of 32 bytes; and the check passes exactly if there is no pin,
-- or the server shows a certificate that has one of the pins.
pub parse_cert_pins-verify :
    (rt : Runtime) (base64 : Base64) (raw : Text) (peer : Option Certificate) {pins : List Pin}
    → parse_cert_pins rt base64 raw ≡ some pins
    → All (IsPin base64) pins
      × ((verify_cert_pins rt base64 peer pins ≡ passed) ↔ (
          (pins ≡ [])
          ⊎ ((cert : Certificate) × (peer ≡ some cert) × Any (Matches rt base64 cert) pins)))
parse_cert_pins-verify rt base64 raw peer {pins} h = (
  of_Every (All (IsPin base64)) (parse_cert_pins-IsPin rt base64 raw) h,
  verify_cert_pins_iff rt base64 peer pins,
)
