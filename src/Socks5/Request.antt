-- ===== src/Socks5/Request.antt =====
-- src/socks5.js: the request, as a proxy reads it.
use mathlib.Core.Option.{some-injective}
use mathlib.Core.Path.{subst}
use strfry_namecoin_policy.Prelude.{
  ℕ, ◌+◌, ◌*◌, ◌/◌, ◌%◌, ◌≤◌, ◌<◌, ◌≡◌, refl, sym, ap, ◌∙◌, ◌&&◌, ◌||◌, Option, none, some, [], ◌∷◌,
  length, take, drop, ltb, ◌==◌, if◌then◌else◌, arith, All, All-append, take-length-append,
  drop-length-append, Bool-cases, inl, inr,
}
use strfry_namecoin_policy.Js.{Text}
use strfry_namecoin_policy.Script.{Bytes}
use strfry_namecoin_policy.Socks5.{connect_request, host_bytes, ascii_bytes}

-- A port in two bytes, the high one first.
abbrev pub read_port : Bytes → Option ℕ
read_port (high ∷ low ∷ []) = some (high * 256 + low)
read_port _ = none

-- What RFC 1928 reads in a CONNECT request for a domain name: the name's length, its bytes, and
-- the port.
abbrev pub read_request : Bytes → Option (Bytes × ℕ)
read_request (ver ∷ cmd ∷ rsv ∷ atyp ∷ len ∷ rest) =
    if (ver == 5) && (cmd == 1) && (rsv == 0) && (atyp == 3)
    then elim (read_port (drop len rest)) [ none ↦ none | some port ↦ some (take len rest, port) ]
    else none
read_request _ = none

abbrev pub IsByte : ℕ → Type 0
IsByte b = b < 256

bytes-IsByte : (s : Text) → All IsByte (ascii_bytes s)
bytes-IsByte [] = tt
bytes-IsByte (c ∷ s) = (omega arith, bytes-IsByte s)

host_bytes-some :
    (proxy_host host : Text) {bytes : Bytes}
    → host_bytes proxy_host host ≡ some bytes
    → (bytes ≡ ascii_bytes host) × (length bytes ≤ 255) × (0 < length host)
unfolding host_bytes
host_bytes-some proxy_host host {bytes} h =
    elim (Bool-cases ((length proxy_host == 0) || (length host == 0))) [
      | inl empty ↦ absurd (ground (arith, empty))
      | inr there ↦ elim (Bool-cases (ltb 255 (length (ascii_bytes host)))) [
        | inl long ↦ absurd (ground (arith, there, long))
        | inr short ↦
            let is : ascii_bytes host ≡ bytes = some-injective _ _ (ground (arith, there, short)) in
            (sym is, subst (λ b. length b ≤ 255) is (ground (arith, short)), ground (arith, there))
      ]
    ]

port_bytes : (port : ℕ) → port / 256 * 256 + port % 256 ≡ port
port_bytes port = omega arith

connect_request-read :
    (host : Bytes) (port : ℕ) → read_request (connect_request host port) ≡ some (host, port)
unfolding connect_request
connect_request-read host port =
    let ending = port / 256 ∷ port % 256 ∷ [] in
    rw (drop-length-append host ending, take-length-append host ending, port_bytes port) refl

-- For a host that `connectSocks5` accepts and a port up to 65535, every code of the request is a
-- byte, so that the host's length fits in its byte, and a proxy reads back the host's bytes and
-- the port.
pub host_bytes-request :
    (proxy_host host : Text) (port : ℕ) {bytes : Bytes}
    → host_bytes proxy_host host ≡ some bytes
    → port ≤ 65535
    → (read_request (connect_request bytes port) ≡ some (ascii_bytes host, port))
      × All IsByte (connect_request bytes port)
unfolding connect_request
host_bytes-request proxy_host host port {bytes} h k =
    let (is, short, some_host) = host_bytes-some proxy_host host {bytes = bytes} h in
    (
      connect_request-read bytes port ∙ ap (λ b. some (b, port)) is,
      (
        omega arith,
        (
          omega arith,
          (
            omega arith,
            (
              omega arith,
              (
                omega arith,
                All-append IsByte bytes (port / 256 ∷ port % 256 ∷ [])
                    (subst (All IsByte) (sym is) (bytes-IsByte host))
                    (omega arith, (omega arith, tt)),
              ),
            ),
          ),
        ),
      ),
    )
