-- ===== src/Config/Hosts.antt =====
-- src/config.js: what a host and its port are read from.
use mathlib.Core.Option.{some-injective}
use mathlib.Core.Path.{subst, sym}
use strfry_namecoin_policy.Prelude.{
  ℕ, ◌≤◌, ◌<◌, ◌≡◌, refl, ap, ◌∙◌, inl, inr, Bool, true, false, not, ◌&&◌, ◌||◌, Option, none, some,
  List, [], ◌∷◌, ◌++◌, length, ltb, ◌==◌, if◌then◌else◌, arith, All, Every, of_Every, Bool-cases,
  Option-cases, ==_iff,
}
use strfry_namecoin_policy.Prelude.Int.{ℤ, pos, negsuc}
use strfry_namecoin_policy.Js.{Text, trim, all, is_digit, unsigned, parse_int}
use strfry_namecoin_policy.Circuit.{Host}
use strfry_namecoin_policy.Config.{
  bracketed, split_last_colon, HostPort, port_in_range, named, read_host_port, read_hosts,
  default_port,
}

abbrev IsSplit : Text → Text × Text → Type 0
IsSplit s parts = s ≡ parts.0 ++ b':' ∷ parts.1

split_last_colon-IsSplit : (s : Text) → Every (IsSplit s) (split_last_colon s)
unfolding split_last_colon
split_last_colon-IsSplit [] = tt
split_last_colon-IsSplit (c ∷ s) = elim (Option-cases (split_last_colon s)) [
  | inr (parts, found) ↦
      rw (found, split_last_colon)
        (ap (◌∷◌ c) (of_Every (IsSplit s) (split_last_colon-IsSplit s) found))
  | inl no_more ↦ elim (Bool-cases (c == b':')) [
    | inl colon ↦ rw (no_more, colon, split_last_colon) (ap (λ d. d ∷ s) ((==_iff c b':').0 colon))
    | inr other ↦ rw (no_more, other, split_last_colon) tt
  ]
]

abbrev IsBracketed : Text → Text × Text → Type 0
IsBracketed s parts = s ≡ parts.0 ++ b']' ∷ b':' ∷ parts.1

bracketed-IsBracketed : (s : Text) → Every (IsBracketed s) (bracketed s)
unfolding bracketed
bracketed-IsBracketed [] = tt
bracketed-IsBracketed (c ∷ []) = elim (Bool-cases (c == b']')) [
  | inl close ↦ rw (close, bracketed) tt
  | inr other ↦ rw (other, bracketed) tt
]
bracketed-IsBracketed (c ∷ d ∷ s) = elim (Bool-cases (c == b']')) [
  | inl close ↦ elim (Bool-cases ((d == b':') && all is_digit s && not (length s == 0))) [
    | inl port ↦
        let colon : d ≡ b':' = (==_iff d b':').0 (ground (arith, port)) in
        rw (close, port, bracketed)
          (ap (λ a. a ∷ d ∷ s) ((==_iff c b']').0 close) ∙ ap (λ a. b']' ∷ a ∷ s) colon)
    | inr other ↦ rw (close, other, bracketed) tt
  ]
  | inr inside ↦ elim (Option-cases (bracketed (d ∷ s))) [
    | inl none_left ↦ rw (inside, none_left, bracketed) tt
    | inr (parts, found) ↦
        rw (inside, found, bracketed)
          (ap (◌∷◌ c) (of_Every (IsBracketed (d ∷ s)) (bracketed-IsBracketed (d ∷ s)) found))
  ]
]

-- The text is the host and, behind the last colon, a port from 1 to 65535; or the host in
-- brackets, a colon, and the port's digits.
pub data IsRead : Text → HostPort → Type 0 where
  plain :
      {hp : HostPort} (digits : Text)
      → parse_int digits ≡ some (pos hp.port)
      → 1 ≤ hp.port
      → hp.port ≤ 65_535
      → IsRead (hp.host ++ b':' ∷ digits) hp
  in_brackets :
      {hp : HostPort} (digits : Text)
      → unsigned digits ≡ some hp.port
      → IsRead (b'[' ∷ hp.host ++ b']' ∷ b':' ∷ digits) hp

abbrev pub IsGood : Text → HostPort → Type 0
IsGood s hp = IsRead s hp × (0 < length hp.host)

port_in_range-some :
    (n : Option ℤ) {p : ℕ} → port_in_range n ≡ some p → (n ≡ some (pos p)) × (1 ≤ p) × (p ≤ 65_535)
port_in_range-some none h = absurd (ground (arith, h))
port_in_range-some (some (negsuc n)) h = absurd (ground (arith, h))
port_in_range-some (some (pos n)) {p} h = elim (Bool-cases ((n == 0) || ltb 65535 n)) [
  | inl bad ↦ absurd (ground (arith, h, bad))
  | inr good ↦
      let same : n ≡ p = some-injective _ _ (ground (arith, h, good)) in
      (
        ap (λ n. some (pos n)) same,
        subst (λ p. 1 ≤ p) same (ground (arith, good)),
        subst (λ p. p ≤ 65_535) same (ground (arith, good)),
      )
]

named-IsGood : (s : Text) → Every (IsGood s) (named s)
named-IsGood s = elim (Option-cases (split_last_colon s)) [
  | inl no_colon ↦ rw (no_colon, named) tt
  | inr ((host, digits), found) ↦
      let split = of_Every (IsSplit s) (split_last_colon-IsSplit s) found in
      elim (Bool-cases ((length host == 0) || (length digits == 0))) [
        | inl empty ↦ rw (found, empty, named) tt
        | inr full ↦ elim (Option-cases (port_in_range (parse_int digits))) [
          | inl bad ↦ rw (found, full, bad, named) tt
          | inr (port, good) ↦
              let (is, low, high) = port_in_range-some (parse_int digits) {p = port} good in
              rw (found, full, good, named)
                (
                  subst (λ t. IsRead t (record { host = host; port = port })) (sym split)
                      (plain digits is low high),
                  ground (arith, full),
                )
        ]
      ]
]

pub read_host_port-IsGood : (s : Text) → Every (IsGood s) (read_host_port s)
unfolding read_host_port
read_host_port-IsGood [] = tt
read_host_port-IsGood (c ∷ s) = elim (Bool-cases (c == b'[')) [
  | inr bare ↦ rw (bare, read_host_port) (named-IsGood (c ∷ s))
  | inl bracket ↦ elim (Option-cases (bracketed s)) [
    | inl no_match ↦ rw (bracket, no_match, read_host_port) (named-IsGood (c ∷ s))
    | inr ((inside, digits), found) ↦ elim (Bool-cases (length inside == 0)) [
      | inl empty ↦ rw (bracket, found, empty, read_host_port) (named-IsGood (c ∷ s))
      | inr full ↦ elim (Option-cases (unsigned digits)) [
        | inl bad ↦ rw (bracket, found, full, bad, read_host_port) tt
        | inr (port, good) ↦
            let split = of_Every (IsBracketed s) (bracketed-IsBracketed s) found in
            let text : c ∷ s ≡ b'[' ∷ inside ++ b']' ∷ b':' ∷ digits =
              ap (◌∷◌ c) split
              ∙ ap (λ a. a ∷ inside ++ b']' ∷ b':' ∷ digits) ((==_iff c b'[').0 bracket) in
            rw (bracket, found, full, good, read_host_port)
              (
                subst (λ t. IsRead t (record { host = inside; port = port })) (sym text)
                    (in_brackets digits good),
                ground (arith, full),
              )
      ]
    ]
  ]
]

-- A host of the list: its name is not empty, and its port is positive.
abbrev pub IsUsable : Bool → Host → Type 0
IsUsable tls h = (0 < length h.host) × (0 < h.port) × (h.tls ≡ tls)

positive_port : (tls : Bool) (port : ℕ) → 0 < (if port == 0 then default_port tls else port)
positive_port true port = ground arith
positive_port false port = ground arith

pub read_hosts-IsUsable :
    (tls : Bool) (pieces : List Text) → Every (All (IsUsable tls)) (read_hosts tls pieces)
unfolding read_hosts
read_hosts-IsUsable tls [] = tt
read_hosts-IsUsable tls (piece ∷ pieces) = elim (Bool-cases (length (trim piece) == 0)) [
  | inl blank ↦ rw (blank, read_hosts) (read_hosts-IsUsable tls pieces)
  | inr filled ↦ elim (Option-cases (read_host_port (trim piece))) [
    | inl bad ↦ rw (filled, bad, read_hosts) tt
    | inr (hp, read) ↦ elim (Option-cases (read_hosts tls pieces)) [
      | inl bad ↦ rw (filled, read, bad, read_hosts) tt
      | inr (hosts, more) ↦
          rw (filled, read, more, read_hosts)
            (
              (
                (of_Every (IsGood (trim piece)) (read_host_port-IsGood (trim piece)) read).1,
                positive_port tls hp.port,
                refl,
              ),
              of_Every (All (IsUsable tls)) (read_hosts-IsUsable tls pieces) more,
            )
    ]
  ]
]
