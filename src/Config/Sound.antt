-- ===== src/Config/Sound.antt =====
-- src/config.js: what settings loadConfig lets through.
use strfry_namecoin_policy.Prelude.{
  ℕ, ◌≤◌, ◌<◌, ◌≡◌, refl, Bool, true, Option, none, some, List, [], ◌∷◌, length, ltb, ◌==◌, arith,
  All, of_Every, Bool-cases, Option-cases, inl, inr,
}
use strfry_namecoin_policy.Prelude.Int.{ℤ, pos, negsuc, ◌≤ℤ◌, ◌<ℤ◌}
use strfry_namecoin_policy.Js.{Text, txt, trim, split, Runtime}
use strfry_namecoin_policy.Circuit.{Host}
use strfry_namecoin_policy.Config.{
  Checked, valid, invalid, ◌>>=◌, Number, Env, integer, number, non_empty, or_default, any_of,
  parse_bool, parse_number, parse_pos_int, parse_positive_int, parse_non_negative_int, HostPort,
  read_host_port, read_hosts, parse_host_port, parse_host_list,
}
use strfry_namecoin_policy.Config.Hosts.{
  IsGood, IsUsable, read_host_port-IsGood, read_hosts-IsUsable,
}
use strfry_namecoin_policy.Config.Load.{Settings, one_of, non_negative, at_most, load_config}

-- What holds of a value that is let through.
abbrev pub Meets : {A : Type 0} → (A → Type 0) → Checked A → Type 0
Meets P (valid a) = P a
Meets P (invalid variable) = Unit

bind-Meets :
    {A B : Type 0} (P : A → Type 0) (Q : B → Type 0) (c : Checked A) (f : A → Checked B)
    → Meets P c
    → ((a : A) → P a → Meets Q (f a))
    → Meets Q (c >>= f)
bind-Meets P Q (valid a) f h k = k a h
bind-Meets P Q (invalid variable) f h k = tt

abbrev pub IsWhole : Number → Type 0
IsWhole n = (n.denominator ≡ 1) × (pos 0 ≤ℤ n.numerator)

abbrev pub IsPositive : Number → Type 0
IsPositive n = pos 0 <ℤ n.numerator

abbrev pub IsNonNegative : Number → Type 0
IsNonNegative n = pos 0 ≤ℤ n.numerator

parse_number-Meets :
    (P : Number → Type 0) (passes : Number → Bool) (rt : Runtime) (env : Env) (variable : Text)
    (dflt : ℤ)
    → ((n : Number) → passes n ≡ true → P n)
    → P (integer dflt)
    → Meets P (parse_number passes rt env variable dflt)
parse_number-Meets P passes rt env variable dflt h d =
    elim (Option-cases (non_empty (env.var variable))) [
      | inl unset ↦ rw (unset, parse_number) d
      | inr (raw, given) ↦ elim (Option-cases (number rt env raw)) [
        | inl nan ↦ rw (given, nan, parse_number) tt
        | inr (n, read) ↦ elim (Bool-cases (passes n)) [
          | inl good ↦ rw (given, read, good, parse_number) (h n good)
          | inr bad ↦ rw (given, read, bad, parse_number) tt
        ]
      ]
    ]

one_of-Meets :
    (env : Env) (variable other : Text) (words : List Text)
    → Meets (λ w. any_of words w ≡ true) (one_of env variable other words)
unfolding one_of
one_of-Meets env variable other words =
    elim (Bool-cases (any_of words (trim (or_default (env.var variable) other)))) [
      | inl good ↦ rw (good, one_of) good
      | inr bad ↦ rw (bad, one_of) tt
    ]

-- No hosts, or some, each of which can be used.
abbrev pub AreUsable : Bool → Option (List Host) → Type 0
AreUsable tls none = Unit
AreUsable tls (some hosts) = (0 < length hosts) × All (IsUsable tls) hosts

hosts-Meets :
    (tls : Bool) (hosts : List Host)
    → All (IsUsable tls) hosts
    → Meets (AreUsable tls) (elim hosts [ [] ↦ valid none | h ∷ hs ↦ valid (some (h ∷ hs)) ])
hosts-Meets tls [] h = tt
hosts-Meets tls (x ∷ hosts) h = (omega arith, h)

parse_host_list-Meets :
    (variable : Text) (raw : Option Text) (tls : Bool)
    → Meets (AreUsable tls) (parse_host_list variable raw tls)
unfolding parse_host_list
parse_host_list-Meets variable none tls = tt
parse_host_list-Meets variable (some raw) tls = elim (Bool-cases (length (trim raw) == 0)) [
  | inl blank ↦ rw (blank, parse_host_list) tt
  | inr filled ↦ elim (Option-cases (read_hosts tls (split b',' raw))) [
    | inl bad ↦ rw (filled, bad, parse_host_list) tt
    | inr (hosts, read) ↦
        rw (filled, read, parse_host_list)
          (hosts-Meets tls hosts
            (of_Every (All (IsUsable tls)) (read_hosts-IsUsable tls (split b',' raw)) read))
  ]
]

abbrev pub IsProxy : Option HostPort → Type 0
IsProxy none = Unit
IsProxy (some hp) = 0 < length hp.host

parse_host_port-Meets :
    (variable : Text) (raw : Option Text) → Meets IsProxy (parse_host_port variable raw)
unfolding parse_host_port
parse_host_port-Meets variable none = tt
parse_host_port-Meets variable (some raw) = elim (Bool-cases (length (trim raw) == 0)) [
  | inl blank ↦ rw (blank, parse_host_port) tt
  | inr filled ↦ elim (Option-cases (read_host_port (trim raw))) [
    | inl bad ↦ rw (filled, bad, parse_host_port) tt
    | inr (hp, read) ↦
        rw (filled, read, parse_host_port)
          (of_Every (IsGood (trim raw)) (read_host_port-IsGood (trim raw)) read).1
  ]
]

abbrev pub modes : List Text
modes = txt "kind0-only" ∷ txt "all-kinds-require-bit" ∷ []

abbrev pub log_levels : List Text
log_levels = txt "silent" ∷ txt "info" ∷ txt "debug" ∷ []

pub record IsSound (c : Settings) : Type 0 where
  pub known_mode : any_of modes c.mode ≡ true
  pub known_level : any_of log_levels c.log_level ≡ true
  pub confirmations : IsWhole c.min_confirmations
  pub neg_ttl : IsWhole c.neg_cache_ttl_ms
  pub rps : IsPositive c.lookup_rps
  pub burst : IsPositive c.lookup_burst
  pub queue : IsNonNegative c.lookup_queue_ms
  pub usable : AreUsable c.tls c.hosts
  pub proxy : IsProxy c.socks5
  pub metrics : c.metrics_port ≤ 65_535

non_negative-Meets : (variable : Text) (n : Option ℤ) → Meets (λ n. Unit) (non_negative variable n)
unfolding non_negative
non_negative-Meets variable none = tt
non_negative-Meets variable (some (pos n)) = tt
non_negative-Meets variable (some (negsuc n)) = tt

at_most-Meets : (variable : Text) (most n : ℕ) → Meets (λ n. n ≤ most) (at_most variable most n)
unfolding at_most
at_most-Meets variable most n = elim (Bool-cases (ltb most n)) [
  | inl over ↦ rw (over, at_most) tt
  | inr fits ↦ rw (fits, at_most) (ground (arith, fits))
]

parse_pos_int-Meets :
    (rt : Runtime) (env : Env) (variable : Text) (n : ℕ)
    → Meets IsWhole (parse_pos_int rt env variable (pos n))
unfolding parse_pos_int
parse_pos_int-Meets rt env variable n =
    parse_number-Meets IsWhole _ rt env variable (pos n)
      (λ n h. (ground (arith, h), ground (arith, h))) (refl, omega arith)

parse_positive_int-Meets :
    (rt : Runtime) (env : Env) (variable : Text) (n : ℕ)
    → 0 < n
    → Meets IsPositive (parse_positive_int rt env variable (pos n))
unfolding parse_positive_int
parse_positive_int-Meets rt env variable n h =
    parse_number-Meets IsPositive _ rt env variable (pos n) (λ n h. ground (arith, h))
      (omega (arith, h))

parse_non_negative_int-Meets :
    (rt : Runtime) (env : Env) (variable : Text) (n : ℕ)
    → Meets IsNonNegative (parse_non_negative_int rt env variable (pos n))
unfolding parse_non_negative_int
parse_non_negative_int-Meets rt env variable n =
    parse_number-Meets IsNonNegative _ rt env variable (pos n) (λ n h. ground (arith, h))
      (omega arith)

-- Whatever the environment: unless loadConfig throws, the mode and the log level are known
-- words, the confirmations and the negative cache's time are whole numbers from 0, the rate and
-- the burst are positive and the queue's time is not negative, each host of a list has a name
-- and a positive port, and there is at least one, a proxy has a name, and the metrics' port is
-- at most 65535.
pub load_config-IsSound : (rt : Runtime) (env : Env) → Meets IsSound (load_config rt env)
unfolding load_config
load_config-IsSound rt env =
    let tls = parse_bool rt (env.var (txt "NAMECOIN_ELECTRUMX_TLS")) true in
    bind-Meets (λ w. any_of modes w ≡ true) IsSound _ _ (one_of-Meets env _ _ modes)
      (λ mode m.
        bind-Meets (λ w. any_of log_levels w ≡ true) IsSound _ _ (one_of-Meets env _ _ log_levels)
          (λ level l.
            bind-Meets IsWhole IsSound _ _ (parse_pos_int-Meets rt env _ 1) (λ confirmations c.
              bind-Meets IsWhole IsSound _ _ (parse_pos_int-Meets rt env _ 30_000) (λ neg n.
                bind-Meets IsPositive IsSound _ _
                  (parse_positive_int-Meets rt env _ 5 (omega arith))
                  (λ rps r.
                    bind-Meets IsPositive IsSound _ _
                      (parse_positive_int-Meets rt env _ 10 (omega arith))
                      (λ burst b.
                        bind-Meets IsNonNegative IsSound _ _
                          (parse_non_negative_int-Meets rt env _ 2000)
                          (λ queue q.
                            bind-Meets (AreUsable tls) IsSound _ _ (parse_host_list-Meets _ _ tls)
                              (λ hosts h.
                                bind-Meets IsProxy IsSound _ _ (parse_host_port-Meets _ _)
                                  (λ socks p.
                                    bind-Meets (λ n. Unit) IsSound _ _ (non_negative-Meets _ _)
                                      (λ metrics u.
                                        bind-Meets (λ n. n ≤ 65_535) IsSound _ _
                                          (at_most-Meets _ 65_535 metrics)
                                          (λ port a.
                                            bind-Meets (λ n. Unit) IsSound _ _
                                              (non_negative-Meets _ _)
                                              (λ pool v. record {
                                                known_mode = m;
                                                known_level = l;
                                                confirmations = c;
                                                neg_ttl = n;
                                                rps = r;
                                                burst = b;
                                                queue = q;
                                                usable = h;
                                                proxy = p;
                                                metrics = a;
                                              }))))))))))))
