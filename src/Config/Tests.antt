-- ===== src/Config/Tests.antt =====
-- src/config.js: settings that are read, and the theorems at a concrete environment.
use strfry_namecoin_policy.Prelude.{◌≡◌, refl, Option, none, some, [], ◌∷◌, if◌then◌else◌}
use strfry_namecoin_policy.Prelude.Int.{ℤ, negsuc}
use strfry_namecoin_policy.Js.{
  Text, txt, same, trim, split, all, is_digit, unsigned, signed, parse_int, Runtime, number_of,
  to_lower,
}
use strfry_namecoin_policy.Config.{
  valid, invalid, Env, parse_bool, parse_pos_int, parse_positive_int, parse_non_negative_int,
  bracketed, split_last_colon, read_host_port, parse_host_port, read_hosts, parse_host_list,
}
use strfry_namecoin_policy.Config.Load.{one_of, non_negative, at_most, load_config}
use strfry_namecoin_policy.Config.Sound.{Meets, IsSound, load_config-IsSound}

program : Unit {0}
unfolding same trim split all is_digit unsigned signed parse_int number_of to_lower parse_bool
    parse_pos_int parse_positive_int parse_non_negative_int bracketed split_last_colon
    read_host_port parse_host_port read_hosts parse_host_list one_of non_negative at_most
    load_config
program = tt

abbrev plain : Runtime
plain = record {
  lower_wide = λ c. c ∷ [];
  other_number = λ s. none;
  decode_utf8 = λ bs. bs;
  sha256 = λ bs. bs;
}

-- One variable is set.
abbrev only : Text → Text → Env
only name raw = record {
  var = λ k. if same k name then some raw else none;
  other_number = λ s. none;
}

-- A port in brackets is not held against its range.
reads :
    (read_host_port (txt "a.example:50002")
      ≡ some (record { host = txt "a.example"; port = 50_002 }))
    × (read_host_port (txt "a.example:70000") ≡ none)
    × (read_host_port (txt "[::1]:70000") ≡ some (record { host = txt "::1"; port = 70_000 }))
    × (read_host_port (txt "::1:80") ≡ some (record { host = txt "::1"; port = 80 }))
    × (read_host_port (txt ":80") ≡ none)
unfolding program
reads = (refl, refl, refl, refl, refl)

-- The number of retries may be negative.
negative_retries :
    (elim (load_config plain (only (txt "NAMECOIN_ELECTRUMX_RETRIES") (txt "-1")))
      as (λ c. Option ℤ) [ valid c ↦ c.retries | invalid variable ↦ none ])
    ≡ some (negsuc 0)
unfolding program
negative_retries = refl

load_config-IsSound_example :
    Meets IsSound (load_config plain (only (txt "NAMECOIN_POLICY_MODE") (txt " kind0-only ")))
load_config-IsSound_example =
    load_config-IsSound plain (only (txt "NAMECOIN_POLICY_MODE") (txt " kind0-only "))
