-- ===== src/Config/Load.antt =====
-- src/config.js: loadConfig.
use strfry_namecoin_policy.Prelude.{
  ℕ, Bool, true, false, Option, none, some, List, [], ◌∷◌, ltb, if◌then◌else◌,
}
use strfry_namecoin_policy.Prelude.Int.{ℤ, pos}
use strfry_namecoin_policy.Js.{Text, txt, trim, parse_int, Runtime}
use strfry_namecoin_policy.Circuit.{Host}
use strfry_namecoin_policy.Config.{
  Checked, valid, invalid, ◌>>=◌, Number, Env, or_default, non_empty, any_of, parse_bool,
  parse_pos_int, parse_positive_int, parse_non_negative_int, HostPort, parse_host_port,
  parse_host_list, default_port,
}

-- NaN is `none`.
pub record Settings : Type 0 where
  pub host : Option Text
  pub port : Option ℤ
  pub tls : Bool
  pub hosts : Option (List Host)
  pub socks5 : Option HostPort
  pub cert_pin_sha256 : Option Text
  pub insecure : Bool
  pub reject_unauthorized : Bool
  pub timeout_ms : Option ℤ
  pub retries : Option ℤ
  pub mode : Text
  pub cache_ttl_ms : Option ℤ
  pub neg_cache_ttl_ms : Number
  pub min_confirmations : Number
  pub cache_path : Option Text
  pub metrics_port : ℕ
  pub pool_keepalive_ms : ℕ
  pub log_level : Text
  pub allow_non_bit : Bool
  pub lookup_rps : Number
  pub lookup_burst : Number
  pub lookup_queue_ms : Number
  pub soft_fail : Bool
  pub nip9a_rules_file : Option Text
  pub nip9a_community : Option Text
  pub nip9a_require_rules : Bool
  pub nip9a_reject_imeta_kind1 : Bool

-- `(env.X || other).trim()`, which must be one of these.
unfoldable pub one_of : Env → Text → Text → List Text → Checked Text
one_of env variable other words =
    let word = trim (or_default (env.var variable) other) in
    if any_of words word then valid word else invalid variable

-- `(env.X || '').trim() || null`
abbrev pub trimmed : Env → Text → Option Text
trimmed env variable = non_empty (some (trim (or_default (env.var variable) [])))

-- `parseInt(env.X || other, 10)`
abbrev pub int_var : Env → Text → Text → Option ℤ
int_var env variable other = parse_int (or_default (env.var variable) other)

unfoldable pub non_negative : Text → Option ℤ → Checked ℕ
non_negative variable (some (pos n)) = valid n
non_negative variable _ = invalid variable

unfoldable pub at_most : Text → ℕ → ℕ → Checked ℕ
at_most variable most n = if ltb most n then invalid variable else valid n

unfoldable pub load_config : Runtime → Env → Checked Settings
load_config rt env =
    let flag : Text → Bool → Bool = λ variable dflt. parse_bool rt (env.var variable) dflt in
    let tls = flag (txt "NAMECOIN_ELECTRUMX_TLS") true in
    let insecure = flag (txt "NAMECOIN_ELECTRUMX_INSECURE") false in
    let cert_pin = non_empty (env.var (txt "NAMECOIN_ELECTRUMX_CERT_PIN")) in
    (do
      mode ←
          one_of env (txt "NAMECOIN_POLICY_MODE") (txt "kind0-only")
            (txt "kind0-only" ∷ txt "all-kinds-require-bit" ∷ [])
      log_level ←
          one_of env (txt "NAMECOIN_POLICY_LOG_LEVEL") (txt "info")
            (txt "silent" ∷ txt "info" ∷ txt "debug" ∷ [])
      min_confirmations ← parse_pos_int rt env (txt "NAMECOIN_POLICY_MIN_CONFIRMATIONS") (pos 1)
      neg_cache_ttl_ms ← parse_pos_int rt env (txt "NAMECOIN_POLICY_NEG_CACHE_TTL_MS") (pos 30_000)
      lookup_rps ← parse_positive_int rt env (txt "NAMECOIN_POLICY_LOOKUP_RPS") (pos 5)
      lookup_burst ← parse_positive_int rt env (txt "NAMECOIN_POLICY_LOOKUP_BURST") (pos 10)
      lookup_queue_ms ←
          parse_non_negative_int rt env (txt "NAMECOIN_POLICY_LOOKUP_QUEUE_MS") (pos 2000)
      hosts ←
          parse_host_list (txt "NAMECOIN_ELECTRUMX_HOSTS")
            (env.var (txt "NAMECOIN_ELECTRUMX_HOSTS")) tls
      socks5 ←
          parse_host_port (txt "NAMECOIN_ELECTRUMX_SOCKS5")
            (env.var (txt "NAMECOIN_ELECTRUMX_SOCKS5"))
      metrics ←
          non_negative (txt "NAMECOIN_POLICY_METRICS_PORT")
            (int_var env (txt "NAMECOIN_POLICY_METRICS_PORT") (txt "0"))
      metrics_port ← at_most (txt "NAMECOIN_POLICY_METRICS_PORT") 65_535 metrics
      pool_keepalive_ms ←
          non_negative (txt "NAMECOIN_POLICY_POOL_KEEPALIVE_MS")
            (int_var env (txt "NAMECOIN_POLICY_POOL_KEEPALIVE_MS") (txt "30000"))
      valid (record {
        host = env.var (txt "NAMECOIN_ELECTRUMX_HOST");
        port = elim (non_empty (env.var (txt "NAMECOIN_ELECTRUMX_PORT"))) [
          | none ↦ some (pos (default_port tls))
          | some raw ↦ parse_int raw
        ];
        tls = tls;
        hosts = hosts;
        socks5 = socks5;
        cert_pin_sha256 = cert_pin;
        insecure = insecure;
        reject_unauthorized =
            if insecure then false else elim cert_pin [ none ↦ true | some _ ↦ false ];
        timeout_ms = int_var env (txt "NAMECOIN_ELECTRUMX_TIMEOUT_MS") (txt "5000");
        retries = int_var env (txt "NAMECOIN_ELECTRUMX_RETRIES") (txt "2");
        mode = mode;
        cache_ttl_ms = int_var env (txt "NAMECOIN_POLICY_CACHE_TTL_MS") (txt "300000");
        neg_cache_ttl_ms = neg_cache_ttl_ms;
        min_confirmations = min_confirmations;
        cache_path = non_empty (env.var (txt "NAMECOIN_POLICY_CACHE_PATH"));
        metrics_port = metrics_port;
        pool_keepalive_ms = pool_keepalive_ms;
        log_level = log_level;
        allow_non_bit = flag (txt "NAMECOIN_POLICY_ALLOW_NON_BIT") true;
        lookup_rps = lookup_rps;
        lookup_burst = lookup_burst;
        lookup_queue_ms = lookup_queue_ms;
        soft_fail = flag (txt "NAMECOIN_POLICY_SOFT_FAIL") false;
        nip9a_rules_file = trimmed env (txt "NAMECOIN_POLICY_NIP9A_RULES_FILE");
        nip9a_community = trimmed env (txt "NAMECOIN_POLICY_NIP9A_COMMUNITY");
        nip9a_require_rules = flag (txt "NAMECOIN_POLICY_NIP9A_REQUIRE_RULES") false;
        nip9a_reject_imeta_kind1 = flag (txt "NAMECOIN_POLICY_NIP9A_REJECT_IMETA_KIND1") false;
      }))
