-- ===== src/Config.antt =====
-- internal/config/config.go, and the flags and the environment of cmd/attestam/main.go.
use attes_tam.Base.{ℕ, Bool, ◌||◌, Option, none, some, [], Bytes, bytes_eq, if◌then◌else◌}
use attes_tam.Model.{other}
use attes_tam.Exec.{Result, ok, err}
use attes_tam.Text.{text, to_lower, trim_space}
use attes_tam.Rats.Results.{required, ◌>>=◌}
use attes_tam.Rats.Client.{ClientConfig}
use attes_tam.Rats.Intel.Pcs.{PcsConfig}

-- The loggers are left out.
pub record TamConfig : Type 0 where
  pub addr : Bytes
  pub db_path : Bytes
  pub insecure_demo_mode : Bool
  pub tam_teep_private_key_path : Bytes
  pub challenge_server_url : Bytes
  pub challenge_content_type : Bytes
  pub challenge_insecure_tls : Bool
  pub challenge_timeout : ℕ
  pub intel_collateral_cache_dir : Bytes
  pub intel_collateral_service_url : Bytes
  pub intel_collateral_insecure_tls : Bool
  pub intel_collateral_subscription_key : Bytes

pub record RaConfig : Type 0 where
  pub backend : Bytes
  pub base_url : Bytes
  pub content_type : Bytes
  pub insecure_tls : Bool
  pub timeout : ℕ
  pub intel_collateral_cache_dir : Bytes
  pub intel_collateral_service_url : Bytes
  pub intel_collateral_insecure_tls : Bool
  pub intel_collateral_subscription_key : Bytes

-- What the constructors of the two verifiers read of it.
abbrev pub client_config : RaConfig → ClientConfig
client_config cfg = record {
  base_url = cfg.base_url;
  content_type = cfg.content_type;
  insecure_tls = cfg.insecure_tls;
  timeout = cfg.timeout;
}

abbrev pub pcs_config : RaConfig → PcsConfig
pcs_config cfg = record {
  service_url = cfg.intel_collateral_service_url;
  insecure_tls = cfg.intel_collateral_insecure_tls;
  subscription_key = cfg.intel_collateral_subscription_key;
  timeout = cfg.timeout;
}

pub data Level : Type 0 where
  debug info warn error : Level

abbrev pub default_level : Level
default_level = info

-- ParseLevel of internal/logger/logger.go
unfoldable pub parse_level : Bytes → Result Level
unfolding to_lower trim_space bytes_eq
parse_level raw =
    let name = to_lower (trim_space raw) in
    if bytes_eq name [] || bytes_eq name (text "info")
    then ok info
    else if bytes_eq name (text "debug")
    then ok debug
    else if bytes_eq name (text "warn") || bytes_eq name (text "warning")
    then ok warn
    else if bytes_eq name (text "error")
    then ok error
    else err other

-- os.LookupEnv
abbrev pub Environment : Type 0
Environment = Bytes → Option Bytes

-- The values of the flags, given or default, and whether the level was given.
pub record Flags : Type 0 where
  pub config : TamConfig
  pub log_level : Bytes
  pub log_level_was_set : Bool

abbrev pub env_insecure_demo_mode : Bytes
env_insecure_demo_mode = text "ATTESTAM_INSECURE_DEMO_MODE"

abbrev pub env_private_key_path : Bytes
env_private_key_path = text "ATTESTAM_TAM_TEEP_PRIVATE_KEY_PATH"

-- `parse_bool` and `parse_duration` are strconv.ParseBool and time.ParseDuration. A value that they
-- refuse ends the process.
module _ (env : Environment) (parse_bool : Bytes → Option Bool)
    (parse_duration : Bytes → Option ℕ) where
  abbrev pub given : {A : Type 0} → (Bytes → Option A) → A → Option Bytes → Result A
  given parse default none = ok default
  given parse default (some value) = required (parse value)

  abbrev pub string_from_env : Bytes → Bytes → Result Bytes
  string_from_env key default = given (λ value. some value) default (env key)

  abbrev pub bool_from_env : Bytes → Bool → Result Bool
  bool_from_env key default = given parse_bool default (env key)

  abbrev pub duration_from_env : Bytes → ℕ → Result ℕ
  duration_from_env key default = given parse_duration default (env key)

  abbrev pub level_given : Option Bytes → Result Level
  level_given none = ok default_level
  level_given (some value) = parse_level value

  -- A flag that was given goes before the environment.
  unfoldable pub resolve_log_level : Flags → Result Level
  unfolding parse_level
  resolve_log_level flags =
      if flags.log_level_was_set
      then parse_level flags.log_level
      else level_given (env (text "ATTESTAM_LOG_LEVEL"))

  -- The configuration of `main`, in which the environment goes before the flags.
  unfoldable pub tam_config : TamConfig → Result TamConfig
  tam_config flags = do
    addr ← string_from_env (text "ATTESTAM_ADDR") flags.addr
    path ← string_from_env env_private_key_path flags.tam_teep_private_key_path
    db ← string_from_env (text "ATTESTAM_DB_PATH") flags.db_path
    demo ← bool_from_env env_insecure_demo_mode flags.insecure_demo_mode
    server ← string_from_env (text "ATTESTAM_CHALLENGE_SERVER") flags.challenge_server_url
    content_type ←
        string_from_env (text "ATTESTAM_CHALLENGE_CONTENT_TYPE") flags.challenge_content_type
    insecure ← bool_from_env (text "ATTESTAM_CHALLENGE_INSECURE_TLS") flags.challenge_insecure_tls
    timeout ← duration_from_env (text "ATTESTAM_CHALLENGE_TIMEOUT") flags.challenge_timeout
    cache ←
        string_from_env (text "ATTESTAM_INTEL_COLLATERAL_CACHE_DIR")
          flags.intel_collateral_cache_dir
    service ←
        string_from_env (text "ATTESTAM_INTEL_COLLATERAL_SERVICE_URL")
          flags.intel_collateral_service_url
    service_insecure ←
        bool_from_env (text "ATTESTAM_INTEL_COLLATERAL_SERVICE_INSECURE_TLS")
          flags.intel_collateral_insecure_tls
    subscription ←
        string_from_env (text "ATTESTAM_INTEL_COLLATERAL_SUBSCRIPTION_KEY")
          flags.intel_collateral_subscription_key
    ok (record {
      addr = addr;
      db_path = db;
      insecure_demo_mode = demo;
      tam_teep_private_key_path = path;
      challenge_server_url = server;
      challenge_content_type = content_type;
      challenge_insecure_tls = insecure;
      challenge_timeout = timeout;
      intel_collateral_cache_dir = cache;
      intel_collateral_service_url = service;
      intel_collateral_insecure_tls = service_insecure;
      intel_collateral_subscription_key = subscription;
    })
