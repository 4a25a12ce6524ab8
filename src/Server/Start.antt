-- ===== src/Server/Start.antt =====
-- The start of the server: internal/server/server.go and cmd/attestam/main.go.
pub mod Own
pub mod Repeated
use attes_tam.Base.{ℕ, Bool, not, ◌&&◌, Option, none, some, [], Bytes, bytes_eq, if◌then◌else◌}
use attes_tam.Model.{other, Db}
use attes_tam.Exec.{Result, ok, World, Exec, pure, raise, lift, if_some, ◌>>=◌, ◌>>◌}
use attes_tam.Config.{TamConfig, RaConfig, Environment, Flags, resolve_log_level, tam_config}
use attes_tam.Tam.Library.{Library, Verifier, Tam}
use attes_tam.Tam.Construct.{new_tam_with_ra_config, new_demo_tam_with_ra_config}
use attes_tam.Tam.Seed.{seed_demo_data}

-- Server, without its listener and its logger.
pub record Server (Key : Type 0) : Type 0 where
  pub cfg : TamConfig
  pub tam : Tam Key

abbrev pub ra_config : TamConfig → RaConfig
ra_config cfg = record {
  backend = [];
  base_url = cfg.challenge_server_url;
  content_type = cfg.challenge_content_type;
  insecure_tls = cfg.challenge_insecure_tls;
  timeout = cfg.challenge_timeout;
  intel_collateral_cache_dir = cfg.intel_collateral_cache_dir;
  intel_collateral_service_url = cfg.intel_collateral_service_url;
  intel_collateral_insecure_tls = cfg.intel_collateral_insecure_tls;
  intel_collateral_subscription_key = cfg.intel_collateral_subscription_key;
}

-- `opened` is the database of a path after sqlite.InitDB, which fails or has made the tables.
module _ {Key : Type 0} (lib : Library Key) (ec2 : Bytes → Bytes → Key)
    (resolver : RaConfig → Bytes → Result (Option (Verifier Key)))
    (read_file : Bytes → Option Bytes) (opened : Bytes → Option Db) where
  -- TAM.InitDB
  unfoldable pub init_db : Bytes → Exec Unit
  init_db path = if_some (opened path) (λ d w. (ok tt, record w { db = d })) (raise other)

  abbrev pub tam_of : TamConfig → Result (Tam Key)
  tam_of cfg =
      if cfg.insecure_demo_mode
      then new_demo_tam_with_ra_config lib resolver read_file (ra_config cfg)
      else new_tam_with_ra_config lib resolver read_file cfg.tam_teep_private_key_path
          (ra_config cfg)

  -- New
  unfoldable pub new_server : TamConfig → Exec (Server Key)
  unfolding bytes_eq
  new_server cfg =
      if not cfg.insecure_demo_mode && bytes_eq cfg.tam_teep_private_key_path []
      then raise other
      else (do
        t ← lift (tam_of cfg)
        init_db cfg.db_path
        if cfg.insecure_demo_mode then seed_demo_data lib ec2 else pure tt
        pure (record { cfg = cfg; tam = t }))

  -- `main`, up to the server that it runs
  unfoldable pub start :
      Environment → (Bytes → Option Bool) → (Bytes → Option ℕ) → Flags → Exec (Server Key)
  unfolding resolve_log_level tam_config
  start env parse_bool parse_duration flags = do
    _ ← lift (resolve_log_level env parse_bool parse_duration flags)
    cfg ← lift (tam_config env parse_bool parse_duration flags.config)
    new_server cfg
