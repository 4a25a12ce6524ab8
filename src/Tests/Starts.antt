-- ===== src/Tests/Starts.antt =====
-- The theorems on seeding and on the start of the server applied to runs.
use attes_tam.Base.{
  ◌≡◌, ◌≢◌, refl, subst, Bool, false, true, Option, none, some, some-injective, [], Bytes, bytes_eq,
  length, arith, if◌then◌else◌,
}
use attes_tam.Model.{Db, SuitManifest, create_schema}
use attes_tam.Exec.{World, Result, ok}
use attes_tam.Text.{text}
use attes_tam.Config.{RaConfig, Flags, Environment, env_insecure_demo_mode}
use attes_tam.Sqlite.Manifests.{latest_of, insert_manifest}
use attes_tam.Demo.Data.{trusted_component_hello_text, demo_tam_private_key}
use attes_tam.Demo.Seed.{SeedRefs, hello_text_manifest, seed_entities}
use attes_tam.Demo.Again.{seed_entities_again}
use attes_tam.Server.Start.{Server, start}
use attes_tam.Server.Start.Repeated.{unstarted, started, Restarts-length}
use attes_tam.Server.Start.Own.{IsOwn, start-IsOwn}
use attes_tam.Tam.Library.{Verifier}
use attes_tam.Tests.Setup.{library, world, start_world, agent_kid}
use attes_tam.Tests.Everything.{everything}

abbrev ec2 : Bytes → Bytes → Bytes
ec2 x y = x

abbrev refs : SeedRefs
refs = record { admin_id = 1; developer_id = 2; developer_signing_key_id = 2; device_admin_id = 3 }

abbrev ready : World
ready = world (seed_entities library ec2 start_world).1.db

seed_entities_again_example :
    ((seed_entities library ec2 ready).1.db ≡ ready.db)
    × ((again : SeedRefs) → (seed_entities library ec2 ready).0 ≡ ok again → again ≡ refs)
unfolding everything
seed_entities_again_example = seed_entities_again library ec2 start_world ready refs refl refl

-- Version 1 of the component.
abbrev updated : SuitManifest
updated = record (hello_text_manifest 2) { id = 1; sequence_number = 1 }

abbrev with_update : Db
with_update = (insert_manifest updated create_schema).1

abbrev flags : Flags
flags = record {
  config = record {
    addr = text "localhost:8080";
    db_path = text "tam_state.db";
    insecure_demo_mode = true;
    tam_teep_private_key_path = text "key";
    challenge_server_url = text "https://localhost:8443";
    challenge_content_type = text "application/eat+cwt";
    challenge_insecure_tls = true;
    challenge_timeout = 60000000000;
    intel_collateral_cache_dir = text "./";
    intel_collateral_service_url = [];
    intel_collateral_insecure_tls = false;
    intel_collateral_subscription_key = [];
  };
  log_level = text "info";
  log_level_was_set = true;
}

abbrev no_verifier : RaConfig → Bytes → Result (Option (Verifier Bytes))
no_verifier cfg format = ok none

-- The variable is set to a value that parses as false, and the flag asks for the mode.
abbrev environment : Environment
environment name = if bytes_eq name env_insecure_demo_mode then some (text "false") else none

abbrev parse_bool : Bytes → Option Bool
parse_bool value = if bytes_eq value (text "true") then some true else some false

abbrev own_server : Server Bytes
own_server = record {
  cfg = record flags.config { insecure_demo_mode = false };
  tam = record {
    resolve_verifier = some (λ format. ok none);
    verifier = none;
    tam_key = agent_kid;
  };
}

start-IsOwn_example :
    IsOwn library ec2 no_verifier
      (λ _. some agent_kid)
      (λ _. some create_schema)
      own_server
      (start library ec2 no_verifier
        (λ _. some agent_kid)
        (λ _. some create_schema)
        environment
        parse_bool
        (λ _. none)
        flags
        start_world).1.db
unfolding everything
start-IsOwn_example =
    start-IsOwn library ec2 no_verifier (λ _. some agent_kid) (λ _. some create_schema) environment
      parse_bool (λ _. none) flags start_world own_server (λ value e. says_false value e)
      (λ unset. cc) refl
  where
    says_false :
        (value : Bytes)
        → environment env_insecure_demo_mode ≡ some value
        → parse_bool value ≢ some true
    says_false value e =
        subst (λ x. parse_bool x ≢ some true) (some-injective (text "false") value e) (λ q. cc)

-- The variable is not set, and the flag asks for the mode.
abbrev demo_environment : Environment
demo_environment name = none

abbrev demo_start : Db → World → Result (Server Bytes) × World
demo_start d w =
    start library ec2 no_verifier (λ _. none) (λ _. some d) demo_environment parse_bool (λ _. none)
      flags w

abbrev demo_server : Server Bytes
demo_server = record {
  cfg = flags.config;
  tam = record {
    resolve_verifier = some (λ format. ok none);
    verifier = none;
    tam_key = demo_tam_private_key;
  };
}

-- Two starts after the update.
abbrev once : Db
once = (demo_start with_update start_world).1.db

abbrev twice : Db
twice = (demo_start once start_world).1.db

Restarts-length_example :
    (length twice.suit_manifests.rows ≡ 3)
    × (latest_of trusted_component_hello_text twice.suit_manifests.rows ≡ some updated)
unfolding everything
Restarts-length_example =
    Restarts-length library ec2 no_verifier (λ _. none) updated {d = with_update} refl (omega arith)
      (started demo_environment parse_bool (λ _. none) flags start_world demo_server
        (started demo_environment parse_bool (λ _. none) flags start_world demo_server unstarted
          refl refl)
        refl refl)
