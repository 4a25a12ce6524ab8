-- ===== src/Tam/Seed.antt =====
-- The seeding of demo data by the TAM (internal/tam/tam.go).
use attes_tam.Base.{Bool, true, none, some, Bytes, if◌then◌else◌}
use attes_tam.Model.{other}
use attes_tam.Exec.{Exec, pure, raise, attempt, if_some, if_ok, ◌>>=◌, ◌>>◌}
use attes_tam.Demo.Data.{default_trusted_agent_key}
use attes_tam.Demo.Seed.{seed_entities, seed_hello_text_manifest, seed_agent_scenario}
use attes_tam.Tam.Library.{Library}
use attes_tam.Tam.Keyring.{set_teep_agent_key, get_teep_agent_key}

module _ {Key : Type 0} (lib : Library Key) (ec2 : Bytes → Bytes → Key) where
  unfoldable pub ensure_trusted_demo_agent_key : Exec Unit
  ensure_trusted_demo_agent_key =
      if_some (lib.decode_key default_trusted_agent_key)
        (λ key.
          if_some (lib.thumbprint key)
            (λ kid. do
              existing ← attempt (get_teep_agent_key lib kid)
              if_ok existing (λ _. pure tt) (λ _. set_teep_agent_key lib (some key) none))
            (raise other))
        (raise other)

  unfoldable pub seed_demo_entities : Bool → Exec Unit
  seed_demo_entities with_manifest = do
    refs ← seed_entities lib ec2
    if with_manifest then seed_hello_text_manifest refs.developer_signing_key_id else pure tt

  unfoldable pub seed_demo_agent : Bool → Exec Unit
  seed_demo_agent with_status = do
    ensure_trusted_demo_agent_key
    refs ← seed_entities lib ec2
    seed_agent_scenario refs.device_admin_id with_status

  unfoldable pub seed_demo_data : Exec Unit
  seed_demo_data = do seed_demo_entities true; seed_demo_agent true
