-- ===== src/Demo/Seed.antt =====
-- internal/demo/demo.go: the seeding of entities, a manifest and an agent.
use attes_tam.Base.{
  ℕ, ◌+◌, ◌*◌, Bool, true, false, Option, none, some, [], ◌∷◌, Bytes, ◌==◌, if◌then◌else◌,
}
use attes_tam.Model.{
  Error, not_found, other, zero_time, Time, second, Entity, ManifestSigningKey, SuitManifest,
  AgentStatus,
}
use attes_tam.Exec.{Exec, pure, raise, attempt, time_now, if_some, if_ok, ◌>>=◌, ◌>>◌}
use attes_tam.Text.{text}
use attes_tam.Sqlite.Agents
use attes_tam.Sqlite.Parties
use attes_tam.Sqlite.Manifests
use attes_tam.Sqlite.Statuses
use attes_tam.Tam.Library.{Library}
use attes_tam.Tam.Keyring.{truncate}
use attes_tam.Demo.Data.{
  default_tam_admin_name, default_developer_name, default_device_admin_name, default_device_ueid,
  trusted_component_hello_text, default_agent_kid, hello_text_manifest_v0,
  hello_text_manifest_digest, developer_key_x, developer_key_y,
}

pub record SeedRefs : Type 0 where
  pub admin_id : ℕ
  pub developer_id : ℕ
  pub developer_signing_key_id : ℕ
  pub device_admin_id : ℕ

unfoldable pub ensure_entity : Entity → Exec ℕ
ensure_entity e = do
  existing ← Parties.find_entity_by_name e.name
  if_some existing (λ (r : Entity). pure r.id) (Parties.create_entity e)

unfoldable pub ensure_manifest_signing_key : ManifestSigningKey → Exec ℕ
ensure_manifest_signing_key k = do
  existing ← Parties.find_signing_key_by_kid k.kid
  if_some existing (λ (r : ManifestSigningKey). pure r.id) (Parties.create_signing_key k)

abbrev pub tam_admin : Time → Entity
tam_admin now = record {
  id = 0;
  name = default_tam_admin_name;
  is_tam_admin = true;
  is_tc_developer = false;
  is_device_admin = false;
  created_at = now;
}

abbrev pub developer : Time → Entity
developer now = record {
  id = 0;
  name = default_developer_name;
  is_tam_admin = false;
  is_tc_developer = true;
  is_device_admin = false;
  created_at = now;
}

abbrev pub device_admin : Time → Entity
device_admin now = record {
  id = 0;
  name = default_device_admin_name;
  is_tam_admin = false;
  is_tc_developer = false;
  is_device_admin = true;
  created_at = now;
}

abbrev pub signing_key : Bytes → Bytes → ℕ → ManifestSigningKey
signing_key kid public_key entity = record {
  id = 0;
  kid = kid;
  entity_id = entity;
  public_key = public_key;
  created_at = zero_time;
  expired_at = zero_time;
}

abbrev pub admin_kid : Bytes
admin_kid = text "key-1"

-- `ec2` is the literal cose.Key of an ESP256 key with two coordinates.
module _ {Key : Type 0} (lib : Library Key) (ec2 : Bytes → Bytes → Key) where
  -- The key id and the encoding of the developer's key.
  unfoldable pub default_developer_manifest_key : Option (Bytes × Bytes)
  default_developer_manifest_key =
      let key = ec2 developer_key_x developer_key_y in
      elim (lib.thumbprint key) [
        | none ↦ none
        | some kid ↦ elim (lib.encode_key key) [ none ↦ none | some bytes ↦ some (kid, bytes) ]
      ]

  unfoldable pub seed_entities : Exec SeedRefs
  unfolding default_developer_manifest_key
  seed_entities = do
    now ← time_now
    admin ← ensure_entity (tam_admin now)
    _ ← ensure_manifest_signing_key (signing_key admin_kid (text "pub-key-1") admin)
    after ← time_now
    dev ← ensure_entity (developer after)
    if_some default_developer_manifest_key
        (λ key. do
          key_id ← ensure_manifest_signing_key (signing_key key.0 key.1 dev)
          later ← time_now
          device ← ensure_entity (device_admin later)
          pure (record {
            admin_id = admin;
            developer_id = dev;
            developer_signing_key_id = key_id;
            device_admin_id = device;
          }))
        (raise other)

abbrev pub is_version_0 : Option SuitManifest → Bool
is_version_0 none = false
is_version_0 (some m) = m.sequence_number == 0

abbrev pub hello_text_manifest : ℕ → SuitManifest
hello_text_manifest signing_key = record {
  id = 0;
  manifest = hello_text_manifest_v0;
  digest = hello_text_manifest_digest;
  signing_key_id = signing_key;
  trusted_component_id = trusted_component_hello_text;
  sequence_number = 0;
  created_at = zero_time;
}

unfoldable pub seed_hello_text_manifest : ℕ → Exec Unit
seed_hello_text_manifest signing_key = do
  m ← Manifests.find_latest_by_trusted_component_id trusted_component_hello_text
  if is_version_0 m
      then pure tt
      else (Manifests.create (hello_text_manifest signing_key) >>= λ _. pure tt)

-- errors.Is(err, domain.ErrNotFound)
abbrev pub is_not_found : Error → Bool
is_not_found not_found = true
is_not_found _ = false

abbrev pub thirty_years : Time
thirty_years = 30 * 365 * 86400 * second

unfoldable pub ensure_device : ℕ → Time → Exec ℕ
ensure_device admin now = do
  device ← attempt (Parties.find_device_by_ueid default_device_ueid)
  if_ok device (λ r. pure r.id)
      (λ e.
        if is_not_found e
        then Parties.create_device
            (record { id = 0; ueid = default_device_ueid; admin_id = admin; created_at = now })
        else raise e)

unfoldable pub ensure_agent : ℕ → Time → Exec Unit
ensure_agent device now = do
  agent ← attempt (Agents.find_by_kid default_agent_kid)
  if_ok agent (λ _. pure tt)
      (λ e.
        if is_not_found e
        then (Agents.create (record {
          id = 0;
          kid = default_agent_kid;
          device_id = some device;
          created_at = now;
          expired_at = now + thirty_years;
          revoked_at = none;
          public_key = text "pk";
        })
            >>= λ _. pure tt)
        else raise e)

abbrev pub has_manifests : Option AgentStatus → Bool
has_manifests none = false
has_manifests (some s) = elim s.suit_manifests [ [] ↦ false | _ ∷ _ ↦ true ]

unfoldable pub ensure_status : Exec Unit
ensure_status = do
  status ← Statuses.get_agent_status default_agent_kid
  if has_manifests status
      then pure tt
      else (Statuses.reflect_manifest_success default_agent_kid (some hello_text_manifest_digest)
            (text "report1")
          >>= λ _. pure tt)

unfoldable pub seed_agent_scenario : ℕ → Bool → Exec Unit
seed_agent_scenario admin with_status = do
  now ← time_now
  device ← ensure_device admin (truncate now)
  ensure_agent device (truncate now)
  if with_status then ensure_status else pure tt
