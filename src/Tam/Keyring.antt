-- ===== src/Tam/Keyring.antt =====
-- internal/tam/keyring.go.
pub mod Developer
use attes_tam.Base.{
  ℕ, ◌+◌, ◌*◌, ◌-◌, ◌%◌, not, Option, none, some, Bytes, length, ◌==◌, if◌then◌else◌,
}
use attes_tam.Model.{other, Time, second, Device}
use attes_tam.Exec.{Exec, pure, raise, attempt, time_now, if_some, if_ok, ◌>>=◌}
use attes_tam.Sqlite.Agents
use attes_tam.Sqlite.Parties
use attes_tam.Tam.Library.{Library}

-- time.Now().UTC().Truncate(time.Second)
abbrev pub truncate : Time → Time
truncate t = t - t % second

-- 365 * 24 * time.Hour
abbrev pub one_year : Time
one_year = 31536000 * second

-- The look-up of the device by its UEID, whose errors are ignored.
unfoldable pub find_device_id : Option Bytes → Exec (Option ℕ)
find_device_id ueid =
    if_some ueid
      (λ u. do
        device ← attempt (Parties.find_device_by_ueid u)
        if_ok device (λ (r : Device). pure (some r.id)) (λ _. pure none))
      (pure none)

-- The agent is created unless its key id has a row, revoked or not.
unfoldable pub add_agent : Bytes → Bytes → Option Bytes → Exec Unit
add_agent kid public_key ueid = do
  existing ← Agents.find_by_kid_ignore_revoked kid
  if_some existing (λ _. pure tt)
      (do
        device ← find_device_id ueid
        now ← time_now
        _ ← Agents.create (record {
          id = 0;
          kid = kid;
          device_id = device;
          created_at = truncate now;
          expired_at = truncate now + one_year;
          revoked_at = none;
          public_key = public_key;
        })
        pure tt)

module _ {Key : Type 0} (lib : Library Key) where
  -- A key with no thumbprint, or with one that is not 32 bytes long, is not stored, and that is no
  -- error.
  unfoldable pub set_teep_agent_key : Option Key → Option Bytes → Exec Unit
  set_teep_agent_key key ueid =
      if_some key
        (λ k.
          if_some (lib.thumbprint k)
            (λ kid.
              if not (length kid == 32)
              then pure tt
              else if_some (lib.encode_key k) (λ bytes. add_agent kid bytes ueid) (raise other))
            (pure tt))
        (raise other)

  unfoldable pub get_teep_agent_key : Bytes → Exec Key
  get_teep_agent_key kid = if not (length kid == 32) then raise other else do
    agent ← Agents.find_by_kid kid
    if_some (lib.decode_key agent.public_key) pure (raise other)

  unfoldable pub get_entity_key : Bytes → Exec (Option Key)
  get_entity_key kid = if not (length kid == 32) then raise other else do
    row ← Parties.find_signing_key_by_kid kid
    if_some row (λ k. if_some (lib.decode_key k.public_key) (λ key. pure (some key)) (raise other))
        (pure none)

unfoldable pub revoke_teep_agent_key : Bytes → Exec Unit
revoke_teep_agent_key kid = if not (length kid == 32) then raise other else Agents.revoke_by_kid kid
