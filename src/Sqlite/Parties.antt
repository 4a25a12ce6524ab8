-- ===== src/Sqlite/Parties.antt =====
-- internal/infra/sqlite/device_repo.go, entity_repo.go and manifest_signing_key_repo.go.
use attes_tam.Base.{ℕ, Bool, Option, Bytes, bytes_eq, find, any, ◌==◌, if◌then◌else◌}
use attes_tam.Model.{storage, not_found, Entity, ManifestSigningKey, Device, insert, Db}
use attes_tam.Exec.{Result, ok, err, Exec, pure, raise, statement, query, if_some, ◌>>=◌}

unfoldable pub find_device_by_ueid : Bytes → Exec Device
find_device_by_ueid ueid = do
  row ← query (λ d. find (λ (r : Device). bytes_eq r.ueid ueid) d.devices.rows)
  if_some row pure (raise not_found)

-- the column `ueid` is UNIQUE
unfoldable pub insert_device : Device → Db → Result ℕ × Db
unfolding insert
insert_device r d =
    if any (λ (x : Device). bytes_eq x.ueid r.ueid) d.devices.rows
    then (err storage, d)
    else (ok d.devices.next_id, record d { devices = insert (λ i. record r { id = i }) d.devices })

unfoldable pub create_device : Device → Exec ℕ
create_device r = statement (insert_device r)

unfoldable pub insert_entity : Entity → Db → Result ℕ × Db
unfolding insert
insert_entity e d =
    (ok d.entities.next_id, record d { entities = insert (λ i. record e { id = i }) d.entities })

unfoldable pub create_entity : Entity → Exec ℕ
create_entity e = statement (insert_entity e)

unfoldable pub find_entity_by_id : ℕ → Exec (Option Entity)
find_entity_by_id i = query (λ d. find (λ (e : Entity). e.id == i) d.entities.rows)

unfoldable pub find_entity_by_name : Bytes → Exec (Option Entity)
find_entity_by_name name = query (λ d. find (λ (e : Entity). bytes_eq e.name name) d.entities.rows)

-- WHERE kid = ?
abbrev pub signing_kid_is : Bytes → ManifestSigningKey → Bool
signing_kid_is kid k = bytes_eq k.kid kid

-- the column `kid` is UNIQUE
unfoldable pub insert_signing_key : ManifestSigningKey → Db → Result ℕ × Db
unfolding insert
insert_signing_key k d =
    if any (signing_kid_is k.kid) d.manifest_signing_keys.rows then (err storage, d) else (
      ok d.manifest_signing_keys.next_id,
      record d {
        manifest_signing_keys = insert (λ i. record k { id = i }) d.manifest_signing_keys;
      },
    )

unfoldable pub create_signing_key : ManifestSigningKey → Exec ℕ
create_signing_key k = statement (insert_signing_key k)

unfoldable pub find_signing_key_by_kid : Bytes → Exec (Option ManifestSigningKey)
find_signing_key_by_kid kid = query (λ d. find (signing_kid_is kid) d.manifest_signing_keys.rows)
