-- ===== src/Demo/Repeated.antt =====
-- Seeding the manifest after a newer version was registered (internal/demo/demo.go).
use attes_tam.Base.{
  ℕ, ◌+◌, ◌<◌, ◌≡◌, ap, subst, ◌∙◌, true, leb, Option, some, Bytes, bytes_eq_refl, length,
  length-append, arith,
}
use attes_tam.Model.{other, Table, SuitManifest, insert, Db}
use attes_tam.Exec.{raise, statement}
use attes_tam.Exec.Keeps.{Keeps, keeps_rules, Keeps-statement}
use attes_tam.Exec.Gives.{
  Gives, Gives-bind, Gives-if, Gives-keeps, Gives-pure, Gives-query, Gives-raise, Gives-statement,
}
use attes_tam.Sqlite.Parties
use attes_tam.Sqlite.Statuses
use attes_tam.Sqlite.Frames.{repository_frame}
use attes_tam.Sqlite.Stable.{IsLasting, if_keeps, agent_found, agent_created, device_found}
use attes_tam.Sqlite.Manifests
use attes_tam.Sqlite.Manifests.{without_digest, scanned, latest_of, insert_manifest, max_int64}
use attes_tam.Sqlite.Manifests.Latest.{latest_of-append}
use attes_tam.Tam.Library.{Library}
use attes_tam.Tam.Seed.{
  ensure_trusted_demo_agent_key, seed_demo_entities, seed_demo_agent, seed_demo_data,
}
use attes_tam.Tam.Stable.{key_set, key_got}
use attes_tam.Demo.Data.{trusted_component_hello_text}
use attes_tam.Demo.Seeded.{IsKept, entity-Keeps, key-Keeps}
use attes_tam.Demo.Seed.{
  seed_entities, is_version_0, hello_text_manifest, seed_hello_text_manifest, ensure_device,
  ensure_agent, ensure_status, seed_agent_scenario,
}

older_row_is_passed :
    (key : ℕ) (m : SuitManifest) (d : Db)
    → latest_of trusted_component_hello_text d.suit_manifests.rows ≡ some m
    → 0 < m.sequence_number
    → latest_of trusted_component_hello_text
        (insert_manifest (hello_text_manifest key) d).1.suit_manifests.rows
      ≡ some m
unfolding insert_manifest insert
older_row_is_passed key m d latest newer =
    latest_of-append trusted_component_hello_text d.suit_manifests.rows _
    ∙ rw (latest, bytes_eq_refl trusted_component_hello_text) (ground arith)

one_more_row :
    (key : ℕ) (d : Db)
    → length (insert_manifest (hello_text_manifest key) d).1.suit_manifests.rows
      ≡ length d.suit_manifests.rows + 1
unfolding insert_manifest insert
one_more_row key d = length-append d.suit_manifests.rows _

-- There are `n` manifests, and `m` is the latest for hello.txt.
abbrev pub IsLatestOf : SuitManifest → ℕ → Db → Type 0
IsLatestOf m n d =
    (latest_of trusted_component_hello_text d.suit_manifests.rows ≡ some m)
    × (length d.suit_manifests.rows ≡ n)

manifest_seeded :
    (key : ℕ) (m : SuitManifest) (n : ℕ)
    → 0 < m.sequence_number
    → Gives (IsLatestOf m n) (seed_hello_text_manifest key) (λ _. IsLatestOf m (n + 1))
unfolding seed_hello_text_manifest Manifests.find_latest_by_trusted_component_id Manifests.create
manifest_seeded key m n newer =
    Gives-bind (λ o d. (o ≡ some (without_digest m)) × IsLatestOf m n d) _ _
      (Gives-query _ (λ d h. (ap scanned h.0, h)))
      λ o.
        Gives-if (is_version_0 o) _ _ (λ zero. Gives-pure tt (λ d h. absurd (never o zero h.0)))
          λ _.
            Gives-bind (λ _. IsLatestOf m (n + 1)) _ _
              (Gives-if (leb max_int64 0) (raise other)
                (statement (insert_manifest (hello_text_manifest key))) (λ _. Gives-raise other)
                λ _. Gives-statement (insert_manifest (hello_text_manifest key)) λ d i h e. (
                  older_row_is_passed key m d h.1.0 newer,
                  one_more_row key d ∙ omega (arith, h.1.1),
                ))
              λ _. Gives-pure tt (λ d h. h)
  where
    never : (o : Option SuitManifest) → is_version_0 o ≡ true → o ≡ some (without_digest m) → ⊥
    never o zero e = let first = subst (λ x. is_version_0 x ≡ true) e zero in ground (arith, newer)

-- The rest of the seeding leaves the manifests.
module _ (Q : Table SuitManifest → Type 0) where
  abbrev OfManifests : Db → Type 0
  OfManifests d = Q d.suit_manifests

  manifests-IsLasting : IsLasting OfManifests
  manifests-IsLasting = repository_frame (λ keys t. Q t)

  manifests-IsKept : IsKept OfManifests
  unfolding Parties.insert_entity Parties.insert_signing_key
  manifests-IsKept = record {
    entity_inserted = λ e d h. h;
    key_inserted = λ k d h. if_keeps OfManifests _ _ _ h h;
  }

  device_created : (r : _) → Keeps OfManifests (Parties.create_device r)
  unfolding Parties.create_device Parties.insert_device
  device_created r = Keeps-statement _ (λ d h. if_keeps OfManifests _ _ _ h h)

  status_read : (kid : Bytes) → Keeps OfManifests (Statuses.get_agent_status kid)
  unfolding Statuses.get_agent_status
  status_read kid = search keeps_rules

  scenario_seeded : (admin : ℕ) (b : _) → Keeps OfManifests (seed_agent_scenario admin b)
  unfolding seed_agent_scenario ensure_device ensure_agent ensure_status
  scenario_seeded admin b =
      let s = manifests-IsLasting in
      search
        (
          keeps_rules,
          device_created,
          status_read,
          device_found s.stable,
          agent_found s.stable,
          agent_created s.stable,
          s.status_reflected,
        )
        depth 14

  module _ {Key : Type 0} (lib : Library Key) (ec2 : Bytes → Bytes → Key) where
    entities_seeded : Keeps OfManifests (seed_entities lib ec2)
    unfolding seed_entities
    entities_seeded =
        search (keeps_rules, entity-Keeps manifests-IsKept, key-Keeps manifests-IsKept) depth 20

    agent_key_ensured : Keeps OfManifests (ensure_trusted_demo_agent_key lib ec2)
    unfolding ensure_trusted_demo_agent_key
    agent_key_ensured =
        let s = manifests-IsLasting in
        search (keeps_rules, key_got s.stable lib, key_set s.stable lib) depth 12

    agent_seeded : (b : _) → Keeps OfManifests (seed_demo_agent lib ec2 b)
    unfolding seed_demo_agent
    agent_seeded b =
        search (keeps_rules, agent_key_ensured, entities_seeded, scenario_seeded) depth 10

-- Each seeding adds a row of version 0, and the latest manifest stays.
pub demo_seeded :
    {Key : Type 0} (lib : Library Key) (ec2 : Bytes → Bytes → Key) (m : SuitManifest) (n : ℕ)
    → 0 < m.sequence_number
    → Gives (IsLatestOf m n) (seed_demo_data lib ec2) (λ _. IsLatestOf m (n + 1))
unfolding seed_demo_data seed_demo_entities
demo_seeded lib ec2 m n newer =
    Gives-bind (λ _. IsLatestOf m (n + 1)) _ _
      (Gives-bind (λ _. IsLatestOf m n) _ _
        (Gives-keeps (entities_seeded (rows n) lib ec2) (λ d h. h))
        λ refs. manifest_seeded refs.developer_signing_key_id m n newer)
      λ _. Gives-keeps (agent_seeded (rows (n + 1)) lib ec2 true) (λ d h. h)
  where
    rows : ℕ → Table SuitManifest → Type 0
    rows k t = (latest_of trusted_component_hello_text t.rows ≡ some m) × (length t.rows ≡ k)
