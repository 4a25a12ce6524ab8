-- ===== src/Demo/Seeded.antt =====
-- What ensureEntity and ensureManifestSigningKey leave and find (internal/demo/demo.go).
use attes_tam.Base.{
  ℕ, ◌≡◌, refl, ap, sym, ◌∙◌, some-injective, Bool-cases, Bool, none, some, inl, inr, Bytes,
  bytes_eq, bytes_eq_refl, find, find-append, find-append_some, any,
}
use attes_tam.Model.{Entity, ManifestSigningKey, insert, Db}
use attes_tam.Exec.{ok, query}
use attes_tam.Exec.Keeps.{
  Keeps, Keeps-bind, Keeps-query, Keeps-if_some, Keeps-pure, Keeps-statement,
}
use attes_tam.Exec.Gives.{
  Gives, Gives-bind, Gives-query, Gives-if_some, Gives-pure, Gives-statement,
}
use attes_tam.Exec.Atomic.{Reads, Reads-bind, Reads-query, Atomic-if_some, Atomic-pure}
use attes_tam.Sqlite.Stable.{if_keeps}
use attes_tam.Exec.{ok-injective}
use attes_tam.Sqlite.Parties
use attes_tam.Sqlite.Parties.{signing_kid_is, insert_entity, insert_signing_key}
use attes_tam.Demo.Seed.{ensure_entity, ensure_manifest_signing_key}

abbrev pub is_named : Bytes → Entity → Bool
is_named name e = bytes_eq e.name name

-- The row that the look-up by name or by key id finds, with its id.
abbrev pub HasEntity : Bytes → ℕ → Db → Type 0
HasEntity name i d = (e : Entity) × ((find (is_named name) d.entities.rows ≡ some e) × (e.id ≡ i))

abbrev pub HasKey : Bytes → ℕ → Db → Type 0
HasKey kid i d =
    (k : ManifestSigningKey) × ((find (signing_kid_is kid) d.manifest_signing_keys.rows ≡ some k)
      × (k.id ≡ i))

-- What the two inserts keep.
pub record IsKept (P : Db → Type 0) : Type 0 where
  pub entity_inserted : (e : Entity) (d : Db) → P d → P (insert_entity e d).1
  pub key_inserted : (k : ManifestSigningKey) (d : Db) → P d → P (insert_signing_key k d).1

pub HasEntity-IsKept : (name : Bytes) (i : ℕ) → IsKept (HasEntity name i)
unfolding insert_entity insert_signing_key insert
HasEntity-IsKept name i = record {
  entity_inserted =
      λ e d h. (h.0, (find-append_some (is_named name) d.entities.rows _ h.0 h.1.0, h.1.1));
  key_inserted = λ k d h. if_keeps (HasEntity name i) _ _ _ h h;
}

pub HasKey-IsKept : (kid : Bytes) (i : ℕ) → IsKept (HasKey kid i)
unfolding insert_entity insert_signing_key insert
HasKey-IsKept kid i = record {
  entity_inserted = λ e d h. h;
  key_inserted = λ k d h. if_keeps (HasKey kid i) _ _ _ h (
    h.0,
    (find-append_some (signing_kid_is kid) d.manifest_signing_keys.rows _ h.0 h.1.0, h.1.1),
  );
}

pub both-IsKept : {P Q : Db → Type 0} → IsKept P → IsKept Q → IsKept (λ d. P d × Q d)
both-IsKept p q = record {
  entity_inserted = λ e d h. (p.entity_inserted e d h.0, q.entity_inserted e d h.1);
  key_inserted = λ k d h. (p.key_inserted k d h.0, q.key_inserted k d h.1);
}

pub entity-Keeps : {P : Db → Type 0} → IsKept P → (e : Entity) → Keeps P (ensure_entity e)
unfolding ensure_entity Parties.find_entity_by_name Parties.create_entity
entity-Keeps p e =
    Keeps-bind _ _ (Keeps-query _)
      λ o. Keeps-if_some o _ _ (λ r. Keeps-pure r.id) (Keeps-statement _ (p.entity_inserted e))

pub key-Keeps :
    {P : Db → Type 0}
    → IsKept P
    → (k : ManifestSigningKey) → Keeps P (ensure_manifest_signing_key k)
unfolding ensure_manifest_signing_key Parties.find_signing_key_by_kid Parties.create_signing_key
key-Keeps p k =
    Keeps-bind _ _ (Keeps-query _)
      λ o. Keeps-if_some o _ _ (λ r. Keeps-pure r.id) (Keeps-statement _ (p.key_inserted k))

inserted-HasEntity :
    (e : Entity) (d : Db) (i : ℕ)
    → find (is_named e.name) d.entities.rows ≡ none
    → (insert_entity e d).0 ≡ ok i
    → HasEntity e.name i (insert_entity e d).1
unfolding insert_entity insert find
inserted-HasEntity e d i absent r = (
  record e { id = d.entities.next_id },
  (
    find-append (is_named e.name) d.entities.rows _ absent ∙ rw (bytes_eq_refl e.name) refl,
    ok-injective _ _ r,
  ),
)

inserted-HasKey :
    (k : ManifestSigningKey) (d : Db) (i : ℕ)
    → find (signing_kid_is k.kid) d.manifest_signing_keys.rows ≡ none
    → (insert_signing_key k d).0 ≡ ok i
    → HasKey k.kid i (insert_signing_key k d).1
unfolding insert_signing_key insert find
inserted-HasKey k d i absent r =
    elim (Bool-cases (any (signing_kid_is k.kid) d.manifest_signing_keys.rows)) [
      | inl taken ↦ let refused = rw taken at r in cc
      | inr free ↦ rw free (
        record k { id = d.manifest_signing_keys.next_id },
        (
          find-append (signing_kid_is k.kid) d.manifest_signing_keys.rows _ absent
              ∙ rw (bytes_eq_refl k.kid) refl,
          ok-injective _ _ (rw free at r),
        ),
      )
    ]

pub entity-Gives : (e : Entity) → Gives (λ _. Unit {0}) (ensure_entity e) (HasEntity e.name)
unfolding ensure_entity Parties.find_entity_by_name Parties.create_entity
entity-Gives e =
    Gives-bind (λ o d. find (is_named e.name) d.entities.rows ≡ o) (query _) _
      (Gives-query _ (λ d _. refl))
      λ o.
        Gives-if_some o _ _ (λ r q. Gives-pure r.id (λ d h. (r, (h ∙ q, refl))))
          (λ q. Gives-statement _ (λ d i h r. inserted-HasEntity e d i (h ∙ q) r))

pub key-Gives :
    (k : ManifestSigningKey) → Gives (λ _. Unit {0}) (ensure_manifest_signing_key k) (HasKey k.kid)
unfolding ensure_manifest_signing_key Parties.find_signing_key_by_kid Parties.create_signing_key
key-Gives k =
    Gives-bind (λ o d. find (signing_kid_is k.kid) d.manifest_signing_keys.rows ≡ o) (query _) _
      (Gives-query _ (λ d _. refl))
      λ o.
        Gives-if_some o _ _ (λ r q. Gives-pure r.id (λ d h. (r, (h ∙ q, refl))))
          (λ q. Gives-statement _ (λ d i h r. inserted-HasKey k d i (h ∙ q) r))

pub entity-Reads :
    (e : Entity) (i : ℕ) (d : Db) → HasEntity e.name i d → Reads d (ensure_entity e) (λ a. a ≡ i)
unfolding ensure_entity Parties.find_entity_by_name
entity-Reads e i d h = Reads-bind _ (query _) _ (Reads-query _) λ o found.
    Atomic-if_some o _ _
      (λ r q.
        Atomic-pure r.id
          (ap (λ (x : Entity). x.id) (some-injective _ _ (sym q ∙ (found ∙ h.1.0))) ∙ h.1.1, refl))
      (λ q. let lost = sym q ∙ (found ∙ h.1.0) in cc)

pub key-Reads :
    (k : ManifestSigningKey) (i : ℕ) (d : Db)
    → HasKey k.kid i d
    → Reads d (ensure_manifest_signing_key k) (λ a. a ≡ i)
unfolding ensure_manifest_signing_key Parties.find_signing_key_by_kid
key-Reads k i d h = Reads-bind _ (query _) _ (Reads-query _) λ o found.
    Atomic-if_some o _ _
      (λ r q. Atomic-pure r.id (
        ap (λ (x : ManifestSigningKey). x.id) (some-injective _ _ (sym q ∙ (found ∙ h.1.0)))
            ∙ h.1.1,
        refl,
      ))
      (λ q. let lost = sym q ∙ (found ∙ h.1.0) in cc)
