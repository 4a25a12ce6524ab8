-- ===== src/Demo/Again.antt =====
-- Seeding the entities a second time (internal/demo/demo.go).
use attes_tam.Base.{ℕ, ◌≡◌, refl, sym, subst, ◌∙◌, some-injective, some, Bytes}
use attes_tam.Model.{Db}
use attes_tam.Exec.{Result, ok, err, World, Exec, time_now}
use attes_tam.Exec.Keeps.{Keeps}
use attes_tam.Exec.Gives.{Gives, Gives-bind, Gives-if_some, Gives-pure, Gives-raise, Gives-time_now}
use attes_tam.Exec.Atomic.{
  Ending, Reads, Reads-bind, Reads-time_now, Atomic-if_some, Atomic-pure, Atomic-raise,
}
use attes_tam.Demo.Data.{default_tam_admin_name, default_developer_name, default_device_admin_name}
use attes_tam.Demo.Seed.{
  SeedRefs, ensure_entity, ensure_manifest_signing_key, tam_admin, developer, device_admin,
  admin_kid, default_developer_manifest_key, seed_entities,
}
use attes_tam.Demo.Seeded.{
  HasEntity, HasKey, HasEntity-IsKept, HasKey-IsKept, both-IsKept, entity-Keeps, key-Keeps,
  entity-Gives, key-Gives, entity-Reads, key-Reads,
}
use attes_tam.Exec.{ok-injective}
use attes_tam.Tam.Library.{Library}

-- What a step adds to what holds before it.
adds :
    {A : Type 0} {P : Db → Type 0} {m : Exec A} {H : A → Db → Type 0}
    → Gives (λ _. Unit {0}) m H
    → Keeps P m
    → Gives P m (λ a d. H a d × P d)
adds g k = record { give = λ w a h r. (g.give w a tt r, k.keep w h) }

module _ {Key : Type 0} (lib : Library Key) (ec2 : Bytes → Bytes → Key) where
  -- The rows of the entities and the keys of the demo.
  record IsSeeded (refs : SeedRefs) (d : Db) : Type 0 where
    admin_key_id : ℕ
    key : Bytes × Bytes
    is_key : default_developer_manifest_key lib ec2 ≡ some key
    has_admin : HasEntity default_tam_admin_name refs.admin_id d
    has_admin_key : HasKey admin_kid admin_key_id d
    has_developer : HasEntity default_developer_name refs.developer_id d
    has_developer_key : HasKey key.0 refs.developer_signing_key_id d
    has_device_admin : HasEntity default_device_admin_name refs.device_admin_id d

  seed_entities-Gives : Gives (λ _. Unit {0}) (seed_entities lib ec2) IsSeeded
  unfolding seed_entities
  seed_entities-Gives =
      Gives-bind (λ _ _. Unit {0}) time_now _ (Gives-time_now (λ d t h. h))
        λ now. Gives-bind _ (ensure_entity (tam_admin now)) _ (entity-Gives _) λ a.
          let k₁ = HasEntity-IsKept default_tam_admin_name a in
          Gives-bind _ (ensure_manifest_signing_key _) _ (adds (key-Gives _) (key-Keeps k₁ _)) λ i.
            let k₂ = both-IsKept (HasKey-IsKept admin_kid i) k₁ in
            Gives-bind _ time_now _ (Gives-time_now (λ d t h. h)) λ after.
              Gives-bind _ (ensure_entity (developer after)) _
                (adds (entity-Gives _) (entity-Keeps k₂ _))
                λ b.
                  let k₃ = both-IsKept (HasEntity-IsKept default_developer_name b) k₂ in
                  Gives-if_some (default_developer_manifest_key lib ec2) _ _
                    (λ key is_key.
                      Gives-bind _ (ensure_manifest_signing_key _) _
                        (adds (key-Gives _) (key-Keeps k₃ _))
                        λ c.
                          let k₄ = both-IsKept (HasKey-IsKept key.0 c) k₃ in
                          Gives-bind _ time_now _ (Gives-time_now (λ d t h. h)) λ later.
                            Gives-bind _ (ensure_entity (device_admin later)) _
                              (adds (entity-Gives _) (entity-Keeps k₄ _))
                              λ e. Gives-pure _ λ d h. record {
                                admin_key_id = i;
                                key = key;
                                is_key = is_key;
                                has_admin = h.1.1.1.1;
                                has_admin_key = h.1.1.1.0;
                                has_developer = h.1.1.0;
                                has_developer_key = h.1.0;
                                has_device_admin = h.0;
                              })
                    (λ _. Gives-raise _)

  seed_entities-Reads :
      (refs : SeedRefs) (d : Db) → IsSeeded refs d → Reads d (seed_entities lib ec2) (λ r. r ≡ refs)
  unfolding seed_entities
  seed_entities-Reads refs d s = Reads-bind _ time_now _ Reads-time_now λ now _.
      Reads-bind _ (ensure_entity (tam_admin now)) _ (entity-Reads _ _ d s.has_admin) λ a ea.
        Reads-bind _ (ensure_manifest_signing_key _) _ (key-Reads _ _ d s.has_admin_key) λ i _.
          Reads-bind _ time_now _ Reads-time_now λ after _.
            Reads-bind _ (ensure_entity (developer after)) _ (entity-Reads _ _ d s.has_developer)
              λ b eb.
                Atomic-if_some (default_developer_manifest_key lib ec2) _ _
                  (λ key is_key.
                    Reads-bind _ (ensure_manifest_signing_key _) _
                      (key-Reads _ _ d (
                        subst (λ k. HasKey k.0 refs.developer_signing_key_id d)
                          (some-injective _ _ (sym s.is_key ∙ is_key)) s.has_developer_key))
                      λ c ec. Reads-bind _ time_now _ Reads-time_now λ later _.
                        Reads-bind _ (ensure_entity (device_admin later)) _
                          (entity-Reads _ _ d s.has_device_admin)
                          λ e ee. Atomic-pure _ (rw (ea, eb, ec, ee) refl, refl))
                  (λ _. Atomic-raise _)

  -- Once SeedEntities has succeeded, calling it again, at whatever time and whichever statements
  -- fail, changes nothing, and if it succeeds it returns the same ids.
  pub seed_entities_again :
      (w v : World) (refs : SeedRefs)
      → (seed_entities lib ec2 w).0 ≡ ok refs
      → v.db ≡ (seed_entities lib ec2 w).1.db
      → ((seed_entities lib ec2 v).1.db ≡ v.db)
        × ((again : SeedRefs) → (seed_entities lib ec2 v).0 ≡ ok again → again ≡ refs)
  seed_entities_again w v refs h e =
      told (seed_entities lib ec2 v).0 (seed_entities lib ec2 v).1.db (
        (seed_entities-Reads refs v.db
            (subst (IsSeeded refs) (sym e) (seed_entities-Gives.give w refs tt h))).ends
          v refl)
    where
      told :
          (r : Result SeedRefs) (d : Db)
          → Ending v.db (λ a d. (a ≡ refs) × (d ≡ v.db)) r d
          → (d ≡ v.db) × ((again : SeedRefs) → r ≡ ok again → again ≡ refs)
      told (ok a) d q = (q.1, λ again same. sym (ok-injective _ _ same) ∙ q.0)
      told (err x) d q = (q, λ again same. cc)
