-- ===== src/Tam/Frames.antt =====
-- Predicates of one table and the requests outside a TEEP session.
use attes_tam.Base.{ℕ, Option, Bytes}
use attes_tam.Model.{Table, Holding, Token, Challenge, Agent, SuitManifest, ManifestSigningKey, Db}
use attes_tam.Exec.Keeps.{Keeps, Keeps-statement, keeps_rules}
use attes_tam.Sqlite.Agents
use attes_tam.Sqlite.Parties
use attes_tam.Sqlite.Manifests
use attes_tam.Sqlite.Stable.{IsStable, IsLasting, if_keeps, latest_found}
use attes_tam.Tam.Keyring.{revoke_teep_agent_key}
use attes_tam.Tam.Repository.{get_manifest, check_existing, store_envelope, set_envelope}
use attes_tam.Tam.Stable.{rules}
use attes_tam.Tam.System.{IsInvariant}

module _ {P : Db → Type 0} (s : IsStable P) where
  key_found : (kid : Bytes) → Keeps P (Parties.find_signing_key_by_kid kid)
  unfolding Parties.find_signing_key_by_kid
  key_found kid = search keeps_rules

  existing_found : (c : Bytes) → Keeps P (get_manifest c)
  unfolding get_manifest
  existing_found c = latest_found s c

  existing_checked :
      (m : Option SuitManifest) (k : ManifestSigningKey) (n : ℕ) → Keeps P (check_existing m k n)
  unfolding check_existing
  existing_checked m k n = search keeps_rules depth 8

  manifest_created :
      ((m : SuitManifest) (d : Db) → P d → P (Manifests.insert_manifest m d).1)
      → (m : SuitManifest) → Keeps P (Manifests.create m)
  unfolding Manifests.create
  manifest_created inserts m = search (keeps_rules, Keeps-statement, inserts)

  -- `set_envelope` keeps what its insert keeps.
  pub envelope-Keeps :
      ((m : SuitManifest) (d : Db) → P d → P (Manifests.insert_manifest m d).1)
      → (bytes : Option Bytes) (digest kid component : Bytes) (sequence_number : ℕ)
      → Keeps P (set_envelope bytes digest kid component sequence_number)
  unfolding set_envelope store_envelope
  envelope-Keeps inserts bytes digest kid component n =
      search (rules, key_found, existing_found, existing_checked, manifest_created inserts) depth 10

  -- and revocation what its UPDATE keeps.
  pub revocation-Keeps :
      ((kid : Bytes) (at : ℕ) (d : Db) → P d → P (Agents.revoke_rows kid at d).1)
      → (kid : Bytes) → Keeps P (revoke_teep_agent_key kid)
  unfolding revoke_teep_agent_key Agents.revoke_by_kid
  revocation-Keeps revokes kid = search (keeps_rules, Keeps-statement, revokes) depth 8

-- What the three inserts are to the other tables.
inserts : Unit {0}
unfolding Parties.create_entity Parties.create_device Parties.create_signing_key
    Parties.insert_entity Parties.insert_device Parties.insert_signing_key Manifests.insert_manifest
    Agents.revoke_rows
inserts = tt

pub tokens_invariant :
    (Q : Table Token → Type 0) → IsLasting (λ d. Q d.tokens) → IsInvariant (λ d. Q d.tokens)
unfolding inserts
tokens_invariant Q s =
    let P : Db → Type 0 = λ d. Q d.tokens in
    record {
      lasting = s;
      envelope_set = envelope-Keeps s.stable (λ m d h. h);
      key_revoked = revocation-Keeps s.stable (λ kid at d h. h);
      entity_created = λ r. Keeps-statement _ (λ d h. h);
      device_created = λ r. Keeps-statement _ (λ d h. if_keeps P _ _ _ h h);
      signing_key_created = λ r. Keeps-statement _ (λ d h. if_keeps P _ _ _ h h);
    }

pub challenges_invariant :
    (Q : Table Challenge → Type 0)
    → IsLasting (λ d. Q d.challenges)
    → IsInvariant (λ d. Q d.challenges)
unfolding inserts
challenges_invariant Q s =
    let P : Db → Type 0 = λ d. Q d.challenges in
    record {
      lasting = s;
      envelope_set = envelope-Keeps s.stable (λ m d h. h);
      key_revoked = revocation-Keeps s.stable (λ kid at d h. h);
      entity_created = λ r. Keeps-statement _ (λ d h. h);
      device_created = λ r. Keeps-statement _ (λ d h. if_keeps P _ _ _ h h);
      signing_key_created = λ r. Keeps-statement _ (λ d h. if_keeps P _ _ _ h h);
    }

pub agents_invariant :
    (Q : Table Agent → Type 0)
    → IsLasting (λ d. Q d.agents)
    → ((kid : Bytes) (at : ℕ) (d : Db) → Q d.agents → Q (Agents.revoke_rows kid at d).1.agents)
    → IsInvariant (λ d. Q d.agents)
unfolding inserts
agents_invariant Q s revokes =
    let P : Db → Type 0 = λ d. Q d.agents in
    record {
      lasting = s;
      envelope_set = envelope-Keeps s.stable (λ m d h. h);
      key_revoked = revocation-Keeps s.stable revokes;
      entity_created = λ r. Keeps-statement _ (λ d h. h);
      device_created = λ r. Keeps-statement _ (λ d h. if_keeps P _ _ _ h h);
      signing_key_created = λ r. Keeps-statement _ (λ d h. if_keeps P _ _ _ h h);
    }

-- The manifests are written by `set_envelope` alone.
pub manifests_invariant :
    (Q : Table Holding → Table SuitManifest → Type 0)
    → IsLasting (λ d. Q d.holdings d.suit_manifests)
    → ((bytes : Option Bytes) (digest kid component : Bytes) (sequence_number : ℕ)
        → Keeps
            (λ d. Q d.holdings d.suit_manifests)
            (set_envelope bytes digest kid component sequence_number))
    → IsInvariant (λ d. Q d.holdings d.suit_manifests)
unfolding inserts
manifests_invariant Q s sets =
    let P : Db → Type 0 = λ d. Q d.holdings d.suit_manifests in
    record {
      lasting = s;
      envelope_set = sets;
      key_revoked = revocation-Keeps s.stable (λ kid at d h. h);
      entity_created = λ r. Keeps-statement _ (λ d h. h);
      device_created = λ r. Keeps-statement _ (λ d h. if_keeps P _ _ _ h h);
      signing_key_created = λ r. Keeps-statement _ (λ d h. if_keeps P _ _ _ h h);
    }
