-- ===== src/Tam/System.antt =====
-- The TAM as its environment drives it: the requests that write, in any order, each with whatever
-- clock, random bytes and driver faults the environment has at that time. A request runs whole.
use attes_tam.Base.{ℕ, ◌≡◌, sym, subst, Option, Bytes}
use attes_tam.Model.{ManifestSigningKey, Device, Entity, Db}
use attes_tam.Exec.{World, Exec}
use attes_tam.Exec.Keeps.{Keeps}
use attes_tam.Sqlite.Parties.{create_device, create_entity, create_signing_key}
use attes_tam.Sqlite.Stable.{IsLasting}
use attes_tam.Tam.Library.{Library, Tam}
use attes_tam.Tam.Keyring.{revoke_teep_agent_key}
use attes_tam.Tam.Repository.{set_envelope}
use attes_tam.Tam.Resolve.{resolve_teep_message}
use attes_tam.Tam.Lasting.{message_resolved}

-- A run of `m` takes the database `d` to `e`.
pub data Runs {A : Type 0} (m : Exec A) (d e : Db) : Type 0 where
  runs : (w : World) → w.db ≡ d → (m w).1.db ≡ e → Runs m d e

pub data Step {Key : Type 0} (lib : Library Key) (tam : Tam Key) (d e : Db) : Type 0 where
  teep_message : (body : Bytes) → Runs (resolve_teep_message lib tam body) d e → Step lib tam d e
  envelope :
      (bytes : Option Bytes) (digest kid component : Bytes) (sequence_number : ℕ)
      → Runs (set_envelope bytes digest kid component sequence_number) d e
      → Step lib tam d e
  revocation : (kid : Bytes) → Runs (revoke_teep_agent_key kid) d e → Step lib tam d e
  new_entity : (r : Entity) → Runs (create_entity r) d e → Step lib tam d e
  new_device : (r : Device) → Runs (create_device r) d e → Step lib tam d e
  new_signing_key : (r : ManifestSigningKey) → Runs (create_signing_key r) d e → Step lib tam d e

pub data Reach {Key : Type 0} (lib : Library Key) (tam : Tam Key) (d : Db) : Db → Type 0 where
  here : Reach lib tam d d
  next : {e f : Db} → Reach lib tam d e → Step lib tam e f → Reach lib tam d f

-- A predicate that every request keeps.
pub record IsInvariant (P : Db → Type 0) : Type 0 where
  pub lasting : IsLasting P
  pub envelope_set :
      (bytes : Option Bytes) (digest kid component : Bytes) (sequence_number : ℕ)
      → Keeps P (set_envelope bytes digest kid component sequence_number)
  pub key_revoked : (kid : Bytes) → Keeps P (revoke_teep_agent_key kid)
  pub entity_created : (r : Entity) → Keeps P (create_entity r)
  pub device_created : (r : Device) → Keeps P (create_device r)
  pub signing_key_created : (r : ManifestSigningKey) → Keeps P (create_signing_key r)

pub Runs-keeps :
    {A : Type 0} {P : Db → Type 0} {m : Exec A} {d e : Db} → Keeps P m → Runs m d e → P d → P e
Runs-keeps {P} k (runs w before after) h = subst P after (k.keep w (subst P (sym before) h))

module _ {Key : Type 0} {lib : Library Key} {tam : Tam Key} {P : Db → Type 0}
    (i : IsInvariant P) where
  Step-keeps : {d e : Db} → Step lib tam d e → P d → P e
  Step-keeps (teep_message body r) h = Runs-keeps (message_resolved i.lasting lib tam body) r h
  Step-keeps (envelope bytes digest kid component n r) h =
      Runs-keeps (i.envelope_set bytes digest kid component n) r h
  Step-keeps (revocation kid r) h = Runs-keeps (i.key_revoked kid) r h
  Step-keeps (new_entity x r) h = Runs-keeps (i.entity_created x) r h
  Step-keeps (new_device x r) h = Runs-keeps (i.device_created x) r h
  Step-keeps (new_signing_key x r) h = Runs-keeps (i.signing_key_created x) r h

  -- An invariant holds of every database that requests lead to.
  pub Reach-keeps : {d e : Db} → Reach lib tam d e → P d → P e
  Reach-keeps here h = h
  Reach-keeps (next r st) h = Step-keeps st (Reach-keeps r h)
