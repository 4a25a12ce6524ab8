-- ===== src/Model.antt =====
-- internal/domain: the rows of the tables and the errors that callers compare.
-- internal/infra/sqlite/database.go: the tables, as one value `Db`.
use attes_tam.Base.{ℕ, ◌+◌, Bool, Option, List, [], ◌∷◌, ◌++◌, Bytes}

-- time.Time: nanoseconds since January 1 of year 1 in UTC, so that `zero_time` is Go's zero value.
abbrev pub Time : Type 0
Time = ℕ

abbrev pub zero_time : Time
zero_time = 0

abbrev pub second : ℕ
second = 1000000000

-- The errors of internal/tam/errors.go, internal/domain/error.go and internal/suit/error.go.
-- `other` is an error made in place by errors.New or fmt.Errorf, which no caller compares, and
-- `storage` one of the database driver. `panic` stands for a nil dereference: net/http recovers it
-- and ends the request, so that it too leaves a request with no response.
pub data Error : Type 0 where
  fatal not_teep_message not_supported invalid_value kid_is_missing not_authenticated : Error
  verifier_not_configured attestation_failed not_a_response attestation_payload_not_found : Error
  not_found expired revoked : Error
  suit_invalid_format suit_not_authenticated suit_missing_kid : Error
  smaller_sequence_number signing_key_mismatch : Error
  storage other panic : Error

pub record Entity : Type 0 where
  pub id : ℕ
  pub name : Bytes
  pub is_tam_admin : Bool
  pub is_tc_developer : Bool
  pub is_device_admin : Bool
  pub created_at : Time

pub record ManifestSigningKey : Type 0 where
  pub id : ℕ
  pub kid : Bytes
  pub entity_id : ℕ
  pub public_key : Bytes
  pub created_at : Time
  pub expired_at : Time

pub record SuitManifest : Type 0 where
  pub id : ℕ
  pub manifest : Bytes
  pub digest : Bytes
  pub signing_key_id : ℕ
  pub trusted_component_id : Bytes
  pub sequence_number : ℕ  -- uint64
  pub created_at : Time

pub record SuitManifestOverview : Type 0 where
  pub trusted_component_id : Bytes
  pub sequence_number : ℕ

pub record Device : Type 0 where
  pub id : ℕ
  pub ueid : Bytes
  pub admin_id : ℕ
  pub created_at : Time

-- `revoked_at` is a Unix time in the table.
pub record Agent : Type 0 where
  pub id : ℕ
  pub kid : Bytes
  pub device_id : Option ℕ
  pub created_at : Time
  pub expired_at : Time
  pub revoked_at : Option ℕ
  pub public_key : Bytes

pub record AgentStatus : Type 0 where
  pub agent_kid : Bytes
  pub device_ueid : Option Bytes
  pub suit_manifests : List SuitManifestOverview
  pub updated_at : Time

pub record Token : Type 0 where
  pub id : ℕ
  pub token : Bytes
  pub created_at : Time
  pub expired_at : Time
  pub consumed : Bool

pub record Challenge : Type 0 where
  pub id : ℕ
  pub challenge : Bytes
  pub created_at : Time
  pub expired_at : Time
  pub consumed : Bool

pub record SentQueryRequestMessage : Type 0 where
  pub id : ℕ
  pub agent_id : Option ℕ
  pub attestation_requested : Bool
  pub tc_list_requested : Bool
  pub token_id : Option ℕ
  pub challenge_id : Option ℕ
  pub created_at : Time

pub record SentUpdateMessage : Type 0 where
  pub id : ℕ
  pub agent_id : ℕ
  pub token_id : ℕ
  pub created_at : Time

pub record SentUpdateMessageWithManifests : Type 0 where
  pub sent_update_message : SentUpdateMessage
  pub token : Token
  pub manifests : List SuitManifest

-- A row of sent_manifests_in_update_messages.
pub record SentManifest : Type 0 where
  pub id : ℕ
  pub sent_update_id : ℕ
  pub suit_manifest_id : ℕ

-- A row of agent_holding_suit_manifests.
pub record Holding : Type 0 where
  pub id : ℕ
  pub agent_id : ℕ
  pub suit_manifest_id : ℕ
  pub created_at : Time
  pub deleted : Bool

-- A row of suit_reports.
pub record SuitReport : Type 0 where
  pub id : ℕ
  pub agent_id : Option ℕ
  pub suit_manifest_id : Option ℕ
  pub suit_report : Bytes
  pub created_at : Time
  pub resolved : Bool

-- A table in rowid order, with the next AUTOINCREMENT id.
pub record Table (R : Type 0) : Type 0 where
  pub rows : List R
  pub next_id : ℕ

module _ {R : Type 0} where
  -- INSERT of the row that an id completes.
  unfoldable pub insert : (ℕ → R) → Table R → Table R
  insert row t = record { rows = t.rows ++ row t.next_id ∷ []; next_id = t.next_id + 1 }

-- The tables of `createSchema`. Rows are never deleted. The UNIQUE constraints are checked by the
-- inserts; foreign keys are not.
pub record Db : Type 0 where
  pub entities : Table Entity
  pub manifest_signing_keys : Table ManifestSigningKey
  pub suit_manifests : Table SuitManifest
  pub devices : Table Device
  pub agents : Table Agent
  pub holdings : Table Holding
  pub tokens : Table Token
  pub challenges : Table Challenge
  pub sent_query_requests : Table SentQueryRequestMessage
  pub sent_updates : Table SentUpdateMessage
  pub sent_manifests : Table SentManifest
  pub suit_reports : Table SuitReport

abbrev pub empty_table : (R : Type 0) → Table R
empty_table R = record { rows = []; next_id = 1 }

-- The database that `createSchema` makes of a new file.
abbrev pub create_schema : Db
create_schema = record {
  entities = empty_table Entity;
  manifest_signing_keys = empty_table ManifestSigningKey;
  suit_manifests = empty_table SuitManifest;
  devices = empty_table Device;
  agents = empty_table Agent;
  holdings = empty_table Holding;
  tokens = empty_table Token;
  challenges = empty_table Challenge;
  sent_query_requests = empty_table SentQueryRequestMessage;
  sent_updates = empty_table SentUpdateMessage;
  sent_manifests = empty_table SentManifest;
  suit_reports = empty_table SuitReport;
}
