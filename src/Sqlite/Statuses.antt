-- ===== src/Sqlite/Statuses.antt =====
-- internal/infra/sqlite/agent_status_repo.go.
pub mod Written
pub mod Reflected
pub mod Single
pub mod Hidden
use attes_tam.Base.{
  ℕ, ◌-◌, ◌%◌, Bool, true, false, not, ◌&&◌, Option, none, some, List, [], ◌∷◌, Bytes, bytes_eq,
  find, any, update_where, ltb, ◌==◌, cond, if◌then◌else◌,
}
use attes_tam.Model.{
  Error, storage, other, Time, second, SuitManifest, SuitManifestOverview, Device, Agent,
  AgentStatus, Holding, SuitReport, insert, Db,
}
use attes_tam.Exec.{
  Result, ok, err, Exec, pure, raise, time_now, statement, query, if_some, transaction, ◌>>=◌, ◌>>◌,
}
use attes_tam.Sqlite.Agents
use attes_tam.Sqlite.Manifests

-- CURRENT_TIMESTAMP counts whole seconds.
abbrev pub timestamp : Time → Time
timestamp t = t - t % second

-- WHERE sm.digest = ?, which a NULL never satisfies
abbrev pub digest_is : Option Bytes → SuitManifest → Bool
digest_is none m = false
digest_is (some digest) m = bytes_eq m.digest digest

abbrev pub pair_of : Option Agent → Option SuitManifest → Option (Agent × SuitManifest)
pair_of (some a) (some m) = some (a, m)
pair_of (some a) none = none
pair_of none _ = none

-- FROM agents a, suit_manifests sm WHERE a.kid = ? AND sm.digest = ? LIMIT 1
unfoldable pub look_up : Bytes → Option Bytes → Db → Option (Agent × SuitManifest)
look_up kid digest d =
    pair_of (find (Agents.kid_is kid) d.agents.rows) (find (digest_is digest) d.suit_manifests.rows)

-- suit_manifest_id IN (SELECT id FROM suit_manifests WHERE trusted_component_id = ?)
unfoldable pub is_of_component : Bytes → List SuitManifest → ℕ → Bool
is_of_component component manifests i =
    any (λ (m : SuitManifest). m.id == i && Manifests.is_for component m) manifests

-- the rows that the UPDATE marks as deleted
abbrev pub is_replaced : ℕ → Bytes → List SuitManifest → Holding → Bool
is_replaced agent component manifests h =
    h.agent_id == agent && not h.deleted && is_of_component component manifests h.suit_manifest_id

abbrev pub delete : Holding → Holding
delete h = record h { deleted = true }

unfoldable pub mark_deleted : ℕ → Bytes → Db → Result Unit × Db
mark_deleted agent component d = (
  ok tt,
  record d {
    holdings = record d.holdings {
      rows =
          update_where (is_replaced agent component d.suit_manifests.rows) delete d.holdings.rows;
    };
  },
)

-- WHERE deleted = 0 of the partial index uniq_agent_manifest_active
abbrev pub is_held : ℕ → ℕ → Holding → Bool
is_held agent manifest h = h.agent_id == agent && h.suit_manifest_id == manifest && not h.deleted

unfoldable pub insert_holding : ℕ → ℕ → Time → Db → Result ℕ × Db
unfolding insert
insert_holding agent manifest now d =
    if any (is_held agent manifest) d.holdings.rows then (err storage, d) else (
      ok d.holdings.next_id,
      record d {
        holdings =
            insert
              (λ i. record {
                id = i;
                agent_id = agent;
                suit_manifest_id = manifest;
                created_at = timestamp now;
                deleted = false;
              })
              d.holdings;
      },
    )

unfoldable pub insert_report : Option ℕ → Option ℕ → Bytes → Time → Bool → Db → Result ℕ × Db
unfolding insert
insert_report agent manifest report now resolved d = (
  ok d.suit_reports.next_id,
  record d {
    suit_reports =
        insert
          (λ i. record {
            id = i;
            agent_id = agent;
            suit_manifest_id = manifest;
            suit_report = report;
            created_at = timestamp now;
            resolved = resolved;
          })
          d.suit_reports;
  },
)

-- What the transaction of ReflectManifestSuccess does.
unfoldable pub reflect : Agent → SuitManifest → Bytes → Time → Exec ℕ
reflect a m report now = do
  statement (mark_deleted a.id m.trusted_component_id)
  _ ← statement (insert_holding a.id m.id now)
  statement (insert_report (some a.id) (some m.id) report now true)

unfoldable pub reflect_manifest_success : Bytes → Option Bytes → Bytes → Exec ℕ
reflect_manifest_success kid digest report = do
  found ← query (look_up kid digest)
  now ← time_now
  if_some found (λ p. transaction (reflect p.0 p.1 report now)) (raise other)

abbrev pub manifest_id : Option SuitManifest → Option ℕ
manifest_id none = none
manifest_id (some m) = some m.id

-- FROM agents a LEFT JOIN suit_manifests sm ON sm.digest = ? WHERE a.kid = ? LIMIT 1
unfoldable pub record_manifest_processing_failure : Bytes → Option Bytes → Bytes → Exec ℕ
record_manifest_processing_failure kid digest report = do
  agent ← query (λ d. find (Agents.kid_is kid) d.agents.rows)
  manifest ← query (λ d. find (digest_is digest) d.suit_manifests.rows)
  now ← time_now
  if_some agent (λ a. statement (insert_report (some a.id) (manifest_id manifest) report now false))
      (raise other)

-- The manifest that a holding names.
abbrev pub manifest_of : List SuitManifest → Holding → Option SuitManifest
manifest_of manifests h = find (λ (m : SuitManifest). m.id == h.suit_manifest_id) manifests

abbrev pub newer : Option Holding → Holding → Option Holding
newer none h = some h
newer (some best) h = if ltb best.created_at h.created_at then some h else some best

abbrev pub is_active_for : Bytes → List SuitManifest → Holding → Bool
is_active_for component manifests h =
    not h.deleted && is_of_component component manifests h.suit_manifest_id

-- The row with rn = 1 in ROW_NUMBER() OVER (PARTITION BY sm.trusted_component_id ORDER BY
-- ahsm.created_at DESC), WHERE ahsm.deleted = 0. SQL leaves the order among equal times open; here
-- the first of them comes first. The partition is by component only, over all agents.
unfoldable pub first_of_partition :
    Bytes → List SuitManifest → Option Holding → List Holding → Option Holding
first_of_partition component manifests best [] = best
first_of_partition component manifests best (h ∷ rows) =
    first_of_partition component manifests
      (cond (is_active_for component manifests h) (newer best h) best) rows

abbrev pub is_row : Option Holding → Holding → Bool
is_row none h = false
is_row (some g) h = g.id == h.id

abbrev pub overview : SuitManifest → SuitManifestOverview
overview m = record {
  trusted_component_id = m.trusted_component_id;
  sequence_number = m.sequence_number;
}

-- What a holding adds to the status of an agent: a row of `latest` ON a.id = latest.agent_id AND
-- latest.rn = 1.
abbrev pub shown_as :
    ℕ
    → List SuitManifest
    → List Holding
    → Holding
    → Option SuitManifest
    → Option SuitManifestOverview
shown_as agent manifests all h none = none
shown_as agent manifests all h (some m) =
    if h.agent_id == agent
      && not h.deleted
      && is_row (first_of_partition m.trusted_component_id manifests none all) h
    then some (overview m)
    else none

unfoldable pub shown : ℕ → List SuitManifest → List Holding → Holding → Option SuitManifestOverview
shown agent manifests all h = shown_as agent manifests all h (manifest_of manifests h)

unfoldable pub overviews :
    ℕ → List SuitManifest → List Holding → List Holding → List SuitManifestOverview
unfolding shown
overviews agent manifests all [] = []
overviews agent manifests all (h ∷ rows) =
    let rest = overviews agent manifests all rows in
    elim (shown agent manifests all h) [ none ↦ rest | some o ↦ o ∷ rest ]

-- LEFT JOIN devices d ON a.device_id = d.id
abbrev pub ueid_of : List Device → Option ℕ → Option Bytes
ueid_of devices none = none
ueid_of devices (some i) = elim (find (λ (r : Device). r.id == i) devices) [
  | none ↦ none
  | some r ↦ some r.ueid
]

unfoldable pub status_of : Bytes → Db → Option AgentStatus
unfolding overviews
status_of kid d = elim (find (Agents.kid_is kid) d.agents.rows) [
  | none ↦ none
  | some a ↦ some (record {
    agent_kid = a.kid;
    device_ueid = ueid_of d.devices.rows a.device_id;
    suit_manifests = overviews a.id d.suit_manifests.rows d.holdings.rows d.holdings.rows;
    updated_at = a.created_at;
  })
]

unfoldable pub get_agent_status : Bytes → Exec (Option AgentStatus)
get_agent_status kid = query (status_of kid)

-- The table `agents` has no column `updated_at`, so the driver refuses the UPDATE.
unfoldable pub update_agent_updated_at : Bytes → Exec Unit
update_agent_updated_at kid = statement (λ d. (err storage, d))
