-- ===== src/Tam/Status.antt =====
-- internal/tam/agent_status.go.
use attes_tam.Base.{Option, none, some, List, [], ◌∷◌, Bytes}
use attes_tam.Model.{other, Time, SuitManifestOverview, Agent, AgentStatus}
use attes_tam.Exec.{Exec, pure, raise, attempt, if_some, if_ok, ◌>>=◌}
use attes_tam.Sqlite.Agents
use attes_tam.Sqlite.Statuses

pub record AgentStatusKey : Type 0 where
  pub agent_kid : Bytes
  pub updated_at : Time

-- AgentStatusRecord with its AgentStatus and AgentAttributes
pub record AgentStatusRecord : Type 0 where
  pub agent_kid : Bytes
  pub device_ueid : Option Bytes
  pub suit_manifests : List SuitManifestOverview

-- FromModel
unfoldable pub from_model : AgentStatus → AgentStatusRecord
from_model s = record {
  agent_kid = s.agent_kid;
  device_ueid = s.device_ueid;
  suit_manifests = s.suit_manifests;
}

-- A call whose error is wrapped with fmt.Errorf.
unfoldable pub or_other : {A : Type 0} → Exec A → Exec A
or_other m = do r ← attempt m; if_ok r pure (λ _. raise other)

-- GetAgentStatus, which does not look at the entity
unfoldable pub get_agent_status : Bytes → Exec (Option AgentStatusRecord)
get_agent_status kid = do
  found ← or_other (Statuses.get_agent_status kid)
  if_some found (λ s. pure (some (from_model s))) (pure none)

-- One round of the loop over the agents; an agent with no status is passed over.
unfoldable pub add_status_key : Agent → Exec (List AgentStatusKey) → Exec (List AgentStatusKey)
add_status_key a others = do
  found ← or_other (Statuses.get_agent_status a.kid)
  rest ← others
  if_some found (λ s. pure (record { agent_kid = s.agent_kid; updated_at = s.updated_at } ∷ rest))
      (pure rest)

unfoldable pub status_keys : List Agent → Exec (List AgentStatusKey)
status_keys [] = pure []
status_keys (a ∷ agents) = add_status_key a (status_keys agents)

unfoldable pub get_agent_statuses : Exec (List AgentStatusKey)
get_agent_statuses = do agents ← or_other Agents.get_all; status_keys agents
