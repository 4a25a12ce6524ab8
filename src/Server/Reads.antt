-- ===== src/Server/Reads.antt =====
-- Requests that only read (internal/server/handler.go).
use attes_tam.Base.{◌≡◌, refl, false, List, [], ◌∷◌, Bytes, bytes_eq}
use attes_tam.Model.{Agent, Db}
use attes_tam.Exec.{World, Exec}
use attes_tam.Exec.Keeps.{Keeps, Keeps-pure, keeps_rules}
use attes_tam.Text.{text}
use attes_tam.Sqlite.Agents
use attes_tam.Sqlite.Parties.{find_entity_by_name}
use attes_tam.Sqlite.Manifests
use attes_tam.Sqlite.Statuses
use attes_tam.Suit.{SuitLibrary}
use attes_tam.Tam.Library.{Library, Tam}
use attes_tam.Tam.Repository.{get_manifests}
use attes_tam.Tam.Status.{AgentStatusKey, add_status_key, status_keys, get_agent_statuses, or_other}
use attes_tam.Server.{Request, ServerCodec}
use attes_tam.Server.Handlers.{tam_over_http, list_manifests, get_agent_list, get_agent_status_of}
use attes_tam.Server.Register.{add_tc_manifest, serve}

module _ {P : Db → Type 0} where
  manifests_read : Keeps P get_manifests
  unfolding get_manifests Manifests.find_latest_all
  manifests_read = search keeps_rules

  entity_read : (name : Bytes) → Keeps P (find_entity_by_name name)
  unfolding find_entity_by_name
  entity_read name = search keeps_rules

  agents_read : Keeps P Agents.get_all
  unfolding Agents.get_all
  agents_read = search keeps_rules

  status_read : (kid : Bytes) → Keeps P (Statuses.get_agent_status kid)
  unfolding Statuses.get_agent_status
  status_read kid = search keeps_rules

  or_other-Keeps : {A : Type 0} (m : Exec A) → Keeps P m → Keeps P (or_other m)
  unfolding or_other
  or_other-Keeps m k = search keeps_rules

  key_added :
      (a : Agent) (others : Exec (List AgentStatusKey))
      → Keeps P others
      → Keeps P (add_status_key a others)
  unfolding add_status_key
  key_added a others k = search (keeps_rules, or_other-Keeps, status_read) depth 8

  keys_read : (agents : List Agent) → Keeps P (status_keys agents)
  unfolding status_keys
  keys_read [] = Keeps-pure []
  keys_read (a ∷ agents) = key_added a (status_keys agents) (keys_read agents)

  statuses_read : Keeps P get_agent_statuses
  unfolding get_agent_statuses
  statuses_read = search (keeps_rules, or_other-Keeps, agents_read, keys_read) depth 8

  list_answered : (codec : ServerCodec) (r : Request) → Keeps P (list_manifests codec r)
  unfolding list_manifests
  list_answered codec r = search (keeps_rules, manifests_read) depth 10

  agents_answered : (codec : ServerCodec) (r : Request) → Keeps P (get_agent_list codec r)
  unfolding get_agent_list
  agents_answered codec r = search (keeps_rules, entity_read, statuses_read) depth 12

not_post : (r : Request) → r.method ≡ text "GET" → bytes_eq r.method (text "POST") ≡ false
unfolding bytes_eq
not_post r is_get = rw is_get refl

module _ {P : Db → Type 0} {Key : Type 0} (lib : Library Key) (suit : SuitLibrary Key)
    (tam : Tam Key) (codec : ServerCodec) (r : Request) (is_get : r.method ≡ text "GET") where
  session_refused : Keeps P (tam_over_http lib tam r)
  unfolding tam_over_http
  session_refused = rw (not_post r is_get) (Keeps-pure _)

  registration_refused : Keeps P (add_tc_manifest lib suit r)
  unfolding add_tc_manifest
  registration_refused = rw (not_post r is_get) (Keeps-pure _)

  status_refused : Keeps P (get_agent_status_of codec r)
  unfolding get_agent_status_of
  status_refused = rw (not_post r is_get) (Keeps-pure _)

  served : Keeps P (serve lib suit tam codec r)
  unfolding serve
  served =
      search
        (
          keeps_rules, session_refused, registration_refused, status_refused, list_answered,
          agents_answered,
        )
        depth 10

-- A GET request changes nothing in the database, whatever its path, its headers and its body, and
-- whichever statements fail.
pub get_requests_read :
    {Key : Type 0} (lib : Library Key) (suit : SuitLibrary Key) (tam : Tam Key)
    (codec : ServerCodec) (r : Request)
    → r.method ≡ text "GET"
    → (w : World) → (serve lib suit tam codec r w).1.db ≡ w.db
get_requests_read lib suit tam codec r is_get w =
    (served {P = λ d. d ≡ w.db} lib suit tam codec r is_get).keep w refl
