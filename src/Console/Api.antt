-- ===== src/Console/Api.antt =====
-- cmd/admin-console/tam_api.go, agent_codec.go, manifest_codec.go and types.go: the requests to the TAM
-- and the decoding of its answers.
use attes_tam.Base.{
  ℕ, Bool, true, false, not, ◌||◌, Option, none, some, List, [], ◌∷◌, ◌++◌, Bytes, ltb, leb, ◌==◌,
  if◌then◌else◌,
}
use attes_tam.Model.{Time, zero_time, SuitManifestOverview}
use attes_tam.Exec.{Result, ok}
use attes_tam.Text.{text, has_prefix}
use attes_tam.Rats.Results.{required, refuse_if, ◌>>=◌, ◌>>◌}
use attes_tam.Tam.Status.{AgentStatusKey, AgentStatusRecord}
use attes_tam.Teep.Message.{ComponentId}

pub record TrustedComponent : Type 0 where
  pub name : ComponentId
  pub version : ℕ

-- Agent with its Attribute
pub record Agent : Type 0 where
  pub kid : Bytes
  pub last_update : Time
  pub ueid : Bytes
  pub installed : List TrustedComponent

pub record ApiRequest : Type 0 where
  pub is_post : Bool
  pub url : Bytes
  pub accept : Option Bytes
  pub content_type : Option Bytes
  pub body : Bytes

-- `body` is none where it cannot be read.
pub record ApiResponse : Type 0 where
  pub status_code : ℕ
  pub content_type : Bytes
  pub body : Option Bytes

-- net/http and fxamacker/cbor
pub record ConsoleLibrary : Type 0 where
  pub do_request : ApiRequest → Option ApiResponse
  pub decode_keys : Bytes → Option (List AgentStatusKey)
  pub decode_records : Bytes → Option (List AgentStatusRecord)
  pub decode_overviews : Bytes → Option (List SuitManifestOverview)
  pub decode_component : Bytes → Option ComponentId
  pub encode_kids : List Bytes → Option Bytes

-- A byte in front of text that ends in no slash.
abbrev pub before_slashes : ℕ → Bytes → Bytes
before_slashes c [] = if c == 47 then [] else c ∷ []
before_slashes c (d ∷ t) = c ∷ d ∷ t

-- strings.TrimRight(base, "/")
unfoldable pub trim_slashes : Bytes → Bytes
trim_slashes [] = []
trim_slashes (c ∷ s) = before_slashes c (trim_slashes s)

abbrev pub cbor : Bytes
cbor = text "application/cbor"

module _ (lib : ConsoleLibrary) where
  abbrev pub non_empty : Option ComponentId → Option ComponentId
  non_empty (some (c ∷ id)) = some (c ∷ id)
  non_empty _ = none

  unfoldable pub decode_cbor_component_id : Bytes → Option ComponentId
  decode_cbor_component_id raw = non_empty (lib.decode_component raw)

  abbrev pub named : ℕ → Option ComponentId → List TrustedComponent → List TrustedComponent
  named version none rest = rest
  named version (some name) rest = record { name = name; version = version } ∷ rest

  -- Both loops over overviews, which pass over a component with no name.
  unfoldable pub components_of : List SuitManifestOverview → List TrustedComponent
  unfolding decode_cbor_component_id
  components_of [] = []
  components_of (m ∷ ms) =
      named m.sequence_number (decode_cbor_component_id m.trusted_component_id) (components_of ms)

  abbrev pub ueid_of : Option Bytes → Bytes
  ueid_of none = []
  ueid_of (some ueid) = ueid

  unfoldable pub agents_of : List AgentStatusRecord → List Agent
  unfolding components_of
  agents_of [] = []
  agents_of (r ∷ rs) =
      record {
        kid = r.agent_kid;
        last_update = zero_time;
        ueid = ueid_of r.device_ueid;
        installed = components_of r.suit_manifests;
      }
      ∷ agents_of rs

  unfoldable pub decode_agents_from_cbor : Bytes → Result (List Agent)
  unfolding agents_of
  decode_agents_from_cbor body = do
    records ← required (lib.decode_records body)
    ok (agents_of records)

  unfoldable pub decode_manifests_from_cbor : Bytes → Result (List TrustedComponent)
  unfolding components_of
  decode_manifests_from_cbor body = do
    overviews ← required (lib.decode_overviews body)
    ok (components_of overviews)

  -- The request, and the checks of the answer that the three reads share.
  unfoldable pub read_cbor : ApiRequest → Result Bytes
  unfolding has_prefix
  read_cbor req = do
    resp ← required (lib.do_request req)
    refuse_if (ltb resp.status_code 200 || leb 300 resp.status_code)
    refuse_if (not (has_prefix resp.content_type cbor))
    required resp.body

  unfoldable pub fetch_tam_list_agents : Bytes → Result (List AgentStatusKey)
  unfolding trim_slashes read_cbor
  fetch_tam_list_agents base = do
    body ← read_cbor (record {
      is_post = false;
      url = trim_slashes base ++ text "/AgentService/ListAgents";
      accept = some cbor;
      content_type = none;
      body = [];
    })
    required (lib.decode_keys body)

  unfoldable pub fetch_tam_get_agent_status : Bytes → List Bytes → Result (List Agent)
  unfolding trim_slashes read_cbor decode_agents_from_cbor
  fetch_tam_get_agent_status base kids = do
    body ← required (lib.encode_kids kids)
    raw ← read_cbor (record {
      is_post = true;
      url = trim_slashes base ++ text "/AgentService/GetAgentStatus";
      accept = some cbor;
      content_type = some cbor;
      body = body;
    })
    decode_agents_from_cbor raw

  unfoldable pub fetch_tam_manifests : Bytes → Result (List TrustedComponent)
  unfolding trim_slashes read_cbor decode_manifests_from_cbor
  fetch_tam_manifests base = do
    body ← read_cbor (record {
      is_post = false;
      url = trim_slashes base ++ text "/SUITManifestService/ListManifests";
      accept = some cbor;
      content_type = none;
      body = [];
    })
    decode_manifests_from_cbor body

  -- `file` is the uploaded file, or none if the form has none or cannot be read.
  unfoldable pub post_tam_manifest : Bytes → Option Bytes → Result Unit
  unfolding trim_slashes
  post_tam_manifest base file = do
    body ← required file
    resp ← required (
        lib.do_request (record {
          is_post = true;
          url = trim_slashes base ++ text "/SUITManifestService/RegisterManifest";
          accept = none;
          content_type = some (text "application/suit-envelope+cose");
          body = body;
        }))
    _ ← required resp.body
    refuse_if (ltb resp.status_code 200 || leb 300 resp.status_code)
    ok tt
