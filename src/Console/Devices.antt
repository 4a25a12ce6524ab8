-- ===== src/Console/Devices.antt =====
-- cmd/admin-console/tam_api.go: the list of devices and its cache.
pub mod Uncached
use attes_tam.Base.{
  Bool, true, false, not, ◌&&◌, Option, none, some, List, [], ◌∷◌, map, Bytes, bytes_eq, any,
  if◌then◌else◌,
}
use attes_tam.Model.{Time, zero_time}
use attes_tam.Exec.{Result, ok, err}
use attes_tam.Rats.Results.{◌>>=◌}
use attes_tam.Tam.Status.{AgentStatusKey}
use attes_tam.Console.Api.{Agent, ConsoleLibrary, fetch_tam_list_agents, fetch_tam_get_agent_status}

-- tamDevicesCache of one base URL, whose `lastUpdate` nothing reads.
abbrev pub DevicesCache : Type 0
DevicesCache = Bytes → Option Agent

abbrev pub empty_cache : DevicesCache
empty_cache kid = none

abbrev pub unless_empty : Bytes → List Bytes → List Bytes
unless_empty [] rest = rest
unless_empty (b ∷ kid) rest = (b ∷ kid) ∷ rest

-- orderedKIDs, which is kidsToFetch too
unfoldable pub ordered_kids : List AgentStatusKey → List Bytes
ordered_kids [] = []
ordered_kids (k ∷ keys) = unless_empty k.agent_kid (ordered_kids keys)

-- lastUpdatedByKID, without empty key ids: of two keys with one key id the later counts.
unfoldable pub last_updated : Time → Bytes → List AgentStatusKey → Time
unfolding bytes_eq
last_updated t kid [] = t
last_updated t kid (k ∷ keys) =
    last_updated (if bytes_eq k.agent_kid kid && not (bytes_eq kid []) then k.updated_at else t) kid
      keys

abbrev pub dated : List AgentStatusKey → Agent → Agent
dated keys a = record a { last_update = last_updated zero_time a.kid keys }

abbrev pub with_agent : Agent → DevicesCache → DevicesCache
with_agent a cache kid = if bytes_eq a.kid kid then some a else cache kid

unfoldable pub store_agents : List Agent → DevicesCache → DevicesCache
unfolding bytes_eq
store_agents [] cache = cache
store_agents (a ∷ agents) cache = store_agents agents (with_agent a cache)

-- The deletion of what is not listed.
abbrev pub listed_only : List Bytes → DevicesCache → DevicesCache
listed_only kids cache kid = if any (bytes_eq kid) kids then cache kid else none

abbrev pub shown : Option Agent → List Agent → List Agent
shown none rest = rest
shown (some a) rest = a ∷ rest

unfoldable pub agents_cached : List Bytes → DevicesCache → List Agent
agents_cached [] cache = []
agents_cached (kid ∷ kids) cache = shown (cache kid) (agents_cached kids cache)

abbrev pub answered :
    List AgentStatusKey
    → List Bytes
    → Result (List Agent)
    → DevicesCache
    → Result (List Agent) × DevicesCache
answered keys kids (err e) cache = (err e, cache)
answered keys kids (ok agents) cache =
    let cache' = listed_only kids (store_agents (map (dated keys) agents) cache) in
    (ok (agents_cached kids cache'), cache')

module _ (lib : ConsoleLibrary) (base : Bytes) where
  abbrev pub asked :
      List AgentStatusKey → List Bytes → DevicesCache → Result (List Agent) × DevicesCache
  asked keys [] cache = (ok [], empty_cache)
  asked keys (kid ∷ kids) cache =
      answered keys (kid ∷ kids) (fetch_tam_get_agent_status lib base (kid ∷ kids)) cache

  abbrev pub listed :
      Result (List AgentStatusKey) → DevicesCache → Result (List Agent) × DevicesCache
  listed (err e) cache = (err e, cache)
  listed (ok keys) cache = asked keys (ordered_kids keys) cache

  unfoldable pub fetch_tam_devices : DevicesCache → Result (List Agent) × DevicesCache
  unfolding fetch_tam_list_agents fetch_tam_get_agent_status ordered_kids last_updated store_agents
      agents_cached any
  fetch_tam_devices cache = listed (fetch_tam_list_agents lib base) cache
