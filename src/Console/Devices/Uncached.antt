-- ===== src/Console/Devices/Uncached.antt =====
-- What the cache of the devices is for (cmd/admin-console/tam_api.go).
use attes_tam.Base.{
  ◌≡◌, refl, ap, true, List, [], ◌∷◌, map, Bytes, bytes_eq, any, All, All-map, Bool, Bool-cases,
  inl, inr,
}
use attes_tam.Exec.{ok}
use attes_tam.Tam.Status.{AgentStatusKey}
use attes_tam.Console.Api.{Agent, ConsoleLibrary, fetch_tam_list_agents, fetch_tam_get_agent_status}
use attes_tam.Console.Devices.{
  DevicesCache, ordered_kids, dated, with_agent, store_agents, listed_only, agents_cached, asked,
  listed, fetch_tam_devices,
}

abbrev pub is_agent : Bytes → Agent → Bool
is_agent kid a = bytes_eq a.kid kid

with_agent-agree :
    (a : Agent) (c c' : DevicesCache) (kid : Bytes)
    → c kid ≡ c' kid
    → with_agent a c kid ≡ with_agent a c' kid
with_agent-agree a c c' kid e = elim (Bool-cases (bytes_eq a.kid kid)) [
  | inl q ↦ rw q refl
  | inr q ↦ rw q e
]

store_agents-agree :
    (agents : List Agent) (c c' : DevicesCache) (kid : Bytes)
    → c kid ≡ c' kid
    → store_agents agents c kid ≡ store_agents agents c' kid
unfolding store_agents
store_agents-agree [] c c' kid e = e
store_agents-agree (a ∷ agents) c c' kid e =
    store_agents-agree agents (with_agent a c) (with_agent a c') kid (with_agent-agree a c c' kid e)

-- What is stored for a key id that was answered is the answer.
store_agents_fresh :
    (keys : List AgentStatusKey) (agents : List Agent) (c c' : DevicesCache) (kid : Bytes)
    → any (is_agent kid) agents ≡ true
    → store_agents (map (dated keys) agents) c kid ≡ store_agents (map (dated keys) agents) c' kid
unfolding store_agents any
store_agents_fresh keys [] c c' kid h = cc
store_agents_fresh keys (a ∷ agents) c c' kid h = elim (Bool-cases (bytes_eq a.kid kid)) [
  | inl q ↦
      store_agents-agree (map (dated keys) agents) (with_agent (dated keys a) c)
        (with_agent (dated keys a) c') kid (rw q refl)
  | inr q ↦ store_agents_fresh keys agents _ _ kid (rw q at h)
]

agents_cached-agree :
    (kids : List Bytes) (c c' : DevicesCache)
    → All (λ kid. c kid ≡ c' kid) kids
    → agents_cached kids c ≡ agents_cached kids c'
unfolding agents_cached
agents_cached-agree [] c c' h = refl
agents_cached-agree (kid ∷ kids) c c' h = rw (h.0, agents_cached-agree kids c c' h.1) refl

listed_only-agree :
    (kids : List Bytes) (c c' : DevicesCache) (kid : Bytes)
    → c kid ≡ c' kid
    → listed_only kids c kid ≡ listed_only kids c' kid
listed_only-agree kids c c' kid e = rw e refl

-- If the TAM answers with a status for every agent that it lists, then what the console shows does
-- not depend on what it had cached.
pub fetch_tam_devices_uncached :
    (lib : ConsoleLibrary) (base : Bytes) (keys : List AgentStatusKey) (agents : List Agent)
    (c c' : DevicesCache)
    → fetch_tam_list_agents lib base ≡ ok keys
    → fetch_tam_get_agent_status lib base (ordered_kids keys) ≡ ok agents
    → All (λ kid. any (is_agent kid) agents ≡ true) (ordered_kids keys)
    → (fetch_tam_devices lib base c).0 ≡ (fetch_tam_devices lib base c').0
unfolding fetch_tam_devices
fetch_tam_devices_uncached lib base keys agents c c' lists tells covers =
    rw lists (same (ordered_kids keys) tells covers)
  where
    same :
        (kids : List Bytes)
        → fetch_tam_get_agent_status lib base kids ≡ ok agents
        → All (λ kid. any (is_agent kid) agents ≡ true) kids
        → (asked lib base keys kids c).0 ≡ (asked lib base keys kids c').0
    same [] e h = refl
    same (kid ∷ kids) e h = rw e (
        ap ok (
          agents_cached-agree (kid ∷ kids) (after (kid ∷ kids) c) (after (kid ∷ kids) c') (
            All-map (λ k. any (is_agent k) agents ≡ true)
              (λ k. after (kid ∷ kids) c k ≡ after (kid ∷ kids) c' k) (kid ∷ kids)
              (λ k told.
                listed_only-agree (kid ∷ kids) (store_agents (map (dated keys) agents) c)
                  (store_agents (map (dated keys) agents) c') k
                  (store_agents_fresh keys agents c c' k told))
              h)))
      where
        after : List Bytes → DevicesCache → DevicesCache
        after listed cache = listed_only listed (store_agents (map (dated keys) agents) cache)
