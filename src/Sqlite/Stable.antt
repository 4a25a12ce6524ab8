-- ===== src/Sqlite/Stable.antt =====
-- Predicates of the database that every write of a TEEP session keeps, and the repositories'
-- methods, which then keep them too.
use attes_tam.Base.{ℕ, Bool, true, false, Option, some, List, [], ◌∷◌, Bytes, if◌then◌else◌}
use attes_tam.Model.{
  other, Time, Token, Challenge, Agent, SuitManifest, SentManifest, SentQueryRequestMessage,
  SentUpdateMessage, Db,
}
use attes_tam.Exec.{Exec, statement}
use attes_tam.Exec.Keeps.{
  Keeps, Keeps-raise, Keeps-pure, Keeps-bind, Keeps-statement, Keeps-transaction, Keeps-query,
  Keeps-time_now, Keeps-if_some, keeps_rules,
}
use attes_tam.Sqlite.Tokens
use attes_tam.Sqlite.Challenges
use attes_tam.Sqlite.Agents
use attes_tam.Sqlite.Parties
use attes_tam.Sqlite.Manifests
use attes_tam.Sqlite.SentQueries
use attes_tam.Sqlite.SentUpdates
use attes_tam.Sqlite.Statuses

pub record IsStable (P : Db → Type 0) : Type 0 where
  pub token_inserted : (t : Token) (d : Db) → P d → P (Tokens.insert_token t d).1
  pub token_consumed : (b : Bytes) (d : Db) → P d → P (Tokens.consume_rows b d).1
  pub challenge_inserted : (c : Challenge) (d : Db) → P d → P (Challenges.insert_challenge c d).1
  pub challenge_consumed : (b : Bytes) (d : Db) → P d → P (Challenges.consume_rows b d).1
  pub agent_inserted : (a : Agent) (d : Db) → P d → P (Agents.insert_agent a d).1
  pub query_inserted :
      (q : SentQueryRequestMessage) (d : Db) → P d → P (SentQueries.insert_query q d).1
  pub update_inserted : (u : SentUpdateMessage) (d : Db) → P d → P (SentUpdates.insert_update u d).1
  pub sent_manifest_inserted :
      (m : SentManifest) (d : Db) → P d → P (SentUpdates.insert_sent_manifest m d).1

-- and that the writes of a report keep too
pub record IsLasting (P : Db → Type 0) : Type 0 where
  pub stable : IsStable P
  pub report_inserted :
      (agent manifest : Option ℕ) (report : Bytes) (now : Time) (resolved : Bool) (d : Db)
      → P d
      → P (Statuses.insert_report agent manifest report now resolved d).1
  pub status_reflected :
      (kid : Bytes) (digest : Option Bytes) (report : Bytes)
      → Keeps P (Statuses.reflect_manifest_success kid digest report)

module _ {P : Db → Type 0} (s : IsStable P) where
  token_created : (t : Token) → Keeps P (Tokens.create t)
  unfolding Tokens.create
  token_created t = Keeps-statement _ (s.token_inserted t)

  token_found : (b : Bytes) → Keeps P (Tokens.find_by_token b)
  unfolding Tokens.find_by_token
  token_found b = search keeps_rules

  token_round :
      (b : Bytes) (again : Exec Bytes) → Keeps P again → Keeps P (Tokens.generate_round b again)
  unfolding Tokens.generate_round
  token_round b again k = search (keeps_rules, token_created, token_found) depth 8

  tokens_from : (random : List Bytes) → Keeps P (Tokens.generate_from random)
  unfolding Tokens.generate_from
  tokens_from [] = Keeps-raise other
  tokens_from (b ∷ rest) = token_round b (Tokens.generate_from rest) (tokens_from rest)

  pub token_generated : Keeps P Tokens.generate_unique_token
  unfolding Tokens.generate_unique_token
  token_generated = record { keep = λ w h. (tokens_from w.random).keep w h }

  pub token_marked : (b : Bytes) → Keeps P (Tokens.mark_consumed b)
  unfolding Tokens.mark_consumed
  token_marked b = search (keeps_rules, Keeps-statement, s.token_consumed)

  challenge_created : (c : Challenge) → Keeps P (Challenges.create c)
  unfolding Challenges.create
  challenge_created c = Keeps-statement _ (s.challenge_inserted c)

  challenge_found : (b : Bytes) → Keeps P (Challenges.find_by_challenge b)
  unfolding Challenges.find_by_challenge
  challenge_found b = search keeps_rules

  challenge_round :
      (b : Bytes) (again : Exec Bytes) → Keeps P again → Keeps P (Challenges.generate_round b again)
  unfolding Challenges.generate_round
  challenge_round b again k = search (keeps_rules, challenge_created, challenge_found) depth 8

  challenges_from : (random : List Bytes) → Keeps P (Challenges.generate_from random)
  unfolding Challenges.generate_from
  challenges_from [] = Keeps-raise other
  challenges_from (b ∷ rest) =
      challenge_round b (Challenges.generate_from rest) (challenges_from rest)

  pub challenge_generated : Keeps P Challenges.generate_unique_challenge
  unfolding Challenges.generate_unique_challenge
  challenge_generated = record { keep = λ w h. (challenges_from w.random).keep w h }

  pub challenge_marked : (b : Bytes) → Keeps P (Challenges.mark_consumed b)
  unfolding Challenges.mark_consumed
  challenge_marked b = search (keeps_rules, Keeps-statement, s.challenge_consumed)

  query_created : (q : SentQueryRequestMessage) → Keeps P (SentQueries.create q)
  unfolding SentQueries.create
  query_created q = Keeps-statement _ (s.query_inserted q)

  pub query_with_token :
      (b : Bytes) (q : SentQueryRequestMessage) → Keeps P (SentQueries.create_with_token b q)
  unfolding SentQueries.create_with_token
  query_with_token b q = search (keeps_rules, token_found, query_created) depth 8

  pub query_with_challenge :
      (b : Bytes) (q : SentQueryRequestMessage) → Keeps P (SentQueries.create_with_challenge b q)
  unfolding SentQueries.create_with_challenge
  query_with_challenge b q = search (keeps_rules, challenge_found, query_created) depth 8

  pub query_found_by_token : (b : Bytes) → Keeps P (SentQueries.find_by_token b)
  unfolding SentQueries.find_by_token
  query_found_by_token b = search keeps_rules

  pub query_found_by_challenge : (b : Bytes) → Keeps P (SentQueries.find_by_challenge b)
  unfolding SentQueries.find_by_challenge
  query_found_by_challenge b = search keeps_rules

  pub agent_found : (kid : Bytes) → Keeps P (Agents.find_by_kid kid)
  unfolding Agents.find_by_kid
  agent_found kid = search keeps_rules depth 8

  pub agent_found_ignoring : (kid : Bytes) → Keeps P (Agents.find_by_kid_ignore_revoked kid)
  unfolding Agents.find_by_kid_ignore_revoked
  agent_found_ignoring kid = search keeps_rules depth 8

  pub agent_created : (a : Agent) → Keeps P (Agents.create a)
  unfolding Agents.create
  agent_created a = Keeps-statement _ (s.agent_inserted a)

  pub device_found : (ueid : Bytes) → Keeps P (Parties.find_device_by_ueid ueid)
  unfolding Parties.find_device_by_ueid
  device_found ueid = search keeps_rules

  manifest_found : (i : ℕ) → Keeps P (Manifests.find_by_id i)
  unfolding Manifests.find_by_id
  manifest_found i = search keeps_rules

  pub latest_found : (c : Bytes) → Keeps P (Manifests.find_latest_by_trusted_component_id c)
  unfolding Manifests.find_latest_by_trusted_component_id
  latest_found c = search keeps_rules

  sent_manifest_created :
      (m : SentManifest) → Keeps P (statement (SentUpdates.insert_sent_manifest m))
  sent_manifest_created m = Keeps-statement _ (s.sent_manifest_inserted m)

  manifest_linked : (u : ℕ) (m : SuitManifest) → Keeps P (SentUpdates.link_manifest u m)
  unfolding SentUpdates.link_manifest
  manifest_linked u m = search (keeps_rules, manifest_found, sent_manifest_created) depth 8

  manifests_linked : (u : ℕ) (ms : List SuitManifest) → Keeps P (SentUpdates.link_manifests u ms)
  unfolding SentUpdates.link_manifests
  manifests_linked u [] = Keeps-pure tt
  manifests_linked u (m ∷ ms) = Keeps-bind _ _ (manifest_linked u m) (λ _. manifests_linked u ms)

  update_created : (u : SentUpdateMessage) → Keeps P (SentUpdates.create u)
  unfolding SentUpdates.create
  update_created u = Keeps-statement _ (s.update_inserted u)

  pub update_with_token :
      (kid b : Bytes) (created : Time) (ms : List SuitManifest)
      → Keeps P (SentUpdates.create_with_token kid b created ms)
  unfolding SentUpdates.create_with_token
  update_with_token kid b created ms =
      search (keeps_rules, agent_found, token_found, update_created, manifests_linked) depth 10

  pub update_found : (b : Bytes) → Keeps P (SentUpdates.find_with_manifests_by_token b)
  unfolding SentUpdates.find_with_manifests_by_token
  update_found b = search keeps_rules

module _ {P : Db → Type 0} (s : IsLasting P) where
  report_created :
      (agent manifest : Option ℕ) (report : Bytes) (now : Time) (resolved : Bool)
      → Keeps P (statement (Statuses.insert_report agent manifest report now resolved))
  report_created agent manifest report now resolved =
      Keeps-statement _ (s.report_inserted agent manifest report now resolved)

  pub failure_recorded :
      (kid : Bytes) (digest : Option Bytes) (report : Bytes)
      → Keeps P (Statuses.record_manifest_processing_failure kid digest report)
  unfolding Statuses.record_manifest_processing_failure
  failure_recorded kid digest report = search (keeps_rules, report_created) depth 8

-- A statement that a constraint may refuse.
pub if_keeps :
    {A : Type 0} (P : Db → Type 0) (b : Bool) (x y : A × Db)
    → P x.1
    → P y.1
    → P (if b then x else y).1
if_keeps P true x y hx hy = hx
if_keeps P false x y hx hy = hy

-- ReflectManifestSuccess keeps what its three writes keep.
pub reflect-Keeps :
    {P : Db → Type 0}
    → ((agent : ℕ) (component : Bytes) (d : Db)
        → P d
        → P (Statuses.mark_deleted agent component d).1)
    → ((agent manifest : ℕ) (now : Time) (d : Db)
        → P d
        → P (Statuses.insert_holding agent manifest now d).1)
    → ((agent manifest : Option ℕ) (report : Bytes) (now : Time) (resolved : Bool) (d : Db)
        → P d
        → P (Statuses.insert_report agent manifest report now resolved d).1)
    → (kid : Bytes) (digest : Option Bytes) (report : Bytes)
    → Keeps P (Statuses.reflect_manifest_success kid digest report)
unfolding Statuses.reflect_manifest_success Statuses.reflect
reflect-Keeps marks holds reports kid digest report = Keeps-bind _ _ (Keeps-query _) λ found.
    Keeps-bind _ _ Keeps-time_now λ now.
      Keeps-if_some found _ _
        (λ p. Keeps-transaction _ (
          Keeps-bind _ _ (Keeps-statement _ (marks p.0.id p.1.trusted_component_id)) λ _.
            Keeps-bind _ _ (Keeps-statement _ (holds p.0.id p.1.id now))
              λ _. Keeps-statement _ (reports (some p.0.id) (some p.1.id) report now true)))
        (Keeps-raise _)
