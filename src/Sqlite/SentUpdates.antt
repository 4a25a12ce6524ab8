-- ===== src/Sqlite/SentUpdates.antt =====
-- internal/infra/sqlite/sent_update_message_repo.go.
use attes_tam.Base.{
  ℕ, Option, none, some, List, [], ◌∷◌, ◌++◌, Bytes, find, select, ◌==◌, if◌then◌else◌,
}
use attes_tam.Model.{
  other, panic, Token, SuitManifest, SentUpdateMessage, SentUpdateMessageWithManifests,
  SentManifest, Time, insert, Db,
}
use attes_tam.Exec.{Result, ok, Exec, pure, raise, statement, query, if_some, ◌>>=◌, ◌>>◌}
use attes_tam.Sqlite.Tokens
use attes_tam.Sqlite.Agents
use attes_tam.Sqlite.Manifests

unfoldable pub insert_update : SentUpdateMessage → Db → Result ℕ × Db
unfolding insert
insert_update u d = (
  ok d.sent_updates.next_id,
  record d { sent_updates = insert (λ i. record u { id = i }) d.sent_updates },
)

unfoldable pub create : SentUpdateMessage → Exec ℕ
create u = statement (insert_update u)

unfoldable pub insert_sent_manifest : SentManifest → Db → Result ℕ × Db
unfolding insert
insert_sent_manifest m d = (
  ok d.sent_manifests.next_id,
  record d { sent_manifests = insert (λ i. record m { id = i }) d.sent_manifests },
)

-- One round of the loop over `msg.Manifests`; a manifest that is not found is dereferenced.
unfoldable pub link_manifest : ℕ → SuitManifest → Exec ℕ
link_manifest update m = do
  found ← Manifests.find_by_id m.id
  if_some found
      (λ man. statement (
        insert_sent_manifest
          (record { id = 0; sent_update_id = update; suit_manifest_id = man.id })))
      (raise panic)

unfoldable pub link_manifests : ℕ → List SuitManifest → Exec Unit
link_manifests update [] = pure tt
link_manifests update (m ∷ ms) = link_manifest update m >>= λ _. link_manifests update ms

-- `created` is `msg.SentUpdateMessage.CreatedAt`.
unfoldable pub create_with_token : Bytes → Bytes → Time → List SuitManifest → Exec ℕ
create_with_token agent_kid token created manifests = do
  agent ← Agents.find_by_kid agent_kid
  found ← Tokens.find_by_token token
  if_some found
      (λ t. if t.consumed then raise other else do
        update ←
            create (record { id = 0; agent_id = agent.id; token_id = t.id; created_at = created })
        link_manifests update manifests
        pure update)
      (raise other)

unfoldable pub find_by_token_id : ℕ → Exec (Option SentUpdateMessage)
find_by_token_id i =
    query (λ d. find (λ (u : SentUpdateMessage). u.token_id == i) d.sent_updates.rows)

unfoldable pub find_by_id : ℕ → Exec (Option SentUpdateMessage)
find_by_id i = query (λ d. find (λ (u : SentUpdateMessage). u.id == i) d.sent_updates.rows)

-- LEFT JOIN suit_manifests: the manifests that the rows name. The digest is not selected.
unfoldable pub manifests_named : List SentManifest → List SuitManifest → List SuitManifest
manifests_named [] manifests = []
manifests_named (s ∷ rows) manifests =
    let rest = manifests_named rows manifests in
    elim (find (λ (m : SuitManifest). m.id == s.suit_manifest_id) manifests) [
      | none ↦ rest
      | some m ↦ record m { digest = [] } ∷ rest
    ]

-- LEFT JOIN sent_manifests_in_update_messages, for each update message of the token
unfoldable pub manifests_sent :
    List SentUpdateMessage → List SentManifest → List SuitManifest → List SuitManifest
unfolding manifests_named
manifests_sent [] rows manifests = []
manifests_sent (u ∷ updates) rows manifests =
    manifests_named (select (λ (s : SentManifest). s.sent_update_id == u.id) rows) manifests
    ++ manifests_sent updates rows manifests

abbrev pub collect :
    Token → List SentUpdateMessage → List SuitManifest → Option SentUpdateMessageWithManifests
collect t [] manifests = none
collect t (u ∷ _) manifests =
    some (record { sent_update_message = u; token = t; manifests = manifests })

unfoldable pub updates_of_token : Option Token → Db → Option SentUpdateMessageWithManifests
unfolding manifests_sent
updates_of_token none d = none
updates_of_token (some t) d =
    let updates = select (λ (u : SentUpdateMessage). u.token_id == t.id) d.sent_updates.rows in
    collect t updates (manifests_sent updates d.sent_manifests.rows d.suit_manifests.rows)

unfoldable pub find_with_manifests_by_token : Bytes → Exec (Option SentUpdateMessageWithManifests)
find_with_manifests_by_token token =
    query (λ d. updates_of_token (find (Tokens.token_is token) d.tokens.rows) d)
