-- ===== src/Tam/Known.antt =====
-- Who may change what the TAM records of the agents (internal/tam/tam.go).
use attes_tam.Base.{
  ◌≡◌, refl, sym, ap, subst, ◌∙◌, ◌⊎◌, inl, inr, Option, none, Option-cases, [], ◌∷◌, Bytes,
}
use attes_tam.Model.{Table, Holding, SuitReport, Db}
use attes_tam.Exec.{Result, ok, err, World, Exec, continue, if_some, ◌>>=◌}
use attes_tam.Exec.Keeps.{Keeps, Keeps-raise, Keeps-bind, Keeps-if_some, Keeps-statement}
use attes_tam.Sqlite.Tokens
use attes_tam.Sqlite.Challenges
use attes_tam.Sqlite.Agents
use attes_tam.Sqlite.Parties
use attes_tam.Sqlite.Manifests
use attes_tam.Sqlite.SentQueries
use attes_tam.Sqlite.SentUpdates
use attes_tam.Sqlite.Stable.{IsStable, if_keeps}
use attes_tam.Teep.Message.{
  MessageType, query_request, query_response, update, success, error, unknown, Message,
}
use attes_tam.Tam.Library.{Library, Tam}
use attes_tam.Tam.Authenticate.{Authentication, try_authenticate_teep_message}
use attes_tam.Tam.Authenticate.Signed.{IsSigned, authenticated_is_signed}
use attes_tam.Tam.Resolve.{
  resolve_success, resolve_error, dispatch, blocking, resolve_authenticated, resolve_teep_message,
}
use attes_tam.Tam.Stable.{
  rules, searched_with_token, query_generated, query_response_resolved, message_authenticated,
}
use attes_tam.Tam.Frames.{envelope-Keeps, revocation-Keeps}
use attes_tam.Tam.System.{
  Runs, runs, Step, teep_message, envelope, revocation, new_entity, new_device, new_signing_key,
  Runs-keeps,
}

-- What is recorded of the agents: what they hold, and what they reported.
abbrev pub Recorded : Table Holding → Table SuitReport → Db → Type 0
Recorded holdings reports d = (d.holdings ≡ holdings) × (d.suit_reports ≡ reports)

record-IsStable :
    (holdings : Table Holding) (reports : Table SuitReport) → IsStable (Recorded holdings reports)
unfolding Tokens.insert_token Tokens.consume_rows Challenges.insert_challenge
    Challenges.consume_rows Agents.insert_agent SentQueries.insert_query SentUpdates.insert_update
    SentUpdates.insert_sent_manifest
record-IsStable holdings reports =
    let P : Db → Type 0 = Recorded holdings reports in
    record {
      token_inserted = λ t d h. if_keeps P _ _ _ h h;
      token_consumed = λ b d h. h;
      challenge_inserted = λ c d h. if_keeps P _ _ _ h h;
      challenge_consumed = λ b d h. h;
      agent_inserted = λ a d h. if_keeps P _ _ _ h h;
      query_inserted = λ q d h. h;
      update_inserted = λ u d h. h;
      sent_manifest_inserted = λ m d h. h;
    }

module _ {P : Db → Type 0} (s : IsStable P) {Key : Type 0} (lib : Library Key) (tam : Tam Key) where
  -- A message of no known agent is not asked for its reports.
  unknown_dispatched :
      (type : MessageType) (b : Bytes) (m : Message) (sent : Option Message)
      → Keeps P (dispatch lib tam type b m none sent)
  unfolding dispatch resolve_success resolve_error if_some
  unknown_dispatched query_response b m sent = query_response_resolved s lib tam b m none sent
  unknown_dispatched success b m sent = search rules
  unknown_dispatched error b m sent = search rules
  unknown_dispatched query_request b m sent = Keeps-raise _
  unknown_dispatched update b m sent = Keeps-raise _
  unknown_dispatched unknown b m sent = Keeps-raise _

  unknown_resolved :
      (b : Bytes) (auth : Authentication)
      → auth.agent_kid ≡ none
      → Keeps P (resolve_authenticated lib tam b auth)
  unfolding resolve_authenticated
  unknown_resolved b auth e =
      Keeps-if_some (blocking lib tam auth.error) _ _ (λ x. Keeps-raise x)
        (Keeps-if_some auth.message _ _
          (λ m. Keeps-bind _ _ (searched_with_token s m.options.token) λ sent.
            subst (λ k. Keeps P (dispatch lib tam m.type b m k sent)) (sym e)
              (unknown_dispatched m.type b m sent))
          (search rules))

-- The body is a message of an agent.
abbrev pub IsKnown : {Key : Type 0} → Library Key → Bytes → World → Type 0
IsKnown lib body w = (m : Message) × ((kid : Bytes) × IsSigned lib body w.db w.now m kid)

module _ {Key : Type 0} (lib : Library Key) (tam : Tam Key) (w : World) where
  Kept : Db → Type 0
  Kept = Recorded w.db.holdings w.db.suit_reports

  after_authentication :
      (body : Bytes) (r : Result Authentication) (v : World)
      → (try_authenticate_teep_message lib body w).0 ≡ r
      → Kept v.db
      → Kept (continue r (resolve_authenticated lib tam body) v).1.db ⊎ IsKnown lib body w
  unfolding Kept
  after_authentication body (err e) v q k = inl k
  after_authentication body (ok auth) v q k = elim (Option-cases auth.agent_kid) [
    | inl e ↦ inl (
        (unknown_resolved (record-IsStable w.db.holdings w.db.suit_reports) lib tam body auth
            e).keep
          v k)
    | inr (kid, e) ↦
        let (m, (same, signed)) = (authenticated_is_signed lib body w auth q).when_known kid e in
        inr (m, (kid, signed))
  ]

-- A body that is no message of an agent leaves the holdings and the reports.
resolve_teep_message-IsKnown :
    {Key : Type 0} (lib : Library Key) (tam : Tam Key) (body : Bytes) (w : World)
    → Recorded w.db.holdings w.db.suit_reports (resolve_teep_message lib tam body w).1.db
      ⊎ IsKnown lib body w
unfolding resolve_teep_message ◌>>=◌ Kept
resolve_teep_message-IsKnown lib tam [] w = inl (
    (query_generated (record-IsStable w.db.holdings w.db.suit_reports) lib tam).keep w (refl, refl))
resolve_teep_message-IsKnown lib tam (b ∷ body) w =
    after_authentication lib tam w (b ∷ body) (try_authenticate_teep_message lib (b ∷ body) w).0
      (try_authenticate_teep_message lib (b ∷ body) w).1 refl
      ((message_authenticated (record-IsStable w.db.holdings w.db.suit_reports) lib (b ∷ body)).keep
        w (refl, refl))

-- A run of ResolveTEEPMessage on a body that is a message of an agent led from `d` to `e`.
pub record IsReporting {Key : Type 0} (lib : Library Key) (tam : Tam Key) (d e : Db) : Type 0 where
  pub body : Bytes
  pub world : World
  pub is_before : world.db ≡ d
  pub is_after : (resolve_teep_message lib tam body world).1.db ≡ e
  pub is_known : IsKnown lib body world

module _ {Key : Type 0} {lib : Library Key} {tam : Tam Key} {d e : Db} where
  message-Recorded :
      (body : Bytes)
      → Runs (resolve_teep_message lib tam body) d e
      → Recorded d.holdings d.suit_reports e ⊎ IsReporting lib tam d e
  message-Recorded body (runs w before after) = elim (resolve_teep_message-IsKnown lib tam body w) [
    | inl same ↦ inl (
      ap (λ (x : Db). x.holdings) (sym after) ∙ (same.0 ∙ ap (λ (x : Db). x.holdings) before),
      ap (λ (x : Db). x.suit_reports) (sym after)
          ∙ (same.1 ∙ ap (λ (x : Db). x.suit_reports) before),
    )
    | inr known ↦
        inr (record {
          body = body;
          world = w;
          is_before = before;
          is_after = after;
          is_known = known;
        })
  ]

  Runs-Recorded :
      {A : Type 0} {m : Exec A}
      → Keeps (Recorded d.holdings d.suit_reports) m
      → Runs m d e
      → Recorded d.holdings d.suit_reports e ⊎ IsReporting lib tam d e
  Runs-Recorded k r = inl (Runs-keeps k r (refl, refl))

-- One request that writes (a TEEP message, a manifest, a revocation, a new entity, device or signing
-- key), with any clock, random bytes and driver faults, leaves what agents are recorded to hold and
-- to have reported, unless it is a TEEP message that is signed with the key of an agent that is
-- stored, not revoked and not expired when it comes.
pub Step-Recorded :
    {Key : Type 0} (lib : Library Key) (tam : Tam Key) {d e : Db}
    → Step lib tam d e
    → Recorded d.holdings d.suit_reports e ⊎ IsReporting lib tam d e
unfolding Parties.create_entity Parties.create_device Parties.create_signing_key
    Parties.insert_entity Parties.insert_device Parties.insert_signing_key Manifests.insert_manifest
    Agents.revoke_rows
Step-Recorded lib tam {d} {e} (teep_message body r) = message-Recorded body r
Step-Recorded lib tam {d} {e} (envelope bytes digest kid component n r) =
    Runs-Recorded
      (envelope-Keeps (record-IsStable d.holdings d.suit_reports) (λ m x h. h) bytes digest kid
        component n)
      r
Step-Recorded lib tam {d} {e} (revocation kid r) =
    Runs-Recorded (revocation-Keeps (record-IsStable d.holdings d.suit_reports) (λ b at x h. h) kid)
      r
Step-Recorded lib tam {d} {e} (new_entity x r) = Runs-Recorded (Keeps-statement _ (λ y h. h)) r
Step-Recorded lib tam {d} {e} (new_device x r) =
    Runs-Recorded
      (Keeps-statement _ (λ y h. if_keeps (Recorded d.holdings d.suit_reports) _ _ _ h h)) r
Step-Recorded lib tam {d} {e} (new_signing_key x r) =
    Runs-Recorded
      (Keeps-statement _ (λ y h. if_keeps (Recorded d.holdings d.suit_reports) _ _ _ h h)) r
