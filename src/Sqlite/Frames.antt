-- ===== src/Sqlite/Frames.antt =====
-- Predicates of one table, and the writes of the other tables.
use attes_tam.Base.{Option, Bytes}
use attes_tam.Model.{Table, Token, Challenge, Agent, SuitManifest, Holding, ManifestSigningKey, Db}
use attes_tam.Exec.Keeps.{Keeps}
use attes_tam.Sqlite.Tokens
use attes_tam.Sqlite.Challenges
use attes_tam.Sqlite.Agents
use attes_tam.Sqlite.SentQueries
use attes_tam.Sqlite.SentUpdates
use attes_tam.Sqlite.Statuses
use attes_tam.Sqlite.Stable.{IsLasting, if_keeps, reflect-Keeps}

-- What the writes are to the tables other than their own.
writes : Unit {0}
unfolding Tokens.insert_token Tokens.consume_rows Challenges.insert_challenge
    Challenges.consume_rows Agents.insert_agent SentQueries.insert_query SentUpdates.insert_update
    SentUpdates.insert_sent_manifest Statuses.mark_deleted Statuses.insert_holding
    Statuses.insert_report
writes = tt

pub tokens_frame :
    (Q : Table Token → Type 0)
    → ((t : Token) (d : Db) → Q d.tokens → Q (Tokens.insert_token t d).1.tokens)
    → ((b : Bytes) (d : Db) → Q d.tokens → Q (Tokens.consume_rows b d).1.tokens)
    → IsLasting (λ d. Q d.tokens)
unfolding writes
tokens_frame Q inserts consumes =
    let P : Db → Type 0 = λ d. Q d.tokens in
    record {
      stable = record {
        token_inserted = inserts;
        token_consumed = consumes;
        challenge_inserted = λ c d h. if_keeps P _ _ _ h h;
        challenge_consumed = λ b d h. h;
        agent_inserted = λ a d h. if_keeps P _ _ _ h h;
        query_inserted = λ q d h. h;
        update_inserted = λ u d h. h;
        sent_manifest_inserted = λ m d h. h;
      };
      report_inserted = λ a m r n s d h. h;
      status_reflected =
          reflect-Keeps {P = P} (λ a c d h. h) (λ a m n d h. if_keeps P _ _ _ h h)
            (λ a m r n s d h. h);
    }

pub challenges_frame :
    (Q : Table Challenge → Type 0)
    → ((c : Challenge) (d : Db) → Q d.challenges → Q (Challenges.insert_challenge c d).1.challenges)
    → ((b : Bytes) (d : Db) → Q d.challenges → Q (Challenges.consume_rows b d).1.challenges)
    → IsLasting (λ d. Q d.challenges)
unfolding writes
challenges_frame Q inserts consumes =
    let P : Db → Type 0 = λ d. Q d.challenges in
    record {
      stable = record {
        token_inserted = λ t d h. if_keeps P _ _ _ h h;
        token_consumed = λ b d h. h;
        challenge_inserted = inserts;
        challenge_consumed = consumes;
        agent_inserted = λ a d h. if_keeps P _ _ _ h h;
        query_inserted = λ q d h. h;
        update_inserted = λ u d h. h;
        sent_manifest_inserted = λ m d h. h;
      };
      report_inserted = λ a m r n s d h. h;
      status_reflected =
          reflect-Keeps {P = P} (λ a c d h. h) (λ a m n d h. if_keeps P _ _ _ h h)
            (λ a m r n s d h. h);
    }

pub agents_frame :
    (Q : Table Agent → Type 0)
    → ((a : Agent) (d : Db) → Q d.agents → Q (Agents.insert_agent a d).1.agents)
    → IsLasting (λ d. Q d.agents)
unfolding writes
agents_frame Q inserts =
    let P : Db → Type 0 = λ d. Q d.agents in
    record {
      stable = record {
        token_inserted = λ t d h. if_keeps P _ _ _ h h;
        token_consumed = λ b d h. h;
        challenge_inserted = λ c d h. if_keeps P _ _ _ h h;
        challenge_consumed = λ b d h. h;
        agent_inserted = inserts;
        query_inserted = λ q d h. h;
        update_inserted = λ u d h. h;
        sent_manifest_inserted = λ m d h. h;
      };
      report_inserted = λ a m r n s d h. h;
      status_reflected =
          reflect-Keeps {P = P} (λ a c d h. h) (λ a m n d h. if_keeps P _ _ _ h h)
            (λ a m r n s d h. h);
    }

-- No session writes the keys or the manifests.
pub repository_frame :
    (Q : Table ManifestSigningKey → Table SuitManifest → Type 0)
    → IsLasting (λ d. Q d.manifest_signing_keys d.suit_manifests)
unfolding writes
repository_frame Q =
    let P : Db → Type 0 = λ d. Q d.manifest_signing_keys d.suit_manifests in
    record {
      stable = record {
        token_inserted = λ t d h. if_keeps P _ _ _ h h;
        token_consumed = λ b d h. h;
        challenge_inserted = λ c d h. if_keeps P _ _ _ h h;
        challenge_consumed = λ b d h. h;
        agent_inserted = λ a d h. if_keeps P _ _ _ h h;
        query_inserted = λ q d h. h;
        update_inserted = λ u d h. h;
        sent_manifest_inserted = λ m d h. h;
      };
      report_inserted = λ a m r n s d h. h;
      status_reflected =
          reflect-Keeps {P = P} (λ a c d h. h) (λ a m n d h. if_keeps P _ _ _ h h)
            (λ a m r n s d h. h);
    }

-- The holdings are written by the transaction alone.
pub holdings_frame :
    (Q : Table Holding → Table SuitManifest → Type 0)
    → ((kid : Bytes) (digest : Option Bytes) (report : Bytes)
        → Keeps
            (λ d. Q d.holdings d.suit_manifests)
            (Statuses.reflect_manifest_success kid digest report))
    → IsLasting (λ d. Q d.holdings d.suit_manifests)
unfolding writes
holdings_frame Q reflects =
    let P : Db → Type 0 = λ d. Q d.holdings d.suit_manifests in
    record {
      stable = record {
        token_inserted = λ t d h. if_keeps P _ _ _ h h;
        token_consumed = λ b d h. h;
        challenge_inserted = λ c d h. if_keeps P _ _ _ h h;
        challenge_consumed = λ b d h. h;
        agent_inserted = λ a d h. if_keeps P _ _ _ h h;
        query_inserted = λ q d h. h;
        update_inserted = λ u d h. h;
        sent_manifest_inserted = λ m d h. h;
      };
      report_inserted = λ a m r n s d h. h;
      status_reflected = reflects;
    }
