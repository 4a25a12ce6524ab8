-- ===== src/Sqlite/Statuses/Written.antt =====
-- What ReflectManifestSuccess writes into the table of holdings
-- (internal/infra/sqlite/agent_status_repo.go).
use attes_tam.Base.{
  ℕ, ◌+◌, ◌≡◌, refl, sym, ap, subst, ◌∙◌, Bool, true, false, Option, none, some, some-injective,
  inl, inr, [], ◌∷◌, ◌++◌, Bytes, find, any, Bool-cases, update_where, if◌then◌else◌,
}
use attes_tam.Model.{storage, other, Time, SuitManifest, Agent, Holding, Table, insert, Db}
use attes_tam.Exec.{Result, ok, err, statement, query, time_now}
use attes_tam.Exec.Gives.{Gives, Gives-bind, Gives-statement}
use attes_tam.Exec.Atomic.{
  Atomic, Atomic-raise, Atomic-if_some, Atomic-transaction, Reads-query, Reads-bind, Reads-time_now,
}
use attes_tam.Sqlite.Agents
use attes_tam.Sqlite.Statuses.{
  timestamp, digest_is, pair_of, look_up, is_replaced, delete, mark_deleted, is_held,
  insert_holding, insert_report, reflect, reflect_manifest_success,
}

abbrev pub holding_of : ℕ → ℕ → Time → ℕ → Holding
holding_of agent manifest now i = record {
  id = i;
  agent_id = agent;
  suit_manifest_id = manifest;
  created_at = timestamp now;
  deleted = false;
}

-- The agent's holdings of the component deleted, and the new one at the end.
abbrev pub holdings_with : Agent → SuitManifest → Time → Db → Table Holding
holdings_with a m now d = record {
  rows =
      update_where (is_replaced a.id m.trusted_component_id d.suit_manifests.rows) delete
        d.holdings.rows
      ++ holding_of a.id m.id now d.holdings.next_id ∷ [];
  next_id = d.holdings.next_id + 1;
}

pub record IsWritten (kid : Bytes) (digest : Option Bytes) (before after : Db) : Type 0 where
  pub agent : Agent
  pub manifest : SuitManifest
  pub now : Time
  pub is_agent : find (Agents.kid_is kid) before.agents.rows ≡ some agent
  pub is_manifest : find (digest_is digest) before.suit_manifests.rows ≡ some manifest
  pub writes_holdings : after.holdings ≡ holdings_with agent manifest now before
  pub leaves_manifests : after.suit_manifests ≡ before.suit_manifests

inserted-unheld :
    (agent manifest : ℕ) (now : Time) (d : Db) (i : ℕ)
    → (insert_holding agent manifest now d).0 ≡ ok i
    → any (is_held agent manifest) d.holdings.rows ≡ false
unfolding insert_holding
inserted-unheld agent manifest now d i e =
    elim (Bool-cases (any (is_held agent manifest) d.holdings.rows)) [
      | inl held ↦
          absurd (refused (any (is_held agent manifest) d.holdings.rows) (ok 0, d) _ i held e)
      | inr unheld ↦ unheld
    ]
  where
    refused :
        (b : Bool) (x y : Result ℕ × Db) (i : ℕ)
        → b ≡ true
        → (if b then (err storage, d) else y).0 ≡ ok i
        → ⊥
    refused true x y i h e = cc
    refused false x y i h e = cc

reflect-Gives :
    (kid : Bytes) (digest : Option Bytes) (a : Agent) (m : SuitManifest) (report : Bytes)
    (now : Time) (d₀ : Db)
    → find (Agents.kid_is kid) d₀.agents.rows ≡ some a
    → find (digest_is digest) d₀.suit_manifests.rows ≡ some m
    → Gives (λ d. d ≡ d₀) (reflect a m report now) (λ _ d. IsWritten kid digest d₀ d)
unfolding reflect mark_deleted insert_holding insert_report insert any
reflect-Gives kid digest a m report now d₀ agent_is manifest_is =
    Gives-bind (λ _ d. d ≡ marked) (statement (mark_deleted a.id m.trusted_component_id)) _
      (Gives-statement _ λ d x e r. ap (λ y. (mark_deleted a.id m.trusted_component_id y).1) e)
      λ _.
        Gives-bind (λ _ d. d ≡ held) (statement (insert_holding a.id m.id now)) _
          (Gives-statement _ λ d i e r.
            subst (λ y. (insert_holding a.id m.id now y).1 ≡ held) (sym e)
              (rw (unheld d i e r) refl))
          λ _. Gives-statement _ λ d i e r.
            subst
              (λ y.
                IsWritten kid digest d₀ (insert_report (some a.id) (some m.id) report now true y).1)
              (sym e)
              (record {
                agent = a;
                manifest = m;
                now = now;
                is_agent = agent_is;
                is_manifest = manifest_is;
                writes_holdings = refl;
                leaves_manifests = refl;
              })
  where
    marked : Db
    marked = (mark_deleted a.id m.trusted_component_id d₀).1

    held : Db
    held = record marked { holdings = holdings_with a m now d₀ }

    unheld :
        (d : Db) (i : ℕ)
        → d ≡ marked
        → (insert_holding a.id m.id now d).0 ≡ ok i
        → any (is_held a.id m.id) marked.holdings.rows ≡ false
    unheld d i e r =
        subst (λ y. any (is_held a.id m.id) y.holdings.rows ≡ false) e
          (inserted-unheld a.id m.id now d i r)

found_pair :
    (o : Option Agent) (p : Option SuitManifest) (a : Agent) (m : SuitManifest)
    → pair_of o p ≡ some (a, m)
    → (o ≡ some a) × (p ≡ some m)
found_pair none p a m e = cc
found_pair (some b) none a m e = cc
found_pair (some b) (some n) a m e =
    let q = some-injective _ _ e in (ap (λ x. some x.0) q, ap (λ x. some x.1) q)

pub reflect_manifest_success-IsWritten :
    (kid : Bytes) (digest : Option Bytes) (report : Bytes) (d : Db)
    → Atomic d (reflect_manifest_success kid digest report) (λ _. IsWritten kid digest d)
unfolding reflect_manifest_success look_up
reflect_manifest_success-IsWritten kid digest report d =
    Reads-bind _ (query (look_up kid digest)) _ (Reads-query (look_up kid digest)) λ found is_found.
      Reads-bind _ time_now _ Reads-time_now λ now _.
        Atomic-if_some found _ _
          (λ p e.
            let both =
              found_pair (find (Agents.kid_is kid) d.agents.rows)
                (find (digest_is digest) d.suit_manifests.rows) p.0 p.1 (sym is_found ∙ e) in
            Atomic-transaction _ (reflect-Gives kid digest p.0 p.1 report now d both.0 both.1))
          (λ _. Atomic-raise other)
