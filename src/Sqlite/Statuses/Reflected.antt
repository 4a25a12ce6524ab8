-- ===== src/Sqlite/Statuses/Reflected.antt =====
-- What ReflectManifestSuccess leaves behind (internal/infra/sqlite/agent_status_repo.go).
use attes_tam.Base.{
  ℕ, ◌+◌, ◌≡◌, refl, ◌∙◌, Bool, true, false, not, Option, some, List, [], ◌∷◌, ◌++◌, Bytes,
  bytes_eq_refl, find, any, select, update_where, ◌==◌, ==-refl, cond, arith,
}
use attes_tam.Model.{Time, SuitManifest, Agent, Holding, Db}
use attes_tam.Sqlite.Statuses.Written.{holding_of, IsWritten, reflect_manifest_success-IsWritten}
use attes_tam.Exec.Atomic.{Atomic, Atomic-weaken}
use attes_tam.Sqlite.Agents
use attes_tam.Sqlite.Statuses.{
  digest_is, is_of_component, is_replaced, delete, is_held, reflect_manifest_success,
}

-- The number of rows that a WHERE clause selects.
unfoldable pub count : {A : Type 0} → (A → Bool) → List A → ℕ
count p [] = 0
count p (x ∷ xs) = let n = count p xs in cond (p x) (1 + n) n

pub count-append :
    {A : Type 0} (p : A → Bool) (xs ys : List A) → count p (xs ++ ys) ≡ count p xs + count p ys
unfolding count
count-append p [] ys = omega arith
count-append p (x ∷ xs) ys = ground (arith, count-append p xs ys)

abbrev pub is_of_other_agent : ℕ → Holding → Bool
is_of_other_agent agent h = not (h.agent_id == agent)

pub record IsReflected (kid : Bytes) (digest : Option Bytes) (before after : Db) : Type 0 where
  pub agent : Agent
  pub manifest : SuitManifest
  pub is_agent : find (Agents.kid_is kid) before.agents.rows ≡ some agent
  pub is_manifest : find (digest_is digest) before.suit_manifests.rows ≡ some manifest
  pub holds : any (is_held agent.id manifest.id) after.holdings.rows ≡ true
  pub holds_one :
      count
        (is_replaced agent.id manifest.trusted_component_id after.suit_manifests.rows)
        after.holdings.rows
      ≡ 1
  pub leaves_others :
      select (is_of_other_agent agent.id) after.holdings.rows
      ≡ select (is_of_other_agent agent.id) before.holdings.rows
  pub leaves_manifests : after.suit_manifests ≡ before.suit_manifests

module _ (agent : ℕ) (component : Bytes) (manifests : List SuitManifest) where
  pub none_replaced :
      (rows : List Holding)
      → count
          (is_replaced agent component manifests)
          (update_where (is_replaced agent component manifests) delete rows)
        ≡ 0
  unfolding count update_where
  none_replaced [] = refl
  none_replaced (h ∷ rows) = ground (arith, none_replaced rows)

  others_stay :
      (rows : List Holding)
      → select
          (is_of_other_agent agent)
          (update_where (is_replaced agent component manifests) delete rows)
        ≡ select (is_of_other_agent agent) rows
  unfolding select update_where
  others_stay [] = refl
  others_stay (h ∷ rows) = ground (arith, others_stay rows)

select-append :
    {A : Type 0} (p : A → Bool) (xs : List A) (y : A)
    → p y ≡ false
    → select p (xs ++ y ∷ []) ≡ select p xs
unfolding select
select-append p [] y h = rw h refl
select-append p (x ∷ xs) y h = ground (arith, select-append p xs y h)

-- A manifest that was found by its digest is one of its component.
found-is_of_component :
    (p : SuitManifest → Bool) (rows : List SuitManifest) (m : SuitManifest)
    → find p rows ≡ some m
    → is_of_component m.trusted_component_id rows m.id ≡ true
unfolding find is_of_component any
found-is_of_component p [] m e = cc
found-is_of_component p (x ∷ rows) m e =
    ground
      (arith, ==-refl m.id, bytes_eq_refl m.trusted_component_id, found-is_of_component p rows m)

row-is_held :
    (agent manifest : ℕ) (now : Time) (i : ℕ)
    → is_held agent manifest (holding_of agent manifest now i) ≡ true
row-is_held agent manifest now i = ground (arith, ==-refl agent, ==-refl manifest)

row-is_replaced :
    (agent : ℕ) (m : SuitManifest) (manifests : List SuitManifest) (now : Time) (i : ℕ)
    → is_of_component m.trusted_component_id manifests m.id ≡ true
    → is_replaced agent m.trusted_component_id manifests (holding_of agent m.id now i) ≡ true
row-is_replaced agent m manifests now i h = ground (arith, ==-refl agent)

row-is_own :
    (agent manifest : ℕ) (now : Time) (i : ℕ)
    → is_of_other_agent agent (holding_of agent manifest now i) ≡ false
row-is_own agent manifest now i = ground (arith, ==-refl agent)

any-last :
    {A : Type 0} (p : A → Bool) (xs : List A) (y : A) → p y ≡ true → any p (xs ++ y ∷ []) ≡ true
unfolding any
any-last p [] y h = ground arith
any-last p (x ∷ xs) y h = ground (arith, any-last p xs y h)

count-one_more :
    {A : Type 0} (p : A → Bool) (xs : List A) (y : A)
    → count p xs ≡ 0
    → p y ≡ true
    → count p (xs ++ y ∷ []) ≡ 1
unfolding count
count-one_more p xs y none_yet h = ground (arith, count-append p xs (y ∷ []))

IsWritten-IsReflected :
    (kid : Bytes) (digest : Option Bytes) (d e : Db)
    → IsWritten kid digest d e
    → IsReflected kid digest d e
unfolding count any
IsWritten-IsReflected kid digest d e h =
    let a = h.agent in
    let m = h.manifest in
    let component = m.trusted_component_id in
    let manifests = d.suit_manifests.rows in
    let row = holding_of a.id m.id h.now d.holdings.next_id in
    let marked = update_where (is_replaced a.id component manifests) delete d.holdings.rows in
    record {
      agent = a;
      manifest = m;
      is_agent = h.is_agent;
      is_manifest = h.is_manifest;
      holds = rw h.writes_holdings (
          any-last (is_held a.id m.id) marked row (row-is_held a.id m.id h.now d.holdings.next_id));
      holds_one =
          rw (h.writes_holdings, h.leaves_manifests)
            (count-one_more (is_replaced a.id component manifests) marked row
              (none_replaced a.id component manifests d.holdings.rows)
              (row-is_replaced a.id m manifests h.now d.holdings.next_id
                (found-is_of_component (digest_is digest) manifests m h.is_manifest)));
      leaves_others = rw h.writes_holdings (
          select-append (is_of_other_agent a.id) marked row
            (row-is_own a.id m.id h.now d.holdings.next_id)
          ∙ others_stay a.id component manifests d.holdings.rows);
      leaves_manifests = h.leaves_manifests;
    }

-- ReflectManifestSuccess does all or nothing, whichever statement fails. If it succeeds, there is
-- an agent with the key id and a manifest with the digest; of the holdings of that agent exactly one
-- that is not deleted is of the manifest's component, and it holds the manifest; the holdings of
-- the other agents, and the manifests, are as they were. If it fails, the database is as it was.
pub reflect_manifest_success-Atomic :
    (kid : Bytes) (digest : Option Bytes) (report : Bytes) (d : Db)
    → Atomic d (reflect_manifest_success kid digest report) (λ _. IsReflected kid digest d)
reflect_manifest_success-Atomic kid digest report d =
    Atomic-weaken (λ _. IsWritten kid digest d)
      (reflect_manifest_success-IsWritten kid digest report d)
      (λ _ e. IsWritten-IsReflected kid digest d e)
