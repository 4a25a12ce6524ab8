-- ===== src/Tam/Single.antt =====
-- What the agents hold through all requests (internal/infra/sqlite/agent_status_repo.go).
use attes_tam.Base.{ℕ, ◌≤◌, Bytes, arith}
use attes_tam.Model.{Db, create_schema}
use attes_tam.Sqlite.Statuses.{is_replaced}
use attes_tam.Sqlite.Statuses.Reflected.{count}
use attes_tam.Sqlite.Statuses.Single.{
  IsSingle, IsSingle-insert_manifest, reflect_manifest_success-IsSingle,
}
use attes_tam.Sqlite.Stable.{IsLasting}
use attes_tam.Sqlite.Frames.{holdings_frame}
use attes_tam.Tam.Library.{Library, Tam}
use attes_tam.Tam.Frames.{envelope-Keeps, manifests_invariant}
use attes_tam.Tam.System.{IsInvariant, Reach, Reach-keeps}

IsSingle-IsInvariant : IsInvariant (λ d. IsSingle d.holdings d.suit_manifests)
IsSingle-IsInvariant =
    let s : IsLasting (λ d. IsSingle d.holdings d.suit_manifests) =
      holdings_frame IsSingle reflect_manifest_success-IsSingle in
    manifests_invariant IsSingle s (envelope-Keeps s.stable IsSingle-insert_manifest)

-- In every database that requests make of a new one, whatever the clock, the random bytes and the
-- driver's faults, an agent has at most one active holding of a component.
pub reachable-IsSingle :
    {Key : Type 0} (lib : Library Key) (tam : Tam Key) (d : Db)
    → Reach lib tam create_schema d
    → (agent : ℕ) (component : Bytes)
    → count (is_replaced agent component d.suit_manifests.rows) d.holdings.rows ≤ 1
unfolding count
reachable-IsSingle lib tam d reached =
    (Reach-keeps IsSingle-IsInvariant reached (record {
      ids_below = tt;
      ids_distinct = tt;
      holds_below = tt;
      one_each = λ agent component. omega arith;
    })).one_each
