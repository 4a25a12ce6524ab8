-- ===== src/Sqlite/Statuses/Hidden.antt =====
-- What the status of one agent owes to the holdings of the others
-- (internal/infra/sqlite/agent_status_repo.go).
use attes_tam.Base.{◌≤◌, Option, none, some, List, Bytes, cond}
use attes_tam.Model.{SuitManifest, Holding}
use attes_tam.Sqlite.Statuses.{is_active_for, newer}

-- `h` is not newer than the best row, if there is one.
abbrev pub Outlasts : Option Holding → Holding → Type 0
Outlasts none h = ⊥
Outlasts (some best) h = h.created_at ≤ best.created_at

-- What an optional row satisfies.
abbrev pub Satisfies : (Holding → Type 0) → Option Holding → Type 0
Satisfies P none = Unit
Satisfies P (some h) = P h

module _ (component : Bytes) (manifests : List SuitManifest) where
  abbrev pub next_first : Option Holding → Holding → Option Holding
  next_first best h = cond (is_active_for component manifests h) (newer best h) best
