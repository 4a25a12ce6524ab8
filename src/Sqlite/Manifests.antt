-- ===== src/Sqlite/Manifests.antt =====
-- internal/infra/sqlite/suit_manifest_repo.go.
pub mod Latest
pub mod Ordered
pub mod Last
pub mod Listed
use attes_tam.Base.{
  ℕ, ◌-◌, ◌^◌, Bool, Option, none, some, List, [], ◌∷◌, Bytes, bytes_eq, find, select, ltb, leb,
  ◌==◌, ◌&&◌, cond, if◌then◌else◌,
}
use attes_tam.Model.{Error, other, SuitManifest, insert, Db}
use attes_tam.Exec.{Result, ok, err, Exec, raise, statement, query, ◌>>=◌}

-- WHERE trusted_component_id = ?
abbrev pub is_for : Bytes → SuitManifest → Bool
is_for component m = bytes_eq m.trusted_component_id component

-- The two queries of one row do not select the column `digest`.
abbrev pub without_digest : SuitManifest → SuitManifest
without_digest m = record m { digest = [] }

abbrev pub scanned : Option SuitManifest → Option SuitManifest
scanned none = none
scanned (some m) = some (without_digest m)

unfoldable pub find_by_id : ℕ → Exec (Option SuitManifest)
find_by_id i = query (λ d. scanned (find (λ (m : SuitManifest). m.id == i) d.suit_manifests.rows))

-- Of the best row before and a row for the component, the one with the larger sequence number;
-- of two with the same one, the later row (the index is read backwards).
abbrev pub better : Option SuitManifest → SuitManifest → Option SuitManifest
better none m = some m
better (some best) m = if ltb m.sequence_number best.sequence_number then some best else some m

-- ORDER BY sequence_number DESC LIMIT 1
unfoldable pub latest_from : Bytes → Option SuitManifest → List SuitManifest → Option SuitManifest
latest_from component best [] = best
latest_from component best (m ∷ rows) =
    latest_from component (cond (is_for component m) (better best m) best) rows

unfoldable pub latest_of : Bytes → List SuitManifest → Option SuitManifest
unfolding latest_from
latest_of component rows = latest_from component none rows

unfoldable pub find_latest_by_trusted_component_id : Bytes → Exec (Option SuitManifest)
find_latest_by_trusted_component_id component =
    query (λ d. scanned (latest_of component d.suit_manifests.rows))

-- MAX(sequence_number) of the rows for a component
unfoldable pub max_sequence_number : Bytes → List SuitManifest → ℕ
max_sequence_number component [] = 0
max_sequence_number component (m ∷ rows) =
    let most = max_sequence_number component rows in
    cond (is_for component m && ltb most m.sequence_number) m.sequence_number most

-- The rows that the INNER JOIN with the largest numbers of each component leaves. They come back
-- ordered by component, an order on which nothing here depends; they are kept in row order.
unfoldable pub latest_rows : List SuitManifest → List SuitManifest
unfolding max_sequence_number
latest_rows rows =
    select (λ m. m.sequence_number == max_sequence_number m.trusted_component_id rows) rows

unfoldable pub find_latest_all : Exec (List SuitManifest)
find_latest_all = query (λ d. latest_rows d.suit_manifests.rows)

-- math.MaxInt64
abbrev pub max_int64 : ℕ
max_int64 = 2 ^ 63 - 1

unfoldable pub insert_manifest : SuitManifest → Db → Result ℕ × Db
unfolding insert
insert_manifest m d = (
  ok d.suit_manifests.next_id,
  record d { suit_manifests = insert (λ i. record m { id = i }) d.suit_manifests },
)

unfoldable pub create : SuitManifest → Exec ℕ
create m = if leb max_int64 m.sequence_number then raise other else statement (insert_manifest m)
