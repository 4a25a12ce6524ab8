-- ===== src/Sqlite/Agents.antt =====
-- internal/infra/sqlite/agent_repo.go.
use attes_tam.Base.{
  ℕ, ◌-◌, ◌/◌, Bool, true, false, not, ◌&&◌, Option, none, some, List, map, Bytes, bytes_eq, find,
  any, update_where, ltb, if◌then◌else◌,
}
use attes_tam.Model.{storage, not_found, revoked, expired, Time, second, Agent, insert, Db}
use attes_tam.Exec.{
  Result, ok, err, Exec, pure, raise, guard, time_now, statement, query, if_some, ◌>>=◌,
}

-- WHERE kid = ?
abbrev pub kid_is : Bytes → Agent → Bool
kid_is kid a = bytes_eq a.kid kid

-- a.RevokedAt != nil
abbrev pub is_revoked : Agent → Bool
is_revoked a = elim a.revoked_at [ none ↦ false | some _ ↦ true ]

-- a.ExpiredAt.Before(now)
abbrev pub is_expired : Agent → Time → Bool
is_expired a now = ltb a.expired_at now

-- Time.Unix, for a time after 1970
abbrev pub unix : Time → ℕ
unix t = t / second - 62135596800

-- The queries do not select the column `device_id`.
abbrev pub selected : Agent → Agent
selected a = record a { device_id = none }

unfoldable pub get_all : Exec (List Agent)
get_all = query (λ d. map selected d.agents.rows)

-- FindByKID: the key of a row that is neither revoked nor expired.
unfoldable pub find_by_kid : Bytes → Exec Agent
find_by_kid kid = do
  row ← query (λ d. find (kid_is kid) d.agents.rows)
  now ← time_now
  if_some row
      (λ a.
        if is_revoked a
        then raise revoked
        else if is_expired a now
        then raise expired
        else pure (selected a))
      (raise not_found)

unfoldable pub find_by_kid_ignore_revoked : Bytes → Exec (Option Agent)
find_by_kid_ignore_revoked kid = do
  row ← query (λ d. find (kid_is kid) d.agents.rows)
  now ← time_now
  if_some row (λ a. if is_expired a now then raise expired else pure (some (selected a)))
      (pure none)

-- the column `kid` is UNIQUE
unfoldable pub insert_agent : Agent → Db → Result ℕ × Db
unfolding insert
insert_agent a d =
    if any (kid_is a.kid) d.agents.rows
    then (err storage, d)
    else (ok d.agents.next_id, record d { agents = insert (λ i. record a { id = i }) d.agents })

unfoldable pub create : Agent → Exec ℕ
create a = statement (insert_agent a)

-- WHERE kid = ? AND revoked_at IS NULL
abbrev pub kid_is_active : Bytes → Agent → Bool
kid_is_active kid a = bytes_eq a.kid kid && not (is_revoked a)

-- The UPDATE, with whether a row was affected.
unfoldable pub revoke_rows : Bytes → ℕ → Db → Result Bool × Db
revoke_rows kid at d = (
  ok (any (kid_is_active kid) d.agents.rows),
  record d {
    agents = record d.agents {
      rows =
          update_where (kid_is_active kid) (λ a. record a { revoked_at = some at }) d.agents.rows;
    };
  },
)

unfoldable pub revoke_by_kid : Bytes → Exec Unit
revoke_by_kid kid = do
  now ← time_now
  affected ← statement (revoke_rows kid (unix now))
  guard affected not_found
