-- ===== src/Sqlite/SentQueries.antt =====
-- internal/infra/sqlite/sent_query_request_message_repo.go.
use attes_tam.Base.{ℕ, Bool, false, Option, none, some, List, Bytes, find, ◌==◌, if◌then◌else◌}
use attes_tam.Model.{other, Token, Challenge, SentQueryRequestMessage, insert, Db}
use attes_tam.Exec.{Result, ok, Exec, raise, statement, query, if_some, ◌>>=◌}
use attes_tam.Sqlite.Tokens
use attes_tam.Sqlite.Challenges

unfoldable pub insert_query : SentQueryRequestMessage → Db → Result ℕ × Db
unfolding insert
insert_query q d = (
  ok d.sent_query_requests.next_id,
  record d { sent_query_requests = insert (λ i. record q { id = i }) d.sent_query_requests },
)

unfoldable pub create : SentQueryRequestMessage → Exec ℕ
create q = statement (insert_query q)

unfoldable pub create_with_token : Bytes → SentQueryRequestMessage → Exec ℕ
create_with_token token q = do
  found ← Tokens.find_by_token token
  if_some found
      (λ t. if t.consumed then raise other else create (record q { token_id = some t.id }))
      (raise other)

unfoldable pub create_with_challenge : Bytes → SentQueryRequestMessage → Exec ℕ
create_with_challenge challenge q = do
  found ← Challenges.find_by_challenge challenge
  if_some found
      (λ c. if c.consumed then raise other else create (record q { challenge_id = some c.id }))
      (raise other)

-- ON t.id = sqrm.token_id, where the column may be NULL
abbrev pub column_is : Option ℕ → ℕ → Bool
column_is none i = false
column_is (some j) i = j == i

abbrev pub query_of_token :
    Option Token → List SentQueryRequestMessage → Option SentQueryRequestMessage
query_of_token none rows = none
query_of_token (some t) rows =
    find (λ (q : SentQueryRequestMessage). column_is q.token_id t.id) rows

abbrev pub query_of_challenge :
    Option Challenge → List SentQueryRequestMessage → Option SentQueryRequestMessage
query_of_challenge none rows = none
query_of_challenge (some c) rows =
    find (λ (q : SentQueryRequestMessage). column_is q.challenge_id c.id) rows

-- The join: `token` is UNIQUE, so it has one row at most. The token row of the result is read by
-- no caller and left out.
unfoldable pub find_by_token : Bytes → Exec (Option SentQueryRequestMessage)
find_by_token token =
    query
      (λ d. query_of_token (find (Tokens.token_is token) d.tokens.rows) d.sent_query_requests.rows)

unfoldable pub find_by_challenge : Bytes → Exec (Option SentQueryRequestMessage)
find_by_challenge challenge = query (λ d.
    query_of_challenge (find (Challenges.challenge_is challenge) d.challenges.rows)
      d.sent_query_requests.rows)

unfoldable pub find_by_id : ℕ → Exec (Option SentQueryRequestMessage)
find_by_id i =
    query (λ d. find (λ (q : SentQueryRequestMessage). q.id == i) d.sent_query_requests.rows)
