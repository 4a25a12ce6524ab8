-- ===== src/Sqlite/Tokens.antt =====
-- internal/infra/sqlite/token_repo.go. The proofs are in the modules below.
pub mod Spent
pub mod Fresh
pub mod Unused
use attes_tam.Base.{
  ℕ, Bool, true, false, not, ◌&&◌, Option, List, [], ◌∷◌, Bytes, bytes_eq, find, any, update_where,
  ◌==◌, if◌then◌else◌,
}
use attes_tam.Model.{Error, storage, other, zero_time, Token, insert, Db}
use attes_tam.Exec.{
  Result, ok, err, Exec, pure, raise, guard, spend_random, statement, query, if_some, ◌>>=◌, ◌>>◌,
}

-- WHERE token = ?
abbrev pub token_is : Bytes → Token → Bool
token_is b t = bytes_eq t.token b

-- WHERE token = ? AND consumed = 0
abbrev pub token_is_fresh : Bytes → Token → Bool
token_is_fresh b t = bytes_eq t.token b && not t.consumed

-- the column `token` is UNIQUE
unfoldable pub insert_token : Token → Db → Result ℕ × Db
unfolding insert
insert_token t d =
    if any (token_is t.token) d.tokens.rows
    then (err storage, d)
    else (ok d.tokens.next_id, record d { tokens = insert (λ i. record t { id = i }) d.tokens })

unfoldable pub create : Token → Exec ℕ
create t = statement (insert_token t)

unfoldable pub find_by_token : Bytes → Exec (Option Token)
find_by_token b = query (λ d. find (token_is b) d.tokens.rows)

unfoldable pub find_by_id : ℕ → Exec (Option Token)
find_by_id i = query (λ d. find (λ t. t.id == i) d.tokens.rows)

abbrev pub consume : Token → Token
consume t = record t { consumed = true }

-- The UPDATE, with whether a row was affected.
unfoldable pub consume_rows : Bytes → Db → Result Bool × Db
consume_rows b d = (
  ok (any (token_is_fresh b) d.tokens.rows),
  record d {
    tokens = record d.tokens { rows = update_where (token_is_fresh b) consume d.tokens.rows };
  },
)

unfoldable pub mark_consumed : Bytes → Exec Unit
mark_consumed b = do affected ← statement (consume_rows b); guard affected other

abbrev pub new_token : Bytes → Token
new_token b = record {
  id = 0;
  token = b;
  created_at = zero_time;
  expired_at = zero_time;
  consumed = false;
}

-- One round of the `for` loop: `b` is what rand.Read delivered, and `again` the rounds after it.
unfoldable pub generate_round : Bytes → Exec Bytes → Exec Bytes
generate_round b again = do
  spend_random
  existing ← find_by_token b
  if_some existing (λ _. again) (do _ ← create (new_token b); pure b)

-- The loop takes one output of rand.Read each time, so it ends.
unfoldable pub generate_from : List Bytes → Exec Bytes
generate_from [] = raise other
generate_from (b ∷ rest) = generate_round b (generate_from rest)

unfoldable pub generate_unique_token : Exec Bytes
generate_unique_token w = generate_from w.random w
