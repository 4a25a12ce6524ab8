-- ===== src/Sqlite/Challenges.antt =====
-- internal/infra/sqlite/challenge_repo.go. The proofs are in the modules below.
pub mod Spent
pub mod Fresh
pub mod Unused
use attes_tam.Base.{
  ℕ, Bool, true, false, not, ◌&&◌, Option, List, [], ◌∷◌, Bytes, bytes_eq, find, any, update_where,
  ◌==◌, if◌then◌else◌,
}
use attes_tam.Model.{Error, storage, other, zero_time, Challenge, insert, Db}
use attes_tam.Exec.{
  Result, ok, err, Exec, pure, raise, guard, spend_random, statement, query, if_some, ◌>>=◌, ◌>>◌,
}

-- WHERE challenge = ?
abbrev pub challenge_is : Bytes → Challenge → Bool
challenge_is b t = bytes_eq t.challenge b

-- WHERE challenge = ? AND consumed = 0
abbrev pub challenge_is_fresh : Bytes → Challenge → Bool
challenge_is_fresh b t = bytes_eq t.challenge b && not t.consumed

-- the column `challenge` is UNIQUE
unfoldable pub insert_challenge : Challenge → Db → Result ℕ × Db
unfolding insert
insert_challenge t d =
    if any (challenge_is t.challenge) d.challenges.rows then (err storage, d) else (
      ok d.challenges.next_id,
      record d { challenges = insert (λ i. record t { id = i }) d.challenges },
    )

unfoldable pub create : Challenge → Exec ℕ
create t = statement (insert_challenge t)

unfoldable pub find_by_challenge : Bytes → Exec (Option Challenge)
find_by_challenge b = query (λ d. find (challenge_is b) d.challenges.rows)

unfoldable pub find_by_id : ℕ → Exec (Option Challenge)
find_by_id i = query (λ d. find (λ t. t.id == i) d.challenges.rows)

abbrev pub consume : Challenge → Challenge
consume t = record t { consumed = true }

-- The UPDATE, with whether a row was affected.
unfoldable pub consume_rows : Bytes → Db → Result Bool × Db
consume_rows b d = (
  ok (any (challenge_is_fresh b) d.challenges.rows),
  record d {
    challenges = record d.challenges {
      rows = update_where (challenge_is_fresh b) consume d.challenges.rows;
    };
  },
)

unfoldable pub mark_consumed : Bytes → Exec Unit
mark_consumed b = do affected ← statement (consume_rows b); guard affected other

abbrev pub new_challenge : Bytes → Challenge
new_challenge b = record {
  id = 0;
  challenge = b;
  created_at = zero_time;
  expired_at = zero_time;
  consumed = false;
}

-- One round of the `for` loop: `b` is what rand.Read delivered, and `again` the rounds after it.
unfoldable pub generate_round : Bytes → Exec Bytes → Exec Bytes
generate_round b again = do
  spend_random
  existing ← find_by_challenge b
  if_some existing (λ _. again) (do _ ← create (new_challenge b); pure b)

-- The loop takes one output of rand.Read each time, so it ends.
unfoldable pub generate_from : List Bytes → Exec Bytes
generate_from [] = raise other
generate_from (b ∷ rest) = generate_round b (generate_from rest)

unfoldable pub generate_unique_challenge : Exec Bytes
generate_unique_challenge w = generate_from w.random w
