-- ===== src/Sqlite/Tokens/Unused.antt =====
-- The rounds of GenerateUniqueToken (internal/infra/sqlite/token_repo.go).
use attes_tam.Base.{
  ◌≡◌, refl, sym, subst, Bool, true, false, not, Option, none, some, List, [], ◌∷◌, Bytes, find,
  any, is_found, any-find_found, if◌then◌else◌,
}
use attes_tam.Model.{other, Token, Db, Time}
use attes_tam.Exec.{
  Result, ok, err, World, pure, raise, run_statement, statement, query, spend_random, if_some,
  ◌>>=◌,
}
use attes_tam.Sqlite.Tokens.{
  token_is, insert_token, create, find_by_token, new_token, generate_round, generate_from,
  generate_unique_token,
}

abbrev pub is_unused : Db → Bytes → Bool
is_unused d b = not (any (token_is b) d.tokens.rows)

-- The first of the bytes that is in no row.
abbrev pub first_unused : Db → List Bytes → Result Bytes
first_unused d [] = err other
first_unused d (b ∷ rest) = if is_unused d b then ok b else first_unused d rest

generate_from-first :
    (random left : List Bytes) (d : Db) (now : Time)
    → (generate_from random (record { db = d; now = now; random = left; faults = [] })).0
      ≡ first_unused d random
unfolding generate_from generate_round ◌>>=◌ spend_random find_by_token query statement
    run_statement if_some create insert_token pure raise
generate_from-first [] left d now = refl
generate_from-first (b ∷ rest) left d now =
    round (find (token_is b) d.tokens.rows) (any (token_is b) d.tokens.rows)
      (any-find_found (token_is b) d.tokens.rows) refl (generate_from-first rest _ d now)
  where
    spent : World
    spent = record {
      db = d;
      now = now;
      random = elim left [ [] ↦ [] | _ ∷ rest' ↦ rest' ];
      faults = [];
    }

    round :
        (o : Option Token) (used : Bool)
        → used ≡ is_found o
        → any (token_is b) d.tokens.rows ≡ used
        → (generate_from rest spent).0 ≡ first_unused d rest
        → (if_some o (λ _. generate_from rest) (do _ ← create (new_token b); pure b) spent).0
          ≡ (if not used then ok b else first_unused d rest)
    round none true e h again = cc
    round none false e h again = rw h refl
    round (some t) true e h again = again
    round (some t) false e h again = cc

-- If no statement fails, GenerateUniqueToken returns the first of the bytes that crypto/rand
-- delivers that is in no row; it fails only if each of them is in one.
pub generate_unique_token-first_unused :
    (w : World) → w.faults ≡ [] → (generate_unique_token w).0 ≡ first_unused w.db w.random
unfolding generate_unique_token
generate_unique_token-first_unused w none_fails =
    subst (λ fs. (generate_from w.random (record w { faults = fs })).0 ≡ first_unused w.db w.random)
      (sym none_fails) (generate_from-first w.random w.random w.db w.now)
