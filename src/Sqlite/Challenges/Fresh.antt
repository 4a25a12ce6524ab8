-- ===== src/Sqlite/Challenges/Fresh.antt =====
-- The challenge that GenerateUniqueChallenge returns (internal/infra/sqlite/challenge_repo.go).
use attes_tam.Base.{
  ℕ, ◌≡◌, refl, sym, ap, subst, ◌∙◌, false, Option, none, some, List, [], ◌∷◌, Bytes, bytes_eq_refl,
  find, find-append, arith,
}
use attes_tam.Model.{other, Challenge, Db}
use attes_tam.Exec.{ok, World, Exec, spend_random}
use attes_tam.Exec.Gives.{
  Gives, Gives-bind, Gives-statement, Gives-query, Gives-pure, Gives-raise, Gives-if_some,
  Gives-fact, Gives-spend_random,
}
use attes_tam.Sqlite.Challenges.{
  challenge_is, insert_challenge, create, find_by_challenge, new_challenge, generate_round,
  generate_from, generate_unique_challenge,
}

-- The row that a challenge has in the table, if any.
abbrev pub row_of : Bytes → Db → Option Challenge
row_of b d = find (challenge_is b) d.challenges.rows

-- The rows of a run: `b` has no row before, and an unconsumed one after.
pub record IsIssued (b : Bytes) (before : Db) (after : Db) : Type 0 where
  pub was_absent : row_of b before ≡ none
  pub row : Challenge
  pub is_row : row_of b after ≡ some row
  pub is_challenge : row.challenge ≡ b
  pub is_fresh : row.consumed ≡ false

insert_challenge-issues :
    (b : Bytes) (d : Db) (i : ℕ)
    → row_of b d ≡ none
    → (insert_challenge (new_challenge b) d).0 ≡ ok i
    → IsIssued b d (insert_challenge (new_challenge b) d).1
unfolding insert_challenge find
insert_challenge-issues b d i absent e = record {
  was_absent = absent;
  row = record (new_challenge b) { id = d.challenges.next_id };
  is_row = ground (
    arith,
    bytes_eq_refl b,
    find-append (challenge_is b) d.challenges.rows
        (record (new_challenge b) { id = d.challenges.next_id } ∷ []),
  );
  is_challenge = refl;
  is_fresh = refl;
}

-- A round that finds its bytes in the table leaves the table to the rounds after it.
generate_round-issues :
    (b : Bytes) (again : Exec Bytes) (d₀ : Db)
    → Gives (λ d. d ≡ d₀) again (λ c d. IsIssued c d₀ d)
    → Gives (λ d. d ≡ d₀) (generate_round b again) (λ c d. IsIssued c d₀ d)
unfolding generate_round find_by_challenge create
generate_round-issues b again d₀ k =
    Gives-bind (λ _ d. d ≡ d₀) spend_random _ (Gives-spend_random (λ d e. e))
      λ _.
        Gives-bind (λ o d. (o ≡ row_of b d₀) × (d ≡ d₀)) (find_by_challenge b) _
          (Gives-query _ (λ d e. (ap (row_of b) e, e)))
          λ existing. Gives-fact λ known.
            Gives-if_some existing _ _ (λ _ _. k)
              λ missing.
                Gives-bind (λ _ d. IsIssued b d₀ d) (create (new_challenge b)) _
                  (Gives-statement _ λ d i e r.
                    subst (λ x. IsIssued b x (insert_challenge (new_challenge b) d).1) e
                      (insert_challenge-issues b d i (ap (row_of b) e ∙ sym known ∙ missing) r))
                  λ _. Gives-pure b (λ d h. h)

generate_from-issues :
    (random : List Bytes) (d₀ : Db)
    → Gives (λ d. d ≡ d₀) (generate_from random) (λ c d. IsIssued c d₀ d)
unfolding generate_from
generate_from-issues [] d₀ = Gives-raise other
generate_from-issues (b ∷ rest) d₀ =
    generate_round-issues b (generate_from rest) d₀ (generate_from-issues rest d₀)

-- Whatever rand.Read delivers and whichever statement fails: the challenge that GenerateUniqueChallenge
-- returns had no row before the call, and has an unconsumed one after it.
pub generate_unique_challenge_issues :
    (w : World) (b : Bytes)
    → (generate_unique_challenge w).0 ≡ ok b
    → IsIssued b w.db (generate_unique_challenge w).1.db
unfolding generate_unique_challenge
generate_unique_challenge_issues w b e = (generate_from-issues w.random w.db).give w b refl e
