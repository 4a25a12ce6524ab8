-- ===== src/Sqlite/Challenges/Spent.antt =====
-- The consumed challenges of the table (internal/infra/sqlite/challenge_repo.go).
use attes_tam.Base.{
  ◌≡◌, refl, ap, subst, sym, ◌∙◌, true, List, [], ◌∷◌, Bytes, bytes_eq, bytes_eq→eq, any,
  any-append, arith,
}
use attes_tam.Model.{Error, other, Challenge, Table, Db}
use attes_tam.Exec.{Result, ok, err, World, guard, statement}
use attes_tam.Exec.Gives.{Gives, Gives-bind, Gives-statement, Gives-guard}
use attes_tam.Sqlite.Spent
use attes_tam.Sqlite.Spent.{IsConsumable, IsSpentIn-consumed, consumed-IsSpentIn}
use attes_tam.Sqlite.Challenges.{
  challenge_is, challenge_is_fresh, insert_challenge, consume, consume_rows, mark_consumed,
}

-- Some row has the challenge `b`, and none has it unconsumed.
abbrev pub IsSpentIn : Bytes → Table Challenge → Type 0
IsSpentIn b t = Spent.IsSpentIn challenge_is challenge_is_fresh b t

abbrev pub IsSpent : Bytes → Db → Type 0
IsSpent b d = IsSpentIn b d.challenges

rows-IsConsumable : IsConsumable challenge_is challenge_is_fresh consume
rows-IsConsumable = record {
  keeps_bytes = λ b r. refl;
  is_stale = λ b r. ground arith;
  is_present = λ b r h. ground arith;
}

any-challenge_is :
    (b c : Bytes) (rows : List Challenge)
    → bytes_eq b c ≡ true
    → any (challenge_is b) rows ≡ any (challenge_is c) rows
any-challenge_is b c rows h = ap (λ x. any (challenge_is x) rows) (bytes_eq→eq b c h)

pub insert_challenge-IsSpent :
    (b : Bytes) (t : Challenge) (d : Db) → IsSpent b d → IsSpent b (insert_challenge t d).1
unfolding insert_challenge any
insert_challenge-IsSpent b t d h = record {
  present = ground (
    arith,
    h.present,
    any-append (challenge_is b) d.challenges.rows (record t { id = d.challenges.next_id } ∷ []),
  );
  stale = ground (
    arith,
    h.stale,
    h.present,
    any-append (challenge_is_fresh b) d.challenges.rows
        (record t { id = d.challenges.next_id } ∷ []),
    any-challenge_is t.challenge b d.challenges.rows,
  );
}

pub consume_rows-IsSpent : (b c : Bytes) (d : Db) → IsSpent b d → IsSpent b (consume_rows c d).1
unfolding consume_rows
consume_rows-IsSpent b c d h = IsSpentIn-consumed rows-IsConsumable b c d.challenges h

-- A call that marks a challenge as consumed found it unconsumed and did only that, whatever fails on
-- the way.
pub mark_consumed-Gives :
    (b : Bytes) (d₀ : Db)
    → Gives
        (λ d. d ≡ d₀)
        (mark_consumed b)
        (λ _ d.
          (any (challenge_is_fresh b) d₀.challenges.rows ≡ true) × (d ≡ (consume_rows b d₀).1))
unfolding mark_consumed consume_rows
mark_consumed-Gives b d₀ =
    Gives-bind
      (λ affected d.
        (affected ≡ any (challenge_is_fresh b) d₀.challenges.rows) × (d ≡ (consume_rows b d₀).1))
      (statement (consume_rows b)) (λ affected. guard affected other)
      (Gives-statement (consume_rows b) λ d a p e. ground arith)
      λ affected. Gives-guard affected other λ d p e. (sym p.0 ∙ e, p.1)

-- A call that marks a challenge as consumed leaves it spent.
pub mark_consumed_spends :
    (b : Bytes) (w : World) → (mark_consumed b w).0 ≡ ok tt → IsSpent b (mark_consumed b w).1.db
unfolding consume_rows
mark_consumed_spends b w e =
    let (fresh, same) = (mark_consumed-Gives b w.db).give w tt refl e in
    subst (λ d. IsSpent b d) (sym same)
      (consumed-IsSpentIn rows-IsConsumable b w.db.challenges fresh)

refused :
    (b : Bytes) (w : World) (r : Result (Unit {0}))
    → (mark_consumed b w).0 ≡ r
    → IsSpent b w.db
    → (e : Error) × (r ≡ err e)
refused b w (ok tt) q h =
    let (fresh, same) = (mark_consumed-Gives b w.db).give w tt refl q in cc (fresh, h.stale)
refused b w (err e) q h = (e, refl)

-- A spent challenge cannot be consumed.
pub mark_consumed_refuses :
    (b : Bytes) (w : World) → IsSpent b w.db → (e : Error) × ((mark_consumed b w).0 ≡ err e)
mark_consumed_refuses b w h = refused b w (mark_consumed b w).0 refl h
