-- ===== src/Sqlite/Tokens/Spent.antt =====
-- The consumed tokens of the table (internal/infra/sqlite/token_repo.go).
use attes_tam.Base.{
  ◌≡◌, refl, ap, subst, sym, ◌∙◌, true, List, [], ◌∷◌, Bytes, bytes_eq, bytes_eq→eq, any,
  any-append, arith,
}
use attes_tam.Model.{Error, other, Token, Table, Db}
use attes_tam.Exec.{Result, ok, err, World, guard, statement}
use attes_tam.Exec.Gives.{Gives, Gives-bind, Gives-statement, Gives-guard}
use attes_tam.Sqlite.Spent
use attes_tam.Sqlite.Spent.{IsConsumable, IsSpentIn-consumed, consumed-IsSpentIn}
use attes_tam.Sqlite.Tokens.{
  token_is, token_is_fresh, insert_token, consume, consume_rows, mark_consumed,
}

-- Some row has the token `b`, and none has it unconsumed.
abbrev pub IsSpentIn : Bytes → Table Token → Type 0
IsSpentIn b t = Spent.IsSpentIn token_is token_is_fresh b t

abbrev pub IsSpent : Bytes → Db → Type 0
IsSpent b d = IsSpentIn b d.tokens

rows-IsConsumable : IsConsumable token_is token_is_fresh consume
rows-IsConsumable = record {
  keeps_bytes = λ b r. refl;
  is_stale = λ b r. ground arith;
  is_present = λ b r h. ground arith;
}

any-token_is :
    (b c : Bytes) (rows : List Token)
    → bytes_eq b c ≡ true
    → any (token_is b) rows ≡ any (token_is c) rows
any-token_is b c rows h = ap (λ x. any (token_is x) rows) (bytes_eq→eq b c h)

pub insert_token-IsSpent :
    (b : Bytes) (t : Token) (d : Db) → IsSpent b d → IsSpent b (insert_token t d).1
unfolding insert_token any
insert_token-IsSpent b t d h = record {
  present = ground (
    arith,
    h.present,
    any-append (token_is b) d.tokens.rows (record t { id = d.tokens.next_id } ∷ []),
  );
  stale = ground (
    arith,
    h.stale,
    h.present,
    any-append (token_is_fresh b) d.tokens.rows (record t { id = d.tokens.next_id } ∷ []),
    any-token_is t.token b d.tokens.rows,
  );
}

pub consume_rows-IsSpent : (b c : Bytes) (d : Db) → IsSpent b d → IsSpent b (consume_rows c d).1
unfolding consume_rows
consume_rows-IsSpent b c d h = IsSpentIn-consumed rows-IsConsumable b c d.tokens h

-- A call that marks a token as consumed found it unconsumed and did only that, whatever fails on
-- the way.
pub mark_consumed-Gives :
    (b : Bytes) (d₀ : Db)
    → Gives
        (λ d. d ≡ d₀)
        (mark_consumed b)
        (λ _ d. (any (token_is_fresh b) d₀.tokens.rows ≡ true) × (d ≡ (consume_rows b d₀).1))
unfolding mark_consumed consume_rows
mark_consumed-Gives b d₀ =
    Gives-bind
      (λ affected d.
        (affected ≡ any (token_is_fresh b) d₀.tokens.rows) × (d ≡ (consume_rows b d₀).1))
      (statement (consume_rows b)) (λ affected. guard affected other)
      (Gives-statement (consume_rows b) λ d a p e. ground arith)
      λ affected. Gives-guard affected other λ d p e. (sym p.0 ∙ e, p.1)

-- A call that marks a token as consumed leaves it spent.
pub mark_consumed_spends :
    (b : Bytes) (w : World) → (mark_consumed b w).0 ≡ ok tt → IsSpent b (mark_consumed b w).1.db
unfolding consume_rows
mark_consumed_spends b w e =
    let (fresh, same) = (mark_consumed-Gives b w.db).give w tt refl e in
    subst (λ d. IsSpent b d) (sym same) (consumed-IsSpentIn rows-IsConsumable b w.db.tokens fresh)

refused :
    (b : Bytes) (w : World) (r : Result (Unit {0}))
    → (mark_consumed b w).0 ≡ r
    → IsSpent b w.db
    → (e : Error) × (r ≡ err e)
refused b w (ok tt) q h =
    let (fresh, same) = (mark_consumed-Gives b w.db).give w tt refl q in cc (fresh, h.stale)
refused b w (err e) q h = (e, refl)

-- A spent token cannot be consumed.
pub mark_consumed_refuses :
    (b : Bytes) (w : World) → IsSpent b w.db → (e : Error) × ((mark_consumed b w).0 ≡ err e)
mark_consumed_refuses b w h = refused b w (mark_consumed b w).0 refl h
