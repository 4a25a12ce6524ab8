-- ===== src/Sqlite/Spent.antt =====
-- Rows that are consumed once: what tokens and challenges share.
use attes_tam.Base.{
  ◌≡◌, refl, ◌∙◌, Bool, true, false, List, [], ◌∷◌, Bytes, any, update_where, arith,
}
use attes_tam.Model.{Table}

-- `holds b` is the WHERE clause for the bytes `b`, and `fresh b` the one that asks for an unconsumed
-- row too.
pub record IsConsumable {R : Type 0} (holds fresh : Bytes → R → Bool) (consume : R → R)
    : Type 0 where
  pub keeps_bytes : (b : Bytes) (r : R) → holds b (consume r) ≡ holds b r
  pub is_stale : (b : Bytes) (r : R) → fresh b (consume r) ≡ false
  pub is_present : (b : Bytes) (r : R) → fresh b r ≡ true → holds b r ≡ true

-- Some row has the bytes `b`, and none has them unconsumed.
pub record IsSpentIn {R : Type 0} (holds fresh : Bytes → R → Bool) (b : Bytes) (t : Table R)
    : Type 0 where
  pub present : any (holds b) t.rows ≡ true
  pub stale : any (fresh b) t.rows ≡ false

module _ {R : Type 0} {holds fresh : Bytes → R → Bool} {consume : R → R}
    (laws : IsConsumable holds fresh consume) where
  any-update_where :
      (b c : Bytes) (rows : List R)
      → any (holds b) (update_where (fresh c) consume rows) ≡ any (holds b) rows
  unfolding any update_where
  any-update_where b c [] = refl
  any-update_where b c (r ∷ rows) = ground (arith, laws.keeps_bytes b r, any-update_where b c rows)

  fresh-update_where :
      (b c : Bytes) (rows : List R)
      → any (fresh b) rows ≡ false
      → any (fresh b) (update_where (fresh c) consume rows) ≡ false
  unfolding any update_where
  fresh-update_where b c [] h = refl
  fresh-update_where b c (r ∷ rows) h =
      ground (arith, laws.is_stale b r, fresh-update_where b c rows)

  fresh-update_where_self :
      (b : Bytes) (rows : List R) → any (fresh b) (update_where (fresh b) consume rows) ≡ false
  unfolding any update_where
  fresh-update_where_self b [] = refl
  fresh-update_where_self b (r ∷ rows) =
      ground (arith, laws.is_stale b r, fresh-update_where_self b rows)

  fresh-present :
      (b : Bytes) (rows : List R) → any (fresh b) rows ≡ true → any (holds b) rows ≡ true
  unfolding any
  fresh-present b [] h = h
  fresh-present b (r ∷ rows) h = ground (arith, laws.is_present b r, fresh-present b rows)

  -- What the UPDATE makes of the table.
  abbrev pub consumed : Bytes → Table R → Table R
  consumed c t = record t { rows = update_where (fresh c) consume t.rows }

  pub IsSpentIn-consumed :
      (b c : Bytes) (t : Table R)
      → IsSpentIn holds fresh b t
      → IsSpentIn holds fresh b (consumed c t)
  IsSpentIn-consumed b c t h = record {
    present = any-update_where b c t.rows ∙ h.present;
    stale = fresh-update_where b c t.rows h.stale;
  }

  pub consumed-IsSpentIn :
      (b : Bytes) (t : Table R)
      → any (fresh b) t.rows ≡ true
      → IsSpentIn holds fresh b (consumed b t)
  consumed-IsSpentIn b t h = record {
    present = any-update_where b b t.rows ∙ fresh-present b t.rows h;
    stale = fresh-update_where_self b t.rows;
  }
