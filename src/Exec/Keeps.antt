-- ===== src/Exec/Keeps.antt =====
-- Invariants of actions: one rule for each way in which an action is put together.
use attes_tam.Base.{Bool, true, false, Option, none, some, List, [], ◌∷◌, if◌then◌else◌}
use attes_tam.Model.{Error, Db}
use attes_tam.Exec.{
  Result, ok, err, World, Exec, pure, raise, guard, lift, attempt, run_statement, statement, query,
  time_now, spend_random, if_some, if_ok, ◌>>=◌, boundary, begin_and_commit, roll_back, transaction,
}

-- Whatever the action returns, and whichever statements fail, `P` holds of the database after it
-- if it held before.
pub record Keeps {A : Type 0} (P : Db → Type 0) (m : Exec A) : Type 0 where
  pub keep : (w : World) → P w.db → P (m w).1.db

roll_back-keeps :
    {A : Type 0} (P : Db → Type 0) (d : Db) (r : Result A) (w : World)
    → P d
    → P w.db
    → P (roll_back d (r, w)).1.db
unfolding roll_back
roll_back-keeps P d (ok a) w h k = k
roll_back-keeps P d (err e) w h k = h

module _ {A : Type 0} {P : Db → Type 0} where
  pub Keeps-pure : (a : A) → Keeps P (pure a)
  unfolding pure
  Keeps-pure a = record { keep = λ w h. h }

  pub Keeps-raise : (e : Error) → Keeps P (raise {A = A} e)
  unfolding raise
  Keeps-raise e = record { keep = λ w h. h }

  pub Keeps-lift : (r : Result A) → Keeps P (lift r)
  unfolding lift
  Keeps-lift r = record { keep = λ w h. h }

  pub Keeps-attempt : (m : Exec A) → Keeps P m → Keeps P (attempt m)
  unfolding attempt
  Keeps-attempt m k = record { keep = λ w h. k.keep w h }

  run_statement-keeps :
      (fs : List Bool) (f : Db → Result A × Db) (w : World)
      → ((d : Db) → P d → P (f d).1)
      → P w.db
      → P (run_statement fs f w).1.db
  unfolding run_statement
  run_statement-keeps [] f w k h = k w.db h
  run_statement-keeps (true ∷ fs) f w k h = h
  run_statement-keeps (false ∷ fs) f w k h = k w.db h

  pub Keeps-statement :
      (f : Db → Result A × Db) → ((d : Db) → P d → P (f d).1) → Keeps P (statement f)
  unfolding statement
  Keeps-statement f k = record { keep = λ w h. run_statement-keeps w.faults f w k h }

  pub Keeps-query : (f : Db → A) → Keeps P (query f)
  unfolding query
  Keeps-query f = Keeps-statement (λ d. (ok (f d), d)) (λ d h. h)

  pub Keeps-if : (b : Bool) (m n : Exec A) → Keeps P m → Keeps P n → Keeps P (if b then m else n)
  Keeps-if true m n km kn = km
  Keeps-if false m n km kn = kn

pub Keeps-guard : {P : Db → Type 0} (b : Bool) (e : Error) → Keeps P (guard b e)
unfolding guard
Keeps-guard true e = Keeps-pure tt
Keeps-guard false e = Keeps-raise e

pub Keeps-spend_random : {P : Db → Type 0} → Keeps P spend_random
unfolding spend_random
Keeps-spend_random = record { keep = λ w h. h }

pub Keeps-time_now : {P : Db → Type 0} → Keeps P time_now
unfolding time_now
Keeps-time_now = record { keep = λ w h. h }

module _ {A B : Type 0} {P : Db → Type 0} where
  pub Keeps-if_some :
      (o : Option A) (f : A → Exec B) (m : Exec B)
      → ((a : A) → Keeps P (f a))
      → Keeps P m
      → Keeps P (if_some o f m)
  unfolding if_some
  Keeps-if_some none f m kf km = km
  Keeps-if_some (some a) f m kf km = kf a

  pub Keeps-if_ok :
      (r : Result A) (f : A → Exec B) (g : Error → Exec B)
      → ((a : A) → Keeps P (f a))
      → ((e : Error) → Keeps P (g e))
      → Keeps P (if_ok r f g)
  unfolding if_ok
  Keeps-if_ok (ok a) f g kf kg = kf a
  Keeps-if_ok (err e) f g kf kg = kg e

  Keeps-continue :
      (r : Result A) (f : A → Exec B) → ((a : A) → Keeps P (f a)) → Keeps P (lift r >>= f)
  unfolding ◌>>=◌ lift raise
  Keeps-continue (ok a) f k = k a
  Keeps-continue (err e) f k = Keeps-raise e

  pub Keeps-bind :
      (m : Exec A) (f : A → Exec B) → Keeps P m → ((a : A) → Keeps P (f a)) → Keeps P (m >>= f)
  unfolding ◌>>=◌ lift
  Keeps-bind m f km kf = record {
    keep = λ w h. (Keeps-continue (m w).0 f kf).keep (m w).1 (km.keep w h);
  }

pub Keeps-transaction :
    {A : Type 0} {P : Db → Type 0} (m : Exec A) → Keeps P m → Keeps P (transaction m)
unfolding transaction begin_and_commit boundary
Keeps-transaction {A} {P} m k =
    let whole : Keeps P (begin_and_commit m) =
      Keeps-bind _ _ (Keeps-statement _ (λ d h. h)) λ _.
        Keeps-bind m _ k λ a. Keeps-bind _ _ (Keeps-statement _ (λ d h. h)) λ _. Keeps-pure a in
    record {
      keep = λ w h.
          roll_back-keeps P w.db (begin_and_commit m w).0 (begin_and_commit m w).1 h
            (whole.keep w h);
    }

pub ruleset keeps_rules = (
  Keeps-pure, Keeps-raise, Keeps-guard, Keeps-lift, Keeps-attempt, Keeps-query, Keeps-if,
  Keeps-transaction, Keeps-spend_random, Keeps-time_now, Keeps-if_some, Keeps-if_ok, Keeps-bind,
)
