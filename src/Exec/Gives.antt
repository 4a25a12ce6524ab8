-- ===== src/Exec/Gives.antt =====
-- What an action that succeeds has done: a logic of its results, one rule for each way in which
-- an action is put together. A call that fails owes nothing.
use attes_tam.Base.{
  ◌≡◌, refl, ap, subst, ◌∙◌, Bool, true, false, Option, none, some, List, [], ◌∷◌, if◌then◌else◌,
}
use attes_tam.Model.{Error, Db, Time}
use attes_tam.Exec.{
  Result, ok, err, World, Exec, pure, raise, lift, guard, attempt, run_statement, statement, query,
  spend_random, time_now, if_some, if_ok, continue, ◌>>=◌, boundary, begin_and_commit,
}
use attes_tam.Exec.Keeps.{Keeps}

-- From a database with `P`, a run that returns `a` ends in one with `Q a`.
pub record Gives {A : Type 0} (P : Db → Type 0) (m : Exec A) (Q : A → Db → Type 0) : Type 0 where
  pub give : (w : World) (a : A) → P w.db → (m w).0 ≡ ok a → Q a (m w).1.db

run_statement-gives :
    {A : Type 0} (P : Db → Type 0) (Q : A → Db → Type 0) (fs : List Bool) (f : Db → Result A × Db)
    (w : World) (a : A)
    → ((d : Db) (a : A) → P d → (f d).0 ≡ ok a → Q a (f d).1)
    → P w.db
    → (run_statement fs f w).0 ≡ ok a
    → Q a (run_statement fs f w).1.db
unfolding run_statement
run_statement-gives P Q [] f w a k h e = k w.db a h e
run_statement-gives P Q (true ∷ fs) f w a k h e = cc
run_statement-gives P Q (false ∷ fs) f w a k h e = k w.db a h e

continue-gives :
    {A B : Type 0} {R : B → Db → Type 0} (Q : A → Db → Type 0) (r : Result A) (f : A → Exec B)
    (w : World) (b : B)
    → ((a : A) → r ≡ ok a → Q a w.db)
    → ((a : A) → Gives (Q a) (f a) R)
    → (continue r f w).0 ≡ ok b
    → R b (continue r f w).1.db
continue-gives Q (ok a) f w b q k e = (k a).give w b (q a refl) e
continue-gives Q (err x) f w b q k e = cc

module _ {A : Type 0} {P : Db → Type 0} {Q : A → Db → Type 0} where
  pub Gives-pure : (a : A) → ((d : Db) → P d → Q a d) → Gives P (pure a) Q
  unfolding pure
  Gives-pure a k = record { give = λ w b h e. subst (λ c. Q c w.db) (ok-injective e) (k w.db h) }
    where
      ok_or : Result A → A
      ok_or (ok b) = b
      ok_or (err _) = a

      ok-injective : {b : A} → ok a ≡ ok b → a ≡ b
      ok-injective e = ap ok_or e

  pub Gives-raise : (e : Error) → Gives P (raise {A = A} e) Q
  unfolding raise
  Gives-raise e = record { give = λ w a h r. cc }

  pub Gives-lift : (r : Result A) → ((d : Db) (a : A) → P d → r ≡ ok a → Q a d) → Gives P (lift r) Q
  unfolding lift
  Gives-lift r k = record { give = λ w a h e. k w.db a h e }

  pub Gives-statement :
      (f : Db → Result A × Db)
      → ((d : Db) (a : A) → P d → (f d).0 ≡ ok a → Q a (f d).1)
      → Gives P (statement f) Q
  unfolding statement
  Gives-statement f k = record { give = λ w a h e. run_statement-gives P Q w.faults f w a k h e }

  pub Gives-query : (f : Db → A) → ((d : Db) → P d → Q (f d) d) → Gives P (query f) Q
  unfolding query
  Gives-query f k =
      Gives-statement (λ d. (ok (f d), d))
        λ d a h e. subst (λ b. Q b d) (ok-injective d a e) (k d h)
    where
      ok_or : A → Result A → A
      ok_or c (ok b) = b
      ok_or c (err _) = c

      ok-injective : (d : Db) (a : A) → ok (f d) ≡ ok a → f d ≡ a
      ok-injective d a e = ap (ok_or a) e

  pub Gives-if :
      (b : Bool) (m n : Exec A)
      → (b ≡ true → Gives P m Q)
      → (b ≡ false → Gives P n Q)
      → Gives P (if b then m else n) Q
  Gives-if true m n km kn = km refl
  Gives-if false m n km kn = kn refl

-- A part of the precondition that is not about the database is a hypothesis of the action.
pub Gives-fact :
    {A : Type 0} {C : Type 0} {P : Db → Type 0} {Q : A → Db → Type 0} {m : Exec A}
    → (C → Gives P m Q)
    → Gives (λ d. C × P d) m Q
Gives-fact k = record { give = λ w a h e. (k h.0).give w a h.1 e }

pub Gives-given :
    {A : Type 0} {C : Type 0} {Q : A → Db → Type 0} {m : Exec A}
    → (C → Gives (λ _. Unit {0}) m Q)
    → Gives (λ _. C) m Q
Gives-given k = record { give = λ w a h e. (k h).give w a tt e }

pub Gives-weaken :
    {A : Type 0} {P : Db → Type 0} {Q : A → Db → Type 0} (R : A → Db → Type 0) {m : Exec A}
    → Gives P m R
    → ((a : A) (d : Db) → R a d → Q a d)
    → Gives P m Q
Gives-weaken R {m} g k = record { give = λ w a h e. k a (m w).1.db (g.give w a h e) }

pub Gives-spend_random :
    {P : Db → Type 0} {Q : Unit {0} → Db → Type 0}
    → ((d : Db) → P d → Q tt d)
    → Gives P spend_random Q
unfolding spend_random
Gives-spend_random k = record { give = λ w a h r. k w.db h }

pub Gives-time_now :
    {P : Db → Type 0} {Q : Time → Db → Type 0}
    → ((d : Db) (t : Time) → P d → Q t d)
    → Gives P time_now Q
unfolding time_now
Gives-time_now k = record { give = λ w a h r. k w.db a h }

pub Gives-guard :
    {P : Db → Type 0} {Q : Unit {0} → Db → Type 0} (b : Bool) (e : Error)
    → ((d : Db) → P d → b ≡ true → Q tt d)
    → Gives P (guard b e) Q
unfolding guard pure raise
Gives-guard true e k = record { give = λ w a h r. k w.db h refl }
Gives-guard false e k = record { give = λ w a h r. cc }

module _ {A B : Type 0} {P : Db → Type 0} {R : B → Db → Type 0} where
  pub Gives-if_some :
      (o : Option A) (f : A → Exec B) (m : Exec B)
      → ((a : A) → o ≡ some a → Gives P (f a) R)
      → (o ≡ none → Gives P m R)
      → Gives P (if_some o f m) R
  unfolding if_some
  Gives-if_some none f m kf km = km refl
  Gives-if_some (some a) f m kf km = kf a refl

  pub Gives-if_ok :
      (r : Result A) (f : A → Exec B) (g : Error → Exec B)
      → ((a : A) → r ≡ ok a → Gives P (f a) R)
      → ((e : Error) → r ≡ err e → Gives P (g e) R)
      → Gives P (if_ok r f g) R
  unfolding if_ok
  Gives-if_ok (ok a) f g kf kg = kf a refl
  Gives-if_ok (err e) f g kf kg = kg e refl

  pub Gives-bind :
      (Q : A → Db → Type 0) (m : Exec A) (f : A → Exec B)
      → Gives P m Q
      → ((a : A) → Gives (Q a) (f a) R)
      → Gives P (m >>= f) R
  unfolding ◌>>=◌
  Gives-bind Q m f km kf = record {
    give = λ w b h e. continue-gives Q (m w).0 f (m w).1 b (λ a r. km.give w a h r) kf e;
  }

-- BeginTx and Commit around an action.
pub Gives-begin_and_commit :
    {A : Type 0} {P : Db → Type 0} {Q : A → Db → Type 0} (m : Exec A)
    → Gives P m Q
    → Gives P (begin_and_commit m) Q
unfolding begin_and_commit boundary
Gives-begin_and_commit {A} {P} {Q} m k =
    Gives-bind (λ _. P) _ _ (Gives-statement _ (λ d a h e. h))
      λ _. Gives-bind Q m _ k λ a.
        Gives-bind (λ _. Q a) _ _ (Gives-statement _ (λ d b h e. h)) λ _. Gives-pure a (λ d h. h)

ok_result : {A : Type 0} {r : Result A} {x : Result A} → ok r ≡ ok x → r ≡ x
ok_result {A} {r} e = ap (either r) e
  where
    either : Result A → Result (Result A) → Result A
    either d (ok x) = x
    either d (err _) = d

module _ {A : Type 0} {P : Db → Type 0} where
  -- Of a call whose error is looked at, the result says what it did if it is no error.
  pub Gives-attempt :
      {Q : A → Db → Type 0} {m : Exec A}
      → Gives P m Q
      → Gives P (attempt m) (λ r d. (a : A) → r ≡ ok a → Q a d)
  unfolding attempt
  Gives-attempt {m} g = record { give = λ w r h e a q. g.give w a h (ok_result e ∙ q) }

  -- What holds before holds after, if the action keeps it.
  pub Gives-keeps :
      {R : Db → Type 0} {m : Exec A} → Keeps R m → ((d : Db) → P d → R d) → Gives P m (λ _. R)
  Gives-keeps k use_it = record { give = λ w a h e. k.keep w (use_it w.db h) }
