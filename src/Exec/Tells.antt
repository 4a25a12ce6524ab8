-- ===== src/Exec/Tells.antt =====
-- Calls that only read: what their result says of the database and the clock they ran on.
use attes_tam.Base.{
  ◌≡◌, refl, sym, ap, subst, Bool, true, false, Option, none, some, List, [], ◌∷◌, if◌then◌else◌,
}
use attes_tam.Model.{Error, Db, Time}
use attes_tam.Exec.Gives.{Gives}
use attes_tam.Exec.{
  Result, ok, err, World, Exec, pure, raise, attempt, run_statement, statement, query, time_now,
  if_some, if_ok, continue, ◌>>=◌,
}

-- What a run on `d` at the time `now` may end in: it changes neither.
abbrev pub Told : {A : Type 0} → Db → Time → (A → Type 0) → Result A → World → Type 0
Told d now Q (ok a) v = Q a × ((v.db ≡ d) × (v.now ≡ now))
Told d now Q (err e) v = (v.db ≡ d) × (v.now ≡ now)

pub record Tells {A : Type 0} (d : Db) (now : Time) (m : Exec A) (Q : A → Type 0) : Type 0 where
  pub tells : (w : World) → w.db ≡ d → w.now ≡ now → Told d now Q (m w).0 (m w).1

Told-query :
    {A : Type 0} (d : Db) (now : Time) (Q : A → Type 0) (faults : List Bool) (f : Db → A)
    (w : World)
    → Q (f d)
    → w.db ≡ d
    → w.now ≡ now
    → Told d now Q
        (run_statement faults (λ x. (ok (f x), x)) w).0
        (run_statement faults (λ x. (ok (f x), x)) w).1
unfolding run_statement
Told-query d now Q [] f w q e n = (subst (λ x. Q (f x)) (sym e) q, (e, n))
Told-query d now Q (true ∷ fs) f w q e n = (e, n)
Told-query d now Q (false ∷ fs) f w q e n = (subst (λ x. Q (f x)) (sym e) q, (e, n))

module _ {A : Type 0} {d : Db} {now : Time} {Q : A → Type 0} where
  pub Tells-pure : (a : A) → Q a → Tells d now (pure a) Q
  unfolding pure
  Tells-pure a q = record { tells = λ w e f. (q, (e, f)) }

  pub Tells-raise : (x : Error) → Tells d now (raise {A = A} x) Q
  unfolding raise
  Tells-raise x = record { tells = λ w e f. (e, f) }

  pub Tells-query : (f : Db → A) → Q (f d) → Tells d now (query f) Q
  unfolding query statement
  Tells-query f q = record { tells = λ w e n. Told-query d now Q w.faults f w q e n }

  pub Tells-if :
      (b : Bool) (m n : Exec A)
      → (b ≡ true → Tells d now m Q)
      → (b ≡ false → Tells d now n Q)
      → Tells d now (if b then m else n) Q
  Tells-if true m n km kn = km refl
  Tells-if false m n km kn = kn refl

pub Tells-time_now : {d : Db} {now : Time} → Tells d now time_now (λ t. t ≡ now)
unfolding time_now
Tells-time_now = record { tells = λ w e n. (n, (e, n)) }

module _ {A B : Type 0} {d : Db} {now : Time} {R : B → Type 0} where
  pub Tells-if_some :
      (o : Option A) (f : A → Exec B) (m : Exec B)
      → ((a : A) → o ≡ some a → Tells d now (f a) R)
      → (o ≡ none → Tells d now m R)
      → Tells d now (if_some o f m) R
  unfolding if_some
  Tells-if_some none f m kf km = km refl
  Tells-if_some (some a) f m kf km = kf a refl

  pub Tells-if_ok :
      (r : Result A) (f : A → Exec B) (g : Error → Exec B)
      → ((a : A) → r ≡ ok a → Tells d now (f a) R)
      → ((e : Error) → r ≡ err e → Tells d now (g e) R)
      → Tells d now (if_ok r f g) R
  unfolding if_ok
  Tells-if_ok (ok a) f g kf kg = kf a refl
  Tells-if_ok (err e) f g kf kg = kg e refl

  Told-continue :
      (C : A → Type 0) (r : Result A) (f : A → Exec B) (w : World)
      → Told d now C r w
      → ((a : A) → C a → Tells d now (f a) R)
      → Told d now R (continue r f w).0 (continue r f w).1
  Told-continue C (ok a) f w h k = (k a h.0).tells w h.1.0 h.1.1
  Told-continue C (err e) f w h k = h

  pub Tells-bind :
      (C : A → Type 0) (m : Exec A) (f : A → Exec B)
      → Tells d now m C
      → ((a : A) → C a → Tells d now (f a) R)
      → Tells d now (m >>= f) R
  unfolding ◌>>=◌
  Tells-bind C m f km kf = record {
    tells = λ w e n. Told-continue C (m w).0 f (m w).1 (km.tells w e n) kf;
  }

Told-content :
    {A : Type 0} (d : Db) (now : Time) (Q : A → Type 0) (r : Result A) (v : World) (a : A)
    → Told d now Q r v
    → r ≡ ok a
    → Q a
Told-content {A} d now Q (ok b) v a h e = subst Q (ap (content a) e) h.0
  where
    content : A → Result A → A
    content c (ok x) = x
    content c (err _) = c
Told-content d now Q (err x) v a h e = cc

Told-still :
    {A : Type 0} (d : Db) (now : Time) (Q : A → Type 0) (r : Result A) (v : World)
    → Told d now Q r v
    → (v.db ≡ d) × (v.now ≡ now)
Told-still d now Q (ok b) v h = h.1
Told-still d now Q (err x) v h = h

-- Of a read whose error is looked at.
pub Tells-attempt :
    {A : Type 0} {d : Db} {now : Time} {Q : A → Type 0} {m : Exec A}
    → Tells d now m Q
    → Tells d now (attempt m) (λ r. (a : A) → r ≡ ok a → Q a)
unfolding attempt
Tells-attempt {A} {d} {now} {Q} {m} k = record {
  tells = λ w e n. (
    λ a r. Told-content d now Q (m w).0 (m w).1 a (k.tells w e n) r,
    Told-still d now Q (m w).0 (m w).1 (k.tells w e n),
  );
}

-- What a result that is no error says.
pub Tells-result :
    {A : Type 0} {Q : A → Type 0} {m : Exec A} (w : World)
    → Tells w.db w.now m Q
    → (a : A) → (m w).0 ≡ ok a
    → Q a
Tells-result {A} {Q} {m} w k a e =
    Told-content w.db w.now Q (m w).0 (m w).1 a (k.tells w refl refl) e

-- A read as a call that succeeds.
pub Tells-Gives :
    {A : Type 0} {d : Db} {Q : A → Type 0} {m : Exec A}
    → ((now : Time) → Tells d now m Q)
    → Gives (λ e. e ≡ d) m (λ a e. Q a × (e ≡ d))
Tells-Gives {A} {d} {Q} {m} k = record {
  give = λ w a same e. (
    Told-content d w.now Q (m w).0 (m w).1 a ((k w.now).tells w same refl) e,
    (Told-still d w.now Q (m w).0 (m w).1 ((k w.now).tells w same refl)).0,
  );
}
