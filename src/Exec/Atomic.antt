-- ===== src/Exec/Atomic.antt =====
-- Calls that either succeed, with a known effect, or fail and leave the database as it was.
use attes_tam.Base.{
  ◌≡◌, refl, sym, ap, subst, Bool, true, false, Option, none, some, List, [], ◌∷◌, if◌then◌else◌,
}
use attes_tam.Model.{Error, Db}
use attes_tam.Exec.{
  Result, ok, err, World, Exec, pure, raise, attempt, run_statement, statement, query, time_now,
  if_some, if_ok, continue, ◌>>=◌, begin_and_commit, roll_back, transaction,
}
use attes_tam.Exec.Keeps.{Keeps}
use attes_tam.Exec.Gives.{Gives, Gives-begin_and_commit}

-- What a run from `d₀` may end in.
abbrev pub Ending : {A : Type 0} → Db → (A → Db → Type 0) → Result A → Db → Type 0
Ending d₀ Q (ok a) d = Q a d
Ending d₀ Q (err e) d = d ≡ d₀

pub record Atomic {A : Type 0} (d₀ : Db) (m : Exec A) (Q : A → Db → Type 0) : Type 0 where
  pub ends : (w : World) → w.db ≡ d₀ → Ending d₀ Q (m w).0 (m w).1.db

-- A call that reads: it changes nothing, and its result has `C`.
abbrev pub Reads : {A : Type 0} → Db → Exec A → (A → Type 0) → Type 0
Reads d₀ m C = Atomic d₀ m (λ a d. C a × (d ≡ d₀))

module _ {A : Type 0} (d₀ : Db) (Q : A → Db → Type 0) where
  run_statement-ends :
      (fs : List Bool) (f : Db → Result A × Db) (w : World)
      → w.db ≡ d₀
      → Ending d₀ Q (f d₀).0 (f d₀).1
      → Ending d₀ Q (run_statement fs f w).0 (run_statement fs f w).1.db
  unfolding run_statement
  run_statement-ends [] f w e h = subst (λ d. Ending d₀ Q (f d).0 (f d).1) (sym e) h
  run_statement-ends (true ∷ fs) f w e h = e
  run_statement-ends (false ∷ fs) f w e h = subst (λ d. Ending d₀ Q (f d).0 (f d).1) (sym e) h

  roll_back-ends :
      (r : Result A) (w : World) (d : Db)
      → d ≡ d₀
      → ((a : A) → r ≡ ok a → Q a w.db)
      → Ending d₀ Q (roll_back d (r, w)).0 (roll_back d (r, w)).1.db
  unfolding roll_back
  roll_back-ends (ok a) w d e k = k a refl
  roll_back-ends (err x) w d e k = e

  ending_gives : (r : Result A) (d : Db) (a : A) → Ending d₀ Q r d → r ≡ ok a → Q a d
  ending_gives (ok b) d a h e = subst (λ x. Q x d) (injective e) h
    where
      content : Result A → A
      content (ok x) = x
      content (err _) = a

      injective : {b : A} → ok b ≡ ok a → b ≡ a
      injective e = ap content e
  ending_gives (err x) d a h e = cc

module _ {A B : Type 0} (d₀ : Db) (R : B → Db → Type 0) where
  continue-last :
      (Q : A → Db → Type 0) (r : Result A) (f : A → B) (w : World)
      → Ending d₀ Q r w.db
      → ((a : A) (d : Db) → Q a d → R (f a) d)
      → Ending d₀ R (continue r (λ a. pure (f a)) w).0 (continue r (λ a. pure (f a)) w).1.db
  unfolding pure
  continue-last Q (ok a) f w h k = k a w.db h
  continue-last Q (err e) f w h k = h

module _ {A : Type 0} {d₀ : Db} {Q : A → Db → Type 0} where
  pub Atomic-pure : (a : A) → Q a d₀ → Atomic d₀ (pure a) Q
  unfolding pure
  Atomic-pure a q = record { ends = λ w e. subst (λ d. Q a d) (sym e) q }

  pub Atomic-raise : (e : Error) → Atomic d₀ (raise e) Q
  unfolding raise
  Atomic-raise e = record { ends = λ w h. h }

  pub Atomic-statement :
      (f : Db → Result A × Db) → Ending d₀ Q (f d₀).0 (f d₀).1 → Atomic d₀ (statement f) Q
  unfolding statement
  Atomic-statement f h = record { ends = λ w e. run_statement-ends d₀ Q w.faults f w e h }

  pub Atomic-if :
      (b : Bool) (m n : Exec A)
      → (b ≡ true → Atomic d₀ m Q)
      → (b ≡ false → Atomic d₀ n Q)
      → Atomic d₀ (if b then m else n) Q
  Atomic-if true m n km kn = km refl
  Atomic-if false m n km kn = kn refl

  -- A transaction is atomic, whatever its statements are.
  pub Atomic-transaction : (m : Exec A) → Gives (λ d. d ≡ d₀) m Q → Atomic d₀ (transaction m) Q
  unfolding transaction
  Atomic-transaction m g = record {
    ends = λ w e.
        roll_back-ends d₀ Q (begin_and_commit m w).0 (begin_and_commit m w).1 w.db e
          (λ a r. (Gives-begin_and_commit m g).give w a e r);
  }

  pub Atomic-Gives : {m : Exec A} → Atomic d₀ m Q → Gives (λ d. d ≡ d₀) m Q
  Atomic-Gives {m} k = record {
    give = λ w a h e. ending_gives d₀ Q (m w).0 (m w).1.db a (k.ends w h) e;
  }

pub Reads-query : {A : Type 0} {d₀ : Db} (f : Db → A) → Reads d₀ (query f) (λ a. a ≡ f d₀)
unfolding query
Reads-query f = Atomic-statement _ (refl, refl)

pub Reads-time_now : {d₀ : Db} → Reads d₀ time_now (λ _. Unit {0})
unfolding time_now
Reads-time_now = record { ends = λ w e. (tt, e) }

-- An action that, from every database, ends as `P` asks keeps `P`.
pub Atomic-Keeps :
    {A : Type 0} {P : Db → Type 0} {m : Exec A} (Q : Db → A → Db → Type 0)
    → ((d : Db) → Atomic d m (Q d))
    → ((d e : Db) (a : A) → P d → Q d a e → P e)
    → Keeps P m
Atomic-Keeps {A} {P} {m} Q k use_it = record {
  keep = λ w h. kept w.db (m w).0 (m w).1.db ((k w.db).ends w refl) h;
}
  where
    kept : (d : Db) (r : Result A) (e : Db) → Ending d (Q d) r e → P d → P e
    kept d (ok a) e q h = use_it d e a h q
    kept d (err x) e q h = subst P (sym q) h

Ending-weaken :
    {A : Type 0} (d₀ : Db) (Q R : A → Db → Type 0) (r : Result A) (d : Db)
    → ((a : A) (d : Db) → Q a d → R a d)
    → Ending d₀ Q r d
    → Ending d₀ R r d
Ending-weaken d₀ Q R (ok a) d k h = k a d h
Ending-weaken d₀ Q R (err e) d k h = h

-- A success that means more than is asked.
pub Atomic-weaken :
    {A : Type 0} {d₀ : Db} {m : Exec A} (Q : A → Db → Type 0) {R : A → Db → Type 0}
    → Atomic d₀ m Q
    → ((a : A) (d : Db) → Q a d → R a d)
    → Atomic d₀ m R
Atomic-weaken {d₀} {m} Q {R} h k = record {
  ends = λ w e. Ending-weaken d₀ Q R (m w).0 (m w).1.db k (h.ends w e);
}

module _ {A B : Type 0} {d₀ : Db} {R : B → Db → Type 0} where
  pub Atomic-if_some :
      (o : Option A) (f : A → Exec B) (m : Exec B)
      → ((a : A) → o ≡ some a → Atomic d₀ (f a) R)
      → (o ≡ none → Atomic d₀ m R)
      → Atomic d₀ (if_some o f m) R
  unfolding if_some
  Atomic-if_some none f m kf km = km refl
  Atomic-if_some (some a) f m kf km = kf a refl

  pub Atomic-if_ok :
      (r : Result A) (f : A → Exec B) (g : Error → Exec B)
      → ((a : A) → r ≡ ok a → Atomic d₀ (f a) R)
      → ((e : Error) → r ≡ err e → Atomic d₀ (g e) R)
      → Atomic d₀ (if_ok r f g) R
  unfolding if_ok
  Atomic-if_ok (ok a) f g kf kg = kf a refl
  Atomic-if_ok (err e) f g kf kg = kg e refl

  continue-ends :
      (C : A → Type 0) (r : Result A) (f : A → Exec B) (w : World)
      → Ending d₀ (λ a d. C a × (d ≡ d₀)) r w.db
      → ((a : A) → C a → Atomic d₀ (f a) R)
      → Ending d₀ R (continue r f w).0 (continue r f w).1.db
  continue-ends C (ok a) f w h k = (k a h.0).ends w h.1
  continue-ends C (err e) f w h k = h

  -- A call that reads, and then one that is atomic.
  pub Reads-bind :
      (C : A → Type 0) (m : Exec A) (f : A → Exec B)
      → Reads d₀ m C
      → ((a : A) → C a → Atomic d₀ (f a) R)
      → Atomic d₀ (m >>= f) R
  unfolding ◌>>=◌
  Reads-bind C m f km kf = record {
    ends = λ w e. continue-ends C (m w).0 f (m w).1 (km.ends w e) kf;
  }

  -- An atomic call whose result is made into another.
  pub Atomic-last :
      (Q : A → Db → Type 0) (m : Exec A) (f : A → B)
      → Atomic d₀ m Q
      → ((a : A) (d : Db) → Q a d → R (f a) d)
      → Atomic d₀ (m >>= λ a. pure (f a)) R
  unfolding ◌>>=◌
  Atomic-last Q m f km k = record {
    ends = λ w e. continue-last d₀ R Q (m w).0 f (m w).1 (km.ends w e) k;
  }

-- A read whose error is looked at.
pub Reads-attempt :
    {A : Type 0} {d₀ : Db} {C : A → Type 0} {m : Exec A}
    → Reads d₀ m C
    → Reads d₀ (attempt m) (λ r. (a : A) → r ≡ ok a → C a)
unfolding attempt
Reads-attempt {A} {d₀} {C} {m} k = record {
  ends = λ w e. (
    λ a r. (told (m w).0 (m w).1.db (k.ends w e)).0 a r,
    (told (m w).0 (m w).1.db (k.ends w e)).1,
  );
}
  where
    told :
        (r : Result A) (d : Db)
        → Ending d₀ (λ a d. C a × (d ≡ d₀)) r d
        → ((a : A) → r ≡ ok a → C a) × (d ≡ d₀)
    told (ok b) d h = (λ a e. subst C (injective a e) h.0, h.1)
      where
        content : A → Result A → A
        content a (ok x) = x
        content a (err _) = a

        injective : (a : A) → ok b ≡ ok a → b ≡ a
        injective a e = ap (content a) e
    told (err x) d h = (λ a e. cc, h)
