-- ===== src/Exec.antt =====
-- How Go code with errors, a database, a clock and crypto/rand runs: actions on a `World`.
pub mod Keeps
pub mod Gives
pub mod Atomic
pub mod Tells
use attes_tam.Base.{◌≡◌, ap, Bool, true, false, Option, none, some, List, [], ◌∷◌, Bytes}
use attes_tam.Model.{Error, storage, Db, Time}

pub data Result (A : Type 0) : Type 0 where
  ok : A → Result A
  err : Error → Result A

pub ok-injective : {A : Type 0} (a b : A) → ok a ≡ ok b → a ≡ b
ok-injective {A} a b e = ap either e
  where
    either : Result A → A
    either (ok x) = x
    either (err _) = a

-- `random` is what crypto/rand will deliver, and fails when it is used up. `faults` says of the
-- next statements whether the driver will fail on them; past its end no statement fails.
pub record World : Type 0 where
  pub db : Db
  pub now : Time
  pub random : List Bytes
  pub faults : List Bool

-- What was written before an error stays written.
abbrev pub Exec : Type 0 → Type 0
Exec A = World → Result A × World

module _ {A : Type 0} where
  unfoldable pub pure : A → Exec A
  pure a w = (ok a, w)

  unfoldable pub raise : Error → Exec A
  raise e w = (err e, w)

  unfoldable pub lift : Result A → Exec A
  lift r w = (r, w)

  -- A call whose error the caller looks at.
  unfoldable pub attempt : Exec A → Exec (Result A)
  attempt m w = let (r, v) = m w in (ok r, v)

  unfoldable pub run_statement : List Bool → (Db → Result A × Db) → Exec A
  run_statement [] f w = let (r, d) = f w.db in (r, record w { db = d })
  run_statement (true ∷ fs) f w = (err storage, record w { faults = fs })
  run_statement (false ∷ fs) f w = let (r, d) = f w.db in (r, record w { db = d; faults = fs })

  -- One SQL statement: it fails and changes nothing, or runs whole.
  unfoldable pub statement : (Db → Result A × Db) → Exec A
  unfolding run_statement
  statement f w = run_statement w.faults f w

  -- A statement that only reads.
  unfoldable pub query : (Db → A) → Exec A
  query f = statement (λ d. (ok (f d), d))

-- `if !b { return e }`
unfoldable pub guard : Bool → Error → Exec Unit
guard true e = pure tt
guard false e = raise e

rest_of : List Bytes → List Bytes
rest_of [] = []
rest_of (_ ∷ rest) = rest

-- An output of crypto/rand is used up.
unfoldable pub spend_random : Exec Unit
unfolding rest_of
spend_random w = (ok tt, record w { random = rest_of w.random })

unfoldable pub time_now : Exec Time
time_now w = (ok w.now, w)

module _ {A B : Type 0} where
  -- `if x != nil { … }`
  unfoldable pub if_some : Option A → (A → Exec B) → Exec B → Exec B
  if_some none f m = m
  if_some (some a) f m = f a

  -- `if err != nil { … }`
  unfoldable pub if_ok : Result A → (A → Exec B) → (Error → Exec B) → Exec B
  if_ok (ok a) f g = f a
  if_ok (err e) f g = g e

  abbrev pub continue : Result A → (A → Exec B) → Exec B
  continue (ok a) f w = f a w
  continue (err e) f w = (err e, w)

  infixl 5 ◌>>=◌ ◌>>◌
  unfoldable pub ◌>>=◌ : Exec A → (A → Exec B) → Exec B
  ◌>>=◌ m f w = let (r, v) = m w in continue r f v

  abbrev pub ◌>>◌ : Exec A → Exec B → Exec B
  m >> n = m >>= λ _. n

-- BeginTx or Commit: the driver may fail on them as on a statement.
unfoldable pub boundary : Exec Unit
boundary = statement (λ d. (ok tt, d))

module _ {A : Type 0} where
  roll_back : Db → Result A × World → Result A × World
  roll_back d (ok a, w) = (ok a, w)
  roll_back d (err e, w) = (err e, record w { db = d })

  -- BeginTx, the statements, Commit.
  unfoldable pub begin_and_commit : Exec A → Exec A
  unfolding boundary
  begin_and_commit m = do boundary; a ← m; boundary; pure a

  -- An error of any of them rolls back.
  unfoldable pub transaction : Exec A → Exec A
  unfolding roll_back begin_and_commit
  transaction m w = roll_back w.db (begin_and_commit m w)
