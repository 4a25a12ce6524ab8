-- ===== src/Rats/Results.antt =====
-- A chain of calls that return an error, in internal/infra/rats: the calls that read no database.
use attes_tam.Base.{subst, ◌≡◌, refl, Bool, true, false, Option, none, some}
use attes_tam.Model.{other}
use attes_tam.Exec.{Result, ok, err, ok-injective}

-- `if err != nil { return err }`
infixl 5 ◌>>=◌ ◌>>◌
abbrev pub ◌>>=◌ : {A B : Type 0} → Result A → (A → Result B) → Result B
ok a >>= f = f a
err e >>= f = err e

abbrev pub ◌>>◌ : {A B : Type 0} → Result A → Result B → Result B
m >> n = m >>= λ _. n

-- A call of a library that fails.
abbrev pub required : {A : Type 0} → Option A → Result A
required none = err other
required (some a) = ok a

abbrev pub refuse_if : Bool → Result Unit
refuse_if true = err other
refuse_if false = ok tt

pub >>=-eq-ok :
    {A B : Type 0} (m : Result A) (f : A → Result B) (b : B)
    → (m >>= f) ≡ ok b
    → (a : A) × ((m ≡ ok a) × (f a ≡ ok b))
>>=-eq-ok (ok a) f b h = (a, (refl, h))
>>=-eq-ok (err e) f b h = cc

pub required-eq-ok : {A : Type 0} (o : Option A) (a : A) → required o ≡ ok a → o ≡ some a
required-eq-ok none a h = cc
required-eq-ok (some b) a h = cc

pub refuse_if-eq-ok : (b : Bool) (u : Unit) → refuse_if b ≡ ok u → b ≡ false
refuse_if-eq-ok true u h = cc
refuse_if-eq-ok false u h = refl

-- What a chain returns, if it returns a value.
pub record Yields {A : Type 0} (P : A → Type 0) (r : Result A) : Type 0 where
  pub yields : (a : A) → r ≡ ok a → P a

pub Yields-ok : {A : Type 0} {P : A → Type 0} (a : A) → P a → Yields P (ok a)
Yields-ok {P} a h = record { yields = λ b e. subst P (ok-injective a b e) h }

pub Yields-bind :
    {A B : Type 0} {P : B → Type 0} (m : Result A) (f : A → Result B)
    → ((a : A) → Yields P (f a))
    → Yields P (m >>= f)
Yields-bind (ok a) f k = k a
Yields-bind (err e) f k = record { yields = λ b h. cc }
