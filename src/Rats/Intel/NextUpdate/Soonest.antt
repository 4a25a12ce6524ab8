-- ===== src/Rats/Intel/NextUpdate/Soonest.antt =====
-- The variable `nearest` of intelQVLQuoteCollateralNextUpdate as an optional time
-- (internal/infra/rats/intel_qvl_pcs.go).
use attes_tam.Base.{
  ◌≡◌, ◌≢◌, refl, ap, subst, ◌++◌, ◌∙◌, inl, inr, Bool-cases, Option, none, some, List, [], ◌∷◌,
  Bytes, All, ltb, ◌==◌, arith, if◌then◌else◌,
}
use attes_tam.Model.{Time}
use attes_tam.Exec.{Result, ok, err}
use attes_tam.Rats.Results.{◌>>=◌, >>=-eq-ok}
use attes_tam.Exec.{ok-injective}
use attes_tam.Rats.Intel.NextUpdate.{nearer, if_not_zero, nearest_of, earlier}

abbrev pub NotZero : Option Time → Type 0
NotZero none = Unit
NotZero (some t) = t ≢ 0

-- The least of a time and the times that are given.
abbrev pub earliest : Time → List (Option Time) → Time
earliest t [] = t
earliest t (next ∷ others) = earliest (earlier t next) others

-- What the variable `nearest` stands for.
abbrev pub sooner : Option Time → Option Time → Option Time
sooner none o = o
sooner (some t) none = some t
sooner (some t) (some u) = some (if ltb u t then u else t)

abbrev pub or_zero : Option Time → Time
or_zero none = 0
or_zero (some t) = t

sooner-NotZero : (m o : Option Time) → NotZero m → NotZero o → NotZero (sooner m o)
sooner-NotZero none o h k = k
sooner-NotZero (some t) none h k = h
sooner-NotZero (some t) (some u) h k = λ e. ground arith

nearer-sooner :
    (m o : Option Time) → NotZero m → NotZero o → nearer (or_zero m) o ≡ or_zero (sooner m o)
nearer-sooner none none h k = refl
nearer-sooner none (some u) h k = refl
nearer-sooner (some t) none h k = refl
nearer-sooner (some t) (some u) h k = ground arith

pub if_not_zero-NotZero : (t : Time) → NotZero (if_not_zero t)
if_not_zero-NotZero t = elim (Bool-cases (t == 0)) [
  | inl e ↦ rw e tt
  | inr e ↦ rw e (λ z. ground arith)
]

pub if_not_zero-or_zero : (m : Option Time) → NotZero m → if_not_zero (or_zero m) ≡ m
if_not_zero-or_zero none h = refl
if_not_zero-or_zero (some t) h = ground arith

earlier-sooner : (c : Time) (m o : Option Time) → earlier c (sooner m o) ≡ earlier (earlier c m) o
earlier-sooner c none o = refl
earlier-sooner c (some t) none = refl
earlier-sooner c (some t) (some u) = ground arith

-- The reading of several payloads, each of which may fail.
abbrev pub read_all : (Bytes → Result (Option Time)) → List Bytes → Result (List (Option Time))
read_all read [] = ok []
read_all read (raw ∷ payloads) = do
  next ← read raw
  others ← read_all read payloads
  ok (next ∷ others)

abbrev pub soonest : Option Time → List (Option Time) → Option Time
soonest m [] = m
soonest m (o ∷ os) = soonest (sooner m o) os

-- The reader returns no zero time for the payload.
abbrev pub Never : (Bytes → Result (Option Time)) → Bytes → Type 0
Never read raw = (o : Option Time) → read raw ≡ ok o → NotZero o

pub nearest_of-soonest :
    (read : Bytes → Result (Option Time)) (m : Option Time) (payloads : List Bytes)
    → All (Never read) payloads
    → NotZero m
    → nearest_of read (or_zero m) payloads
      ≡ (read_all read payloads >>= λ os. ok (or_zero (soonest m os)))
unfolding nearest_of
nearest_of-soonest read m [] n h = refl
nearest_of-soonest read m (raw ∷ payloads) n h =
    step (read raw) refl (λ o k. nearest_of-soonest read (sooner m o) payloads n.1 k)
  where
    gathered :
        (o : Option Time) (r : Result (List (Option Time)))
        → (r >>= λ os. ok (or_zero (soonest (sooner m o) os)))
          ≡ ((r >>= λ os. ok (o ∷ os)) >>= λ os. ok (or_zero (soonest m os)))
    gathered o (ok os) = refl
    gathered o (err e) = refl

    step :
        (r : Result (Option Time))
        → read raw ≡ r
        → ((o : Option Time)
            → NotZero (sooner m o)
            → nearest_of read (or_zero (sooner m o)) payloads
              ≡ (read_all read payloads >>= λ os. ok (or_zero (soonest (sooner m o) os))))
        → (r >>= λ next. nearest_of read (nearer (or_zero m) next) payloads) ≡ (
            (r >>= λ next. read_all read payloads >>= λ os. ok (next ∷ os)) >>= λ os.
            ok (or_zero (soonest m os)))
    step (err e) q again = refl
    step (ok o) q again =
        rw (nearer-sooner m o h (n.0 o q))
          (again o (sooner-NotZero m o h (n.0 o q)) ∙ gathered o (read_all read payloads))

pub read_all-NotZero :
    (read : Bytes → Result (Option Time)) (m : Option Time) (payloads : List Bytes)
    (os : List (Option Time))
    → All (Never read) payloads
    → NotZero m
    → read_all read payloads ≡ ok os
    → NotZero (soonest m os)
read_all-NotZero read m [] os n h e = subst (λ x. NotZero (soonest m x)) (ok-injective [] os e) h
read_all-NotZero read m (raw ∷ payloads) os n h e =
    let (o, (q, rest)) = >>=-eq-ok (read raw) _ os e in
    let (others, (q', last)) = >>=-eq-ok (read_all read payloads) _ os rest in
    subst (λ x. NotZero (soonest m x)) (ok-injective (o ∷ others) os last)
      (read_all-NotZero read (sooner m o) payloads others n.1 (sooner-NotZero m o h (n.0 o q)) q')

pub earliest-soonest :
    (c : Time) (m : Option Time) (os : List (Option Time))
    → earlier c (soonest m os) ≡ earliest (earlier c m) os
earliest-soonest c m [] = refl
earliest-soonest c m (o ∷ os) =
    earliest-soonest c (sooner m o) os ∙ ap (λ t. earliest t os) (earlier-sooner c m o)

pub earliest-append :
    (c : Time) (os js : List (Option Time)) → earliest c (os ++ js) ≡ earliest (earliest c os) js
earliest-append c [] js = refl
earliest-append c (o ∷ os) js = earliest-append (earlier c o) os js
