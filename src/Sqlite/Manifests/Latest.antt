-- ===== src/Sqlite/Manifests/Latest.antt =====
-- The row that FindLatestByTrustedComponentID chooses for a component.
use attes_tam.Base.{
  ◌≤◌, ◌≡◌, refl, inl, inr, true, Option, none, some, List, [], ◌∷◌, ◌++◌, Bytes, All, cond, ltb,
  Bool-cases, arith,
}
use attes_tam.Model.{SuitManifest}
use attes_tam.Sqlite.Manifests.{is_for, better, latest_from, latest_of}

-- What an optional best row satisfies.
abbrev pub Holds : (SuitManifest → Type 0) → Option SuitManifest → Type 0
Holds P none = Unit
Holds P (some m) = P m

better-Holds :
    (P : SuitManifest → Type 0) (best : Option SuitManifest) (m : SuitManifest)
    → Holds P best
    → P m
    → Holds P (better best m)
better-Holds P none m h p = p
better-Holds P (some b) m h p = elim (Bool-cases (ltb m.sequence_number b.sequence_number)) [
  | inl e ↦ rw e h
  | inr e ↦ rw e p
]

-- One step of the scan.
abbrev pub next_best : Bytes → Option SuitManifest → SuitManifest → Option SuitManifest
next_best c best m = cond (is_for c m) (better best m) best

next_best-Holds :
    (P : SuitManifest → Type 0) (c : Bytes) (best : Option SuitManifest) (m : SuitManifest)
    → Holds P best
    → (is_for c m ≡ true → P m)
    → Holds P (next_best c best m)
next_best-Holds P c best m h p = elim (Bool-cases (is_for c m)) [
  | inl e ↦ rw e (better-Holds P best m h (p e))
  | inr e ↦ rw e h
]

latest_from-Holds :
    (P : SuitManifest → Type 0) (c : Bytes) (best : Option SuitManifest) (rows : List SuitManifest)
    → Holds P best
    → All (λ m. is_for c m ≡ true → P m) rows
    → Holds P (latest_from c best rows)
unfolding latest_from
latest_from-Holds P c best [] h k = h
latest_from-Holds P c best (m ∷ rows) h k =
    latest_from-Holds P c (next_best c best m) rows (next_best-Holds P c best m h k.0) k.1

-- What every row for the component satisfies, its latest row does.
pub latest_of-Holds :
    (P : SuitManifest → Type 0) (c : Bytes) (rows : List SuitManifest)
    → All (λ m. is_for c m ≡ true → P m) rows
    → Holds P (latest_of c rows)
unfolding latest_of
latest_of-Holds P c rows k = latest_from-Holds P c none rows tt k

-- `m` does not exceed the best row, if there is one.
abbrev pub Tops : Option SuitManifest → SuitManifest → Type 0
Tops none m = ⊥
Tops (some b) m = m.sequence_number ≤ b.sequence_number

better-Tops : (best : Option SuitManifest) (m : SuitManifest) → Tops (better best m) m
better-Tops none m = omega arith
better-Tops (some b) m = ground arith

better-Tops_old :
    (best : Option SuitManifest) (m n : SuitManifest) → Tops best n → Tops (better best m) n
better-Tops_old none m n h = absurd h
better-Tops_old (some b) m n h = ground arith

next_best-Tops :
    (c : Bytes) (best : Option SuitManifest) (m n : SuitManifest)
    → Tops best n
    → Tops (next_best c best m) n
next_best-Tops c best m n h = elim (Bool-cases (is_for c m)) [
  | inl e ↦ rw e (better-Tops_old best m n h)
  | inr e ↦ rw e h
]

latest_from-Tops_old :
    (c : Bytes) (best : Option SuitManifest) (rows : List SuitManifest) (n : SuitManifest)
    → Tops best n
    → Tops (latest_from c best rows) n
unfolding latest_from
latest_from-Tops_old c best [] n h = h
latest_from-Tops_old c best (m ∷ rows) n h =
    latest_from-Tops_old c (next_best c best m) rows n (next_best-Tops c best m n h)

latest_from-Tops :
    (c : Bytes) (best : Option SuitManifest) (rows : List SuitManifest)
    → All (λ m. is_for c m ≡ true → Tops (latest_from c best rows) m) rows
unfolding latest_from
latest_from-Tops c best [] = tt
latest_from-Tops c best (m ∷ rows) = (
  λ e. latest_from-Tops_old c (next_best c best m) rows m (rw e (better-Tops best m)),
  latest_from-Tops c (next_best c best m) rows,
)

-- Every row for the component is topped by its latest row.
pub latest_of-Tops :
    (c : Bytes) (rows : List SuitManifest)
    → All (λ m. is_for c m ≡ true → Tops (latest_of c rows) m) rows
unfolding latest_of
latest_of-Tops c rows = latest_from-Tops c none rows

latest_from-append :
    (c : Bytes) (best : Option SuitManifest) (rows : List SuitManifest) (n : SuitManifest)
    → latest_from c best (rows ++ n ∷ []) ≡ next_best c (latest_from c best rows) n
unfolding latest_from
latest_from-append c best [] n = refl
latest_from-append c best (m ∷ rows) n = latest_from-append c (next_best c best m) rows n

-- A row that is added is the latest of its component unless a row there has a larger number, and
-- it is nothing to the other components.
pub latest_of-append :
    (c : Bytes) (rows : List SuitManifest) (n : SuitManifest)
    → latest_of c (rows ++ n ∷ []) ≡ next_best c (latest_of c rows) n
unfolding latest_of
latest_of-append c rows n = latest_from-append c none rows n
