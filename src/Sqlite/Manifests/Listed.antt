-- ===== src/Sqlite/Manifests/Listed.antt =====
-- The rows that FindLatestAll lists (internal/infra/sqlite/suit_manifest_repo.go).
use attes_tam.Base.{
  ℕ, ◌<◌, ◌≤◌, ◌≡◌, refl, sym, ap, subst, some-injective, ◌∙◌, Bool, true, false, ◌&&◌, Option,
  none, some, List, [], ◌∷◌, Bytes, bytes_eq→eq, All, select, select-select, cond, ◌==◌, arith,
}
use attes_tam.Model.{SuitManifest}
use attes_tam.Sqlite.Manifests.{is_for, latest_of, max_sequence_number, latest_rows}
use attes_tam.Sqlite.Manifests.Last.{
  to_list, later, later-none, last, same_component, latest_of-last,
}
use attes_tam.Sqlite.Manifests.Ordered.{Precedes, Ascending}

-- The rows for a component with a number.
abbrev wanted : Bytes → ℕ → SuitManifest → Bool
wanted c n m = is_for c m && m.sequence_number == n

is_listed :
    (c : Bytes) (rows : List SuitManifest) (m : SuitManifest)
    → (is_for c m && m.sequence_number == max_sequence_number m.trusted_component_id rows)
      ≡ wanted c (max_sequence_number c rows) m
is_listed c rows m = either (is_for c m) refl
  where
    either :
        (b : Bool)
        → is_for c m ≡ b
        → (b && m.sequence_number == max_sequence_number m.trusted_component_id rows)
          ≡ (b && m.sequence_number == max_sequence_number c rows)
    either true e =
        ap (λ i. m.sequence_number == max_sequence_number i rows)
          (bytes_eq→eq m.trusted_component_id c e)
    either false e = refl

last-none :
    (c : Bytes) (n : ℕ) (rows : List SuitManifest)
    → last c rows ≡ none
    → (select (wanted c n) rows ≡ []) × (max_sequence_number c rows ≡ 0)
unfolding select max_sequence_number
last-none c n [] h = (refl, refl)
last-none c n (m ∷ rows) h = step (last c rows) (is_for c m) refl refl h (last-none c n rows)
  where
    step :
        (o : Option SuitManifest) (b : Bool)
        → last c rows ≡ o
        → is_for c m ≡ b
        → later o (cond b (some m) none) ≡ none
        → (last c rows ≡ none → (select (wanted c n) rows ≡ []) × (max_sequence_number c rows ≡ 0))
        → (select (wanted c n) (m ∷ rows) ≡ []) × (max_sequence_number c (m ∷ rows) ≡ 0)
    step (some x) b e f g again = cc
    step none true e f g again = cc
    step none false e f g again = rw f (again e)

last-some :
    (c : Bytes) (P : SuitManifest → Type 0) (rows : List SuitManifest) (x : SuitManifest)
    → All P rows
    → last c rows ≡ some x
    → (is_for c x ≡ true) × (P x × (x.sequence_number ≤ max_sequence_number c rows))
unfolding max_sequence_number
last-some c P [] x h e = cc
last-some c P (m ∷ rows) x h e =
    step (last c rows) (is_for c m) refl refl e (last-some c P rows x h.1)
  where
    IsLast : SuitManifest → Type 0
    IsLast y = (is_for c y ≡ true) × (P y × (y.sequence_number ≤ max_sequence_number c (m ∷ rows)))

    step :
        (o : Option SuitManifest) (b : Bool)
        → last c rows ≡ o
        → is_for c m ≡ b
        → later o (cond b (some m) none) ≡ some x
        → (last c rows ≡ some x
            → (is_for c x ≡ true) × (P x × (x.sequence_number ≤ max_sequence_number c rows)))
        → IsLast x
    step (some y) b e f g again = let (i, (p, bound)) = again (e ∙ g) in (i, (p, ground arith))
    step none true e f g again = subst IsLast (some-injective m x g) (f, (h.0, rw f (ground arith)))
    step none false e f g again = cc

module _ (c : Bytes) (m : SuitManifest) (rows : List SuitManifest) where
  -- A row that is not wanted, and does not have the largest number, changes nothing.
  passed :
      (n : ℕ)
      → max_sequence_number c (m ∷ rows) ≡ n
      → wanted c n m ≡ false
      → select (wanted c (max_sequence_number c (m ∷ rows))) (m ∷ rows) ≡ select (wanted c n) rows
  unfolding select
  passed n e f = ap (λ k. select (wanted c k) (m ∷ rows)) e ∙ rw f refl

  other_component :
      is_for c m ≡ false → max_sequence_number c (m ∷ rows) ≡ max_sequence_number c rows
  unfolding max_sequence_number
  other_component f = rw f refl

  smaller :
      m.sequence_number < max_sequence_number c rows
      → max_sequence_number c (m ∷ rows) ≡ max_sequence_number c rows
  unfolding max_sequence_number
  smaller h = ground arith

  not_wanted :
      m.sequence_number < max_sequence_number c rows
      → wanted c (max_sequence_number c rows) m ≡ false
  not_wanted h = ground arith

  alone :
      is_for c m ≡ true
      → max_sequence_number c rows ≡ 0
      → max_sequence_number c (m ∷ rows) ≡ m.sequence_number
  unfolding max_sequence_number
  alone f h = ground arith

  found :
      is_for c m ≡ true
      → select (wanted c m.sequence_number) (m ∷ rows)
        ≡ m ∷ select (wanted c m.sequence_number) rows
  unfolding select
  found f = ground arith

listed :
    (c : Bytes) (rows : List SuitManifest)
    → Ascending rows
    → select (wanted c (max_sequence_number c rows)) rows ≡ to_list (last c rows)
unfolding select
listed c [] h = refl
listed c (m ∷ rows) h = step (last c rows) (is_for c m) refl refl (listed c rows h.1)
  where
    below : {a b n : ℕ} → a < b → b ≤ n → a < n
    below p q = omega arith

    step :
        (o : Option SuitManifest) (b : Bool)
        → last c rows ≡ o
        → is_for c m ≡ b
        → select (wanted c (max_sequence_number c rows)) rows ≡ to_list (last c rows)
        → select (wanted c (max_sequence_number c (m ∷ rows))) (m ∷ rows)
          ≡ to_list (later o (cond b (some m) none))
    step o false e f again =
        passed c m rows _ (other_component c m rows f) (rw f refl)
        ∙ (again ∙ ap to_list (e ∙ sym (later-none o)))
    step none true e f again =
        let (absent, most) = last-none c m.sequence_number rows e in
        ap (λ k. select (wanted c k) (m ∷ rows)) (alone c m rows f most)
        ∙ (found c m rows f ∙ ap (λ l. m ∷ l) absent)
    step (some x) true e f again =
        let (is_x, (before, bound)) = last-some c (Precedes m) rows x h.0 e in
        let less = below (before (same_component c m x f is_x)) bound in
        passed c m rows _ (smaller c m rows less) (not_wanted c m rows less)
        ∙ (again ∙ ap to_list e)

-- In a table whose rows of a component ascend, FindLatestAll lists of every component exactly the
-- row that FindLatestByTrustedComponentID finds, once, and nothing if it finds none.
pub latest_rows-latest_of :
    (c : Bytes) (rows : List SuitManifest)
    → Ascending rows
    → select (is_for c) (latest_rows rows) ≡ to_list (latest_of c rows)
unfolding latest_rows
latest_rows-latest_of c rows h =
    select-select (is_for c) _ (wanted c (max_sequence_number c rows)) rows (is_listed c rows)
    ∙ (listed c rows h ∙ ap to_list (sym (latest_of-last c rows h)))
