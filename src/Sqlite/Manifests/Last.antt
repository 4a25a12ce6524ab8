-- ===== src/Sqlite/Manifests/Last.antt =====
-- The last row for a component (internal/infra/sqlite/suit_manifest_repo.go).
use attes_tam.Base.{
  ◌<◌, ◌≡◌, refl, ◌∙◌, inl, inr, true, false, Option, none, some, List, [], ◌∷◌, Bytes, bytes_eq,
  bytes_eq→eq, bytes_eq_refl, All, cond, ltb, Bool-cases, arith,
}
use attes_tam.Model.{SuitManifest}
use attes_tam.Sqlite.Manifests.{is_for, better, latest_from, latest_of}
use attes_tam.Sqlite.Manifests.Ordered.{Precedes, Ascending}

abbrev pub to_list : Option SuitManifest → List SuitManifest
to_list none = []
to_list (some m) = m ∷ []

abbrev pub later : Option SuitManifest → Option SuitManifest → Option SuitManifest
later (some m) best = some m
later none best = best

pub later-none : (o : Option SuitManifest) → later o none ≡ o
later-none none = refl
later-none (some x) = refl

-- The last row for a component.
abbrev pub last : Bytes → List SuitManifest → Option SuitManifest
last c [] = none
last c (m ∷ rows) = later (last c rows) (cond (is_for c m) (some m) none)

-- The best row so far comes before the rows to come.
abbrev IsBefore : Bytes → List SuitManifest → Option SuitManifest → Type 0
IsBefore c rows none = Unit
IsBefore c rows (some b) = (is_for c b ≡ true) × All (Precedes b) rows

pub same_component :
    (c : Bytes) (b m : SuitManifest)
    → is_for c b ≡ true
    → is_for c m ≡ true
    → bytes_eq b.trusted_component_id m.trusted_component_id ≡ true
same_component c b m e f =
    rw (bytes_eq→eq b.trusted_component_id c e, bytes_eq→eq m.trusted_component_id c f)
      (bytes_eq_refl c)

not_ltb :
    (m b : SuitManifest)
    → b.sequence_number < m.sequence_number
    → ltb m.sequence_number b.sequence_number ≡ false
not_ltb m b h = ground arith

latest_from-last :
    (c : Bytes) (rows : List SuitManifest) (best : Option SuitManifest)
    → Ascending rows
    → IsBefore c rows best
    → latest_from c best rows ≡ later (last c rows) best
unfolding latest_from
latest_from-last c [] best h k = refl
latest_from-last c (m ∷ rows) best h k = elim (Bool-cases (is_for c m)) [
  | inl e ↦ rw e (taken best e k (latest_from-last c rows (some m) h.1 (e, h.0)))
  | inr e ↦ rw e (latest_from-last c rows best h.1 (rest best k) ∙ skipped (last c rows))
]
  where
    rest : (best : Option SuitManifest) → IsBefore c (m ∷ rows) best → IsBefore c rows best
    rest none k = tt
    rest (some b) k = (k.0, k.1.1)

    skipped : (o : Option SuitManifest) → later o best ≡ later (later o none) best
    skipped none = refl
    skipped (some x) = refl

    kept :
        (o : Option SuitManifest) (b : Option SuitManifest)
        → later o (some m) ≡ later (later o (some m)) b
    kept none b = refl
    kept (some x) b = refl

    taken :
        (best : Option SuitManifest)
        → is_for c m ≡ true
        → IsBefore c (m ∷ rows) best
        → latest_from c (some m) rows ≡ later (last c rows) (some m)
        → latest_from c (better best m) rows ≡ later (later (last c rows) (some m)) best
    taken none e k again = again ∙ kept (last c rows) none
    taken (some b) e k again =
        rw (not_ltb m b (k.1.0 (same_component c b m k.0 e))) (again ∙ kept (last c rows) (some b))

pub latest_of-last :
    (c : Bytes) (rows : List SuitManifest) → Ascending rows → latest_of c rows ≡ last c rows
unfolding latest_of
latest_of-last c rows h = latest_from-last c rows none h tt ∙ later-none (last c rows)
