-- ===== src/Tam/Update/Chosen.antt =====
-- Which manifests an update carries (internal/tam/tam.go).
use mathlib.Core.List.{Memᴰ}
use attes_tam.Base.{
  ◌≡◌, ◌≢◌, refl, subst, Bool, true, false, Option, none, some, List, [], ◌∷◌, Bytes, bytes_eq,
  bytes_eq→eq, bytes_eq_refl, any, All, All-map, ◌≤◌,
}
use attes_tam.Model.{SuitManifest, Db, Time}
use attes_tam.Exec.{
  Result, ok, err, World, pure, raise, attempt, run_statement, statement, query, if_some, if_ok,
  continue, ◌>>=◌,
}
use attes_tam.Sqlite.Manifests.{
  is_for, without_digest, scanned, latest_of, find_latest_by_trusted_component_id,
}
use attes_tam.Sqlite.Manifests.Latest.{Holds, Tops, latest_of-Holds, latest_of-Tops}
use attes_tam.Tam.Sent.{or_fatal}
use attes_tam.Tam.Update.{choose_manifest, choose_manifests}

-- A row for the component, and none for it has a larger sequence number.
pub record IsNewest (component : Bytes) (rows : List SuitManifest) (m : SuitManifest) : Type 0 where
  pub is_stored : Memᴰ m rows
  pub is_of_component : m.trusted_component_id ≡ component
  pub is_largest :
      All
        (λ (r : SuitManifest).
          r.trusted_component_id ≡ component → r.sequence_number ≤ m.sequence_number)
        rows

-- What is chosen for components in their order: of each the newest manifest, as its query returns
-- it, or nothing if there is none for it.
pub data Chosen (rows : List SuitManifest) : List Bytes → List SuitManifest → Type 0 where
  nothing : Chosen rows [] []
  skipped :
      {c : Bytes} {cs : List Bytes} {ms : List SuitManifest}
      → All (λ (r : SuitManifest). r.trusted_component_id ≢ c) rows
      → Chosen rows cs ms
      → Chosen rows (c ∷ cs) ms
  taken :
      {c : Bytes} {cs : List Bytes} {ms : List SuitManifest} (m : SuitManifest)
      → IsNewest c rows m
      → Chosen rows cs ms
      → Chosen rows (c ∷ cs) (without_digest m ∷ ms)

-- The loop returns what is chosen, or the driver has a fault to come that makes it fail.
abbrev pub Outcome :
    List SuitManifest → List Bool → List Bytes → Result (List SuitManifest) → Type 0
Outcome rows faults cs (ok ms) = Chosen rows cs ms
Outcome rows faults cs (err e) = any (λ b. b) faults ≡ true

every_row :
    (rows : List SuitManifest) (P : SuitManifest → Type 0)
    → ((m : SuitManifest) → Memᴰ m rows → P m)
    → All P rows
every_row [] P h = tt
every_row (r ∷ rows) P h = (h r (Memᴰ.head refl), every_row rows P (λ m i. h m (Memᴰ.tail i)))

-- What the query finds for a component.
abbrev Found : Bytes → List SuitManifest → Option SuitManifest → Type 0
Found c rows none = All (λ (r : SuitManifest). r.trusted_component_id ≢ c) rows
Found c rows (some m) = IsNewest c rows m

row_is_for : (c : Bytes) (r : SuitManifest) → r.trusted_component_id ≡ c → is_for c r ≡ true
row_is_for c r e = subst (λ x. bytes_eq r.trusted_component_id x ≡ true) e (bytes_eq_refl _)

-- A row for the component.
abbrev Row : Bytes → List SuitManifest → SuitManifest → Type 0
Row c rows m = Memᴰ m rows × (m.trusted_component_id ≡ c)

latest_of-Found : (c : Bytes) (rows : List SuitManifest) → Found c rows (latest_of c rows)
latest_of-Found c rows = found (latest_of c rows) held (latest_of-Tops c rows)
  where
    held : Holds (Row c rows) (latest_of c rows)
    held =
        latest_of-Holds (Row c rows) c rows
          (every_row rows _ (λ m i e. (i, bytes_eq→eq m.trusted_component_id c e)))

    found :
        (o : Option SuitManifest)
        → Holds (Row c rows) o
        → All (λ m. is_for c m ≡ true → Tops o m) rows
        → Found c rows o
    found none h tops = All-map _ _ rows (λ r t e. absurd (t (row_is_for c r e))) tops
    found (some m) h tops = record {
      is_stored = h.0;
      is_of_component = h.1;
      is_largest = All-map _ _ rows (λ r t e. t (row_is_for c r e)) tops;
    }

-- One round, after the query and the other rounds.
round-Outcome :
    (rows : List SuitManifest) (faults : List Bool) (c : Bytes) (cs : List Bytes)
    (o : Option SuitManifest) (r : Result (List SuitManifest)) (v : World)
    → Found c rows o
    → Outcome rows faults cs r
    → Outcome rows faults
        (c ∷ cs)
        (continue r (λ rest. if_some (scanned o) (λ m. pure (m ∷ rest)) (pure rest)) v).0
unfolding if_some pure
round-Outcome rows faults c cs o (err e) v f h = h
round-Outcome rows faults c cs none (ok ms) v f h = skipped f h
round-Outcome rows faults c cs (some m) (ok ms) v f h = taken m f h

loop-Outcome :
    (cs : List Bytes) (d : Db) (now : Time) (random : List Bytes) (faults : List Bool)
    → Outcome d.suit_manifests.rows faults cs
        (choose_manifests cs (record { db = d; now = now; random = random; faults = faults })).0
unfolding choose_manifests choose_manifest or_fatal find_latest_by_trusted_component_id query
    statement run_statement ◌>>=◌ attempt if_ok pure raise any
loop-Outcome [] d now random faults = nothing
loop-Outcome (c ∷ cs) d now random (true ∷ faults) = refl
loop-Outcome (c ∷ cs) d now random (false ∷ faults) =
    round-Outcome d.suit_manifests.rows (false ∷ faults) c cs (latest_of c d.suit_manifests.rows) _
      _ (latest_of-Found c d.suit_manifests.rows) (weaken _ (loop-Outcome cs d now random faults))
  where
    weaken :
        (r : Result (List SuitManifest))
        → Outcome d.suit_manifests.rows faults cs r
        → Outcome d.suit_manifests.rows (false ∷ faults) cs r
    weaken (ok ms) h = h
    weaken (err e) h = h
loop-Outcome (c ∷ cs) d now random [] =
    round-Outcome d.suit_manifests.rows [] c cs (latest_of c d.suit_manifests.rows) _ _
      (latest_of-Found c d.suit_manifests.rows) (loop-Outcome cs d now random [])

-- The loop over the components chooses, in their order, for each component that has a manifest one
-- whose sequence number is the largest of its manifests, without its digest, and skips a component
-- that has none; it fails only if the driver has a fault.
pub choose_manifests-Outcome :
    (cs : List Bytes) (w : World)
    → Outcome w.db.suit_manifests.rows w.faults cs (choose_manifests cs w).0
choose_manifests-Outcome cs w = loop-Outcome cs w.db w.now w.random w.faults
