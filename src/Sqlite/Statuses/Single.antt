-- ===== src/Sqlite/Statuses/Single.antt =====
-- What an agent holds of a component, over the writes to the tables of holdings and manifests
-- (internal/infra/sqlite/agent_status_repo.go, suit_manifest_repo.go).
use attes_tam.Base.{
  ℕ, ◌+◌, ◌<◌, ◌≤◌, ◌≡◌, refl, sym, subst, ◌∙◌, Bool, true, false, Option, inl, inr, List, [], ◌∷◌,
  ◌++◌, Bytes, bytes_eq, bytes_eq→eq, any, Bool-cases, update_where, ◌==◌, All, All-append, All-map,
  All-zip, All-find, All-update_where, arith,
}
use attes_tam.Model.{SuitManifest, Agent, Holding, Table, insert, Db}
use attes_tam.Sqlite.Manifests.{insert_manifest}
use attes_tam.Sqlite.Statuses.{
  digest_is, is_of_component, is_replaced, delete, reflect_manifest_success,
}
use attes_tam.Sqlite.Statuses.Written.{holding_of, IsWritten, reflect_manifest_success-IsWritten}
use attes_tam.Sqlite.Statuses.Reflected.{count, count-append, none_replaced}
use attes_tam.Exec.Keeps.{Keeps}
use attes_tam.Exec.Atomic.{Atomic-Keeps}

abbrev pub SharesComponent : SuitManifest → SuitManifest → Type 0
SharesComponent m n = m.id ≡ n.id → m.trusted_component_id ≡ n.trusted_component_id

-- An agent has at most one active holding of a component, and row ids name what they should.
pub record IsSingle (holdings : Table Holding) (manifests : Table SuitManifest) : Type 0 where
  pub ids_below : All (λ m. m.id < manifests.next_id) manifests.rows
  pub ids_distinct : All (λ m. All (SharesComponent m) manifests.rows) manifests.rows
  pub holds_below : All (λ h. h.suit_manifest_id < manifests.next_id) holdings.rows
  pub one_each :
      (agent : ℕ) (component : Bytes)
      → count (is_replaced agent component manifests.rows) holdings.rows ≤ 1

count-All :
    {A : Type 0} (p q : A → Bool) (xs : List A) → All (λ x. p x ≡ q x) xs → count p xs ≡ count q xs
unfolding count
count-All p q [] h = refl
count-All p q (x ∷ xs) h = rw (h.0, count-All p q xs h.1) refl

count-deleted :
    (p q : Holding → Bool) (rows : List Holding)
    → ((h : Holding) → p (delete h) ≡ false)
    → count p (update_where q delete rows) ≤ count p rows
unfolding count update_where
count-deleted p q [] k = omega arith
count-deleted p q (h ∷ rows) k = ground (arith, count-deleted p q rows k, k h)

-- A new row has an id that no holding names yet.
new_row-is_of_component :
    (component : Bytes) (rows : List SuitManifest) (m : SuitManifest) (i : ℕ)
    → i < m.id
    → is_of_component component (rows ++ m ∷ []) i ≡ is_of_component component rows i
unfolding is_of_component any
new_row-is_of_component component [] m i below = ground arith
new_row-is_of_component component (r ∷ rows) m i below =
    ground (arith, new_row-is_of_component component rows m i below)

-- An id that names a manifest of two components.
component_of :
    (m : SuitManifest) (component : Bytes) (rows : List SuitManifest)
    → All (SharesComponent m) rows
    → is_of_component component rows m.id ≡ true
    → component ≡ m.trusted_component_id
unfolding is_of_component any
component_of m component [] shares h = cc
component_of m component (r ∷ rows) shares h = elim (Bool-cases (r.id == m.id)) [
  | inl same ↦ elim (Bool-cases (bytes_eq r.trusted_component_id component)) [
    | inl e ↦ sym (bytes_eq→eq r.trusted_component_id component e) ∙ sym (shares.0 (ground arith))
    | inr ne ↦ component_of m component rows shares.1 (rw (same, ne) at h)
  ]
  | inr other ↦ component_of m component rows shares.1 (rw other at h)
]

pub IsSingle-insert_manifest :
    (m : SuitManifest) (d : Db)
    → IsSingle d.holdings d.suit_manifests
    → IsSingle (insert_manifest m d).1.holdings (insert_manifest m d).1.suit_manifests
unfolding insert_manifest insert
IsSingle-insert_manifest m d h =
    let manifests = d.suit_manifests in
    let new = record m { id = manifests.next_id } in
    record {
      ids_below =
          All-append (λ n. n.id < manifests.next_id + 1) manifests.rows (new ∷ [])
            (All-map (λ n. n.id < manifests.next_id) (λ n. n.id < manifests.next_id + 1)
              manifests.rows (λ n l. omega arith) h.ids_below)
            (omega arith, tt);
      ids_distinct =
          All-append (λ n. All (SharesComponent n) (manifests.rows ++ new ∷ [])) manifests.rows
            (new ∷ [])
            (All-zip (λ n. n.id < manifests.next_id) (λ n. All (SharesComponent n) manifests.rows)
              (λ n. All (SharesComponent n) (manifests.rows ++ new ∷ [])) manifests.rows
              (λ n l old.
                All-append (SharesComponent n) manifests.rows (new ∷ []) old
                  (λ e. absurd (omega (arith, e, l)), tt))
              h.ids_below h.ids_distinct)
            (
              All-append (SharesComponent new) manifests.rows (new ∷ [])
                  (All-map (λ n. n.id < manifests.next_id) (SharesComponent new) manifests.rows
                    (λ n l e. absurd (omega (arith, e, l))) h.ids_below)
                  (λ e. refl, tt),
              tt,
            );
      holds_below =
          All-map (λ g. g.suit_manifest_id < manifests.next_id)
            (λ g. g.suit_manifest_id < manifests.next_id + 1) d.holdings.rows (λ g l. omega arith)
            h.holds_below;
      one_each = λ agent component.
          subst (λ n. n ≤ 1)
            (count-All (is_replaced agent component manifests.rows)
              (is_replaced agent component (manifests.rows ++ new ∷ [])) d.holdings.rows
              (All-map (λ g. g.suit_manifest_id < manifests.next_id)
                (λ g.
                  is_replaced agent component manifests.rows g
                  ≡ is_replaced agent component (manifests.rows ++ new ∷ []) g)
                d.holdings.rows
                (λ g l.
                  rw (new_row-is_of_component component manifests.rows new g.suit_manifest_id l)
                    refl)
                h.holds_below))
            (h.one_each agent component);
    }

holding-one_each :
    (a : Agent) (m : SuitManifest) (now : ℕ) (rows : List Holding) (manifests : List SuitManifest)
    (i agent : ℕ) (component : Bytes)
    → All (SharesComponent m) manifests
    → count (is_replaced agent component manifests) rows ≤ 1
    → count (is_replaced agent component manifests) (
        update_where (is_replaced a.id m.trusted_component_id manifests) delete rows
        ++ holding_of a.id m.id now i ∷ [])
      ≤ 1
unfolding count
holding-one_each a m now rows manifests i agent component shares one =
    rw (count-append p marked (row ∷ [])) (elim (Bool-cases (p row)) [
      | inl is_new ↦
          let names = names_of is_new in rw (is_new, none_left names.0 names.1) (omega arith)
      | inr is_old ↦ rw is_old (
          omega (
            arith,
            count-deleted p (is_replaced a.id m.trusted_component_id manifests) rows
                (λ h. ground arith),
            one,
          ))
    ])
  where
    p : Holding → Bool
    p = is_replaced agent component manifests

    marked : List Holding
    marked = update_where (is_replaced a.id m.trusted_component_id manifests) delete rows

    row : Holding
    row = holding_of a.id m.id now i

    names_of : p row ≡ true → (a.id ≡ agent) × (component ≡ m.trusted_component_id)
    names_of h = (ground arith, component_of m component manifests shares (ground arith))

    none_left : a.id ≡ agent → component ≡ m.trusted_component_id → count p marked ≡ 0
    none_left same_agent same_component =
        subst (λ c. count p (update_where (is_replaced a.id c manifests) delete rows) ≡ 0)
          same_component
          (subst (λ n. count p (update_where (is_replaced n component manifests) delete rows) ≡ 0)
            (sym same_agent) (none_replaced agent component manifests rows))

IsWritten-IsSingle :
    (kid : Bytes) (digest : Option Bytes) (d e : Db)
    → IsSingle d.holdings d.suit_manifests
    → IsWritten kid digest d e
    → IsSingle e.holdings e.suit_manifests
IsWritten-IsSingle kid digest d e h w =
    let manifests = d.suit_manifests in
    let a = w.agent in
    let m = w.manifest in
    let found =
      All-find (λ n. n.id < manifests.next_id) (digest_is digest) manifests.rows m w.is_manifest
        h.ids_below in
    let shares =
      All-find (λ n. All (SharesComponent n) manifests.rows) (digest_is digest) manifests.rows m
        w.is_manifest h.ids_distinct in
    let rows = d.holdings.rows in
    rw (w.writes_holdings, w.leaves_manifests)
      (record {
        ids_below = h.ids_below;
        ids_distinct = h.ids_distinct;
        holds_below =
            All-append (λ g. g.suit_manifest_id < manifests.next_id) _ _
              (All-update_where (λ g. g.suit_manifest_id < manifests.next_id)
                (is_replaced a.id m.trusted_component_id manifests.rows) delete rows (λ g l. l)
                h.holds_below)
              (found, tt);
        one_each = λ agent component.
            holding-one_each a m w.now rows manifests.rows d.holdings.next_id agent component shares
              (h.one_each agent component);
      })

pub reflect_manifest_success-IsSingle :
    (kid : Bytes) (digest : Option Bytes) (report : Bytes)
    → Keeps (λ d. IsSingle d.holdings d.suit_manifests) (reflect_manifest_success kid digest report)
reflect_manifest_success-IsSingle kid digest report =
    Atomic-Keeps (λ d _. IsWritten kid digest d)
      (reflect_manifest_success-IsWritten kid digest report)
      (λ d e _ h. IsWritten-IsSingle kid digest d e h)
