-- ===== src/Sqlite/Manifests/Ordered.antt =====
-- The order of the table: of one component, each row has a larger number than those before it,
-- and all have one signing key.
use attes_tam.Base.{
  ℕ, ◌<◌, ◌≡◌, refl, sym, ◌∙◌, true, Option, none, some, List, [], ◌∷◌, ◌++◌, Bytes, bytes_eq,
  bytes_eq_refl, bytes_eq_comm, bytes_eq→eq, All, All-append, All-map, All-zip, arith,
}
use attes_tam.Model.{SuitManifest, Table}
use attes_tam.Sqlite.Manifests.{is_for, latest_of}
use attes_tam.Sqlite.Manifests.Latest.{Holds, Tops, latest_of-Holds, latest_of-Tops}

abbrev pub SameComponent : SuitManifest → SuitManifest → Type 0
SameComponent m n = bytes_eq m.trusted_component_id n.trusted_component_id ≡ true

abbrev pub Precedes : SuitManifest → SuitManifest → Type 0
Precedes m n = SameComponent m n → m.sequence_number < n.sequence_number

abbrev pub Ascending : List SuitManifest → Type 0
Ascending [] = Unit
Ascending (m ∷ rows) = All (Precedes m) rows × Ascending rows

abbrev pub SharesKey : SuitManifest → SuitManifest → Type 0
SharesKey m n = SameComponent m n → m.signing_key_id ≡ n.signing_key_id

pub record IsOrdered (t : Table SuitManifest) : Type 0 where
  pub ascending : Ascending t.rows
  pub one_key : All (λ m. All (SharesKey m) t.rows) t.rows

Ascending-append :
    (rows : List SuitManifest) (n : SuitManifest)
    → Ascending rows
    → All (λ m. Precedes m n) rows
    → Ascending (rows ++ n ∷ [])
Ascending-append [] n h k = (tt, tt)
Ascending-append (m ∷ rows) n h k =
    (All-append (Precedes m) rows (n ∷ []) h.0 (k.0, tt), Ascending-append rows n h.1 k.1)

-- What a new row must be to those before it.
abbrev pub Succeeds : SuitManifest → SuitManifest → Type 0
Succeeds n m =
    SameComponent m n
    → (m.sequence_number < n.sequence_number) × (m.signing_key_id ≡ n.signing_key_id)

pub IsOrdered-append :
    (t : Table SuitManifest) (n : SuitManifest) (i : ℕ)
    → IsOrdered t
    → All (Succeeds n) t.rows
    → IsOrdered (record { rows = t.rows ++ n ∷ []; next_id = i })
IsOrdered-append t n i h k = record {
  ascending =
      Ascending-append t.rows n h.ascending
        (All-map (Succeeds n) (λ m. Precedes m n) t.rows (λ m s e. (s e).0) k);
  one_key =
      All-append (λ m. All (SharesKey m) (t.rows ++ n ∷ [])) t.rows (n ∷ [])
        (All-zip (λ m. All (SharesKey m) t.rows) (Succeeds n)
          (λ m. All (SharesKey m) (t.rows ++ n ∷ [])) t.rows
          (λ m old s. All-append (SharesKey m) t.rows (n ∷ []) old (λ e. (s e).1, tt)) h.one_key k)
        (
          All-append (SharesKey n) t.rows (n ∷ [])
              (All-map (Succeeds n) (SharesKey n) t.rows
                (λ m s e.
                  sym (s (bytes_eq_comm m.trusted_component_id n.trusted_component_id ∙ e)).1)
                k)
              (λ e. refl, tt),
          tt,
        );
}

-- If `n` passes the check against the latest row of its component, it may follow all the rows.
abbrev pub Passes : SuitManifest → Option SuitManifest → Type 0
Passes n none = Unit
Passes n (some m) = (m.sequence_number < n.sequence_number) × (m.signing_key_id ≡ n.signing_key_id)

succeeds_latest :
    (n m : SuitManifest) (best : Option SuitManifest)
    → Passes n best
    → Tops best m
    → Holds (λ b. m.signing_key_id ≡ b.signing_key_id) best
    → (m.sequence_number < n.sequence_number) × (m.signing_key_id ≡ n.signing_key_id)
succeeds_latest n m none p t h = absurd t
succeeds_latest n m (some b) p t h = (omega arith, h ∙ p.1)

pub Passes-Succeeds :
    (t : Table SuitManifest) (n : SuitManifest)
    → IsOrdered t
    → Passes n (latest_of n.trusted_component_id t.rows)
    → All (Succeeds n) t.rows
Passes-Succeeds t n h p =
    let c = n.trusted_component_id in
    All-zip (λ m. is_for c m ≡ true → Tops (latest_of c t.rows) m) (λ m. All (SharesKey m) t.rows)
      (Succeeds n) t.rows
      (λ m tops keys e. succeeds_latest n m (latest_of c t.rows) p (tops e) (
        latest_of-Holds (λ b. m.signing_key_id ≡ b.signing_key_id) c t.rows
          (All-map (SharesKey m) (λ b. is_for c b ≡ true → m.signing_key_id ≡ b.signing_key_id)
            t.rows (λ b shares f. shares (same_component m b c e f)) keys)))
      (latest_of-Tops c t.rows) h.one_key
  where
    same_component :
        (m b : SuitManifest) (c : Bytes) → is_for c m ≡ true → is_for c b ≡ true → SameComponent m b
    same_component m b c e f =
        rw (bytes_eq→eq m.trusted_component_id c e, bytes_eq→eq b.trusted_component_id c f)
          (bytes_eq_refl c)
