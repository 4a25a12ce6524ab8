-- ===== src/Tam/Repository/Envelope.antt =====
-- What SetEnvelope accepts and stores, and what the repository looks like after it.
use attes_tam.Base.{
  ℕ, ◌<◌, ◌≡◌, refl, sym, ap, subst, not, Option, none, some, Bytes, find, some-injective, leb,
  ◌==◌, arith,
}
use attes_tam.Model.{other, not_authenticated, ManifestSigningKey, SuitManifest, Db}
use attes_tam.Exec.{Exec, attempt, if_some}
use attes_tam.Exec.Atomic.{
  Atomic, Reads, Atomic-pure, Atomic-raise, Atomic-statement, Atomic-if, Atomic-if_some,
  Atomic-if_ok, Atomic-last, Reads-query, Reads-bind, Reads-attempt,
}
use attes_tam.Sqlite.Parties.{signing_kid_is, find_signing_key_by_kid}
use attes_tam.Sqlite.Manifests
use attes_tam.Sqlite.Manifests.{is_for, scanned, latest_of, insert_manifest, max_int64}
use attes_tam.Sqlite.Manifests.Ordered.{Passes}
use attes_tam.Tam.Sent.{or_nil, or_fatal}
use attes_tam.Tam.Repository.{
  get_manifest, new_manifest, check_existing, store_envelope, join, set_envelope,
}

or_fatal-Reads :
    {A : Type 0} {d : Db} {C : A → Type 0} {m : Exec A} → Reads d m C → Reads d (or_fatal m) C
unfolding or_fatal
or_fatal-Reads {A} {d} {C} {m} r =
    Reads-bind _ (attempt m) _ (Reads-attempt r)
      λ x h. Atomic-if_ok x _ _ (λ a e. Atomic-pure a (h a e, refl)) (λ e q. Atomic-raise _)

or_nil-Reads :
    {A : Type 0} {d : Db} {C : A → Type 0} {m : Exec A}
    → Reads d m C
    → Reads d (or_nil m) (λ o. (a : A) → o ≡ some a → C a)
unfolding or_nil
or_nil-Reads {A} {d} {C} {m} r = Reads-bind _ (attempt m) _ (Reads-attempt r) λ x h.
    Atomic-if_ok x _ _
      (λ a e. Atomic-pure (some a) (λ b q. subst C (some-injective _ _ q) (h a e), refl))
      (λ e q. Atomic-pure none (λ b q. cc, refl))

-- What SetEnvelope has found and done when it succeeds.
pub record Accepted (envelope digest kid component : Bytes) (sequence_number : ℕ)
    (before after : Db) : Type 0 where
  pub key : ManifestSigningKey
  pub key_is_trusted : find (signing_kid_is kid) before.manifest_signing_keys.rows ≡ some key
  pub passes :
      Passes
        (new_manifest envelope digest key component sequence_number)
        (latest_of component before.suit_manifests.rows)
  pub in_range : sequence_number < max_int64
  pub stored :
      after
      ≡ (insert_manifest (new_manifest envelope digest key component sequence_number) before).1

existing-Reads :
    (component : Bytes) (d : Db)
    → Reads d
        (get_manifest component)
        (λ o. o ≡ scanned (latest_of component d.suit_manifests.rows))
unfolding get_manifest Manifests.find_latest_by_trusted_component_id
existing-Reads component d = Reads-query (λ d. scanned (latest_of component d.suit_manifests.rows))

-- The checks do not look at the digest.
scanned-Passes :
    (m : SuitManifest) (existing : Option SuitManifest)
    → Passes m (scanned existing)
    → Passes m existing
scanned-Passes m none h = h
scanned-Passes m (some n) h = h

check_existing-Reads :
    (existing : Option SuitManifest) (key : ManifestSigningKey) (n : ℕ) (d : Db)
    (envelope digest component : Bytes)
    → Reads d
        (check_existing existing key n)
        (λ _. Passes (new_manifest envelope digest key component n) existing)
unfolding check_existing
check_existing-Reads none key n d envelope digest component =
    Atomic-if_some none _ _ (λ a e. cc) (λ e. Atomic-pure tt (tt, refl))
check_existing-Reads (some m) key n d envelope digest component =
    Atomic-if_some (some m) _ _
      (λ a e.
        Atomic-if (leb n a.sequence_number) _ _ (λ _. Atomic-raise _)
          (λ bigger.
            Atomic-if (not (a.signing_key_id == key.id)) _ _ (λ _. Atomic-raise _)
              (λ same. Atomic-pure tt ((ground arith, ground arith), refl))))
      (λ e. cc)

store_envelope-Atomic :
    (envelope digest kid component : Bytes) (key : ManifestSigningKey) (n : ℕ) (d : Db)
    → find (signing_kid_is kid) d.manifest_signing_keys.rows ≡ some key
    → Atomic d
        (store_envelope envelope digest key component n)
        (λ _. Accepted envelope digest kid component n d)
unfolding store_envelope Manifests.create insert_manifest
store_envelope-Atomic envelope digest kid component key n d trusted =
    Reads-bind _ (or_fatal (get_manifest component)) _ (or_fatal-Reads (existing-Reads component d))
      λ existing found.
        Reads-bind _ (check_existing existing key n) _
          (check_existing-Reads existing key n d envelope digest component)
          λ _ passes.
            Atomic-last
              (λ _ after.
                (n < max_int64)
                × (after ≡ (insert_manifest (new_manifest envelope digest key component n) d).1))
              (Manifests.create (new_manifest envelope digest key component n)) (λ _. tt)
              (Atomic-if (leb max_int64 n) _ _ (λ _. Atomic-raise other)
                (λ small. Atomic-statement _ (ground arith, refl)))
              λ i after h. record {
                key = key;
                key_is_trusted = trusted;
                passes =
                    scanned-Passes (new_manifest envelope digest key component n) _
                      (subst (Passes (new_manifest envelope digest key component n)) found passes);
                in_range = h.0;
                stored = h.1;
              }

key-Reads :
    (kid : Bytes) (d : Db)
    → Reads d
        (find_signing_key_by_kid kid)
        (λ o. o ≡ find (signing_kid_is kid) d.manifest_signing_keys.rows)
unfolding find_signing_key_by_kid
key-Reads kid d = Reads-query (λ d. find (signing_kid_is kid) d.manifest_signing_keys.rows)

joined :
    (found : Option (Option ManifestSigningKey)) (key : ManifestSigningKey)
    → join found ≡ some key
    → found ≡ some (some key)
joined none key e = cc
joined (some o) key e = ap some e

-- SetEnvelope stores an envelope or leaves the database as it was, whichever statements fail.
pub set_envelope-Atomic :
    (envelope digest kid component : Bytes) (n : ℕ) (d : Db)
    → Atomic d
        (set_envelope (some envelope) digest kid component n)
        (λ _. Accepted envelope digest kid component n d)
unfolding set_envelope if_some
set_envelope-Atomic envelope digest kid component n d =
    Reads-bind _ (or_nil (find_signing_key_by_kid kid)) _ (or_nil-Reads (key-Reads kid d))
      λ found h.
        Atomic-if_some (join found) _ _
          (λ key e.
            store_envelope-Atomic envelope digest kid component key n d
              (sym (h (some key) (joined found key e))))
          (λ e. Atomic-raise not_authenticated)
