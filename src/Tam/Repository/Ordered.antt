-- ===== src/Tam/Repository/Ordered.antt =====
-- The manifests of a component through all requests (internal/tam/manifest_repository_flow.go).
use attes_tam.Base.{
  ℕ, ◌≡◌, refl, sym, subst, ◌∙◌, true, false, Option, none, some, Bytes, bytes_eq, bytes_eq_refl,
  arith,
}
use attes_tam.Model.{other, SuitManifest, insert, Db, create_schema}
use attes_tam.Exec.{ok, World, if_some}
use attes_tam.Exec.Keeps.{Keeps, Keeps-raise}
use attes_tam.Exec.Atomic.{Atomic-Keeps, Atomic-Gives}
use attes_tam.Sqlite.Manifests.{latest_of, insert_manifest}
use attes_tam.Sqlite.Manifests.Latest.{next_best, latest_of-append}
use attes_tam.Sqlite.Manifests.Ordered.{IsOrdered, IsOrdered-append, Passes, Passes-Succeeds}
use attes_tam.Sqlite.Frames.{repository_frame}
use attes_tam.Tam.Library.{Library, Tam}
use attes_tam.Tam.Frames.{manifests_invariant}
use attes_tam.Tam.Repository.{new_manifest, set_envelope}
use attes_tam.Tam.Repository.Envelope.{Accepted, set_envelope-Atomic}
use attes_tam.Tam.System.{IsInvariant, Reach, Reach-keeps}

Accepted-IsOrdered :
    (envelope digest kid component : Bytes) (n : ℕ) (d e : Db)
    → IsOrdered d.suit_manifests
    → Accepted envelope digest kid component n d e
    → IsOrdered e.suit_manifests
unfolding insert_manifest insert
Accepted-IsOrdered envelope digest kid component n d e h a =
    let m = record (new_manifest envelope digest a.key component n) {
      id = d.suit_manifests.next_id;
    } in
    subst (λ x. IsOrdered x.suit_manifests) (sym a.stored)
      (IsOrdered-append d.suit_manifests m _ h (Passes-Succeeds d.suit_manifests m h a.passes))

set_envelope-Keeps :
    (envelope : Option Bytes) (digest kid component : Bytes) (n : ℕ)
    → Keeps (λ d. IsOrdered d.suit_manifests) (set_envelope envelope digest kid component n)
unfolding set_envelope if_some
set_envelope-Keeps none digest kid component n = Keeps-raise other
set_envelope-Keeps (some envelope) digest kid component n =
    Atomic-Keeps (λ d _. Accepted envelope digest kid component n d)
      (set_envelope-Atomic envelope digest kid component n)
      (λ d e a h. Accepted-IsOrdered envelope digest kid component n d e h)

order-IsInvariant : IsInvariant (λ d. IsOrdered d.suit_manifests)
order-IsInvariant =
    manifests_invariant (λ _ t. IsOrdered t) (repository_frame (λ _ t. IsOrdered t))
      set_envelope-Keeps

-- No rollback. In every database that requests make of a new one, whatever the clock, the random
-- bytes and the driver's faults: of the manifests of a component, each has a larger sequence number
-- than those stored before it, and all are signed with one key.
pub reachable-IsOrdered :
    {Key : Type 0} (lib : Library Key) (tam : Tam Key) (d : Db)
    → Reach lib tam create_schema d
    → IsOrdered d.suit_manifests
reachable-IsOrdered lib tam d reached =
    Reach-keeps order-IsInvariant reached (record { ascending = tt; one_key = tt })

-- What an accepted envelope is to the clients of the repository.
pub record IsPublished (envelope digest component : Bytes) (n : ℕ) (before after : Db)
    : Type 0 where
  pub latest : SuitManifest
  pub is_latest : latest_of component after.suit_manifests.rows ≡ some latest
  pub has_bytes : latest.manifest ≡ envelope
  pub has_digest : latest.digest ≡ digest
  pub has_number : latest.sequence_number ≡ n
  pub leaves_others :
      (c : Bytes)
      → bytes_eq component c ≡ false
      → latest_of c after.suit_manifests.rows ≡ latest_of c before.suit_manifests.rows

passing_is_best :
    (component : Bytes) (best : Option SuitManifest) (m : SuitManifest)
    → bytes_eq m.trusted_component_id component ≡ true
    → Passes m best
    → next_best component best m ≡ some m
passing_is_best component none m h p = rw h refl
passing_is_best component (some b) m h p = ground (arith, p.0)

Accepted-IsPublished :
    (envelope digest kid component : Bytes) (n : ℕ) (d e : Db)
    → Accepted envelope digest kid component n d e
    → IsPublished envelope digest component n d e
unfolding insert_manifest insert
Accepted-IsPublished envelope digest kid component n d e a =
    let m = record (new_manifest envelope digest a.key component n) {
      id = d.suit_manifests.next_id;
    } in
    subst (λ x. IsPublished envelope digest component n d x) (sym a.stored)
      (record {
        latest = m;
        is_latest =
            latest_of-append component d.suit_manifests.rows m
            ∙ passing_is_best component (latest_of component d.suit_manifests.rows) m
                (bytes_eq_refl component) a.passes;
        has_bytes = refl;
        has_digest = refl;
        has_number = refl;
        leaves_others = λ c ne. latest_of-append c d.suit_manifests.rows m ∙ rw ne refl;
      })

-- An envelope that SetEnvelope accepts is at once the latest of its component, with its bytes, its
-- digest and its number, and the latest manifests of the other components stay.
pub set_envelope-IsPublished :
    (envelope digest kid component : Bytes) (n : ℕ) (w : World)
    → (set_envelope (some envelope) digest kid component n w).0 ≡ ok tt
    → IsPublished envelope digest component n w.db
        (set_envelope (some envelope) digest kid component n w).1.db
set_envelope-IsPublished envelope digest kid component n w e =
    Accepted-IsPublished envelope digest kid component n w.db _
      ((Atomic-Gives (set_envelope-Atomic envelope digest kid component n w.db)).give w tt refl e)
