-- ===== src/Rats/Intel/Verifier/Served.antt =====
-- The collateral that the cache serves over the verifier's runs
-- (internal/infra/rats/intel_qvl_collateral.go, intel_qvl_verifier.go).
use attes_tam.Base.{
  ◌+◌, ◌*◌, ◌<◌, ◌≤◌, ◌≡◌, refl, ap, sym, subst, ◌∙◌, Bool, true, false, Option, none, some,
  some-injective, [], ◌∷◌, Bytes, Bool-cases, inl, inr, arith, if◌then◌else◌,
}
use attes_tam.Model.{Time, second, other}
use attes_tam.Exec.{Result, ok, err}
use attes_tam.Rats.Results.{>>=-eq-ok}
use attes_tam.Exec.{ok-injective}
use attes_tam.Rats.Intel.Collateral.{Collateral, CacheEntry}
use attes_tam.Rats.Intel.Library.{IntelLibrary}
use attes_tam.Rats.Intel.NextUpdate.{earlier, cache_ttl, collateral_next_update, collateral_expiry}
use attes_tam.Rats.Intel.Cache
use attes_tam.Rats.Intel.Cache.{
  Disk, write_file, remove_file, valid_at, path_for_quote, entry_found, file_found, get_at,
  encoded_entry, put_at,
}
use attes_tam.Rats.Intel.Cache.Roundtrip.{ReadsBack}
use attes_tam.Rats.Intel.Verifier.{IntelVerifier, fetch_with}
use attes_tam.Rats.Intel.Verifier.Faithful.{
  History, WasStoring, IsStored, Runs, empty_disk, Runs-IsFaithful,
}

-- The entry that Get has found.
record IsFound (lib : IntelLibrary) (path : Bytes) (c : Collateral) (now : Time) (disk : Disk)
    : Type 0 where
  content : Bytes
  entry : CacheEntry
  is_content : disk.files path ≡ some content
  is_decoded : lib.decode_cache_entry content ≡ some entry
  is_collateral : entry.collateral ≡ some c
  is_valid : now < entry.expires_at

module _ (lib : IntelLibrary) (path : Bytes) (c : Collateral) (now : Time) (disk : Disk) where
  before_expiry : (e : CacheEntry) → valid_at e now ≡ true → now < e.expires_at
  unfolding valid_at
  before_expiry e q = ground arith

  entry-IsFound :
      (content : Bytes) (o : Option CacheEntry)
      → disk.files path ≡ some content
      → lib.decode_cache_entry content ≡ o
      → (entry_found lib path now disk o).0 ≡ ok (some c)
      → IsFound lib path c now disk
  unfolding valid_at
  entry-IsFound content none f d h = cc
  entry-IsFound content (some e) f d h = elim (Bool-cases (valid_at e now)) [
    | inl q ↦ record {
      content = content;
      entry = e;
      is_content = f;
      is_decoded = d;
      is_collateral = ok-injective e.collateral (some c) (rw q at h);
      is_valid = before_expiry e q;
    }
    | inr q ↦ let found = rw q at h in cc
  ]

  file-IsFound :
      (o : Option Bytes)
      → disk.files path ≡ o
      → (file_found lib path now disk o).0 ≡ ok (some c)
      → IsFound lib path c now disk
  file-IsFound none f h = cc
  file-IsFound (some []) f h = cc
  file-IsFound (some (b ∷ content)) f h =
      entry-IsFound (b ∷ content) (lib.decode_cache_entry (b ∷ content)) f refl h

  -- Of an entry that a faithful disk holds.
  found-IsFetched :
      (v : IntelVerifier) (past : History)
      → ReadsBack lib
      → (found : IsFound lib path c now disk) → (s : IsStored lib v past path found.content)
      → (s.collateral ≡ c) × (found.entry.expires_at ≡ s.is_encoded.expires_at)
  found-IsFetched v past back found s =
      let e = s.is_encoded in
      let same =
        some-injective found.entry
          (record { expires_at = e.expires_at; collateral = some s.collateral })
          (sym found.is_decoded ∙ back.decode-encode _ found.content e.is_content) in
      (
        some-injective s.collateral c (ap (λ x. x.collateral) (sym same) ∙ found.is_collateral),
        ap (λ x. x.expires_at) same,
      )

get-IsFound :
    (lib : IntelLibrary) (quote : Bytes) (c : Collateral) (now : Time) (disk : Disk)
    → (Cache.get lib quote now disk).0 ≡ ok (some c)
    → (path : Bytes) × ((path_for_quote lib quote ≡ ok path) × IsFound lib path c now disk)
unfolding Cache.get
get-IsFound lib quote c now disk h = step (path_for_quote lib quote) refl h
  where
    get_if : Bytes → Bool → Result (Option Collateral) × Disk
    get_if path b = if b then file_found lib path now disk (disk.files path) else (err other, disk)

    readable :
        (path : Bytes) (b : Bool) → (get_if path b).0 ≡ ok (some c) → IsFound lib path c now disk
    readable path true h = file-IsFound lib path c now disk (disk.files path) refl h
    readable path false h = cc

    step :
        (r : Result Bytes)
        → path_for_quote lib quote ≡ r
        → (get_at lib r now disk).0 ≡ ok (some c)
        → (path : Bytes) × ((path_for_quote lib quote ≡ ok path) × IsFound lib path c now disk)
    step (err e) q h = cc
    step (ok path) q h = (path, (q, readable path disk.can_read h))

expiry_le :
    (lib : IntelLibrary) (c : Collateral) (now t : Time)
    → collateral_expiry lib c now ≡ ok t
    → t ≤ now + cache_ttl
unfolding collateral_expiry
expiry_le lib c now t h =
    let (next, (_, last)) = >>=-eq-ok (collateral_next_update lib c) _ t h in
    subst (λ x. x ≤ now + cache_ttl) (ok-injective (earlier (now + cache_ttl) next) t last)
      (bounded (now + cache_ttl) next)
  where
    bounded : (limit : Time) (next : Option Time) → earlier limit next ≤ limit
    bounded limit none = omega arith
    bounded limit (some u) = ground arith

-- One of the runs of `past` processed the quote `origin`, which has the same file, and stored the
-- collateral that the service gave for it. That was less than a week before `now`, and the
-- collateral has not expired since.
pub record IsServed (lib : IntelLibrary) (v : IntelVerifier) (past : History) (quote : Bytes)
    (c : Collateral) (now : Time) : Type 0 where
  pub origin : Bytes
  pub path : Bytes
  pub is_path : path_for_quote lib quote ≡ ok path
  pub is_origin_path : path_for_quote lib origin ≡ ok path
  pub is_fetched : fetch_with lib v v.pcs_client origin ≡ ok c
  pub stored_at : Time
  pub was_storing : WasStoring past origin stored_at
  pub is_recent : now < stored_at + 7 * 24 * 3600 * second
  pub expires_at : Time
  pub is_expiry : collateral_expiry lib c stored_at ≡ ok expires_at
  pub is_valid : now < expires_at

-- Of a file that was stored, and found.
found-IsServed :
    (lib : IntelLibrary) (v : IntelVerifier) (past : History) (quote path : Bytes) (c : Collateral)
    (now : Time) (disk : Disk)
    → ReadsBack lib
    → path_for_quote lib quote ≡ ok path
    → (found : IsFound lib path c now disk) → IsStored lib v past path found.content
    → IsServed lib v past quote c now
found-IsServed lib v past quote path c now disk back named found s =
    let (same, expiry) = found-IsFetched lib path c now disk v past back found s in
    let expires =
      ap (λ x. collateral_expiry lib x s.stored_at) (sym same) ∙ s.is_encoded.is_expiry in
    record {
      origin = s.quote;
      path = path;
      is_path = named;
      is_origin_path = s.is_encoded.is_path;
      is_fetched = s.is_fetched ∙ ap (λ x. ok x) same;
      stored_at = s.stored_at;
      was_storing = s.was_storing;
      is_recent = omega (
        arith,
        found.is_valid,
        expiry,
        expiry_le lib c s.stored_at s.is_encoded.expires_at expires,
      );
      expires_at = s.is_encoded.expires_at;
      is_expiry = expires;
      is_valid = subst (λ t. now < t) expiry found.is_valid;
    }

-- If the directory was empty at first, then after any runs of the verifier, with any quotes, any
-- clock and any faults of the disk, collateral that Get returns for a quote was fetched from the
-- service for a quote with the same file, one of those runs processed that quote and stored it at a
-- time less than a week ago, and it has not expired.
pub get-IsServed :
    (lib : IntelLibrary) (v : IntelVerifier) (quote : Bytes) (c : Collateral) (now : Time)
    {past : History} {disk : Disk}
    → ReadsBack lib
    → Runs lib v empty_disk past disk
    → (Cache.get lib quote now disk).0 ≡ ok (some c)
    → IsServed lib v past quote c now
get-IsServed lib v quote c now {past} {disk} back runs h =
    let (path, (named, found)) = get-IsFound lib quote c now disk h in
    found-IsServed lib v past quote path c now disk back named found
      (Runs-IsFaithful lib v runs (λ p x e. cc) path found.content found.is_content)
