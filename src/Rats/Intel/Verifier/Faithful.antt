-- ===== src/Rats/Intel/Verifier/Faithful.antt =====
-- The files of the cache over the verifier's runs
-- (internal/infra/rats/intel_qvl_collateral.go, intel_qvl_verifier.go).
use attes_tam.Base.{
  ◌≡◌, refl, ◌⊎◌, sym, subst, Bool, true, false, Option, none, some, some-injective, List, [], ◌∷◌,
  Bytes, bytes_eq, bytes_eq→eq, Bool-cases, inl, inr, if◌then◌else◌,
}
use attes_tam.Model.{Time, other}
use attes_tam.Exec.{Result, ok, err}
use attes_tam.Rats.Intel.Collateral.{Collateral, CacheEntry}
use attes_tam.Rats.Intel.Library.{IntelLibrary}
use attes_tam.Rats.Intel.Cache
use attes_tam.Rats.Intel.Cache.{
  Disk, write_file, remove_file, valid_at, path_for_quote, entry_found, file_found, get_at,
  encoded_entry, put_at,
}
use attes_tam.Rats.Intel.Cache.Roundtrip.{IsEncoded, encoded_entry-IsEncoded}
use attes_tam.Rats.Intel.Verifier.{
  IntelVerifier, Clock, fetch_with, stored, after_cache, quote_collateral,
}

-- What the verifier has processed, the last first: the quotes, each with the clock of its run.
abbrev pub History : Type 0
History = List (Bytes × Clock)

-- The quote was processed, and the time of that run's storing was `t`.
abbrev pub WasStoring : History → Bytes → Time → Type 0
WasStoring [] quote t = ⊥
WasStoring ((q, clock) ∷ past) quote t =
    ((quote ≡ q) × (t ≡ clock.stored_at)) ⊎ WasStoring past quote t

-- The file was written in one of the runs, with collateral that was fetched for its quote.
pub record IsStored (lib : IntelLibrary) (v : IntelVerifier) (past : History) (path content : Bytes)
    : Type 0 where
  pub quote : Bytes
  pub collateral : Collateral
  pub stored_at : Time
  pub was_storing : WasStoring past quote stored_at
  pub is_fetched : fetch_with lib v v.pcs_client quote ≡ ok collateral
  pub is_encoded : IsEncoded lib quote collateral stored_at path content

abbrev pub IsFaithful : IntelLibrary → IntelVerifier → History → Disk → Type 0
IsFaithful lib v past disk =
    (path content : Bytes) → disk.files path ≡ some content → IsStored lib v past path content

-- The runs of `past`, from `before`; the disk's faults come and go between them.
pub data Runs (lib : IntelLibrary) (v : IntelVerifier) (before : Disk)
    : History → Disk → Type 0 where
  here : Runs lib v before [] before
  verify :
      {past : History} {after : Disk} (quote : Bytes) (clock : Clock)
      → Runs lib v before past after
      → Runs lib v before ((quote, clock) ∷ past) (quote_collateral lib v quote clock after).1
  fault :
      {past : History} {after : Disk} (can_read can_write : Bool)
      → Runs lib v before past after
      → Runs lib v before past (record after { can_read = can_read; can_write = can_write })

abbrev pub empty_disk : Disk
empty_disk = record { files = λ _. none; can_read = true; can_write = true }

module _ (lib : IntelLibrary) (v : IntelVerifier) (past : History) where
  if-IsFaithful :
      {A : Type 0} (b : Bool) (x y : Result A × Disk)
      → IsFaithful lib v past x.1
      → IsFaithful lib v past y.1
      → IsFaithful lib v past (if b then x else y).1
  if-IsFaithful true x y h k = h
  if-IsFaithful false x y h k = k

  removed-IsFaithful :
      (path : Bytes) (disk : Disk)
      → IsFaithful lib v past disk
      → IsFaithful lib v past (remove_file path disk)
  removed-IsFaithful path disk h p content e = split (bytes_eq p path) e
    where
      split :
          (b : Bool)
          → (if b then none else disk.files p) ≡ some content
          → IsStored lib v past p content
      split true e = cc
      split false e = h p content e

  written-IsFaithful :
      (path content : Bytes) (disk : Disk)
      → IsStored lib v past path content
      → IsFaithful lib v past disk
      → IsFaithful lib v past (write_file path content disk)
  written-IsFaithful path content disk s h p c e = split (bytes_eq p path) refl e
    where
      split :
          (b : Bool)
          → bytes_eq p path ≡ b
          → (if b then some content else disk.files p) ≡ some c
          → IsStored lib v past p c
      split true q e =
          subst (λ x. IsStored lib v past x c) (sym (bytes_eq→eq p path q))
            (subst (λ x. IsStored lib v past path x) (some-injective content c e) s)
      split false q e = h p c e

  entry_found-IsFaithful :
      (path : Bytes) (now : Time) (disk : Disk) (o : Option CacheEntry)
      → IsFaithful lib v past disk
      → IsFaithful lib v past (entry_found lib path now disk o).1
  entry_found-IsFaithful path now disk none h = h
  entry_found-IsFaithful path now disk (some e) h = elim (Bool-cases (valid_at e now)) [
    | inl q ↦ rw q h
    | inr q ↦ rw q (removed-IsFaithful path disk h)
  ]

  file_found-IsFaithful :
      (path : Bytes) (now : Time) (disk : Disk) (o : Option Bytes)
      → IsFaithful lib v past disk
      → IsFaithful lib v past (file_found lib path now disk o).1
  file_found-IsFaithful path now disk none h = h
  file_found-IsFaithful path now disk (some []) h = h
  file_found-IsFaithful path now disk (some (b ∷ content)) h =
      entry_found-IsFaithful path now disk (lib.decode_cache_entry (b ∷ content)) h

  get_at-IsFaithful :
      (r : Result Bytes) (now : Time) (disk : Disk)
      → IsFaithful lib v past disk
      → IsFaithful lib v past (get_at lib r now disk).1
  get_at-IsFaithful (err e) now disk h = h
  get_at-IsFaithful (ok path) now disk h =
      if-IsFaithful disk.can_read (file_found lib path now disk (disk.files path)) (err other, disk)
        (file_found-IsFaithful path now disk (disk.files path) h) h

  put-IsFaithful :
      (quote : Bytes) (c : Collateral) (now : Time) (disk : Disk)
      → WasStoring past quote now
      → fetch_with lib v v.pcs_client quote ≡ ok c
      → IsFaithful lib v past disk
      → IsFaithful lib v past (Cache.put lib quote c now disk).1
  unfolding Cache.put
  put-IsFaithful quote c now disk was f h = step (encoded_entry lib quote c now) refl
    where
      step :
          (r : Result (Bytes × Bytes))
          → encoded_entry lib quote c now ≡ r
          → IsFaithful lib v past (put_at lib r disk).1
      step (err e) q = h
      step (ok (path, content)) q =
          if-IsFaithful disk.can_write (ok tt, write_file path content disk) (err other, disk)
            (written-IsFaithful path content disk
              (record {
                quote = quote;
                collateral = c;
                stored_at = now;
                was_storing = was;
                is_fetched = f;
                is_encoded = encoded_entry-IsEncoded lib quote c now path content q;
              })
              h)
            h

  stored-IsFaithful :
      (quote : Bytes) (now : Time) (disk : Disk) (r : Result Collateral)
      → WasStoring past quote now
      → fetch_with lib v v.pcs_client quote ≡ r
      → IsFaithful lib v past disk
      → IsFaithful lib v past (stored lib v quote now r disk).1
  stored-IsFaithful quote now disk (err e) was q h = h
  stored-IsFaithful quote now disk (ok c) was q h = put-IsFaithful quote c now disk was q h

  after_cache-IsFaithful :
      (quote : Bytes) (now : Time) (p : Result (Option Collateral) × Disk)
      → WasStoring past quote now
      → IsFaithful lib v past p.1
      → IsFaithful lib v past (after_cache lib v quote now p).1
  after_cache-IsFaithful quote now (err e, disk) was h = h
  after_cache-IsFaithful quote now (ok (some c), disk) was h = h
  after_cache-IsFaithful quote now (ok none, disk) was h =
      stored-IsFaithful quote now disk (fetch_with lib v v.pcs_client quote) was refl h

  quote_collateral-IsFaithful :
      (quote : Bytes) (clock : Clock) (disk : Disk)
      → WasStoring past quote clock.stored_at
      → IsFaithful lib v past disk
      → IsFaithful lib v past (quote_collateral lib v quote clock disk).1
  unfolding quote_collateral Cache.get
  quote_collateral-IsFaithful quote clock disk was h =
      if-IsFaithful v.uses_cache
        (after_cache lib v quote clock.stored_at (Cache.get lib quote clock.looked_up_at disk))
        (fetch_with lib v v.pcs_client quote, disk)
        (after_cache-IsFaithful quote clock.stored_at (Cache.get lib quote clock.looked_up_at disk)
          was (get_at-IsFaithful (path_for_quote lib quote) clock.looked_up_at disk h))
        h

module _ (lib : IntelLibrary) (v : IntelVerifier) where
  -- What was stored before a run was stored.
  IsFaithful-later :
      (past : History) (quote : Bytes) (clock : Clock) (disk : Disk)
      → IsFaithful lib v past disk
      → IsFaithful lib v ((quote, clock) ∷ past) disk
  IsFaithful-later past quote clock disk h path content e =
      let s = h path content e in
      record {
        quote = s.quote;
        collateral = s.collateral;
        stored_at = s.stored_at;
        was_storing = inr s.was_storing;
        is_fetched = s.is_fetched;
        is_encoded = s.is_encoded;
      }

  pub Runs-IsFaithful :
      {before : Disk} {past : History} {after : Disk}
      → Runs lib v before past after
      → IsFaithful lib v [] before
      → IsFaithful lib v past after
  Runs-IsFaithful here h = h
  Runs-IsFaithful (verify {past} {after} quote clock runs) h =
      quote_collateral-IsFaithful lib v ((quote, clock) ∷ past) quote clock after (inl (refl, refl))
        (IsFaithful-later past quote clock after (Runs-IsFaithful runs h))
  Runs-IsFaithful (fault r w runs) h = Runs-IsFaithful runs h
