-- ===== src/Rats/Intel/Cache/Roundtrip.antt =====
-- Put, then Get (internal/infra/rats/intel_qvl_collateral.go).
use attes_tam.Base.{
  ◌≡◌, ◌≢◌, refl, ap, sym, ◌∙◌, Bool, true, false, none, some, [], ◌∷◌, Bytes, bytes_eq_refl, ltb,
  arith, if◌then◌else◌,
}
use attes_tam.Model.{Time, other}
use attes_tam.Exec.{Result, ok, err}
use attes_tam.Rats.Results.{required, >>=-eq-ok, required-eq-ok}
use attes_tam.Exec.{ok-injective}
use attes_tam.Rats.Intel.Collateral.{Collateral, CacheEntry}
use attes_tam.Rats.Intel.Library.{IntelLibrary}
use attes_tam.Rats.Intel.NextUpdate.{collateral_expiry}
use attes_tam.Rats.Intel.Cache.{
  Disk, write_file, remove_file, valid_at, path_for_quote, new_cache_entry, entry_found, file_found,
  get_at, get, encoded_entry, put_at, put,
}

-- encoding/json reads back what it writes of an entry, and writes something.
pub record ReadsBack (lib : IntelLibrary) : Type 0 where
  pub decode-encode :
      (e : CacheEntry) (content : Bytes)
      → lib.encode_cache_entry e ≡ some content
      → lib.decode_cache_entry content ≡ some e
  pub not_empty : (e : CacheEntry) → lib.encode_cache_entry e ≢ some []

-- What Put makes of a quote and its collateral: the file and its content.
pub record IsEncoded (lib : IntelLibrary) (quote : Bytes) (c : Collateral) (now : Time)
    (path content : Bytes) : Type 0 where
  pub is_path : path_for_quote lib quote ≡ ok path
  pub expires_at : Time
  pub is_expiry : collateral_expiry lib c now ≡ ok expires_at
  pub is_content :
      lib.encode_cache_entry (record { expires_at = expires_at; collateral = some c })
      ≡ some content

module _ (lib : IntelLibrary) where
  pub encoded_entry-IsEncoded :
      (quote : Bytes) (c : Collateral) (now : Time) (path content : Bytes)
      → encoded_entry lib quote c now ≡ ok (path, content)
      → IsEncoded lib quote c now path content
  unfolding encoded_entry new_cache_entry
  encoded_entry-IsEncoded quote c now path content h =
      let (e, (made, rest)) = >>=-eq-ok (new_cache_entry lib c now) _ (path, content) h in
      let (t, (expiry, entry)) = >>=-eq-ok (collateral_expiry lib c now) _ e made in
      let (written, (encoded, rest')) =
        >>=-eq-ok (required (lib.encode_cache_entry e)) _ (path, content) rest in
      let (name, (named, last)) = >>=-eq-ok (path_for_quote lib quote) _ (path, content) rest' in
      let pair = ok-injective (name, written) (path, content) last in
      let whole = ok-injective (record { expires_at = t; collateral = some c }) e entry in
      record {
        is_path = named ∙ ap (λ p. ok p.0) pair;
        expires_at = t;
        is_expiry = expiry;
        is_content =
            ap lib.encode_cache_entry whole
            ∙ (required-eq-ok (lib.encode_cache_entry e) written encoded ∙ ap (λ p. some p.1) pair);
      }

  -- A Put that succeeds writes one file.
  pub put_at-written :
      (r : Result (Bytes × Bytes)) (disk : Disk)
      → (put_at lib r disk).0 ≡ ok tt
      → (p : Bytes × Bytes) × ((r ≡ ok p) × ((put_at lib r disk).1 ≡ write_file p.0 p.1 disk))
  put_at-written (err e) disk h = cc
  put_at-written (ok (path, content)) disk h = ((path, content), (refl, split disk.can_write h))
    where
      written_if : Bool → Result Unit × Disk
      written_if b = if b then (ok tt, write_file path content disk) else (err other, disk)

      split :
          (b : Bool) → (written_if b).0 ≡ ok tt → (written_if b).1 ≡ write_file path content disk
      split true e = refl
      split false e = cc

  -- Reading the file that holds an entry.
  found-entry :
      (path content : Bytes) (e : CacheEntry) (now : Time) (disk : Disk)
      → ReadsBack lib
      → lib.encode_cache_entry e ≡ some content
      → file_found lib path now disk (some content) ≡ entry_found lib path now disk (some e)
  found-entry path [] e now disk back h = absurd (back.not_empty e h)
  found-entry path (b ∷ content) e now disk back h =
      ap (entry_found lib path now disk) (back.decode-encode e (b ∷ content) h)

  after_entry :
      (path : Bytes) (c : Collateral) (t now : Time) (disk : Disk)
      → entry_found lib path now disk (some (record { expires_at = t; collateral = some c }))
        ≡ (if ltb now t then (ok (some c), disk) else (ok none, remove_file path disk))
  unfolding valid_at
  after_entry path c t now disk = ground arith

module _ (lib : IntelLibrary) (quote path content : Bytes) (c : Collateral) (now : Time) where
  -- The file is found, whatever else the disk holds.
  get-written :
      (later : Time) (disk : Disk)
      → ReadsBack lib
      → disk.can_read ≡ true
      → (made : IsEncoded lib quote c now path content)
      → get lib quote later (write_file path content disk) ≡ (
          if ltb later made.expires_at
          then (ok (some c), write_file path content disk)
          else (ok none, remove_file path (write_file path content disk)))
  unfolding get
  get-written later disk back readable made =
      ap (λ r. get_at lib r later written) made.is_path
      ∙ (ap
            (λ b.
              if b
              then file_found lib path later written (written.files path)
              else (err other, written))
            readable
          ∙ (ap
                (λ b.
                  file_found lib path later written (if b then some content else disk.files path))
                (bytes_eq_refl path)
              ∙ (found-entry lib path content _ later written back made.is_content
                  ∙ after_entry lib path c made.expires_at later written)))
    where
      written : Disk
      written = write_file path content disk

-- What Put has stored for a quote, Get returns until it expires; from then on Get returns none and
-- removes the file.
pub get-put :
    (lib : IntelLibrary) (quote : Bytes) (c : Collateral) (now later t : Time) (disk : Disk)
    → ReadsBack lib
    → disk.can_read ≡ true
    → (put lib quote c now disk).0 ≡ ok tt
    → collateral_expiry lib c now ≡ ok t
    → (path : Bytes) × ((path_for_quote lib quote ≡ ok path)
        × (get lib quote later (put lib quote c now disk).1 ≡ (
            if ltb later t
            then (ok (some c), (put lib quote c now disk).1)
            else (ok none, remove_file path (put lib quote c now disk).1))))
unfolding put get
get-put lib quote c now later t disk back readable done expiry =
    let ((path, content), (encoded, after)) =
      put_at-written lib (encoded_entry lib quote c now) disk done in
    let made = encoded_entry-IsEncoded lib quote c now path content encoded in
    let same = ok-injective made.expires_at t (sym made.is_expiry ∙ expiry) in
    (
      path,
      (
        made.is_path,
        rw (after, sym same)
            (get-written lib quote path content c now later disk back readable made),
      ),
    )
