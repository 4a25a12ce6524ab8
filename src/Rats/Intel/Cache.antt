-- ===== src/Rats/Intel/Cache.antt =====
-- intelQVLCollateralCache of internal/infra/rats/intel_qvl_collateral.go. The cache directory is a
-- function from file names to contents.
pub mod Key
pub mod Roundtrip
use attes_tam.Base.{
  Bool, true, false, not, ◌&&◌, Option, none, some, [], ◌∷◌, ◌++◌, Bytes, bytes_eq, ltb, ◌==◌,
  if◌then◌else◌,
}
use attes_tam.Model.{Time, zero_time, other}
use attes_tam.Exec.{Result, ok, err}
use attes_tam.Text.{text}
use attes_tam.Rats.Results.{◌>>=◌, required}
use attes_tam.Rats.Intel.Collateral.{Collateral, CacheEntry}
use attes_tam.Rats.Intel.Library.{IntelLibrary}
use attes_tam.Rats.Intel.Certificates.{extract_quote_pck_ca}
use attes_tam.Rats.Intel.NextUpdate.{collateral_expiry}
use attes_tam.Rats.Intel.Pcs.{extract_fmspc, fmspc_cache_key_value}

-- `can_read` is false where ReadFile fails for another reason than that there is no such file, and
-- `can_write` where one of the calls from CreateTemp to Rename fails.
pub record Disk : Type 0 where
  pub files : Bytes → Option Bytes
  pub can_read : Bool
  pub can_write : Bool

abbrev pub write_file : Bytes → Bytes → Disk → Disk
write_file path content disk = record disk {
  files = λ p. if bytes_eq p path then some content else disk.files p;
}

abbrev pub remove_file : Bytes → Disk → Disk
remove_file path disk = record disk { files = λ p. if bytes_eq p path then none else disk.files p }

abbrev pub has_collateral : Option Collateral → Bool
has_collateral none = false
has_collateral (some _) = true

unfoldable pub valid_at : CacheEntry → Time → Bool
valid_at e now =
    has_collateral e.collateral && (not (e.expires_at == zero_time) && ltb now e.expires_at)

module _ (lib : IntelLibrary) where
  -- intelQVLCollateralCacheKey
  unfoldable pub cache_key : Bytes → Result Bytes
  unfolding extract_fmspc fmspc_cache_key_value extract_quote_pck_ca
  cache_key [] = err other
  cache_key (b ∷ quote) = do
    fmspc ← extract_fmspc lib (b ∷ quote)
    value ← fmspc_cache_key_value fmspc
    ca ← extract_quote_pck_ca lib (b ∷ quote)
    ok (text "fmspc-" ++ (value ++ (text "-pckca-" ++ ca)))

  -- The name in the directory.
  unfoldable pub path_for_quote : Bytes → Result Bytes
  unfolding cache_key
  path_for_quote quote = do key ← cache_key quote; ok (key ++ text ".bin")

  -- newIntelQVLCollateralCacheEntry
  unfoldable pub new_cache_entry : Collateral → Time → Result CacheEntry
  unfolding collateral_expiry
  new_cache_entry c now = do
    expires_at ← collateral_expiry lib c now
    ok (record { expires_at = expires_at; collateral = some c })

  -- An expired entry is removed, and counts as none.
  abbrev pub entry_found :
      Bytes → Time → Disk → Option CacheEntry → Result (Option Collateral) × Disk
  entry_found path now disk none = (err other, disk)
  entry_found path now disk (some e) =
      if valid_at e now then (ok e.collateral, disk) else (ok none, remove_file path disk)

  abbrev pub file_found : Bytes → Time → Disk → Option Bytes → Result (Option Collateral) × Disk
  file_found path now disk none = (ok none, disk)
  file_found path now disk (some []) = (err other, disk)
  file_found path now disk (some (b ∷ content)) =
      entry_found path now disk (lib.decode_cache_entry (b ∷ content))

  abbrev pub get_at : Result Bytes → Time → Disk → Result (Option Collateral) × Disk
  get_at (err e) now disk = (err e, disk)
  get_at (ok path) now disk =
      if disk.can_read then file_found path now disk (disk.files path) else (err other, disk)

  unfoldable pub get : Bytes → Time → Disk → Result (Option Collateral) × Disk
  unfolding path_for_quote valid_at bytes_eq
  get quote now disk = get_at (path_for_quote quote) now disk

  -- What Put writes, and where.
  unfoldable pub encoded_entry : Bytes → Collateral → Time → Result (Bytes × Bytes)
  unfolding new_cache_entry path_for_quote
  encoded_entry quote c now = do
    entry ← new_cache_entry c now
    content ← required (lib.encode_cache_entry entry)
    path ← path_for_quote quote
    ok (path, content)

  -- A temporary file is renamed at the end, so that a failure leaves the file as it was.
  abbrev pub put_at : Result (Bytes × Bytes) → Disk → Result Unit × Disk
  put_at (err e) disk = (err e, disk)
  put_at (ok (path, content)) disk =
      if disk.can_write then (ok tt, write_file path content disk) else (err other, disk)

  unfoldable pub put : Bytes → Collateral → Time → Disk → Result Unit × Disk
  unfolding encoded_entry bytes_eq
  put quote c now disk = put_at (encoded_entry quote c now) disk
