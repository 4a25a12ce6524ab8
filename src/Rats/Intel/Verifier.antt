-- ===== src/Rats/Intel/Verifier.antt =====
-- IntelQVLVerifier of internal/infra/rats/intel_qvl_verifier.go. The log is left out.
pub mod Faithful
pub mod Served
pub mod Sound
use attes_tam.Base.{
  ℕ, Bool, Option, none, some, [], ◌∷◌, Bytes, bytes_eq, not, ◌==◌, ◌&&◌, if◌then◌else◌,
}
use attes_tam.Model.{Time, other}
use attes_tam.Exec.{Result, ok, err}
use attes_tam.Rats.Qvl.{is_intel_qvl_result_affirming_value, result_to_ear_status}
use attes_tam.Rats.Claims.{ProcessedAttestation}
use attes_tam.Rats.Results.{◌>>=◌, ◌>>◌, required, refuse_if}
use attes_tam.Rats.Intel.Collateral.{Collateral}
use attes_tam.Rats.Intel.Library.{NativeResult, IntelLibrary}
use attes_tam.Rats.Intel.Pcs.{PcsConfig, PcsClient, new_pcs_client, fetch}
use attes_tam.Rats.Intel.Cache
use attes_tam.Rats.Intel.Cache.{Disk}

-- `uses_cache` is false where the cache is nil, and `pcs_client` is `none` where that is nil.
pub record IntelVerifier : Type 0 where
  pub uses_cache : Bool
  pub pcs_client : Option PcsClient

-- bytesWithTerminatingNUL
unfoldable pub with_terminating_nul : Bytes → Bytes
with_terminating_nul [] = []
with_terminating_nul (b ∷ []) = if b == 0 then b ∷ [] else b ∷ 0 ∷ []
with_terminating_nul (b ∷ c ∷ s) = b ∷ with_terminating_nul (c ∷ s)

-- intelQVLCRLBytesForNative
unfoldable pub crl_for_native : ℕ → ℕ → Bytes → Bytes
unfolding with_terminating_nul
crl_for_native major minor crl =
    if (major == 3) && (minor == 1) then crl else with_terminating_nul crl

-- The collateral as the C structure has it, in verifyIntelQVLQuote.
unfoldable pub native_collateral : Collateral → Collateral
unfolding with_terminating_nul crl_for_native
native_collateral c = record c {
  pck_crl_issuer_chain = with_terminating_nul c.pck_crl_issuer_chain;
  root_ca_crl = crl_for_native c.major_version c.minor_version c.root_ca_crl;
  pck_crl = crl_for_native c.major_version c.minor_version c.pck_crl;
  tcb_info_issuer_chain = with_terminating_nul c.tcb_info_issuer_chain;
  tcb_info = with_terminating_nul c.tcb_info;
  qe_identity_issuer_chain = with_terminating_nul c.qe_identity_issuer_chain;
  qe_identity = with_terminating_nul c.qe_identity;
}

-- When the clock is read: by Get, by Put and by verifyIntelQVLQuote.
pub record Clock : Type 0 where
  pub looked_up_at : Time
  pub stored_at : Time
  pub verified_at : Time

module _ (lib : IntelLibrary) where
  -- NewIntelQVLVerifier; `can_make_directory` is false where MkdirAll fails.
  unfoldable pub new_intel_qvl_verifier : Bytes → Bool → PcsConfig → Result IntelVerifier
  unfolding bytes_eq new_pcs_client
  new_intel_qvl_verifier cache_dir can_make_directory cfg = do
    refuse_if (not (bytes_eq cache_dir []) && not can_make_directory)
    client ← new_pcs_client lib cfg
    ok (record { uses_cache = not (bytes_eq cache_dir []); pcs_client = some client })

module _ (lib : IntelLibrary) (v : IntelVerifier) where
  -- getIntelQVLQuoteCollateral
  abbrev pub fetch_with : Option PcsClient → Bytes → Result Collateral
  fetch_with none quote = err other
  fetch_with (some c) quote = fetch lib c quote

  -- Collateral that was fetched is stored; that it is not is only logged.
  abbrev pub stored : Bytes → Time → Result Collateral → Disk → Result Collateral × Disk
  stored quote now (err e) disk = (err e, disk)
  stored quote now (ok c) disk = (ok c, (Cache.put lib quote c now disk).1)

  abbrev pub after_cache :
      Bytes → Time → Result (Option Collateral) × Disk → Result Collateral × Disk
  after_cache quote now (err e, disk) = (err e, disk)
  after_cache quote now (ok (some c), disk) = (ok c, disk)
  after_cache quote now (ok none, disk) = stored quote now (fetch_with v.pcs_client quote) disk

  unfoldable pub quote_collateral : Bytes → Clock → Disk → Result Collateral × Disk
  unfolding Cache.get Cache.put fetch
  quote_collateral quote clock disk =
      if v.uses_cache
      then after_cache quote clock.stored_at (Cache.get lib quote clock.looked_up_at disk)
      else (fetch_with v.pcs_client quote, disk)

module _ {Key : Type 0} (lib : IntelLibrary) where
  abbrev pub attestation_of : NativeResult → ProcessedAttestation Key
  attestation_of r = record {
    ear_status =
        result_to_ear_status (
          is_intel_qvl_result_affirming_value r.verification_result r.collateral_expiration_status);
    attestation_nonce = none;
    attestation_ueid = none;
    attestation_key = none;
  }

  -- intelQVLQuoteVerifier, and what Process makes of its result
  unfoldable pub verified : Time → Bytes → Result Collateral → Result (ProcessedAttestation Key)
  unfolding native_collateral is_intel_qvl_result_affirming_value
  verified now quote collateral = do
    c ← collateral
    r ← required (lib.verify_quote now quote (native_collateral c))
    ok (attestation_of r)

  unfoldable pub process :
      IntelVerifier → Bytes → Clock → Disk → Result (ProcessedAttestation Key) × Disk
  unfolding quote_collateral verified
  process v [] clock disk = (err other, disk)
  process v (b ∷ quote) clock disk =
      let (collateral, disk') = quote_collateral lib v (b ∷ quote) clock disk in
      (verified clock.verified_at (b ∷ quote) collateral, disk')
