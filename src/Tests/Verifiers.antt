-- ===== src/Tests/Verifiers.antt =====
-- The theorems on the verifiers applied to runs.
use attes_tam.Base.{
  ◌+◌, ◌*◌, ◌≡◌, refl, none, some, [], ◌∷◌, Bytes, if◌then◌else◌, ltb, arith, ◌++◌,
}
use attes_tam.Model.{second}
use attes_tam.Exec.{ok}
use attes_tam.Text.{text}
use attes_tam.Rats.Results.{◌>>=◌, required}
use attes_tam.Rats.Quote.Ends.{Ends}
use attes_tam.Rats.Intel.Collateral.{Collateral}
use attes_tam.Rats.Intel.Chain.{extract_pck_cert_chain}
use attes_tam.Rats.Intel.Chain.Bounds.{IsWithin, extract_pck_cert_chain-IsWithin}
use attes_tam.Rats.Intel.Certificates.{
  last_certificate_from_pem, collect_from, extract_quote_pck_ca,
}
use attes_tam.Rats.Intel.Certificates.Loops.{last_of, last_certificate-collect_from}
use attes_tam.Rats.Intel.NextUpdate.{
  cache_ttl, parse_crl_next_update, parse_json_next_update, collateral_expiry,
}
use attes_tam.Rats.Intel.NextUpdate.Soonest.{earliest, read_all}
use attes_tam.Rats.Intel.NextUpdate.Earliest.{collateral_expiry-earliest}
use attes_tam.Rats.Intel.Pcs.{extract_fmspc}
use attes_tam.Rats.Intel.Cache
use attes_tam.Rats.Intel.Cache.{Disk, remove_file, path_for_quote}
use attes_tam.Rats.Intel.Cache.Key.{path_for_quote_inj}
use attes_tam.Rats.Intel.Cache.Roundtrip.{get-put}
use attes_tam.Rats.Intel.Verifier.Faithful.{here, verify, empty_disk}
use attes_tam.Rats.Intel.Verifier.Served.{IsServed, get-IsServed}
use attes_tam.Rats.Intel.Verifier.Sound.{IsVerified, process-IsVerified}
use attes_tam.Tests.Setup.{noon}
use attes_tam.Tests.Intel.{
  intel_library, intel_library-Consumes, intel_library-NamesTime, intel_library-GivesBytes,
  intel_library-ReadsBack, chained_quote, verifier, noon_clock,
}
use attes_tam.Tests.Worlds.{affirmed}
use attes_tam.Tests.Everything.{everything}

extract_pck_cert_chain-IsWithin_example :
    Ends (IsWithin chained_quote) (extract_pck_cert_chain chained_quote)
extract_pck_cert_chain-IsWithin_example = extract_pck_cert_chain-IsWithin chained_quote

extracted : extract_pck_cert_chain chained_quote ≡ attes_tam.Rats.Quote.bytes_read (10 ∷ 11 ∷ [])
unfolding everything
extracted = refl

last_certificate-collect_from_example :
    last_certificate_from_pem intel_library (10 ∷ 11 ∷ [])
    ≡ (collect_from intel_library 9 [] (10 ∷ 11 ∷ []) >>= λ certs. required (last_of certs))
last_certificate-collect_from_example =
    last_certificate-collect_from intel_library (10 ∷ 11 ∷ []) 9 intel_library-Consumes
      (omega arith)

abbrev some_collateral : Collateral
some_collateral = record {
  major_version = 3;
  minor_version = 1;
  tee_type = 0;
  pck_crl_issuer_chain = 1 ∷ [];
  root_ca_crl = 2 ∷ [];
  pck_crl = 3 ∷ [];
  tcb_info_issuer_chain = 4 ∷ [];
  tcb_info = 5 ∷ [];
  qe_identity_issuer_chain = 6 ∷ [];
  qe_identity = 7 ∷ [];
}

collateral_expiry-earliest_example : collateral_expiry intel_library some_collateral noon ≡ (do
  crls ← read_all (parse_crl_next_update intel_library) ((2 ∷ []) ∷ (3 ∷ []) ∷ [])
  jsons ← read_all (parse_json_next_update intel_library) ((5 ∷ []) ∷ (7 ∷ []) ∷ [])
  ok (earliest (noon + cache_ttl) (crls ++ jsons)))
collateral_expiry-earliest_example =
    collateral_expiry-earliest intel_library some_collateral noon intel_library-NamesTime
      intel_library-NamesTime

get-put_example :
    (path : Bytes) × ((path_for_quote intel_library chained_quote ≡ ok path)
      × (Cache.get intel_library chained_quote
            (noon + 5)
            (Cache.put intel_library chained_quote some_collateral noon empty_disk).1
          ≡ (if ltb (noon + 5) (noon + 2 * 24 * 3600 * second)
              then (
                ok (some some_collateral),
                (Cache.put intel_library chained_quote some_collateral noon empty_disk).1,
              )
              else (
                ok none,
                remove_file path
                    (Cache.put intel_library chained_quote some_collateral noon empty_disk).1,
              ))))
unfolding everything
get-put_example =
    get-put intel_library chained_quote some_collateral noon (noon + 5)
      (noon + 2 * 24 * 3600 * second) empty_disk intel_library-ReadsBack refl refl refl

path_for_quote_inj_example :
    (extract_fmspc intel_library chained_quote
      ≡ extract_fmspc intel_library (chained_quote ++ 1 ∷ []))
    × (extract_quote_pck_ca intel_library chained_quote
        ≡ extract_quote_pck_ca intel_library (chained_quote ++ 1 ∷ []))
unfolding everything
path_for_quote_inj_example =
    path_for_quote_inj intel_library chained_quote (chained_quote ++ 1 ∷ [])
      (text "fmspc-010203040506-pckca-platform.bin") intel_library-GivesBytes refl refl

-- What the service answers.
abbrev fetched : Collateral
fetched = record {
  major_version = 3;
  minor_version = 1;
  tee_type = 0;
  pck_crl_issuer_chain = text "chain";
  root_ca_crl = 7 ∷ [];
  pck_crl = 7 ∷ [];
  tcb_info_issuer_chain = text "chain";
  tcb_info = 7 ∷ [];
  qe_identity_issuer_chain = text "chain";
  qe_identity = 7 ∷ [];
}

get-IsServed_example :
    IsServed intel_library verifier
      ((chained_quote, noon_clock) ∷ [])
      (chained_quote ++ 1 ∷ [])
      fetched
      (noon + 5)
unfolding everything
get-IsServed_example =
    get-IsServed intel_library verifier (chained_quote ++ 1 ∷ []) fetched (noon + 5)
      intel_library-ReadsBack (verify chained_quote noon_clock here) refl

process-IsVerified_example : IsVerified intel_library verifier chained_quote noon_clock empty_disk
unfolding everything
process-IsVerified_example =
    process-IsVerified intel_library verifier chained_quote noon_clock empty_disk affirmed refl refl
