-- ===== src/Tam/Bundle.antt =====
-- internal/tam/sgx_quote_bundle.go.
use attes_tam.Base.{
  ◌-◌, Option, none, some, [], ◌∷◌, ◌++◌, Bytes, bytes_eq, length, take, drop, replicate, ltb,
  if◌then◌else◌,
}
use attes_tam.Model.{other}
use attes_tam.Exec.{Result, ok, err}
use attes_tam.Rats.Quote
use attes_tam.Rats.Quote.{Outcome, bytes_read, refused}
use attes_tam.Rats.Claims.{ProcessedAttestation}
use attes_tam.Tam.Library.{Library}

pub record SgxBundle : Type 0 where
  pub quote : Bytes
  pub raw_report_data : Bytes

abbrev pub checked_bundle : Option (Bytes × Bytes) → Result SgxBundle
checked_bundle none = err other
checked_bundle (some ([], _)) = err other
checked_bundle (some (_ ∷ _, [])) = err other
checked_bundle (some (q ∷ quote, r ∷ raw)) =
    ok (record { quote = q ∷ quote; raw_report_data = r ∷ raw })

-- make([]byte, 64) with `sum` copied into it
abbrev pub padded : Bytes → Bytes
padded sum = take 64 sum ++ replicate (64 - length sum) 0

abbrev pub is_bound : Outcome → Bytes → Result Unit
is_bound (bytes_read actual) expected = if bytes_eq actual expected then ok tt else err other
is_bound refused expected = err other
is_bound Quote.panic expected = err other

module _ {Key : Type 0} (lib : Library Key) where
  unfoldable pub decode_sgx_quote3_teep_bundle : Bytes → Result SgxBundle
  decode_sgx_quote3_teep_bundle [] = err other
  decode_sgx_quote3_teep_bundle (b ∷ payload) = checked_bundle (lib.decode_bundle (b ∷ payload))

  -- A panic of ExtractQuoteReportData counts as an error here.
  unfoldable pub verify_sgx_quote_report_data_binding : Bytes → Bytes → Result Unit
  verify_sgx_quote_report_data_binding quote [] = err other
  verify_sgx_quote_report_data_binding quote (r ∷ raw) =
      is_bound (Quote.extract_quote_report_data quote) (padded (lib.sha384 (r ∷ raw)))

  abbrev pub with_key :
      Option Key → Bytes → ProcessedAttestation Key → Result (ProcessedAttestation Key)
  with_key none rest result = err other
  with_key (some key) [] result = ok (record result { attestation_key = some key })
  with_key (some key) (n ∷ nonce) result =
      ok (record result { attestation_key = some key; attestation_nonce = some (n ∷ nonce) })

  -- populateAttestedClaimsFromSGXRawReportData and populateAttestedKeyFromSGXRawReportData; the
  -- empty data is refused with the short.
  unfoldable pub populate_from_sgx :
      Bytes → ProcessedAttestation Key → Result (ProcessedAttestation Key)
  populate_from_sgx raw result =
      if ltb (length raw) 64
      then err other
      else with_key (lib.new_key_ec2 (take 32 raw) (take 32 (drop 32 raw))) (drop 64 raw) result
