-- ===== src/Rats/Intel/Chain.antt =====
-- The certification data of an SGX quote (internal/infra/rats/intel_qvl_pcs.go).
pub mod Bounds
use attes_tam.Base.{ℕ, ◌+◌, true, false, not, ◌&&◌, Bytes, length, ltb, ◌==◌, if◌then◌else◌}
use attes_tam.Rats.Quote.{
  Outcome, bytes_read, refused, panic, slice, slice_or_panic, number_or_panic, sgx_quote3_size,
  quote_header_version_size, sgx_report_body_size,
}

-- a signature, a key, the report of the quoting enclave, and its signature
abbrev pub fixed_ecdsa_sig_data_size : ℕ
fixed_ecdsa_sig_data_size = 64 + 64 + sgx_report_body_size + 64

-- From the certification data's header on. `int` has 64 bits, so the sums do not wrap.
unfoldable pub extract_cert_data : ℕ → Bytes → Outcome
unfolding slice
extract_cert_data offset quote =
    if ltb (length quote) (offset + 6)
    then refused
    else number_or_panic (slice offset 2 quote) λ key_type.
      number_or_panic (slice (offset + 2) 4 quote) λ size.
        if ltb (length quote) (offset + 6 + size)
        then refused
        else if not (key_type == 5)
        then refused
        else slice_or_panic (slice (offset + 6) size quote)

-- extractIntelQVLQuotePCKCertChain
unfoldable pub extract_pck_cert_chain : Bytes → Outcome
unfolding slice extract_cert_data
extract_pck_cert_chain quote =
    if ltb (length quote) sgx_quote3_size
    then refused
    else number_or_panic (slice 0 quote_header_version_size quote) λ version.
      if not (version == 3) && not (version == 4)
      then refused
      else number_or_panic (slice 432 4 quote) λ signature_size.
        if ltb (length quote) (sgx_quote3_size + signature_size)
        then refused
        else if ltb signature_size (fixed_ecdsa_sig_data_size + 8)
        then refused
        else number_or_panic (slice (sgx_quote3_size + fixed_ecdsa_sig_data_size) 2 quote)
            λ auth_size.
              extract_cert_data (sgx_quote3_size + fixed_ecdsa_sig_data_size + (2 + auth_size))
                quote
