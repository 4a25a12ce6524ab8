-- ===== src/Rats/Intel/Pcs.antt =====
-- intelQVLPCSClient of internal/infra/rats/intel_qvl_pcs.go: the collateral of a quote, fetched from
-- Intel's service or a cache of it. Also the FMSPC helpers of intel_qvl_quote.go. The log is left
-- out.
use attes_tam.Base.{
  ℕ, ◌*◌, Bool, false, not, ◌||◌, Option, none, some, List, [], ◌∷◌, Bytes, bytes_eq, length, ◌==◌,
  if◌then◌else◌,
}
use attes_tam.Model.{second, other}
use attes_tam.Exec.{Result, ok, err}
use attes_tam.Text.{text, to_lower, to_upper, trim_space, has_suffix, hex}
use attes_tam.Rats.Results.{◌>>=◌, ◌>>◌, required, refuse_if}
use attes_tam.Rats.Intel.Collateral.{Collateral}
use attes_tam.Rats.Intel.Library.{PemBlock, Url, HttpResponse, IntelLibrary}
use attes_tam.Rats.Intel.Certificates.{last_certificate_from_pem, extract_quote_pck_ca}

abbrev pub fmspc_size : ℕ
fmspc_size = 6

-- What the constructor reads of config.RAConfig; a timeout in nanoseconds.
pub record PcsConfig : Type 0 where
  pub service_url : Bytes
  pub insecure_tls : Bool
  pub subscription_key : Bytes
  pub timeout : ℕ

-- `skips_verification` is what the TLS configuration of the transport says.
pub record PcsClient : Type 0 where
  pub base_url : Url
  pub subscription_key : Bytes
  pub timeout : ℕ
  pub skips_verification : Bool

abbrev pub default_collateral_service_url : Bytes
default_collateral_service_url = text "https://api.trustedservices.intel.com/sgx/certification/v4"

abbrev pub default_timeout : ℕ
default_timeout = 60 * second

abbrev pub intel_host : Bytes
intel_host = text "trustedservices.intel.com"

-- isIntelQVLIntelPCSURL
unfoldable pub is_intel_pcs_url : Url → Bool
unfolding bytes_eq to_lower has_suffix
is_intel_pcs_url u =
    bytes_eq (to_lower u.hostname) intel_host
    || has_suffix (to_lower u.hostname) (b'.' ∷ intel_host)

-- intelQVLFMSPCQueryValue and intelQVLFMSPCCacheKeyValue
unfoldable pub fmspc_query_value : Bytes → Result Bytes
unfolding to_upper hex
fmspc_query_value fmspc =
    if length fmspc == fmspc_size then ok (to_upper (hex fmspc)) else err other

unfoldable pub fmspc_cache_key_value : Bytes → Result Bytes
unfolding to_lower hex
fmspc_cache_key_value fmspc =
    if length fmspc == fmspc_size then ok (to_lower (hex fmspc)) else err other

module _ (lib : IntelLibrary) where
  abbrev pub client_of : PcsConfig → Url → PcsClient
  client_of cfg base = record {
    base_url = base;
    subscription_key = trim_space cfg.subscription_key;
    timeout = if cfg.timeout == 0 then default_timeout else cfg.timeout;
    skips_verification = if bytes_eq base.scheme (text "https") then cfg.insecure_tls else false;
  }

  -- newIntelQVLPCSClient
  unfoldable pub new_pcs_client : PcsConfig → Result PcsClient
  unfolding bytes_eq trim_space
  new_pcs_client cfg = do
    let base = trim_space cfg.service_url
    url ←
        required (lib.parse_url (if bytes_eq base [] then default_collateral_service_url else base))
    ok (client_of cfg url)

  -- extractIntelQVLFMSPC
  unfoldable pub extract_fmspc : Bytes → Result Bytes
  extract_fmspc [] = err other
  extract_fmspc (b ∷ quote) = do
    fmspc ← required (lib.fmspc_from_quote (b ∷ quote))
    refuse_if (not (length fmspc == fmspc_size))
    ok fmspc

  -- decodeIntelPCSHeader
  unfoldable pub decode_pcs_header : Bytes → Result Bytes
  unfolding bytes_eq trim_space
  decode_pcs_header value =
      if bytes_eq (trim_space value) [] then err other else required (lib.query_unescape value)

  abbrev pub key_header : PcsClient → Option Bytes
  key_header c = if bytes_eq c.subscription_key [] then none else some c.subscription_key

  unfoldable pub get_absolute : PcsClient → Bytes → Result HttpResponse
  unfolding bytes_eq
  get_absolute c raw_url = do
    resp ← required (lib.http_do (record { url = raw_url; api_key = key_header c }))
    refuse_if (not (resp.status_code == 200))
    ok resp

  unfoldable pub get : PcsClient → Bytes → List (Bytes × Bytes) → Result HttpResponse
  unfolding get_absolute
  get c endpoint query = get_absolute c (
      lib.print_url (record c.base_url {
        path = lib.path_join c.base_url.path endpoint;
        raw_query = lib.encode_query query;
      }))

  -- A body and the issuer chain in a header of the response.
  abbrev pub with_chain : HttpResponse → Bytes → Result (Bytes × Bytes)
  with_chain resp name = do chain ← decode_pcs_header (resp.header name); ok (resp.body, chain)

  unfoldable pub fetch_pck_crl : PcsClient → Bytes → Result (Bytes × Bytes)
  unfolding get decode_pcs_header
  fetch_pck_crl c ca = do
    resp ← get c (text "pckcrl") ((text "ca", ca) ∷ (text "encoding", text "der") ∷ [])
    with_chain resp (text "SGX-PCK-CRL-Issuer-Chain")

  unfoldable pub fetch_tcb_info : PcsClient → Bytes → Result (Bytes × Bytes)
  unfolding fmspc_query_value get decode_pcs_header
  fetch_tcb_info c fmspc = do
    value ← fmspc_query_value fmspc
    resp ← get c (text "tcb") ((text "fmspc", value) ∷ [])
    with_chain resp (text "TCB-Info-Issuer-Chain")

  unfoldable pub fetch_qe_identity : PcsClient → Result (Bytes × Bytes)
  unfolding get decode_pcs_header
  fetch_qe_identity c = do
    resp ← get c (text "qe/identity") []
    with_chain resp (text "SGX-Enclave-Identity-Issuer-Chain")

  -- rootCACRLURL
  unfoldable pub root_ca_crl_url : PcsClient → Bytes → Bytes
  unfolding is_intel_pcs_url
  root_ca_crl_url c cdp_url =
      if is_intel_pcs_url c.base_url
      then cdp_url
      else lib.print_url (record c.base_url {
        path = lib.path_join c.base_url.path (text "crl");
        raw_query = lib.encode_query ((text "uri", cdp_url) ∷ []);
      })

  abbrev pub first_of : List Bytes → Result Bytes
  first_of [] = err other
  first_of (url ∷ _) = ok url

  abbrev pub block_or_body : Option (PemBlock × Bytes) → Bytes → Bytes
  block_or_body none body = body
  block_or_body (some (block, _)) body = block.bytes

  unfoldable pub fetch_root_ca_crl : PcsClient → Bytes → Result Bytes
  unfolding last_certificate_from_pem root_ca_crl_url get_absolute
  fetch_root_ca_crl c issuer_chain = do
    root ← last_certificate_from_pem lib issuer_chain
    cdp ← first_of root.crl_distribution_points
    resp ← get_absolute c (root_ca_crl_url c cdp)
    ok (block_or_body (lib.pem_decode resp.body) resp.body)

  unfoldable pub fetch : PcsClient → Bytes → Result Collateral
  unfolding extract_fmspc extract_quote_pck_ca fetch_pck_crl fetch_root_ca_crl fetch_tcb_info
      fetch_qe_identity
  fetch c quote = do
    fmspc ← extract_fmspc quote
    ca ← extract_quote_pck_ca lib quote
    pck_crl ← fetch_pck_crl c ca
    root_crl ← fetch_root_ca_crl c pck_crl.1
    tcb ← fetch_tcb_info c fmspc
    qe ← fetch_qe_identity c
    ok (record {
      major_version = 3;
      minor_version = 1;
      tee_type = 0;
      pck_crl_issuer_chain = pck_crl.1;
      root_ca_crl = root_crl;
      pck_crl = pck_crl.0;
      tcb_info_issuer_chain = tcb.1;
      tcb_info = tcb.0;
      qe_identity_issuer_chain = qe.1;
      qe_identity = qe.0;
    })
