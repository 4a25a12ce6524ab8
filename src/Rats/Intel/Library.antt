-- ===== src/Rats/Intel/Library.antt =====
-- What the verifier uses and this repository does not implement: Intel's library behind cgo,
-- encoding/pem, crypto/x509, encoding/json, net/url and net/http.
use attes_tam.Base.{ℕ, Option, List, Bytes}
use attes_tam.Model.{Time}
use attes_tam.Rats.Intel.Collateral.{Collateral, CacheEntry}

pub record PemBlock : Type 0 where
  pub kind : Bytes
  pub bytes : Bytes

-- Of x509.Certificate: Subject.CommonName and CRLDistributionPoints.
pub record Certificate : Type 0 where
  pub common_name : Bytes
  pub crl_distribution_points : List Bytes

-- url.URL
pub record Url : Type 0 where
  pub scheme : Bytes
  pub hostname : Bytes
  pub path : Bytes
  pub raw_query : Bytes

-- A GET; `api_key` is the header Ocp-Apim-Subscription-Key.
pub record HttpRequest : Type 0 where
  pub url : Bytes
  pub api_key : Option Bytes

-- `header` is http.Header.Get.
pub record HttpResponse : Type 0 where
  pub status_code : ℕ
  pub header : Bytes → Bytes
  pub body : Bytes

-- intelQVLNativeResult, without what is only logged
pub record NativeResult : Type 0 where
  pub collateral_expiration_status : ℕ
  pub verification_result : ℕ

-- A function returns `none` where the library returns an error.
pub record IntelLibrary : Type 0 where
  -- tee_get_fmspc_from_quote, and tee_verify_quote at a time, if it returns TEE_SUCCESS
  pub fmspc_from_quote : Bytes → Option Bytes
  pub verify_quote : Time → Bytes → Collateral → Option NativeResult
  -- pem.Decode: the first block and the rest
  pub pem_decode : Bytes → Option (PemBlock × Bytes)
  pub parse_certificate : Bytes → Option Certificate
  pub parse_certificates : Bytes → Option (List Certificate)
  -- the NextUpdate of x509.ParseRevocationList
  pub parse_revocation_list : Bytes → Option Time
  -- the field `nextUpdate` of a JSON object, empty if it has none
  pub decode_next_update : Bytes → Option Bytes
  pub parse_rfc3339 : Bytes → Option Time
  pub encode_cache_entry : CacheEntry → Option Bytes
  pub decode_cache_entry : Bytes → Option CacheEntry
  pub parse_url : Bytes → Option Url
  pub print_url : Url → Bytes
  pub path_join : Bytes → Bytes → Bytes
  -- url.Values.Encode
  pub encode_query : List (Bytes × Bytes) → Bytes
  pub query_unescape : Bytes → Option Bytes
  -- Do, and the reading of the body
  pub http_do : HttpRequest → Option HttpResponse
