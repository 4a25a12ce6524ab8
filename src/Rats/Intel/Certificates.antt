-- ===== src/Rats/Intel/Certificates.antt =====
-- The certificates of a PEM chain and the authority that issued a quote's PCK
-- (internal/infra/rats/intel_qvl_pcs.go).
pub mod Loops
use attes_tam.Base.{
  ℕ, zero, suc, Option, none, some, List, [], ◌∷◌, ◌++◌, Bytes, bytes_eq, length, if◌then◌else◌,
}
use attes_tam.Model.{other}
use attes_tam.Exec.{Result, ok, err}
use attes_tam.Text.{text, to_lower, contains}
use attes_tam.Rats.Quote
use attes_tam.Rats.Quote.{Outcome, bytes_read, refused}
use attes_tam.Rats.Results.{◌>>=◌, required}
use attes_tam.Rats.Intel.Chain.{extract_pck_cert_chain}
use attes_tam.Rats.Intel.Library.{PemBlock, Certificate, IntelLibrary}

-- A panic of extractIntelQVLQuotePCKCertChain counts as an error here.
abbrev pub chain_read : Outcome → Result Bytes
chain_read (bytes_read chain) = ok chain
chain_read refused = err other
chain_read Quote.panic = err other

module _ (lib : IntelLibrary) where
  -- One round of the loop of lastCertificateFromPEM over what pem.Decode returned; `again` is the
  -- loop on the rest.
  abbrev pub last_round :
      Option (PemBlock × Bytes)
      → Option Certificate
      → (Option Certificate → Bytes → Result (Option Certificate))
      → Result (Option Certificate)
  last_round none last again = ok last
  last_round (some (block, rest)) last again =
      if bytes_eq block.kind (text "CERTIFICATE")
      then (do cert ← required (lib.parse_certificate block.bytes); again (some cert) rest)
      else again last rest

  -- `for len(rest) > 0`. The fuel is one more than the length of the chain.
  unfoldable pub last_from : ℕ → Option Certificate → Bytes → Result (Option Certificate)
  unfolding bytes_eq
  last_from zero last rest = err other
  last_from (suc fuel) last [] = ok last
  last_from (suc fuel) last (b ∷ rest) =
      last_round (lib.pem_decode (b ∷ rest)) last (last_from fuel)

  unfoldable pub last_certificate_from_pem : Bytes → Result Certificate
  unfolding last_from
  last_certificate_from_pem chain = do
    last ← last_from (suc (length chain)) none chain
    required last

  -- The same of the loop of parseIntelQVLQuoteCertificates.
  abbrev pub collect_round :
      Option (PemBlock × Bytes)
      → List Certificate
      → (List Certificate → Bytes → Result (List Certificate))
      → Result (List Certificate)
  collect_round none certs again = ok certs
  collect_round (some (block, rest)) certs again =
      if bytes_eq block.kind (text "CERTIFICATE")
      then (do cert ← required (lib.parse_certificate block.bytes); again (certs ++ cert ∷ []) rest)
      else again certs rest

  unfoldable pub collect_from : ℕ → List Certificate → Bytes → Result (List Certificate)
  unfolding bytes_eq
  collect_from zero certs rest = err other
  collect_from (suc fuel) certs [] = ok certs
  collect_from (suc fuel) certs (b ∷ rest) =
      collect_round (lib.pem_decode (b ∷ rest)) certs (collect_from fuel)

  abbrev pub found : List Certificate → Result (List Certificate)
  found [] = err other
  found (c ∷ certs) = ok (c ∷ certs)

  unfoldable pub pem_certificates : Bytes → Result (List Certificate)
  unfolding collect_from
  pem_certificates chain = do certs ← collect_from (suc (length chain)) [] chain; found certs

  abbrev pub der_or_pem : Option (List Certificate) → Bytes → Result (List Certificate)
  der_or_pem (some (c ∷ certs)) chain = ok (c ∷ certs)
  der_or_pem (some []) chain = pem_certificates chain
  der_or_pem none chain = pem_certificates chain

  -- parseIntelQVLQuoteCertificates
  unfoldable pub parse_quote_certificates : Bytes → Result (List Certificate)
  unfolding pem_certificates
  parse_quote_certificates chain = der_or_pem (lib.parse_certificates chain) chain

  -- The switch on the issuer's common name.
  unfoldable pub ca_of_issuer : Bytes → Result Bytes
  unfolding to_lower contains
  ca_of_issuer name =
      if contains (to_lower name) (text "processor ca")
      then ok (text "processor")
      else if contains (to_lower name) (text "platform ca")
      then ok (text "platform")
      else err other

  abbrev pub ca_of_chain : List Certificate → Result Bytes
  ca_of_chain [] = err other
  ca_of_chain (_ ∷ []) = err other
  ca_of_chain (_ ∷ issuer ∷ _) = ca_of_issuer issuer.common_name

  -- extractIntelQVLQuotePCKCA
  unfoldable pub extract_quote_pck_ca : Bytes → Result Bytes
  unfolding extract_pck_cert_chain parse_quote_certificates ca_of_issuer
  extract_quote_pck_ca quote = do
    chain ← chain_read (extract_pck_cert_chain quote)
    certs ← parse_quote_certificates chain
    ca_of_chain certs
