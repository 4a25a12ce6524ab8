-- ===== src/Tests/Intel.antt =====
-- A library for the verifier over Intel's, and runs of the verifier.
use attes_tam.Base.{
  ℕ, suc, ◌+◌, ◌*◌, ◌<◌, subst, some-injective, ◌≡◌, ◌≢◌, refl, ap, ◌∙◌, true, false, Option, none,
  some, List, [], ◌∷◌, ◌++◌, Bytes, replicate, length, arith,
}
use attes_tam.Model.{second}
use attes_tam.Text.{text}
use attes_tam.Rats.Intel.Collateral.{Collateral, CacheEntry}
use attes_tam.Rats.Intel.Library.{PemBlock, IntelLibrary}
use attes_tam.Rats.Intel.Certificates.Loops.{Consumes}
use attes_tam.Rats.Intel.NextUpdate.Earliest.{NamesTime}
use attes_tam.Rats.Intel.Cache.Roundtrip.{ReadsBack}
use attes_tam.Rats.Intel.Cache.Key.{AreBytes, GivesBytes}
use attes_tam.Rats.Intel.Verifier.{IntelVerifier, Clock}
use attes_tam.Tests.Setup.{encode_array, decode_array, decode_array-encode_array, noon}

abbrev collateral_items : Option Collateral → List Bytes
collateral_items none = []
collateral_items (some c) =
    (c.major_version ∷ c.minor_version ∷ c.tee_type ∷ [])
    ∷ c.pck_crl_issuer_chain
    ∷ c.root_ca_crl
    ∷ c.pck_crl
    ∷ c.tcb_info_issuer_chain
    ∷ c.tcb_info
    ∷ c.qe_identity_issuer_chain
    ∷ c.qe_identity
    ∷ []

abbrev encode_entry : CacheEntry → Bytes
encode_entry e = encode_array ((e.expires_at ∷ []) ∷ collateral_items e.collateral)

abbrev entry_of : Option (List Bytes) → Option CacheEntry
entry_of (some ((t ∷ []) ∷ [])) = some (record { expires_at = t; collateral = none })
entry_of (some ((t ∷ []) ∷ (major ∷ minor ∷ tee ∷ []) ∷ a ∷ b ∷ c ∷ d ∷ e ∷ f ∷ g ∷ [])) =
    some (record {
      expires_at = t;
      collateral = some (record {
        major_version = major;
        minor_version = minor;
        tee_type = tee;
        pck_crl_issuer_chain = a;
        root_ca_crl = b;
        pck_crl = c;
        tcb_info_issuer_chain = d;
        tcb_info = e;
        qe_identity_issuer_chain = f;
        qe_identity = g;
      });
    })
entry_of _ = none

-- A PEM block is one byte.
abbrev first_block : Bytes → Option (PemBlock × Bytes)
first_block [] = none
first_block (b ∷ rest) = some (record { kind = text "CERTIFICATE"; bytes = b ∷ [] }, rest)

abbrev pub intel_library : IntelLibrary
intel_library = record {
  fmspc_from_quote = λ _. some (1 ∷ 2 ∷ 3 ∷ 4 ∷ 5 ∷ 6 ∷ []);
  verify_quote =
      λ _ _ _. some (record { collateral_expiration_status = 0; verification_result = 0 });
  pem_decode = first_block;
  parse_certificate = λ _. some (record {
    common_name = text "Intel SGX PCK Platform CA";
    crl_distribution_points = (8 ∷ []) ∷ [];
  });
  parse_certificates = λ _. none;
  parse_revocation_list = λ _. some (noon + 90 * 24 * 3600 * second);
  decode_next_update = λ raw. some raw;
  parse_rfc3339 = λ _. some (noon + 2 * 24 * 3600 * second);
  encode_cache_entry = λ e. some (encode_entry e);
  decode_cache_entry = λ content. entry_of (decode_array content);
  parse_url = λ _. none;
  print_url = λ u. u.path;
  path_join = λ base end. end;
  encode_query = λ _. [];
  query_unescape = λ value. some value;
  http_do = λ _. some (record { status_code = 200; header = λ _. text "chain"; body = 7 ∷ [] });
}

pub intel_library-Consumes : Consumes intel_library
intel_library-Consumes [] rest block e = ground arith
intel_library-Consumes (b ∷ raw) rest block e =
    subst (λ x. length x < suc (length raw)) (ap left e) (omega arith)
  where
    left : Option (PemBlock × Bytes) → Bytes
    left none = []
    left (some (block', rest')) = rest'

pub intel_library-NamesTime : {raw : Bytes} → NamesTime intel_library raw
intel_library-NamesTime timestamp t decoded e =
    subst (λ x. x ≢ 0) (some-injective _ t e) (λ z. absurd (omega arith))

pub intel_library-GivesBytes : GivesBytes intel_library
intel_library-GivesBytes quote fmspc e = subst AreBytes (some-injective _ fmspc e) (omega arith)

entry_of-items :
    (t : ℕ) (o : Option Collateral)
    → entry_of (some ((t ∷ []) ∷ collateral_items o))
      ≡ some (record { expires_at = t; collateral = o })
entry_of-items t none = refl
entry_of-items t (some c) = refl

pub intel_library-ReadsBack : ReadsBack intel_library
intel_library-ReadsBack = record {
  decode-encode = λ e content h.
      subst (λ x. entry_of (decode_array x) ≡ some e) (some-injective (encode_entry e) content h)
        (ap entry_of
            (decode_array-encode_array ((e.expires_at ∷ []) ∷ collateral_items e.collateral))
          ∙ entry_of-items e.expires_at e.collateral);
  not_empty = λ e h. cc;
}

-- A quote of version 3 with two certificates of one byte.
abbrev pub chained_quote : Bytes
chained_quote =
    3
    ∷ 0
    ∷ (replicate 430 1
        ++ (74 ∷ 2 ∷ 0 ∷ 0 ∷ (replicate 576 1 ++ (0 ∷ 0 ∷ 5 ∷ 0 ∷ 2 ∷ 0 ∷ 0 ∷ 0 ∷ 10 ∷ 11 ∷ []))))

abbrev pub verifier : IntelVerifier
verifier = record {
  uses_cache = true;
  pcs_client = some (record {
    base_url = record {
      scheme = text "https";
      hostname = text "pccs.example.org";
      path = [];
      raw_query = [];
    };
    subscription_key = [];
    timeout = 60 * second;
    skips_verification = false;
  });
}

abbrev pub noon_clock : Clock
noon_clock = record { looked_up_at = noon; stored_at = noon + 1; verified_at = noon + 2 }
