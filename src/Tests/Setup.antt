-- ===== src/Tests/Setup.antt =====
-- A small library, a TAM and databases to run the program on.
use attes_tam.Base.{
  ℕ, zero, suc, ◌≡◌, refl, true, Option, none, some, List, [], ◌∷◌, ◌++◌, ◌*◌, ◌==◌, if◌then◌else◌,
  map, Bytes, bytes_eq, take, drop, replicate,
}
use attes_tam.Base.Int.{negsuc}
use attes_tam.Model.{create_schema, Db, ManifestSigningKey, zero_time}
use attes_tam.Exec.{World}
use attes_tam.Text.{text}
use attes_tam.Teep.Message.{
  MessageType, query_request, query_response, update, success, error, unknown, Options, no_options,
  Codec,
}
use attes_tam.Teep.Report.{Report}
use attes_tam.Tam.Library.{Library, Tam}

-- An array is its items, each of its bytes increased by one, and a zero after each item.
abbrev pub encode_array : List Bytes → Bytes
encode_array [] = []
encode_array (i ∷ is) = map suc i ++ 0 ∷ encode_array is

abbrev push : ℕ → Option (List Bytes) → Option (List Bytes)
push b none = none
push b (some []) = none
push b (some (i ∷ is)) = some ((b ∷ i) ∷ is)

abbrev start : Option (List Bytes) → Option (List Bytes)
start none = none
start (some is) = some ([] ∷ is)

abbrev pub decode_array : Bytes → Option (List Bytes)
decode_array [] = some []
decode_array (zero ∷ bs) = start (decode_array bs)
decode_array (suc b ∷ bs) = push b (decode_array bs)

decode_item :
    (i bs : Bytes) (is : List Bytes)
    → decode_array bs ≡ some is
    → decode_array (map suc i ++ 0 ∷ bs) ≡ some (i ∷ is)
decode_item [] bs is e = rw e refl
decode_item (b ∷ i) bs is e = rw (decode_item i bs is e) refl

pub decode_array-encode_array : (is : List Bytes) → decode_array (encode_array is) ≡ some is
decode_array-encode_array [] = refl
decode_array-encode_array (i ∷ is) =
    decode_item i (encode_array is) is (decode_array-encode_array is)

abbrev encode_type : MessageType → Bytes
encode_type query_request = 1 ∷ []
encode_type query_response = 2 ∷ []
encode_type update = 3 ∷ []
encode_type success = 5 ∷ []
encode_type error = 6 ∷ []
encode_type unknown = 9 ∷ []

abbrev type_of : ℕ → MessageType
type_of n =
    if n == 1
    then query_request
    else if n == 2
    then query_response
    else if n == 3
    then update
    else if n == 5
    then success
    else if n == 6
    then error
    else unknown

abbrev decode_type : Bytes → Option MessageType
decode_type [] = none
decode_type (n ∷ _) = some (type_of n)

abbrev token_of : Options → Bytes
token_of o = elim o.token [ none ↦ [] | some t ↦ t ]

-- Of the options it keeps the token.
abbrev pub codec : Codec
codec = record {
  encode_array = encode_array;
  decode_array = decode_array;
  encode_type = encode_type;
  decode_type = decode_type;
  encode_options = token_of;
  decode_options = λ b. some (record no_options { token = some b });
  encode_suites = λ _. [];
  decode_suites = λ _. some [];
  encode_profiles = λ _. [];
  decode_profiles = λ _. some [];
  encode_number = λ n. n ∷ [];
  decode_number = λ b. elim b [ [] ↦ none | n ∷ _ ↦ some n ];
}

abbrev pub failed_report : Report
failed_report = record {
  reference = record {
    manifest_uri = [];
    digest = record { digest_alg = negsuc 15; digest_bytes = replicate 32 7 };
  };
  nonce = none;
  result = record {
    is_true = none;
    detailed_result = some (record { result_code = negsuc 0; result_reason = 5 });
  };
}

-- A key is its key id; a signed message is the key id of the signer, then the payload.
abbrev pub library : Library Bytes
library = record {
  codec = codec;
  decode_sign1 = λ b. some (record { payload = drop 32 b; kid_header = some (take 32 b); raw = b });
  has_verifier = λ _. true;
  verifies = λ key s. bytes_eq key (take 32 s.raw);
  verifies_sign = λ _ _. none;
  sign = λ key b. some (key ++ b);
  thumbprint = λ key. some key;
  encode_key = λ key. some key;
  decode_key = λ b. some b;
  new_key_ec2 = λ x y. some x;
  decode_eat = λ b. some (record {
    nonce = some (record { is_valid = true; values = b ∷ [] });
    cnf_key = some (replicate 32 8);
    ueid = none;
  });
  decode_bundle = λ _. none;
  sha384 = λ b. take 48 b;
  decode_report = λ _. some failed_report;
  encode_digest = λ d. some d.digest_bytes;
  encode_component = λ c. elim c [ [] ↦ none | b ∷ _ ↦ some b ];
}

abbrev pub tam : Tam Bytes
tam = record {
  resolve_verifier = none;
  verifier = some (λ _. some (record {
    ear_status = text "affirming";
    attestation_nonce = none;
    attestation_ueid = none;
    attestation_key = none;
  }));
  tam_key = replicate 32 1;
}

-- Noon of 2026-01-01.
abbrev pub noon : ℕ
noon = 63902908800 * 1000000000

abbrev pub world : Db → World
world d = record { db = d; now = noon; random = (1 ∷ 2 ∷ []) ∷ (3 ∷ 4 ∷ []) ∷ []; faults = [] }

abbrev pub start_world : World
start_world = world create_schema

-- The key id of the agent, and that of the manifest's signer.
abbrev pub agent_kid : Bytes
agent_kid = replicate 32 8

abbrev pub signer : ManifestSigningKey
signer = record {
  id = 0;
  kid = replicate 32 9;
  entity_id = 1;
  public_key = replicate 32 9;
  created_at = zero_time;
  expired_at = zero_time;
}
