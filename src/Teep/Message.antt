-- ===== src/Teep/Message.antt =====
-- internal/tam/teep_message.go: the messages, and how they are told apart when decoded.
use attes_tam.Base.{ℕ, Bool, Option, none, some, List, [], ◌∷◌, Bytes}
use attes_tam.Base.Int.{ℤ}
use attes_tam.Model.{not_teep_message, not_supported, invalid_value, other}
use attes_tam.Exec.{Result, ok, err}

-- TEEPMessageType; `unknown` is every other number.
pub data MessageType : Type 0 where
  query_request query_response update success error unknown : MessageType

pub record CipherSuite : Type 0 where
  pub type : ℤ
  pub algorithm : ℤ

-- suit.COSEProfile of internal/suit/manifest.go
pub record CoseProfile : Type 0 where
  pub digest_alg : ℤ
  pub auth_alg : ℤ
  pub key_exchange_alg : ℤ
  pub encryption_alg : ℤ

-- suit.ComponentID of internal/suit/manifest.go
abbrev pub ComponentId : Type 0
ComponentId = List Bytes

-- suit.SystemPropertyClaims of internal/suit/report.go
pub record SystemPropertyClaims : Type 0 where
  pub system_component_id : ComponentId
  pub image_digest : Option Bytes
  pub image_size : ℕ

pub record RequestedTcInfo : Type 0 where
  pub component_id : ComponentId
  pub tc_manifest_sequence_number : Option ℕ
  pub have_binary : Option Bool

-- A byte string, text or number that may be nil is an Option; an absent list is the empty one.
pub record Options : Type 0 where
  pub supported_teep_cipher_suites : List (List CipherSuite)
  pub challenge : Option Bytes
  pub versions : List ℕ
  pub supported_suit_cose_profiles : List CoseProfile
  pub selected_version : Option ℕ
  pub attestation_payload : Option Bytes
  pub tc_list : List SystemPropertyClaims
  pub ext_list : List ℕ
  pub manifest_list : List Bytes
  pub msg : Option Bytes
  pub err_msg : Option Bytes
  pub attestation_payload_format : Option Bytes
  pub requested_tc_list : List RequestedTcInfo
  pub unneeded_manifest_list : List Bytes
  pub suit_reports : List Bytes
  pub token : Option Bytes
  pub supported_freshness_mechanisms : List ℕ
  pub err_lang : Option Bytes
  pub err_code : Option ℕ

abbrev pub no_options : Options
no_options = record {
  supported_teep_cipher_suites = [];
  challenge = none;
  versions = [];
  supported_suit_cose_profiles = [];
  selected_version = none;
  attestation_payload = none;
  tc_list = [];
  ext_list = [];
  manifest_list = [];
  msg = none;
  err_msg = none;
  attestation_payload_format = none;
  requested_tc_list = [];
  unneeded_manifest_list = [];
  suit_reports = [];
  token = none;
  supported_freshness_mechanisms = [];
  err_lang = none;
  err_code = none;
}

-- TEEPMessage
pub record Message : Type 0 where
  pub type : MessageType
  pub options : Options
  pub supported_teep_cipher_suites : List (List CipherSuite)
  pub supported_suit_cose_profiles : List CoseProfile
  pub data_item_requested : ℕ
  pub err_code : ℕ

-- A message of a type with options only; `var m TEEPMessage` with these two fields set.
abbrev pub message : MessageType → Options → Message
message type options = record {
  type = type;
  options = options;
  supported_teep_cipher_suites = [];
  supported_suit_cose_profiles = [];
  data_item_requested = 0;
  err_code = 0;
}

-- The CBOR library on the items of a message: what it encodes them to, and what it makes of bytes.
pub record Codec : Type 0 where
  pub encode_array : List Bytes → Bytes
  pub decode_array : Bytes → Option (List Bytes)
  pub encode_type : MessageType → Bytes
  pub decode_type : Bytes → Option MessageType
  pub encode_options : Options → Bytes
  pub decode_options : Bytes → Option Options
  pub encode_suites : List (List CipherSuite) → Bytes
  pub decode_suites : Bytes → Option (List (List CipherSuite))
  pub encode_profiles : List CoseProfile → Bytes
  pub decode_profiles : Bytes → Option (List CoseProfile)
  pub encode_number : ℕ → Bytes
  pub decode_number : Bytes → Option ℕ

module _ (codec : Codec) where
  open codec use {
    encode_array, decode_array, encode_type, decode_type, encode_options, decode_options,
    encode_suites, decode_suites, encode_profiles, decode_profiles, encode_number, decode_number,
  }

  -- MarshalCBOR, which chooses by the type; the types have their own order of items.
  unfoldable pub marshal_as : MessageType → Message → Result Bytes
  marshal_as query_request m = ok (
      encode_array (
        encode_type m.type
        ∷ encode_options m.options
        ∷ encode_suites m.supported_teep_cipher_suites
        ∷ encode_profiles m.supported_suit_cose_profiles
        ∷ encode_number m.data_item_requested
        ∷ []))
  marshal_as query_response m =
      ok (encode_array (encode_type m.type ∷ encode_options m.options ∷ []))
  marshal_as update m = ok (encode_array (encode_type m.type ∷ encode_options m.options ∷ []))
  marshal_as success m = ok (encode_array (encode_type m.type ∷ encode_options m.options ∷ []))
  marshal_as error m =
      ok (
        encode_array
          (encode_type m.type ∷ encode_options m.options ∷ encode_number m.err_code ∷ []))
  marshal_as unknown m = err not_supported

  unfoldable pub marshal : Message → Result Bytes
  unfolding marshal_as
  marshal m = marshal_as m.type m

  abbrev required : {A : Type 0} → Option A → Result A
  required none = err other
  required (some a) = ok a

  infixl 5 ◌then_decode◌
  abbrev ◌then_decode◌ : {A B : Type 0} → Result A → (A → Result B) → Result B
  (ok a) then_decode f = f a
  (err e) then_decode f = err e

  -- The `switch m.Type` of UnmarshalCBOR, with its checks of the number of items.
  unfoldable pub unmarshal_as : MessageType → List Bytes → Result Message
  unmarshal_as query_request (a0 ∷ a1 ∷ a2 ∷ a3 ∷ a4 ∷ []) =
      required (decode_options a1) then_decode λ o. required (decode_suites a2) then_decode λ s.
      required (decode_profiles a3) then_decode λ p. required (decode_number a4) then_decode λ d.
      ok (record (message query_request o) {
        supported_teep_cipher_suites = s;
        supported_suit_cose_profiles = p;
        data_item_requested = d;
      })
  unmarshal_as query_request _ = err invalid_value
  unmarshal_as query_response (a0 ∷ a1 ∷ []) =
      required (decode_options a1) then_decode λ o. ok (message query_response o)
  unmarshal_as query_response _ = err invalid_value
  unmarshal_as update (a0 ∷ a1 ∷ []) =
      required (decode_options a1) then_decode λ o. ok (message update o)
  unmarshal_as update _ = err invalid_value
  unmarshal_as success (a0 ∷ a1 ∷ []) =
      required (decode_options a1) then_decode λ o. ok (message success o)
  unmarshal_as success _ = err invalid_value
  unmarshal_as error (a0 ∷ a1 ∷ a2 ∷ []) = required (decode_options a1) then_decode λ o.
      required (decode_number a2) then_decode λ c. ok (record (message error o) { err_code = c })
  unmarshal_as error _ = err invalid_value
  unmarshal_as unknown _ = err not_supported

  unfoldable pub unmarshal_items : List Bytes → Result Message
  unfolding unmarshal_as
  unmarshal_items [] = err not_teep_message
  unmarshal_items (_ ∷ []) = err not_teep_message
  unmarshal_items (a0 ∷ a1 ∷ rest) =
      required (decode_type a0) then_decode λ type. unmarshal_as type (a0 ∷ a1 ∷ rest)

  -- UnmarshalCBOR
  unfoldable pub unmarshal : Bytes → Result Message
  unfolding unmarshal_items
  unmarshal body = required (decode_array body) then_decode unmarshal_items
