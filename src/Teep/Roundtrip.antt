-- ===== src/Teep/Roundtrip.antt =====
-- MarshalCBOR and UnmarshalCBOR of internal/tam/teep_message.go, one after the other.
use attes_tam.Base.{◌≡◌, ◌≤◌, refl, sym, ap, some, List, [], ◌∷◌, Bytes, All, length, arith}
use attes_tam.Exec.{Result, ok, err}
use attes_tam.Teep.Message.{
  MessageType, query_request, query_response, update, success, error, unknown, Message, message,
  Codec, marshal, marshal_as, unmarshal, unmarshal_items, unmarshal_as,
}

-- The CBOR library encodes each part of `m` as one data item, decodes what it encodes of the parts,
-- and decodes the array of up to 16 data items as these items (RFC 8949; no limit on the length of
-- arrays that the library can be given is lower). `IsItem` are the encodings of one data item.
pub record IsFaithful (codec : Codec) (IsItem : Bytes → Type 0) (m : Message) : Type 0 where
  pub array :
      (items : List Bytes)
      → All IsItem items
      → length items ≤ 16
      → codec.decode_array (codec.encode_array items) ≡ some items
  pub type_is_item : IsItem (codec.encode_type m.type)
  pub options_is_item : IsItem (codec.encode_options m.options)
  pub suites_is_item : IsItem (codec.encode_suites m.supported_teep_cipher_suites)
  pub profiles_is_item : IsItem (codec.encode_profiles m.supported_suit_cose_profiles)
  pub items_is_item : IsItem (codec.encode_number m.data_item_requested)
  pub code_is_item : IsItem (codec.encode_number m.err_code)
  pub type : codec.decode_type (codec.encode_type m.type) ≡ some m.type
  pub options : codec.decode_options (codec.encode_options m.options) ≡ some m.options
  pub suites :
      codec.decode_suites (codec.encode_suites m.supported_teep_cipher_suites)
      ≡ some m.supported_teep_cipher_suites
  pub profiles :
      codec.decode_profiles (codec.encode_profiles m.supported_suit_cose_profiles)
      ≡ some m.supported_suit_cose_profiles
  pub items :
      codec.decode_number (codec.encode_number m.data_item_requested) ≡ some m.data_item_requested
  pub code : codec.decode_number (codec.encode_number m.err_code) ≡ some m.err_code

-- What of a message is sent: the fields of the other types are not.
abbrev pub sent_part : MessageType → Message → Message
sent_part query_request m = record (message query_request m.options) {
  supported_teep_cipher_suites = m.supported_teep_cipher_suites;
  supported_suit_cose_profiles = m.supported_suit_cose_profiles;
  data_item_requested = m.data_item_requested;
}
sent_part error m = record (message error m.options) { err_code = m.err_code }
sent_part type m = message type m.options

ok-injective : {A : Type 0} {a b : A} → ok a ≡ ok b → a ≡ b
ok-injective {A} {a} {b} e = ap content e
  where
    content : Result A → A
    content (ok x) = x
    content (err _) = a

module _ (codec : Codec) (IsItem : Bytes → Type 0) (m : Message)
    (f : IsFaithful codec IsItem m) where
  -- A message of two items.
  pair_decoded :
      codec.decode_array
        (codec.encode_array (codec.encode_type m.type ∷ codec.encode_options m.options ∷ []))
      ≡ some (codec.encode_type m.type ∷ codec.encode_options m.options ∷ [])
  pair_decoded =
      f.array (codec.encode_type m.type ∷ codec.encode_options m.options ∷ [])
        (f.type_is_item, (f.options_is_item, tt)) (omega arith)

  round_trip_as :
      (t : MessageType) (bytes : Bytes)
      → m.type ≡ t
      → marshal_as codec t m ≡ ok bytes
      → unmarshal codec bytes ≡ ok (sent_part t m)
  unfolding marshal_as unmarshal unmarshal_items unmarshal_as
  round_trip_as query_request bytes s e =
      let decoded =
        f.array
          (codec.encode_type m.type
            ∷ codec.encode_options m.options
            ∷ codec.encode_suites m.supported_teep_cipher_suites
            ∷ codec.encode_profiles m.supported_suit_cose_profiles
            ∷ codec.encode_number m.data_item_requested
            ∷ [])
          (
            f.type_is_item,
            (f.options_is_item, (f.suites_is_item, (f.profiles_is_item, (f.items_is_item, tt)))),
          )
          (omega arith) in
      rw (sym (ok-injective e), decoded, f.type, s, f.options, f.suites, f.profiles, f.items) refl
  round_trip_as query_response bytes s e =
      rw (sym (ok-injective e), pair_decoded, f.type, s, f.options) refl
  round_trip_as update bytes s e =
      rw (sym (ok-injective e), pair_decoded, f.type, s, f.options) refl
  round_trip_as success bytes s e =
      rw (sym (ok-injective e), pair_decoded, f.type, s, f.options) refl
  round_trip_as error bytes s e =
      let decoded =
        f.array
          (codec.encode_type m.type
            ∷ codec.encode_options m.options
            ∷ codec.encode_number m.err_code
            ∷ [])
          (f.type_is_item, (f.options_is_item, (f.code_is_item, tt))) (omega arith) in
      rw (sym (ok-injective e), decoded, f.type, s, f.options, f.code) refl
  round_trip_as unknown bytes s e = cc

-- If the CBOR library decodes the short arrays of data items and the parts of a message that it
-- encodes, then what the message is marshalled to is unmarshalled to the fields that are sent for its
-- type.
pub marshal_round_trip :
    (codec : Codec) (IsItem : Bytes → Type 0) (m : Message)
    → IsFaithful codec IsItem m
    → (bytes : Bytes) → marshal codec m ≡ ok bytes
    → unmarshal codec bytes ≡ ok (sent_part m.type m)
unfolding marshal
marshal_round_trip codec IsItem m f bytes e = round_trip_as codec IsItem m f m.type bytes refl e
