-- ===== src/Suit.antt =====
-- internal/suit/manifest.go: SUIT envelopes, and their verification.
use attes_tam.Base.{
  ℕ, Bool, true, false, not, ◌&&◌, Option, none, some, List, [], ◌∷◌, Bytes, bytes_eq, take, drop,
  if◌then◌else◌,
}
use attes_tam.Base.Int.{int_eq}
use attes_tam.Model.{
  Error, fatal, suit_invalid_format, suit_not_authenticated, suit_missing_kid, other,
}
use attes_tam.Exec.{Result, ok, err}
use attes_tam.Teep.Message.{ComponentId}
use attes_tam.Teep.Report.{Digest}
use attes_tam.Tam.Sent.{cose_algorithm_sha256}

-- The value of header 4 of a COSE_Sign1: missing, no byte string, or a byte string.
pub data KidHeader : Type 0 where
  absent no_bytes : KidHeader
  bytes : Bytes → KidHeader

-- What is read of the cose.Sign1Message of an authentication block.
pub record SignedBlock : Type 0 where
  pub protected_kid : KidHeader
  pub unprotected_kid : KidHeader
  pub payload : Option Bytes

-- suit.Manifest with its Common
pub record Manifest : Type 0 where
  pub manifest_sequence_number : ℕ
  pub components : List ComponentId

-- The CBOR library, go-cose and SHA-256 on the parts of an envelope; `none` is an error. An envelope is
-- decoded to the items 2 and 3 of its map.
pub record SuitLibrary (Key : Type 0) : Type 0 where
  pub decode_map : Bytes → Option (Option Bytes × Option Bytes)
  pub decode_bytes : Bytes → Option Bytes
  pub decode_array : Bytes → Option (List Bytes)
  pub decode_digest : Bytes → Option Digest
  pub decode_block : Bytes → Option SignedBlock
  pub decode_manifest : Bytes → Option Manifest
  pub sha256 : Bytes → Bytes
  -- PublicKey and cose.NewVerifier
  pub has_verifier : Key → Bool
  -- the signature of the block is the key's over the payload that is put into it
  pub verifies_detached : Key → Bytes → Bytes → Bool

pub record AuthenticationBlock : Type 0 where
  pub kid : Bytes
  pub block : Bytes

-- AuthenticationWrapper, with its one block
pub record AuthenticationWrapper : Type 0 where
  pub digest : Bytes
  pub authentication_block : AuthenticationBlock

pub record Envelope : Type 0 where
  pub tagged : Bool
  pub authentication_wrapper : AuthenticationWrapper
  pub manifest : Bytes

abbrev pub envelope_tag : Bytes
envelope_tag = 0xd8 ∷ 0x6b ∷ []

-- SkipTag; the slice of a shorter text reads on in its buffer, where no tag ends.
unfoldable pub skip_tag : Bytes → Bool × Bytes
unfolding bytes_eq
skip_tag encoded =
    if bytes_eq (take 2 encoded) envelope_tag then (true, drop 2 encoded) else (false, encoded)

abbrev kid_of_header : KidHeader → Option Bytes
kid_of_header (bytes kid) = some kid
kid_of_header absent = none
kid_of_header no_bytes = none

abbrev kid_of_headers : KidHeader → KidHeader → Option Bytes
kid_of_headers absent unprotected = kid_of_header unprotected
kid_of_headers no_bytes unprotected = none
kid_of_headers (bytes kid) unprotected = some kid

-- extractKID
unfoldable pub extract_kid : SignedBlock → Option Bytes
extract_kid sign1 = kid_of_headers sign1.protected_kid sign1.unprotected_kid

infixl 5 ◌then_read◌
abbrev ◌then_read◌ : {A B : Type 0} → Result A → (A → Result B) → Result B
(ok a) then_read f = f a
(err e) then_read f = err e

abbrev or_error : {A : Type 0} → Error → Option A → Result A
or_error e none = err e
or_error e (some a) = ok a

abbrev join : {A : Type 0} → Option (Option A) → Option A
join none = none
join (some a) = a

module _ {Key : Type 0} (suit : SuitLibrary Key) where
  -- Nested.UnmarshalCBOR
  unfoldable pub nested : {A : Type 0} → (Bytes → Option A) → Bytes → Option A
  nested decode encoded = elim (suit.decode_bytes encoded) [ none ↦ none | some raw ↦ decode raw ]

  -- AuthenticationWrapper.UnmarshalCBOR, on the elements
  unfoldable pub read_wrapper : List Bytes → Result AuthenticationWrapper
  unfolding nested
  read_wrapper (d ∷ b ∷ []) = or_error suit_invalid_format (suit.decode_bytes d) then_read λ digest.
      or_error suit_invalid_format (nested suit.decode_block b) then_read λ sign1.
      or_error suit_missing_kid (extract_kid sign1) then_read λ kid.
      ok (record { digest = digest; authentication_block = record { kid = kid; block = b } })
  read_wrapper _ = err suit_invalid_format

  unfoldable pub unmarshal_wrapper : Bytes → Result AuthenticationWrapper
  unfolding read_wrapper
  unmarshal_wrapper encoded =
      or_error suit_invalid_format (suit.decode_array encoded) then_read λ elements.
      read_wrapper elements

  -- Envelope.UnmarshalCBOR; the wrapper is nested
  unfoldable pub unmarshal_envelope : Bytes → Result Envelope
  unfolding skip_tag unmarshal_wrapper
  unmarshal_envelope encoded =
      let (tagged, rest) = skip_tag encoded in
      or_error suit_invalid_format (suit.decode_map rest) then_read λ items.
      or_error suit_invalid_format items.0 then_read λ wrapper.
      or_error other (suit.decode_bytes wrapper) then_read λ raw.
      unmarshal_wrapper raw then_read λ authentication.
      or_error suit_invalid_format items.1 then_read λ manifest.
      ok (record { tagged = tagged; authentication_wrapper = authentication; manifest = manifest })

  -- step 1 of Envelope.Verify
  unfoldable pub check_digest : Envelope → Result Unit
  unfolding bytes_eq
  check_digest e =
      or_error suit_not_authenticated (suit.decode_digest e.authentication_wrapper.digest)
      then_read λ digest.
          if int_eq digest.digest_alg cose_algorithm_sha256
            && bytes_eq digest.digest_bytes (suit.sha256 e.manifest)
          then ok tt
          else err suit_not_authenticated

  abbrev has_payload : SignedBlock → Bool
  has_payload sign1 = elim sign1.payload [ none ↦ false | some _ ↦ true ]

  -- step 2, on the one block
  unfoldable pub check_block : Envelope → Key → Result Unit
  unfolding nested
  check_block e key =
      if not (suit.has_verifier key)
      then err fatal
      else or_error suit_not_authenticated
          (nested suit.decode_block e.authentication_wrapper.authentication_block.block)
        then_read λ sign1.
            if has_payload sign1
            then err suit_invalid_format
            else if suit.verifies_detached key e.authentication_wrapper.authentication_block.block
                e.authentication_wrapper.digest
            then ok tt
            else err suit_not_authenticated

  -- Envelope.Verify
  unfoldable pub verify : Envelope → Key → Result Unit
  unfolding check_digest check_block
  verify e key = check_digest e then_read λ _. check_block e key
