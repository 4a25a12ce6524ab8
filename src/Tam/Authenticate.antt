-- ===== src/Tam/Authenticate.antt =====
-- The authentication of an incoming message (internal/tam/tam.go).
pub mod Signed
use attes_tam.Base.{ℕ, Bool, true, false, not, Option, none, some, [], ◌∷◌, Bytes, if◌then◌else◌}
use attes_tam.Model.{Error, fatal, not_teep_message, kid_is_missing, not_authenticated, other}
use attes_tam.Exec.{Result, ok, err, Exec, pure, attempt, if_some, if_ok, ◌>>=◌}
use attes_tam.Teep.Message.{Message, unmarshal}
use attes_tam.Tam.Library.{Sign1, Library}
use attes_tam.Tam.Keyring.{get_teep_agent_key}

-- The three results of tryAuthenticateTeepMessage.
pub record Authentication : Type 0 where
  pub message : Option Message
  pub agent_kid : Option Bytes
  pub error : Option Error

abbrev pub authenticated : Message → Bytes → Authentication
authenticated m kid = record { message = some m; agent_kid = some kid; error = none }

abbrev pub unauthenticated : Option Message → Error → Authentication
unauthenticated m e = record { message = m; agent_kid = none; error = some e }

abbrev pub non_empty : Option Bytes → Option Bytes
non_empty none = none
non_empty (some []) = none
non_empty (some (b ∷ bs)) = some (b ∷ bs)

-- getKid
unfoldable pub get_kid : Sign1 → Option Bytes
get_kid sign1 = non_empty sign1.kid_header

module _ {Key : Type 0} (lib : Library Key) where
  -- checkSignatureWithKID
  unfoldable pub check_signature_with_kid : Sign1 → Exec Authentication
  check_signature_with_kid sign1 =
      if_ok (unmarshal lib.codec sign1.payload)
        (λ m.
          if_some (get_kid sign1)
            (λ kid. do
              key ← attempt (get_teep_agent_key lib kid)
              if_ok key
                  (λ k.
                    if not (lib.has_verifier k)
                    then pure (unauthenticated (some m) fatal)
                    else if lib.verifies k sign1
                    then pure (authenticated m kid)
                    else pure (unauthenticated (some m) not_authenticated))
                  (λ _. pure (unauthenticated (some m) not_authenticated)))
            (pure (unauthenticated (some m) kid_is_missing)))
        (λ _. pure (unauthenticated none not_teep_message))

  unfoldable pub try_authenticate_teep_message : Bytes → Exec Authentication
  try_authenticate_teep_message raw =
      if_some (lib.decode_sign1 raw) check_signature_with_kid (pure (unauthenticated none other))

  abbrev pub verify_sign : Option Bool → Bool
  verify_sign none = false
  verify_sign (some b) = b

  abbrev pub verify_decoded : Option Sign1 → Bytes → Key → Bool
  verify_decoded (some sign1) raw key = lib.verifies key sign1
  verify_decoded none raw key = verify_sign (lib.verifies_sign key raw)

  -- verifyCOSESignature, which is true where it returns no error
  unfoldable pub verify_cose_signature : Bytes → Key → Bool
  verify_cose_signature raw key =
      if lib.has_verifier key then verify_decoded (lib.decode_sign1 raw) raw key else false
