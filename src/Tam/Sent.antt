-- ===== src/Tam/Sent.antt =====
-- The messages that the TAM sends and later finds by their token or challenge
-- (internal/tam/tam.go).
use attes_tam.Base.{
  ℕ, Bool, true, false, Option, none, some, List, [], ◌∷◌, map, Bytes, if◌then◌else◌,
}
use attes_tam.Base.Int.{ℤ, pos, negsuc}
use attes_tam.Model.{
  Error, panic, fatal, zero_time, SentQueryRequestMessage, SentUpdateMessageWithManifests,
  SuitManifest,
}
use attes_tam.Exec.{Exec, pure, raise, attempt, if_some, if_ok, ◌>>=◌, ◌>>◌}
use attes_tam.Sqlite.Tokens
use attes_tam.Sqlite.Challenges
use attes_tam.Sqlite.SentQueries
use attes_tam.Sqlite.SentUpdates
use attes_tam.Teep.Items.{request_data_item, attestation_requested, tc_list_requested}
use attes_tam.Teep.Message.{
  MessageType, query_request, update, Options, no_options, Message, message, marshal,
}
use attes_tam.Tam.Library.{Library, Tam}

-- A call that answers nil for any error.
unfoldable pub or_nil : {A : Type 0} → Exec A → Exec (Option A)
or_nil m = do r ← attempt m; if_ok r (λ a. pure (some a)) (λ _. pure none)

-- ErrFatal in place of an error; a panic is no error.
abbrev pub fatal_for : Error → Error
fatal_for panic = panic
fatal_for e = fatal

-- A call whose every error becomes ErrFatal.
unfoldable pub or_fatal : {A : Type 0} → Exec A → Exec A
or_fatal m = do r ← attempt m; if_ok r pure (λ e. raise (fatal_for e))

unfoldable pub generate_token : Exec (Option Bytes)
generate_token = or_nil Tokens.generate_unique_token

unfoldable pub generate_challenge : Exec (Option Bytes)
generate_challenge = or_nil Challenges.generate_unique_challenge

-- The `sendingQueryRequest` of the two functions below.
abbrev pub cose_algorithm_esp256 : ℤ
cose_algorithm_esp256 = negsuc 8

abbrev pub cose_algorithm_sha256 : ℤ
cose_algorithm_sha256 = negsuc 15

abbrev pub query_request_with : Options → ℕ → Message
query_request_with options items = record (message query_request options) {
  supported_teep_cipher_suites =
      (record { type = pos 18; algorithm = cose_algorithm_esp256 } ∷ []) ∷ [];
  supported_suit_cose_profiles =
      record {
        digest_alg = cose_algorithm_sha256;
        auth_alg = cose_algorithm_esp256;
        key_exchange_alg = negsuc 28;
        encryption_alg = negsuc 65533;
      }
      ∷ [];
  data_item_requested = items;
}

abbrev pub is_query_request : MessageType → Bool
is_query_request query_request = true
is_query_request _ = false

abbrev pub is_update : MessageType → Bool
is_update update = true
is_update _ = false

abbrev pub sent_query_row : Message → SentQueryRequestMessage
sent_query_row sending = record {
  id = 0;
  agent_id = none;
  attestation_requested = attestation_requested sending.data_item_requested;
  tc_list_requested = tc_list_requested sending.data_item_requested;
  token_id = none;
  challenge_id = none;
  created_at = zero_time;
}

unfoldable pub save_sent_query_request : Message → Exec Unit
save_sent_query_request sending =
    if is_query_request sending.type
    then if_some sending.options.token
        (λ t. or_fatal (SentQueries.create_with_token t (sent_query_row sending)) >>= λ _. pure tt)
        (if_some sending.options.challenge
          (λ c. or_fatal (SentQueries.create_with_challenge c (sent_query_row sending)) >>= λ _.
            pure tt)
          (raise fatal))
    else raise fatal

-- The token of an update is never nil here (`Update`).
unfoldable pub save_sent_update : Message → Bytes → Bytes → List SuitManifest → Exec Unit
save_sent_update sending token agent_kid manifests =
    if is_update sending.type
    then (or_fatal (SentUpdates.create_with_token agent_kid token zero_time manifests) >>= λ _.
        pure tt)
    else raise fatal

abbrev pub found_query : Options → SentQueryRequestMessage → Message
found_query options q = record (message query_request options) {
  data_item_requested = request_data_item q.attestation_requested q.tc_list_requested false false;
}

-- What is looked up once the challenge is consumed.
unfoldable pub search_consumed_challenge : Bytes → Exec (Option Message)
search_consumed_challenge challenge = do
  found ← attempt (SentQueries.find_by_challenge challenge)
  if_ok found
      (λ row.
        if_some row
          (λ q. pure (some (found_query (record no_options { challenge = some challenge }) q)))
          (pure none))
      (λ _. pure none)

-- The look-up by challenge, whose errors are answered with nil.
unfoldable pub search_sent_message_with_challenge : Option Bytes → Exec (Option Message)
search_sent_message_with_challenge challenge =
    if_some challenge
      (λ c. do
        consumed ← attempt (Challenges.mark_consumed c)
        if_ok consumed (λ _. search_consumed_challenge c) (λ _. pure none))
      (pure none)

abbrev pub found_update : Bytes → SentUpdateMessageWithManifests → Message
found_update token u = message update (record no_options {
  token = some token;
  manifest_list = map (λ (m : SuitManifest). m.manifest) u.manifests;
})

unfoldable pub search_sent_update : Bytes → Exec (Option Message)
search_sent_update token = do
  found ← attempt (SentUpdates.find_with_manifests_by_token token)
  if_ok found (λ row. if_some row (λ u. pure (some (found_update token u))) (pure none))
      (λ _. pure none)

-- What is looked up once the token is consumed.
unfoldable pub search_consumed : Bytes → Exec (Option Message)
search_consumed token = do
  found ← attempt (SentQueries.find_by_token token)
  if_ok found
      (λ row.
        if_some row (λ q. pure (some (found_query (record no_options { token = some token }) q)))
          (search_sent_update token))
      (λ _. pure none)

unfoldable pub search_sent_message_with_token : Option Bytes → Exec (Option Message)
search_sent_message_with_token token =
    if_some token
      (λ t. do
        consumed ← attempt (Tokens.mark_consumed t)
        if_ok consumed (λ _. search_consumed t) (λ _. pure none))
      (pure none)

module _ {Key : Type 0} (lib : Library Key) (tam : Tam Key) where
  -- COSESign1Sign, where the caller turns its errors into ErrFatal
  unfoldable pub cose_sign1_sign : Message → Exec Bytes
  cose_sign1_sign m =
      if_ok (marshal lib.codec m) (λ tbs. if_some (lib.sign tam.tam_key tbs) pure (raise fatal))
        (λ _. raise fatal)

  -- Signing a QueryRequest and saving it.
  unfoldable pub send_query_request : Message → Exec (Option Bytes)
  send_query_request sending = do
    response ← cose_sign1_sign sending
    or_fatal (save_sent_query_request sending)
    pure (some response)

  unfoldable pub generate_query_request : Exec (Option Bytes)
  generate_query_request = do
    token ← generate_token
    if_some token
        (λ t. send_query_request (
          query_request_with (record no_options { token = some t })
            (request_data_item false true false false)))
        (raise fatal)

  unfoldable pub generate_query_request_with_attestation : Exec (Option Bytes)
  generate_query_request_with_attestation = do
    challenge ← generate_challenge
    if_some challenge
        (λ c. send_query_request (
          query_request_with (record no_options { challenge = some c })
            (request_data_item true false false false)))
        (raise fatal)
