-- ===== src/Server/Register.antt =====
-- internal/server/handler.go: the registration of a manifest, and the routes.
use attes_tam.Base.{ℕ, not, some, Bytes, bytes_eq, if◌then◌else◌}
use attes_tam.Exec.{Exec, pure, attempt, if_some, if_ok, ◌>>=◌}
use attes_tam.Text.{text}
use attes_tam.Suit.{SuitLibrary, Envelope, skip_tag, unmarshal_envelope, verify, nested}
use attes_tam.Tam.Library.{Library, Tam}
use attes_tam.Tam.Keyring.{get_entity_key}
use attes_tam.Tam.Repository.{set_envelope}
use attes_tam.Server.{
  Request, Response, ServerCodec, http_error, answer, is_method, has_content_type,
  max_request_body_bytes_for_suit, read_body, on_body, method_not_allowed, failed_with,
  registration_error, not_parsed, single, succeeded, join,
}
use attes_tam.Server.Handlers.{tam_over_http, list_manifests, get_agent_list, get_agent_status_of}

module _ {Key : Type 0} (lib : Library Key) (suit : SuitLibrary Key) where
  -- addTCManifest, with the component
  unfoldable pub register : Bytes → Envelope → ℕ → Bytes → Exec Response
  unfolding skip_tag
  register body envelope sequence_number component = do
    registered ← attempt (
        set_envelope (some (skip_tag body).1) envelope.authentication_wrapper.digest
          envelope.authentication_wrapper.authentication_block.kid component sequence_number)
    if_ok registered (λ _. pure (answer (text "OK\n") "text/plain"))
        (failed_with registration_error)

  -- with an envelope that its key has verified
  unfoldable pub register_manifest : Bytes → Envelope → Exec Response
  unfolding nested
  register_manifest body envelope =
      if_some (nested suit suit.decode_manifest envelope.manifest)
        (λ manifest.
          if_some (single manifest.components)
            (λ id.
              if_some (lib.encode_component id)
                (λ component. register body envelope manifest.manifest_sequence_number component)
                (pure not_parsed))
            (pure not_parsed))
        (pure not_parsed)

  -- from the envelope on
  unfoldable pub register_envelope : Bytes → Envelope → Exec Response
  unfolding verify
  register_envelope body envelope = do
    found ← attempt (get_entity_key lib envelope.authentication_wrapper.authentication_block.kid)
    if_some (join (succeeded found))
        (λ key.
          if_ok (verify suit envelope key) (λ _. register_manifest body envelope)
            (λ _. pure not_parsed))
        (pure not_parsed)

  unfoldable pub add_tc_manifest : Request → Exec Response
  unfolding bytes_eq read_body unmarshal_envelope
  add_tc_manifest r =
      if not (is_method r "POST")
      then pure method_not_allowed
      else if not (has_content_type r "application/suit-envelope+cose")
      then pure
          (http_error "This endpoint only accepts Content-Type: application/suit-envelope+cose" 415)
      else on_body (read_body max_request_body_bytes_for_suit r)
          (λ body.
            if_ok (unmarshal_envelope suit body) (λ envelope. register_envelope body envelope)
              (λ _. pure not_parsed))
          (http_error "request body is too large" 413) not_parsed

  -- ServeHTTP
  unfoldable pub serve : Tam Key → ServerCodec → Request → Exec Response
  unfolding bytes_eq
  serve tam codec r =
      if bytes_eq r.path (text "/tam")
      then tam_over_http lib tam r
      else if bytes_eq r.path (text "/SUITManifestService/ListManifests")
      then list_manifests codec r
      else if bytes_eq r.path (text "/SUITManifestService/RegisterManifest")
      then add_tc_manifest r
      else if bytes_eq r.path (text "/AgentService/ListAgents")
      then get_agent_list codec r
      else if bytes_eq r.path (text "/AgentService/GetAgentStatus")
      then get_agent_status_of codec r
      else pure (http_error "404 page not found" 404)
