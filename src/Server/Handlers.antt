-- ===== src/Server/Handlers.antt =====
-- internal/server/handler.go: the handlers other than registration.
use attes_tam.Base.{not, ◌&&◌, ◌||◌, List, [], ◌∷◌, map, Bytes, bytes_eq, ltb, if◌then◌else◌}
use attes_tam.Model.{panic, Entity}
use attes_tam.Exec.{Exec, pure, raise, attempt, if_some, if_ok, ◌>>=◌}
use attes_tam.Sqlite.Parties.{find_entity_by_name}
use attes_tam.Tam.Library.{Library, Tam}
use attes_tam.Tam.Repository.{get_manifests}
use attes_tam.Tam.Resolve.{resolve_teep_message}
use attes_tam.Tam.Status.{AgentStatusRecord, get_agent_status, get_agent_statuses}
use attes_tam.Server.{
  Request, Response, ServerCodec, http_error, answer, is_method, accepts, has_content_type,
  max_request_body_bytes, read_body, on_body, internal_error, method_not_allowed, failed_with,
  resolution_error, reply, overview, admin_name,
}

module _ {Key : Type 0} (lib : Library Key) (tam : Tam Key) where
  -- tamOverHttp
  unfoldable pub tam_over_http : Request → Exec Response
  unfolding bytes_eq read_body
  tam_over_http r =
      if not (is_method r "POST")
      then pure internal_error
      else if not (accepts r "application/teep+cbor")
      then pure (http_error "This endpoint only accepts Accept: application/teep+cbor" 415)
      else if not (has_content_type r "application/teep+cbor")
      then pure (http_error "This endpoint only accepts Content-Type: application/teep+cbor" 415)
      else on_body (read_body max_request_body_bytes r)
          (λ body. do
            resolved ← attempt (resolve_teep_message lib tam body)
            if_ok resolved (λ response. pure (reply response)) (failed_with resolution_error))
          internal_error internal_error

module _ (codec : ServerCodec) where
  -- getManifests
  unfoldable pub list_manifests : Request → Exec Response
  unfolding bytes_eq
  list_manifests r =
      if not (is_method r "GET")
      then pure method_not_allowed
      else if not (accepts r "application/cbor")
      then pure (http_error "This endpoint only accepts Accept: application/cbor" 415)
      else do
        stored ← attempt get_manifests
        if_ok stored
            (λ manifests.
              if_some (codec.encode_manifests (map overview manifests))
                (λ encoded. pure (answer encoded "application/cbor"))
                (pure (http_error "failed to get SUIT Manifest" 500)))
            (λ _. pure (http_error "failed to get SUIT Manifest" 500))

  -- getAgentList; an entity that is not found is dereferenced
  unfoldable pub get_agent_list : Request → Exec Response
  unfolding bytes_eq
  get_agent_list r =
      if not (is_method r "GET")
      then pure method_not_allowed
      else if not (accepts r "application/cbor")
      then pure (http_error "This endpoint only accepts Accept: application/cbor" 415)
      else do
        found ← attempt (find_entity_by_name admin_name)
        if_ok found
            (λ row.
              if_some row
                (λ (entity : Entity).
                  if entity.is_tam_admin || entity.is_device_admin && ltb 0 entity.id
                  then (do
                    agents ← attempt get_agent_statuses
                    if_ok agents
                        (λ keys.
                          if_some (codec.encode_agents keys)
                            (λ encoded. pure (answer encoded "application/cbor"))
                            (pure (http_error "failed to encode TEEP Agent list" 500)))
                        (λ _. pure (http_error "failed to get TEEP Agent list" 500)))
                  else pure (http_error "forbidden" 403))
                (raise panic))
            (λ _. pure (http_error "unauthorized" 401))

  -- One round of the loop over the key ids; an agent that is not found is passed over.
  unfoldable pub add_status : Bytes → Exec (List AgentStatusRecord) → Exec (List AgentStatusRecord)
  add_status kid others = do
    status ← get_agent_status kid
    rest ← others
    if_some status (λ s. pure (s ∷ rest)) (pure rest)

  unfoldable pub status_list : List Bytes → Exec (List AgentStatusRecord)
  status_list [] = pure []
  status_list (kid ∷ kids) = add_status kid (status_list kids)

  -- getAgentStatus
  unfoldable pub get_agent_status_of : Request → Exec Response
  unfolding bytes_eq read_body
  get_agent_status_of r =
      if not (is_method r "POST")
      then pure method_not_allowed
      else if not (accepts r "application/cbor")
      then pure (http_error "This endpoint only accepts Accept: application/cbor" 415)
      else if not (has_content_type r "application/cbor")
      then pure (http_error "This endpoint only accepts Content-Type: application/cbor" 415)
      else on_body (read_body max_request_body_bytes r)
          (λ body.
            if_some (codec.decode_kids body)
              (λ kids. do
                found ← attempt (find_entity_by_name admin_name)
                if_ok found
                    (λ _. do
                      statuses ← attempt (status_list kids)
                      if_ok statuses
                          (λ records.
                            if_some (codec.encode_statuses records)
                              (λ encoded. pure (answer encoded "application/cbor"))
                              (pure (http_error "failed to encode TEEP Agent status" 500)))
                          (λ _. pure (http_error "failed to get TEEP Agent status" 500)))
                    (λ _. pure (http_error "failed to find Device Admin entity" 400)))
              (pure (http_error "failed to parse Request Body" 400)))
          (http_error "request body is too large" 413)
          (http_error "failed to parse Request Body" 400)
