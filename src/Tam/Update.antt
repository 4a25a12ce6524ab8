-- ===== src/Tam/Update.antt =====
-- The answer to an authenticated QueryResponse: processQueryResponse of internal/tam/tam.go.
pub mod Chosen
use attes_tam.Base.{
  ℕ, Bool, true, false, not, Option, none, some, List, [], ◌∷◌, ◌++◌, map, Bytes, bytes_eq, any,
  if◌then◌else◌,
}
use attes_tam.Model.{Error, fatal, SuitManifest}
use attes_tam.Exec.{Result, ok, err, Exec, pure, raise, if_some, if_ok, ◌>>=◌, ◌>>◌}
use attes_tam.Sqlite.Manifests
use attes_tam.Teep.Message.{
  ComponentId, SystemPropertyClaims, RequestedTcInfo, MessageType, Options, no_options, Message,
  message,
}
use attes_tam.Tam.Library.{Library, Tam}
use attes_tam.Tam.Sent.{or_fatal, generate_token, cose_sign1_sign, save_sent_update}
use attes_tam.Tam.Attest.{or_empty}

-- The inner loop: the component is appended unless it is there.
unfoldable pub add_component : Bytes → List Bytes → List Bytes
add_component c set = if any (bytes_eq c) set then set else set ++ c ∷ []

-- The components that the message asks for, requested-tc-list before tc-list.
unfoldable pub components_of : Options → List ComponentId
components_of options =
    map (λ (r : RequestedTcInfo). r.component_id) options.requested_tc_list
    ++ map (λ (c : SystemPropertyClaims). c.system_component_id) options.tc_list

-- One round of the loop over the component set: its latest manifest, if any, before the others'.
unfoldable pub choose_manifest : Bytes → Exec (List SuitManifest) → Exec (List SuitManifest)
choose_manifest component others = do
  found ← or_fatal (Manifests.find_latest_by_trusted_component_id component)
  rest ← others
  if_some found (λ m. pure (m ∷ rest)) (pure rest)

unfoldable pub choose_manifests : List Bytes → Exec (List SuitManifest)
choose_manifests [] = pure []
choose_manifests (c ∷ cs) = choose_manifest c (choose_manifests cs)

abbrev pub update_with : Bytes → List SuitManifest → Message
update_with token manifests = message MessageType.update (record no_options {
  token = some token;
  manifest_list = map (λ (m : SuitManifest). m.manifest) manifests;
})

module _ {Key : Type 0} (lib : Library Key) (tam : Tam Key) where
  abbrev pub add_encoded : Option Bytes → List Bytes → Option (List Bytes)
  add_encoded none set = none
  add_encoded (some c) set = some (add_component c set)

  abbrev pub bind_set :
      Option (List Bytes) → (List Bytes → Option (List Bytes)) → Option (List Bytes)
  bind_set none f = none
  bind_set (some set) f = f set

  -- The two loops that fill `componentSet`; an identifier that cannot be encoded stops them.
  unfoldable pub component_set : List ComponentId → List Bytes → Option (List Bytes)
  component_set [] set = some set
  component_set (c ∷ cs) set =
      bind_set (add_encoded (lib.encode_component c) set) (component_set cs)

  -- An empty list of manifests ends the session.
  unfoldable pub send_update : Bytes → Bytes → List SuitManifest → Exec (Option Bytes)
  send_update agent_kid token [] = pure none
  send_update agent_kid token (m ∷ ms) = do
    response ← cose_sign1_sign lib tam (update_with token (m ∷ ms))
    or_fatal (save_sent_update (update_with token (m ∷ ms)) token agent_kid (m ∷ ms))
    pure (some response)

  unfoldable pub process_query_response : Message → Bytes → Message → Exec (Option Bytes)
  process_query_response incoming agent_kid sent =
      if not (bytes_eq (or_empty incoming.options.token) (or_empty sent.options.token))
      then raise fatal
      else do
        token ← generate_token
        if_some token
            (λ t.
              if_some (component_set (components_of incoming.options) [])
                (λ components. do
                  manifests ← choose_manifests components
                  send_update agent_kid t manifests)
                (raise fatal))
            (raise fatal)
