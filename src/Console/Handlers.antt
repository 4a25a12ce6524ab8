-- ===== src/Console/Handlers.antt =====
-- cmd/admin-console/handlers.go and config.go: the answers of the console.
use attes_tam.Base.{Bool, Option, List, [], Bytes, bytes_eq, if◌then◌else◌}
use attes_tam.Model.{other}
use attes_tam.Exec.{Result, ok, err}
use attes_tam.Console.Api.{
  Agent, TrustedComponent, ConsoleLibrary, fetch_tam_manifests, post_tam_manifest,
}
use attes_tam.Console.Devices.{DevicesCache, fetch_tam_devices}

-- http.Error with its status, or the answer as JSON.
pub data Reply : Type 0 where
  devices : List Agent → Reply
  manifests : List TrustedComponent → Reply
  registered : Reply
  method_not_allowed internal_server_error bad_gateway : Reply

unfoldable pub validate_config : Bytes → Result Unit
unfolding bytes_eq
validate_config base = if bytes_eq base [] then err other else ok tt

-- The checks that the three handlers begin with.
unfoldable pub checked : Bool → Bytes → Reply → Reply
unfolding bytes_eq
checked allowed base reply =
    if allowed
    then (if bytes_eq base [] then internal_server_error else reply)
    else method_not_allowed

abbrev pub devices_reply : Result (List Agent) → Reply
devices_reply (ok agents) = devices agents
devices_reply (err e) = bad_gateway

abbrev pub manifests_reply : Result (List TrustedComponent) → Reply
manifests_reply (ok components) = manifests components
manifests_reply (err e) = bad_gateway

abbrev pub registered_reply : Result Unit → Reply
registered_reply (ok _) = registered
registered_reply (err e) = bad_gateway

module _ (lib : ConsoleLibrary) (base : Bytes) where
  -- The handlers of the two lists take GET only.
  unfoldable pub handle_list_agents : Bool → DevicesCache → Reply × DevicesCache
  unfolding fetch_tam_devices bytes_eq
  handle_list_agents is_get cache =
      if is_get
      then (if bytes_eq base [] then (internal_server_error, cache) else (
        devices_reply (fetch_tam_devices lib base cache).0,
        (fetch_tam_devices lib base cache).1,
      ))
      else (method_not_allowed, cache)

  unfoldable pub handle_list_manifests_service : Bool → Reply
  unfolding checked fetch_tam_manifests
  handle_list_manifests_service is_get =
      checked is_get base (manifests_reply (fetch_tam_manifests lib base))

  -- and that of the registration POST only.
  unfoldable pub handle_register_manifest : Bool → Option Bytes → Reply
  unfolding checked post_tam_manifest
  handle_register_manifest is_post file =
      checked is_post base (registered_reply (post_tam_manifest lib base file))
