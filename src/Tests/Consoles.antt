-- ===== src/Tests/Consoles.antt =====
-- The theorem on the console applied to a run.
use attes_tam.Base.{◌≡◌, refl, none, some, List, [], ◌∷◌, Bytes}
use attes_tam.Model.{zero_time}
use attes_tam.Text.{text}
use attes_tam.Tam.Status.{AgentStatusKey}
use attes_tam.Console.Api.{Agent, ConsoleLibrary}
use attes_tam.Console.Devices.{DevicesCache, empty_cache, fetch_tam_devices}
use attes_tam.Console.Devices.Uncached.{fetch_tam_devices_uncached}
use attes_tam.Tests.Everything.{everything}

abbrev keys : List AgentStatusKey
keys =
    record { agent_kid = 1 ∷ []; updated_at = 10 }
    ∷ record { agent_kid = []; updated_at = 20 }
    ∷ record { agent_kid = 2 ∷ []; updated_at = 30 }
    ∷ []

-- A TAM with two agents, one of which holds a component.
abbrev console_library : ConsoleLibrary
console_library = record {
  do_request = λ _.
      some (record { status_code = 200; content_type = text "application/cbor"; body = some [] });
  decode_keys = λ _. some keys;
  decode_records = λ _. some (
      record {
        agent_kid = 2 ∷ [];
        device_ueid = none;
        suit_manifests = record { trusted_component_id = 7 ∷ []; sequence_number = 3 } ∷ [];
      }
      ∷ record { agent_kid = 1 ∷ []; device_ueid = some (4 ∷ []); suit_manifests = [] }
      ∷ []);
  decode_overviews = λ _. none;
  decode_component = λ b. some (b ∷ []);
  encode_kids = λ _. some [];
}

abbrev fetched : List Agent
fetched =
    record {
      kid = 2 ∷ [];
      last_update = zero_time;
      ueid = [];
      installed = record { name = (7 ∷ []) ∷ []; version = 3 } ∷ [];
    }
    ∷ record { kid = 1 ∷ []; last_update = zero_time; ueid = 4 ∷ []; installed = [] }
    ∷ []

abbrev old_cache : DevicesCache
old_cache kid = some (record { kid = kid; last_update = 1; ueid = []; installed = [] })

abbrev base : Bytes
base = text "http://127.0.0.1:8080/"

fetch_tam_devices_uncached_example :
    (fetch_tam_devices console_library base old_cache).0
    ≡ (fetch_tam_devices console_library base empty_cache).0
unfolding everything
fetch_tam_devices_uncached_example =
    fetch_tam_devices_uncached console_library base keys fetched old_cache empty_cache refl refl
      (refl, (refl, tt))
