-- ===== src/Tests/Requests.antt =====
-- Theorems on requests, claims and random bytes applied to runs.
use attes_tam.Base.{◌≡◌, refl, some, [], ◌∷◌, Bytes, ◌⊎◌, replicate, select, arith}
use attes_tam.Text.{text}
use attes_tam.Server.{answer}
use attes_tam.Server.Register.{add_tc_manifest, serve}
use attes_tam.Server.Published.{IsRegistered, registration_is_checked}
use attes_tam.Server.Reads.{get_requests_read}
use attes_tam.Tam.Known.{Recorded, IsReporting, Step-Recorded}
use attes_tam.Tam.System.{runs, teep_message}
use attes_tam.Rats.Backend.{sgx_quote3_teep}
use attes_tam.Tam.Attest.Bundled.{IsBundled, attested_claims-IsBundled}
use attes_tam.Exec.{ok}
use attes_tam.Sqlite.Tokens.{generate_unique_token}
use attes_tam.Sqlite.Tokens.Unused.{generate_unique_token-first_unused}
use attes_tam.Sqlite.Manifests.{is_for, latest_of, latest_rows}
use attes_tam.Sqlite.Manifests.Last.{to_list}
use attes_tam.Sqlite.Manifests.Listed.{latest_rows-latest_of}
use attes_tam.Sqlite.Challenges.{generate_unique_challenge}
use attes_tam.Sqlite.Challenges.Unused.{generate_unique_challenge-first_unused}
use attes_tam.Tests.Worlds.{
  component, first, second, asked, challenged, sgx_library, affirmed, suit_library, registering,
  listing, server_codec, acquainted, second_version, success_bytes,
}
use attes_tam.Tam.Resolve.{resolve_teep_message}
use attes_tam.Tests.Setup.{library, tam}
use attes_tam.Tests.Everything.{everything}

Step-Recorded_example :
    Recorded acquainted.db.holdings acquainted.db.suit_reports
      (resolve_teep_message library tam success_bytes acquainted).1.db
    ⊎ IsReporting library tam acquainted.db
        (resolve_teep_message library tam success_bytes acquainted).1.db
Step-Recorded_example =
    Step-Recorded library tam (teep_message success_bytes (runs acquainted refl refl))

registration_is_checked_example :
    (body : Bytes) × ((some (40 ∷ 41 ∷ []) ≡ some body)
      × IsRegistered library suit_library body second_version.db
          (add_tc_manifest library suit_library registering second_version).1.db)
unfolding everything
registration_is_checked_example =
    registration_is_checked library suit_library registering second_version
      (answer (text "OK\n") "text/plain") refl refl

get_requests_read_example :
    (serve library suit_library tam server_codec listing second_version).1.db ≡ second_version.db
get_requests_read_example =
    get_requests_read library suit_library tam server_codec listing refl second_version

attested_claims-IsBundled_example :
    IsBundled sgx_library (1 ∷ []) affirmed (record affirmed {
      attestation_key = some (replicate 32 7);
      attestation_nonce = some (9 ∷ []);
    })
unfolding everything
attested_claims-IsBundled_example =
    attested_claims-IsBundled sgx_library tam sgx_quote3_teep (1 ∷ []) affirmed
      (record affirmed {
        attestation_key = some (replicate 32 7);
        attestation_nonce = some (9 ∷ []);
      })
      acquainted refl refl

generate_unique_token-first_unused_example :
    (generate_unique_token (record asked { random = first ∷ second ∷ [] })).0 ≡ ok second
unfolding everything
generate_unique_token-first_unused_example =
    generate_unique_token-first_unused (record asked { random = first ∷ second ∷ [] }) refl

generate_unique_challenge-first_unused_example :
    (generate_unique_challenge (record challenged { random = first ∷ second ∷ [] })).0 ≡ ok second
unfolding everything
generate_unique_challenge-first_unused_example =
    generate_unique_challenge-first_unused (record challenged { random = first ∷ second ∷ [] }) refl

latest_rows-latest_of_example :
    select (is_for component) (latest_rows second_version.db.suit_manifests.rows)
    ≡ to_list (latest_of component second_version.db.suit_manifests.rows)
unfolding everything
latest_rows-latest_of_example =
    latest_rows-latest_of component second_version.db.suit_manifests.rows
      ((λ e. omega arith, tt), (tt, tt))
