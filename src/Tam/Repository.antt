-- ===== src/Tam/Repository.antt =====
-- internal/tam/manifest_repository_flow.go.
pub mod Envelope
pub mod Ordered
use attes_tam.Base.{
  ℕ, Bool, true, false, not, Option, none, some, List, Bytes, leb, ◌==◌, if◌then◌else◌,
}
use attes_tam.Model.{
  Error, fatal, not_authenticated, smaller_sequence_number, signing_key_mismatch, other, zero_time,
  ManifestSigningKey, SuitManifest,
}
use attes_tam.Exec.{Result, ok, err, Exec, pure, raise, attempt, if_some, if_ok, ◌>>=◌, ◌>>◌}
use attes_tam.Sqlite.Parties
use attes_tam.Sqlite.Manifests
use attes_tam.Tam.Sent.{or_nil, or_fatal}

unfoldable pub get_manifest : Bytes → Exec (Option SuitManifest)
get_manifest component = Manifests.find_latest_by_trusted_component_id component

unfoldable pub get_manifests : Exec (List SuitManifest)
get_manifests = Manifests.find_latest_all

abbrev pub new_manifest : Bytes → Bytes → ManifestSigningKey → Bytes → ℕ → SuitManifest
new_manifest envelope digest key component sequence_number = record {
  id = 0;
  manifest = envelope;
  digest = digest;
  signing_key_id = key.id;
  trusted_component_id = component;
  sequence_number = sequence_number;
  created_at = zero_time;
}

-- The checks against the manifest that is there for the component.
unfoldable pub check_existing : Option SuitManifest → ManifestSigningKey → ℕ → Exec Unit
check_existing existing key sequence_number =
    if_some existing
      (λ m.
        if leb sequence_number m.sequence_number
        then raise smaller_sequence_number
        else if not (m.signing_key_id == key.id)
        then raise signing_key_mismatch
        else pure tt)
      (pure tt)

-- SetEnvelope, once the envelope is there and its key was found.
unfoldable pub store_envelope : Bytes → Bytes → ManifestSigningKey → Bytes → ℕ → Exec Unit
store_envelope envelope digest key component sequence_number = do
  existing ← or_fatal (get_manifest component)
  check_existing existing key sequence_number
  _ ← Manifests.create (new_manifest envelope digest key component sequence_number)
  pure tt

-- The error of the key's look-up and its absence are the same to the caller.
abbrev pub join : Option (Option ManifestSigningKey) → Option ManifestSigningKey
join none = none
join (some key) = key

unfoldable pub set_envelope : Option Bytes → Bytes → Bytes → Bytes → ℕ → Exec Unit
set_envelope envelope digest kid component sequence_number =
    if_some envelope
      (λ bytes. do
        found ← or_nil (Parties.find_signing_key_by_kid kid)
        if_some (join found) (λ key. store_envelope bytes digest key component sequence_number)
            (raise not_authenticated))
      (raise other)
