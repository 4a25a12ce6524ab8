-- ===== src/Tam/Construct.antt =====
-- The constructors of the TAM (internal/tam/tam.go).
use attes_tam.Base.{Option, none, some, [], Bytes, bytes_eq, if◌then◌else◌}
use attes_tam.Model.{other}
use attes_tam.Exec.{Result, ok, err}
use attes_tam.Config.{RaConfig}
use attes_tam.Demo.Data.{demo_tam_private_key}
use attes_tam.Rats.Results.{required, ◌>>=◌}
use attes_tam.Tam.Library.{Library, Verifier, Tam}

-- `resolver` is newVerifierResolver, whose cache is modelled on its own; `read_file` is os.ReadFile.
module _ {Key : Type 0} (lib : Library Key)
    (resolver : RaConfig → Bytes → Result (Option (Verifier Key)))
    (read_file : Bytes → Option Bytes) where
  unfoldable pub new_tam_from_key_bytes_and :
      Bytes
      → Option (Verifier Key)
      → Option (Bytes → Result (Option (Verifier Key)))
      → Result (Tam Key)
  new_tam_from_key_bytes_and key_bytes verifier resolve = do
    key ← required (lib.decode_key key_bytes)
    ok (record { resolve_verifier = resolve; verifier = verifier; tam_key = key })

  unfoldable pub new_tam_from_key_bytes : Bytes → Option (Verifier Key) → Result (Tam Key)
  unfolding new_tam_from_key_bytes_and
  new_tam_from_key_bytes key_bytes verifier = new_tam_from_key_bytes_and key_bytes verifier none

  unfoldable pub new_tam_from_key_bytes_with_ra_config : Bytes → RaConfig → Result (Tam Key)
  unfolding new_tam_from_key_bytes_and
  new_tam_from_key_bytes_with_ra_config key_bytes cfg =
      new_tam_from_key_bytes_and key_bytes none (some (resolver cfg))

  -- The check of the path and the reading of the file, which two constructors begin with.
  unfoldable pub key_file : Bytes → Result Bytes
  unfolding bytes_eq
  key_file path = if bytes_eq path [] then err other else required (read_file path)

  unfoldable pub new_tam : Bytes → Option (Verifier Key) → Result (Tam Key)
  unfolding key_file new_tam_from_key_bytes
  new_tam path verifier = do key_bytes ← key_file path; new_tam_from_key_bytes key_bytes verifier

  unfoldable pub new_tam_with_ra_config : Bytes → RaConfig → Result (Tam Key)
  unfolding key_file new_tam_from_key_bytes_with_ra_config
  new_tam_with_ra_config path cfg = do
    key_bytes ← key_file path
    new_tam_from_key_bytes_with_ra_config key_bytes cfg

  unfoldable pub new_demo_tam : Option (Verifier Key) → Result (Tam Key)
  unfolding new_tam_from_key_bytes
  new_demo_tam verifier = new_tam_from_key_bytes demo_tam_private_key verifier

  unfoldable pub new_demo_tam_with_ra_config : RaConfig → Result (Tam Key)
  unfolding new_tam_from_key_bytes_with_ra_config
  new_demo_tam_with_ra_config cfg = new_tam_from_key_bytes_with_ra_config demo_tam_private_key cfg
