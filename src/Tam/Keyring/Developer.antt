-- ===== src/Tam/Keyring/Developer.antt =====
-- The key that GetEntityKey returns (internal/tam/keyring.go).
use attes_tam.Base.{◌≡◌, refl, sym, ◌∙◌, not, none, some, Bytes, find, length, ◌==◌}
use attes_tam.Model.{other, ManifestSigningKey, Db, Time}
use attes_tam.Exec.Tells.{
  Tells, Tells-pure, Tells-raise, Tells-query, Tells-if, Tells-if_some, Tells-bind,
}
use attes_tam.Sqlite.Parties.{signing_kid_is, find_signing_key_by_kid}
use attes_tam.Tam.Library.{Library}
use attes_tam.Tam.Keyring.{get_entity_key}

-- The public key of a developer, as it is stored for the key id.
pub record IsEntityKey {Key : Type 0} (lib : Library Key) (kid : Bytes) (d : Db) (key : Key)
    : Type 0 where
  pub row : ManifestSigningKey
  pub is_row : find (signing_kid_is kid) d.manifest_signing_keys.rows ≡ some row
  pub is_key : lib.decode_key row.public_key ≡ some key

module _ {Key : Type 0} (lib : Library Key) where
  pub IsEntityKey-Tells :
      (kid : Bytes) (d : Db) (now : Time)
      → Tells d now
          (get_entity_key lib kid)
          (λ o. (key : Key) → o ≡ some key → IsEntityKey lib kid d key)
  unfolding get_entity_key find_signing_key_by_kid
  IsEntityKey-Tells kid d now =
      Tells-if (not (length kid == 32)) _ _ (λ _. Tells-raise other)
        λ _.
          Tells-bind (λ o. o ≡ find (signing_kid_is kid) d.manifest_signing_keys.rows) _ _
            (Tells-query _ refl)
            λ found is_found.
              Tells-if_some found _ _
                (λ row e.
                  Tells-if_some (lib.decode_key row.public_key) _ _
                    (λ key decoded. Tells-pure (some key) λ k same. record {
                      row = row;
                      is_row = sym is_found ∙ e;
                      is_key = decoded ∙ same;
                    })
                    (λ _. Tells-raise other))
                (λ _. Tells-pure none (λ key e. cc))
