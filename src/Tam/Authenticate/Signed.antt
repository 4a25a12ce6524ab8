-- ===== src/Tam/Authenticate/Signed.antt =====
-- What an authenticated message is (internal/tam/tam.go).
use attes_tam.Base.{
  ◌≡◌, refl, sym, ap, subst, ◌∙◌, true, false, not, Option, none, some, some-injective, Bytes, find,
  length, ◌==◌,
}
use attes_tam.Model.{
  Error, fatal, not_authenticated, not_teep_message, kid_is_missing, other, revoked, expired,
  not_found, Agent, Db, Time,
}
use attes_tam.Exec.{ok, World}
use attes_tam.Exec.Tells.{
  Tells, Tells-pure, Tells-raise, Tells-query, Tells-if, Tells-time_now, Tells-if_some, Tells-if_ok,
  Tells-bind, Tells-attempt, Tells-result,
}
use attes_tam.Sqlite.Agents.{kid_is, is_revoked, is_expired, selected, find_by_kid}
use attes_tam.Teep.Message.{Message, unmarshal}
use attes_tam.Tam.Library.{Sign1, Library}
use attes_tam.Tam.Keyring.{get_teep_agent_key}
use attes_tam.Tam.Authenticate.{
  Authentication, authenticated, unauthenticated, get_kid, check_signature_with_kid,
  try_authenticate_teep_message,
}

-- The row of a key id, neither revoked nor expired.
pub record IsValidAgent (kid : Bytes) (d : Db) (now : Time) (a : Agent) : Type 0 where
  pub is_stored : find (kid_is kid) d.agents.rows ≡ some a
  pub is_active : is_revoked a ≡ false
  pub is_current : is_expired a now ≡ false

pub find_by_kid-Tells :
    (kid : Bytes) (d : Db) (now : Time)
    → Tells d now
        (find_by_kid kid)
        (λ r. (a : Agent) × ((r ≡ selected a) × IsValidAgent kid d now a))
unfolding find_by_kid
find_by_kid-Tells kid d now =
    Tells-bind (λ o. o ≡ find (kid_is kid) d.agents.rows) _ _ (Tells-query _ refl)
      λ row found.
        Tells-bind (λ t. t ≡ now) _ _ Tells-time_now
          λ t is_now.
            Tells-if_some row _ _
              (λ a e.
                Tells-if (is_revoked a) _ _ (λ _. Tells-raise revoked)
                  λ active.
                    Tells-if (is_expired a t) _ _ (λ _. Tells-raise expired)
                      λ current. Tells-pure (selected a) (
                        a,
                        (
                          refl,
                          record {
                            is_stored = sym found ∙ e;
                            is_active = active;
                            is_current = ap (is_expired a) (sym is_now) ∙ current;
                          },
                        ),
                      ))
              (λ _. Tells-raise not_found)

-- The key of a key id is the one in its row.
pub record IsKey {Key : Type 0} (lib : Library Key) (kid : Bytes) (d : Db) (now : Time) (key : Key)
    : Type 0 where
  pub agent : Agent
  pub is_valid : IsValidAgent kid d now agent
  pub is_key : lib.decode_key agent.public_key ≡ some key

module _ {Key : Type 0} (lib : Library Key) where
  pub get_teep_agent_key-Tells :
      (kid : Bytes) (d : Db) (now : Time)
      → Tells d now (get_teep_agent_key lib kid) (IsKey lib kid d now)
  unfolding get_teep_agent_key
  get_teep_agent_key-Tells kid d now =
      Tells-if (not (length kid == 32)) _ _ (λ _. Tells-raise other)
        λ _. Tells-bind _ _ _ (find_by_kid-Tells kid d now) λ r valid.
          Tells-if_some (lib.decode_key r.public_key) _ _
            (λ key e. Tells-pure key (record {
              agent = valid.0;
              is_valid = valid.1.1;
              is_key = ap (λ (x : Agent). lib.decode_key x.public_key) (sym valid.1.0) ∙ e;
            }))
            (λ _. Tells-raise other)

-- A message that is signed with the key of an agent.
pub record IsSigned {Key : Type 0} (lib : Library Key) (raw : Bytes) (d : Db) (now : Time)
    (m : Message) (kid : Bytes) : Type 0 where
  pub sign1 : Sign1
  pub is_sign1 : lib.decode_sign1 raw ≡ some sign1
  pub is_message : unmarshal lib.codec sign1.payload ≡ ok m
  pub is_kid : get_kid sign1 ≡ some kid
  pub key : Key
  pub key_is_valid : IsKey lib kid d now key
  pub is_verified : lib.verifies key sign1 ≡ true

-- If the result names an agent, it has a message signed by that agent and no error.
pub record IsSound {Key : Type 0} (lib : Library Key) (raw : Bytes) (d : Db) (now : Time)
    (auth : Authentication) : Type 0 where
  pub when_known :
      (kid : Bytes)
      → auth.agent_kid ≡ some kid
      → (m : Message) × ((auth ≡ authenticated m kid) × IsSigned lib raw d now m kid)

module _ {Key : Type 0} (lib : Library Key) (raw : Bytes) (d : Db) (now : Time) where
  unknown-IsSound : (m : Option Message) (e : Error) → IsSound lib raw d now (unauthenticated m e)
  unknown-IsSound m e = record { when_known = λ kid q. cc }

  known-IsSound :
      (m : Message) (kid : Bytes)
      → IsSigned lib raw d now m kid
      → IsSound lib raw d now (authenticated m kid)
  known-IsSound m kid s = record {
    when_known = λ c q. (
      m,
      (
        ap (authenticated m) (some-injective _ _ q),
        subst (IsSigned lib raw d now m) (some-injective _ _ q) s,
      ),
    );
  }

  signature-Tells :
      (sign1 : Sign1)
      → lib.decode_sign1 raw ≡ some sign1
      → Tells d now (check_signature_with_kid lib sign1) (IsSound lib raw d now)
  unfolding check_signature_with_kid
  signature-Tells sign1 decoded =
      Tells-if_ok (unmarshal lib.codec sign1.payload) _ _
        (λ m is_m.
          Tells-if_some (get_kid sign1) _ _
            (λ kid is_kid.
              Tells-bind (λ r. (k : Key) → r ≡ ok k → IsKey lib kid d now k) _ _
                (Tells-attempt (get_teep_agent_key-Tells lib kid d now))
                λ r known.
                  Tells-if_ok r _ _
                    (λ k e.
                      Tells-if (not (lib.has_verifier k)) _ _
                        (λ _. Tells-pure _ (unknown-IsSound (some m) fatal))
                        λ _.
                          Tells-if (lib.verifies k sign1) _ _
                            (λ v. Tells-pure _ (
                              known-IsSound m kid (record {
                                sign1 = sign1;
                                is_sign1 = decoded;
                                is_message = is_m;
                                is_kid = is_kid;
                                key = k;
                                key_is_valid = known k e;
                                is_verified = v;
                              })))
                            (λ _. Tells-pure _ (unknown-IsSound (some m) not_authenticated)))
                    (λ _ _. Tells-pure _ (unknown-IsSound (some m) not_authenticated)))
            (λ _. Tells-pure _ (unknown-IsSound (some m) kid_is_missing)))
        (λ _ _. Tells-pure _ (unknown-IsSound none not_teep_message))

  authentication-Tells : Tells d now (try_authenticate_teep_message lib raw) (IsSound lib raw d now)
  unfolding try_authenticate_teep_message
  authentication-Tells =
      Tells-if_some (lib.decode_sign1 raw) _ _ (λ sign1 e. signature-Tells sign1 e)
        (λ _. Tells-pure _ (unknown-IsSound none other))

-- If tryAuthenticateTeepMessage returns an agent, then the bytes are a COSE_Sign1 whose payload is
-- the message that it returns, the key id in its header has a row that is neither revoked nor
-- expired, and its signature verifies with the key of that row.
pub authenticated_is_signed :
    {Key : Type 0} (lib : Library Key) (raw : Bytes) (w : World) (auth : Authentication)
    → (try_authenticate_teep_message lib raw w).0 ≡ ok auth
    → IsSound lib raw w.db w.now auth
authenticated_is_signed lib raw w auth e =
    Tells-result w (authentication-Tells lib raw w.db w.now) auth e
