-- ===== src/Tam/Attest/Sound.antt =====
-- What an agent that is known by its attestation has shown (internal/tam/tam.go).
use attes_tam.Base.{◌≡◌, refl, true, Option, none, some, Bytes}
use attes_tam.Model.{fatal, not_authenticated, attestation_payload_not_found, Db}
use attes_tam.Exec.{ok, World, attempt, if_some}
use attes_tam.Exec.Keeps.{Keeps-attempt}
use attes_tam.Exec.Gives.{
  Gives, Gives-bind, Gives-pure, Gives-raise, Gives-if, Gives-if_some, Gives-if_ok, Gives-weaken,
  Gives-keeps,
}
use attes_tam.Sqlite.Challenges.Spent.{IsSpent}
use attes_tam.Teep.Message.{Message}
use attes_tam.Rats.Claims.{ProcessedAttestation}
use attes_tam.Tam.Library.{Library, Tam}
use attes_tam.Tam.Keyring.{set_teep_agent_key}
use attes_tam.Tam.Sent.{search_sent_message_with_challenge}
use attes_tam.Tam.Authenticate.{verify_cose_signature}
use attes_tam.Tam.Challenged.{IsOpen, IsSpent-IsLasting, search_spends}
use attes_tam.Tam.Stable.{key_set, payload_submitted, claims_attested}
use attes_tam.Tam.Attest.{
  or_empty, is_affirming, Verified, adopt_key, verify_affirmed, verify_attestation_payload,
}

-- The nonce of the claims was a challenge of the TAM that an unconsumed row had before and none has
-- after, the body verifies with the attested key, and
-- the agent is named by the thumbprint of that key.
pub record IsAttested {Key : Type 0} (lib : Library Key) (tam : Tam Key) (body : Bytes)
    (v : Verified lib tam) (before after : Db) : Type 0 where
  pub nonce : Bytes
  pub is_nonce : v.result.attestation_nonce ≡ some nonce
  pub was_open : IsOpen nonce before
  pub is_answered : IsSpent nonce after
  pub key : Key
  pub is_key : v.result.attestation_key ≡ some key
  pub is_signed : verify_cose_signature lib body key ≡ true
  pub is_named : lib.thumbprint key ≡ v.agent_kid

module _ {Key : Type 0} (lib : Library Key) (tam : Tam Key) where
  -- The key with which the body is signed, and its name.
  record IsAdopted (body : Bytes) (result : ProcessedAttestation Key) (kid : Option Bytes)
      : Type 0 where
    key : Key
    is_key : result.attestation_key ≡ some key
    is_signed : verify_cose_signature lib body key ≡ true
    is_named : lib.thumbprint key ≡ kid

  adopted :
      (body format : Bytes) (result : ProcessedAttestation Key) (P R : Db → Type 0)
      → ((key : Key)
          → Gives P (attempt (set_teep_agent_key lib (some key) result.attestation_ueid)) (λ _. R))
      → Gives P (adopt_key lib tam body format result) (λ kid d. IsAdopted body result kid × R d)
  unfolding adopt_key
  adopted body format result P R k =
      Gives-if _ _ _ (λ _. Gives-raise not_authenticated)
        λ _.
          Gives-if_some result.attestation_key _ _
            (λ key is_key.
              Gives-if (verify_cose_signature lib body key) _ _
                (λ signed.
                  Gives-bind (λ _. R) _ _ (k key)
                    λ stored.
                      Gives-if_ok stored _ _
                        (λ _ _. Gives-pure _ (λ d p. (
                          record {
                            key = key;
                            is_key = is_key;
                            is_signed = signed;
                            is_named = refl;
                          },
                          p,
                        )))
                        (λ _ _. Gives-raise fatal))
                (λ _. Gives-raise not_authenticated))
            (λ _. Gives-raise not_authenticated)

  -- The nonce is a challenge that was open on `d₀` and is consumed on `d`.
  abbrev Answers : Option Bytes → Db → Db → Type 0
  Answers nonce d₀ d = (n : Bytes) × ((nonce ≡ some n) × (IsOpen n d₀ × IsSpent n d))

  -- The challenge that the claims answer.
  answered :
      (nonce : Option Bytes) (d₀ : Db)
      → Gives
          (λ d. d ≡ d₀)
          (search_sent_message_with_challenge nonce)
          (λ o d. (m : Message) → o ≡ some m → Answers nonce d₀ d)
  unfolding search_sent_message_with_challenge if_some
  answered none d₀ = Gives-pure none (λ d h m e. cc)
  answered (some n) d₀ =
      Gives-weaken (λ o d. (m : Message) → o ≡ some m → IsOpen n d₀ × IsSpent n d)
        (search_spends n d₀) (λ o d h m e. (n, (refl, h m e)))

  -- Storing the key leaves the challenge consumed.
  key_stored :
      (answer ueid : Option Bytes) (sent : Option Message) (s : Message) (key : Key) (d₀ : Db)
      → sent ≡ some s
      → Gives
          (λ d. (m : Message) → sent ≡ some m → Answers answer d₀ d)
          (attempt (set_teep_agent_key lib (some key) ueid))
          (λ _ d. Answers answer d₀ d)
  key_stored answer ueid sent s key d₀ found = record {
    give = λ w r h e.
        let (n, (is_nonce, (opened, spent))) = h s found in
        let stays = Keeps-attempt _ (key_set (IsSpent-IsLasting n).stable lib (some key) ueid) in
        (n, (is_nonce, (opened, stays.keep w spent)));
  }

  affirmed-Gives :
      (body format payload : Bytes) (affirmed : ProcessedAttestation Key) (d₀ : Db)
      → Gives
          (λ d. d ≡ d₀)
          (verify_affirmed lib tam body format payload none affirmed)
          (λ v. IsAttested lib tam body v d₀)
  unfolding verify_affirmed
  affirmed-Gives body format payload affirmed d₀ =
      Gives-bind (λ _ d. d ≡ d₀) _ _
        (Gives-keeps (claims_attested lib tam format payload affirmed) (λ d h. h))
        λ result. Gives-bind _ _ _ (answered result.attestation_nonce d₀) λ sent.
          Gives-if_some sent _ _
            (λ s found.
              Gives-if_some none _ _ (λ kid e. cc)
                (λ _.
                  Gives-bind _ _ _
                    (adopted body format result _ (Answers result.attestation_nonce d₀) (λ key.
                      key_stored result.attestation_nonce result.attestation_ueid sent s key d₀
                        found))
                    λ kid. Gives-pure _ λ d h. record {
                      nonce = h.1.0;
                      is_nonce = h.1.1.0;
                      was_open = h.1.1.1.0;
                      is_answered = h.1.1.1.1;
                      key = h.0.key;
                      is_key = h.0.is_key;
                      is_signed = h.0.is_signed;
                      is_named = h.0.is_named;
                    }))
            (λ _. Gives-raise not_authenticated)

  payload-Gives :
      (body : Bytes) (incoming : Message) (d₀ : Db)
      → Gives
          (λ d. d ≡ d₀)
          (verify_attestation_payload lib tam body incoming none)
          (λ v d. (kid : Bytes) → v.agent_kid ≡ some kid → IsAttested lib tam body v d₀ d)
  unfolding verify_attestation_payload
  payload-Gives body incoming d₀ =
      Gives-if_some incoming.options.attestation_payload _ _
        (λ payload _.
          Gives-bind (λ _ d. d ≡ d₀) _ _
            (Gives-keeps
              (payload_submitted lib tam (or_empty incoming.options.attestation_payload_format)
                payload)
              (λ d h. h))
            λ result.
              Gives-if (is_affirming result.ear_status) _ _
                (λ _.
                  Gives-weaken (λ v. IsAttested lib tam body v d₀)
                    (affirmed-Gives body (or_empty incoming.options.attestation_payload_format)
                      payload result d₀)
                    (λ v d h kid e. h))
                (λ _. Gives-pure _ (λ d h kid e. cc)))
        (λ _. Gives-raise attestation_payload_not_found)

-- Attestation introduces an agent only by its own key. If verifyAttestationPayload, for a message of
-- an agent that is not known, returns the key id of one, then the nonce among the attested claims
-- was a challenge of the TAM that was unconsumed before the call and is consumed after it, the body's signature verifies with the
-- attested key, and the key id is the thumbprint of that key.
pub verify_attestation_payload-IsAttested :
    {Key : Type 0} (lib : Library Key) (tam : Tam Key) (body : Bytes) (incoming : Message)
    (w : World) (v : Verified lib tam) (kid : Bytes)
    → (verify_attestation_payload lib tam body incoming none w).0 ≡ ok v
    → v.agent_kid ≡ some kid
    → IsAttested lib tam body v w.db (verify_attestation_payload lib tam body incoming none w).1.db
verify_attestation_payload-IsAttested lib tam body incoming w v kid e named =
    (payload-Gives lib tam body incoming w.db).give w v refl e kid named
