-- ===== src/Tam/Revoked.antt =====
-- Revoked agents over the runs of the TAM (internal/tam/keyring.go).
use attes_tam.Base.{
  ℕ, ◌≡◌, ◌≢◌, refl, ap, ◌∙◌, true, false, not, some, List, [], ◌∷◌, Bytes, bytes_eq, bytes_eq→eq,
  find, any, any-append, update_where, length, ◌==◌, arith,
}
use attes_tam.Model.{other, revoked, expired, not_found, Agent, Table, insert, Db}
use attes_tam.Exec.{ok, World, statement, time_now}
use attes_tam.Exec.Gives.{
  Gives, Gives-bind, Gives-raise, Gives-statement, Gives-query, Gives-time_now, Gives-guard,
  Gives-if, Gives-if_some, Gives-pure,
}
use attes_tam.Sqlite.Agents.{
  kid_is, is_revoked, is_expired, kid_is_active, find_by_kid, insert_agent, revoke_rows,
  revoke_by_kid, unix,
}
use attes_tam.Sqlite.Frames.{agents_frame}
use attes_tam.Tam.Library.{Library, Tam}
use attes_tam.Tam.Keyring.{revoke_teep_agent_key, get_teep_agent_key}
use attes_tam.Tam.Frames.{agents_invariant}
use attes_tam.Tam.System.{IsInvariant, Reach, Reach-keeps}

-- Some row has the key id, and all that have it are revoked.
pub record IsRevokedIn (kid : Bytes) (t : Table Agent) : Type 0 where
  pub present : any (kid_is kid) t.rows ≡ true
  pub inactive : any (kid_is_active kid) t.rows ≡ false

abbrev pub IsRevoked : Bytes → Db → Type 0
IsRevoked kid d = IsRevokedIn kid d.agents

abbrev pub revoke : ℕ → Agent → Agent
revoke at a = record a { revoked_at = some at }

any-revoked :
    (b c : Bytes) (at : ℕ) (rows : List Agent)
    → any (kid_is b) (update_where (kid_is_active c) (revoke at) rows) ≡ any (kid_is b) rows
unfolding any update_where
any-revoked b c at [] = refl
any-revoked b c at (a ∷ rows) = ground (arith, any-revoked b c at rows)

inactive-revoked :
    (b c : Bytes) (at : ℕ) (rows : List Agent)
    → any (kid_is_active b) rows ≡ false
    → any (kid_is_active b) (update_where (kid_is_active c) (revoke at) rows) ≡ false
unfolding any update_where
inactive-revoked b c at [] h = refl
inactive-revoked b c at (a ∷ rows) h = ground (arith, inactive-revoked b c at rows)

inactive-revoked_self :
    (b : Bytes) (at : ℕ) (rows : List Agent)
    → any (kid_is_active b) (update_where (kid_is_active b) (revoke at) rows) ≡ false
unfolding any update_where
inactive-revoked_self b at [] = refl
inactive-revoked_self b at (a ∷ rows) = ground (arith, inactive-revoked_self b at rows)

active-present :
    (b : Bytes) (rows : List Agent) → any (kid_is_active b) rows ≡ true → any (kid_is b) rows ≡ true
unfolding any
active-present b [] h = h
active-present b (a ∷ rows) h = ground (arith, active-present b rows)

any-kid_is :
    (b c : Bytes) (rows : List Agent)
    → bytes_eq b c ≡ true
    → any (kid_is b) rows ≡ any (kid_is c) rows
any-kid_is b c rows h = ap (λ x. any (kid_is x) rows) (bytes_eq→eq b c h)

insert_agent-IsRevoked :
    (kid : Bytes) (a : Agent) (d : Db) → IsRevoked kid d → IsRevoked kid (insert_agent a d).1
unfolding insert_agent insert any
insert_agent-IsRevoked kid a d h = record {
  present = ground (
    arith,
    h.present,
    any-append (kid_is kid) d.agents.rows (record a { id = d.agents.next_id } ∷ []),
  );
  inactive = ground (
    arith,
    h.inactive,
    h.present,
    any-append (kid_is_active kid) d.agents.rows (record a { id = d.agents.next_id } ∷ []),
    any-kid_is a.kid kid d.agents.rows,
  );
}

revoke_rows-IsRevoked :
    (b c : Bytes) (at : ℕ) (d : Db) → IsRevoked b d → IsRevoked b (revoke_rows c at d).1
unfolding revoke_rows
revoke_rows-IsRevoked b c at d h = record {
  present = any-revoked b c at d.agents.rows ∙ h.present;
  inactive = inactive-revoked b c at d.agents.rows h.inactive;
}

revoke_rows_revokes :
    (kid : Bytes) (at : ℕ) (d : Db)
    → any (kid_is_active kid) d.agents.rows ≡ true
    → IsRevoked kid (revoke_rows kid at d).1
unfolding revoke_rows
revoke_rows_revokes kid at d h = record {
  present = any-revoked kid kid at d.agents.rows ∙ active-present kid d.agents.rows h;
  inactive = inactive-revoked_self kid at d.agents.rows;
}

revoked_found :
    (kid : Bytes) (rows : List Agent) (a : Agent)
    → any (kid_is_active kid) rows ≡ false
    → find (kid_is kid) rows ≡ some a
    → is_revoked a ≡ true
unfolding any find
revoked_found kid [] a h e = cc
revoked_found kid (b ∷ rows) a h e = ground (arith, revoked_found kid rows a)

IsRevoked-IsInvariant : (kid : Bytes) → IsInvariant (IsRevoked kid)
unfolding revoke_rows
IsRevoked-IsInvariant kid =
    agents_invariant (IsRevokedIn kid) (agents_frame (IsRevokedIn kid) (insert_agent-IsRevoked kid))
      (λ c at d h. revoke_rows-IsRevoked kid c at d h)

revocation_revokes :
    (kid : Bytes) → Gives (λ _. Unit {0}) (revoke_teep_agent_key kid) (λ _ d. IsRevoked kid d)
unfolding revoke_teep_agent_key revoke_by_kid revoke_rows
revocation_revokes kid =
    Gives-if (not (length kid == 32)) _ _ (λ _. Gives-raise other)
      λ _.
        Gives-bind (λ _ _. Unit {0}) time_now _ (Gives-time_now (λ _ _ _. tt))
          λ now.
            Gives-bind (λ affected d. affected ≡ true → IsRevoked kid d)
              (statement (revoke_rows kid (unix now))) _
              (Gives-statement _ λ d a h e q. revoke_rows_revokes kid (unix now) d (ground arith))
              λ affected. Gives-guard affected not_found (λ d k e. k e)

find_by_kid-Gives_none : (kid : Bytes) → Gives (IsRevoked kid) (find_by_kid kid) (λ _ _. ⊥)
unfolding find_by_kid
find_by_kid-Gives_none kid =
    Gives-bind (λ o _. (a : Agent) → o ≡ some a → is_revoked a ≡ true) _ _
      (Gives-query _ (λ d h a e. revoked_found kid d.agents.rows a h.inactive e))
      λ found.
        Gives-bind (λ _ _. (a : Agent) → found ≡ some a → is_revoked a ≡ true) time_now _
          (Gives-time_now (λ d t h. h))
          λ now.
            Gives-if_some found _ _
              (λ a e.
                Gives-if (is_revoked a) _ _ (λ _. Gives-raise revoked)
                  (λ active.
                    Gives-if (is_expired a now) _ _ (λ _. Gives-raise expired)
                      (λ _. Gives-pure _ (λ d h. cc (active, h a e)))))
              (λ e. Gives-raise not_found)

key_refused :
    {Key : Type 0} (lib : Library Key) (kid : Bytes)
    → Gives (IsRevoked kid) (get_teep_agent_key lib kid) (λ _ _. ⊥)
unfolding get_teep_agent_key
key_refused lib kid =
    Gives-if (not (length kid == 32)) _ _ (λ _. Gives-raise other)
      λ _.
        Gives-bind (λ _ _. ⊥) (find_by_kid kid) _ (find_by_kid-Gives_none kid)
          λ a.
            Gives-if_some (lib.decode_key a.public_key) _ _ (λ k _. Gives-pure k (λ d h. h))
              (λ _. Gives-raise other)

-- A revocation lasts. Once RevokeTEEPAgentKey has succeeded for a key id, no sequence of requests
-- (attestations that would store the key again among them) makes GetTEEPAgentKey return a key for
-- it.
pub revoked_key_is_refused :
    {Key : Type 0} (lib : Library Key) (tam : Tam Key) (kid : Bytes) (w : World)
    → (revoke_teep_agent_key kid w).0 ≡ ok tt
    → (v : World) → Reach lib tam (revoke_teep_agent_key kid w).1.db v.db
    → (key : Key) → (get_teep_agent_key lib kid v).0 ≢ ok key
revoked_key_is_refused lib tam kid w e v reached key found =
    let revoked = (revocation_revokes kid).give w tt tt e in
    let still = Reach-keeps (IsRevoked-IsInvariant kid) reached revoked in
    (key_refused lib kid).give v key still found
