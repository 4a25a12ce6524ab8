-- ===== src/Server/Published.antt =====
-- What a registration over HTTP has done (internal/server/handler.go).
use attes_tam.Base.{
  ℕ, ◌≡◌, refl, subst, Bool, true, false, not, Option, none, some, Bytes, length, arith, ltb,
  Bool-cases, inl, inr,
}
use attes_tam.Model.{panic, Db}
use attes_tam.Exec.{Result, ok, err, World, pure, if_ok}
use attes_tam.Exec.Gives.{
  Gives, Gives-bind, Gives-pure, Gives-raise, Gives-if, Gives-if_some, Gives-if_ok, Gives-weaken,
  Gives-fact, Gives-attempt,
}
use attes_tam.Exec.Tells.{Tells-attempt, Tells-Gives}
use attes_tam.Suit.{SuitLibrary, Manifest, Envelope, skip_tag, unmarshal_envelope, verify, nested}
use attes_tam.Teep.Message.{ComponentId}
use attes_tam.Tam.Library.{Library}
use attes_tam.Tam.Keyring.Developer.{IsEntityKey, IsEntityKey-Tells}
use attes_tam.Tam.Repository.{set_envelope}
use attes_tam.Tam.Repository.Ordered.{IsPublished, set_envelope-IsPublished}
use attes_tam.Server.{
  Request, Response, is_method, has_content_type, read_body, read_within, on_body, read, too_large,
  unreadable, ReadBody, max_request_body_bytes_for_suit, method_not_allowed, not_parsed, http_error,
  registration_error, is_panic, is_refusal, registration_status, single, join, succeeded,
}
use attes_tam.Server.Register.{register, register_manifest, register_envelope, add_tc_manifest}

pub record IsRegistered {Key : Type 0} (lib : Library Key) (suit : SuitLibrary Key) (body : Bytes)
    (before after : Db) : Type 0 where
  pub envelope : Envelope
  pub is_envelope : unmarshal_envelope suit body ≡ ok envelope
  pub key : Key
  pub key_is_trusted :
      IsEntityKey lib envelope.authentication_wrapper.authentication_block.kid before key
  pub is_verified : verify suit envelope key ≡ ok tt
  pub manifest : Manifest
  pub is_manifest : nested suit suit.decode_manifest envelope.manifest ≡ some manifest
  pub id : ComponentId
  pub is_only : single manifest.components ≡ some id
  pub component : Bytes
  pub is_component : lib.encode_component id ≡ some component
  pub is_published :
      IsPublished
        (skip_tag body).1
        envelope.authentication_wrapper.digest
        component
        manifest.manifest_sequence_number
        before
        after

set_envelope-Gives :
    (envelope digest kid component : Bytes) (n : ℕ) (d : Db)
    → Gives
        (λ e. e ≡ d)
        (set_envelope (some envelope) digest kid component n)
        (λ _ e. IsPublished envelope digest component n d e)
set_envelope-Gives envelope digest kid component n d = record {
  give = λ w a same e.
      subst
        (λ x.
          IsPublished envelope digest component n x
            (set_envelope (some envelope) digest kid component n w).1.db)
        same (set_envelope-IsPublished envelope digest kid component n w e);
}

-- A response other than 200 promises nothing.
abbrev Promises : (Db → Type 0) → Response → Db → Type 0
Promises Q r d = r.status ≡ 200 → Q d

refused : {P Q : Db → Type 0} (r : Response) → (r.status ≡ 200 → ⊥) → Gives P (pure r) (Promises Q)
refused r k = Gives-pure r (λ d h e. absurd (k e))

module _ {Key : Type 0} (lib : Library Key) (suit : SuitLibrary Key) (body : Bytes) (d₀ : Db) where
  registered-Gives :
      (envelope : Envelope) (n : ℕ) (component : Bytes)
      → Gives
          (λ d. d ≡ d₀)
          (register lib suit body envelope n component)
          (Promises
            (IsPublished (skip_tag body).1 envelope.authentication_wrapper.digest component n d₀))
  unfolding register
  registered-Gives envelope n component =
      Gives-bind _ _ _ (Gives-attempt (set_envelope-Gives _ _ _ component n d₀)) λ r.
        Gives-if_ok r _ _ (λ x e. Gives-pure _ (λ d h _. h x e))
          (λ x _.
            Gives-if (is_panic x) _ _ (λ _. Gives-raise panic)
              (λ _. refused (registration_error x) (λ e. not_ok (is_refusal x) e)))
    where
      not_ok : (b : Bool) → registration_status b ≡ 200 → ⊥
      not_ok true e = omega arith
      not_ok false e = omega arith

  -- The bytes of the envelope that were registered, with what was found in it.
  IsTaken : Envelope → Db → Type 0
  IsTaken envelope d =
      (manifest : Manifest) × ((nested suit suit.decode_manifest envelope.manifest ≡ some manifest)
        × ((id : ComponentId) × ((single manifest.components ≡ some id)
              × ((component : Bytes) × ((lib.encode_component id ≡ some component)
                    × IsPublished (skip_tag body).1 envelope.authentication_wrapper.digest component
                        manifest.manifest_sequence_number d₀ d)))))

  manifest-Gives :
      (envelope : Envelope)
      → Gives (λ d. d ≡ d₀) (register_manifest lib suit body envelope) (Promises (IsTaken envelope))
  unfolding register_manifest IsTaken
  manifest-Gives envelope =
      Gives-if_some (nested suit suit.decode_manifest envelope.manifest) _ _
        (λ manifest is_manifest.
          Gives-if_some (single manifest.components) _ _
            (λ id is_only.
              Gives-if_some (lib.encode_component id) _ _
                (λ component is_component.
                  Gives-weaken _
                    (registered-Gives envelope manifest.manifest_sequence_number component)
                    (λ a d h e.
                      (manifest, (is_manifest, (id, (is_only, (component, (is_component, h e))))))))
                (λ _. refused not_parsed (λ e. omega arith)))
            (λ _. refused not_parsed (λ e. omega arith)))
        (λ _. refused not_parsed (λ e. omega arith))

  envelope-Gives :
      (envelope : Envelope)
      → unmarshal_envelope suit body ≡ ok envelope
      → Gives
          (λ d. d ≡ d₀)
          (register_envelope lib suit body envelope)
          (Promises (IsRegistered lib suit body d₀))
  unfolding register_envelope IsTaken
  envelope-Gives envelope is_envelope =
      let kid = envelope.authentication_wrapper.authentication_block.kid in
      Gives-bind _ _ _ (Tells-Gives (λ now. Tells-attempt (IsEntityKey-Tells lib kid d₀ now)))
        λ found. Gives-fact λ known.
          Gives-if_some (join (succeeded found)) _ _
            (λ key e.
              Gives-if_ok (verify suit envelope key) _ _
                (λ _ is_verified. Gives-weaken _ (manifest-Gives envelope) λ a d h status.
                  let (
                    manifest,
                    (is_manifest, (id, (is_only, (component, (is_component, published))))),
                  ) =
                    h status in
                  record {
                    envelope = envelope;
                    is_envelope = is_envelope;
                    key = key;
                    key_is_trusted = trusted found known key e;
                    is_verified = is_verified;
                    manifest = manifest;
                    is_manifest = is_manifest;
                    id = id;
                    is_only = is_only;
                    component = component;
                    is_component = is_component;
                    is_published = published;
                  })
                (λ _ _. refused not_parsed (λ e. omega arith)))
            (λ _. refused not_parsed (λ e. omega arith))
    where
      trusted :
          {C : Key → Type 0} (found : Result (Option Key))
          → ((o : Option Key) → found ≡ ok o → (key : Key) → o ≡ some key → C key)
          → (key : Key) → join (succeeded found) ≡ some key
          → C key
      trusted (ok o) known key e = known o refl key (joined o key e)
        where
          joined : (o : Option Key) (key : Key) → join (some o) ≡ some key → o ≡ some key
          joined o key e = e
      trusted (err x) known key e = cc

-- A body that is read is the one that was sent.
body_read :
    (limit : ℕ) (sent : Option Bytes) (closes : Bool) (body : Bytes)
    → read_within limit sent closes ≡ read body
    → sent ≡ some body
body_read limit none closes body e = cc
body_read limit (some b) closes body e = elim (Bool-cases (ltb limit (length b))) [
  | inl large ↦ cc (large, e)
  | inr fits ↦ elim (Bool-cases closes) [ inl c ↦ cc (fits, c, e) | inr c ↦ cc (fits, c, e) ]
]

request-Gives :
    {Key : Type 0} (lib : Library Key) (suit : SuitLibrary Key) (r : Request) (d₀ : Db)
    → Gives
        (λ d. d ≡ d₀)
        (add_tc_manifest lib suit r)
        (Promises (λ d. (body : Bytes) × ((r.body ≡ some body) × IsRegistered lib suit body d₀ d)))
unfolding add_tc_manifest read_body
request-Gives lib suit r d₀ =
    Gives-if (not (is_method r "POST")) _ _ (λ _. refused method_not_allowed (λ e. omega arith))
      λ _.
        Gives-if (not (has_content_type r "application/suit-envelope+cose")) _ _
          (λ _.
            refused
              (http_error "This endpoint only accepts Content-Type: application/suit-envelope+cose"
                415)
              (λ e. omega arith))
          λ _. from_body (read_body max_request_body_bytes_for_suit r) refl
  where
    from_body :
        (b : ReadBody)
        → read_body max_request_body_bytes_for_suit r ≡ b
        → Gives
            (λ d. d ≡ d₀)
            (on_body b
              (λ body.
                if_ok
                  (unmarshal_envelope suit body)
                  (λ envelope. register_envelope lib suit body envelope)
                  (λ _. pure not_parsed))
              (http_error "request body is too large" 413)
              not_parsed)
            (Promises
              (λ d. (body : Bytes) × ((r.body ≡ some body) × IsRegistered lib suit body d₀ d)))
    from_body (read body) q =
        Gives-if_ok (unmarshal_envelope suit body) _ _
          (λ envelope e. Gives-weaken _ (envelope-Gives lib suit body d₀ envelope e) (λ a d h s.
            (body, (body_read max_request_body_bytes_for_suit r.body r.body_closes body q, h s))))
          (λ _ _. refused not_parsed (λ e. omega arith))
    from_body too_large q = refused (http_error "request body is too large" 413) (λ e. omega arith)
    from_body unreadable q = refused not_parsed (λ e. omega arith)

-- Registration checks everything it should. If RegisterManifest answers 200, then the body of the request
-- is an envelope, the key id in its authentication block is that of a stored developer's key, the envelope is
-- verified with that key, its manifest has exactly one component, and the envelope (without a tag) is
-- now the latest of that component, with its digest and its sequence number, while the latest manifests
-- of the other components are as before.
pub registration_is_checked :
    {Key : Type 0} (lib : Library Key) (suit : SuitLibrary Key) (r : Request) (w : World)
    (response : Response)
    → (add_tc_manifest lib suit r w).0 ≡ ok response
    → response.status ≡ 200
    → (body : Bytes) × ((r.body ≡ some body)
        × IsRegistered lib suit body w.db (add_tc_manifest lib suit r w).1.db)
registration_is_checked lib suit r w response e status =
    (request-Gives lib suit r w.db).give w response refl e status
